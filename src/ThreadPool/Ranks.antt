-- ===== src/ThreadPool/Ranks.antt =====
-- src/ThreadPool.cc: how far the threads are from their ends when `running_` is false.
use security_transmission_pl.Base.{
  ℕ, zero, suc, ◌+◌, ◌≤◌, ◌<◌, ◌≡◌, ◌⊎◌, refl, ap, Bool, true, false, List, [], ◌∷◌, ◌++◌, not,
  ◌&&◌, if◌then◌else◌, arith, inl, inr, if_true, if_false,
}
use security_transmission_pl.ThreadPool.{
  Worker, at_while, at_lock, at_wait, asleep, at_take, returned, with_task, ThreadPool, goes,
  is_empty, thread_func, Stop, not_called, notifying, joining, stopped, System,
}
use security_transmission_pl.ThreadPool.Tasks.{total, total_mid, After, gone, After-if}
use security_transmission_pl.ThreadPool.Locking.{IsLocked}
use security_transmission_pl.ThreadPool.Stopping.{stuck, turn_stopped}

-- How many steps a thread of a stopped pool still takes, if it is not stuck.
abbrev pub rank : Worker → ℕ
rank (with_task t) = 2
rank at_lock = 2
rank at_while = 1
rank at_take = 1
rank at_wait = 0
rank asleep = 0
rank returned = 0

-- The same with the end of the joins.
abbrev pub stop_rank : Stop → ℕ
stop_rank joining = 1
stop_rank not_called = 0
stop_rank notifying = 0
stop_rank stopped = 0

abbrev pub rank_of : System → ℕ
rank_of s = total rank s.threads + stop_rank s.stop

-- A thread that counts among those that are summed up.
pub counted_at :
    (f : Worker → ℕ) (ws : List Worker)
    → 1 ≤ total f ws
    → (us : List Worker) × (w : Worker) × (vs : List Worker) × (ws ≡ us ++ w ∷ vs) × (1 ≤ f w)
counted_at f [] h = absurd (omega arith)
counted_at f (w ∷ ws) h =
    elim (f w)
        as (λ n.
          f w ≡ n
          → (us : List Worker) × (v : Worker) × (vs : List Worker) × (w ∷ ws ≡ us ++ v ∷ vs)
            × (1 ≤ f v)) [
              | zero ↦ λ e.
                  let (us, v, vs, same, one) = counted_at f ws (omega (arith, h, e)) in
                  (w ∷ us, v, vs, ap (◌∷◌ w) same, one)
              | suc n ↦ λ e. ([], w, ws, refl, omega (arith, e))
            ]
      refl

abbrev Lower : Worker → Worker → ThreadPool → Type 0
Lower w w' p' = (rank w' < rank w) × (stuck w' ≡ 0)

lock-Lower :
    (p : ThreadPool) (b : Bool) → b ≡ false → Lower at_lock (if b then at_wait else at_take) p
lock-Lower p true e = absurd (ground (arith, e))
lock-Lower p false e = (omega arith, refl)

and_false : (a b : Bool) → b ≡ false → (a && b) ≡ false
and_false true b e = e
and_false false b e = refl

turn-Lower :
    (w : Worker) (p : ThreadPool)
    → p.running ≡ false
    → stuck w ≡ 0
    → After (Lower w) (thread_func w p)
unfolding thread_func
turn-Lower at_while p off free =
    After-if _ p.running _ _ (λ e. absurd (ground (arith, e, off))) (λ _. (omega arith, refl))
turn-Lower at_lock p off free =
    After-if _ p.held _ _ (λ _. tt)
      (λ _.
        lock-Lower (record p { held = true }) (is_empty p.tasks && p.running)
          (and_false (is_empty p.tasks) p.running off))
turn-Lower at_wait p off free = absurd (omega (arith, free))
turn-Lower asleep p off free = tt
turn-Lower at_take p off free =
    After-if _ (not p.running) _ _ (λ _. (omega arith, refl)) (λ e. absurd (ground (arith, e, off)))
turn-Lower (with_task t) p off free = (omega arith, refl)
turn-Lower returned p off free = tt

abbrev pub Goes : Worker → ThreadPool → Type 0
Goes w p = (w' : Worker) × (p' : ThreadPool) × (thread_func w p ≡ goes w' p')

-- A thread of a stopped pool that has steps left can take one, but for the lock.
pub turn-Goes :
    (w : Worker) (p : ThreadPool)
    → p.running ≡ false
    → 1 ≤ rank w
    → (p.held ≡ false) ⊎ (w ≡ at_take)
    → Goes w p
unfolding thread_func
turn-Goes at_while p off some_left free = (returned, p, if_false p.running _ _ off)
turn-Goes at_lock p off some_left (inl free) =
    (_, record p { held = true }, if_false p.held _ _ free)
turn-Goes at_lock p off some_left (inr e) = absurd (ground (arith, e))
turn-Goes at_wait p off some_left free = absurd (omega (arith, some_left))
turn-Goes asleep p off some_left free = absurd (omega (arith, some_left))
turn-Goes at_take p off some_left free =
    (returned, record p { held = false }, if_true (not p.running) _ _ (ap not off))
turn-Goes (with_task t) p off some_left free =
    (at_while, record p { executed = p.executed ++ t ∷ [] }, refl)
turn-Goes returned p off some_left free = absurd (omega (arith, some_left))

-- A call of `Stop` that has notified, with no thread that sleeps or is about to.
pub record IsStopping (s : System) : Type 0 where
  pub off : s.pool.running ≡ false
  pub joined : (s.stop ≡ joining) ⊎ (s.stop ≡ stopped)
  pub free : total stuck s.threads ≡ 0
  pub locked : IsLocked s.pool s.threads

-- What a turn of a thread does to such a state.
pub turn_IsStopping :
    {s : System} (us : List Worker) (w : Worker) (vs : List Worker) (w' : Worker) (p : ThreadPool)
    → s.threads ≡ us ++ w ∷ vs
    → thread_func w s.pool ≡ goes w' p
    → IsStopping s
    → (p.running ≡ false)
      × (total stuck (us ++ w' ∷ vs) ≡ 0)
      × (total rank (us ++ w' ∷ vs) < total rank s.threads)
turn_IsStopping {s} us w vs w' p e f v =
    let sum = total_mid stuck s.threads us w vs e in
    let sum' = total_mid stuck (us ++ w' ∷ vs) us w' vs refl in
    let free : stuck w ≡ 0 = omega (arith, v.free, sum) in
    let (less, stays) =
      gone (Lower w) (thread_func w s.pool) w' p f (turn-Lower w s.pool v.off free) in
    let (off, _) = gone _ (thread_func w s.pool) w' p f (turn_stopped w s.pool v.off) in
    (
      off,
      omega (arith, v.free, sum, sum', free, stays),
      omega (
        arith,
        less,
        total_mid rank s.threads us w vs e,
        total_mid rank (us ++ w' ∷ vs) us w' vs refl,
      ),
    )
