-- ===== src/ThreadPool/Locking.antt =====
-- src/ThreadPool.cc: which threads are under `lock_`, and what they have seen there.
use mathlib.Core.Path.{subst}
use security_transmission_pl.Base.{
  ℕ, ◌+◌, ◌≤◌, ◌≡◌, ◌≢◌, ◌⊎◌, refl, sym, ap, ◌∙◌, Bool, true, false, Option, none, some, List, [],
  ◌∷◌, ◌++◌, map, not, ◌&&◌, if◌then◌else◌, arith, inl, inr,
}
use security_transmission_pl.ThreadPool.{
  Worker, at_while, at_lock, at_wait, asleep, at_take, returned, with_task, ThreadPool, goes,
  is_empty, pop_back, took, thread_func, put_task, notified, System, new_pool, Step, works, wakes,
  puts, puts_unheard, stops, notifies, joins, Reach, here, next,
}
use security_transmission_pl.ThreadPool.Tasks.{
  total, total_mid, total-notified, total-woken, total-replicate, After, gone, After-if,
}

-- Whether a thread holds the lock.
abbrev pub locks : Worker → ℕ
locks at_wait = 1
locks at_take = 1
locks at_while = 0
locks at_lock = 0
locks asleep = 0
locks returned = 0
locks (with_task t) = 0

abbrev pub held_by : ThreadPool → ℕ
held_by p = if p.held then 1 else 0

-- A thread behind the inner loop of a running pool has a task to take.
abbrev pub IsReady : ThreadPool → Worker → Type 0
IsReady p w = w ≡ at_take → p.running ≡ true → p.tasks ≢ []

abbrev pub AllReady : ThreadPool → List Worker → Type 0
AllReady p [] = Unit {0}
AllReady p (w ∷ ws) = IsReady p w × AllReady p ws

-- As many threads hold the lock as `held` says, and those that are about to take a task can.
pub record IsLocked (p : ThreadPool) (ws : List Worker) : Type 0 where
  pub counted : total locks ws ≡ held_by p
  pub ready : AllReady p ws

at_take_locks : (w : Worker) → w ≡ at_take → locks w ≡ 1
at_take_locks w e = ap locks e

AllReady-free : (p : ThreadPool) (ws : List Worker) → total locks ws ≡ 0 → AllReady p ws
AllReady-free p [] h = tt
AllReady-free p (w ∷ ws) h =
    (λ e. absurd (omega (arith, h, at_take_locks w e)), AllReady-free p ws (omega (arith, h)))

AllReady-same :
    (p q : ThreadPool) (ws : List Worker)
    → q.tasks ≡ p.tasks
    → q.running ≡ p.running
    → AllReady p ws
    → AllReady q ws
AllReady-same p q [] t r a = tt
AllReady-same p q (w ∷ ws) t r (a, as_before) =
    (λ e. λ run. λ nothing. a e (sym r ∙ run) (sym t ∙ nothing), AllReady-same p q ws t r as_before)

AllReady-append :
    (p : ThreadPool) (us vs : List Worker) → AllReady p us → AllReady p vs → AllReady p (us ++ vs)
AllReady-append p [] vs a b = b
AllReady-append p (u ∷ us) vs (a, rest) b = (a, AllReady-append p us vs rest b)

pub AllReady-split :
    (p : ThreadPool) (us vs : List Worker) → AllReady p (us ++ vs) → AllReady p us × AllReady p vs
AllReady-split p [] vs a = (tt, a)
AllReady-split p (u ∷ us) vs (a, rest) = let (b, c) = AllReady-split p us vs rest in ((a, b), c)

-- After a turn: the lock is where the thread says, the thread is ready, and only a thread with the
-- lock has changed the vector.
abbrev Turned : Worker → ThreadPool → Worker → ThreadPool → Type 0
Turned w p w' p' =
    (locks w' + held_by p ≡ locks w + held_by p')
    × IsReady p' w'
    × (p'.running ≡ p.running)
    × ((locks w ≡ 1) ⊎ (p'.tasks ≡ p.tasks))

pub bit_le : (b : Bool) → (if b then 1 else 0) ≤ 1
bit_le true = omega arith
bit_le false = omega arith

entered :
    (p : ThreadPool) (b : Bool)
    → p.held ≡ false
    → is_empty p.tasks && p.running ≡ b
    → Turned at_lock p (if b then at_wait else at_take) (record p { held = true })
entered p true free e = (
  omega (arith, ap {B = ℕ} (λ b. if b then 1 else 0) free),
  λ other. absurd (ground (arith, other)),
  refl,
  inr refl,
)
entered p false free e = (
  omega (arith, ap {B = ℕ} (λ b. if b then 1 else 0) free),
  λ _. λ run. λ nothing. ground (arith, e, run, nothing),
  refl,
  inr refl,
)

turn_took :
    (p : ThreadPool) (o : Option (ℕ × List ℕ)) → held_by p ≡ 1 → After (Turned at_take p) (took p o)
turn_took p none one = tt
turn_took p (some (task, rest)) one =
    (omega (arith, one), λ e. absurd (ground (arith, e)), refl, inl refl)

turn_locks :
    (w : Worker) (p : ThreadPool) → locks w ≤ held_by p → After (Turned w p) (thread_func w p)
unfolding thread_func
turn_locks at_while p h =
    After-if _ p.running _ _ (λ _. (refl, λ e. absurd (ground (arith, e)), refl, inr refl))
      (λ _. (refl, λ e. absurd (ground (arith, e)), refl, inr refl))
turn_locks at_lock p h =
    After-if _ p.held _ _ (λ _. tt) (λ free. entered p (is_empty p.tasks && p.running) free refl)
turn_locks at_wait p h =
    (omega (arith, h, bit_le p.held), λ e. absurd (ground (arith, e)), refl, inl refl)
turn_locks asleep p h = tt
turn_locks at_take p h =
    After-if _ (not p.running) _ _
      (λ _. (omega (arith, h, bit_le p.held), λ e. absurd (ground (arith, e)), refl, inl refl))
      (λ _. turn_took p (pop_back p.tasks) (omega (arith, h, bit_le p.held)))
turn_locks (with_task u) p h = (refl, λ e. absurd (ground (arith, e)), refl, inr refl)
turn_locks returned p h = tt

-- The other threads when one thread has its turn.
AllReady-turn :
    (p p' : ThreadPool) (us : List Worker) (w w' : Worker) (vs : List Worker)
    → total locks (us ++ w ∷ vs) ≡ held_by p
    → AllReady p (us ++ w ∷ vs)
    → Turned w p w' p'
    → AllReady p' (us ++ w' ∷ vs)
AllReady-turn p p' us w w' vs c a (_, ready, _, inl one) =
    let sum = total_mid locks (us ++ w ∷ vs) us w vs refl in
    AllReady-append p' us (w' ∷ vs)
      (AllReady-free p' us (omega (arith, c, one, sum, bit_le p.held)))
      (ready, AllReady-free p' vs (omega (arith, c, one, sum, bit_le p.held)))
AllReady-turn p p' us w w' vs c a (_, ready, run, inr same) =
    let (b, (_, d)) = AllReady-split p us (w ∷ vs) a in
    AllReady-append p' us (w' ∷ vs) (AllReady-same p p' us same run b)
      (ready, AllReady-same p p' vs same run d)

turn_IsLocked :
    (p p' : ThreadPool) (us : List Worker) (w w' : Worker) (vs : List Worker)
    → thread_func w p ≡ goes w' p'
    → IsLocked p (us ++ w ∷ vs)
    → IsLocked p' (us ++ w' ∷ vs)
turn_IsLocked p p' us w w' vs f v =
    let sum = total_mid locks (us ++ w ∷ vs) us w vs refl in
    let turned =
      gone (Turned w p) (thread_func w p) w' p' f
        (turn_locks w p (omega (arith, v.counted, sum))) in
    record {
      counted =
          omega (arith, v.counted, sum, turned.0, total_mid locks (us ++ w' ∷ vs) us w' vs refl);
      ready = AllReady-turn p p' us w w' vs v.counted v.ready turned;
    }

AllReady-stopped : (p : ThreadPool) (ws : List Worker) → p.running ≡ false → AllReady p ws
AllReady-stopped p [] h = tt
AllReady-stopped p (w ∷ ws) h =
    (λ _. λ run. absurd (ground (arith, h, run)), AllReady-stopped p ws h)

notified_at_take : (w : Worker) → notified w ≡ at_take → w ≡ at_take
unfolding notified
notified_at_take asleep e = absurd (ground (arith, e))
notified_at_take at_while e = e
notified_at_take at_lock e = e
notified_at_take at_wait e = e
notified_at_take at_take e = e
notified_at_take returned e = e
notified_at_take (with_task t) e = e

AllReady-notified :
    (p : ThreadPool) (ws : List Worker) → AllReady p ws → AllReady p (map notified ws)
AllReady-notified p [] a = tt
AllReady-notified p (w ∷ ws) (a, rest) =
    (λ e. a (notified_at_take w e), AllReady-notified p ws rest)

AllReady-woken :
    (p : ThreadPool) (us vs : List Worker)
    → AllReady p (us ++ asleep ∷ vs)
    → AllReady p (us ++ at_lock ∷ vs)
AllReady-woken p us vs a =
    let (b, (_, d)) = AllReady-split p us (asleep ∷ vs) a in
    AllReady-append p us (at_lock ∷ vs) b (λ e. absurd (ground (arith, e)), d)

-- A lock that nobody holds, with any vector.
IsLocked-free :
    (p : ThreadPool) (ws : List Worker) → p.held ≡ false → total locks ws ≡ 0 → IsLocked p ws
IsLocked-free p ws free none_of = record {
  counted = omega (arith, none_of, ap {B = ℕ} (λ b. if b then 1 else 0) free);
  ready = AllReady-free p ws none_of;
}

nobody_locks :
    (p : ThreadPool) (ws : List Worker) → IsLocked p ws → p.held ≡ false → total locks ws ≡ 0
nobody_locks p ws v free = omega (arith, v.counted, ap {B = ℕ} (λ b. if b then 1 else 0) free)

pub Step-IsLocked :
    {s u : System} → Step s u → IsLocked s.pool s.threads → IsLocked u.pool u.threads
unfolding put_task
Step-IsLocked {s} (works us w vs w' p e f r) v =
    rw r (turn_IsLocked s.pool p us w w' vs f (subst (IsLocked s.pool) e v))
Step-IsLocked {s} (wakes us vs e r) v = rw r (record {
  counted = omega (arith, v.counted, total-woken locks s.threads us vs e refl);
  ready = AllReady-woken s.pool us vs (subst (AllReady s.pool) e v.ready);
})
Step-IsLocked {s} (puts task us vs free e r) v = rw r (
    IsLocked-free _ _ free
      (total-woken locks s.threads us vs e refl ∙ nobody_locks s.pool s.threads v free))
Step-IsLocked {s} (puts_unheard task free nobody r) v =
    rw r (IsLocked-free _ _ free (nobody_locks s.pool s.threads v free))
Step-IsLocked {s} (stops c running r) v = rw r (record {
  counted = v.counted;
  ready = AllReady-stopped (record s.pool { running = false }) s.threads refl;
})
Step-IsLocked {s} (notifies n r) v = rw r (record {
  counted = total-notified locks s.threads refl ∙ v.counted;
  ready = AllReady-notified s.pool s.threads v.ready;
})
Step-IsLocked {s} (joins j all r) v = rw r v

pub Reach-IsLocked : (n : ℕ) {s : System} → Reach (new_pool n) s → IsLocked s.pool s.threads
unfolding new_pool
Reach-IsLocked n here = IsLocked-free _ _ refl (total-replicate locks n at_while refl)
Reach-IsLocked n (next run st) = Step-IsLocked st (Reach-IsLocked n run)
