-- ===== src/ThreadPool/Stopping.antt =====
-- src/ThreadPool.cc: `Stop`, the tasks that wait, and the threads that are about to sleep.
use security_transmission_pl.Base.{
  ℕ, suc, ◌≤◌, ◌≡◌, refl, ap, true, false, Option, none, some, List, [], ◌∷◌, ◌++◌, replicate, map,
  not, arith,
}
use security_transmission_pl.ThreadPool.{
  Worker, at_while, at_lock, at_wait, asleep, at_take, returned, with_task, ThreadPool, pop_back,
  took, thread_func, put_task, notified, not_called, notifying, joining, System, new_pool,
  AllReturned, Step, works, wakes, puts, puts_unheard, stops, notifies, joins, Reach, here, next,
}
use security_transmission_pl.ThreadPool.Tasks.{
  occurrences, occurrences-append, total, total_mid, After, gone, After-if,
}

-- A thread that only a notification or a spurious wake-up brings on, now or after its next step.
abbrev pub stuck : Worker → ℕ
stuck at_wait = 1
stuck asleep = 1
stuck at_while = 0
stuck at_lock = 0
stuck at_take = 0
stuck returned = 0
stuck (with_task t) = 0

took-stuck :
    (p : ThreadPool) (o : Option (ℕ × List ℕ))
    → After (λ w' p'. stuck at_take ≤ stuck w') (took p o)
took-stuck p none = tt
took-stuck p (some (task, rest)) = omega arith

turn_stuck : (w : Worker) (p : ThreadPool) → After (λ w' p'. stuck w ≤ stuck w') (thread_func w p)
unfolding thread_func
turn_stuck at_while p = After-if _ p.running _ _ (λ _. omega arith) (λ _. omega arith)
turn_stuck at_lock p = After-if _ p.held _ _ (λ _. tt) (λ _. omega arith)
turn_stuck at_wait p = omega arith
turn_stuck asleep p = tt
turn_stuck at_take p =
    After-if _ (not p.running) _ _ (λ _. omega arith) (λ _. took-stuck p (pop_back p.tasks))
turn_stuck (with_task u) p = omega arith
turn_stuck returned p = tt

AllReturned-stuck : (ws : List Worker) → AllReturned ws → total stuck ws ≡ 0
AllReturned-stuck [] all = refl
AllReturned-stuck (w ∷ ws) (r, all) = omega (arith, ap stuck r, AllReturned-stuck ws all)

-- A step that is neither a call of `Put` nor a spurious wake-up.
abbrev pub IsQuiet : {s t : System} → Step s t → Type 0
IsQuiet (works us w vs w' p e f r) = Unit {0}
IsQuiet (wakes us vs e r) = ⊥
IsQuiet (puts task us vs free e r) = ⊥
IsQuiet (puts_unheard task free nobody r) = ⊥
IsQuiet (stops c running r) = Unit {0}
IsQuiet (notifies n r) = Unit {0}
IsQuiet (joins j all r) = Unit {0}

pub data QuietReach (s : System) : System → Type 0 where
  still : QuietReach s s
  going : {t u : System} → QuietReach s t → (step : Step t u) → IsQuiet step → QuietReach s u

abbrev IsHung : System → Type 0
IsHung s = (s.stop ≡ joining) × (1 ≤ total stuck s.threads)

quiet_IsHung : {s t : System} → (step : Step s t) → IsQuiet step → IsHung s → IsHung t
quiet_IsHung {s} (works us w vs w' p e f r) q (j, h) =
    let more =
      gone (λ w₁ p₁. stuck w ≤ stuck w₁) (thread_func w s.pool) w' p f (turn_stuck w s.pool) in
    rw r (
      j,
      omega (
        arith,
        h,
        more,
        total_mid stuck s.threads us w vs e,
        total_mid stuck (us ++ w' ∷ vs) us w' vs refl,
      ),
    )
quiet_IsHung (wakes us vs e r) q h = absurd q
quiet_IsHung (puts task us vs free e r) q h = absurd q
quiet_IsHung (puts_unheard task free nobody r) q h = absurd q
quiet_IsHung (stops c running r) q (j, h) = absurd (ground (arith, c, j))
quiet_IsHung (notifies n r) q (j, h) = absurd (ground (arith, n, j))
quiet_IsHung {s} (joins j all r) q (_, h) =
    absurd (omega (arith, h, AllReturned-stuck s.threads all))

QuietReach-IsHung : {s t : System} → QuietReach s t → IsHung s → IsHung t
QuietReach-IsHung still h = h
QuietReach-IsHung (going run step q) h = quiet_IsHung step q (QuietReach-IsHung run h)

-- A thread that has seen the running pool without tasks, and does not sleep yet.
abbrev about_to_wait : ℕ → ThreadPool → System
about_to_wait n p = record {
  pool = record p { held = true };
  threads = at_wait ∷ replicate n at_while;
  stop = not_called;
  put = [];
}

-- However many threads a pool has, there is a run to a state in which `Stop` waits in `join`, and
-- from which it does not return, whatever the threads do, as long as there is neither a call of
-- `Put` nor a spurious wake-up: `Stop` has set `running_` and notified while a thread was between
-- the test and the sleep.
pub stop_hangs :
    (n : ℕ)
    → (s : System) × Reach (new_pool (suc n)) s × ((t : System) → QuietReach s t → t.stop ≡ joining)
unfolding new_pool thread_func notified
stop_hangs n =
    let s₀ = new_pool (suc n) in
    let s₁ : System = record s₀ { threads = at_lock ∷ replicate n at_while } in
    let s₂ : System = about_to_wait n s₀.pool in
    let s₃ : System = record s₂ { pool = record s₂.pool { running = false }; stop = notifying } in
    let s₄ : System = record s₃ { threads = map notified s₃.threads; stop = joining } in
    (
      s₄,
      next
          (next
            (next
              (next here (works [] at_while (replicate n at_while) at_lock s₀.pool refl refl refl))
              (works [] at_lock (replicate n at_while) at_wait s₂.pool refl refl refl))
            (stops refl refl refl))
          (notifies refl refl),
      λ t. λ run. (QuietReach-IsHung run (refl, omega arith)).0,
    )

pub turn_stopped :
    (w : Worker) (p : ThreadPool)
    → p.running ≡ false
    → After (λ w' p'. (p'.running ≡ false) × (p'.tasks ≡ p.tasks)) (thread_func w p)
unfolding thread_func
turn_stopped at_while p off = After-if _ p.running _ _ (λ _. (off, refl)) (λ _. (off, refl))
turn_stopped at_lock p off = After-if _ p.held _ _ (λ _. tt) (λ _. (off, refl))
turn_stopped at_wait p off = (off, refl)
turn_stopped asleep p off = tt
turn_stopped at_take p off =
    After-if _ (not p.running) _ _ (λ _. (off, refl)) (λ e. absurd (ground (arith, e, off)))
turn_stopped (with_task u) p off = (off, refl)
turn_stopped returned p off = tt

-- A pool that does not run keeps the tasks of its vector.
abbrev Waits : ℕ → ℕ → System → Type 0
Waits t n s = (s.pool.running ≡ false) × (n ≤ occurrences t s.pool.tasks)

Step-Waits : (t n : ℕ) {s u : System} → Step s u → Waits t n s → Waits t n u
unfolding put_task
Step-Waits t n {s} (works us w vs w' p e f r) (off, h) =
    let (off', same) = gone _ (thread_func w s.pool) w' p f (turn_stopped w s.pool off) in
    rw r (off', omega (arith, h, ap (occurrences t) same))
Step-Waits t n {s} (wakes us vs e r) h = rw r h
Step-Waits t n {s} (puts task us vs free e r) (off, h) =
    rw r (off, omega (arith, h, occurrences-append t s.pool.tasks (task ∷ [])))
Step-Waits t n {s} (puts_unheard task free nobody r) (off, h) =
    rw r (off, omega (arith, h, occurrences-append t s.pool.tasks (task ∷ [])))
Step-Waits t n {s} (stops c running r) (off, h) = absurd (ground (arith, off, running))
Step-Waits t n {s} (notifies _ r) h = rw r h
Step-Waits t n {s} (joins j all r) h = rw r h

-- Once `running_` is false, no task leaves the vector any more, whatever happens: what was put and
-- not yet taken is not run, nor is what is put later.
pub Reach-dropped :
    (t : ℕ) {s u : System}
    → s.pool.running ≡ false
    → Reach s u
    → (u.pool.running ≡ false) × (occurrences t s.pool.tasks ≤ occurrences t u.pool.tasks)
Reach-dropped t {s} off here = (off, omega arith)
Reach-dropped t {s} off (next run st) =
    Step-Waits t (occurrences t s.pool.tasks) st (Reach-dropped t off run)
