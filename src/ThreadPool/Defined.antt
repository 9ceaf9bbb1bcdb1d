-- ===== src/ThreadPool/Defined.antt =====
-- src/ThreadPool.cc: what `back()` and `pop_back()` in `ThreadFunc` are called on.
use mathlib.Core.Path.{subst}
use security_transmission_pl.Base.{
  ℕ, ◌≤◌, ◌≡◌, ◌≢◌, refl, Bool, true, false, Option, none, some, List, [], ◌∷◌, ◌++◌, not,
  if◌then◌else◌, arith,
}
use security_transmission_pl.ThreadPool.{
  Worker, at_while, at_lock, at_wait, asleep, at_take, returned, with_task, ThreadPool, Turn,
  blocks, undefined, goes, pop_back, took, thread_func, System, new_pool, Reach,
}
use security_transmission_pl.ThreadPool.Tasks.{total}
use security_transmission_pl.ThreadPool.Locking.{
  locks, IsReady, AllReady, AllReady-split, bit_le, Reach-IsLocked,
}

abbrev IsDefined : Turn → Type 0
IsDefined blocks = Unit {0}
IsDefined undefined = ⊥
IsDefined (goes w p) = Unit {0}

IsDefined-if :
    (b : Bool) (x y : Turn)
    → (b ≡ true → IsDefined x)
    → (b ≡ false → IsDefined y)
    → IsDefined (if b then x else y)
IsDefined-if true x y g h = g refl
IsDefined-if false x y g h = h refl

abbrev HasTask : Option (ℕ × List ℕ) → Type 0
HasTask none = ⊥
HasTask (some o) = Unit {0}

HasTask-cons :
    (x : ℕ) (o : Option (ℕ × List ℕ))
    → HasTask o
    → HasTask (elim o [ none ↦ none | some (u, rest) ↦ some (u, x ∷ rest) ])
HasTask-cons x none h = h
HasTask-cons x (some o) h = tt

pop_back-HasTask : (tasks : List ℕ) → tasks ≢ [] → HasTask (pop_back tasks)
pop_back-HasTask [] h = h refl
pop_back-HasTask (x ∷ []) h = tt
pop_back-HasTask (x ∷ y ∷ ys) h =
    HasTask-cons x (pop_back (y ∷ ys)) (pop_back-HasTask (y ∷ ys) (λ e. ground (arith, e)))

took-IsDefined : (p : ThreadPool) (o : Option (ℕ × List ℕ)) → HasTask o → IsDefined (took p o)
took-IsDefined p none h = h
took-IsDefined p (some (task, rest)) h = tt

turn-IsDefined : (w : Worker) (p : ThreadPool) → IsReady p w → IsDefined (thread_func w p)
unfolding thread_func
turn-IsDefined at_while p r = IsDefined-if p.running _ _ (λ _. tt) (λ _. tt)
turn-IsDefined at_lock p r = IsDefined-if p.held _ _ (λ _. tt) (λ _. tt)
turn-IsDefined at_wait p r = tt
turn-IsDefined asleep p r = tt
turn-IsDefined at_take p r =
    IsDefined-if (not p.running) _ _ (λ _. tt)
      (λ e.
        took-IsDefined p (pop_back p.tasks) (pop_back-HasTask p.tasks (r refl (ground (arith, e)))))
turn-IsDefined (with_task t) p r = tt
turn-IsDefined returned p r = tt

-- In any run of any number of threads: at most one thread is between taking the lock and letting go
-- of it, and no thread's next step is undefined, so that `back()` is not called on an empty vector.
pub Reach-safe :
    (n : ℕ) {s : System} (us : List Worker) (w : Worker) (vs : List Worker)
    → Reach (new_pool n) s
    → s.threads ≡ us ++ w ∷ vs
    → (total locks s.threads ≤ 1) × (thread_func w s.pool ≢ undefined)
Reach-safe n {s} us w vs run e =
    let v = Reach-IsLocked n run in
    let (_, (ready, _)) = AllReady-split s.pool us (w ∷ vs) (subst (AllReady s.pool) e v.ready) in
    (
      omega (arith, v.counted, bit_le s.pool.held),
      λ bad. subst IsDefined bad (turn-IsDefined w s.pool ready),
    )
