-- ===== src/ThreadPool/Tasks.antt =====
-- src/ThreadPool.cc: where the tasks of `Put` are, in `tasks_`, with a thread, or done.
use mathlib.Core.Path.{subst}
use security_transmission_pl.Base.{
  ℕ, zero, suc, ◌+◌, ◌≡◌, refl, ap, ap₂, Bool, true, false, Option, none, some, List, [], ◌∷◌, ◌++◌,
  replicate, map, not, ◌&&◌, if◌then◌else◌, ◌==◌, arith,
}
use security_transmission_pl.ThreadPool.{
  Worker, at_while, at_lock, at_wait, asleep, at_take, returned, with_task, ThreadPool, Turn,
  blocks, undefined, goes, is_empty, pop_back, took, thread_func, put_task, notified, System,
  new_pool, Step, works, wakes, puts, puts_unheard, stops, notifies, joins, Reach, here, next,
}

-- How often a task stands in a list.
abbrev pub occurrences : ℕ → List ℕ → ℕ
occurrences t [] = 0
occurrences t (x ∷ xs) = (if x == t then 1 else 0) + occurrences t xs

pub occurrences-append :
    (t : ℕ) (xs ys : List ℕ) → occurrences t (xs ++ ys) ≡ occurrences t xs + occurrences t ys
occurrences-append t [] ys = omega arith
occurrences-append t (x ∷ xs) ys = omega (arith, occurrences-append t xs ys)

-- A number for every thread, summed up.
abbrev pub total : (Worker → ℕ) → List Worker → ℕ
total f [] = 0
total f (w ∷ ws) = f w + total f ws

total-append : (f : Worker → ℕ) (us vs : List Worker) → total f (us ++ vs) ≡ total f us + total f vs
total-append f [] vs = omega arith
total-append f (u ∷ us) vs = omega (arith, total-append f us vs)

-- One thread among the others.
pub total_mid :
    (f : Worker → ℕ) (ws us : List Worker) (w : Worker) (vs : List Worker)
    → ws ≡ us ++ w ∷ vs
    → total f ws ≡ total f us + f w + total f vs
total_mid f ws us w vs e = omega (arith, ap (total f) e, total-append f us (w ∷ vs))

pub total-notified :
    (f : Worker → ℕ) (ws : List Worker)
    → f at_lock ≡ f asleep
    → total f (map notified ws) ≡ total f ws
unfolding notified
total-notified f [] same = refl
total-notified f (asleep ∷ ws) same = ap₂ (λ m n. m + n) same (total-notified f ws same)
total-notified f (at_while ∷ ws) same = ap (◌+◌ (f at_while)) (total-notified f ws same)
total-notified f (at_lock ∷ ws) same = ap (◌+◌ (f at_lock)) (total-notified f ws same)
total-notified f (at_wait ∷ ws) same = ap (◌+◌ (f at_wait)) (total-notified f ws same)
total-notified f (at_take ∷ ws) same = ap (◌+◌ (f at_take)) (total-notified f ws same)
total-notified f (returned ∷ ws) same = ap (◌+◌ (f returned)) (total-notified f ws same)
total-notified f (with_task t ∷ ws) same = ap (◌+◌ (f (with_task t))) (total-notified f ws same)

-- A thread that is woken up counts as before, if it counts the same in both places.
pub total-woken :
    (f : Worker → ℕ) (ws us vs : List Worker)
    → ws ≡ us ++ asleep ∷ vs
    → f at_lock ≡ f asleep
    → total f (us ++ at_lock ∷ vs) ≡ total f ws
total-woken f ws us vs e same =
    omega (arith, same, total_mid f ws us asleep vs e, total-append f us (at_lock ∷ vs))

pub total-replicate : (f : Worker → ℕ) (n : ℕ) (w : Worker) → f w ≡ 0 → total f (replicate n w) ≡ 0
total-replicate f zero w none_of = refl
total-replicate f (suc n) w none_of = omega (arith, none_of, total-replicate f n w none_of)

-- Whether a thread has the task in hand.
abbrev pub has : ℕ → Worker → ℕ
has t (with_task u) = occurrences t (u ∷ [])
has t at_while = 0
has t at_lock = 0
has t at_wait = 0
has t asleep = 0
has t at_take = 0
has t returned = 0

-- What holds after a turn, if the thread can go on.
abbrev pub After : (Worker → ThreadPool → Type 0) → Turn → Type 0
After P blocks = Unit {0}
After P undefined = Unit {0}
After P (goes w p) = P w p

pub gone :
    (P : Worker → ThreadPool → Type 0) (turn : Turn) (w : Worker) (p : ThreadPool)
    → turn ≡ goes w p
    → After P turn
    → P w p
gone P turn w p e a = subst (After P) e a

pub After-if :
    (P : Worker → ThreadPool → Type 0) (b : Bool) (x y : Turn)
    → (b ≡ true → After P x)
    → (b ≡ false → After P y)
    → After P (if b then x else y)
After-if P true x y g h = g refl
After-if P false x y g h = h refl

abbrev Popped : ℕ → ℕ → Option (ℕ × List ℕ) → Type 0
Popped t n none = Unit {0}
Popped t n (some (task, rest)) = occurrences t rest + occurrences t (task ∷ []) ≡ n

Popped-cons :
    (t x n : ℕ) (o : Option (ℕ × List ℕ))
    → Popped t n o
    → Popped t
        ((if x == t then 1 else 0) + n)
        (elim o [ none ↦ none | some (u, rest) ↦ some (u, x ∷ rest) ])
Popped-cons t x n none h = tt
Popped-cons t x n (some (u, rest)) h = omega (arith, h)

pop_back_lem : (t : ℕ) (tasks : List ℕ) → Popped t (occurrences t tasks) (pop_back tasks)
pop_back_lem t [] = tt
pop_back_lem t (x ∷ []) = omega arith
pop_back_lem t (x ∷ y ∷ ys) =
    Popped-cons t x (occurrences t (y ∷ ys)) (pop_back (y ∷ ys)) (pop_back_lem t (y ∷ ys))

-- How often a task is in the vector, in a thread's hand, or done.
abbrev around : ℕ → Worker → ThreadPool → ℕ
around t w p = occurrences t p.tasks + has t w + occurrences t p.executed

took_kept :
    (t : ℕ) (p : ThreadPool) (o : Option (ℕ × List ℕ))
    → Popped t (occurrences t p.tasks) o
    → After (λ w' p'. around t w' p' ≡ around t at_take p) (took p o)
took_kept t p none h = tt
took_kept t p (some (task, rest)) h = omega (arith, h)

around_lock :
    (t : ℕ) (p : ThreadPool) (b : Bool)
    → around t (if b then at_wait else at_take) (record p { held = true }) ≡ around t at_lock p
around_lock t p true = refl
around_lock t p false = refl

turn_kept :
    (t : ℕ) (w : Worker) (p : ThreadPool)
    → After (λ w' p'. around t w' p' ≡ around t w p) (thread_func w p)
unfolding thread_func
turn_kept t at_while p = After-if _ p.running _ _ (λ _. refl) (λ _. refl)
turn_kept t at_lock p =
    After-if _ p.held _ _ (λ _. tt) (λ _. around_lock t p (is_empty p.tasks && p.running))
turn_kept t at_wait p = refl
turn_kept t asleep p = tt
turn_kept t at_take p =
    After-if _ (not p.running) _ _ (λ _. refl)
      (λ _. took_kept t p (pop_back p.tasks) (pop_back_lem t p.tasks))
turn_kept t (with_task u) p = omega (arith, occurrences-append t p.executed (u ∷ []))
turn_kept t returned p = tt

-- Every task that was given is in the vector, in a thread's hand, or done, as often as it was given.
abbrev pub IsKept : ℕ → System → Type 0
IsKept t s =
    occurrences t s.pool.tasks + total (has t) s.threads + occurrences t s.pool.executed
    ≡ occurrences t s.put

Step-IsKept : (t : ℕ) {s u : System} → Step s u → IsKept t s → IsKept t u
unfolding put_task
Step-IsKept t {s} (works us w vs w' p e f r) k =
    let moved =
      gone (λ w₁ p₁. around t w₁ p₁ ≡ around t w s.pool) (thread_func w s.pool) w' p f
        (turn_kept t w s.pool) in
    rw r (
      omega (
        arith,
        k,
        moved,
        total_mid (has t) s.threads us w vs e,
        total_mid (has t) (us ++ w' ∷ vs) us w' vs refl,
      ))
Step-IsKept t {s} (wakes us vs e r) k =
    rw r (omega (arith, k, total-woken (has t) s.threads us vs e refl))
Step-IsKept t {s} (puts task us vs free e r) k = rw r (
    omega (
      arith,
      k,
      total-woken (has t) s.threads us vs e refl,
      occurrences-append t s.pool.tasks (task ∷ []),
      occurrences-append t s.put (task ∷ []),
    ))
Step-IsKept t {s} (puts_unheard task free nobody r) k = rw r (
    omega (
      arith,
      k,
      occurrences-append t s.pool.tasks (task ∷ []),
      occurrences-append t s.put (task ∷ []),
    ))
Step-IsKept t {s} (stops c running r) k = rw r k
Step-IsKept t {s} (notifies n r) k = rw r (omega (arith, k, total-notified (has t) s.threads refl))
Step-IsKept t {s} (joins j all r) k = rw r k

-- In any run of any number of threads, every task that was given is in the vector, in a thread's
-- hand, or done, exactly as often as it was given.
pub Reach-IsKept : (n t : ℕ) {s : System} → Reach (new_pool n) s → IsKept t s
unfolding new_pool
Reach-IsKept n t here = omega (arith, total-replicate (has t) n at_while refl)
Reach-IsKept n t (next run st) = Step-IsKept t st (Reach-IsKept n t run)
