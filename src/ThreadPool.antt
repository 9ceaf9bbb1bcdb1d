-- ===== src/ThreadPool.antt =====
-- src/ThreadPool.cc and include/ThreadPool.hpp: `Put` and `Stop` against the threads that run
-- `ThreadFunc`, step by step. A section under `lock_` that does not wait is one step; a condition
-- variable may wake a thread for no reason, and a notification that finds nobody asleep is lost, as
-- the C++ standard says. Tasks are told apart by numbers; they return.
pub mod Tasks
pub mod Locking
pub mod Defined
pub mod Stopping
pub mod Ranks
pub mod Returning
use security_transmission_pl.Base.{
  ℕ, zero, suc, ◌≡◌, Bool, true, false, Option, none, some, List, [], ◌∷◌, ◌++◌, replicate, map,
  not, ◌&&◌, if◌then◌else◌,
}

-- Where a thread stands in `ThreadFunc`: before `while (running_)`; before the lock, new or after a
-- wake-up; in the inner loop before `wait`, with the lock; asleep; behind the inner loop, with the
-- lock; before `task()`; returned.
pub data Worker : Type 0 where
  at_while at_lock at_wait asleep at_take returned : Worker
  with_task : ℕ → Worker

-- `tasks_` with its back at the end, `running_`, whether a thread holds `lock_`, and the tasks that
-- were run, in their order.
pub record ThreadPool : Type 0 where
  pub tasks : List ℕ
  pub running : Bool
  pub held : Bool
  pub executed : List ℕ

-- What a thread can do next.
pub data Turn : Type 0 where
  blocks : Turn
  undefined : Turn
  goes : Worker → ThreadPool → Turn

abbrev pub is_empty : List ℕ → Bool
is_empty [] = true
is_empty (x ∷ xs) = false

-- `back()` with `pop_back()`
abbrev pub pop_back : List ℕ → Option (ℕ × List ℕ)
pop_back [] = none
pop_back (x ∷ []) = some (x, [])
pop_back (x ∷ y ∷ ys) = elim (pop_back (y ∷ ys)) [
  | none ↦ none
  | some (t, rest) ↦ some (t, x ∷ rest)
]

-- The task that was taken, with the lock let go.
abbrev pub took : ThreadPool → Option (ℕ × List ℕ) → Turn
took p none = undefined
took p (some (task, rest)) = goes (with_task task) (record p { tasks = rest; held = false })

-- `ThreadFunc`, one step.
unfoldable pub thread_func : Worker → ThreadPool → Turn
thread_func at_while p = if p.running then goes at_lock p else goes returned p
thread_func at_lock p =
    if p.held
    then blocks
    else goes (if is_empty p.tasks && p.running then at_wait else at_take)
        (record p { held = true })
thread_func at_wait p = goes asleep (record p { held = false })
thread_func asleep p = blocks
thread_func at_take p =
    if not p.running then goes returned (record p { held = false }) else took p (pop_back p.tasks)
thread_func (with_task t) p = goes at_while (record p { executed = p.executed ++ t ∷ [] })
thread_func returned p = blocks

-- `emplace_back` in `Put`
unfoldable pub put_task : ℕ → ThreadPool → ThreadPool
put_task t p = record p { tasks = p.tasks ++ t ∷ [] }

-- `cond_.notify_all()`
unfoldable pub notified : Worker → Worker
notified asleep = at_lock
notified at_while = at_while
notified at_lock = at_lock
notified at_wait = at_wait
notified at_take = at_take
notified (with_task t) = with_task t
notified returned = returned

-- `Stop`: not called, behind `running_ = false`, in the joins, or past them.
pub data Stop : Type 0 where
  not_called notifying joining stopped : Stop

-- `put` is every task that was given to `Put`.
pub record System : Type 0 where
  pub pool : ThreadPool
  pub threads : List Worker
  pub stop : Stop
  pub put : List ℕ

-- `ThreadPool(threads)`
unfoldable pub new_pool : ℕ → System
new_pool threads = record {
  pool = record { tasks = []; running = true; held = false; executed = [] };
  threads = replicate threads at_while;
  stop = not_called;
  put = [];
}

abbrev pub AllReturned : List Worker → Type 0
AllReturned [] = Unit {0}
AllReturned (w ∷ ws) = (w ≡ returned) × AllReturned ws

abbrev pub given : ℕ → System → System
given t s = record s { pool = put_task t s.pool; put = s.put ++ t ∷ [] }

-- One step of a thread of the pool, of a caller of `Put`, or of the caller of `Stop`.
pub data Step (s t : System) : Type 0 where
  works :
      (us : List Worker) (w : Worker) (vs : List Worker) (w' : Worker) (p : ThreadPool)
      → s.threads ≡ us ++ w ∷ vs
      → thread_func w s.pool ≡ goes w' p
      → t ≡ record s { pool = p; threads = us ++ w' ∷ vs }
      → Step s t
  -- The spurious wake-up of a thread.
  wakes :
      (us vs : List Worker)
      → s.threads ≡ us ++ asleep ∷ vs
      → t ≡ record s { threads = us ++ at_lock ∷ vs }
      → Step s t
  -- `Put`, whose notification reaches a thread that sleeps.
  puts :
      (task : ℕ) (us vs : List Worker)
      → s.pool.held ≡ false
      → s.threads ≡ us ++ asleep ∷ vs
      → t ≡ record (given task s) { threads = us ++ at_lock ∷ vs }
      → Step s t
  -- `Put` while no thread sleeps.
  puts_unheard :
      (task : ℕ)
      → s.pool.held ≡ false
      → ((us vs : List Worker) → s.threads ≡ us ++ asleep ∷ vs → ⊥)
      → t ≡ given task s
      → Step s t
  stops :
      s.stop ≡ not_called
      → s.pool.running ≡ true
      → t ≡ record s { pool = record s.pool { running = false }; stop = notifying }
      → Step s t
  notifies :
      s.stop ≡ notifying
      → t ≡ record s { threads = map notified s.threads; stop = joining }
      → Step s t
  joins : s.stop ≡ joining → AllReturned s.threads → t ≡ record s { stop = stopped } → Step s t

pub data Reach (s : System) : System → Type 0 where
  here : Reach s s
  next : {t u : System} → Reach s t → Step t u → Reach s u
