-- ===== src/Tests/Pool.antt =====
-- The thread pool with one thread and one task.
use security_transmission_pl.Base.{
  ◌+◌, ◌≤◌, ◌<◌, ◌⊎◌, ◌≡◌, ◌≢◌, refl, true, false, List, [], ◌∷◌, ◌++◌, arith,
}
use security_transmission_pl.ThreadPool.{
  Worker, at_while, at_lock, at_take, asleep, with_task, System, Turn, Stop, new_pool, thread_func,
  put_task, works, puts_unheard, stops, notifies, notified, Step, Reach, here, next,
}
use security_transmission_pl.ThreadPool.Tasks.{occurrences, has, total, Reach-IsKept}
use security_transmission_pl.ThreadPool.Locking.{locks}
use security_transmission_pl.ThreadPool.Defined.{Reach-safe}
use security_transmission_pl.ThreadPool.Returning.{CanGo, stop_returns}
use security_transmission_pl.ThreadPool.Ranks.{rank_of}
use security_transmission_pl.ThreadPool.Stopping.{IsQuiet, QuietReach, stop_hangs}

-- The task 7 in the vector, and in the thread's hand.
abbrev waiting : Worker → System
waiting w = record {
  pool = record { tasks = 7 ∷ []; running = true; held = false; executed = [] };
  threads = w ∷ [];
  stop = Stop.not_called;
  put = 7 ∷ [];
}

abbrev taking : System
taking = record {
  pool = record { tasks = 7 ∷ []; running = true; held = true; executed = [] };
  threads = at_take ∷ [];
  stop = Stop.not_called;
  put = 7 ∷ [];
}

abbrev taken : System
taken = record {
  pool = record { tasks = []; running = true; held = false; executed = [] };
  threads = with_task 7 ∷ [];
  stop = Stop.not_called;
  put = 7 ∷ [];
}

awake : (us vs : List Worker) → at_while ∷ [] ≡ us ++ asleep ∷ vs → ⊥
awake [] vs e = ground (arith, e)
awake (u ∷ []) vs e = ground (arith, e)
awake (u ∷ v ∷ us) vs e = ground (arith, e)

given_run : Reach (new_pool 1) (waiting at_while)
unfolding new_pool put_task
given_run = next here (puts_unheard 7 refl awake refl)

taking_run : Reach (new_pool 1) taking
unfolding thread_func
taking_run =
    next (next given_run (works [] at_while [] at_lock (waiting at_while).pool refl refl refl))
      (works [] at_lock [] at_take taking.pool refl refl refl)

taken_run : Reach (new_pool 1) taken
unfolding thread_func
taken_run = next taking_run (works [] at_take [] (with_task 7) taken.pool refl refl refl)

Reach-IsKept_example :
    occurrences 7 taken.pool.tasks + total (has 7) taken.threads + occurrences 7 taken.pool.executed
    ≡ occurrences 7 taken.put
Reach-IsKept_example = Reach-IsKept 1 7 taken_run

Reach-safe_example :
    (total locks taking.threads ≤ 1) × (thread_func at_take taking.pool ≢ Turn.undefined)
Reach-safe_example = Reach-safe 1 [] at_take [] taking_run refl

stop_hangs_example :
    (s : System) × Reach (new_pool 3) s × ((t : System) → QuietReach s t → t.stop ≡ Stop.joining)
stop_hangs_example = stop_hangs 2

-- `Stop` before the thread has taken the task.
abbrev stopping : Worker → System
stopping w = record (waiting w) {
  pool = record { tasks = 7 ∷ []; running = false; held = false; executed = [] };
  stop = Stop.notifying;
}

stopping_run : Reach (stopping at_while) (stopping Worker.returned)
unfolding thread_func
stopping_run =
    next here (works [] at_while [] Worker.returned (stopping at_while).pool refl refl refl)

-- `Stop` while the only thread has not begun.
abbrev joining_pool : System
joining_pool = record {
  pool = record { tasks = []; running = false; held = false; executed = [] };
  threads = at_while ∷ [];
  stop = Stop.joining;
  put = [];
}

joining_run : Reach (new_pool 1) joining_pool
unfolding new_pool notified
joining_run = next (next here (stops refl refl refl)) (notifies refl refl)

stop_returns_example :
    ((joining_pool.stop ≡ Stop.stopped) ⊎ CanGo joining_pool)
    × ((u : System) (step : Step joining_pool u) → IsQuiet step → rank_of u < rank_of joining_pool)
stop_returns_example = stop_returns 1 joining_run refl refl QuietReach.still
