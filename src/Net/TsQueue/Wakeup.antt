-- ===== src/Net/TsQueue/Wakeup.antt =====
-- `TSQueue::wait` and `push_back` as the steps of two threads. `wait` tests `empty()` under
-- `muxQueue`, lets go of it, takes `muxBlocking` and sleeps on `cvBlocking`, which gives the mutex
-- back; `push_back` appends and then, under both mutexes, notifies. A notification that finds
-- nobody asleep is lost, as the C++ standard says of `notify_one`.
use security_transmission_pl.Base.{◌≡◌, refl, arith, [], ◌∷◌, true, false}
use security_transmission_pl.Net.TsQueue.{TsQueue, push_back, empty, new}

-- Where the thread that waits stands: before the test of `empty()`, between that test and the
-- sleep, asleep, or past the loop.
pub data Waiter : Type 0 where
  testing locking asleep returned : Waiter

-- Where the thread that pushes stands: outside `push_back`, or between the append and the
-- notification, with `muxQueue` in its hands.
pub data Pusher : Type 0 where
  outside notifying : Pusher

pub record System (A : Type 0) : Type 0 where
  pub queue : TsQueue A
  pub waiter : Waiter
  pub pusher : Pusher

-- `cvBlocking.notify_one()`
abbrev notified : Waiter → Waiter
notified testing = testing
notified locking = locking
notified asleep = testing
notified returned = returned

module _ {A : Type 0} where
  -- One step of either thread. `empty()` wants `muxQueue`, which a pusher that is about to notify
  -- holds; `wake` is the spurious wake-up that a condition variable may have.
  pub data Step (s t : System A) : Type 0 where
    find_empty :
        s.waiter ≡ testing
        → s.pusher ≡ outside
        → empty s.queue ≡ true
        → t ≡ record s { waiter = locking }
        → Step s t
    find_item :
        s.waiter ≡ testing
        → s.pusher ≡ outside
        → empty s.queue ≡ false
        → t ≡ record s { waiter = returned }
        → Step s t
    sleep : s.waiter ≡ locking → t ≡ record s { waiter = asleep } → Step s t
    wake : s.waiter ≡ asleep → t ≡ record s { waiter = testing } → Step s t
    append :
        (x : A)
        → s.pusher ≡ outside
        → t ≡ record s { queue = push_back s.queue x; pusher = notifying }
        → Step s t
    notify :
        s.pusher ≡ notifying
        → t ≡ record s { waiter = notified s.waiter; pusher = outside }
        → Step s t

  pub data Reach (s : System A) : System A → Type 0 where
    here : Reach s s
    next : {t u : System A} → Reach s t → Step t u → Reach s u

  -- A thread that calls `wait` on an empty queue.
  abbrev pub start : System A
  start = record { queue = new; waiter = testing; pusher = outside }

  abbrev Inv : System A → Type 0
  Inv s = s.waiter ≡ returned → empty s.queue ≡ false

  Step-Inv : {s t : System A} → Step s t → Inv s → Inv t
  unfolding empty push_back
  Step-Inv (find_empty a b c e) v = ground arith
  Step-Inv (find_item a b c e) v = ground arith
  Step-Inv (sleep a e) v = ground arith
  Step-Inv (wake a e) v = ground arith
  Step-Inv (append x a e) v = ground arith
  Step-Inv (notify a e) v = ground arith

  -- From a call of `wait` on an empty queue, `wait` returns only when the queue holds an item,
  -- whatever the other thread did meanwhile.
  pub Reach-returned : {s : System A} → Reach start s → s.waiter ≡ returned → empty s.queue ≡ false
  Reach-returned here h = cc
  Reach-returned (next r st) h = Step-Inv st (Reach-returned r) h

  -- The lost wake-up: for every item there is a run in which the item is in the queue, its
  -- notification is over, and the thread that waits for it sleeps on.
  pub lost_wakeup :
      (x : A)
      → (s : System A) × Reach start s
        × (s.waiter ≡ asleep)
        × (s.pusher ≡ outside)
        × (s.queue.deq_queue ≡ x ∷ [])
  unfolding push_back new empty
  lost_wakeup x = (
    record { queue = push_back new x; waiter = asleep; pusher = outside },
    next
        (next (next (next here (find_empty refl refl refl refl)) (append x refl refl))
          (notify refl refl))
        (sleep refl refl),
    refl,
    refl,
    refl,
  )
