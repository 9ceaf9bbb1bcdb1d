-- ===== src/Net/TsQueue.antt =====
-- include/net/net_tsqueue.hpp: a deque whose methods each hold the mutex `muxQueue`, so that a call
-- is one atomic step. `none` is undefined behaviour, an access to the end of an empty deque.
-- `wait` releases the mutex between its parts, and is in the child `Wakeup`.
pub mod Order
pub mod Wakeup
use security_transmission_pl.Base.{
  ℕ, Bool, true, false, Option, none, some, List, [], ◌∷◌, ◌++◌, reverse, length, ◌>>=◌,
}

pub record TsQueue (A : Type 0) : Type 0 where
  pub deq_queue : List A

module _ {A : Type 0} where
  -- The first element and the rest.
  pub uncons : List A → Option (A × List A)
  uncons [] = none
  uncons (x ∷ xs) = some (x, xs)

  -- `TSQueue()`
  unfoldable pub new : TsQueue A
  new = record { deq_queue = [] }

  unfoldable pub front : TsQueue A → Option A
  unfolding uncons
  front q = uncons q.deq_queue >>= λ (x, _). some x

  unfoldable pub back : TsQueue A → Option A
  unfolding uncons
  back q = uncons (reverse q.deq_queue) >>= λ (x, _). some x

  unfoldable pub pop_front : TsQueue A → Option (A × TsQueue A)
  unfolding uncons
  pop_front q = uncons q.deq_queue >>= λ (x, xs). some (x, record { deq_queue = xs })

  unfoldable pub pop_back : TsQueue A → Option (A × TsQueue A)
  unfolding uncons
  pop_back q =
      uncons (reverse q.deq_queue) >>= λ (x, xs). some (x, record { deq_queue = reverse xs })

  unfoldable pub push_back : TsQueue A → A → TsQueue A
  push_back q item = record { deq_queue = q.deq_queue ++ item ∷ [] }

  unfoldable pub push_front : TsQueue A → A → TsQueue A
  push_front q item = record { deq_queue = item ∷ q.deq_queue }

  unfoldable pub empty : TsQueue A → Bool
  empty q = elim (q.deq_queue) [ [] ↦ true | _ ∷ _ ↦ false ]

  unfoldable pub size : TsQueue A → ℕ
  size q = length q.deq_queue

  unfoldable pub clear : TsQueue A → TsQueue A
  clear q = record { deq_queue = [] }
