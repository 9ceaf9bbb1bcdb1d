-- ===== src/Net/ServerInterface/Updating.antt =====
-- `Update`: messages are handed on in the order in which they arrived.
use security_transmission_pl.Base.{ℕ, zero, suc, ◌≡◌, refl, Option, some, List, [], ◌∷◌, take, drop}
use security_transmission_pl.Net.Message.{Message, OwnedMessage}
use security_transmission_pl.Net.TsQueue.{TsQueue, pop_front, empty}
use security_transmission_pl.Net.ServerInterface.{update_loop}

module _ {ℓ} {T : Type 0} {S : Type ℓ} (on_message : Option ℕ → Message T → S → S) where
  -- The handler run on each message of a list.
  abbrev pub handle_all : List (OwnedMessage T) → S → S
  handle_all [] s = s
  handle_all (m ∷ ms) s = handle_all ms (on_message m.remote m.msg s)

  loop-takes :
      (n : ℕ) (ms : List (OwnedMessage T)) (s : S)
      → update_loop on_message n (record { deq_queue = ms }) s
        ≡ some (record { deq_queue = drop n ms }, handle_all (take n ms) s)
  unfolding update_loop pop_front empty
  loop-takes zero ms s = refl
  loop-takes (suc n) [] s = refl
  loop-takes (suc n) (m ∷ ms) s = loop-takes n ms (on_message m.remote m.msg s)

  -- `Update(n)` hands the first `n` messages of the queue to the handler, or all if there are fewer,
  -- each once and in their order, and leaves the others. It is always defined.
  pub update_loop-takes :
      (n : ℕ) (q : TsQueue (OwnedMessage T)) (s : S)
      → update_loop on_message n q s
        ≡ some (record { deq_queue = drop n q.deq_queue }, handle_all (take n q.deq_queue) s)
  update_loop-takes n q s = loop-takes n q.deq_queue s
