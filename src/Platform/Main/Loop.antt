-- ===== src/Platform/Main/Loop.antt =====
-- src/main.cpp: the loop of `main`, with messages that arrive between its rounds.
use mathlib.Core.List.{append_assoc, append-nil}
use security_transmission_pl.Base.{
  ℕ, zero, suc, ◌≡◌, refl, sym, ap, ◌∙◌, Option, some, List, [], ◌∷◌, ◌++◌, take, drop,
}
use security_transmission_pl.Net.Message.{Message, OwnedMessage}
use security_transmission_pl.Net.TsQueue.{TsQueue, push_back, pop_front, empty}
use security_transmission_pl.Net.ServerInterface.{update_loop}
use security_transmission_pl.Net.ServerInterface.Updating.{handle_all, update_loop-takes}
use security_transmission_pl.Platform.Main.{Event, arrives, rounds, main_loop}

module _ {T : Type 0} where
  -- The messages that arrive in a sequence of events.
  abbrev pub arrivals : List (Event T) → List (OwnedMessage T)
  arrivals [] = []
  arrivals (arrives m ∷ events) = m ∷ arrivals events
  arrivals (rounds ∷ events) = arrivals events

  abbrev all_rounds : ℕ → List (Event T)
  all_rounds zero = []
  all_rounds (suc n) = rounds ∷ all_rounds n

  module _ {S : Type 0} (on_message : Option ℕ → Message T → S → S) where
    order :
        (events : List (Event T)) (ms : List (OwnedMessage T)) (s : S)
        → (handled : List (OwnedMessage T)) × (q' : TsQueue (OwnedMessage T)) × (main_loop
              on_message events
              (record { deq_queue = ms })
              s
            ≡ some (q', handle_all on_message handled s))
          × (ms ++ arrivals events ≡ handled ++ q'.deq_queue)
    unfolding main_loop push_back update_loop pop_front empty
    order [] ms s = ([], record { deq_queue = ms }, refl, append-nil ms)
    order (arrives m ∷ events) ms s =
        let (handled, q', e, o) = order events (ms ++ m ∷ []) s in
        (handled, q', e, sym (append_assoc ms (m ∷ []) (arrivals events)) ∙ o)
    order (rounds ∷ events) [] s = order events [] s
    order (rounds ∷ events) (m ∷ ms) s =
        let (handled, q', e, o) = order events ms (on_message m.remote m.msg s) in
        (m ∷ handled, q', e, ap (◌∷◌ m) o)

    -- Through any arrivals and rounds the loop is defined: what was in the queue and what has arrived
    -- is, in this order, first what the handler got, each once, and then what the queue holds.
    pub main_loop-order :
        (events : List (Event T)) (q : TsQueue (OwnedMessage T)) (s : S)
        → (handled : List (OwnedMessage T)) × (q' : TsQueue (OwnedMessage T)) × (main_loop
              on_message events q s
            ≡ some (q', handle_all on_message handled s))
          × (q.deq_queue ++ arrivals events ≡ handled ++ q'.deq_queue)
    main_loop-order events q s = order events q.deq_queue s

    many_rounds :
        (n : ℕ) (ms : List (OwnedMessage T)) (s : S)
        → main_loop on_message (all_rounds n) (record { deq_queue = ms }) s
          ≡ some (record { deq_queue = drop n ms }, handle_all on_message (take n ms) s)
    unfolding main_loop update_loop pop_front empty
    many_rounds zero ms s = refl
    many_rounds (suc zero) [] s = refl
    many_rounds (suc (suc n)) [] s = many_rounds (suc n) [] s
    many_rounds (suc n) (m ∷ ms) s = many_rounds n ms (on_message m.remote m.msg s)

    -- While nothing arrives, `n` rounds of the loop do what one call of `Update(n)` does.
    pub main_loop-update :
        (n : ℕ) (q : TsQueue (OwnedMessage T)) (s : S)
        → main_loop on_message (all_rounds n) q s ≡ update_loop on_message n q s
    main_loop-update n q s = many_rounds n q.deq_queue s ∙ sym (update_loop-takes on_message n q s)
