-- ===== src/Net/ServerInterface/Interleaving/Draining.antt =====
-- `Update`, called in a loop, when no more messages arrive: the queue is emptied.
use mathlib.Core.List.{append-nil}
use mathlib.Core.Option.{some-injective}
use security_transmission_pl.Base.{
  ℕ, zero, suc, ◌+◌, ◌*◌, ◌<◌, ◌≤◌, ◌≡◌, refl, sym, ap, ◌∙◌, Bool-cases, true, false, inl, inr,
  Option, some, List, [], ◌∷◌, ◌++◌, length, ltb, lt→ltb, arith, ◌>>=◌,
}
use security_transmission_pl.Net.Message.{Message, OwnedMessage}
use security_transmission_pl.Net.TsQueue.{TsQueue}
use security_transmission_pl.Net.ServerInterface.Updating.{handle_all}
use security_transmission_pl.Net.ServerInterface.Interleaving.{
  Updater, testing, popping, handling, returned, System, advance, system, Reach, start, IsOrdered,
  reached, advance-IsOrdered,
}

module _ {T S : Type 0} (on_message : Option ℕ → Message T → S → S) (max_messages : ℕ) where
  -- Some turns of the thread, with no arrival in between.
  pub turns_of : ℕ → System T S → Option (System T S)
  turns_of zero s = some s
  turns_of (suc n) s = advance on_message max_messages s >>= turns_of n

  abbrev sys :
      Updater T
      → List (OwnedMessage T)
      → S
      → List (OwnedMessage T)
      → List (OwnedMessage T)
      → System T S
  sys = system on_message max_messages

  -- A round of the loop, and a call that returns and is made again.
  handles_one :
      (n count : ℕ) (m : OwnedMessage T) (ms : List (OwnedMessage T)) (x : S)
      (a h : List (OwnedMessage T))
      → ltb count max_messages ≡ true
      → turns_of (suc (suc (suc n))) (sys (testing count) (m ∷ ms) x a h)
        ≡ turns_of n (sys (testing (count + 1)) ms (on_message m.remote m.msg x) a (h ++ m ∷ []))
  unfolding turns_of advance
  handles_one n count m ms x a h below = rw below refl

  calls_again :
      (n count : ℕ) (ms : List (OwnedMessage T)) (x : S) (a h : List (OwnedMessage T))
      → ltb count max_messages ≡ false
      → turns_of (suc (suc n)) (sys (testing count) ms x a h)
        ≡ turns_of n (sys (testing 0) ms x a h)
  unfolding turns_of advance
  calls_again n count ms x a h full = rw full refl

  module _ (some_room : ltb 0 max_messages ≡ true) where
    -- The queue is emptied in so many turns.
    abbrev Empties : ℕ → System T S → Type 0
    Empties bound s =
        (n : ℕ) × (c : ℕ) × (x : S) × (h : List (OwnedMessage T)) × (n ≤ bound)
        × (turns_of n s ≡ some (sys (testing c) [] x s.arrived h))

    from_test :
        (count : ℕ) (ms : List (OwnedMessage T)) (x : S) (a h : List (OwnedMessage T))
        → Empties (5 * length ms) (sys (testing count) ms x a h)
    unfolding turns_of
    from_test count [] x a h = (0, count, x, h, omega arith, refl)
    from_test count (m ∷ ms) x a h = elim (Bool-cases (ltb count max_messages)) [
      | inl below ↦
          let (n, c, x', h', small, e) =
            from_test (count + 1) ms (on_message m.remote m.msg x) a (h ++ m ∷ []) in
          (suc (suc (suc n)), c, x', h', omega arith, handles_one n count m ms x a h below ∙ e)
      | inr full ↦
          let (n, c, x', h', small, e) =
            from_test 1 ms (on_message m.remote m.msg x) a (h ++ m ∷ []) in
          (
            suc (suc (suc (suc (suc n)))),
            c,
            x',
            h',
            omega arith,
            calls_again (suc (suc (suc n))) count (m ∷ ms) x a h full
                ∙ handles_one n 0 m ms x a h some_room
                ∙ e,
          )
    ]

    from_any :
        (s₀ : S) (u : Updater T) (ms : List (OwnedMessage T)) (x : S) (a h : List (OwnedMessage T))
        → IsOrdered on_message max_messages s₀ (sys u ms x a h)
        → Empties (5 * length ms + 2) (sys u ms x a h)
    unfolding turns_of advance
    from_any s₀ (testing count) ms x a h o =
        let (n, c, x', h', small, e) = from_test count ms x a h in (n, c, x', h', omega arith, e)
    from_any s₀ (popping count) [] x a h o = absurd (o.able.1 refl)
    from_any s₀ (popping count) (m ∷ ms) x a h o =
        let (n, c, x', h', small, e) =
          from_test (count + 1) ms (on_message m.remote m.msg x) a (h ++ m ∷ []) in
        (suc (suc n), c, x', h', omega arith, e)
    from_any s₀ (handling count m) ms x a h o =
        let (n, c, x', h', small, e) =
          from_test (count + 1) ms (on_message m.remote m.msg x) a (h ++ m ∷ []) in
        (suc n, c, x', h', omega arith, e)
    from_any s₀ returned ms x a h o =
        let (n, c, x', h', small, e) = from_test 0 ms x a h in (suc n, c, x', h', omega arith, e)

  turns_of-IsOrdered :
      (s₀ : S) (n : ℕ) (s t : System T S)
      → turns_of n s ≡ some t
      → IsOrdered on_message max_messages s₀ s
      → IsOrdered on_message max_messages s₀ t
  unfolding turns_of
  turns_of-IsOrdered s₀ zero s t e o = rw (some-injective s t e) at o
  turns_of-IsOrdered s₀ (suc n) s t e o =
      let (s', e', o') =
        advance-IsOrdered on_message max_messages s₀ s.updater s.queue.deq_queue s.state s.arrived
          s.handled o in
      turns_of-IsOrdered s₀ n s' t (ap (λ r. r >>= turns_of n) (sym e') ∙ e) o'

  -- From every state that a thread reaches which calls `Update` again and again, with a maximum
  -- above 0: if no more messages arrive, some turns of the thread, at most five for each message in
  -- the queue and two more, are defined and lead to a state in which the queue is empty, all
  -- messages that have ever been in it were handled in their order, and the program's state is the
  -- handler's.
  pub Reach-empties :
      (q : TsQueue (OwnedMessage T)) (s₀ : S) (s : System T S)
      → Reach on_message max_messages (start on_message max_messages q s₀) s
      → 0 < max_messages
      → (n : ℕ) × (t : System T S) × (n ≤ 5 * length s.queue.deq_queue + 2)
        × (turns_of n s ≡ some t)
        × (t.queue.deq_queue ≡ [])
        × (t.handled ≡ s.arrived)
        × (t.state ≡ handle_all on_message s.arrived s₀)
  Reach-empties q s₀ s r room =
      let o = reached on_message max_messages q s₀ s r in
      let (n, c, x, h, small, e) =
        from_any (lt→ltb 0 max_messages room) s₀ s.updater s.queue.deq_queue s.state s.arrived
          s.handled o in
      let t : System T S = sys (testing c) [] x s.arrived h in
      let o' = turns_of-IsOrdered s₀ n s t e o in
      let all : h ≡ s.arrived = sym (append-nil h) ∙ sym o'.kept in
      (n, t, small, e, refl, all, o'.ran ∙ ap (λ ms. handle_all on_message ms s₀) all)
