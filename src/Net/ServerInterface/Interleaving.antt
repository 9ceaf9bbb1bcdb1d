-- ===== src/Net/ServerInterface/Interleaving.antt =====
-- `Update`, called in a loop, while the thread of the io service goes on: one access to the queue at
-- a time. Between the test of `empty()` and `pop_front` the queue's mutex is free, and any messages
-- may arrive; nobody else takes messages out.
pub mod Draining
use mathlib.Core.List.{append_assoc, append-nil}
use mathlib.Core.Option.{some-injective}
use security_transmission_pl.Base.{
  ℕ, zero, suc, ◌+◌, ◌<◌, ◌≤◌, ◌≡◌, ◌≢◌, refl, sym, ap, ◌∙◌, Bool, true, false, not, ◌&&◌, Option,
  none, some, List, [], ◌∷◌, ◌++◌, ltb, arith, if◌then◌else◌, ◌>>=◌,
}
use security_transmission_pl.Net.Message.{Message, OwnedMessage}
use security_transmission_pl.Net.TsQueue.{TsQueue, pop_front, push_back, empty}
use security_transmission_pl.Net.ServerInterface.Updating.{handle_all}

-- Where the thread stands that calls `Update`: before the loop's test, with the number of messages
-- that this call has handled; behind a test that passed; with a message in its hand; or outside, from
-- where it calls again.
pub data Updater (T : Type 0) : Type 0 where
  testing popping : ℕ → Updater T
  handling : ℕ → OwnedMessage T → Updater T
  returned : Updater T

-- `state` is the program's; `arrived` and `handled` are what was put into the queue, with what it
-- held before, and what the handler got.
pub record System (T : Type 0) (S : Type 0) : Type 0 where
  pub queue : TsQueue (OwnedMessage T)
  pub updater : Updater T
  pub state : S
  pub arrived : List (OwnedMessage T)
  pub handled : List (OwnedMessage T)

module _ {T S : Type 0} (on_message : Option ℕ → Message T → S → S) (max_messages : ℕ) where
  -- `nMessageCount < nMaxMessages && !m_qMessagesIn.empty()`; the count, which stays below the
  -- maximum, does not wrap around.
  abbrev keeps_on : ℕ → TsQueue (OwnedMessage T) → Bool
  keeps_on count q = ltb count max_messages && not (empty q)

  -- What the thread does next; `none` is undefined behaviour.
  abbrev pub advance_at : Updater T → System T S → Option (System T S)
  advance_at (testing count) s =
      some (record s { updater = if keeps_on count s.queue then popping count else returned })
  advance_at (popping count) s =
      pop_front s.queue >>= λ (m, q). some (record s { queue = q; updater = handling count m })
  advance_at (handling count m) s = some (record s {
    updater = testing (count + 1);
    state = on_message m.remote m.msg s.state;
    handled = s.handled ++ m ∷ [];
  })
  advance_at returned s = some (record s { updater = testing 0 })

  unfoldable pub advance : System T S → Option (System T S)
  unfolding pop_front empty
  advance s = advance_at s.updater s

  -- The thread takes its turn, or the io service's thread puts a message into the queue.
  pub data Step (s t : System T S) : Type 0 where
    turns : advance s ≡ some t → Step s t
    arrives :
        (m : OwnedMessage T)
        → t ≡ record s { queue = push_back s.queue m; arrived = s.arrived ++ m ∷ [] }
        → Step s t

  pub data Reach (s : System T S) : System T S → Type 0 where
    here : Reach s s
    next : {t u : System T S} → Reach s t → Step t u → Reach s u

  -- What the thread has in its hand.
  abbrev pub in_hand : Updater T → List (OwnedMessage T)
  in_hand (testing count) = []
  in_hand (popping count) = []
  in_hand (handling count m) = m ∷ []
  in_hand returned = []

  -- Behind the test there is a message, and the count is below the maximum.
  abbrev pub IsAble : Updater T → TsQueue (OwnedMessage T) → Type 0
  IsAble (testing count) q = count ≤ max_messages
  IsAble (popping count) q = (count < max_messages) × (q.deq_queue ≢ [])
  IsAble (handling count m) q = count < max_messages
  IsAble returned q = Unit {0}

  -- Everything is in its place, and the program's state is that of the handler run on what was
  -- handled, in this order, from `s₀` on.
  pub record IsOrdered (s₀ : S) (s : System T S) : Type 0 where
    pub kept : s.arrived ≡ s.handled ++ (in_hand s.updater ++ s.queue.deq_queue)
    pub ran : s.state ≡ handle_all on_message s.handled s₀
    pub able : IsAble s.updater s.queue

  handle_all-append :
      (ms : List (OwnedMessage T)) (m : OwnedMessage T) (s : S)
      → handle_all on_message (ms ++ m ∷ []) s
        ≡ on_message m.remote m.msg (handle_all on_message ms s)
  handle_all-append [] m s = refl
  handle_all-append (x ∷ ms) m s = handle_all-append ms m (on_message x.remote x.msg s)

  append_ne : (xs : List (OwnedMessage T)) (m : OwnedMessage T) → xs ++ m ∷ [] ≢ []
  append_ne [] m e = cc
  append_ne (x ∷ xs) m e = cc

  arrives-IsAble :
      (u : Updater T) (q : TsQueue (OwnedMessage T)) (m : OwnedMessage T)
      → IsAble u q
      → IsAble u (push_back q m)
  unfolding push_back
  arrives-IsAble (testing count) q m a = a
  arrives-IsAble (popping count) q m a = (a.0, append_ne q.deq_queue m)
  arrives-IsAble (handling count x) q m a = a
  arrives-IsAble returned q m a = tt

  arrives-IsOrdered :
      (s₀ : S) (s : System T S) (m : OwnedMessage T)
      → IsOrdered s₀ s
      → IsOrdered s₀ (record s { queue = push_back s.queue m; arrived = s.arrived ++ m ∷ [] })
  unfolding push_back
  arrives-IsOrdered s₀ s m o = record {
    kept =
        ap (λ ms. ms ++ m ∷ []) o.kept
        ∙ append_assoc s.handled (in_hand s.updater ++ s.queue.deq_queue) (m ∷ [])
        ∙ ap (◌++◌ s.handled) (append_assoc (in_hand s.updater) s.queue.deq_queue (m ∷ []));
    ran = o.ran;
    able = arrives-IsAble s.updater s.queue m o.able;
  }

  abbrev pub system :
      Updater T
      → List (OwnedMessage T)
      → S
      → List (OwnedMessage T)
      → List (OwnedMessage T)
      → System T S
  system u ms x a h = record {
    queue = record { deq_queue = ms };
    updater = u;
    state = x;
    arrived = a;
    handled = h;
  }

  -- The test of the loop, on what it finds.
  tested :
      (s₀ : S) (count : ℕ) (ms : List (OwnedMessage T)) (x : S) (a h : List (OwnedMessage T))
      (b : Bool)
      → keeps_on count (record { deq_queue = ms }) ≡ b
      → IsOrdered s₀ (system (testing count) ms x a h)
      → IsOrdered s₀ (system (if b then popping count else returned) ms x a h)
  unfolding empty
  tested s₀ count [] x a h true e o = absurd (ground arith)
  tested s₀ count (m ∷ ms) x a h true e o = record {
    kept = o.kept;
    ran = o.ran;
    able = (ground arith, λ z. ground (arith, z));
  }
  tested s₀ count ms x a h false e o = record { kept = o.kept; ran = o.ran; able = tt }

  advance-IsOrdered :
      (s₀ : S) (u : Updater T) (ms : List (OwnedMessage T)) (x : S) (a h : List (OwnedMessage T))
      → IsOrdered s₀ (system u ms x a h)
      → (t : System T S) × (advance (system u ms x a h) ≡ some t) × IsOrdered s₀ t
  unfolding advance
  advance-IsOrdered s₀ (testing count) ms x a h o = (_, refl, tested s₀ count ms x a h _ refl o)
  advance-IsOrdered s₀ (popping count) [] x a h o = absurd (o.able.1 refl)
  advance-IsOrdered s₀ (popping count) (m ∷ ms) x a h o =
      (_, refl, record { kept = o.kept; ran = o.ran; able = o.able.0 })
  advance-IsOrdered s₀ (handling count m) ms x a h o = (
    _,
    refl,
    record {
      kept = o.kept ∙ sym (append_assoc h (m ∷ []) ms);
      ran = ap (on_message m.remote m.msg) o.ran ∙ sym (handle_all-append h m s₀);
      able = omega (arith, o.able);
    },
  )
  advance-IsOrdered s₀ returned ms x a h o =
      (_, refl, record { kept = o.kept; ran = o.ran; able = omega arith })

  -- A thread that calls `Update` for the first time.
  abbrev pub start : TsQueue (OwnedMessage T) → S → System T S
  start q s₀ = system returned q.deq_queue s₀ q.deq_queue []

  steps-IsOrdered :
      (s₀ : S) (s t : System T S) → advance s ≡ some t → IsOrdered s₀ s → IsOrdered s₀ t
  steps-IsOrdered s₀ s t e o =
      let (t', e', o') =
        advance-IsOrdered s₀ s.updater s.queue.deq_queue s.state s.arrived s.handled o in
      let same : t' ≡ t = some-injective t' t (sym e' ∙ e) in rw same at o'

  reached :
      (q : TsQueue (OwnedMessage T)) (s₀ : S) (s : System T S)
      → Reach (start q s₀) s
      → IsOrdered s₀ s
  reached q s₀ s here = record { kept = refl; ran = refl; able = tt }
  reached q s₀ s (next {t} r (turns e)) = steps-IsOrdered s₀ t s e (reached q s₀ t r)
  reached q s₀ s (next {t} r (arrives m e)) = rw e (arrives-IsOrdered s₀ t m (reached q s₀ t r))

  -- However the messages arrive between the accesses of a thread that calls `Update` again and again:
  -- what was in the queue at the start and what has arrived is, in this order, what the handler got,
  -- each once, what the thread has in its hand, and what the queue holds; the program's state is the
  -- handler's, run on what it got; no call goes on past its maximum; and the thread's next access is
  -- defined, so that `pop_front` is not called on an empty queue.
  pub Reach-IsOrdered :
      (q : TsQueue (OwnedMessage T)) (s₀ : S) (s : System T S)
      → Reach (start q s₀) s
      → IsOrdered s₀ s × ((t : System T S) × (advance s ≡ some t))
  Reach-IsOrdered q s₀ s r =
      let o = reached q s₀ s r in
      let (t, e, _) =
        advance-IsOrdered s₀ s.updater s.queue.deq_queue s.state s.arrived s.handled o in
      (o, (t, e))
