-- ===== src/Net/Connection/Writing/Order.antt =====
-- What a run of writes puts on the wire.
use mathlib.Core.List.{append-nil, append_assoc}
use security_transmission_pl.Base.{
  ℕ, ◌≡◌, refl, sym, ◌≤◌, ◌≢◌, ◌∙◌, ap, true, false, none, some, List, [], ◌∷◌, ◌++◌, arith, length,
}
use security_transmission_pl.Net.Message.{Message}
use security_transmission_pl.Net.TsQueue.{TsQueue, empty, front, pop_front, push_back}
use security_transmission_pl.Net.Connection.{
  Connection, Write, writing_header, writing_body, posted_send, posted_close, run_posted,
  on_write_header, on_write_body, finish_message, close,
}
use security_transmission_pl.Net.Connection.Writing.{
  Frame, header_frame, body_frame, body_frames, frames, System, Step, Reach, IsFresh, pending, only,
  sends, closes, header_written, body_written, header_fails, body_fails, here, next,
}

module _ {T : Type 0} where
  -- How far the chain is, and what is left to write of the messages that were accepted.
  pub data Phase (s : System T) : Type 0 where
    idle :
        s.conn.messages_out.deq_queue ≡ []
        → s.conn.writing ≡ []
        → s.wire ≡ frames s.accepted
        → Phase s
    at_header :
        (m : Message T) (ms : List (Message T))
        → s.conn.messages_out.deq_queue ≡ m ∷ ms
        → s.conn.writing ≡ writing_header ∷ []
        → s.wire ++ frames (m ∷ ms) ≡ frames s.accepted
        → Phase s
    at_body :
        (m : Message T) (ms : List (Message T))
        → s.conn.messages_out.deq_queue ≡ m ∷ ms
        → s.conn.writing ≡ writing_body ∷ []
        → s.wire ++ body_frame m.body ∷ frames ms ≡ frames s.accepted
        → Phase s
    broken :
        (m : Message T) (ms : List (Message T)) (left : List (Frame T))
        → s.conn.messages_out.deq_queue ≡ m ∷ ms
        → s.conn.writing ≡ []
        → s.conn.socket_open ≡ false
        → s.wire ++ left ≡ frames s.accepted
        → Phase s

  frames-append : (ms ns : List (Message T)) → frames (ms ++ ns) ≡ frames ms ++ frames ns
  unfolding frames
  frames-append [] ns = refl
  frames-append (m ∷ ms) ns = ap (◌∷◌ (header_frame m.header)) (
      ap (◌++◌ (body_frames m.body)) (frames-append ms ns)
      ∙ sym (append_assoc (body_frames m.body) (frames ms) (frames ns)))

  -- What is left to write grows by the frames of the message that is accepted.
  accept :
      (wire left : List (Frame T)) (accepted : List (Message T)) (m : Message T)
      → wire ++ left ≡ frames accepted
      → wire ++ (left ++ frames (m ∷ [])) ≡ frames (accepted ++ m ∷ [])
  accept wire left accepted m e =
      sym (append_assoc wire left (frames (m ∷ [])))
      ∙ ap (λ fs. fs ++ frames (m ∷ [])) e
      ∙ sym (frames-append accepted (m ∷ []))

  sends-Phase :
      (s : System T) (m : Message T)
      → Phase s
      → Phase
          (record s { conn = run_posted (posted_send m) s.conn; accepted = s.accepted ++ m ∷ [] })
  unfolding run_posted empty push_back
  sends-Phase s m (idle q w e) =
      at_header m [] (ground arith) (ground arith)
        (ap (λ fs. fs ++ frames (m ∷ [])) e ∙ sym (frames-append s.accepted (m ∷ [])))
  sends-Phase s m (at_header n ns q w e) =
      at_header n (ns ++ m ∷ []) (ground arith) (ground arith)
        (ap (◌++◌ s.wire) (frames-append (n ∷ ns) (m ∷ [])) ∙ accept s.wire _ s.accepted m e)
  sends-Phase s m (at_body n ns q w e) = at_body n (ns ++ m ∷ []) (ground arith) (ground arith) (
      ap (λ fs. s.wire ++ body_frame n.body ∷ fs) (frames-append ns (m ∷ []))
      ∙ accept s.wire (body_frame n.body ∷ frames ns) s.accepted m e)
  sends-Phase s m (broken n ns left q w o e) =
      broken n (ns ++ m ∷ []) (left ++ frames (m ∷ [])) (ground arith) (ground arith) (ground arith)
        (accept s.wire left s.accepted m e)

  closes-Phase :
      (s : System T) → Phase s → Phase (record s { conn = run_posted posted_close s.conn })
  unfolding run_posted
  closes-Phase s (idle q w e) = idle q w e
  closes-Phase s (at_header m ms q w e) = at_header m ms q w e
  closes-Phase s (at_body m ms q w e) = at_body m ms q w e
  closes-Phase s (broken m ms left q w o e) = broken m ms left q w refl e

  -- The front message is done, and the next one is begun.
  finish-Phase :
      (s : System T) (m : Message T) (ms : List (Message T)) (rest : List Write) (c : Connection T)
      → s.conn.messages_out.deq_queue ≡ m ∷ ms
      → rest ≡ []
      → finish_message (pending s rest) ≡ some c
      → (wire : List (Frame T)) → wire ++ frames ms ≡ frames s.accepted
      → Phase (record s { conn = c; wire = wire })
  unfolding finish_message pop_front empty frames
  finish-Phase s m [] rest c q r f wire e =
      idle (ground arith) (ground arith) (sym (append-nil wire) ∙ e)
  finish-Phase s m (n ∷ ns) rest c q r f wire e = at_header n ns (ground arith) (ground arith) e

  whole_body :
      (m : Message T) (x : ℕ) (xs : List ℕ)
      → m.body ≡ x ∷ xs
      → ◌≡◌ {A = List (Frame T)} (body_frame m.body ∷ []) (body_frames m.body)
  unfolding body_frames
  whole_body m x xs b = rw b

  front_of :
      (q : TsQueue (Message T)) (m n : Message T) (ns : List (Message T))
      → front q ≡ some m
      → q.deq_queue ≡ n ∷ ns
      → n ≡ m
  unfolding front
  front_of q m n ns f e = ground arith

  -- The handler after a failed write closes the socket, and the rest is never written.
  fails-Phase :
      (s : System T) (m : Message T) (ms : List (Message T)) (rest : List Write)
      (left : List (Frame T)) (c : Connection T)
      → s.conn.messages_out.deq_queue ≡ m ∷ ms
      → rest ≡ []
      → some (close (pending s rest)) ≡ some c
      → s.wire ++ left ≡ frames s.accepted
      → Phase (record s { conn = c })
  fails-Phase s m ms rest left c q r h e =
      broken m ms left (ground arith) (ground arith) (ground arith) e

  header-Phase :
      (s : System T) (m : Message T) (ms : List (Message T)) (rest : List Write) (c : Connection T)
      (body : List ℕ)
      → m.body ≡ body
      → s.conn.messages_out.deq_queue ≡ m ∷ ms
      → rest ≡ []
      → on_write_header false (pending s rest) ≡ some c
      → s.wire ++ frames (m ∷ ms) ≡ frames s.accepted
      → Phase (record s { conn = c; wire = s.wire ++ header_frame m.header ∷ [] })
  unfolding on_write_header frames front
  header-Phase s m ms rest c [] b q r h e =
      finish-Phase s m ms rest c q r (ground arith) (s.wire ++ header_frame m.header ∷ []) (
        append_assoc s.wire (header_frame m.header ∷ []) (frames ms)
        ∙ ap (λ bs. s.wire ++ header_frame m.header ∷ (body_frames bs ++ frames ms)) (sym b)
        ∙ e)
  header-Phase s m ms rest c (x ∷ xs) b q r h e = at_body m ms (ground arith) (ground arith) (
      append_assoc s.wire (header_frame m.header ∷ []) (body_frame m.body ∷ frames ms)
      ∙ ap (λ fs. s.wire ++ header_frame m.header ∷ (fs ++ frames ms)) (whole_body m x xs b)
      ∙ e)

  Step-Phase : {s t : System T} → Step s t → Phase s → Phase t
  unfolding on_write_header on_write_body
  Step-Phase {s} (sends m e) p = rw e (sends-Phase s m p)
  Step-Phase {s} (closes e) p = rw e (closes-Phase s p)
  Step-Phase {s} (header_written rest m c w f h e) (idle q w' i) = cc
  Step-Phase {s} (header_written rest m c w f h e) (at_header n ns q w' i) =
      let same : n ≡ m = front_of s.conn.messages_out m n ns f q in
      rw e (
        header-Phase s m ns rest c m.body refl (q ∙ ap (λ k. k ∷ ns) same) (only _ _ _ rest w w') h
          (ap (λ k. s.wire ++ frames (k ∷ ns)) (sym same) ∙ i))
  Step-Phase {s} (header_written rest m c w f h e) (at_body n ns q w' i) = cc
  Step-Phase {s} (header_written rest m c w f h e) (broken n ns left q w' o i) = cc
  Step-Phase {s} (body_written rest m c w f h e) (idle q w' i) = cc
  Step-Phase {s} (body_written rest m c w f h e) (at_header n ns q w' i) = cc
  Step-Phase {s} (body_written rest m c w f h e) (at_body n ns q w' i) =
      let same : n ≡ m = front_of s.conn.messages_out m n ns f q in
      rw e (
        finish-Phase s n ns rest c q (only _ _ _ rest w w') h (s.wire ++ body_frame m.body ∷ []) (
          append_assoc s.wire (body_frame m.body ∷ []) (frames ns)
          ∙ ap (λ k. s.wire ++ body_frame k.body ∷ frames ns) (sym same)
          ∙ i))
  Step-Phase {s} (body_written rest m c w f h e) (broken n ns left q w' o i) = cc
  Step-Phase {s} (header_fails rest c w h e) (idle q w' i) = cc
  Step-Phase {s} (header_fails rest c w h e) (at_header n ns q w' i) =
      rw e (fails-Phase s n ns rest (frames (n ∷ ns)) c q (only _ _ _ rest w w') h i)
  Step-Phase {s} (header_fails rest c w h e) (at_body n ns q w' i) = cc
  Step-Phase {s} (header_fails rest c w h e) (broken n ns left q w' o i) = cc
  Step-Phase {s} (body_fails rest c w h e) (idle q w' i) = cc
  Step-Phase {s} (body_fails rest c w h e) (at_header n ns q w' i) = cc
  Step-Phase {s} (body_fails rest c w h e) (at_body n ns q w' i) =
      rw e (fails-Phase s n ns rest (body_frame n.body ∷ frames ns) c q (only _ _ _ rest w w') h i)
  Step-Phase {s} (body_fails rest c w h e) (broken n ns left q w' o i) = cc

  Reach-Phase : {s t : System T} → IsFresh s → Reach s t → Phase t
  unfolding frames
  Reach-Phase {s} f here = idle f.1 f.0 (f.2 ∙ sym (ap frames f.3))
  Reach-Phase f (next r st) = Step-Phase st (Reach-Phase f r)

  -- At most one write is in flight, and the wire holds a beginning of the accepted messages' frames.
  abbrev pub InOrder : System T → Type 0
  InOrder s =
      (length s.conn.writing ≤ 1) × ((left : List (Frame T)) × (s.wire ++ left ≡ frames s.accepted))

  Phase-InOrder : {s : System T} → Phase s → InOrder s
  Phase-InOrder {s} (idle q w e) = (ground arith, ([], append-nil s.wire ∙ e))
  Phase-InOrder {s} (at_header m ms q w e) = (ground arith, (frames (m ∷ ms), e))
  Phase-InOrder {s} (at_body m ms q w e) = (ground arith, (body_frame m.body ∷ frames ms, e))
  Phase-InOrder {s} (broken m ms left q w o e) = (ground arith, (left, e))

  Phase-written :
      {s : System T}
      → Phase s
      → s.conn.writing ≡ []
      → s.conn.socket_open ≡ true
      → s.wire ≡ frames s.accepted
  Phase-written (idle q w e) done alive = e
  Phase-written (at_header m ms q w e) done alive = cc
  Phase-written (at_body m ms q w e) done alive = cc
  Phase-written (broken m ms left q w o e) done alive = cc

  -- From a connection on which nothing was sent, after any posted sends and closes and any
  -- completions of writes, with and without an error: at most one write is in flight, and what is
  -- on the wire is a beginning of the accepted messages' frames in the order of the sends.
  pub Reach-InOrder : {s t : System T} → IsFresh s → Reach s t → InOrder t
  Reach-InOrder f r = Phase-InOrder (Reach-Phase f r)

  -- From a connection on which nothing was sent, after any such run: when no write is in flight and
  -- the socket is open, all frames of the accepted messages are on the wire.
  pub Reach-written :
      {s t : System T}
      → IsFresh s
      → Reach s t
      → t.conn.writing ≡ []
      → t.conn.socket_open ≡ true
      → t.wire ≡ frames t.accepted
  Reach-written f r done alive = Phase-written (Reach-Phase f r) done alive

  -- From a connection on which nothing was sent, after any such run: where a write is in flight
  -- there is a message at the front of the queue, and the handlers of its completion are defined.
  pub Reach-handled :
      {s t : System T} (w : Write) (rest : List Write)
      → IsFresh s
      → Reach s t
      → t.conn.writing ≡ w ∷ rest
      → (m : Message T) × (front t.conn.messages_out ≡ some m)
        × (on_write_header false (pending t rest) ≢ none)
        × (on_write_body false (pending t rest) ≢ none)
  unfolding on_write_header on_write_body finish_message front pop_front
  Reach-handled w rest f r e = elim (Reach-Phase f r) [
    | idle q v i ↦ cc
    | at_header m ms q v i ↦ (m, ground arith, ground arith, ground arith)
    | at_body m ms q v i ↦ (m, ground arith, ground arith, ground arith)
    | broken m ms left q v o i ↦ cc
  ]
