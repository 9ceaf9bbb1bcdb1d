-- ===== src/Net/Connection/Writing.antt =====
-- The chain of writes that `Send` starts and the write handlers carry on. A run is a sequence of
-- steps: a posted `Send` runs, or asio completes the oldest write. The handshake is over, so that
-- no write is in flight at the start.
pub mod Order
use mathlib.Core.List.{append-nil, append_assoc}
use security_transmission_pl.Base.{
  ℕ, zero, suc, ◌<◌, ◌≡◌, refl, sym, ◌≤◌, ◌≢◌, ◌∙◌, ap, Bool, true, false, Option, none, some, List,
  [], ◌∷◌, ◌++◌, arith, length, ltb, ◌⊎◌, inl, inr,
}
use security_transmission_pl.Net.Message.{MessageHeader, Message}
use security_transmission_pl.Net.TsQueue.{TsQueue, empty, front, pop_front, push_back}
use security_transmission_pl.Net.Connection.{
  Connection, Write, writing_header, writing_body, writing_validation, Posted, posted_send,
  posted_close, run_posted, on_write_header, on_write_body, finish_message, close,
}

-- What goes over the wire: a header, or the bytes of a body.
pub data Frame (T : Type 0) : Type 0 where
  header_frame : MessageHeader T → Frame T
  body_frame : List ℕ → Frame T

module _ {T : Type 0} where
  unfoldable pub body_frames : List ℕ → List (Frame T)
  body_frames [] = []
  body_frames (b ∷ bs) = body_frame (b ∷ bs) ∷ []

  -- A message on the wire: its header, then its body if there is one.
  unfoldable pub frames : List (Message T) → List (Frame T)
  unfolding body_frames
  frames [] = []
  frames (m ∷ ms) = header_frame m.header ∷ (body_frames m.body ++ frames ms)

-- `wire` is what asio has written, and `accepted` the messages that `Send` has queued.
pub record System (T : Type 0) : Type 0 where
  pub conn : Connection T
  pub wire : List (Frame T)
  pub accepted : List (Message T)

only : (w v : Write) (ws rest : List Write) → ws ≡ w ∷ rest → ws ≡ v ∷ [] → rest ≡ []
only w v ws rest e f = cc

module _ {T : Type 0} where
  abbrev pending : System T → List Write → Connection T
  pending s rest = record (s.conn) { writing = rest }

  -- The first three steps are the posted functions and the completions without an error; a write
  -- that fails has put nothing whole on the wire.
  pub data Step (s t : System T) : Type 0 where
    sends :
        (m : Message T)
        → t ≡ record s { conn = run_posted (posted_send m) s.conn; accepted = s.accepted ++ m ∷ [] }
        → Step s t
    closes : t ≡ record s { conn = run_posted posted_close s.conn } → Step s t
    header_written :
        (rest : List Write) (m : Message T) (c : Connection T)
        → s.conn.writing ≡ writing_header ∷ rest
        → front s.conn.messages_out ≡ some m
        → on_write_header false (pending s rest) ≡ some c
        → t ≡ record s { conn = c; wire = s.wire ++ header_frame m.header ∷ [] }
        → Step s t
    body_written :
        (rest : List Write) (m : Message T) (c : Connection T)
        → s.conn.writing ≡ writing_body ∷ rest
        → front s.conn.messages_out ≡ some m
        → on_write_body false (pending s rest) ≡ some c
        → t ≡ record s { conn = c; wire = s.wire ++ body_frame m.body ∷ [] }
        → Step s t
    header_fails :
        (rest : List Write) (c : Connection T)
        → s.conn.writing ≡ writing_header ∷ rest
        → on_write_header true (pending s rest) ≡ some c
        → t ≡ record s { conn = c }
        → Step s t
    body_fails :
        (rest : List Write) (c : Connection T)
        → s.conn.writing ≡ writing_body ∷ rest
        → on_write_body true (pending s rest) ≡ some c
        → t ≡ record s { conn = c }
        → Step s t

  pub data Reach (s : System T) : System T → Type 0 where
    here : Reach s s
    next : {t u : System T} → Reach s t → Step t u → Reach s u

  -- A connection on which nothing has been sent.
  abbrev pub IsFresh : System T → Type 0
  IsFresh s =
      (s.conn.writing ≡ [])
      × (s.conn.messages_out.deq_queue ≡ [])
      × (s.wire ≡ [])
      × (s.accepted ≡ [])
