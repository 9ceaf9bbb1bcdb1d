-- ===== src/Net/Connection/Reading.antt =====
-- The chain of reads that `ReadHeader` starts: what the peer wrote becomes messages in the queue.
use mathlib.Core.List.{append-nil, append_assoc}
use security_transmission_pl.Base.{
  ℕ, ◌^◌, ◌<◌, ◌≡◌, ◌≢◌, refl, sym, ◌∙◌, ap, true, false, Option, none, some, List, [], ◌∷◌, ◌++◌,
  arith, length, ltb, ◌==◌, u32, map, if◌then◌else◌, ◌>>=◌, ◌-◌, replicate, length-append,
  length-replicate, length-take_of_le,
}
use security_transmission_pl.Net.Message.{MessageHeader, Message, OwnedMessage, size}
use security_transmission_pl.Net.Message.Laws.{IsSized}
use security_transmission_pl.Net.TsQueue.{TsQueue, push_back}
use security_transmission_pl.Net.Connection.{
  Connection, Read, reading_header, reading_body, on_read_header, on_read_body, remote_of, resize,
}
use security_transmission_pl.Net.Connection.Writing.{
  System, IsFresh, Reach, Frame, header_frame, body_frame, frames, body_frames,
}
use security_transmission_pl.Net.Connection.Writing.Order.{Reach-written}

-- A connection and the queue that it fills.
abbrev pub Reader : Type 0 → Type 0
Reader T = Connection T × TsQueue (OwnedMessage T)

length-resize : (bytes : List ℕ) (n : ℕ) → length (resize bytes n) ≡ n
length-resize bytes n = ground (
  arith,
  length-append bytes (replicate (n - length bytes) 0),
  length-replicate {A = ℕ} (n - length bytes) 0,
  length-take_of_le n bytes,
)

-- What is in the buffer for the body after a body was read into it, or none was.
abbrev kept : List ℕ → List ℕ → List ℕ
kept stale [] = stale
kept stale (b ∷ bs) = b ∷ bs

kept_full : (stale body : List ℕ) → body ≢ [] → kept stale body ≡ body
kept_full stale [] full = absurd (full refl)
kept_full stale (b ∷ bs) full = refl

module _ {T : Type 0} where
  -- asio completes the oldest read with what comes next on the wire. `none` means that the bytes do
  -- not fall into place: a body where a header is awaited, or one of another length.
  complete : List Read → Frame T → Reader T → Option (Reader T)
  complete (reading_header ∷ rest) (header_frame h) (c, q) =
      some (on_read_header false h (record c { reading = rest }) q)
  complete (reading_body n ∷ rest) (body_frame bytes) (c, q) =
      if n == length bytes
      then some (on_read_body false bytes (record c { reading = rest }) q)
      else none
  complete _ f r = none

  pub read_frames : List (Frame T) → Reader T → Option (Reader T)
  unfolding complete
  read_frames [] r = some r
  read_frames (f ∷ fs) (c, q) = complete c.reading f (c, q) >>= read_frames fs

  -- What the code makes of the messages `ms` when its buffer holds `stale`: a message without a
  -- body gets the body of the message before it.
  pub received : Option ℕ → List ℕ → List (Message T) → List (OwnedMessage T)
  received remote stale [] = []
  received remote stale (m ∷ ms) =
      let body : List ℕ = kept stale m.body in
      record { remote = remote; msg = record m { body = body } } ∷ received remote body ms

  -- Messages whose headers tell the length of their bodies, which fits 32 bits.
  abbrev pub AllSized : List (Message T) → Type 0
  AllSized [] = Unit {0}
  AllSized (m ∷ ms) = IsSized m × (length m.body < 2 ^ 32) × AllSized ms

  abbrev waiting : Connection T → Message T → Connection T
  waiting c m = record c { temporary_in = m; reading = reading_header ∷ [] }

  -- The state after a message with header `h` and body `body` was put into the queue.
  abbrev after : MessageHeader T → List ℕ → Connection T → TsQueue (OwnedMessage T) → Reader T
  after h body c q =
      let m : Message T = record { header = h; body = body } in
      (waiting c m, push_back q (record { remote = remote_of c.owner_type c.self; msg = m }))

  read_empty :
      (h : MessageHeader T) (c : Connection T) (q : TsQueue (OwnedMessage T)) (fs : List (Frame T))
      → h.size ≡ 0
      → c.reading ≡ reading_header ∷ []
      → read_frames (header_frame h ∷ fs) (c, q) ≡ read_frames fs (after h c.temporary_in.body c q)
  unfolding read_frames on_read_header
  read_empty h c q fs z r = let test : ltb 0 h.size ≡ false = ground arith in rw r (rw test)

  read_full :
      (h : MessageHeader T) (body : List ℕ) (c : Connection T) (q : TsQueue (OwnedMessage T))
      (fs : List (Frame T))
      → 0 < h.size
      → h.size ≡ length body
      → c.reading ≡ reading_header ∷ []
      → read_frames (header_frame h ∷ body_frame body ∷ fs) (c, q)
        ≡ read_frames fs (after h body c q)
  unfolding read_frames on_read_header on_read_body
  read_full h body c q fs z n r =
      let test : ltb 0 h.size ≡ true = ground arith in
      let right : (length (resize c.temporary_in.body h.size) == length body) ≡ true =
        ground (arith, length-resize c.temporary_in.body h.size) in
      rw r (rw test (rw right))

  read_message :
      (m : Message T) (body : List ℕ) (c : Connection T) (q : TsQueue (OwnedMessage T))
      (fs : List (Frame T))
      → m.body ≡ body
      → m.header.size ≡ u32 (length body)
      → length body < 2 ^ 32
      → c.reading ≡ reading_header ∷ []
      → read_frames (header_frame m.header ∷ (body_frames body ++ fs)) (c, q)
        ≡ read_frames fs (after m.header (kept c.temporary_in.body body) c q)
  unfolding body_frames
  read_message m [] c q fs b sized small r = read_empty m.header c q fs sized r
  read_message m (x ∷ xs) c q fs b sized small r =
      read_full m.header (x ∷ xs) c q fs (omega arith) (omega arith) r

  -- For messages with right sizes below 2 ^ 32, on a connection that waits for a header: the
  -- messages that a peer wrote are put in the queue in their order, each with its header, this
  -- connection as its origin, and its body; but where the body is empty, the message gets the body
  -- of the last message that had one, or what was in the buffer. The connection then waits for the
  -- next header.
  pub read_frames-frames :
      (ms : List (Message T)) (c : Connection T) (q : TsQueue (OwnedMessage T))
      → AllSized ms
      → c.reading ≡ reading_header ∷ []
      → (c' : Connection T) × (q' : TsQueue (OwnedMessage T)) × (read_frames (frames ms) (c, q)
          ≡ some (c', q'))
        × (c'.reading ≡ reading_header ∷ [])
        × (q'.deq_queue
            ≡ q.deq_queue ++ received (remote_of c.owner_type c.self) c.temporary_in.body ms)
  unfolding frames received read_frames push_back size
  read_frames-frames [] c q sized r = (c, q, refl, r, sym (append-nil q.deq_queue))
  read_frames-frames (m ∷ ms) c q (sized, small, rest) r =
      let body : List ℕ = kept c.temporary_in.body m.body in
      let s : Reader T = after m.header body c q in
      let (c', q', e, r', d) = read_frames-frames ms s.0 s.1 rest refl in
      (
        c',
        q',
        read_message m m.body c q (frames ms) refl sized small r ∙ e,
        r',
        d ∙ append_assoc q.deq_queue _ _,
      )

  -- Every body has a byte.
  abbrev pub AllFull : List (Message T) → Type 0
  AllFull [] = Unit {0}
  AllFull (m ∷ ms) = (m.body ≢ []) × AllFull ms

  received-AllFull :
      (remote : Option ℕ) (stale : List ℕ) (ms : List (Message T))
      → AllFull ms
      → received remote stale ms ≡ map (λ m. record { remote = remote; msg = m }) ms
  unfolding received
  received-AllFull remote stale [] full = refl
  received-AllFull remote stale (m ∷ ms) (full, rest) =
      let same : kept stale m.body ≡ m.body = kept_full stale m.body full in
      rw same
        (ap (◌∷◌ (record { remote = remote; msg = m })) (received-AllFull remote m.body ms rest))

  -- From end to end: what one end has been asked to send, in any run in which its last write
  -- completed and its socket stayed open, is what the other end hands to its queue, in the same
  -- order and byte for byte, provided that every message has a body and a header that fits it.
  pub messages_delivered :
      (s t : System T) (c : Connection T) (q : TsQueue (OwnedMessage T))
      → IsFresh s
      → Reach s t
      → t.conn.writing ≡ []
      → t.conn.socket_open ≡ true
      → AllSized t.accepted
      → AllFull t.accepted
      → c.reading ≡ reading_header ∷ []
      → (c' : Connection T) × (q' : TsQueue (OwnedMessage T)) × (read_frames t.wire (c, q)
          ≡ some (c', q'))
        × (q'.deq_queue
            ≡ q.deq_queue
              ++ map (λ m. record { remote = remote_of c.owner_type c.self; msg = m }) t.accepted)
  messages_delivered s t c q fresh run done alive sized full r =
      let written : t.wire ≡ frames t.accepted = Reach-written fresh run done alive in
      let (c', q', e, _, d) = read_frames-frames t.accepted c q sized r in
      (
        c',
        q',
        ap (λ fs. read_frames fs (c, q)) written ∙ e,
        d ∙ ap (◌++◌ q.deq_queue) (received-AllFull _ _ t.accepted full),
      )

  -- The same for a run with one message and a queue that was empty.
  pub one_delivered :
      (m : Message T) (s t : System T) (c : Connection T)
      → IsFresh s
      → Reach s t
      → t.conn.writing ≡ []
      → t.conn.socket_open ≡ true
      → t.accepted ≡ m ∷ []
      → IsSized m
      → length m.body < 2 ^ 32
      → m.body ≢ []
      → c.reading ≡ reading_header ∷ []
      → (c' : Connection T) × (q' : TsQueue (OwnedMessage T)) × (read_frames t.wire
            (c, record { deq_queue = [] })
          ≡ some (c', q'))
        × (q'.deq_queue ≡ record { remote = remote_of c.owner_type c.self; msg = m } ∷ [])
  one_delivered m s t c fresh run done alive one sized small full r =
      let (c', q', e, put) =
        messages_delivered s t c (record { deq_queue = [] }) fresh run done alive
          (rw one (sized, small, tt)) (rw one (full, tt)) r in
      (
        c',
        q',
        e,
        put ∙ ap (map (λ m. record { remote = remote_of c.owner_type c.self; msg = m })) one,
      )

  -- The stale body: on a connection that waits for a header, a header with the size 0 that follows
  -- a message with a body and a right size is taken for a message with that same body, whatever its
  -- id is.
  pub stale_body :
      (m : Message T) (h : MessageHeader T) (c : Connection T) (q : TsQueue (OwnedMessage T))
      → IsSized m
      → length m.body < 2 ^ 32
      → m.body ≢ []
      → h.size ≡ 0
      → c.reading ≡ reading_header ∷ []
      → let from = remote_of c.owner_type c.self in
        (c' : Connection T) × (q' : TsQueue (OwnedMessage T)) × (read_frames
            (frames (m ∷ record { header = h; body = [] } ∷ []))
            (c, q)
          ≡ some (c', q'))
        × (q'.deq_queue
            ≡ q.deq_queue
              ++ (record { remote = from; msg = m }
                  ∷ record { remote = from; msg = record { header = h; body = m.body } }
                  ∷ []))
  unfolding received size
  stale_body m h c q sized small full z r =
      let (c', q', e, _, d) =
        read_frames-frames (m ∷ record { header = h; body = [] } ∷ []) c q
          (sized, small, (z, omega arith, tt)) r in
      (c', q', e, rw (kept_full c.temporary_in.body m.body full) at d)
