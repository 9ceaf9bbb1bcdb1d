-- ===== src/Platform/Server/EndToEnd.antt =====
-- A request on its whole way: from the message that a client fills, over the wire, through the
-- queue and `Update`, to the answer that `Work` sends. `Exchange` follows the answer back.
pub mod Received
pub mod Exchange
pub mod Session
use security_transmission_pl.Base.{
  ℕ, ◌^◌, ◌<◌, ◌≡◌, ◌≢◌, refl, sym, ap, ◌∙◌, true, Option, none, some, List, [], ◌∷◌, length,
  reverse, length-reverse, arith, u32, map, take, drop,
}
use mathlib.Core.List.{reverse-reverse}
use security_transmission_pl.Base.Result.{ok}
use security_transmission_pl.Net.Message.{Message, OwnedMessage, with_id, size}
use security_transmission_pl.Net.TsQueue.{TsQueue}
use security_transmission_pl.Net.Connection.{Connection, server, reading_header, remote_of}
use security_transmission_pl.Net.Connection.Writing.{System, Reach, IsFresh}
use security_transmission_pl.Net.Connection.Reading.{read_frames, one_delivered}
use security_transmission_pl.Net.ServerInterface.{send_to, update_loop}
use security_transmission_pl.Net.ServerInterface.Updating.{handle_all, update_loop-takes}
use security_transmission_pl.Proto.Runtime.{IsWireFormat}
use security_transmission_pl.Proto.Msg.{
  NetMsgType, RequestInfo, request_for_decode, decode_request, respond_for_decode, decode_respond,
}
use security_transmission_pl.Platform.Body.{fill, drain, fill_lem}
use security_transmission_pl.Platform.World.{Env, World, assign_file}
use security_transmission_pl.Platform.Server.{pubkey_file_name, on_message, work}
use security_transmission_pl.Platform.Server.Requests.{IsShort, request_bytes, decode_request_bytes}
use security_transmission_pl.Platform.Server.Agreement.{signed}
use security_transmission_pl.Platform.Server.Answer.{encrypted, answer, answer_bytes}
use security_transmission_pl.Platform.Server.Working.{request_in, work_accepts}

module _ {Key L : Type 0} (e : Env Key L) (server_id : List ℕ) where
  -- A request of a new client that the server can accept, with the key that it sends encrypted.
  pub record IsAcceptable (info : RequestInfo) (w : World L) (client : ℕ) (cipher : List ℕ)
      : Type 0 where
    pub wire_format : IsWireFormat e.runtime
    pub short : IsShort info
    pub server_short : length server_id < 2 ^ 31
    pub some_bytes : request_bytes e.runtime info ≢ []
    pub fits : length (request_bytes e.runtime info) < 2 ^ 32
    pub free : w.files (pubkey_file_name info.client_id) ≡ none
    pub can : e.can_write (pubkey_file_name info.client_id) ≡ true
    pub good : signed e server_id client info ≡ ok true
    pub key_works : encrypted e server_id client info ≡ ok cipher
    pub cipher_short : length cipher < 2 ^ 31
    pub answer_fits : length (answer_bytes e server_id client info cipher) < 2 ^ 31

  -- A run of the client's end that has written everything, and a server's end that waits.
  pub record IsDelivered (m : Message NetMsgType) (s t : System NetMsgType)
      (c : Connection NetMsgType) : Type 0 where
    pub fresh : IsFresh s
    pub run : Reach s t
    pub sent : t.accepted ≡ m ∷ []
    pub idle : t.conn.writing ≡ []
    pub alive : t.conn.socket_open ≡ true
    pub waits : c.reading ≡ reading_header ∷ []
    pub serves : c.owner_type ≡ server

  -- The work on a message keeps the client's key and sends it one message, which decodes to the
  -- names, the encrypted key and the number 12.
  abbrev pub IsAnswered : RequestInfo → Message NetMsgType → World L → ℕ → List ℕ → Type 0
  IsAnswered info m w client cipher =
      (sent : Message NetMsgType) × (str : List ℕ) × (m'' : Message NetMsgType) × (work e server_id
          client m w
        ≡ (
          ok tt,
          record w {
            files = assign_file w.files (pubkey_file_name info.client_id) (some info.content);
            heap = send_to (some client) sent w.heap;
          },
        ))
      × (sent.header.id ≡ NetMsgType.seckey_agree)
      × (drain (size sent) sent [] ≡ some (str, m''))
      × (decode_respond e.runtime (respond_for_decode str) ≡ answer e server_id client info cipher)

  request_in-fill :
      (info : RequestInfo) (m : Message NetMsgType) (client : ℕ)
      → IsWireFormat e.runtime
      → IsShort info
      → m.body ≡ reverse (request_bytes e.runtime info)
      → request_in e server_id client m ≡ info
  request_in-fill info m client wire short b =
      ap (λ str. decode_request e.runtime (request_for_decode str))
        (ap reverse b ∙ reverse-reverse (request_bytes e.runtime info))
      ∙ decode_request_bytes e server_id info wire short

  -- The one message of the run, as it leaves the queue of the server's end.
  taken_out :
      (m : Message NetMsgType) (s t : System NetMsgType) (c : Connection NetMsgType)
      → m.header.size ≡ u32 (length m.body)
      → m.body ≢ []
      → length m.body < 2 ^ 32
      → IsDelivered m s t c
      → (c' : Connection NetMsgType) × (q' : TsQueue (OwnedMessage NetMsgType)) × (read_frames
            t.wire
            (c, record { deq_queue = [] })
          ≡ some (c', q'))
        × (update_loop on_message 1 q' [] ≡ some (record { deq_queue = [] }, (some c.self, m) ∷ []))
  unfolding on_message size
  taken_out m s t c sized some_body small d =
      let (c', q', r, put) =
        one_delivered m s t c d.fresh d.run d.idle d.alive d.sent sized small some_body d.waits in
      let one : q'.deq_queue ≡ record { remote = some c.self; msg = m } ∷ [] =
        put ∙ ap (λ o. record { remote = remote_of o c.self; msg = m } ∷ []) d.serves in
      (
        c',
        q',
        r,
        update_loop-takes on_message 1 q' []
            ∙ ap
                (λ ms.
                  some (record { deq_queue = drop 1 ms }, handle_all on_message (take 1 ms) []))
                one,
      )

  -- The work on a message with an acceptable request.
  work_request :
      (info : RequestInfo) (m : Message NetMsgType) (w : World L) (client : ℕ) (cipher : List ℕ)
      → request_in e server_id client m ≡ info
      → length m.body < 2 ^ 64
      → m.header.id ≡ NetMsgType.seckey_agree
      → IsAcceptable info w client cipher
      → IsAnswered info m w client cipher
  work_request info m w client cipher same small id a =
      let b : IsAcceptable (request_in e server_id client m) w client cipher = rw same a in
      rw⁻¹ same (
        work_accepts e server_id client m w cipher small id b.free b.can b.good b.key_works
          b.wire_format b.short.0 b.server_short b.cipher_short b.answer_fits)

  -- The message that the client fills, as it is taken from the queue.
  arrived :
      (info : RequestInfo) (m : Message NetMsgType) (s t : System NetMsgType)
      (c : Connection NetMsgType) (w : World L) (cipher : List ℕ)
      → fill
          (length (request_bytes e.runtime info))
          (request_bytes e.runtime info)
          (with_id NetMsgType.seckey_agree)
        ≡ some m
      → IsDelivered m s t c
      → IsAcceptable info w c.self cipher
      → (c' : Connection NetMsgType) × (q' : TsQueue (OwnedMessage NetMsgType)) × (read_frames
            t.wire
            (c, record { deq_queue = [] })
          ≡ some (c', q'))
        × (update_loop on_message 1 q' [] ≡ some (record { deq_queue = [] }, (some c.self, m) ∷ []))
        × (request_in e server_id c.self m ≡ info)
        × (length m.body < 2 ^ 64)
        × (m.header.id ≡ NetMsgType.seckey_agree)
  unfolding with_id
  arrived info m s t c w cipher filled d a =
      let (b, id, sized) = fill_lem (request_bytes e.runtime info) _ m refl refl filled in
      let long : length m.body ≡ length (request_bytes e.runtime info) =
        ap length b ∙ length-reverse (request_bytes e.runtime info) in
      let some_body : m.body ≢ [] = λ none_left.
        a.some_bytes
          (sym (reverse-reverse (request_bytes e.runtime info)) ∙ ap reverse (sym b ∙ none_left)) in
      let (c', q', r, u) = taken_out m s t c sized some_body (omega (arith, long, a.fits)) d in
      let same = request_in-fill info m c.self a.wire_format a.short b in
      (c', q', r, u, same, omega (arith, long, a.fits), id)

  -- A new client's request with a good signature goes all the way: the message that the client
  -- fills with it and sends, in a run in which its writes were completed, is the one message that
  -- the server's connection puts into the empty queue; `Update(1)` takes it out and `OnMessage`
  -- posts it with this connection; and the work on it keeps the client's key, and sends this
  -- connection one message, which decodes to the names, the encrypted key and the number 12.
  pub request-IsAnswered :
      (info : RequestInfo) (m : Message NetMsgType) (s t : System NetMsgType)
      (c : Connection NetMsgType) (w : World L) (cipher : List ℕ)
      → fill
          (length (request_bytes e.runtime info))
          (request_bytes e.runtime info)
          (with_id NetMsgType.seckey_agree)
        ≡ some m
      → IsDelivered m s t c
      → IsAcceptable info w c.self cipher
      → (c' : Connection NetMsgType) × (q' : TsQueue (OwnedMessage NetMsgType)) × (read_frames
            t.wire
            (c, record { deq_queue = [] })
          ≡ some (c', q'))
        × (update_loop on_message 1 q' [] ≡ some (record { deq_queue = [] }, (some c.self, m) ∷ []))
        × IsAnswered info m w c.self cipher
  request-IsAnswered info m s t c w cipher filled d a =
      let (c', q', r, u, same, small, id) = arrived info m s t c w cipher filled d a in
      (c', q', r, u, work_request info m w c.self cipher same small id a)
