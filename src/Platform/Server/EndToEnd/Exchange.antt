-- ===== src/Platform/Server/EndToEnd/Exchange.antt =====
-- The exchange of a key, from the request that a client fills to the key that it decrypts: the parts
-- of the program on both sides, and the wire in both directions.
use security_transmission_pl.Base.{
  ℕ, ◌^◌, ◌<◌, ◌≡◌, ◌≢◌, sym, ap, ◌∙◌, none, some, List, [], ◌∷◌, ◌++◌, length, reverse,
  length-reverse, arith, u32,
}
use mathlib.Core.List.{map, reverse-reverse}
use security_transmission_pl.Base.Result.{ok}
use security_transmission_pl.Net.Message.{Message, OwnedMessage, with_id, size}
use security_transmission_pl.Net.TsQueue.{TsQueue}
use security_transmission_pl.Net.Connection.{Connection, posted_send, remote_of, send}
use security_transmission_pl.Net.Connection.Writing.{System}
use security_transmission_pl.Net.Connection.Reading.{read_frames, one_delivered}
use security_transmission_pl.Net.ServerInterface.{send_to, update_loop}
use security_transmission_pl.Proto.Msg.{NetMsgType, RequestInfo}
use security_transmission_pl.Crypto.Rsa.{MyRsa}
use security_transmission_pl.Platform.Body.{fill}
use security_transmission_pl.Platform.World.{Env, World, assign_file}
use security_transmission_pl.Platform.Server.{pubkey_file_name, on_message, work, respond_msg}
use security_transmission_pl.Platform.Server.Requests.{request_bytes}
use security_transmission_pl.Platform.Server.Answer.{answer_bytes, respond_msg_lem}
use security_transmission_pl.Platform.Server.Working.{request_in, work_sends}
use security_transmission_pl.Platform.Server.EndToEnd.{IsAcceptable, IsDelivered, arrived}
use security_transmission_pl.Platform.Server.EndToEnd.Received.{
  IsHolder, IsCarriedBack, IsReceived, answer_read,
}

-- Only one list of messages is posted as one message.
posted_one :
    {T : Type 0} (ms : List (Message T)) (m : Message T)
    → posted_send m ∷ [] ≡ map posted_send ms
    → ms ≡ m ∷ []
posted_one [] m e = cc
posted_one (x ∷ []) m e = cc
posted_one (x ∷ y ∷ ms) m e = cc

module _ {Key L : Type 0} (e : Env Key L) (server_id : List ℕ) where
  -- `Send` posts the message behind what was posted before.
  posted-send_to :
      (heap : ℕ → Connection NetMsgType) (h : ℕ) (m : Message NetMsgType)
      → (send_to (some h) m heap h).posted ≡ (heap h).posted ++ posted_send m ∷ []
  unfolding send_to send
  posted-send_to heap h m = ground arith

  -- The server's answer goes back over the wire.
  carried_back :
      (w : World L) (h : ℕ) (sent : Message NetMsgType) (s t : System NetMsgType)
      (d : Connection NetMsgType)
      → (w.heap h).posted ≡ []
      → IsCarriedBack e server_id (send_to (some h) sent w.heap h) s t d
      → sent.header.size ≡ u32 (length sent.body)
      → length sent.body < 2 ^ 32
      → sent.body ≢ []
      → (d' : Connection NetMsgType) × (q : TsQueue (OwnedMessage NetMsgType)) × (read_frames t.wire
            (d, record { deq_queue = [] })
          ≡ some (d', q))
        × (q.deq_queue ≡ record { remote = none; msg = sent } ∷ [])
  unfolding size
  carried_back w h sent s t d idle b sized small full =
      let one : t.accepted ≡ sent ∷ [] = posted_one t.accepted sent (
        ap (λ ps. ps ++ posted_send sent ∷ []) (sym idle)
        ∙ sym (posted-send_to w.heap h sent)
        ∙ b.sent) in
      let (d', q, r, put) =
        one_delivered sent s t d b.fresh b.run b.idle b.alive one sized small full b.waits in
      (d', q, r, put ∙ ap (λ o. record { remote = remote_of o d.self; msg = sent } ∷ []) b.asks)

  -- The work on a message with an acceptable request, for which this answer is made.
  work_info :
      (info : RequestInfo) (m : Message NetMsgType) (w : World L) (h : ℕ) (cipher : List ℕ)
      (sent : Message NetMsgType)
      → request_in e server_id h m ≡ info
      → length m.body < 2 ^ 64
      → m.header.id ≡ NetMsgType.seckey_agree
      → IsAcceptable e server_id info w h cipher
      → respond_msg e server_id info cipher ≡ ok sent
      → work e server_id h m w ≡ (
        ok tt,
        record w {
          files = assign_file w.files (pubkey_file_name info.client_id) (some info.content);
          heap = send_to (some h) sent w.heap;
        },
      )
  work_info info m w h cipher sent same small id a made =
      let b : IsAcceptable e server_id (request_in e server_id h m) w h cipher = rw same a in
      rw⁻¹ same (
        work_sends e server_id h m w cipher sent small id b.free b.can b.good b.key_works
          (rw same made))

  -- From the message that the client fills to the end of the work on it.
  request_worked :
      (info : RequestInfo) (m : Message NetMsgType) (s t : System NetMsgType)
      (c : Connection NetMsgType) (w : World L) (cipher : List ℕ) (sent : Message NetMsgType)
      → fill
          (length (request_bytes e.runtime info))
          (request_bytes e.runtime info)
          (with_id NetMsgType.seckey_agree)
        ≡ some m
      → IsDelivered e server_id m s t c
      → IsAcceptable e server_id info w c.self cipher
      → respond_msg e server_id info cipher ≡ ok sent
      → (c' : Connection NetMsgType) × (q' : TsQueue (OwnedMessage NetMsgType)) × (read_frames
            t.wire
            (c, record { deq_queue = [] })
          ≡ some (c', q'))
        × (update_loop on_message 1 q' [] ≡ some (record { deq_queue = [] }, (some c.self, m) ∷ []))
        × (work e server_id c.self m w ≡ (
          ok tt,
          record w {
            files = assign_file w.files (pubkey_file_name info.client_id) (some info.content);
            heap = send_to (some c.self) sent w.heap;
          },
        ))
  request_worked info m s t c w cipher sent filled d a made =
      let (c', q', r, u, same, small, id) = arrived e server_id info m s t c w cipher filled d a in
      (c', q', r, u, work_info info m w c.self cipher sent same small id a made)

  -- The whole exchange of a key. A new client fills a message with a request with a good signature
  -- and sends it, in a run in which its writes were completed; the server's connection waits for a
  -- header and has nothing left to send. Then the server's queue, empty before, gets this message;
  -- `Update(1)` takes it out and `OnMessage` posts it with this connection; the work on it returns,
  -- and puts the client's key in its file and changes no other. In any run of the server's end that
  -- sends what the work has posted on this connection, and in which the writes were completed, one
  -- message without an origin gets into the client's empty queue, if the client waits for a header
  -- and the answer has bytes, fewer than 2 ^ 31. It carries seckey_agree, and what is taken out
  -- of it and decoded are the client's and the server's names, the number 12, and a text that the
  -- client's private key, if OpenSSL can encrypt the drawn key under the public one of its pair,
  -- decrypts to the key that the server drew, with zero bytes behind it.
  pub request-IsShared :
      (info : RequestInfo) (m : Message NetMsgType) (s t : System NetMsgType)
      (c : Connection NetMsgType) (w : World L) (cipher : List ℕ) (holder : MyRsa Key)
      (public private : Key) (out : List ℕ) (s₂ t₂ : System NetMsgType) (d : Connection NetMsgType)
      → fill
          (length (request_bytes e.runtime info))
          (request_bytes e.runtime info)
          (with_id NetMsgType.seckey_agree)
        ≡ some m
      → IsDelivered e server_id m s t c
      → IsAcceptable e server_id info w c.self cipher
      → IsHolder e server_id info holder public private out
      → (w.heap c.self).posted ≡ []
      → answer_bytes e server_id c.self info cipher ≢ []
      → IsCarriedBack e server_id ((work e server_id c.self m w).1.heap c.self) s₂ t₂ d
      → (c' : Connection NetMsgType) × (q' : TsQueue (OwnedMessage NetMsgType)) × (read_frames
            t.wire
            (c, record { deq_queue = [] })
          ≡ some (c', q'))
        × (update_loop on_message 1 q' [] ≡ some (record { deq_queue = [] }, (some c.self, m) ∷ []))
        × ((work e server_id c.self m w).0 ≡ ok tt)
        × ((work e server_id c.self m w).1.files
            ≡ assign_file w.files (pubkey_file_name info.client_id) (some info.content))
        × IsReceived e server_id info holder public t₂ d
  request-IsShared info m s t c w cipher holder public private out s₂ t₂ d filled there a h idle
        some_answer back =
      let bytes = answer_bytes e server_id c.self info cipher in
      let (sent, m'', made, dr, id, turned, sized) =
        respond_msg_lem e server_id c.self info cipher a.wire_format a.answer_fits in
      let long : length sent.body ≡ length bytes = ap length turned ∙ length-reverse bytes in
      let (c', q', r, u, went) = request_worked info m s t c w cipher sent filled there a made in
      let (d', q, r₂, put) =
        carried_back w c.self sent s₂ t₂ d idle (rw went at back) sized
          (omega (arith, long, a.answer_fits))
          (λ empty. some_answer (sym (reverse-reverse bytes) ∙ ap reverse (sym turned ∙ empty))) in
      (
        c',
        q',
        r,
        u,
        ap (λ o. o.0) went,
        ap (λ o. o.1.files) went,
        (
          sent,
          d',
          q,
          bytes,
          m'',
          r₂,
          put,
          id,
          dr,
          answer_read e server_id info holder public private out cipher c.self w a h,
        ),
      )
