-- ===== src/Platform/Server/EndToEnd/Session.antt =====
-- A whole session: a client connects and the server accepts it, they do the handshake, and exchange
-- a key.
use security_transmission_pl.Base.{
  ℕ, ◌≡◌, ◌≢◌, true, false, Option, some, List, [], ◌∷◌, length, map, arith, ◌>>=◌,
}
use mathlib.Core.Path.{subst}
use security_transmission_pl.Base.Result.{ok}
use security_transmission_pl.Net.Message.{Message, OwnedMessage, with_id}
use security_transmission_pl.Net.TsQueue.{TsQueue}
use security_transmission_pl.Net.TsQueue
use security_transmission_pl.Net.Scramble.{scramble}
use security_transmission_pl.Net.Connection.{
  Connection, server, client, posted_send, reading_header, new, on_read_validation,
  on_write_validation, connect_to_client, connect_to_server, on_connect,
}
use security_transmission_pl.Net.Connection.Handshake.{read_done, write_done}
use security_transmission_pl.Net.Connection.Writing.{System, Reach, IsFresh}
use security_transmission_pl.Net.Connection.Reading.{read_frames}
use security_transmission_pl.Net.ServerInterface.{ServerInterface, comes, on_accept, update_loop}
use security_transmission_pl.Net.ClientInterface.{ClientInterface, connect}
use security_transmission_pl.Proto.Msg.{NetMsgType, RequestInfo}
use security_transmission_pl.Crypto.Rsa.{MyRsa}
use security_transmission_pl.Platform.Body.{fill}
use security_transmission_pl.Platform.World.{Env, World, assign_file}
use security_transmission_pl.Platform.Server.{
  pubkey_file_name, on_message, on_client_connect, on_client_validated, work,
}
use security_transmission_pl.Platform.Server.Requests.{request_bytes}
use security_transmission_pl.Platform.Server.Answer.{answer_bytes}
use security_transmission_pl.Platform.Server.EndToEnd.{IsAcceptable, IsDelivered}
use security_transmission_pl.Platform.Server.EndToEnd.Received.{IsHolder, IsCarriedBack, IsReceived}
use security_transmission_pl.Platform.Server.EndToEnd.Exchange.{request-IsShared}

-- A connection of the server after the puzzle was written and an answer was read.
abbrev pub server_end : Connection NetMsgType → ℕ → Connection NetMsgType
server_end greeted answer =
    on_read_validation on_client_validated false answer
      (read_done (on_write_validation false (write_done greeted)))

-- A client's connection after `Connect`, when asio has connected it, and it has read the puzzle and
-- written its answer.
abbrev pub client_end :
    ClientInterface NetMsgType → ℕ → ℕ → Message NetMsgType → Option (Connection NetMsgType)
client_end cl self puzzle blank = do
  conn ← (connect true true self blank cl).0.connection
  some (
      on_write_validation false (
        write_done (
          on_read_validation on_client_validated false puzzle
            (read_done (on_connect false (read_done conn))))))

-- The writes of a connection from here on.
abbrev pub started : Connection NetMsgType → System NetMsgType
started conn = record { conn = conn; wire = []; accepted = [] }

-- A connection that can be used.
record IsReady (conn : Connection NetMsgType) : Type 0 where
  fresh : IsFresh (started conn)
  waits : conn.reading ≡ reading_header ∷ []
  idle : conn.posted ≡ []
  open_socket : conn.socket_open ≡ true

client_ready :
    (cl : ClientInterface NetMsgType) (self puzzle : ℕ) (blank : Message NetMsgType)
    (d : Connection NetMsgType)
    → client_end cl self puzzle blank ≡ some d
    → IsReady d × (d.owner_type ≡ client) × (d.handshake_out ≡ scramble puzzle)
unfolding connect new connect_to_server on_connect on_read_validation on_write_validation
    TsQueue.new
client_ready cl self puzzle blank d e = ground arith

-- The connection that the server makes for a client whose socket it has accepted.
greeted :
    (srv srv' : ServerInterface NetMsgType) (now : ℕ) (blank : Message NetMsgType)
    → on_accept on_client_connect (comes now) blank srv ≡ some srv'
    → connect_to_client srv.id_counter (new srv.fresh server now true blank) ≡ srv'.heap srv.fresh
unfolding on_accept on_client_connect
greeted srv srv' now blank e = ground (arith, e)

greeted_ready :
    (self now uid answer : ℕ) (blank : Message NetMsgType)
    → let greeted = connect_to_client uid (new self server now true blank) in
      answer ≡ scramble greeted.handshake_out
      → IsReady (server_end greeted answer) × ((server_end greeted answer).owner_type ≡ server)
unfolding on_client_validated new connect_to_client on_read_validation on_write_validation
    TsQueue.new
greeted_ready self now uid answer blank e = ground arith

server_ready :
    (srv srv' : ServerInterface NetMsgType) (now answer : ℕ) (blank : Message NetMsgType)
    → on_accept on_client_connect (comes now) blank srv ≡ some srv'
    → answer ≡ scramble (srv'.heap srv.fresh).handshake_out
    → IsReady (server_end (srv'.heap srv.fresh) answer)
      × ((server_end (srv'.heap srv.fresh) answer).owner_type ≡ server)
server_ready srv srv' now answer blank e a =
    let same = greeted srv srv' now blank e in
    subst
      (λ g.
        answer ≡ scramble g.handshake_out
        → IsReady (server_end g answer) × ((server_end g answer).owner_type ≡ server))
      same (greeted_ready srv.fresh now srv.id_counter answer blank) a

module _ {Key L : Type 0} (e : Env Key L) (server_id : List ℕ) where
  -- The server before and after it accepted a client; the client `d` and the server's connection `c`
  -- to it, when both have done the handshake; a run in
  -- which the client sends `m` and all is written; the world `w`, in which `c` stands; and a run in
  -- which the server's end sends what the work on `m` has posted on it, and all is written.
  pub record IsSession (srv srv' : ServerInterface NetMsgType) (cl : ClientInterface NetMsgType)
      (self now : ℕ) (blank m : Message NetMsgType) (c d : Connection NetMsgType)
      (t t₂ : System NetMsgType) (w : World L) : Type 0 where
    pub accepted : on_accept on_client_connect (comes now) blank srv ≡ some srv'
    pub client_side : client_end cl self (srv'.heap srv.fresh).handshake_out blank ≡ some d
    pub server_side : c ≡ server_end (srv'.heap srv.fresh) d.handshake_out
    pub in_heap : w.heap c.self ≡ c
    pub request_run : Reach (started d) t
    pub request_sent : t.accepted ≡ m ∷ []
    pub request_written : t.conn.writing ≡ []
    pub request_open : t.conn.socket_open ≡ true
    pub answer_run : Reach (started c) t₂
    pub answer_sent :
        ((work e server_id c.self m w).1.heap c.self).posted ≡ map posted_send t₂.accepted
    pub answer_written : t₂.conn.writing ≡ []
    pub answer_open : t₂.conn.socket_open ≡ true

  module _ {srv srv' : ServerInterface NetMsgType} {cl : ClientInterface NetMsgType} {self now : ℕ}
      {blank m : Message NetMsgType} {c d : Connection NetMsgType} {t t₂ : System NetMsgType}
      {w : World L} (i : IsSession srv srv' cl self now blank m c d t t₂ w) where
    ends_ready : (IsReady d × (d.owner_type ≡ client)) × (IsReady c × (c.owner_type ≡ server))
    ends_ready =
        let (ready, owner, answer) = client_ready cl self _ blank d i.client_side in
        (
          (ready, owner),
          rw i.server_side (server_ready srv srv' now d.handshake_out blank i.accepted answer),
        )

    -- A whole session. The server accepts a client that has connected to it, and both do the
    -- handshake. The client then fills a message with a new client's request with a good signature,
    -- and sends it, in a run in which its writes were completed. The server's queue, empty before,
    -- gets this message; `Update(1)` takes it out and `OnMessage` posts it with this connection; the
    -- work on it returns, puts the client's key in its file, and changes no other file. In any run of
    -- the server's end that sends what the work has posted on this connection, and in which the
    -- writes were completed, one message without an origin gets into the client's empty queue, if
    -- the answer has bytes, fewer than 2 ^ 31. It carries seckey_agree, and
    -- what is taken out of it and decoded are the client's and the server's names, the number 12,
    -- and a text that the client's private key, if OpenSSL can encrypt the drawn key under the
    -- public one of the pair, decrypts to the key that the server drew, with zero bytes behind it.
    pub session-IsShared :
        (info : RequestInfo) (cipher : List ℕ) (holder : MyRsa Key) (public private : Key)
        (out : List ℕ)
        → fill
            (length (request_bytes e.runtime info))
            (request_bytes e.runtime info)
            (with_id NetMsgType.seckey_agree)
          ≡ some m
        → IsAcceptable e server_id info w c.self cipher
        → IsHolder e server_id info holder public private out
        → answer_bytes e server_id c.self info cipher ≢ []
        → (c' : Connection NetMsgType) × (q' : TsQueue (OwnedMessage NetMsgType)) × (read_frames
              t.wire
              (c, record { deq_queue = [] })
            ≡ some (c', q'))
          × (update_loop on_message 1 q' []
              ≡ some (record { deq_queue = [] }, (some c.self, m) ∷ []))
          × ((work e server_id c.self m w).0 ≡ ok tt)
          × ((work e server_id c.self m w).1.files
              ≡ assign_file w.files (pubkey_file_name info.client_id) (some info.content))
          × IsReceived e server_id info holder public t₂ d
    session-IsShared info cipher holder public private out filled a h some_answer =
        let ((d_ready, d_owner), (c_ready, c_owner)) = ends_ready in
        let there : IsDelivered e server_id m (started d) t c = record {
          fresh = d_ready.fresh;
          run = i.request_run;
          sent = i.request_sent;
          idle = i.request_written;
          alive = i.request_open;
          waits = c_ready.waits;
          serves = c_owner;
        } in
        let back : IsCarriedBack e server_id ((work e server_id c.self m w).1.heap c.self)
            (started c) t₂ d =
          record {
            fresh = c_ready.fresh;
            run = i.answer_run;
            sent = i.answer_sent;
            idle = i.answer_written;
            alive = i.answer_open;
            waits = d_ready.waits;
            asks = d_owner;
          } in
        request-IsShared e server_id info m (started d) t c w cipher holder public private out
          (started c) t₂ d filled there a h (rw i.in_heap c_ready.idle) some_answer back
