-- ===== src/Tests/EndToEnd.antt =====
-- A session of a client, at a handle of its own, with a server that was just started.
use security_transmission_pl.Base.{
  ◌≡◌, ◌≢◌, refl, Bool, true, false, none, some, [], ◌∷◌, length, arith, reverse, map, ltb,
}
use security_transmission_pl.Base.Bytes.{same_bytes}
use security_transmission_pl.Base.Result.{ok}
use security_transmission_pl.Net.Message.{Message, OwnedMessage, push, pop, size, with_id}
use security_transmission_pl.Net.Scramble.{scramble}
use security_transmission_pl.Net.TsQueue
use security_transmission_pl.Net.TsQueue.{TsQueue, front, push_back, pop_front, empty}
use security_transmission_pl.Net.Connection
use security_transmission_pl.Net.Connection.{
  Connection, writing_header, writing_body, writing_validation, reading_validation, run_posted,
  on_write_header, on_write_body, finish_message, posted_send, client, server, reading_header, new,
  connect_to_client, connect_to_server, on_connect, on_read_validation, on_write_validation,
}
use security_transmission_pl.Net.Connection.Writing.{
  System, Reach, here, next, sends, header_written, body_written, header_frame, body_frame,
}
use security_transmission_pl.Net.Connection.Reading.{read_frames}
use security_transmission_pl.Net.ServerInterface.{
  ServerInterface, comes, assign, new_server, start, on_accept, update_loop, send_to,
}
use security_transmission_pl.Net.ClientInterface.{new_client, connect}
use security_transmission_pl.Proto.Wire.{parse_loop}
use security_transmission_pl.Proto.Wire.Request
use security_transmission_pl.Proto.Wire.Respond
use security_transmission_pl.Proto.Msg.{
  NetMsgType, request_for_decode, decode_request, request_factory_of_enc, create_request,
  create_respond, respond_factory_of_info, respond_for_encode, encode_respond,
}
use security_transmission_pl.Crypto.Base64
use security_transmission_pl.Crypto.Rsa
use security_transmission_pl.Platform.AesKey.{get_aes_rand_str}
use security_transmission_pl.Platform.Body.{fill, drain}
use security_transmission_pl.Platform.World.{
  World, assign_file, exists, read_file, write_file, send,
}
use security_transmission_pl.Platform.Server.{
  on_message, on_client_connect, on_client_validated, work, pubkey_file_name, parse_msg_impl,
  check_sign, respond_msg, agree_with,
}
use security_transmission_pl.Platform.Server.Requests.{request_bytes}
use security_transmission_pl.Platform.Server.Answer.{answer_bytes}
use security_transmission_pl.Platform.Server.EndToEnd.{IsAcceptable}
use security_transmission_pl.Platform.Server.EndToEnd.Received.{IsHolder, IsReceived}
use security_transmission_pl.Platform.Server.EndToEnd.Session.{
  IsSession, server_end, client_end, started, session-IsShared,
}
use security_transmission_pl.Tests.Crypto.{both_keys, toy_ssl-IsKeyPair}
use security_transmission_pl.Tests.Peers.{
  peer, empty_msg, plain_runtime, plain_runtime-IsWireFormat,
}
use security_transmission_pl.Tests.Server.{
  env, info_of, request_msg, cipher, good_signed, good_encrypted,
}

-- The clock reads 5. The ends after the handshake.
abbrev server_conn : Connection NetMsgType
server_conn = record {
  self = 0;
  socket_open = true;
  messages_out = record { deq_queue = [] };
  temporary_in = empty_msg;
  owner_type = server;
  handshake_out = 5;
  handshake_in = scramble 5;
  handshake_check = scramble 5;
  connection_flag = false;
  id = 10000;
  writing = [];
  reading = reading_header ∷ [];
  posted = [];
}

-- The server's end before the handshake.
abbrev greeted : Connection NetMsgType
greeted = record server_conn {
  handshake_in = 0;
  writing = writing_validation ∷ [];
  reading = reading_validation ∷ [];
}

abbrev client_conn : Connection NetMsgType
client_conn = record {
  self = 2;
  socket_open = true;
  messages_out = record { deq_queue = [] };
  temporary_in = empty_msg;
  owner_type = client;
  handshake_out = scramble 5;
  handshake_in = 5;
  handshake_check = 0;
  connection_flag = true;
  id = 0;
  writing = [];
  reading = reading_header ∷ [];
  posted = [];
}

abbrev world : World Bool
world = record { files = λ path. none; loggers = false; heap = λ h. server_conn }

-- A message on an idle connection, half on the wire, and on the wire.
abbrev half : Connection NetMsgType → Message NetMsgType → System NetMsgType
half conn m = record {
  conn = record conn { messages_out = record { deq_queue = m ∷ [] }; writing = writing_body ∷ [] };
  wire = header_frame m.header ∷ [];
  accepted = m ∷ [];
}

abbrev written : Connection NetMsgType → Message NetMsgType → System NetMsgType
written conn m = record {
  conn = record conn { messages_out = record { deq_queue = [] }; writing = [] };
  wire = header_frame m.header ∷ body_frame m.body ∷ [];
  accepted = m ∷ [];
}

run_written :
    (conn : Connection NetMsgType) (m : Message NetMsgType)
    → ltb 0 (length m.body) ≡ true
    → Reach
        (started (record conn { messages_out = record { deq_queue = [] }; writing = [] }))
        (written conn m)
unfolding run_posted on_write_header on_write_body finish_message front push_back pop_front empty
run_written conn m full =
    next
      (next (next here (sends m refl))
        (header_written [] m (half conn m).conn refl refl (rw full refl) refl))
      (body_written [] m (written conn m).conn refl refl refl refl)

abbrev request : Message NetMsgType
request = request_msg 9

acceptable : IsAcceptable env [] (info_of 9) world 0 cipher
unfolding Request.serialize Respond.serialize
acceptable = record {
  wire_format = plain_runtime-IsWireFormat;
  short = (omega arith, omega arith, omega arith, omega arith);
  server_short = omega arith;
  some_bytes = λ e. ground (arith, e);
  fits = omega arith;
  free = refl;
  can = refl;
  good = good_signed;
  key_works = good_encrypted;
  cipher_short = omega arith;
  answer_fits = omega arith;
}

request_filled :
    fill
      (length (request_bytes plain_runtime (info_of 9)))
      (request_bytes plain_runtime (info_of 9))
      (with_id NetMsgType.seckey_agree)
    ≡ some request
unfolding fill push with_id Request.serialize
request_filled = refl

-- The answer as the server makes it.
abbrev answer_msg : Message NetMsgType
answer_msg = record {
  header = record { id = NetMsgType.seckey_agree; size = 39 };
  body = reverse (8 ∷ 12 ∷ 18 ∷ 1 ∷ 65 ∷ 34 ∷ 32 ∷ cipher);
}

answer_posted : ((work env [] 0 request world).1.heap 0).posted ≡ map posted_send (answer_msg ∷ [])
unfolding work parse_msg_impl drain pop size decode_request request_for_decode
    request_factory_of_enc create_request Request.parse Request.round parse_loop pubkey_file_name
    exists read_file write_file check_sign same_bytes Rsa.verify Rsa.of_public_file Rsa.init_pub
    Rsa.encrypt_pub_key Base64.from_base64 Base64.to_base64 get_aes_rand_str respond_msg
    create_respond respond_factory_of_info respond_for_encode encode_respond Respond.serialize fill
    push with_id send send_to Connection.send agree_with
answer_posted = refl

holds : IsHolder env [] (info_of 9) (both_keys 9) 9 9 cipher
unfolding get_aes_rand_str
holds = record {
  pair = toy_ssl-IsKeyPair 9;
  sent_public = refl;
  has_private = refl;
  whole = refl;
  out_of_key = refl;
  text_fits = omega arith;
}

answer_some : answer_bytes env [] 0 (info_of 9) cipher ≢ []
unfolding Respond.serialize
answer_some e = ground (arith, e)

abbrev listening : ServerInterface NetMsgType
listening = (start false (new_server (λ h. peer))).0

-- The same with the client in it.
abbrev accepting : ServerInterface NetMsgType
accepting = record listening {
  connections = some 0 ∷ [];
  heap = assign listening.heap 0 greeted;
  fresh = 1;
  id_counter = 10001;
  accepting = 2;
}

accepts : on_accept on_client_connect (comes 5) empty_msg listening ≡ some accepting
unfolding new TsQueue.new start new_server on_accept on_client_connect connect_to_client scramble
accepts = refl

asks :
    client_end new_client 2 (accepting.heap listening.fresh).handshake_out empty_msg
    ≡ some client_conn
unfolding connect new_client new connect_to_server on_connect on_read_validation on_write_validation
    TsQueue.new start new_server scramble
asks = refl

serves : server_conn ≡ server_end (accepting.heap listening.fresh) client_conn.handshake_out
unfolding on_read_validation on_write_validation start new_server on_client_validated scramble
serves = refl

session :
    IsSession env [] listening accepting new_client 2 5 empty_msg request server_conn client_conn
      (written client_conn request)
      (written server_conn answer_msg)
      world
session = record {
  accepted = accepts;
  client_side = asks;
  server_side = serves;
  in_heap = refl;
  request_run = run_written client_conn request refl;
  request_sent = refl;
  request_written = refl;
  request_open = refl;
  answer_run = run_written server_conn answer_msg refl;
  answer_sent = answer_posted;
  answer_written = refl;
  answer_open = refl;
}

session-IsShared_example :
    (c' : Connection NetMsgType) × (q' : TsQueue (OwnedMessage NetMsgType)) × (read_frames
        (written client_conn request).wire
        (server_conn, record { deq_queue = [] })
      ≡ some (c', q'))
    × (update_loop on_message 1 q' [] ≡ some (record { deq_queue = [] }, (some 0, request) ∷ []))
    × ((work env [] 0 request world).0 ≡ ok tt)
    × ((work env [] 0 request world).1.files
        ≡ assign_file world.files (pubkey_file_name (65 ∷ [])) (some (9 ∷ [])))
    × IsReceived env [] (info_of 9) (both_keys 9) 9 (written server_conn answer_msg) client_conn
session-IsShared_example =
    session-IsShared env [] session (info_of 9) cipher (both_keys 9) 9 9 cipher request_filled
      acceptable holds answer_some
