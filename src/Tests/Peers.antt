-- ===== src/Tests/Peers.antt =====
-- Connections, messages and a wire format for the tests.
use security_transmission_pl.Base.{
  ℕ, ◌+◌, ◌*◌, ◌^◌, ltb, if◌then◌else◌, ◌≤◌, ◌<◌, ◌≡◌, refl, ap, true, false, none, some, List, [],
  ◌∷◌, ◌++◌, length, take, drop, take_append, drop_append, arith, length-append, take-append-drop,
}
use security_transmission_pl.Net.Message.{Message}
use security_transmission_pl.Net.Connection.{
  Connection, server, writing_header, writing_body, run_posted, on_write_header, on_write_body,
  finish_message, reading_header,
}
use security_transmission_pl.Net.Connection.Writing.{
  System, Reach, here, next, sends, header_written, body_written, header_frame, body_frame,
}
use security_transmission_pl.Net.TsQueue.{front, push_back, pop_front, empty}
use security_transmission_pl.Proto.Msg.{NetMsgType}
use security_transmission_pl.Proto.Runtime.{Runtime, IsWireFormat}

abbrev pub empty_msg : Message NetMsgType
empty_msg = record { header = record { id = NetMsgType.failed; size = 0 }; body = [] }

abbrev pub hello : Message NetMsgType
hello = record { header = record { id = NetMsgType.seckey_verify; size = 2 }; body = 7 ∷ 8 ∷ [] }

-- A server's end of a connection, at handle 1.
abbrev pub peer : Connection NetMsgType
peer = record {
  self = 1;
  socket_open = true;
  messages_out = record { deq_queue = [] };
  temporary_in = empty_msg;
  owner_type = server;
  handshake_out = 5;
  handshake_in = 0;
  handshake_check = 6;
  connection_flag = false;
  id = 10000;
  writing = [];
  reading = reading_header ∷ [];
  posted = [];
}

-- The same with a closed socket.
abbrev pub dead_peer : Connection NetMsgType
dead_peer = record peer { socket_open = false }

-- Nothing sent yet; `hello` accepted; its header on the wire; all of it on the wire.
abbrev pub sys_fresh : System NetMsgType
sys_fresh = record { conn = peer; wire = []; accepted = [] }

abbrev pub sys_sent : System NetMsgType
sys_sent = record {
  conn = record peer {
    messages_out = record { deq_queue = hello ∷ [] };
    writing = writing_header ∷ [];
  };
  wire = [];
  accepted = hello ∷ [];
}

abbrev pub sys_half : System NetMsgType
sys_half = record {
  conn = record peer {
    messages_out = record { deq_queue = hello ∷ [] };
    writing = writing_body ∷ [];
  };
  wire = header_frame hello.header ∷ [];
  accepted = hello ∷ [];
}

abbrev pub sys_done : System NetMsgType
sys_done = record {
  conn = peer;
  wire = header_frame hello.header ∷ body_frame hello.body ∷ [];
  accepted = hello ∷ [];
}

pub run_half : Reach sys_fresh sys_half
unfolding run_posted on_write_header front push_back empty
run_half =
    next (next here (sends hello refl)) (header_written [] hello sys_half.conn refl refl refl refl)

pub run_done : Reach sys_fresh sys_done
unfolding on_write_body finish_message front pop_front empty
run_done = next run_half (body_written [] hello sys_done.conn refl refl refl refl)

-- A field is its tag, its length and its bytes; a number is its tag and itself.
abbrev pub plain_runtime : Runtime
plain_runtime = record {
  write_bytes = λ field bytes. (field * 8 + 2) ∷ length bytes ∷ bytes;
  write_uint32 = λ field value. (field * 8) ∷ value ∷ [];
  serialize_as_string = λ bytes. if ltb (length bytes) (2 ^ 31) then bytes else [];
  read_tag = λ input. elim input [ [] ↦ none | t ∷ rest ↦ some (t, rest) ];
  read_bytes =
      λ input. elim input [ [] ↦ ([], none) | n ∷ rest ↦ (take n rest, some (drop n rest)) ];
  read_uint32 = λ input. elim input [ [] ↦ (0, none) | v ∷ rest ↦ (v, some rest) ];
  read_unknown = λ tag input. some (tag ∷ [], input);
}

length-drop : (n : ℕ) (xs : List ℕ) → length (drop n xs) ≤ length xs
length-drop n xs =
    omega (arith, ap length (take-append-drop n xs), length-append (take n xs) (drop n xs))

plain_tag_consumes :
    (input : List ℕ) (tag : ℕ) (rest : List ℕ)
    → plain_runtime.read_tag input ≡ some (tag, rest)
    → length rest < length input
plain_tag_consumes [] tag rest e = ground arith
plain_tag_consumes (t ∷ r) tag rest e = ground arith

plain_bytes_consumes :
    (input bytes rest : List ℕ)
    → plain_runtime.read_bytes input ≡ (bytes, some rest)
    → length rest ≤ length input
plain_bytes_consumes [] bytes rest e = ground arith
plain_bytes_consumes (n ∷ r) bytes rest e = ground (arith, length-drop n r)

plain_uint32_consumes :
    (input : List ℕ) (value : ℕ) (rest : List ℕ)
    → plain_runtime.read_uint32 input ≡ (value, some rest)
    → length rest ≤ length input
plain_uint32_consumes [] value rest e = ground arith
plain_uint32_consumes (v ∷ r) value rest e = ground arith

pub plain_runtime-IsWireFormat : IsWireFormat plain_runtime
plain_runtime-IsWireFormat = record {
  bytes_tag = λ field bytes rest a b c.
      (length bytes ∷ (bytes ++ rest), refl, rw (take_append bytes rest, drop_append bytes rest));
  uint32_tag = λ field value rest a b c. (value ∷ rest, refl, refl);
  string_fits = λ bytes h. ground arith;
  string_fails = λ bytes h. ground arith;
  tag_consumes = plain_tag_consumes;
  bytes_consumes = plain_bytes_consumes;
  uint32_consumes = plain_uint32_consumes;
  unknown_consumes = λ input tag field rest e. ground arith;
}
