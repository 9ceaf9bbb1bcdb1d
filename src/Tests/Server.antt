-- ===== src/Tests/Server.antt =====
-- The theorems on the server's handlers, each on one input.
use security_transmission_pl.Base.{
  ℕ, ◌≡◌, ◌≢◌, refl, ap, Bool, true, false, none, some, List, [], ◌∷◌, length, reverse, arith,
  replicate,
}
use security_transmission_pl.Base.Result.{ok, throws, spdlog_ex}
use security_transmission_pl.Base.Bytes.{same_bytes}
use security_transmission_pl.Net.Message.{Message, size, with_id}
use security_transmission_pl.Net.ServerInterface.{send_to}
use security_transmission_pl.Proto.Wire.{parse_loop}
use security_transmission_pl.Proto.Wire.Request
use security_transmission_pl.Proto.Wire.Respond
use security_transmission_pl.Proto.Msg.{
  NetMsgType, RequestInfo, request_for_decode, respond_for_decode, decode_request, decode_respond,
}
use security_transmission_pl.Crypto.Base64
use security_transmission_pl.Crypto.Rsa
use security_transmission_pl.Platform.AesKey.{
  len16, key_len, get_aes_rand_str, get_aes_rand_str_lem, AllPrintable,
}
use security_transmission_pl.Platform.Body.{drain}
use security_transmission_pl.Platform.World.{Env, World, assign_file}
use security_transmission_pl.Platform.Server.{pubkey_file_name, work}
use security_transmission_pl.Platform.Server.Agreement.{signed, agree, agree_leaks}
use security_transmission_pl.Platform.Server.Answer.{encrypted, answer}
use security_transmission_pl.Platform.Server.Accepted.{agree_accepted, agree_only_signed}
use security_transmission_pl.Platform.Server.Working.{request_in, work_accepts, work_refuses}
use security_transmission_pl.Tests.Peers.{peer, plain_runtime, plain_runtime-IsWireFormat}
use security_transmission_pl.Tests.Crypto.{toy_ssl, toy_digest}

-- The registry of loggers says whether the only logger has been made.
abbrev pub env : Env ℕ Bool
env = record {
  ssl = toy_ssl;
  runtime = plain_runtime;
  digest = toy_digest;
  basic_logger = λ registry name. elim registry [ true ↦ none | false ↦ some true ];
  can_write = λ path. true;
  rand = λ i. i;
  draw = λ i. i;
}

abbrev pub world : World Bool
world = record { files = λ path. none; loggers = false; heap = λ h. peer }

abbrev logged_world : World Bool
logged_world = record { files = λ path. none; loggers = true; heap = λ h. peer }

-- A request of client "A" with the key 9, whose signature is `sign`.
abbrev pub info_of : ℕ → RequestInfo
info_of sign = record {
  info = record { client_id = 65 ∷ []; server_id = []; content = 9 ∷ [] };
  sign = sign ∷ [];
}

abbrev plain_bytes : ℕ → List ℕ
plain_bytes sign = 10 ∷ 1 ∷ 65 ∷ 26 ∷ 1 ∷ sign ∷ 34 ∷ 1 ∷ 9 ∷ []

abbrev pub request_msg : ℕ → Message NetMsgType
request_msg sign = record {
  header = record { id = NetMsgType.seckey_agree; size = 9 };
  body = reverse (plain_bytes sign);
}

pub good_read : request_in env [] 1 (request_msg 9) ≡ info_of 9
unfolding decode_request request_for_decode Request.parse Request.round parse_loop
good_read = refl

bad_read : request_in env [] 1 (request_msg 8) ≡ info_of 8
unfolding decode_request request_for_decode Request.parse Request.round parse_loop
bad_read = refl

pub good_signed : signed env [] 1 (info_of 9) ≡ ok true
unfolding Base64.from_base64 Rsa.verify Rsa.verify_impl Rsa.of_public_file Rsa.init_pub same_bytes
good_signed = refl

bad_signed : signed env [] 1 (info_of 8) ≡ ok false
unfolding Base64.from_base64 Rsa.verify Rsa.verify_impl Rsa.of_public_file Rsa.init_pub same_bytes
bad_signed = refl

-- What the server draws is encrypted by the toy cipher.
abbrev pub cipher : List ℕ
cipher =
    16
    ∷ 48
    ∷ 98
    ∷ 67
    ∷ 35
    ∷ 52
    ∷ 102
    ∷ 71
    ∷ 38
    ∷ 56
    ∷ 106
    ∷ 75
    ∷ 95
    ∷ 50
    ∷ 110
    ∷ 79
    ∷ 123
    ∷ replicate 15 0

pub good_encrypted : encrypted env [] 1 (info_of 9) ≡ ok cipher
unfolding Base64.to_base64 Rsa.encrypt_pub_key Rsa.of_public_file Rsa.init_pub get_aes_rand_str
good_encrypted = refl

agree_leaks_example :
    let out = agree env [] 1 (info_of 8) logged_world in
    (out.0 ≡ throws spdlog_ex)
    × (out.1.files (pubkey_file_name (65 ∷ [])) ≡ some (9 ∷ []))
    × ((agree env [] 1 (info_of 9) out.1).0 ≢ ok true)
agree_leaks_example =
    agree_leaks env [] 1 (info_of 8) (info_of 9) logged_world refl refl bad_signed refl refl

accepted :
    (msg : Message NetMsgType) × (str : List ℕ) × (m'' : Message NetMsgType) × (agree env [] 1
        (info_of 9)
        world
      ≡ (
        ok true,
        record world {
          files = assign_file world.files (pubkey_file_name (65 ∷ [])) (some (9 ∷ []));
          heap = send_to (some 1) msg world.heap;
        },
      ))
    × (msg.header.id ≡ NetMsgType.seckey_agree)
    × (drain (size msg) msg [] ≡ some (str, m''))
    × (decode_respond plain_runtime (respond_for_decode str) ≡ answer env [] 1 (info_of 9) cipher)
unfolding Respond.serialize
accepted =
    agree_accepted env [] 1 (info_of 9) world cipher refl refl good_signed good_encrypted
      plain_runtime-IsWireFormat (omega arith) (omega arith) (omega arith) (omega arith)

done : (agree env [] 1 (info_of 9) world).0 ≡ ok true
done = let (msg, str, m'', went, id, d, r) = accepted in ap (λ out. out.0) went

agree_only_signed_example :
    (world.files (pubkey_file_name (65 ∷ [])) ≡ none)
    × (signed env [] 1 (info_of 9) ≡ ok true)
    × ((agree env [] 1 (info_of 9) world).1.files
        ≡ assign_file world.files (pubkey_file_name (65 ∷ [])) (some (9 ∷ [])))
agree_only_signed_example = agree_only_signed env [] 1 (info_of 9) world refl done

work_accepts_example :
    (sent : Message NetMsgType) × (str : List ℕ) × (m'' : Message NetMsgType) × (work env [] 1
        (request_msg 9)
        world
      ≡ (
        ok tt,
        record world {
          files =
              assign_file world.files
                (pubkey_file_name (request_in env [] 1 (request_msg 9)).client_id)
                (some (request_in env [] 1 (request_msg 9)).content);
          heap = send_to (some 1) sent world.heap;
        },
      ))
    × (sent.header.id ≡ NetMsgType.seckey_agree)
    × (drain (size sent) sent [] ≡ some (str, m''))
    × (decode_respond plain_runtime (respond_for_decode str)
        ≡ answer env [] 1 (request_in env [] 1 (request_msg 9)) cipher)
unfolding Respond.serialize decode_request request_for_decode Request.parse Request.round parse_loop
work_accepts_example =
    work_accepts env [] 1 (request_msg 9) world cipher (omega arith) refl refl refl good_signed
      good_encrypted plain_runtime-IsWireFormat (omega arith) (omega arith) (omega arith)
      (omega arith)

work_refuses_example :
    let out = work env [] 1 (request_msg 8) world in
    (out.0 ≡ ok tt)
    × ((p : List ℕ) → out.1.files p ≡ none)
    × (out.1.heap ≡ send_to (some 1) (with_id NetMsgType.failed) world.heap)
unfolding decode_request request_for_decode Request.parse Request.round parse_loop
work_refuses_example =
    work_refuses env [] 1 (request_msg 8) world true (omega arith) refl refl refl bad_signed refl

get_aes_rand_str_lem_example :
    (length (get_aes_rand_str (λ i. i) (λ i. i) len16) ≡ key_len len16)
    × AllPrintable (get_aes_rand_str (λ i. i) (λ i. i) len16)
get_aes_rand_str_lem_example = get_aes_rand_str_lem (λ i. i) (λ i. i) len16
