-- ===== src/Platform/Server.antt =====
-- src/Server.cc: what the server does with a message. Log lines, and the AES key that is printed to
-- the standard output, are left out; the creation of a logger is not, since it can throw.
pub mod Requests
pub mod Agreement
pub mod Answer
pub mod Accepted
pub mod Working
pub mod Tasks
pub mod Threads
pub mod EndToEnd
use security_transmission_pl.Base.{
  ℕ, Bool, true, false, Option, none, some, List, [], ◌∷◌, ◌++◌, length, not, if◌then◌else◌,
}
use security_transmission_pl.Base.Result.{Result, ok, throws, undefined}
use security_transmission_pl.Net.Message.{Message, with_id, size}
use security_transmission_pl.Net.Connection.{Connection}
use security_transmission_pl.Proto.Msg.{
  NetMsgType, RequestInfo, RespondInfo, create_request, create_respond, request_factory_of_enc,
  respond_factory_of_info, decode_request, encode_respond,
}
use security_transmission_pl.Crypto.Hash
use security_transmission_pl.Crypto.Rsa
use security_transmission_pl.Platform.AesKey.{len16, get_aes_rand_str}
use security_transmission_pl.Platform.Body.{fill, drain}
use security_transmission_pl.Platform.World.{
  Env, World, M, pure, lift, ◌>>=◌, ◌>>◌, exists, read_file, remove, send, write_file, make_logger,
}

-- A null pointer that is read, or another access that is undefined.
abbrev pub defined {ℓ} : {A : Type ℓ} → Option A → Result A
defined none = undefined
defined (some a) = ok a

-- "seckey/" and "_pubkey.pem"
abbrev pub seckey_folder : List ℕ
seckey_folder = 115 ∷ 101 ∷ 99 ∷ 107 ∷ 101 ∷ 121 ∷ 47 ∷ []

abbrev pub pubkey_suffix : List ℕ
pubkey_suffix = 95 ∷ 112 ∷ 117 ∷ 98 ∷ 107 ∷ 101 ∷ 121 ∷ 46 ∷ 112 ∷ 101 ∷ 109 ∷ []

-- "SeckeyAgree logger"
abbrev pub logger_name : List ℕ
logger_name =
    83 ∷ 101 ∷ 99 ∷ 107 ∷ 101 ∷ 121 ∷ 65 ∷ 103 ∷ 114 ∷ 101 ∷ 101 ∷ 32 ∷ 108 ∷ 111 ∷ 103 ∷ 103 ∷ 101
    ∷ 114 ∷ []

-- The name of a client's public key file.
unfoldable pub pubkey_file_name : List ℕ → List ℕ
pubkey_file_name client_id = seckey_folder ++ (client_id ++ pubkey_suffix)

module _ {Key L : Type 0} (e : Env Key L) (server_id : List ℕ) where
  -- `ParseMsgImpl` after its loop: the request, and the file of the client's key.
  abbrev pub parse_net_str : Option (List ℕ × Message NetMsgType) → Result (RequestInfo × List ℕ)
  parse_net_str none = undefined
  parse_net_str (some (net_str, _)) = elim (create_request (request_factory_of_enc net_str)) [
    | none ↦ undefined
    | some request_msg ↦
        let info = decode_request e.runtime request_msg in
        ok (info, pubkey_file_name info.client_id)
  ]

  -- `ParseMsgImpl`
  unfoldable pub parse_msg_impl : Message NetMsgType → Result (RequestInfo × List ℕ)
  parse_msg_impl msg = parse_net_str (drain (size msg) msg [])

  -- `CheckSign`
  unfoldable pub check_sign : List ℕ → List ℕ → List ℕ → M L Bool
  check_sign path content sign_data = do
    file ← read_file path
    lift (
        Rsa.verify e.ssl (Rsa.of_public_file e.ssl file) content sign_data Rsa.SignType.sha384_type
          true)

  -- The hash of a request's data, as text.
  abbrev pub hash_of : List ℕ → List ℕ
  hash_of content =
      (Hash.final e.digest (Hash.update content (Hash.new Hash.HashType.sha384_type))).0

  -- The message with the encrypted key.
  unfoldable pub respond_msg : RequestInfo → List ℕ → Result (Message NetMsgType)
  respond_msg info aes_seckey =
      let respond_info : RespondInfo = record {
        info = record { client_id = info.client_id; server_id = server_id; content = aes_seckey };
        seckey_id = 12;
      } in
      elim (create_respond (respond_factory_of_info (some respond_info))) [
        | none ↦ undefined
        | some m ↦
            let respond_str = encode_respond e.runtime m in
            defined (fill (length respond_str) respond_str (with_id NetMsgType.seckey_agree))
      ]

  -- `SeckeyAgree` from the point where the signature was accepted.
  unfoldable pub reply : ℕ → RequestInfo → List ℕ → M L Bool
  reply client info path = do
    let aes_key = get_aes_rand_str e.rand e.draw len16
    file ← read_file path
    aes_seckey ← lift (Rsa.encrypt_pub_key e.ssl (Rsa.of_public_file e.ssl file) aes_key true)
    msg_out ← lift (respond_msg info aes_seckey)
    send client msg_out
    pure true

  -- The same from the point where the signature was refused.
  unfoldable pub refuse : List ℕ → M L Bool
  refuse path = do make_logger e logger_name; remove path; pure false

  -- The same from the point where no key of the client is there.
  unfoldable pub agree_new : ℕ → RequestInfo → List ℕ → M L Bool
  unfolding reply refuse
  agree_new client info path = do
    write_file e path info.content
    valid ← check_sign path (hash_of info.content) info.sign
    if not valid then refuse path else reply client info path

  unfoldable pub agree_with : ℕ → RequestInfo → List ℕ → M L Bool
  unfolding agree_new
  agree_with client info path = do
    there ← exists path
    if there then (do make_logger e logger_name; pure false) else agree_new client info path

  -- `SeckeyAgree`
  unfoldable pub seckey_agree : ℕ → Message NetMsgType → M L Bool
  unfolding agree_with
  seckey_agree client msg = do (info, path) ← lift (parse_msg_impl msg); agree_with client info path

  -- `SeckeyVerify` and `SeckeyLogout`, which only parse so far
  unfoldable pub seckey_verify : ℕ → Message NetMsgType → M L Bool
  seckey_verify client msg = do (info, path) ← lift (parse_msg_impl msg); pure true

  unfoldable pub seckey_logout : ℕ → Message NetMsgType → M L Bool
  seckey_logout client msg = do (info, path) ← lift (parse_msg_impl msg); pure true

  -- `if (!handler(client, msg)) { … client->Send(failed_msg); }`
  unfoldable pub or_failed : ℕ → M L Bool → M L (Unit {0})
  or_failed client handler = do
    done ← handler
    if not done then send client (with_id NetMsgType.failed) else pure tt

  -- The `switch` of `Work`
  abbrev pub work_on : NetMsgType → ℕ → Message NetMsgType → M L (Unit {0})
  work_on NetMsgType.seckey_agree client msg = or_failed client (seckey_agree client msg)
  work_on NetMsgType.seckey_verify client msg = or_failed client (seckey_verify client msg)
  work_on NetMsgType.seckey_logout client msg = or_failed client (seckey_logout client msg)
  work_on NetMsgType.failed client msg = pure tt

  unfoldable pub work : ℕ → Message NetMsgType → M L (Unit {0})
  unfolding or_failed seckey_agree seckey_verify seckey_logout
  work client msg = work_on msg.header.id client msg

-- `OnMessage` posts `Work` to the thread pool, with the connection and a copy of the message.
unfoldable pub on_message :
    Option ℕ
    → Message NetMsgType
    → List (Option ℕ × Message NetMsgType)
    → List (Option ℕ × Message NetMsgType)
on_message client msg tasks = tasks ++ (client, msg) ∷ []

-- `OnClientConnect` lets every client in, and `OnClientValidated` does nothing.
unfoldable pub on_client_connect : Connection NetMsgType → Bool
on_client_connect client = true

unfoldable pub on_client_validated : Connection NetMsgType → Connection NetMsgType
on_client_validated client = client
