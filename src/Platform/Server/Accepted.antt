-- ===== src/Platform/Server/Accepted.antt =====
-- `SeckeyAgree` when it succeeds: what the client gets, and that only a signed key is kept.
use security_transmission_pl.Base.{
  ℕ, ◌^◌, ◌<◌, ◌≡◌, ◌≢◌, refl, sym, ap, ◌∙◌, Bool, true, false, Option, none, some, List, [],
  length, arith, not, if◌then◌else◌,
}
use security_transmission_pl.Base.Result.{Result, ok, throws, undefined}
use security_transmission_pl.Net.Message.{Message, size}
use security_transmission_pl.Net.ServerInterface.{send_to}
use security_transmission_pl.Proto.Runtime.{IsWireFormat}
use security_transmission_pl.Proto.Msg.{NetMsgType, RequestInfo, respond_for_decode, decode_respond}
use security_transmission_pl.Crypto.Rsa
use security_transmission_pl.Platform.AesKey.{len16, get_aes_rand_str}
use security_transmission_pl.Platform.Body.{drain}
use security_transmission_pl.Platform.World.{
  Env, World, M, chain, pure, assign_file, read_file, remove, registered, send, make_logger,
}
use security_transmission_pl.Platform.Server.{
  reply, refuse, respond_msg, pubkey_file_name, logger_name,
}
use security_transmission_pl.Platform.Server.Agreement.{
  signed, with_key, agree, agree-new, agree_taken, assign_file-same,
}
use security_transmission_pl.Platform.Server.Answer.{
  encrypted, answer, answer_bytes, respond_msg_lem, decode_answer,
}

module _ {Key L : Type 0} (e : Env Key L) (server_id : List ℕ) (client : ℕ) where
  pub reply_lem :
      (info : RequestInfo) (path : List ℕ) (w : World L) (cipher : List ℕ)
      (msg : Message NetMsgType)
      → w.files path ≡ some info.content
      → encrypted e server_id client info ≡ ok cipher
      → respond_msg e server_id info cipher ≡ ok msg
      → reply e server_id client info path w
        ≡ (ok true, record w { heap = send_to (some client) msg w.heap })
  unfolding reply read_file send
  reply_lem info path w cipher msg f c m =
      let send_on = λ (r : Result (Message NetMsgType)).
        chain {L = L} (r, w) (λ m₁. λ w₁. chain (send client m₁ w₁) (λ _. pure true)) in
      ap
        (λ file.
          chain {L = L}
            (
              Rsa.encrypt_pub_key e.ssl (Rsa.of_public_file e.ssl file)
                  (get_aes_rand_str e.rand e.draw len16) true,
              w,
            )
            (λ a. λ w₁.
              chain (respond_msg e server_id info a, w₁)
                (λ m₁. λ w₂. chain (send client m₁ w₂) (λ _. pure true))))
        f
      ∙ ap
          (λ r.
            chain {L = L} (r, w)
              (λ a. λ w₁.
                chain (respond_msg e server_id info a, w₁)
                  (λ m₁. λ w₂. chain (send client m₁ w₂) (λ _. pure true))))
          c
      ∙ ap send_on m

  -- The handler on a new client with a good signature, whose key can be used for encryption.
  pub agree_sends :
      (info : RequestInfo) (w : World L) (cipher : List ℕ) (msg : Message NetMsgType)
      → w.files (pubkey_file_name info.client_id) ≡ none
      → e.can_write (pubkey_file_name info.client_id) ≡ true
      → signed e server_id client info ≡ ok true
      → encrypted e server_id client info ≡ ok cipher
      → respond_msg e server_id info cipher ≡ ok msg
      → agree e server_id client info w ≡ (
        ok true,
        record (with_key e server_id client info (pubkey_file_name info.client_id) w) {
          heap = send_to (some client) msg w.heap;
        },
      )
  agree_sends info w cipher msg free can good enc r =
      let path = pubkey_file_name info.client_id in
      let went =
        ap
          (λ r.
            chain (r, with_key e server_id client info path w)
              (λ valid.
                if not valid then refuse e server_id path else reply e server_id client info path))
          good in
      agree-new e server_id client info w free can
      ∙ went
      ∙ reply_lem info path (with_key e server_id client info path w) cipher msg
          (assign_file-same w.files path (some info.content)) enc r

  -- A new client with a good signature is let in. If its key can be used for encryption, the
  -- handler succeeds, the key is kept in the client's file and no other file changes. One message
  -- is sent, to this client; it carries seckey_agree, and what a peer takes out of it and decodes
  -- are the client's and the server's names, the encrypted key and the number 12.
  pub agree_accepted :
      (info : RequestInfo) (w : World L) (cipher : List ℕ)
      → w.files (pubkey_file_name info.client_id) ≡ none
      → e.can_write (pubkey_file_name info.client_id) ≡ true
      → signed e server_id client info ≡ ok true
      → encrypted e server_id client info ≡ ok cipher
      → IsWireFormat e.runtime
      → length info.client_id < 2 ^ 31
      → length server_id < 2 ^ 31
      → length cipher < 2 ^ 31
      → length (answer_bytes e server_id client info cipher) < 2 ^ 31
      → (msg : Message NetMsgType) × (str : List ℕ) × (m'' : Message NetMsgType) × (agree e
            server_id client info w
          ≡ (
            ok true,
            record (with_key e server_id client info (pubkey_file_name info.client_id) w) {
              heap = send_to (some client) msg w.heap;
            },
          ))
        × (msg.header.id ≡ NetMsgType.seckey_agree)
        × (drain (size msg) msg [] ≡ some (str, m''))
        × (decode_respond e.runtime (respond_for_decode str)
            ≡ answer e server_id client info cipher)
  agree_accepted info w cipher free can good enc wire c s d small =
      let (msg, m'', r, dr, id, _, _) = respond_msg_lem e server_id client info cipher wire small in
      (
        msg,
        answer_bytes e server_id client info cipher,
        m'',
        agree_sends info w cipher msg free can good enc r,
        id,
        dr,
        decode_answer e server_id client info cipher wire (c, s, d),
      )

  refused_ne :
      (o : Option L) (path : List ℕ) (w : World L)
      → (chain (registered o w) (λ _. λ w₁. chain (remove path w₁) (λ _. pure false))).0 ≢ ok true
  unfolding remove
  refused_ne none path w p = ground (arith, p)
  refused_ne (some registry) path w p = ground (arith, p)

  -- A result that was computed aside leaves the files to what goes on with it.
  pub chain-files :
      {A B : Type 0} (r : Result A) (w : World L) (f : A → M L B)
      → ((a : A) → (f a w).1.files ≡ w.files)
      → (chain (r, w) f).1.files ≡ w.files
  chain-files (ok a) w f h = h a
  chain-files (throws x) w f h = refl
  chain-files undefined w f h = refl

  refuse_ne : (path : List ℕ) (w : World L) → (refuse e server_id path w).0 ≢ ok true
  unfolding refuse make_logger
  refuse_ne path w p = refused_ne (e.basic_logger w.loggers logger_name) path w p

  pub reply-files :
      (info : RequestInfo) (path : List ℕ) (w : World L)
      → (reply e server_id client info path w).1.files ≡ w.files
  unfolding reply read_file send
  reply-files info path w =
      chain-files
        (Rsa.encrypt_pub_key e.ssl (Rsa.of_public_file e.ssl (w.files path))
          (get_aes_rand_str e.rand e.draw len16) true)
        w _ (λ a. chain-files (respond_msg e server_id info a) w _ (λ m. refl))

  -- What follows the check of the signature succeeds only if the check did.
  decided :
      (valid : Result Bool) (info : RequestInfo) (path : List ℕ) (w : World L)
      → let out =
          chain
            (valid, w)
            (λ v. if not v then refuse e server_id path else reply e server_id client info path) in
        out.0 ≡ ok true → (valid ≡ ok true) × (out.1.files ≡ w.files)
  decided (ok true) info path w done = (refl, reply-files info path w)
  decided (ok false) info path w done = absurd (refuse_ne path w done)
  decided (throws x) info path w done = absurd (ground (arith, done))
  decided undefined info path w done = absurd (ground (arith, done))

  agree_sound :
      (info : RequestInfo) (w : World L)
      → e.can_write (pubkey_file_name info.client_id) ≡ true
      → (agree e server_id client info w).0 ≡ ok true
      → (file : Option (List ℕ)) → w.files (pubkey_file_name info.client_id) ≡ file
      → (w.files (pubkey_file_name info.client_id) ≡ none)
        × (signed e server_id client info ≡ ok true)
        × ((agree e server_id client info w).1.files
            ≡ assign_file w.files (pubkey_file_name info.client_id) (some info.content))
  agree_sound info w can done (some old) f =
      absurd ((agree_taken e server_id client info w old f).0 done)
  agree_sound info w can done none f =
      let path = pubkey_file_name info.client_id in
      let new = agree-new e server_id client info w f can in
      let (good, files) =
        decided (signed e server_id client info) info path (with_key e server_id client info path w)
          (ap (λ out. out.0) (sym new) ∙ done) in
      (f, good, ap (λ out. out.1.files) new ∙ files)

  -- If the client's key file can be written, the handler succeeds only for a client that had no key
  -- on disk, and only with data that its signature covers under the key in the data itself; then
  -- the data is in the client's file, and every other file is as before.
  pub agree_only_signed :
      (info : RequestInfo) (w : World L)
      → e.can_write (pubkey_file_name info.client_id) ≡ true
      → (agree e server_id client info w).0 ≡ ok true
      → (w.files (pubkey_file_name info.client_id) ≡ none)
        × (signed e server_id client info ≡ ok true)
        × ((agree e server_id client info w).1.files
            ≡ assign_file w.files (pubkey_file_name info.client_id) (some info.content))
  agree_only_signed info w can done = agree_sound info w can done _ refl
