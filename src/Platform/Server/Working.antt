-- ===== src/Platform/Server/Working.antt =====
-- `Work`: from a message that came in to what is sent back.
use security_transmission_pl.Base.{
  ℕ, ◌^◌, ◌<◌, ◌≡◌, ◌≢◌, refl, ap, ◌∙◌, Bool, true, false, none, some, List, [], length, reverse,
  arith, not, if◌then◌else◌,
}
use security_transmission_pl.Base.Result.{Result, ok, throws, undefined}
use security_transmission_pl.Net.Message.{Message, with_id, size}
use security_transmission_pl.Net.ServerInterface.{send_to}
use security_transmission_pl.Proto.Runtime.{IsWireFormat}
use security_transmission_pl.Proto.Msg.{
  NetMsgType, RequestInfo, request_for_decode, respond_for_decode, decode_request, decode_respond,
}
use security_transmission_pl.Platform.Body.{drain}
use security_transmission_pl.Platform.World.{Env, World, chain, pure, assign_file, send}
use security_transmission_pl.Platform.Server.{
  parse_msg_impl, agree_with, pubkey_file_name, seckey_agree, seckey_verify, seckey_logout,
  or_failed, work, logger_name, work_on, respond_msg,
}
use security_transmission_pl.Platform.Server.Requests.{parse_msg_impl-defined}
use security_transmission_pl.Platform.Server.Agreement.{signed, agree, agree_refused}
use security_transmission_pl.Platform.Server.Answer.{
  encrypted, answer, answer_bytes, respond_msg_lem, decode_answer,
}
use security_transmission_pl.Platform.Server.Accepted.{agree_sends}

module _ {Key L : Type 0} (e : Env Key L) (server_id : List ℕ) (client : ℕ) where
  -- The request in a message: what protobuf makes of the body read backwards.
  abbrev pub request_in : Message NetMsgType → RequestInfo
  request_in msg = decode_request e.runtime (request_for_decode (reverse msg.body))

  -- What follows a handler: a failed message if it returned false.
  abbrev pub ended : Result Bool × World L → Result (Unit {0}) × World L
  ended out =
      chain out (λ done. if not done then send client (with_id NetMsgType.failed) else pure tt)

  pub work-agree :
      (msg : Message NetMsgType) (w : World L)
      → length msg.body < 2 ^ 64
      → msg.header.id ≡ NetMsgType.seckey_agree
      → work e server_id client msg w ≡ ended (agree e server_id client (request_in msg) w)
  unfolding work or_failed seckey_agree
  work-agree msg w small id =
      ap (λ t. work_on e server_id t client msg w) id
      ∙ ap (λ r. ended (chain (r, w) (λ p. agree_with e server_id client p.0 p.1)))
          (parse_msg_impl-defined e server_id msg small)

  failed_end :
      (out : Result Bool × World L) (w : World L)
      → out.0 ≡ ok false
      → ((p : List ℕ) → out.1.files p ≡ w.files p)
      → out.1.heap ≡ w.heap
      → ((ended out).0 ≡ ok tt)
        × ((p : List ℕ) → (ended out).1.files p ≡ w.files p)
        × ((ended out).1.heap ≡ send_to (some client) (with_id NetMsgType.failed) w.heap)
  unfolding send
  failed_end (ok true, w₁) w r f h = absurd (ground (arith, r))
  failed_end (ok false, w₁) w r f h =
      (refl, f, ap (send_to (some client) (with_id NetMsgType.failed)) h)
  failed_end (throws x, w₁) w r f h = absurd (ground (arith, r))
  failed_end (undefined, w₁) w r f h = absurd (ground (arith, r))

  quiet :
      (id : NetMsgType) (msg : Message NetMsgType) (w : World L) (request : RequestInfo × List ℕ)
      → parse_msg_impl e server_id msg ≡ ok request
      → id ≢ NetMsgType.seckey_agree
      → work_on e server_id id client msg w ≡ (ok tt, w)
  unfolding or_failed seckey_verify seckey_logout
  quiet NetMsgType.seckey_agree msg w request p other = absurd (other refl)
  quiet NetMsgType.seckey_verify msg w request p other =
      ap (λ r. ended (chain (r, w) (λ _. pure true))) p
  quiet NetMsgType.seckey_logout msg w request p other =
      ap (λ r. ended (chain (r, w) (λ _. pure true))) p
  quiet NetMsgType.failed msg w request p other = refl

  -- A message other than seckey_agree, whose body fits the address space, changes nothing and is
  -- not answered: a seckey_verify or seckey_logout is only parsed, which cannot fail, and a failed
  -- is ignored.
  pub work_others :
      (msg : Message NetMsgType) (w : World L)
      → length msg.body < 2 ^ 64
      → msg.header.id ≢ NetMsgType.seckey_agree
      → work e server_id client msg w ≡ (ok tt, w)
  unfolding work or_failed seckey_verify seckey_logout
  work_others msg w small other =
      quiet msg.header.id msg w _ (parse_msg_impl-defined e server_id msg small) other

  -- The work on a seckey_agree message with the request of a new client whose signature is good and
  -- whose key can be used for encryption.
  pub work_sends :
      (msg : Message NetMsgType) (w : World L) (cipher : List ℕ) (sent : Message NetMsgType)
      → length msg.body < 2 ^ 64
      → msg.header.id ≡ NetMsgType.seckey_agree
      → w.files (pubkey_file_name (request_in msg).client_id) ≡ none
      → e.can_write (pubkey_file_name (request_in msg).client_id) ≡ true
      → signed e server_id client (request_in msg) ≡ ok true
      → encrypted e server_id client (request_in msg) ≡ ok cipher
      → respond_msg e server_id (request_in msg) cipher ≡ ok sent
      → work e server_id client msg w ≡ (
        ok tt,
        record w {
          files =
              assign_file w.files
                (pubkey_file_name (request_in msg).client_id)
                (some (request_in msg).content);
          heap = send_to (some client) sent w.heap;
        },
      )
  work_sends msg w cipher sent small id free can good enc made =
      work-agree msg w small id
      ∙ ap ended
          (agree_sends e server_id client (request_in msg) w cipher sent free can good enc made)

  -- A seckey_agree message, whose body, strings and answer fit their lengths, with the request of a
  -- new client whose file can be written, whose signature is good and whose key can be used for
  -- encryption, over a wire format that can be read back: the client's key is put in its file, and
  -- exactly one message goes to the client. It carries seckey_agree, and decoding what is taken out
  -- of it gives the client's and the server's names, the encrypted key and the number 12.
  pub work_accepts :
      (msg : Message NetMsgType) (w : World L) (cipher : List ℕ)
      → length msg.body < 2 ^ 64
      → msg.header.id ≡ NetMsgType.seckey_agree
      → w.files (pubkey_file_name (request_in msg).client_id) ≡ none
      → e.can_write (pubkey_file_name (request_in msg).client_id) ≡ true
      → signed e server_id client (request_in msg) ≡ ok true
      → encrypted e server_id client (request_in msg) ≡ ok cipher
      → IsWireFormat e.runtime
      → length (request_in msg).client_id < 2 ^ 31
      → length server_id < 2 ^ 31
      → length cipher < 2 ^ 31
      → length (answer_bytes e server_id client (request_in msg) cipher) < 2 ^ 31
      → (sent : Message NetMsgType) × (str : List ℕ) × (m'' : Message NetMsgType) × (work e
            server_id client msg w
          ≡ (
            ok tt,
            record w {
              files =
                  assign_file w.files
                    (pubkey_file_name (request_in msg).client_id)
                    (some (request_in msg).content);
              heap = send_to (some client) sent w.heap;
            },
          ))
        × (sent.header.id ≡ NetMsgType.seckey_agree)
        × (drain (size sent) sent [] ≡ some (str, m''))
        × (decode_respond e.runtime (respond_for_decode str)
            ≡ answer e server_id client (request_in msg) cipher)
  work_accepts msg w cipher small id free can good enc wire c s d fits =
      let info = request_in msg in
      let (sent, m'', made, dr, sent_id, _, _) =
        respond_msg_lem e server_id client info cipher wire fits in
      (
        sent,
        answer_bytes e server_id client info cipher,
        m'',
        work_sends msg w cipher sent small id free can good enc made,
        sent_id,
        dr,
        decode_answer e server_id client info cipher wire (c, s, d),
      )

  -- A seckey_agree message, whose body fits the address space, with the request of a new client
  -- whose file can be written and whose signature is wrong, while the logger can be made: the work
  -- returns, every file is as before, and exactly one message goes to the client, a failed without
  -- a body.
  pub work_refuses :
      (msg : Message NetMsgType) (w : World L) (registry : L)
      → length msg.body < 2 ^ 64
      → msg.header.id ≡ NetMsgType.seckey_agree
      → w.files (pubkey_file_name (request_in msg).client_id) ≡ none
      → e.can_write (pubkey_file_name (request_in msg).client_id) ≡ true
      → signed e server_id client (request_in msg) ≡ ok false
      → e.basic_logger w.loggers logger_name ≡ some registry
      → let out = work e server_id client msg w in
        (out.0 ≡ ok tt)
        × ((p : List ℕ) → out.1.files p ≡ w.files p)
        × (out.1.heap ≡ send_to (some client) (with_id NetMsgType.failed) w.heap)
  work_refuses msg w registry small id free can wrong fresh =
      let (r, f, h) =
        agree_refused e server_id client (request_in msg) w registry free can wrong fresh in
      rw (work-agree msg w small id)
        (failed_end (agree e server_id client (request_in msg) w) w r f h)
