-- ===== src/Platform/Server/Tasks.antt =====
-- What `OnMessage` posts, worked on: calls of `Work` of src/Server.cc, one after another.
pub mod Leaving
pub mod Keys
use security_transmission_pl.Base.{
  ℕ, ◌^◌, ◌<◌, ◌≡◌, ◌≢◌, refl, ap, ◌∙◌, true, false, Option, none, some, List, [], ◌∷◌, length,
  arith,
}
use security_transmission_pl.Base.Result.{ok, throws, spdlog_ex, logic_error}
use security_transmission_pl.Net.Message.{Message, with_id}
use security_transmission_pl.Net.ServerInterface.{send_to}
use security_transmission_pl.Proto.Msg.{NetMsgType, RequestInfo}
use security_transmission_pl.Platform.World.{
  Env, World, M, chain, pure, ◌>>◌, registered, make_logger, send,
}
use security_transmission_pl.Platform.Server.{work, logger_name, pubkey_file_name}
use security_transmission_pl.Platform.Server.Agreement.{
  agree, agree-old, with_key, malformed_end, agree_taken, assign_file-same,
}
use security_transmission_pl.Platform.Server.Working.{request_in, ended, work-agree}

module _ {Key L : Type 0} (e : Env Key L) (server_id : List ℕ) where
  -- The tasks, one after another. An exception that leaves a task is caught by nobody and ends the
  -- program, so that nothing follows it.
  unfoldable pub work_all : List (ℕ × Message NetMsgType) → M L (Unit {0})
  work_all [] = pure tt
  work_all ((client, msg) ∷ tasks) = work e server_id client msg >> work_all tasks

  -- A seckey_agree message that fits the address space, with a request of a client whose key is on
  -- disk.
  abbrev pub IsTaken : ℕ × Message NetMsgType → List ℕ → World L → Type 0
  IsTaken (client, msg) old w =
      (length msg.body < 2 ^ 64)
      × (msg.header.id ≡ NetMsgType.seckey_agree)
      × (w.files (pubkey_file_name (request_in e server_id client msg).client_id) ≡ some old)

  work_taken :
      (client : ℕ) (msg : Message NetMsgType) (old : List ℕ) (w : World L) (o : Option L)
      → IsTaken (client, msg) old w
      → e.basic_logger w.loggers logger_name ≡ o
      → work e server_id client msg w
        ≡ ended e server_id client (chain (registered o w) (λ _. pure false))
  unfolding make_logger
  work_taken client msg old w o (small, id, taken) made =
      work-agree e server_id client msg w small id
      ∙ ap (ended e server_id client) (
          agree-old e server_id client (request_in e server_id client msg) w old taken
          ∙ ap (λ r. chain (registered r w) (λ _. pure false)) made)

  -- While the logger can be made, and a logger cannot be made twice: the first of two requests, of
  -- clients whose keys are on disk, is answered with failed, and the second makes the work throw,
  -- which ends the program, whatever tasks come after them. No file changes, and nothing else is
  -- sent.
  pub work_all_ends :
      (client client' : ℕ) (msg msg' : Message NetMsgType) (old old' : List ℕ)
      (tasks : List (ℕ × Message NetMsgType)) (w : World L) (registry : L)
      → IsTaken (client, msg) old w
      → IsTaken (client', msg') old' w
      → e.basic_logger w.loggers logger_name ≡ some registry
      → e.basic_logger registry logger_name ≡ none
      → work_all ((client, msg) ∷ (client', msg') ∷ tasks) w ≡ (
        throws spdlog_ex,
        record w {
          loggers = registry;
          heap = send_to (some client) (with_id NetMsgType.failed) w.heap;
        },
      )
  unfolding work_all send
  work_all_ends client client' msg msg' old old' tasks w registry first second made twice =
      let answered : World L = record w {
        loggers = registry;
        heap = send_to (some client) (with_id NetMsgType.failed) w.heap;
      } in
      rw (work_taken client msg old w (some registry) first made)
        (rw (work_taken client' msg' old' answered none second twice) refl)

  -- A task with the request of a new client, whose file can be written, and whose signature is not
  -- Base64, as far as reading it fails, ends the program, whatever tasks come after it: the key stays
  -- on disk without a signature, nothing is sent, and a request for the same client does not succeed
  -- in the world that is left.
  pub work_all_malformed :
      (client : ℕ) (msg : Message NetMsgType) (tasks : List (ℕ × Message NetMsgType))
      (later : RequestInfo) (w : World L)
      → let info = request_in e server_id client msg in
        let path = pubkey_file_name info.client_id in
        let w' = with_key e server_id client info path w in
        length msg.body < 2 ^ 64
        → msg.header.id ≡ NetMsgType.seckey_agree
        → w.files path ≡ none
        → e.can_write path ≡ true
        → e.ssl.filter.base64_read info.sign (length info.sign) ≡ none
        → later.client_id ≡ info.client_id
        → (work_all ((client, msg) ∷ tasks) w ≡ (throws logic_error, w'))
          × (w'.files path ≡ some info.content)
          × (w'.heap ≡ w.heap)
          × ((agree e server_id client later w').0 ≢ ok true)
  unfolding work_all
  work_all_malformed client msg tasks later w small id free can bad same =
      let info = request_in e server_id client msg in
      let w' = with_key e server_id client info (pubkey_file_name info.client_id) w in
      let kept = assign_file-same w.files (pubkey_file_name info.client_id) (some info.content) in
      let kept_later : w'.files (pubkey_file_name later.client_id) ≡ some info.content =
        rw same kept in
      (
        rw (work-agree e server_id client msg w small id)
            (rw (malformed_end e server_id client info w free can bad) refl),
        kept,
        refl,
        (agree_taken e server_id client later w' info.content kept_later).0,
      )
