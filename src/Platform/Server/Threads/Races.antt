-- ===== src/Platform/Server/Threads/Races.antt =====
-- Two requests for one client on two threads, one access after the other.
use security_transmission_pl.Base.{
  ℕ, ◌≡◌, refl, ap, sym, ◌∙◌, Bool, true, false, none, some, List, [], ◌∷◌, not, if◌then◌else◌,
}
use security_transmission_pl.Base.Result.{ok}
use security_transmission_pl.Net.Message.{Message}
use security_transmission_pl.Net.ServerInterface.{assign, send_to}
use security_transmission_pl.Proto.Msg.{NetMsgType}
use security_transmission_pl.Crypto.Rsa
use security_transmission_pl.Platform.World.{
  Env, World, exists, is_there, write_file, read_file, remove, registered, make_logger, assign_file,
}
use security_transmission_pl.Platform.Server.{
  check_sign, hash_of, logger_name, respond_msg, pubkey_file_name,
}
use security_transmission_pl.Platform.Server.Agreement.{signed, with_key, assign_file-same}
use security_transmission_pl.Platform.Server.Answer.{encrypted}
use security_transmission_pl.Platform.Server.Accepted.{reply_lem}
use security_transmission_pl.Platform.Server.Threads.{
  Pc, at_exists, at_taken, at_write, at_check, at_refuse, at_remove, at_reply, finished, goes_on,
  Job, path_of, step, turn, run, started,
}

module _ {Key L : Type 0} (e : Env Key L) (server_id : List ℕ) where
  step-exists :
      (j : Job) (w : World L)
      → w.files (path_of e server_id j) ≡ none
      → step e server_id j at_exists w ≡ (at_write, w)
  unfolding step exists is_there
  step-exists j w free = ap (λ f. ((if is_there f then at_taken else at_write), w)) free

  step-write :
      (j : Job) (w : World L)
      → e.can_write (path_of e server_id j) ≡ true
      → step e server_id j at_write w
        ≡ (at_check, with_key e server_id j.client j.info (path_of e server_id j) w)
  unfolding step write_file
  step-write j w can = rw can refl

  step-check :
      (j : Job) (valid : Bool) (w : World L)
      → w.files (path_of e server_id j) ≡ some j.info.content
      → signed e server_id j.client j.info ≡ ok valid
      → step e server_id j at_check w ≡ ((if not valid then at_refuse else at_reply), w)
  unfolding step check_sign read_file
  step-check j valid w f good =
      ap
        (λ file.
          goes_on
            (
              Rsa.verify e.ssl (Rsa.of_public_file e.ssl file) (hash_of e server_id j.info.content)
                  j.info.sign Rsa.SignType.sha384_type true,
              w,
            )
            (λ v. if not v then at_refuse else at_reply))
        f
      ∙ ap (λ r. goes_on (r, w) (λ v. if not v then at_refuse else at_reply)) good

  step-refuse :
      (j : Job) (w : World L) (registry : L)
      → e.basic_logger w.loggers logger_name ≡ some registry
      → step e server_id j at_refuse w ≡ (at_remove, record w { loggers = registry })
  unfolding step make_logger
  step-refuse j w registry fresh = ap (λ o. goes_on (registered o w) (λ _. at_remove)) fresh

  step-reply :
      (j : Job) (w : World L) (cipher : List ℕ) (msg : Message NetMsgType)
      → w.files (path_of e server_id j) ≡ some j.info.content
      → encrypted e server_id j.client j.info ≡ ok cipher
      → respond_msg e server_id j.info cipher ≡ ok msg
      → step e server_id j at_reply w
        ≡ (finished (ok true), record w { heap = send_to (some j.client) msg w.heap })
  unfolding step
  step-reply j w cipher msg f c m =
      ap (λ out. goes_on out (λ sent. finished (ok sent)))
        (reply_lem e server_id j.client j.info (path_of e server_id j) w cipher msg f c m)

  -- A turn whose access is known, at the head of a schedule.
  run-step :
      (jobs : ℕ → Job) (i : ℕ) (is : List ℕ) (pcs : ℕ → Pc) (pc' : Pc) (w w' : World L)
      → step e server_id (jobs i) (pcs i) w ≡ (pc', w')
      → run e server_id jobs (i ∷ is) (record { pc = pcs; world = w })
        ≡ run e server_id jobs is (record { pc = assign pcs i pc'; world = w' })
  unfolding run turn
  run-step jobs i is pcs pc' w w' h =
      ap (λ out. run e server_id jobs is (record { pc = assign pcs i out.0; world = out.1 })) h

  -- What makes the first of two threads succeed, and the name free for both.
  pub record CanRace (jobs : ℕ → Job) (w : World L) (cipher : List ℕ) (msg : Message NetMsgType)
      : Type 0 where
    pub free : w.files (path_of e server_id (jobs 0)) ≡ none
    pub same : (jobs 1).info.client_id ≡ (jobs 0).info.client_id
    pub can : e.can_write (path_of e server_id (jobs 0)) ≡ true
    pub good : signed e server_id (jobs 0).client (jobs 0).info ≡ ok true
    pub key_works : encrypted e server_id (jobs 0).client (jobs 0).info ≡ ok cipher
    pub responds : respond_msg e server_id (jobs 0).info cipher ≡ ok msg

  module _ (jobs : ℕ → Job) (w : World L) (cipher : List ℕ) (msg : Message NetMsgType)
      (r : CanRace jobs w cipher msg) where
    one_path : path_of e server_id (jobs 1) ≡ path_of e server_id (jobs 0)
    one_path = ap pubkey_file_name r.same

    -- The world in which the first thread has ended, and the second knows that the name is free.
    first_done : World L
    first_done =
        let key =
          with_key e server_id (jobs 0).client (jobs 0).info (path_of e server_id (jobs 0)) w in
        record key { heap = send_to (some (jobs 0).client) msg w.heap }

    abbrev racing : ℕ → Pc
    racing =
        assign
          (assign (assign (assign (assign (λ i. at_exists) 0 at_write) 1 at_write) 0 at_check) 0
            at_reply)
          0 (finished (ok true))

    run-first :
        (is : List ℕ)
        → run e server_id jobs (0 ∷ 1 ∷ 0 ∷ 0 ∷ 0 ∷ is) (started e server_id w)
          ≡ run e server_id jobs is (record { pc = racing; world = first_done })
    unfolding first_done
    run-first is =
        let path = path_of e server_id (jobs 0) in
        let key = with_key e server_id (jobs 0).client (jobs 0).info path w in
        let there : key.files path ≡ some (jobs 0).info.content =
          assign_file-same w.files path (some (jobs 0).info.content) in
        run-step jobs 0 _ _ at_write w w (step-exists (jobs 0) w r.free)
        ∙ run-step jobs 1 _ _ at_write w w (step-exists (jobs 1) w (ap w.files one_path ∙ r.free))
        ∙ run-step jobs 0 _ _ at_check w key (step-write (jobs 0) w r.can)
        ∙ run-step jobs 0 _ _ at_reply key key (step-check (jobs 0) true key there r.good)
        ∙ run-step jobs 0 _ _ (finished (ok true)) key first_done
            (step-reply (jobs 0) key cipher msg there r.key_works r.responds)

    -- The same after the second has overwritten the file.
    second_wrote : World L
    second_wrote =
        with_key e server_id (jobs 1).client (jobs 1).info (path_of e server_id (jobs 1)) first_done

    run-second :
        (valid : Bool) (is : List ℕ)
        → signed e server_id (jobs 1).client (jobs 1).info ≡ ok valid
        → run e server_id jobs (0 ∷ 1 ∷ 0 ∷ 0 ∷ 0 ∷ 1 ∷ 1 ∷ is) (started e server_id w)
          ≡ run e server_id jobs is (record {
            pc = assign (assign racing 1 at_check) 1 (if not valid then at_refuse else at_reply);
            world = second_wrote;
          })
    unfolding second_wrote
    run-second valid is sig =
        let path = path_of e server_id (jobs 1) in
        let there : second_wrote.files path ≡ some (jobs 1).info.content =
          assign_file-same first_done.files path (some (jobs 1).info.content) in
        run-first (1 ∷ 1 ∷ is)
        ∙ run-step jobs 1 _ _ at_check first_done second_wrote
            (step-write (jobs 1) first_done (ap e.can_write one_path ∙ r.can))
        ∙ run-step jobs 1 _ _ (if not valid then at_refuse else at_reply) second_wrote second_wrote
            (step-check (jobs 1) valid second_wrote there sig)

    -- How the second thread ends, after a wrong signature and after a good one.
    abbrev deciding : Bool → ℕ → Pc
    deciding valid = assign (assign racing 1 at_check) 1 (if not valid then at_refuse else at_reply)

    run-lost :
        (registry : L)
        → signed e server_id (jobs 1).client (jobs 1).info ≡ ok false
        → e.basic_logger w.loggers logger_name ≡ some registry
        → run e server_id jobs (0 ∷ 1 ∷ 0 ∷ 0 ∷ 0 ∷ 1 ∷ 1 ∷ 1 ∷ 1 ∷ []) (started e server_id w)
          ≡ run e server_id jobs [] (record {
            pc = assign (assign (deciding false) 1 at_remove) 1 (finished (ok false));
            world = record second_wrote {
              loggers = registry;
              files = assign_file second_wrote.files (path_of e server_id (jobs 1)) none;
            };
          })
    unfolding step remove second_wrote first_done
    run-lost registry wrong fresh =
        run-second false (1 ∷ 1 ∷ []) wrong
        ∙ run-step jobs 1 (1 ∷ []) (deciding false) at_remove second_wrote
            (record second_wrote { loggers = registry })
            (step-refuse (jobs 1) second_wrote registry fresh)
        ∙ run-step jobs 1 [] (assign (deciding false) 1 at_remove) (finished (ok false))
            (record second_wrote { loggers = registry }) _ refl

    run-both :
        (cipher' : List ℕ) (msg' : Message NetMsgType)
        → signed e server_id (jobs 1).client (jobs 1).info ≡ ok true
        → encrypted e server_id (jobs 1).client (jobs 1).info ≡ ok cipher'
        → respond_msg e server_id (jobs 1).info cipher' ≡ ok msg'
        → run e server_id jobs (0 ∷ 1 ∷ 0 ∷ 0 ∷ 0 ∷ 1 ∷ 1 ∷ 1 ∷ []) (started e server_id w)
          ≡ run e server_id jobs [] (record {
            pc = assign (deciding true) 1 (finished (ok true));
            world = record second_wrote {
              heap = send_to (some (jobs 1).client) msg' second_wrote.heap;
            };
          })
    unfolding second_wrote
    run-both cipher' msg' good works responds =
        run-second true (1 ∷ []) good
        ∙ run-step jobs 1 [] (deciding true) (finished (ok true)) second_wrote _ (
            step-reply (jobs 1) second_wrote cipher' msg'
              (assign_file-same first_done.files (path_of e server_id (jobs 1))
                (some (jobs 1).info.content))
              works responds)

  -- Two requests for one client on two threads, where the name is free and the file can be written;
  -- the first is good and its answer can be made, and the second has a wrong signature, for which
  -- the logger can be made. In this order of accesses the first thread succeeds, the second is
  -- refused, and the key of the first is gone.
  pub accepted_key_lost :
      (jobs : ℕ → Job) (w : World L) (cipher : List ℕ) (msg : Message NetMsgType) (registry : L)
      → CanRace jobs w cipher msg
      → signed e server_id (jobs 1).client (jobs 1).info ≡ ok false
      → e.basic_logger w.loggers logger_name ≡ some registry
      → let t =
          run e server_id jobs (0 ∷ 1 ∷ 0 ∷ 0 ∷ 0 ∷ 1 ∷ 1 ∷ 1 ∷ 1 ∷ []) (started e server_id w) in
        (t.pc 0 ≡ finished (ok true))
        × (t.pc 1 ≡ finished (ok false))
        × (t.world.files (path_of e server_id (jobs 0)) ≡ none)
  unfolding run
  accepted_key_lost jobs w cipher msg registry r wrong fresh =
      let end = run-lost jobs w cipher msg r registry wrong fresh in
      let files = (second_wrote jobs w cipher msg r).files in
      let path = path_of e server_id (jobs 1) in
      (
        ap (λ t. t.pc 0) end,
        ap (λ t. t.pc 1) end,
        ap (λ t. t.world.files (path_of e server_id (jobs 0))) end
            ∙ ap (assign_file files path none) (sym (one_path jobs w cipher msg r))
            ∙ assign_file-same files path none,
      )

  -- Two good requests for one client on two threads, where the name is free, the file can be written
  -- and the answers can be made: in this order of accesses both threads succeed, and the second key
  -- has replaced the first.
  pub both_accepted :
      (jobs : ℕ → Job) (w : World L) (cipher cipher' : List ℕ) (msg msg' : Message NetMsgType)
      → CanRace jobs w cipher msg
      → signed e server_id (jobs 1).client (jobs 1).info ≡ ok true
      → encrypted e server_id (jobs 1).client (jobs 1).info ≡ ok cipher'
      → respond_msg e server_id (jobs 1).info cipher' ≡ ok msg'
      → let t = run e server_id jobs (0 ∷ 1 ∷ 0 ∷ 0 ∷ 0 ∷ 1 ∷ 1 ∷ 1 ∷ []) (started e server_id w) in
        (t.pc 0 ≡ finished (ok true))
        × (t.pc 1 ≡ finished (ok true))
        × (t.world.files (path_of e server_id (jobs 0)) ≡ some (jobs 1).info.content)
  unfolding run second_wrote
  both_accepted jobs w cipher cipher' msg msg' r good works responds =
      let end = run-both jobs w cipher msg r cipher' msg' good works responds in
      let path = path_of e server_id (jobs 1) in
      (
        ap (λ t. t.pc 0) end,
        ap (λ t. t.pc 1) end,
        ap (λ t. t.world.files (path_of e server_id (jobs 0))) end
            ∙ ap (second_wrote jobs w cipher msg r).files (sym (one_path jobs w cipher msg r))
            ∙ assign_file-same (first_done jobs w cipher msg r).files path
                (some (jobs 1).info.content),
      )
