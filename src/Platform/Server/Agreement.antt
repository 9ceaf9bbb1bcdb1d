-- ===== src/Platform/Server/Agreement.antt =====
-- `SeckeyAgree`: which keys are kept, and what a client is told.
use security_transmission_pl.Base.{
  ℕ, ◌≡◌, ◌≢◌, refl, sym, ap, ◌∙◌, Bool, true, false, Option, none, some, List, arith, not,
  if◌then◌else◌, length,
}
use security_transmission_pl.Base.Result.{Result, ok, throws, spdlog_ex, logic_error, ◌>>=◌}
use security_transmission_pl.Crypto.Base64.{from_base64, resized_to}
use security_transmission_pl.Base.Bytes.{same_bytes, same_bytes_refl, same_bytes_iff}
use security_transmission_pl.Proto.Msg.{RequestInfo}
use security_transmission_pl.Crypto.Rsa
use security_transmission_pl.Platform.World.{
  Env, World, is_there, registered, chain, pure, assign_file, exists, read_file, remove, write_file,
  make_logger,
}
use security_transmission_pl.Platform.Server.{
  agree_with, agree_new, reply, refuse, check_sign, hash_of, logger_name, pubkey_file_name,
}

-- What was written to a file is read from it.
pub assign_file-same :
    (files : List ℕ → Option (List ℕ)) (path : List ℕ) (c : Option (List ℕ))
    → assign_file files path c path ≡ c
assign_file-same files path c = rw same_bytes_refl refl

undone_by :
    (b : Bool) (c old : Option (List ℕ))
    → ((b ≡ true) → old ≡ none)
    → (if b then none else (if b then c else old)) ≡ old
undone_by true c old h = sym (h refl)
undone_by false c old h = refl

-- A file that was written and removed leaves no trace where there was none.
pub assign_file-undone :
    (files : List ℕ → Option (List ℕ)) (path : List ℕ) (c : Option (List ℕ))
    → files path ≡ none
    → (p : List ℕ) → assign_file (assign_file files path c) path none p ≡ files p
assign_file-undone files path c free p =
    undone_by (same_bytes p path) c (files p) (λ h. ap files ((same_bytes_iff p path).0 h) ∙ free)

module _ {Key L : Type 0} (e : Env Key L) (server_id : List ℕ) (client : ℕ) where
  -- Whether the signature of a request is the one of its data under the key in its data.
  abbrev pub signed : RequestInfo → Result Bool
  signed info =
      Rsa.verify e.ssl (Rsa.of_public_file e.ssl (some info.content))
        (hash_of e server_id info.content) info.sign Rsa.SignType.sha384_type true

  -- The world with the key of a request in its file.
  abbrev pub with_key : RequestInfo → List ℕ → World L → World L
  with_key info path w = record w { files = assign_file w.files path (some info.content) }

  abbrev pub agree : RequestInfo → World L → Result Bool × World L
  agree info = agree_with e server_id client info (pubkey_file_name info.client_id)

  pub agree-new :
      (info : RequestInfo) (w : World L)
      → let path = pubkey_file_name info.client_id in
        w.files path ≡ none
        → e.can_write path ≡ true
        → agree info w
          ≡ chain
              (signed info, with_key info path w)
              (λ valid.
                if not valid then refuse e server_id path else reply e server_id client info path)
  unfolding agree_with agree_new exists write_file check_sign read_file
  agree-new info w free can =
      let path = pubkey_file_name info.client_id in
      let checked = λ (file : Option (List ℕ)).
        chain
          (
            Rsa.verify e.ssl (Rsa.of_public_file e.ssl file) (hash_of e server_id info.content)
                info.sign Rsa.SignType.sha384_type true,
            with_key info path w,
          )
          (λ valid.
            if not valid then refuse e server_id path else reply e server_id client info path) in
      ap
        (λ f.
          (if is_there f
              then (λ w₁. chain (make_logger e logger_name w₁) (λ _. pure false))
              else agree_new e server_id client info path)
            w)
        free
      ∙ ap
          (λ b.
            chain
              (check_sign e server_id path (hash_of e server_id info.content) info.sign
                (if b then with_key info path w else w))
              (λ valid.
                if not valid then refuse e server_id path else reply e server_id client info path))
          can
      ∙ ap checked (assign_file-same w.files path (some info.content))

  pub agree-old :
      (info : RequestInfo) (w : World L) (old : List ℕ)
      → w.files (pubkey_file_name info.client_id) ≡ some old
      → agree info w ≡ chain (make_logger e logger_name w) (λ _. pure false)
  unfolding agree_with exists
  agree-old info w old taken =
      ap
        (λ f.
          (if is_there f
              then (λ w₁. chain (make_logger e logger_name w₁) (λ _. pure false))
              else agree_new e server_id client info (pubkey_file_name info.client_id))
            w)
        taken

  pub logged :
      (o : Option L) (w : World L)
      → let out = chain (registered o w) (λ _. pure false) in
        (out.0 ≢ ok true) × (out.1.files ≡ w.files) × (out.1.heap ≡ w.heap)
  logged none w = (λ p. ground (arith, p), refl, refl)
  logged (some registry) w = (λ p. ground (arith, p), refl, refl)

  -- A client whose key is already on disk is never let in again: no key changes, nothing is sent,
  -- and the handler does not succeed, whatever key and signature the request brings.
  pub agree_taken :
      (info : RequestInfo) (w : World L) (old : List ℕ)
      → w.files (pubkey_file_name info.client_id) ≡ some old
      → ((agree info w).0 ≢ ok true)
        × ((agree info w).1.files ≡ w.files)
        × ((agree info w).1.heap ≡ w.heap)
  unfolding make_logger
  agree_taken info w old taken =
      rw (agree-old info w old taken) (logged (e.basic_logger w.loggers logger_name) w)

  -- A request of a new client with a wrong signature leaves no trace: if the file could be written
  -- and the logger be made, the handler returns false, every file is as before and nothing is sent.
  pub agree_refused :
      (info : RequestInfo) (w : World L) (registry : L)
      → w.files (pubkey_file_name info.client_id) ≡ none
      → e.can_write (pubkey_file_name info.client_id) ≡ true
      → signed info ≡ ok false
      → e.basic_logger w.loggers logger_name ≡ some registry
      → ((agree info w).0 ≡ ok false)
        × ((p : List ℕ) → (agree info w).1.files p ≡ w.files p)
        × ((agree info w).1.heap ≡ w.heap)
  unfolding refuse remove make_logger
  agree_refused info w registry free can wrong fresh =
      let path = pubkey_file_name info.client_id in
      let end : agree info w ≡ (
        ok false,
        record w { files = assign_file (with_key info path w).files path none; loggers = registry },
      ) =
        agree-new info w free can
        ∙ ap
            (λ r.
              chain (r, with_key info path w)
                (λ valid.
                  if not valid
                  then refuse e server_id path
                  else reply e server_id client info path))
            wrong
        ∙ ap
            (λ o.
              chain (registered o (with_key info path w))
                (λ _. λ w₁. chain (remove path w₁) (λ _. pure false)))
            fresh in
      rw end (refl, assign_file-undone w.files path (some info.content) free, refl)

  -- A second failure: once the logger is registered, a request of a new client, whose file can be
  -- written, with a wrong signature makes the handler throw before the file is removed. So a key
  -- that nobody has signed stays on disk, and a request for the same client after it does not
  -- succeed.
  pub agree_leaks :
      (info later : RequestInfo) (w : World L)
      → w.files (pubkey_file_name info.client_id) ≡ none
      → e.can_write (pubkey_file_name info.client_id) ≡ true
      → signed info ≡ ok false
      → e.basic_logger w.loggers logger_name ≡ none
      → later.client_id ≡ info.client_id
      → ((agree info w).0 ≡ throws spdlog_ex)
        × ((agree info w).1.files (pubkey_file_name info.client_id) ≡ some info.content)
        × ((agree later (agree info w).1).0 ≢ ok true)
  unfolding refuse make_logger
  agree_leaks info later w free can wrong taken same =
      let path = pubkey_file_name info.client_id in
      let end : agree info w ≡ (throws spdlog_ex, with_key info path w) =
        agree-new info w free can
        ∙ ap
            (λ r.
              chain (r, with_key info path w)
                (λ valid.
                  if not valid
                  then refuse e server_id path
                  else reply e server_id client info path))
            wrong
        ∙ ap
            (λ o.
              chain (registered o (with_key info path w))
                (λ _. λ w₁. chain (remove path w₁) (λ _. pure false)))
            taken in
      let kept : (with_key info path w).files path ≡ some info.content =
        assign_file-same w.files path (some info.content) in
      let kept_later : (with_key info path w).files (pubkey_file_name later.client_id)
          ≡ some info.content =
        rw same kept in
      rw end (refl, kept, (agree_taken later (with_key info path w) info.content kept_later).0)

  -- Where the signature of a new client cannot be read, the handler throws with the key in its file.
  pub malformed_end :
      (info : RequestInfo) (w : World L)
      → w.files (pubkey_file_name info.client_id) ≡ none
      → e.can_write (pubkey_file_name info.client_id) ≡ true
      → e.ssl.filter.base64_read info.sign (length info.sign) ≡ none
      → agree info w ≡ (throws logic_error, with_key info (pubkey_file_name info.client_id) w)
  unfolding Rsa.verify from_base64
  malformed_end info w free can bad =
      let path = pubkey_file_name info.client_id in
      agree-new info w free can
      ∙ ap
          (λ o.
            chain
              (
                resized_to e.ssl.filter o >>= λ bytes.
                    Rsa.verify_impl e.ssl (Rsa.of_public_file e.ssl (some info.content))
                      (hash_of e server_id info.content) bytes Rsa.SignType.sha384_type,
                with_key info path w,
              )
              (λ valid.
                if not valid then refuse e server_id path else reply e server_id client info path))
          bad

  -- A new client's signature that is not Base64, as far as reading it fails, makes the handler throw
  -- before the file is removed, if the file can be written: the key stays on disk without a
  -- signature, nothing is sent, and a request for the same client after it does not succeed.
  pub agree_malformed :
      (info later : RequestInfo) (w : World L)
      → w.files (pubkey_file_name info.client_id) ≡ none
      → e.can_write (pubkey_file_name info.client_id) ≡ true
      → e.ssl.filter.base64_read info.sign (length info.sign) ≡ none
      → later.client_id ≡ info.client_id
      → ((agree info w).0 ≡ throws logic_error)
        × ((agree info w).1.files (pubkey_file_name info.client_id) ≡ some info.content)
        × ((agree info w).1.heap ≡ w.heap)
        × ((agree later (agree info w).1).0 ≢ ok true)
  agree_malformed info later w free can bad same =
      let path = pubkey_file_name info.client_id in
      let kept : (with_key info path w).files path ≡ some info.content =
        assign_file-same w.files path (some info.content) in
      let kept_later : (with_key info path w).files (pubkey_file_name later.client_id)
          ≡ some info.content =
        rw same kept in
      rw (malformed_end info w free can bad)
        (refl, kept, refl, (agree_taken later (with_key info path w) info.content kept_later).0)
