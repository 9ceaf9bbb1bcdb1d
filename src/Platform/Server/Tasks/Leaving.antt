-- ===== src/Platform/Server/Tasks/Leaving.antt =====
-- What `SeckeyAgree` of src/Server.cc can leave of a file, however it ends.
use security_transmission_pl.Base.{
  ℕ, ◌≡◌, ◌≢◌, refl, sym, ap, ◌∙◌, ◌⊎◌, inl, inr, Bool, true, false, Bool-cases, Option, none, some,
  List, arith, not, if◌then◌else◌,
}
use security_transmission_pl.Base.Result.{Result, ok, throws, undefined}
use security_transmission_pl.Base.Bytes.{same_bytes, same_bytes_iff}
use security_transmission_pl.Proto.Msg.{RequestInfo}
use security_transmission_pl.Crypto.Rsa
use security_transmission_pl.Platform.World.{
  Env, World, is_there, registered, chain, pure, assign_file, exists, read_file, remove, write_file,
  make_logger, send,
}
use security_transmission_pl.Platform.Server.{
  agree_with, agree_new, reply, refuse, check_sign, hash_of, logger_name, pubkey_file_name,
}
use security_transmission_pl.Platform.Server.Agreement.{
  signed, with_key, agree, agree-new, agree_taken, assign_file-undone,
}
use security_transmission_pl.Platform.Server.Accepted.{reply-files}
use security_transmission_pl.Platform.Server.Working.{ended}

-- A file that is written stands under its name, and another does not change.
written :
    (files : List ℕ → Option (List ℕ)) (path p : List ℕ) (c : Option (List ℕ))
    → (assign_file files path c p ≡ files p) ⊎ ((p ≡ path) × (assign_file files path c p ≡ c))
written files path p c = elim (Bool-cases (same_bytes p path)) [
  | inl same ↦ inr ((same_bytes_iff p path).0 same, rw same refl)
  | inr other ↦ inl (rw other refl)
]

module _ {Key L : Type 0} (e : Env Key L) (server_id : List ℕ) (client : ℕ) where
  -- How a handler can leave a file: as it was; or it was not there, and either the handler did not
  -- return, or the file holds the data of the request, which its signature covers.
  abbrev pub Leaves :
      RequestInfo → List ℕ → Option (List ℕ) → Option (List ℕ) → Result Bool → Type 0
  Leaves info p before after r =
      (after ≡ before)
      ⊎ ((before ≡ none)
          × (((b : Bool) → r ≢ ok b)
              ⊎ ((p ≡ pubkey_file_name info.client_id)
                  × (after ≡ some info.content)
                  × (signed e server_id client info ≡ ok true))))

  refused-files :
      (o : Option L) (path : List ℕ) (w : World L)
      → let out = chain (registered o w) (λ _. λ w₁. chain (remove path w₁) (λ _. pure false)) in
        (((b : Bool) → out.0 ≢ ok b) × (out.1.files ≡ w.files))
        ⊎ (out.1.files ≡ assign_file w.files path none)
  unfolding remove
  refused-files none path w = inl ((λ b p. ground (arith, p)), refl)
  refused-files (some registry) path w = inr refl

  -- What follows the check of the signature.
  decided-files :
      (valid : Result Bool) (info : RequestInfo) (path : List ℕ) (w : World L)
      → let out =
          chain
            (valid, w)
            (λ v. if not v then refuse e server_id path else reply e server_id client info path) in
        ((valid ≡ ok true) × (out.1.files ≡ w.files))
        ⊎ ((((b : Bool) → out.0 ≢ ok b) × (out.1.files ≡ w.files))
            ⊎ (out.1.files ≡ assign_file w.files path none))
  unfolding refuse make_logger
  decided-files (ok true) info path w = inl (refl, reply-files e server_id client info path w)
  decided-files (ok false) info path w =
      inr (refused-files (e.basic_logger w.loggers logger_name) path w)
  decided-files (throws x) info path w = inr (inl ((λ b p. ground (arith, p)), refl))
  decided-files undefined info path w = inr (inl ((λ b p. ground (arith, p)), refl))

  -- The handler where the file cannot be written.
  agree-unwritten :
      (info : RequestInfo) (w : World L)
      → let path = pubkey_file_name info.client_id in
        w.files path ≡ none
        → e.can_write path ≡ false
        → agree e server_id client info w
          ≡ chain
              (
                Rsa.verify e.ssl
                    (Rsa.of_public_file e.ssl (w.files path))
                    (hash_of e server_id info.content)
                    info.sign
                    Rsa.SignType.sha384_type
                    true,
                w,
              )
              (λ valid.
                if not valid then refuse e server_id path else reply e server_id client info path)
  unfolding agree_with agree_new exists write_file check_sign read_file
  agree-unwritten info w free cannot =
      let path = pubkey_file_name info.client_id in
      ap
        (λ f.
          (if is_there f
              then (λ w₁. chain (make_logger e logger_name w₁) (λ _. pure false))
              else agree_new e server_id client info path)
            w)
        free
      ∙ ap
          (λ b.
            chain
              (check_sign e server_id path (hash_of e server_id info.content) info.sign
                (if b then with_key e server_id client info path w else w))
              (λ valid.
                if not valid then refuse e server_id path else reply e server_id client info path))
          cannot

  -- The same, while the file is not there.
  new-Leaves :
      (can : Bool) (info : RequestInfo) (w : World L) (p : List ℕ)
      → e.can_write (pubkey_file_name info.client_id) ≡ can
      → w.files (pubkey_file_name info.client_id) ≡ none
      → let out = agree e server_id client info w in Leaves info p (w.files p) (out.1.files p) out.0
  new-Leaves true info w p c free =
      let path = pubkey_file_name info.client_id in
      let w₁ = with_key e server_id client info path w in
      let at = written w.files path p (some info.content) in
      rw (agree-new e server_id client info w free c)
        (elim (decided-files (signed e server_id client info) info path w₁) [
          | inl (good, same) ↦ elim at [
            | inl other ↦ inl (ap (λ g. g p) same ∙ other)
            | inr (here, put) ↦
                inr (ap w.files here ∙ free, inr (here, ap (λ g. g p) same ∙ put, good))
          ]
          | inr (inl (stuck, same)) ↦ elim at [
            | inl other ↦ inl (ap (λ g. g p) same ∙ other)
            | inr (here, put) ↦ inr (ap w.files here ∙ free, inl stuck)
          ]
          | inr (inr gone) ↦
              inl (ap (λ g. g p) gone ∙ assign_file-undone w.files path (some info.content) free p)
        ])
  new-Leaves false info w p c free =
      let path = pubkey_file_name info.client_id in
      let checked =
        Rsa.verify e.ssl (Rsa.of_public_file e.ssl (w.files path))
          (hash_of e server_id info.content) info.sign Rsa.SignType.sha384_type true in
      rw (agree-unwritten info w free c) (elim (decided-files checked info path w) [
        | inl (good, same) ↦ inl (ap (λ g. g p) same)
        | inr (inl (stuck, same)) ↦ inl (ap (λ g. g p) same)
        | inr (inr gone) ↦ elim (written w.files path p none) [
          | inl other ↦ inl (ap (λ g. g p) gone ∙ other)
          | inr (here, put) ↦ inl (ap (λ g. g p) gone ∙ put ∙ sym (ap w.files here ∙ free))
        ]
      ])

  pub agree-Leaves :
      (info : RequestInfo) (w : World L) (p : List ℕ) (file : Option (List ℕ))
      → w.files (pubkey_file_name info.client_id) ≡ file
      → let out = agree e server_id client info w in Leaves info p (w.files p) (out.1.files p) out.0
  agree-Leaves info w p (some old) f =
      let (_, same, _) = agree_taken e server_id client info w old f in inl (ap (λ g. g p) same)
  agree-Leaves info w p none f = new-Leaves _ info w p refl f

  pub ended-files :
      (out : Result Bool × World L)
      → ((ended e server_id client out).1.files ≡ out.1.files)
        × (((b : Bool) → out.0 ≢ ok b) → (ended e server_id client out).0 ≢ ok tt)
  unfolding send
  ended-files (ok true, w) = (refl, λ stuck. absurd (stuck true refl))
  ended-files (ok false, w) = (refl, λ stuck. absurd (stuck false refl))
  ended-files (throws x, w) = (refl, λ stuck. λ p. ground (arith, p))
  ended-files (undefined, w) = (refl, λ stuck. λ p. ground (arith, p))
