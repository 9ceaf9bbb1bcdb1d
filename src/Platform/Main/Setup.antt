-- ===== src/Platform/Main/Setup.antt =====
-- src/main.cpp: the set-up before the loop, of the folders and the keys.
use security_transmission_pl.Base.{
  ℕ, ◌≡◌, refl, ap, ap₂, ◌∙◌, Bool, true, false, Option, none, some, List, [], ◌∷◌, ◌++◌, not, ◌&&◌,
  ◌||◌, inl, inr, arith, if◌then◌else◌, if_true, if_false, Bool-cases,
}
use security_transmission_pl.Base.Bytes.{same_bytes, same_bytes_refl}
use security_transmission_pl.Base.Result.{Result, ok}
use security_transmission_pl.Crypto.Rsa.{generated, save_rsa_key}
use security_transmission_pl.Platform.World.{assign_file, is_there}
use security_transmission_pl.Net.Connection.{Connection}
use security_transmission_pl.Net.ServerInterface.{
  ServerInterface, new_server, start, wait_for_client_connection,
}
use security_transmission_pl.Platform.Json.{Json}
use security_transmission_pl.Platform.Main.{
  main, served, with_settings, read_settings, loops, Disk, Os, exists, enter, need_directory,
  new_keys, prepare, server_folder, key_folder, pubkey_file, prikey_file,
}

-- The full paths, from the folder in which the program is started.
abbrev pub inside : List ℕ → List ℕ
inside path = server_folder ++ 47 ∷ path

-- What is under a path.
abbrev pub there : (List ℕ → Option (List ℕ)) → (List ℕ → Bool) → List ℕ → Bool
there files directories p = is_there (files p) || directories p

module _ {Key : Type 0} (os : Os Key) where
  -- After `need_directory`: the directory is there, and nothing else has changed.
  need_directory_lem :
      (path : List ℕ) (files : List ℕ → Option (List ℕ)) (directories : List ℕ → Bool)
      (folder : List ℕ)
      → files (folder ++ path) ≡ none
      → os.can_create (folder ++ path) ≡ true
      → (made : List ℕ → Bool) × (need_directory os path
            (record { files = files; directories = directories; folder = folder })
          ≡ ok (record { files = files; directories = made; folder = folder }))
        × (made (folder ++ path) ≡ true)
        × ((p : List ℕ) → same_bytes p (folder ++ path) ≡ false → made p ≡ directories p)
  unfolding need_directory exists is_there
  need_directory_lem path files directories folder free can =
      let full : List ℕ = folder ++ path in
      elim (Bool-cases (directories full)) [
        | inl b ↦ (
          directories,
          if_true (is_there (files full) || directories full) _ _ (rw free b),
          b,
          λ p. λ other. refl,
        )
        | inr b ↦ (
          λ p. if same_bytes p full then true else directories p,
          if_false (is_there (files full) || directories full) _ _ (rw free b)
              ∙ if_true (os.can_create full) _ _ can,
          if_true (same_bytes full full) _ _ (same_bytes_refl full),
          λ p. λ other. if_false (same_bytes p full) _ _ other,
        )
      ]

  -- The key files after the set-up: untouched if both names were taken, else both new.
  abbrev pub KeysMade :
      (List ℕ → Option (List ℕ)) → (List ℕ → Bool) → (List ℕ → Option (List ℕ)) → Type 0
  KeysMade files directories made =
      let had =
        there files directories (inside pubkey_file)
        && there files directories (inside prikey_file) in
      (had ≡ true → made ≡ files)
      × (had ≡ false
          → (made (inside pubkey_file) ≡ some (os.pem_public (some os.public_key)))
            × (made (inside prikey_file) ≡ some (os.pem_private (some os.private_key))))

  -- The part of the set-up in the server's folder that looks after the keys.
  abbrev keys_after : Disk → Result Disk
  keys_after d =
      let fresh = new_keys os d in
      if not (exists pubkey_file d) || not (exists prikey_file d) then fresh else ok d

  new_keys_lem :
      (files : List ℕ → Option (List ℕ)) (directories : List ℕ → Bool)
      → os.can_write (inside pubkey_file) ≡ true
      → os.can_write (inside prikey_file) ≡ true
      → (made : List ℕ → Option (List ℕ)) × (new_keys os
            (record { files = files; directories = directories; folder = inside [] })
          ≡ ok (record { files = made; directories = directories; folder = inside [] }))
        × (made (inside pubkey_file) ≡ some (os.pem_public (some os.public_key)))
        × (made (inside prikey_file) ≡ some (os.pem_private (some os.private_key)))
  unfolding new_keys save_rsa_key generated same_bytes
  new_keys_lem files directories p q =
      let one =
        assign_file files (inside pubkey_file) (some (os.pem_public (some os.public_key))) in
      (
        assign_file one (inside prikey_file) (some (os.pem_private (some os.private_key))),
        rw p (rw q refl),
        refl,
        refl,
      )

  lacks_both : (a b : Bool) → (not a || not b) ≡ true → (a && b) ≡ true → ⊥
  lacks_both a b lacks had = ground (arith, lacks, had)

  has_both : (a b : Bool) → (not a || not b) ≡ false → (a && b) ≡ false → ⊥
  has_both true true has lacks = ground (arith, lacks)
  has_both true false has lacks = ground (arith, has)
  has_both false b has lacks = ground (arith, has)

  keys_lem :
      (files : List ℕ → Option (List ℕ)) (directories dirs : List ℕ → Bool)
      → os.can_write (inside pubkey_file) ≡ true
      → os.can_write (inside prikey_file) ≡ true
      → dirs (inside pubkey_file) ≡ directories (inside pubkey_file)
      → dirs (inside prikey_file) ≡ directories (inside prikey_file)
      → (made : List ℕ → Option (List ℕ)) × (keys_after
            (record { files = files; directories = dirs; folder = inside [] })
          ≡ ok (record { files = made; directories = dirs; folder = inside [] }))
        × KeysMade files directories made
  unfolding exists
  keys_lem files directories dirs p q dp dq =
      let a : Bool = there files dirs (inside pubkey_file) in
      let b : Bool = there files dirs (inside prikey_file) in
      let (made, e, x, y) = new_keys_lem files dirs p q in
      let same = ap₂ (λ c d.
        (is_there (files (inside pubkey_file)) || c)
        && (is_there (files (inside prikey_file)) || d)) in
      elim (Bool-cases (not a || not b)) [
        | inl lacks ↦ (
          made,
          if_true (not a || not b) _ _ lacks ∙ e,
          (λ had. absurd (lacks_both a b lacks (same dp dq ∙ had)), λ _. (x, y)),
        )
        | inr has ↦ (
          files,
          if_false (not a || not b) _ _ has,
          (λ _. refl, λ lacks. absurd (has_both a b has (same dp dq ∙ lacks))),
        )
      ]

  -- A program that is started where neither "for_server" nor "for_server/seckey" is a file, and where
  -- these folders can be made and the key files opened, is set up: it then works in "for_server",
  -- which has a folder "seckey"; and if something stood under both key files' names, no file has
  -- changed, else both key files hold the two halves of the new key.
  prepare_lem :
      (files : List ℕ → Option (List ℕ)) (directories : List ℕ → Bool)
      → files server_folder ≡ none
      → files (inside key_folder) ≡ none
      → os.can_create server_folder ≡ true
      → os.can_create (inside key_folder) ≡ true
      → os.can_write (inside pubkey_file) ≡ true
      → os.can_write (inside prikey_file) ≡ true
      → (d : Disk) × (prepare os (record { files = files; directories = directories; folder = [] })
          ≡ ok d)
        × (d.folder ≡ inside [])
        × (d.directories (inside key_folder) ≡ true)
        × KeysMade files directories d.files
  unfolding prepare enter same_bytes
  prepare_lem files directories free free' can can' p q =
      let (dirs, e, made, rest) = need_directory_lem server_folder files directories [] free can in
      let (dirs', e', made', rest') =
        need_directory_lem key_folder files dirs (inside []) free' can' in
      let (files', k, kept) =
        keys_lem files directories dirs' p q
          (rest' (inside pubkey_file) refl ∙ rest (inside pubkey_file) refl)
          (rest' (inside prikey_file) refl ∙ rest (inside prikey_file) refl) in
      (
        record { files = files'; directories = dirs'; folder = inside [] },
        rw e (rw made (rw e' k)),
        refl,
        made',
        kept,
      )

  -- A program whose settings can be read, started where neither "for_server" nor
  -- "for_server/seckey" is a file, where these folders can be made and the key files opened, and
  -- where asio takes the port and listens, comes to its loop with one call that waits for a client,
  -- in the folder "for_server" with its folder "seckey", and with key files that are untouched if
  -- something stood under both their names, and else hold the two halves of the new key.
  pub main_starts :
      {Root T : Type 0} (json : Json Root) (heap : ℕ → Connection T) (server_id : List ℕ) (port : ℕ)
      (files : List ℕ → Option (List ℕ)) (directories : List ℕ → Bool)
      → read_settings json ≡ ok (server_id, port)
      → files server_folder ≡ none
      → files (inside key_folder) ≡ none
      → os.can_create server_folder ≡ true
      → os.can_create (inside key_folder) ≡ true
      → os.can_write (inside pubkey_file) ≡ true
      → os.can_write (inside prikey_file) ≡ true
      → (server : ServerInterface T) × (d : Disk) × (main json os heap true false
            (record { files = files; directories = directories; folder = [] })
          ≡ loops server_id port server d)
        × (server.accepting ≡ 1)
        × (d.folder ≡ inside [])
        × (d.directories (inside key_folder) ≡ true)
        × KeysMade files directories d.files
  unfolding main start new_server wait_for_client_connection
  main_starts json heap server_id port files directories read free free' can can' p q =
      let (d, e, f, g, k) = prepare_lem files directories free free' can can' p q in
      let disk : Disk = record { files = files; directories = directories; folder = [] } in
      (
        (start false (new_server heap)).0,
        d,
        ap (with_settings os heap true false disk) read
            ∙ ap (served heap true false server_id port) e,
        refl,
        f,
        g,
        k,
      )
