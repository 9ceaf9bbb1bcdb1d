-- ===== src/Crypto/Rsa/Ownership.antt =====
-- The keys that the class allocates and does not free.
use security_transmission_pl.Base.{ℕ, ◌+◌, ◌≤◌, Option, List, [], ◌∷◌, arith}
use security_transmission_pl.Crypto.Rsa.{OpenSsl, MyRsa, allocated, init, destroy}

module _ {Key : Type 0} (ssl : OpenSsl Key) where
  -- `Init` called again and again, each time with the bytes of two files.
  pub init_all : List (Option (List ℕ) × Option (List ℕ)) → MyRsa Key → MyRsa Key
  init_all [] m = m
  init_all ((pub_file, pri_file) ∷ files) m = init_all files (init ssl pub_file pri_file m).0

  -- How many of the public key files OpenSSL does not fail to decode.
  pub kept : List (Option (List ℕ) × Option (List ℕ)) → ℕ
  kept [] = 0
  kept ((pub_file, pri_file) ∷ files) = allocated ssl (ssl.read_public_key pub_file) + kept files

  init-unfreed :
      (pub_file pri_file : Option (List ℕ)) (m : MyRsa Key)
      → m.unfreed + allocated ssl (ssl.read_public_key pub_file)
        ≤ (init ssl pub_file pri_file m).0.unfreed
  unfolding init
  init-unfreed pub_file pri_file m = ground arith

  -- Neither `Init` nor the destructor frees a key: whatever was allocated before, and at least one
  -- key for each call of `Init` in which OpenSSL does not free it, is still allocated when the
  -- object is gone.
  pub destroy-init_all :
      (files : List (Option (List ℕ) × Option (List ℕ))) (m : MyRsa Key)
      → m.unfreed + kept files ≤ destroy ssl (init_all files m)
  unfolding init_all destroy kept
  destroy-init_all [] m = ground arith
  destroy-init_all ((pub_file, pri_file) ∷ files) m = omega (
    arith,
    init-unfreed pub_file pri_file m,
    destroy-init_all files (init ssl pub_file pri_file m).0,
  )
