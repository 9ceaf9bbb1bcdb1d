-- ===== src/Crypto/Rsa/Laws.antt =====
-- Encryption, signatures, and what an object with the public key alone can do.
use security_transmission_pl.Base.{
  ℕ, ◌+◌, ◌-◌, ◌≤◌, ◌<◌, ◌^◌, ◌≡◌, ◌≢◌, ◌↔◌, ◌⊎◌, refl, sym, ap, ◌∙◌, Bool, true, false, Option,
  some, List, [], ◌++◌, length, length-append, length-replicate, replicate, arith,
}
use mathlib.Core.List.{append-nil}
use security_transmission_pl.Base.Result.{Result, ok, throws, undefined, runtime_error}
use security_transmission_pl.Crypto.Base64.{IsUndone, from_base64-to_base64, to_base64_ne}
use security_transmission_pl.Crypto.Rsa.{
  put_out, taken_in, OpenSsl, MyRsa, SignType, minus_one, zero_flag, encrypt_pub_key,
  decrypt_pri_key, sign, save_rsa_key, filled, of_public_file, malformed, init_pub, verify,
  verify_impl,
}

filled_full : (n : ℕ) (bytes : List ℕ) → length bytes ≡ n → filled n bytes ≡ bytes
filled_full n bytes e =
    let none_left : n - length bytes ≡ 0 = omega arith in rw none_left (append-nil bytes)

payload : Result (List ℕ) → List ℕ
payload (ok bytes) = bytes
payload (throws e) = []
payload undefined = []

padded_ne :
    (plain : List ℕ) (n : ℕ)
    → length plain + 11 ≤ n
    → ok (plain ++ replicate (n - length plain) 0) ≢ ok plain
unfolding payload
padded_ne plain n h e = absurd (
    omega (
      arith,
      ap (λ r. length (payload r)) e,
      length-append plain (replicate (n - length plain) 0),
      length-replicate {A = ℕ} (n - length plain) 0,
    ))

module _ {Key : Type 0} (ssl : OpenSsl Key) where
  open ssl use {rsa_size, public_encrypt, private_decrypt, rsa_sign, filter}

  -- What OpenSSL documents of a key pair with PKCS #1 padding: the ciphertext has the size of the
  -- modulus, the plaintext is at least 11 bytes shorter, the private key takes the ciphertext back,
  -- and Base64 can be undone.
  pub record IsKeyPair (public private : Key) : Type 0 where
    pub same_size : rsa_size private ≡ rsa_size public
    pub cipher_size :
        (plain cipher : List ℕ)
        → public_encrypt public plain ≡ some cipher
        → length cipher ≡ rsa_size public
    pub padding :
        (plain cipher : List ℕ)
        → public_encrypt public plain ≡ some cipher
        → length plain + 11 ≤ rsa_size public
    pub undone :
        (plain cipher : List ℕ)
        → public_encrypt public plain ≡ some cipher
        → private_decrypt private cipher ≡ some plain
    pub base64_undone : IsUndone filter

  -- Bytes that are put out, with Base64 or without, are taken in again.
  carried :
      (base64 : Bool) (bytes : List ℕ)
      → IsUndone filter
      → bytes ≢ []
      → length (filter.base64_write bytes) < 2 ^ 64
      → (sent : List ℕ) × (put_out ssl base64 bytes ≡ ok sent)
        × (taken_in ssl base64 sent ≡ ok bytes)
  carried true bytes undone full small = from_base64-to_base64 filter bytes undone full small
  carried false bytes undone full small = (bytes, refl, refl)

  -- What one object encrypts with the public key of a pair, another that holds the private key
  -- decrypts to the plaintext with zero bytes behind it, up to the size of the key.
  pub decrypt-encrypt_other :
      (public private : Key) (sender holder : MyRsa Key) (plain cipher : List ℕ) (base64 : Bool)
      → IsKeyPair public private
      → sender.pub_key ≡ some public
      → holder.pri_key ≡ some private
      → holder.only_pubkey ≡ false
      → public_encrypt public plain ≡ some cipher
      → length (filter.base64_write cipher) < 2 ^ 64
      → (sent : List ℕ) × (encrypt_pub_key ssl sender plain base64 ≡ ok sent)
        × (decrypt_pri_key ssl holder sent base64
            ≡ ok (plain ++ replicate (rsa_size public - length plain) 0))
  unfolding encrypt_pub_key decrypt_pri_key
  decrypt-encrypt_other public private sender holder plain cipher base64 pair p q o e small =
      let full : filled (rsa_size public) cipher ≡ cipher =
        filled_full (rsa_size public) cipher (pair.cipher_size plain cipher e) in
      let (sent, there, back) =
        carried base64 cipher pair.base64_undone
          (λ none. ground (arith, pair.cipher_size plain cipher e, pair.padding plain cipher e))
          small in
      let encrypts : encrypt_pub_key ssl sender plain base64
          ≡ put_out ssl base64 (filled (rsa_size public) cipher) =
        ground arith in
      (
        sent,
        encrypts ∙ ap (put_out ssl base64) full ∙ there,
        ground (arith, back, pair.undone plain cipher e, pair.same_size),
      )

  -- With a key pair, what `EncryptPubKey` gives for a plaintext that OpenSSL can encrypt is
  -- decrypted to the plaintext with zero bytes behind it, up to the size of the key. So it is never
  -- the plaintext itself.
  pub decrypt-encrypt :
      (public private : Key) (m : MyRsa Key) (plain cipher : List ℕ) (base64 : Bool)
      → IsKeyPair public private
      → m.pub_key ≡ some public
      → m.pri_key ≡ some private
      → m.only_pubkey ≡ false
      → public_encrypt public plain ≡ some cipher
      → length (filter.base64_write cipher) < 2 ^ 64
      → (sent : List ℕ) × (encrypt_pub_key ssl m plain base64 ≡ ok sent)
        × (decrypt_pri_key ssl m sent base64
            ≡ ok (plain ++ replicate (rsa_size public - length plain) 0))
        × (decrypt_pri_key ssl m sent base64 ≢ ok plain)
  decrypt-encrypt public private m plain cipher base64 pair p q o e small =
      let (sent, there, out) =
        decrypt-encrypt_other public private m m plain cipher base64 pair p q o e small in
      (sent, there, out, λ same. padded_ne plain _ (pair.padding plain cipher e) (sym out ∙ same))

  -- With a private key, `Sign` throws exactly when only the public key was loaded, or on the value
  -- -1 of `RSA_sign`.
  pub sign-eq-throws_iff :
      (m : MyRsa Key) (k : Key) (datas : List ℕ) (type : SignType) (base64 : Bool)
      → m.pri_key ≡ some k
      → (sign ssl m datas type base64 ≡ throws runtime_error)
        ↔ ((m.only_pubkey ≡ true) ⊎ ((rsa_sign type k datas).0 ≡ minus_one))
  unfolding sign
  sign-eq-throws_iff m k datas type base64 p =
      ground (arith, to_base64_ne filter (rsa_sign type k datas).1)

  -- With a whole key pair, `Sign` does not notice the value 0 of `RSA_sign`, which OpenSSL
  -- documents for a failure: what it returns is made of what was put out, as for a signature.
  pub sign_unnoticed :
      (m : MyRsa Key) (k : Key) (datas : List ℕ) (type : SignType) (base64 : Bool)
      → m.pri_key ≡ some k
      → m.only_pubkey ≡ false
      → (rsa_sign type k datas).0 ≡ zero_flag
      → sign ssl m datas type base64 ≡ put_out ssl base64 (rsa_sign type k datas).1
  unfolding sign
  sign_unnoticed m k datas type base64 p o z = ground arith

  -- An object made from a public key file can neither decrypt, nor sign, nor save: each of these
  -- throws, whatever is in the file.
  pub of_public_file_refuses :
      (file : Option (List ℕ)) (datas : List ℕ) (type : SignType) (base64 : Bool)
      → let m = of_public_file ssl file in
        (decrypt_pri_key ssl m datas base64 ≡ throws runtime_error)
        × (sign ssl m datas type base64 ≡ throws runtime_error)
        × (save_rsa_key ssl m ≡ throws runtime_error)
  unfolding of_public_file decrypt_pri_key sign save_rsa_key
  of_public_file_refuses file datas type base64 = (refl, refl, refl)

  -- An object made from a public key file that OpenSSL cannot decode has a null pointer: to encrypt
  -- with it, or to verify a signature that can be taken in, is undefined.
  pub malformed-undefined :
      (file : Option (List ℕ)) (datas sign_datas bytes : List ℕ) (type : SignType) (base64 : Bool)
      → ssl.read_public_key file ≡ malformed
      → taken_in ssl base64 sign_datas ≡ ok bytes
      → let m = of_public_file ssl file in
        (encrypt_pub_key ssl m datas base64 ≡ undefined)
        × (verify ssl m datas sign_datas type base64 ≡ undefined)
  unfolding of_public_file init_pub encrypt_pub_key verify verify_impl
  malformed-undefined file datas sign_datas bytes type base64 bad taken = ground arith
