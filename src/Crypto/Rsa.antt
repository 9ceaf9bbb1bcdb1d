-- ===== src/Crypto/Rsa.antt =====
-- include/openssl/mine_rsa.hpp. A pointer to a key
-- is `none` when it is null; `unfreed` counts the keys that OpenSSL has allocated for this object
-- and that were not handed back.
pub mod Laws
pub mod Ownership
use security_transmission_pl.Base.{
  ℕ, ◌+◌, ◌-◌, ◌*◌, Bool, true, false, Option, none, some, List, [], ◌++◌, length, take, replicate,
  if◌then◌else◌,
}
use security_transmission_pl.Base.Result.{Result, ok, throws, undefined, runtime_error, ◌>>=◌}
use security_transmission_pl.Crypto.Base64.{Filter, to_base64, from_base64}

pub data SignType : Type 0 where
  sha256_type sha384_type sha512_type : SignType

-- The value that `RSA_sign` and `RSA_verify` return: OpenSSL documents 1 and 0, the class tests -1.
pub data Flag : Type 0 where
  minus_one zero_flag one_flag : Flag

-- What `PEM_read_bio_RSAPublicKey(bio, &key, …)` and its like do to the key: they read one into it;
-- they find no PEM text of the kind, and leave the key as it is; or they cannot decode what is in
-- it, free the key, and set the pointer to null.
pub data KeyRead (Key : Type 0) : Type 0 where
  reads : Key → KeyRead Key
  not_found : KeyRead Key
  malformed : KeyRead Key

-- OpenSSL, as the class uses it. A file is its bytes, or `none` if it cannot be opened.
pub record OpenSsl (Key : Type 0) : Type 0 where
  pub rsa_new : Key
  pub read_public_key : Option (List ℕ) → KeyRead Key
  pub read_private_key : Option (List ℕ) → KeyRead Key
  pub rsa_size : Key → ℕ
  -- The bytes that are put out, or `none` for -1.
  pub public_encrypt : Key → List ℕ → Option (List ℕ)
  pub private_decrypt : Key → List ℕ → Option (List ℕ)
  pub rsa_sign : SignType → Key → List ℕ → Flag × List ℕ
  pub rsa_verify : SignType → Key → List ℕ → List ℕ → Flag
  pub filter : Filter

-- `MyRSA`, with its `RSAImpl`
pub record MyRsa (Key : Type 0) : Type 0 where
  pub pub_key : Option Key
  pub pri_key : Option Key
  pub only_pubkey : Bool
  pub unfreed : ℕ

-- A buffer of `n` zero bytes over which `bytes` were written.
abbrev pub filled : ℕ → List ℕ → List ℕ
filled n bytes = bytes ++ replicate (n - length bytes) 0

module _ {Key : Type 0} (ssl : OpenSsl Key) where
  open ssl use {
    rsa_new, read_public_key, read_private_key, rsa_size, public_encrypt, private_decrypt, rsa_sign,
    rsa_verify, filter,
  }

  -- `if (to_base64) return ToBase64(result); else return result;`
  abbrev pub put_out : Bool → List ℕ → Result (List ℕ)
  put_out base64 bytes = if base64 then to_base64 filter bytes else ok bytes

  -- `datas`, or `FromBase64(datas)`
  abbrev pub taken_in : Bool → List ℕ → Result (List ℕ)
  taken_in base64 datas = if base64 then from_base64 filter datas else ok datas

  -- `MyRSA(n)`: the two halves of a generated key, each of them a copy.
  unfoldable pub generated : Key → Key → MyRsa Key
  generated public private = record {
    pub_key = some public;
    pri_key = some private;
    only_pubkey = false;
    unfreed = 2;
  }

  abbrev blank : Bool → MyRsa Key
  blank only = record { pub_key = none; pri_key = none; only_pubkey = only; unfreed = 0 }

  -- What is left in the pointer after a read into the empty key that `RSA_new` made, and how many
  -- keys are allocated in it.
  abbrev read_into : KeyRead Key → Option Key
  read_into (reads k) = some k
  read_into not_found = some rsa_new
  read_into malformed = none

  abbrev allocated : KeyRead Key → ℕ
  allocated (reads k) = 1
  allocated not_found = 1
  allocated malformed = 0

  -- Whether the read threw.
  abbrev read_throws : KeyRead Key → Bool
  read_throws (reads k) = false
  read_throws not_found = true
  read_throws malformed = true

  -- `InitPubImpl` and `InitPriImpl`; the Boolean says that they threw a `runtime_error`.
  unfoldable pub init_pub : Option (List ℕ) → MyRsa Key → MyRsa Key × Bool
  init_pub file m = (
    record m {
      pub_key = read_into (read_public_key file);
      unfreed = m.unfreed + allocated (read_public_key file);
    },
    read_throws (read_public_key file),
  )

  unfoldable pub init_pri : Option (List ℕ) → MyRsa Key → MyRsa Key × Bool
  init_pri file m = (
    record m {
      pri_key = read_into (read_private_key file);
      unfreed = m.unfreed + allocated (read_private_key file);
    },
    read_throws (read_private_key file),
  )

  -- `if (!p) { RSA_free(p); p = nullptr; }`: only a null pointer is freed, which does nothing.
  unfoldable pub free_if_null : Option Key → ℕ → ℕ
  free_if_null none unfreed = unfreed
  free_if_null (some k) unfreed = unfreed

  -- `Init`; the Boolean says that it threw.
  unfoldable pub init : Option (List ℕ) → Option (List ℕ) → MyRsa Key → MyRsa Key × Bool
  unfolding init_pub init_pri free_if_null
  init pub_file pri_file m =
      let m' = record m { unfreed = free_if_null m.pri_key (free_if_null m.pub_key m.unfreed) } in
      let (m'', threw) = init_pub pub_file m' in
      if threw then (m'', true) else init_pri pri_file m''

  -- `MyRSA(pub_key_path, pri_key_path)` and `MyRSA(pub_key_path)`, which report what was thrown and
  -- go on with what they have.
  unfoldable pub of_files : Option (List ℕ) → Option (List ℕ) → MyRsa Key
  unfolding init
  of_files pub_file pri_file = (init pub_file pri_file (blank false)).0

  unfoldable pub of_public_file : Option (List ℕ) → MyRsa Key
  unfolding init_pub
  of_public_file file = (init_pub file (blank true)).0

  -- `~RSAImpl`: how many keys are left allocated.
  unfoldable pub destroy : MyRsa Key → ℕ
  unfolding free_if_null
  destroy m = free_if_null m.pri_key (free_if_null m.pub_key m.unfreed)

  -- `EncryptPubKey(datas, to_base64)`
  unfoldable pub encrypt_pub_key : MyRsa Key → List ℕ → Bool → Result (List ℕ)
  encrypt_pub_key m datas base64 = elim (m.pub_key) [
    | none ↦ undefined
    | some k ↦ elim (public_encrypt k datas) [
      | none ↦ throws runtime_error
      | some out ↦ put_out base64 (filled (rsa_size k) out)
    ]
  ]

  -- `DecryptPriKey(datas, from_base64)`, which returns the whole buffer.
  unfoldable pub decrypt_pri_key : MyRsa Key → List ℕ → Bool → Result (List ℕ)
  decrypt_pri_key m datas base64 =
      let body : Result (List ℕ) = elim (m.pri_key) [
        | none ↦ undefined
        | some k ↦ taken_in base64 datas >>= λ bytes. elim (private_decrypt k bytes) [
          | none ↦ throws runtime_error
          | some out ↦ ok (filled (rsa_size k) out)
        ]
      ] in
      if m.only_pubkey then throws runtime_error else body

  -- `Sign(datas, type, to_base64)`: `out_len` is the length of the signature that was put out.
  unfoldable pub sign : MyRsa Key → List ℕ → SignType → Bool → Result (List ℕ)
  sign m datas type base64 =
      let body : Result (List ℕ) = elim (m.pri_key) [
        | none ↦ undefined
        | some k ↦
            let (flag, out) = rsa_sign type k datas in
            elim flag [
              | minus_one ↦ throws runtime_error
              | zero_flag ↦ put_out base64 out
              | one_flag ↦ put_out base64 out
            ]
      ] in
      if m.only_pubkey then throws runtime_error else body

  -- `VerifyImpl(datas, sign_datas, type)`
  abbrev pub verify_flag : Flag → Result Bool
  verify_flag minus_one = throws runtime_error
  verify_flag zero_flag = ok false
  verify_flag one_flag = ok true

  unfoldable pub verify_impl : MyRsa Key → List ℕ → List ℕ → SignType → Result Bool
  verify_impl m datas sign_datas type = elim (m.pub_key) [
    | none ↦ undefined
    | some k ↦ verify_flag (rsa_verify type k datas sign_datas)
  ]

  -- `Verify(datas, sign_datas, type, from_base64)`
  unfoldable pub verify : MyRsa Key → List ℕ → List ℕ → SignType → Bool → Result Bool
  unfolding verify_impl
  verify m datas sign_datas type base64 =
      taken_in base64 sign_datas >>= λ bytes. verify_impl m datas bytes type

  -- `SaveRSAKey`: the keys that are written to the two files.
  unfoldable pub save_rsa_key : MyRsa Key → Result (Option Key × Option Key)
  save_rsa_key m = if m.only_pubkey then throws runtime_error else ok (m.pub_key, m.pri_key)
