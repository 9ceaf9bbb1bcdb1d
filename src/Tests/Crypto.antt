-- ===== src/Tests/Crypto.antt =====
-- A toy cipher, and the theorems on the hash and on RSA, each on one input.
use security_transmission_pl.Base.{
  ℕ, zero, suc, ◌+◌, ◌-◌, ◌≤◌, ◌≡◌, ◌≢◌, refl, true, false, Option, none, some, List, [], ◌∷◌, ◌++◌,
  length, map, ◌*◌, take, replicate, leb, if◌then◌else◌, arith, length-append, length-replicate,
  take_append,
}
use security_transmission_pl.Base.Result.{ok}
use security_transmission_pl.Base.Bytes.{same_bytes}
use security_transmission_pl.Crypto.Hash
use security_transmission_pl.Crypto.Hash.Laws.{
  AllBytes, AllOfLength, Call, update_call, final_call, blocks, results, unhex, results-blocks,
}
use security_transmission_pl.Crypto.Rsa.{
  OpenSsl, MyRsa, KeyRead, reads, not_found, Flag, zero_flag, one_flag, encrypt_pub_key,
  decrypt_pri_key,
}
use security_transmission_pl.Crypto.Rsa.Laws.{IsKeyPair, decrypt-encrypt}

-- A plaintext of at most 21 bytes is put behind its length, and filled up to 32 bytes.
abbrev pub toy_encrypt : ℕ → List ℕ → Option (List ℕ)
toy_encrypt k plain =
    if leb (length plain) 21
    then some (length plain ∷ (plain ++ replicate (31 - length plain) 0))
    else none

abbrev pub toy_decrypt : ℕ → List ℕ → Option (List ℕ)
toy_decrypt k [] = none
toy_decrypt k (n ∷ rest) = some (take n rest)

-- A key is a number, the first byte of its file; a signature is the key, or fails for the key 0.
abbrev pub toy_read : Option (List ℕ) → KeyRead ℕ
toy_read none = not_found
toy_read (some []) = not_found
toy_read (some (k ∷ rest)) = reads k

abbrev pub toy_sign : ℕ → Flag × List ℕ
toy_sign zero = (zero_flag, [])
toy_sign (suc k) = (one_flag, suc k ∷ [])

abbrev pub toy_ssl : OpenSsl ℕ
toy_ssl = record {
  rsa_new = 0;
  read_public_key = toy_read;
  read_private_key = toy_read;
  rsa_size = λ k. 32;
  public_encrypt = toy_encrypt;
  private_decrypt = toy_decrypt;
  rsa_sign = λ type k datas. toy_sign k;
  rsa_verify = λ type k datas sign. if same_bytes sign (k ∷ []) then one_flag else zero_flag;
  filter = record {
    base64_write = λ bytes. bytes ++ b'\n' ∷ [];
    base64_read = λ text n. some text;
  };
}

toy_cipher_size :
    (k : ℕ) (plain cipher : List ℕ) → toy_encrypt k plain ≡ some cipher → length cipher ≡ 32
toy_cipher_size k plain cipher e = ground (
  arith,
  length-append plain (replicate (31 - length plain) 0),
  length-replicate {A = ℕ} (31 - length plain) 0,
)

toy_padding :
    (k : ℕ) (plain cipher : List ℕ) → toy_encrypt k plain ≡ some cipher → length plain + 11 ≤ 32
toy_padding k plain cipher e = ground arith

toy_undone :
    (k : ℕ) (plain cipher : List ℕ)
    → toy_encrypt k plain ≡ some cipher
    → toy_decrypt k cipher ≡ some plain
toy_undone k plain cipher e = ground (arith, take_append plain (replicate (31 - length plain) 0))

pub toy_ssl-IsKeyPair : (k : ℕ) → IsKeyPair toy_ssl k k
toy_ssl-IsKeyPair k = record {
  same_size = refl;
  cipher_size = toy_cipher_size k;
  padding = toy_padding k;
  undone = toy_undone k;
  base64_undone = λ bytes full. (bytes, refl, refl);
}

abbrev pub both_keys : ℕ → MyRsa ℕ
both_keys k = record { pub_key = some k; pri_key = some k; only_pubkey = false; unfreed = 2 }

five_encrypted : toy_ssl.public_encrypt 5 (1 ∷ 2 ∷ []) ≡ some (2 ∷ (1 ∷ 2 ∷ []) ++ replicate 29 0)
five_encrypted = refl

decrypt-encrypt_example :
    (sent : List ℕ) × (encrypt_pub_key toy_ssl (both_keys 5) (1 ∷ 2 ∷ []) true ≡ ok sent)
    × (decrypt_pri_key toy_ssl (both_keys 5) sent true ≡ ok (1 ∷ 2 ∷ replicate 30 0))
    × (decrypt_pri_key toy_ssl (both_keys 5) sent true ≢ ok (1 ∷ 2 ∷ []))
decrypt-encrypt_example =
    decrypt-encrypt toy_ssl 5 5 (both_keys 5) (1 ∷ 2 ∷ []) (2 ∷ (1 ∷ 2 ∷ []) ++ replicate 29 0) true
      (toy_ssl-IsKeyPair 5) refl refl refl five_encrypted (omega arith)

-- A hash whose results are zero bytes.
pub toy_digest : Hash.HashType → List ℕ → List ℕ
toy_digest t bs = replicate (Hash.length_value (Hash.length_of t)) 0

toy_sized :
    (t : Hash.HashType) (bs : List ℕ)
    → length (toy_digest t bs) ≡ Hash.length_value (Hash.length_of t)
unfolding toy_digest
toy_sized t bs = length-replicate (Hash.length_value (Hash.length_of t)) 0

zeros-AllBytes : (n : ℕ) → AllBytes (replicate n 0)
zeros-AllBytes zero = tt
zeros-AllBytes (suc n) = (omega arith, zeros-AllBytes n)

toy_bytes : (t : Hash.HashType) (bs : List ℕ) → AllBytes (toy_digest t bs)
unfolding toy_digest
toy_bytes t bs = zeros-AllBytes (Hash.length_value (Hash.length_of t))

-- Two texts, the first in two pieces.
abbrev calls : List Call
calls =
    update_call (1 ∷ [])
    ∷ update_call (2 ∷ [])
    ∷ final_call
    ∷ update_call (3 ∷ [])
    ∷ final_call
    ∷ []

results-blocks_example :
    (map unhex (results toy_digest calls (Hash.new Hash.HashType.sha384_type))
      ≡ map (toy_digest Hash.HashType.sha384_type) (blocks [] calls))
    × AllOfLength
        (2 * Hash.length_value (Hash.length_of Hash.HashType.sha384_type) + 1)
        (results toy_digest calls (Hash.new Hash.HashType.sha384_type))
results-blocks_example =
    results-blocks toy_digest toy_sized toy_bytes Hash.HashType.sha384_type calls
