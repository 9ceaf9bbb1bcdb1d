-- ===== src/Crypto/Hash.antt =====
-- include/openssl/mine_hash.hpp. `digest` is EVP's hash, by algorithm, of the bytes that a context
-- was given since it was set up, and is not longer than the array for it, as OpenSSL documents; the
-- choice of the algorithm, the hexadecimal form and the reset are the class's own.
pub mod Laws
use security_transmission_pl.Base.{ℕ, ◌+◌, ◌-◌, ◌/◌, ◌%◌, List, [], ◌∷◌, ◌++◌, ltb, if◌then◌else◌}

pub data HashType : Type 0 where
  sha256_type sha384_type sha512_type : HashType

-- `HashLength`, by name and by value
pub data HashLength : Type 0 where
  sha256_len sha384_len sha512_len : HashLength

unfoldable pub length_value : HashLength → ℕ
length_value sha256_len = 32
length_value sha384_len = 48
length_value sha512_len = 64

-- An `EVP_MD_CTX`: the algorithm that it was set up for, and what it has absorbed since.
pub record EvpContext : Type 0 where
  pub algorithm : HashType
  pub absorbed : List ℕ

-- `EVP_DigestInit_ex(ctx, algorithm, nullptr)`
abbrev pub digest_init : HashType → EvpContext
digest_init algorithm = record { algorithm = algorithm; absorbed = [] }

-- `HashImpl::Init`
unfoldable pub init : HashType → EvpContext
init sha256_type = digest_init sha256_type
init sha384_type = digest_init sha384_type
init sha512_type = digest_init sha512_type

-- `Hash`, with its `HashImpl`
pub record Hash : Type 0 where
  pub hash_type : HashType
  pub md_ctx : EvpContext

-- `Hash(type)`
unfoldable pub new : HashType → Hash
unfolding init
new type = record { hash_type = type; md_ctx = init type }

-- `type()`
unfoldable pub type_of : Hash → HashType
type_of h = h.hash_type

-- `Update(datas)`
unfoldable pub update : List ℕ → Hash → Hash
update datas h = record h { md_ctx = record (h.md_ctx) { absorbed = h.md_ctx.absorbed ++ datas } }

-- `%02x`, on a byte
abbrev pub hex_digit : ℕ → ℕ
hex_digit n = if ltb n 10 then b'0' + n else b'a' + (n - 10)

pub hex : List ℕ → List ℕ
hex [] = []
hex (b ∷ bs) = hex_digit (b / 16) ∷ hex_digit (b % 16) ∷ hex bs

-- `FinalImpl<len>` sets the context up again by the length.
unfoldable pub init_again : HashLength → EvpContext
init_again sha256_len = digest_init sha256_type
init_again sha384_len = digest_init sha384_type
init_again sha512_len = digest_init sha512_type

-- The length by which `Final` calls `FinalImpl`.
unfoldable pub length_of : HashType → HashLength
length_of sha256_type = sha256_len
length_of sha384_type = sha384_len
length_of sha512_type = sha512_len

module _ (digest : HashType → List ℕ → List ℕ) where
  -- `FinalImpl<len>(s)`: the digits of every byte, and the zero byte that ends the array, are
  -- appended.
  unfoldable pub final_impl : HashLength → List ℕ → Hash → List ℕ × Hash
  unfolding hex init_again
  final_impl len s h =
      let datas = digest h.md_ctx.algorithm h.md_ctx.absorbed in
      (s ++ (hex datas ++ 0 ∷ []), record h { md_ctx = init_again len })

  -- `Final()`
  unfoldable pub final : Hash → List ℕ × Hash
  unfolding final_impl length_of
  final h = final_impl (length_of h.hash_type) [] h
