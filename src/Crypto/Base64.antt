-- ===== src/Crypto/Base64.antt =====
-- include/openssl/mine_base64.hpp, over OpenSSL's Base64 filter.
use security_transmission_pl.Base.{
  ℕ, ◌+◌, ◌^◌, ◌<◌, ◌-◌, ◌≡◌, ◌≢◌, ap, ◌∙◌, List, [], ◌∷◌, ◌++◌, length, take, take_append,
  length-append, arith, u64, ltb, if◌then◌else◌, false, Option, none, some,
}
use security_transmission_pl.Base.Result.{Result, ok, throws, logic_error, runtime_error}

-- What the filter puts into a memory buffer for some bytes, up to the flush; and what `BIO_read`
-- takes out through the filter, at most so many bytes, or `none` for its negative results.
pub record Filter : Type 0 where
  pub base64_write : List ℕ → List ℕ
  pub base64_read : List ℕ → ℕ → Option (List ℕ)

module _ (filter : Filter) where
  open filter use {base64_write, base64_read}

  -- `std::string(data, length)` over a buffer: a length beyond it can only be the one that wrapped
  -- around, which is more than a string can have.
  abbrev pub string_of : List ℕ → ℕ → Result (List ℕ)
  string_of buffer n = if ltb (length buffer) n then throws logic_error else ok (take n buffer)

  -- `ToBase64`: all but the last character of the buffer, the end of a line.
  unfoldable pub to_base64 : List ℕ → Result (List ℕ)
  to_base64 datas = let buf = base64_write datas in string_of buf (u64 (length buf + 2 ^ 64 - 1))

  -- `result.resize(true_len)`, where a negative length is converted to more than a string can have.
  abbrev pub resized_to : Option (List ℕ) → Result (List ℕ)
  resized_to none = throws logic_error
  resized_to (some bytes) = ok bytes

  -- `FromBase64`
  unfoldable pub from_base64 : List ℕ → Result (List ℕ)
  from_base64 datas = resized_to (base64_read datas (length datas))

  -- What OpenSSL documents: bytes are written as lines, each with a newline at its end, and are read
  -- back from them, the last newline being optional.
  abbrev pub IsUndone : Type 0
  IsUndone =
      (bytes : List ℕ)
      → bytes ≢ []
      → (text : List ℕ) × (base64_write bytes ≡ text ++ b'\n' ∷ [])
        × (base64_read text (length text) ≡ some bytes)

  string_of-newline :
      (buffer text : List ℕ)
      → buffer ≡ text ++ b'\n' ∷ []
      → length buffer < 2 ^ 64
      → string_of buffer (u64 (length buffer + 2 ^ 64 - 1)) ≡ ok text
  string_of-newline buffer text e small =
      let long : length buffer ≡ length text + 1 = ap length e ∙ length-append text (b'\n' ∷ []) in
      let n : u64 (length buffer + 2 ^ 64 - 1) ≡ length text = omega arith in
      let inside : ltb (length buffer) (length text) ≡ false = ground arith in
      let cut : take (length text) buffer ≡ text = rw e (take_append text (b'\n' ∷ [])) in
      rw n (rw inside (ap ok cut))

  -- Bytes come back from their Base64 form, if there are any.
  pub from_base64-to_base64 :
      (bytes : List ℕ)
      → IsUndone
      → bytes ≢ []
      → length (base64_write bytes) < 2 ^ 64
      → (text : List ℕ) × (to_base64 bytes ≡ ok text) × (from_base64 text ≡ ok bytes)
  unfolding to_base64 from_base64
  from_base64-to_base64 bytes undone full small =
      let (text, e, read) = undone bytes full in
      (text, string_of-newline (base64_write bytes) text e small, ap resized_to read)

  -- What `ToBase64` throws is not a `runtime_error`.
  pub to_base64_ne : (bytes : List ℕ) → to_base64 bytes ≢ throws runtime_error
  unfolding to_base64
  to_base64_ne bytes e = ground (arith, e)

  -- Without data, `ToBase64` throws: the filter writes nothing, and 0 - 1 wraps around.
  pub to_base64_empty : base64_write [] ≡ [] → to_base64 [] ≡ throws logic_error
  unfolding to_base64
  to_base64_empty e = rw e
