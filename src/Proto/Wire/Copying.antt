-- ===== src/Proto/Wire/Copying.antt =====
-- src/Message.pb.cc: ByteSizeLong, MergeFrom, CopyFrom and InternalSwap of the two messages.
use security_transmission_pl.Base.{
  ℕ, zero, suc, ◌+◌, ◌^◌, ◌<◌, ◌≡◌, refl, Bool, true, false, List, [], ◌∷◌, ◌++◌, length,
  length-append, arith, if◌then◌else◌,
}
use security_transmission_pl.Proto.Runtime.{Runtime}
use security_transmission_pl.Proto.Wire.{bytes_field, uint32_field}
use security_transmission_pl.Proto.Wire.Request
use security_transmission_pl.Proto.Wire.Request.{RequestMsg}
use security_transmission_pl.Proto.Wire.Respond
use security_transmission_pl.Proto.Wire.Respond.{RespondMsg}

-- The library's sizes: `BytesSize` and `UInt32SizePlusOne`.
pub record WireSizes : Type 0 where
  pub bytes_size : List ℕ → ℕ
  pub uint32_size_plus_one : ℕ → ℕ

-- `if (!s.empty()) total_size += 1 + BytesSize(s)`
abbrev pub bytes_field_size : WireSizes → List ℕ → ℕ
bytes_field_size z [] = 0
bytes_field_size z (b ∷ bs) = 1 + z.bytes_size (b ∷ bs)

-- `if (x != 0) total_size += UInt32SizePlusOne(x)`
abbrev pub uint32_field_size : WireSizes → ℕ → ℕ
uint32_field_size z zero = 0
uint32_field_size z (suc value) = z.uint32_size_plus_one (suc value)

-- `ByteSizeLong`, with the bytes of the unknown fields.
unfoldable pub request_byte_size : WireSizes → RequestMsg → ℕ
request_byte_size z m =
    bytes_field_size z m.client_id
    + bytes_field_size z m.server_id
    + bytes_field_size z m.sign
    + bytes_field_size z m.content
    + length m.unknown

unfoldable pub respond_byte_size : WireSizes → RespondMsg → ℕ
respond_byte_size z m =
    bytes_field_size z m.client_id
    + bytes_field_size z m.server_id
    + bytes_field_size z m.content
    + uint32_field_size z m.seckey_id
    + length m.unknown

-- What the library documents: the sizes are those of what is written, for a field whose tag takes
-- one byte.
pub record IsSizeOf (z : WireSizes) (r : Runtime) : Type 0 where
  pub bytes_sized :
      (field : ℕ) (bytes : List ℕ)
      → 0 < field
      → field < 16
      → length bytes < 2 ^ 31
      → length (r.write_bytes field bytes) ≡ 1 + z.bytes_size bytes
  pub uint32_sized :
      (field value : ℕ)
      → 0 < field
      → field < 16
      → value < 2 ^ 32
      → length (r.write_uint32 field value) ≡ z.uint32_size_plus_one value

-- Strings and a number that the wire format can hold, in the order of the fields' numbers.
abbrev pub ShortRequest : RequestMsg → Type 0
ShortRequest m =
    (length m.client_id < 2 ^ 31)
    × (length m.server_id < 2 ^ 31)
    × (length m.sign < 2 ^ 31)
    × (length m.content < 2 ^ 31)

abbrev pub ShortRespond : RespondMsg → Type 0
ShortRespond m =
    (m.seckey_id < 2 ^ 32)
    × (length m.client_id < 2 ^ 31)
    × (length m.server_id < 2 ^ 31)
    × (length m.content < 2 ^ 31)

module _ (z : WireSizes) (r : Runtime) (sized : IsSizeOf z r) where
  length-bytes_field :
      (field : ℕ) (bytes : List ℕ)
      → 0 < field
      → field < 16
      → length bytes < 2 ^ 31
      → length (bytes_field r field bytes) ≡ bytes_field_size z bytes
  length-bytes_field field [] low high short = refl
  length-bytes_field field (b ∷ bs) low high short = sized.bytes_sized field (b ∷ bs) low high short

  length-uint32_field :
      (field value : ℕ)
      → 0 < field
      → field < 16
      → value < 2 ^ 32
      → length (uint32_field r field value) ≡ uint32_field_size z value
  length-uint32_field field zero low high short = refl
  length-uint32_field field (suc value) low high short =
      sized.uint32_sized field (suc value) low high short

  length-serialize_request :
      (m : RequestMsg) → ShortRequest m → length (Request.serialize r m) ≡ request_byte_size z m
  unfolding Request.serialize request_byte_size
  length-serialize_request m (w1, w2, w3, w4) =
      let d = m.unknown in
      let c = bytes_field r 4 m.content ++ d in
      let b = bytes_field r 3 m.sign ++ c in
      let a = bytes_field r 2 m.server_id ++ b in
      omega (
        arith,
        length-append (bytes_field r 1 m.client_id) a,
        length-append (bytes_field r 2 m.server_id) b,
        length-append (bytes_field r 3 m.sign) c,
        length-append (bytes_field r 4 m.content) d,
        length-bytes_field 1 m.client_id (omega arith) (omega arith) w1,
        length-bytes_field 2 m.server_id (omega arith) (omega arith) w2,
        length-bytes_field 3 m.sign (omega arith) (omega arith) w3,
        length-bytes_field 4 m.content (omega arith) (omega arith) w4,
      )

  length-serialize_respond :
      (m : RespondMsg) → ShortRespond m → length (Respond.serialize r m) ≡ respond_byte_size z m
  unfolding Respond.serialize respond_byte_size
  length-serialize_respond m (w1, w2, w3, w4) =
      let d = m.unknown in
      let c = bytes_field r 4 m.content ++ d in
      let b = bytes_field r 3 m.server_id ++ c in
      let a = bytes_field r 2 m.client_id ++ b in
      omega (
        arith,
        length-append (uint32_field r 1 m.seckey_id) a,
        length-append (bytes_field r 2 m.client_id) b,
        length-append (bytes_field r 3 m.server_id) c,
        length-append (bytes_field r 4 m.content) d,
        length-uint32_field 1 m.seckey_id (omega arith) (omega arith) w1,
        length-bytes_field 2 m.client_id (omega arith) (omega arith) w2,
        length-bytes_field 3 m.server_id (omega arith) (omega arith) w3,
        length-bytes_field 4 m.content (omega arith) (omega arith) w4,
      )

  -- If the library's sizes are those of what it writes, what is serialized of a request and of a
  -- response, with strings below 2 ^ 31 bytes and a number below 2 ^ 32, has exactly as many bytes as
  -- ByteSizeLong tells, by which the buffer is allocated.
  pub length-serialize :
      (m : RequestMsg) (n : RespondMsg)
      → ShortRequest m
      → ShortRespond n
      → (length (Request.serialize r m) ≡ request_byte_size z m)
        × (length (Respond.serialize r n) ≡ respond_byte_size z n)
  length-serialize m n v w = (length-serialize_request m v, length-serialize_respond n w)

-- `if (!from.s.empty()) set_s(from.s)`
abbrev pub merged : List ℕ → List ℕ → List ℕ
merged [] old = old
merged (b ∷ bs) old = b ∷ bs

abbrev pub merged_number : ℕ → ℕ → ℕ
merged_number zero old = old
merged_number (suc value) old = suc value

-- `MergeFrom(from)`
unfoldable pub request_merge_from : RequestMsg → RequestMsg → RequestMsg
request_merge_from from m = record {
  client_id = merged from.client_id m.client_id;
  server_id = merged from.server_id m.server_id;
  sign = merged from.sign m.sign;
  content = merged from.content m.content;
  unknown = m.unknown ++ from.unknown;
}

unfoldable pub respond_merge_from : RespondMsg → RespondMsg → RespondMsg
respond_merge_from from m = record {
  seckey_id = merged_number from.seckey_id m.seckey_id;
  client_id = merged from.client_id m.client_id;
  server_id = merged from.server_id m.server_id;
  content = merged from.content m.content;
  unknown = m.unknown ++ from.unknown;
}

-- `CopyFrom(from)`; `same` says whether `from` is the message itself.
unfoldable pub request_copy_from : Bool → RequestMsg → RequestMsg → RequestMsg
unfolding request_merge_from
request_copy_from same from m = if same then m else request_merge_from from Request.cleared

unfoldable pub respond_copy_from : Bool → RespondMsg → RespondMsg → RespondMsg
unfolding respond_merge_from
respond_copy_from same from m = if same then m else respond_merge_from from Respond.cleared

-- `InternalSwap(other)`
unfoldable pub request_swap : RequestMsg → RequestMsg → RequestMsg × RequestMsg
request_swap m other = (other, m)

unfoldable pub respond_swap : RespondMsg → RespondMsg → RespondMsg × RespondMsg
respond_swap m other = (other, m)

merged_into : (s : List ℕ) → merged s [] ≡ s
merged_into [] = refl
merged_into (b ∷ bs) = refl

merged_number_into : (n : ℕ) → merged_number n 0 ≡ n
merged_number_into zero = refl
merged_number_into (suc n) = refl

-- `CopyFrom` makes a message the one that is copied, whatever it held, a message that is copied onto
-- itself included.
pub request_copy_from_lem :
    (same : Bool) (from m : RequestMsg)
    → (same ≡ true → m ≡ from)
    → request_copy_from same from m ≡ from
unfolding request_copy_from request_merge_from
request_copy_from_lem true from m itself = itself refl
request_copy_from_lem false from m itself = rw (merged_into from.client_id) (
    rw (merged_into from.server_id)
      (rw (merged_into from.sign) (rw (merged_into from.content) refl)))

pub respond_copy_from_lem :
    (same : Bool) (from m : RespondMsg)
    → (same ≡ true → m ≡ from)
    → respond_copy_from same from m ≡ from
unfolding respond_copy_from respond_merge_from
respond_copy_from_lem true from m itself = itself refl
respond_copy_from_lem false from m itself = rw (merged_number_into from.seckey_id) (
    rw (merged_into from.client_id)
      (rw (merged_into from.server_id) (rw (merged_into from.content) refl)))
