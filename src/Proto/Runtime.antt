-- ===== src/Proto/Runtime.antt =====
-- The parts of the protobuf library that src/Message.pb.cc calls, and what its wire format promises.
use security_transmission_pl.Base.{
  ℕ, ◌+◌, ◌*◌, ◌^◌, ◌≤◌, ◌<◌, ◌≡◌, Option, some, List, [], ◌++◌, length,
}

pub record Runtime : Type 0 where
  -- `WriteBytesMaybeAliased(field, bytes, target)` and `WriteUInt32ToArray(field, value, target)`:
  -- the bytes that they put out.
  pub write_bytes : ℕ → List ℕ → List ℕ
  pub write_uint32 : ℕ → ℕ → List ℕ
  -- `SerializeAsString` of a message, of which `_InternalSerialize` writes these bytes.
  pub serialize_as_string : List ℕ → List ℕ
  -- `ReadTag`: a tag and what follows it, or a null pointer.
  pub read_tag : List ℕ → Option (ℕ × List ℕ)
  -- `InlineGreedyStringParser`: what it left in the string, and what follows or a null pointer.
  pub read_bytes : List ℕ → List ℕ × Option (List ℕ)
  -- `ReadVarint32`: likewise, for a number.
  pub read_uint32 : List ℕ → ℕ × Option (List ℕ)
  -- `UnknownFieldParse(tag)`: the bytes of the field, tag included, and what follows it.
  pub read_unknown : ℕ → List ℕ → Option (List ℕ × List ℕ)

-- A field that was written is read back, whatever follows it; the tag is the field's number with
-- the wire type, 2 for bytes and 0 for a number. A string gets a message of at most `INT_MAX` bytes,
-- and stays empty for more. Reading a tag takes at least a byte, and no read puts bytes back.
pub record IsWireFormat (r : Runtime) : Type 0 where
  pub bytes_tag :
      (field : ℕ) (bytes rest : List ℕ)
      → 0 < field
      → field < 16
      → length bytes < 2 ^ 31
      → (body : List ℕ) × (r.read_tag (r.write_bytes field bytes ++ rest)
          ≡ some (field * 8 + 2, body))
        × (r.read_bytes body ≡ (bytes, some rest))
  pub uint32_tag :
      (field value : ℕ) (rest : List ℕ)
      → 0 < field
      → field < 16
      → value < 2 ^ 32
      → (body : List ℕ) × (r.read_tag (r.write_uint32 field value ++ rest) ≡ some (field * 8, body))
        × (r.read_uint32 body ≡ (value, some rest))
  pub string_fits : (bytes : List ℕ) → length bytes < 2 ^ 31 → r.serialize_as_string bytes ≡ bytes
  pub string_fails : (bytes : List ℕ) → 2 ^ 31 ≤ length bytes → r.serialize_as_string bytes ≡ []
  pub tag_consumes :
      (input : List ℕ) (tag : ℕ) (rest : List ℕ)
      → r.read_tag input ≡ some (tag, rest)
      → length rest < length input
  pub bytes_consumes :
      (input bytes rest : List ℕ)
      → r.read_bytes input ≡ (bytes, some rest)
      → length rest ≤ length input
  pub uint32_consumes :
      (input : List ℕ) (value : ℕ) (rest : List ℕ)
      → r.read_uint32 input ≡ (value, some rest)
      → length rest ≤ length input
  pub unknown_consumes :
      (input : List ℕ) (tag : ℕ) (field rest : List ℕ)
      → r.read_unknown tag input ≡ some (field, rest)
      → length rest ≤ length input
