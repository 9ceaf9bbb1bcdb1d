-- ===== src/Proto/Wire.antt =====
-- src/Message.pb.cc: the two messages of Message.proto, how they are put on the wire and how they
-- are read. A string is the list of its bytes. Unknown fields are kept as the bytes they came in.
mod Steps
pub mod Fuel
pub mod Request
pub mod Respond
pub mod Copying
use security_transmission_pl.Base.{
  ℕ, zero, suc, ◌+◌, ◌*◌, ◌/◌, ◌%◌, ◌≡◌, Bool, true, false, ◌&&◌, ◌||◌, Option, none, some, List,
  [], ◌∷◌, ◌++◌, length, ◌==◌, if◌then◌else◌,
}
use security_transmission_pl.Proto.Runtime.{Runtime}

-- What a round of a parse loop ends in: the loop goes on with the rest of the input, it stops at a
-- tag that ends a group, or the input is malformed.
pub data Round : Type 0 where
  goes_on : List ℕ → Round
  stops malformed : Round

-- `CHK_(ptr)`
abbrev pub checked : Option (List ℕ) → Round
checked none = malformed
checked (some rest) = goes_on rest

-- `if (!s.empty()) target = stream->WriteBytesMaybeAliased(field, s, target)`
abbrev pub bytes_field : Runtime → ℕ → List ℕ → List ℕ
bytes_field r field [] = []
bytes_field r field (b ∷ bs) = r.write_bytes field (b ∷ bs)

-- `if (x != 0) target = WriteUInt32ToArray(field, x, target)`
abbrev pub uint32_field : Runtime → ℕ → ℕ → List ℕ
uint32_field r field zero = []
uint32_field r field (suc value) = r.write_uint32 field (suc value)

-- The label `handle_unusual`, over the unknown fields of the message.
abbrev pub unusual : Runtime → ℕ → List ℕ → List ℕ → List ℕ × Round
unusual r tag input unknown =
    if tag == 0 || tag % 8 == 4 then (unknown, stops) else elim (r.read_unknown tag input) [
      | none ↦ (unknown, malformed)
      | some (field, rest) ↦ (unknown ++ field, goes_on rest)
    ]

-- After a round, with the loop for the next one; the Boolean is `ParseFromString`'s result.
abbrev pub resume {ℓ} :
    {M : Type ℓ} → (List ℕ → M → Option (M × Bool)) → M × Round → Option (M × Bool)
resume next (m, goes_on rest) = next rest m
resume next (m, stops) = some (m, false)
resume next (m, malformed) = some (m, false)

-- After `ReadTag`. A null pointer comes with the tag 0, and fails the check under it.
abbrev pub after_tag {ℓ} :
    {M : Type ℓ}
    → (ℕ → List ℕ → M → M × Round)
    → (List ℕ → M → Option (M × Bool))
    → M
    → Option (ℕ × List ℕ)
    → Option (M × Bool)
after_tag round next m none = some (m, false)
after_tag round next m (some (tag, input)) = resume next (round tag input m)

-- The loop `while (!ctx->Done(&ptr))` over the rounds of a message, for at most so many rounds;
-- `none` says that it has not ended by then. The Boolean says whether the parse went through, which
-- is what `ParseFromString` returns; the message keeps what was read until then.
unfoldable pub parse_loop {ℓ} :
    {M : Type ℓ}
    → (List ℕ → Option (ℕ × List ℕ))
    → (ℕ → List ℕ → M → M × Round)
    → ℕ
    → List ℕ
    → M
    → Option (M × Bool)
parse_loop read_tag round fuel [] m = some (m, true)
parse_loop read_tag round zero (b ∷ bs) m = none
parse_loop read_tag round (suc fuel) (b ∷ bs) m =
    after_tag round (parse_loop read_tag round fuel) m (read_tag (b ∷ bs))

-- What a loop ended in, from a message that was cleared.
abbrev pub ended {ℓ} : {M : Type ℓ} → M → Option (M × Bool) → M × Bool
ended cleared none = (cleared, false)
ended cleared (some out) = out

-- `InlineGreedyStringParser` into the string that `put` sets.
abbrev pub into_bytes {ℓ} : {M : Type ℓ} → Runtime → List ℕ → (List ℕ → M) → M × Round
into_bytes r input put = let (bytes, rest) = r.read_bytes input in (put bytes, checked rest)
