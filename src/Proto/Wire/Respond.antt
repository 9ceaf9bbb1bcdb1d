-- ===== src/Proto/Wire/Respond.antt =====
-- `proto_info::RespondMsg`
use security_transmission_pl.Base.{
  ℕ, zero, suc, ◌/◌, ◌%◌, ◌^◌, ◌<◌, ◌≡◌, refl, ◌∙◌, ap, sym, Bool, true, ◌&&◌, Option, some, List,
  [], ◌++◌, length, arith, ◌==◌, if◌then◌else◌,
}
use security_transmission_pl.Proto.Runtime.{Runtime, IsWireFormat}
use security_transmission_pl.Proto.Wire.{
  Round, bytes_field, uint32_field, checked, into_bytes, unusual, parse_loop, ended,
}
use security_transmission_pl.Proto.Wire.Steps.{loop_bytes, loop_uint32}

pub record RespondMsg : Type 0 where
  pub seckey_id : ℕ
  pub client_id : List ℕ
  pub server_id : List ℕ
  pub content : List ℕ
  pub unknown : List ℕ

-- `Clear`, and a new message
abbrev pub cleared : RespondMsg
cleared = record { seckey_id = 0; client_id = []; server_id = []; content = []; unknown = [] }

module _ (r : Runtime) where
  -- `_InternalSerialize`
  unfoldable pub serialize : RespondMsg → List ℕ
  serialize m =
      uint32_field r 1 m.seckey_id
      ++ (bytes_field r 2 m.client_id
          ++ (bytes_field r 3 m.server_id ++ (bytes_field r 4 m.content ++ m.unknown)))

  -- One round of the loop in `_InternalParse`.
  unfoldable pub round : ℕ → List ℕ → RespondMsg → RespondMsg × Round
  round tag input m =
      if tag / 8 == 1 && tag % 256 == 8
      then (let (value, rest) = r.read_uint32 input in
          (record m { seckey_id = value }, checked rest))
      else if tag / 8 == 2 && tag % 256 == 18
      then into_bytes r input (λ s. record m { client_id = s })
      else if tag / 8 == 3 && tag % 256 == 26
      then into_bytes r input (λ s. record m { server_id = s })
      else if tag / 8 == 4 && tag % 256 == 34
      then into_bytes r input (λ s. record m { content = s })
      else (let (unknown, next) = unusual r tag input m.unknown in
          (record m { unknown = unknown }, next))

  -- `ParseFromString`, which clears the message first. A round takes at least a byte, so that the
  -- input has enough of them for the loop to end.
  unfoldable pub parse : List ℕ → RespondMsg × Bool
  unfolding round
  parse input = ended cleared (parse_loop r.read_tag round (length input) input cleared)

  -- A number and strings that the wire format can hold, and no unknown fields.
  abbrev pub IsWritable : RespondMsg → Type 0
  IsWritable m =
      (m.seckey_id < 2 ^ 32)
      × (length m.client_id < 2 ^ 31)
      × (length m.server_id < 2 ^ 31)
      × (length m.content < 2 ^ 31)
      × (m.unknown ≡ [])

  abbrev loop : ℕ → List ℕ → RespondMsg → Option (RespondMsg × Bool)
  loop = parse_loop r.read_tag round

  loop_done : (fuel : ℕ) (m : RespondMsg) → loop fuel [] m ≡ some (m, true)
  unfolding parse_loop
  loop_done zero m = refl
  loop_done (suc fuel) m = refl

  loop_end :
      (fuel : ℕ) (m : RespondMsg)
      → m.unknown ≡ []
      → loop fuel m.unknown (record m { unknown = [] }) ≡ some (m, true)
  loop_end fuel m u =
      ap (λ rest. loop fuel rest (record m { unknown = [] })) u
      ∙ loop_done fuel (record m { unknown = [] })
      ∙ ap (λ rest. some (record m { unknown = rest }, true)) (sym u)

  -- Over a wire format that can be read back, a response without unknown fields, with strings below
  -- 2 ^ 31 bytes and a number below 2 ^ 32, is parsed back from its serialization.
  pub parse-serialize_respond :
      IsWireFormat r → (m : RespondMsg) → IsWritable m → parse (serialize m) ≡ (m, true)
  unfolding parse serialize round
  parse-serialize_respond w m (c, s, g, d, u) =
      let tail₃ : List ℕ = bytes_field r 4 m.content ++ m.unknown in
      let tail₂ : List ℕ = bytes_field r 3 m.server_id ++ tail₃ in
      let tail₁ : List ℕ = bytes_field r 2 m.client_id ++ tail₂ in
      let m₁ : RespondMsg = record cleared { seckey_id = m.seckey_id } in
      let m₂ : RespondMsg = record m₁ { client_id = m.client_id } in
      let m₃ : RespondMsg = record m₂ { server_id = m.server_id } in
      let (f₁, l₁, e₁) =
        loop_uint32 r round w (length (serialize m)) 1 m.seckey_id tail₁ cleared
          (λ n b. record n { seckey_id = b }) (omega arith) (omega arith) c (λ body h. rw h) refl
          (omega arith) in
      let (f₂, l₂, e₂) =
        loop_bytes r round w f₁ 2 m.client_id tail₂ m₁ (λ n b. record n { client_id = b })
          (omega arith) (omega arith) s (λ body h. rw h) refl l₁ in
      let (f₃, l₃, e₃) =
        loop_bytes r round w f₂ 3 m.server_id tail₃ m₂ (λ n b. record n { server_id = b })
          (omega arith) (omega arith) g (λ body h. rw h) refl l₂ in
      let (f₄, l₄, e₄) =
        loop_bytes r round w f₃ 4 m.content m.unknown m₃ (λ n b. record n { content = b })
          (omega arith) (omega arith) d (λ body h. rw h) refl l₃ in
      ap (ended cleared) (e₁ ∙ e₂ ∙ e₃ ∙ e₄ ∙ loop_end f₄ m u)
