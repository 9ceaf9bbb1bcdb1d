-- ===== src/Proto/Wire/Steps.antt =====
-- One field at a time: what the parse loop does with a field that was written.
use security_transmission_pl.Base.{
  ℕ, zero, suc, ◌+◌, ◌*◌, ◌^◌, ◌≤◌, ◌<◌, ◌≡◌, sym, ap, Bool, Option, some, List, [], ◌∷◌, ◌++◌,
  length, arith,
}
use security_transmission_pl.Proto.Runtime.{Runtime, IsWireFormat}
use security_transmission_pl.Proto.Wire.{Round, goes_on, parse_loop, bytes_field, uint32_field}

module _ {ℓ} {M : Type ℓ} (r : Runtime) (round : ℕ → List ℕ → M → M × Round) where
  abbrev loop : ℕ → List ℕ → M → Option (M × Bool)
  loop fuel input m = parse_loop r.read_tag round fuel input m

  -- One round on an input that begins with a tag.
  loop_step :
      (fuel : ℕ) (input : List ℕ) (tag : ℕ) (body rest : List ℕ) (m m' : M)
      → r.read_tag input ≡ some (tag, body)
      → length body < length input
      → round tag body m ≡ (m', goes_on rest)
      → loop (suc fuel) input m ≡ loop fuel rest m'
  unfolding parse_loop
  loop_step fuel [] tag body rest m m' e l h = absurd (omega arith)
  loop_step fuel (b ∷ bs) tag body rest m m' e l h = rw e (rw h)

  -- With fuel for the whole input there is fuel for the rest.
  pub loop_bytes :
      IsWireFormat r
      → (fuel field : ℕ) (bytes rest : List ℕ) (m : M) (put : M → List ℕ → M) → 0 < field
      → field < 16
      → length bytes < 2 ^ 31
      → ((body : List ℕ)
          → r.read_bytes body ≡ (bytes, some rest)
          → round (field * 8 + 2) body m ≡ (put m bytes, goes_on rest))
      → put m [] ≡ m
      → length (bytes_field r field bytes ++ rest) ≤ fuel
      → (fuel' : ℕ) × (length rest ≤ fuel')
        × (loop fuel (bytes_field r field bytes ++ rest) m ≡ loop fuel' rest (put m bytes))
  loop_bytes w fuel field [] rest m put p q small h e f = (fuel, f, ap (loop fuel rest) (sym e))
  loop_bytes w zero field (b ∷ bs) rest m put p q small h e f =
      let (body, t, d) = w.bytes_tag field (b ∷ bs) rest p q small in
      absurd (omega (arith, w.tag_consumes _ _ body t, f))
  loop_bytes w (suc fuel) field (b ∷ bs) rest m put p q small h e f =
      let (body, t, d) = w.bytes_tag field (b ∷ bs) rest p q small in
      (
        fuel,
        omega (arith, w.tag_consumes _ _ _ t, w.bytes_consumes body (b ∷ bs) rest d),
        loop_step fuel _ _ body rest m _ t (w.tag_consumes _ _ _ t) (h body d),
      )

  pub loop_uint32 :
      IsWireFormat r
      → (fuel field value : ℕ) (rest : List ℕ) (m : M) (put : M → ℕ → M) → 0 < field
      → field < 16
      → value < 2 ^ 32
      → ((body : List ℕ)
          → r.read_uint32 body ≡ (value, some rest)
          → round (field * 8) body m ≡ (put m value, goes_on rest))
      → put m 0 ≡ m
      → length (uint32_field r field value ++ rest) ≤ fuel
      → (fuel' : ℕ) × (length rest ≤ fuel')
        × (loop fuel (uint32_field r field value ++ rest) m ≡ loop fuel' rest (put m value))
  loop_uint32 w fuel field zero rest m put p q small h e f = (fuel, f, ap (loop fuel rest) (sym e))
  loop_uint32 w zero field (suc v) rest m put p q small h e f =
      let (body, t, d) = w.uint32_tag field (suc v) rest p q small in
      absurd (omega (arith, w.tag_consumes _ _ body t, f))
  loop_uint32 w (suc fuel) field (suc v) rest m put p q small h e f =
      let (body, t, d) = w.uint32_tag field (suc v) rest p q small in
      (
        fuel,
        omega (arith, w.tag_consumes _ _ _ t, w.uint32_consumes body (suc v) rest d),
        loop_step fuel _ _ body rest m _ t (w.tag_consumes _ _ _ t) (h body d),
      )
