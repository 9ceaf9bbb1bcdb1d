-- ===== src/Proto/Wire/Fuel.antt =====
-- The parse loop ends, after at most as many rounds as the input has bytes.
use security_transmission_pl.Base.{
  ℕ, zero, suc, ◌≤◌, ◌<◌, ◌≡◌, refl, sym, ap, ◌∙◌, Bool, true, false, ◌||◌, Option, none, some,
  List, [], ◌∷◌, ◌++◌, length, arith, if◌then◌else◌, ◌==◌, ◌%◌, ◌/◌, ◌&&◌,
}
use security_transmission_pl.Proto.Runtime.{Runtime, IsWireFormat}
use security_transmission_pl.Proto.Wire.{
  Round, goes_on, stops, malformed, checked, unusual, resume, after_tag, parse_loop, ended,
  into_bytes,
}
use security_transmission_pl.Proto.Wire.Request
use security_transmission_pl.Proto.Wire.Respond

module _ {ℓ} {M : Type ℓ} where
  -- A round that goes on does so with no more than it was given.
  abbrev pub Shrinks : List ℕ → M × Round → Type ℓ
  Shrinks input out = (m : M) (rest : List ℕ) → out ≡ (m, goes_on rest) → length rest ≤ length input

  if-Shrinks :
      (b : Bool) (input : List ℕ) (x y : M × Round)
      → Shrinks input x
      → Shrinks input y
      → Shrinks input (if b then x else y)
  if-Shrinks true input x y hx hy = hx
  if-Shrinks false input x y hx hy = hy

  read-Shrinks :
      {A : Type 0} (input : List ℕ) (put : A → M) (out : A × Option (List ℕ))
      → ((bytes : A) (rest : List ℕ) → out ≡ (bytes, some rest) → length rest ≤ length input)
      → Shrinks input (put out.0, checked out.1)
  read-Shrinks input put (bytes, none) h m rest e = ground (arith, e)
  read-Shrinks input put (bytes, some r) h m rest e = ground (arith, e, h bytes r refl)

  into_bytes-Shrinks :
      (r : Runtime) (input : List ℕ) (put : List ℕ → M)
      → IsWireFormat r
      → Shrinks input (into_bytes r input put)
  into_bytes-Shrinks r input put w =
      read-Shrinks input put (r.read_bytes input) (w.bytes_consumes input)

  unusual-Shrinks :
      (ends : Bool) (input unknown : List ℕ) (put : List ℕ → M) (read : Option (List ℕ × List ℕ))
      → ((field rest : List ℕ) → read ≡ some (field, rest) → length rest ≤ length input)
      → let out : List ℕ × Round = if ends then (unknown, stops) else elim read [
        | none ↦ (unknown, malformed)
        | some (field, rest) ↦ (unknown ++ field, goes_on rest)
      ] in
        Shrinks input (put out.0, out.1)
  unusual-Shrinks true input unknown put read h m rest e = ground (arith, e)
  unusual-Shrinks false input unknown put none h m rest e = ground (arith, e)
  unusual-Shrinks false input unknown put (some (field, r)) h m rest e =
      ground (arith, e, h field r refl)

  unknown-Shrinks :
      (r : Runtime) (tag : ℕ) (input unknown : List ℕ) (put : List ℕ → M)
      → IsWireFormat r
      → Shrinks input (let (unknown', next) = unusual r tag input unknown in (put unknown', next))
  unknown-Shrinks r tag input unknown put w =
      unusual-Shrinks (tag == 0 || tag % 8 == 4) input unknown put (r.read_unknown tag input)
        (w.unknown_consumes input tag)

  -- Two runs of a loop end, and in the same.
  abbrev End : Option (M × Bool) → Option (M × Bool) → Type ℓ
  End a b = (out : M × Bool) × (a ≡ some out) × (b ≡ some out)

  resume-End :
      (f g : List ℕ → M → Option (M × Bool)) (out : M × Round)
      → ((m : M) (rest : List ℕ) → out ≡ (m, goes_on rest) → End (f rest m) (g rest m))
      → End (resume f out) (resume g out)
  resume-End f g (m, goes_on rest) h = h m rest refl
  resume-End f g (m, stops) h = ((m, false), refl, refl)
  resume-End f g (m, malformed) h = ((m, false), refl, refl)

  module _ (read_tag : List ℕ → Option (ℕ × List ℕ)) (round : ℕ → List ℕ → M → M × Round)
      (tag_consumes : (input : List ℕ) (tag : ℕ) (rest : List ℕ)
        → read_tag input ≡ some (tag, rest)
        → length rest < length input)
      (shrinks : (tag : ℕ) (input : List ℕ) (m : M) → Shrinks input (round tag input m)) where
    after_tag-End :
        (f g : List ℕ → M → Option (M × Bool)) (m : M) (n : ℕ) (o : Option (ℕ × List ℕ))
        → ((tag : ℕ) (input : List ℕ) → o ≡ some (tag, input) → length input ≤ n)
        → ((m' : M) (rest : List ℕ) → length rest ≤ n → End (f rest m') (g rest m'))
        → End (after_tag round f m o) (after_tag round g m o)
    after_tag-End f g m n none small ends = ((m, false), refl, refl)
    after_tag-End f g m n (some (tag, input)) small ends =
        resume-End f g (round tag input m) (λ m' rest e.
          ends m' rest (omega (arith, shrinks tag input m m' rest e, small tag input refl)))

    parse_loop-End :
        (n k : ℕ) (input : List ℕ) (m : M)
        → length input ≤ n
        → n ≤ k
        → End (parse_loop read_tag round n input m) (parse_loop read_tag round k input m)
    unfolding parse_loop
    parse_loop-End zero zero [] m h h' = ((m, true), refl, refl)
    parse_loop-End zero (suc k) [] m h h' = ((m, true), refl, refl)
    parse_loop-End (suc n) zero [] m h h' = ((m, true), refl, refl)
    parse_loop-End (suc n) (suc k) [] m h h' = ((m, true), refl, refl)
    parse_loop-End zero k (b ∷ bs) m h h' = absurd (omega arith)
    parse_loop-End (suc n) zero (b ∷ bs) m h h' = absurd (omega arith)
    parse_loop-End (suc n) (suc k) (b ∷ bs) m h h' =
        after_tag-End (parse_loop read_tag round n) (parse_loop read_tag round k) m n
          (read_tag (b ∷ bs)) (λ tag input e. omega (arith, tag_consumes (b ∷ bs) tag input e))
          (λ m' rest short. parse_loop-End n k rest m' short (omega arith))

    -- What the loop ends in is what a parse with a round for each byte gives.
    parse_loop-ended :
        (k : ℕ) (input : List ℕ) (m : M)
        → length input ≤ k
        → parse_loop read_tag round k input m
          ≡ some (ended m (parse_loop read_tag round (length input) input m))
    parse_loop-ended k input m h =
        let (out, e, e') = parse_loop-End (length input) k input m (omega arith) h in
        e' ∙ sym (ap (λ o. some (ended m o)) e)

module _ (r : Runtime) (w : IsWireFormat r) where
  request-Shrinks :
      (tag : ℕ) (input : List ℕ) (m : Request.RequestMsg)
      → Shrinks input (Request.round r tag input m)
  unfolding Request.round
  request-Shrinks tag input m =
      if-Shrinks (tag / 8 == 1 && tag % 256 == 10) input _ _
        (into_bytes-Shrinks r input (λ s. record m { client_id = s }) w)
        (if-Shrinks (tag / 8 == 2 && tag % 256 == 18) input _ _
          (into_bytes-Shrinks r input (λ s. record m { server_id = s }) w)
          (if-Shrinks (tag / 8 == 3 && tag % 256 == 26) input _ _
            (into_bytes-Shrinks r input (λ s. record m { sign = s }) w)
            (if-Shrinks (tag / 8 == 4 && tag % 256 == 34) input _ _
              (into_bytes-Shrinks r input (λ s. record m { content = s }) w)
              (unknown-Shrinks r tag input m.unknown (λ u. record m { unknown = u }) w))))

  respond-Shrinks :
      (tag : ℕ) (input : List ℕ) (m : Respond.RespondMsg)
      → Shrinks input (Respond.round r tag input m)
  unfolding Respond.round
  respond-Shrinks tag input m =
      if-Shrinks (tag / 8 == 1 && tag % 256 == 8) input _ _
        (read-Shrinks input (λ v. record m { seckey_id = v }) (r.read_uint32 input)
          (w.uint32_consumes input))
        (if-Shrinks (tag / 8 == 2 && tag % 256 == 18) input _ _
          (into_bytes-Shrinks r input (λ s. record m { client_id = s }) w)
          (if-Shrinks (tag / 8 == 3 && tag % 256 == 26) input _ _
            (into_bytes-Shrinks r input (λ s. record m { server_id = s }) w)
            (if-Shrinks (tag / 8 == 4 && tag % 256 == 34) input _ _
              (into_bytes-Shrinks r input (λ s. record m { content = s }) w)
              (unknown-Shrinks r tag input m.unknown (λ u. record m { unknown = u }) w))))

  -- Over a wire format that can be read back, the parse loop of a request and that of a response end
  -- on every input, well-formed or not, after at most as many rounds as the input has bytes: with
  -- that many, and with more, the loop has ended, in the result of the parse.
  pub parse_loop-ends :
      (k : ℕ) (input : List ℕ)
      → length input ≤ k
      → (parse_loop r.read_tag (Request.round r) k input Request.cleared
          ≡ some (Request.parse r input))
        × (parse_loop r.read_tag (Respond.round r) k input Respond.cleared
            ≡ some (Respond.parse r input))
  unfolding Request.parse Respond.parse
  parse_loop-ends k input h = (
    parse_loop-ended r.read_tag (Request.round r) w.tag_consumes request-Shrinks k input
        Request.cleared h,
    parse_loop-ended r.read_tag (Respond.round r) w.tag_consumes respond-Shrinks k input
        Respond.cleared h,
  )
