-- ===== src/Crypto/Hash/Laws.antt =====
-- What a client of the hash can rely on.
use security_transmission_pl.Base.{
  ℕ, ◌+◌, ◌-◌, ◌*◌, ◌/◌, ◌%◌, ◌<◌, ◌≡◌, ◌↔◌, refl, sym, ap, ap₂, ◌∙◌, List, [], ◌∷◌, ◌++◌, length,
  map, length-append, arith, ltb, if◌then◌else◌,
}
use security_transmission_pl.Crypto.Hash.{
  HashType, sha256_type, sha384_type, sha512_type, Hash, new, update, hex, hex_digit, final,
  length_of, length_value,
}

-- The results of a hash function are bytes.
abbrev pub AllBytes : List ℕ → Type 0
AllBytes [] = Unit {0}
AllBytes (b ∷ bs) = (b < 256) × AllBytes bs

length-hex : (bs : List ℕ) → length (hex bs) ≡ 2 * length bs
unfolding hex
length-hex [] = refl
length-hex (b ∷ bs) = omega (arith, length-hex bs)

-- The value of a digit.
digit_value : ℕ → ℕ
digit_value c = if ltb c b'a' then c - b'0' else c - b'a' + 10

-- The bytes that hexadecimal digits stand for; a digit without a partner is dropped.
pub unhex : List ℕ → List ℕ
unhex [] = []
unhex (c ∷ []) = []
unhex (c ∷ d ∷ cs) = (digit_value c * 16 + digit_value d) ∷ unhex cs

digit_value-hex_digit : (n : ℕ) → n < 16 → digit_value (hex_digit n) ≡ n
unfolding digit_value
digit_value-hex_digit n h = ground arith

unhex-hex : (bs : List ℕ) → AllBytes bs → unhex (hex bs ++ 0 ∷ []) ≡ bs
unfolding unhex hex
unhex-hex [] v = refl
unhex-hex (b ∷ bs) (small, rest) =
    ap₂ ◌∷◌
      (omega (
        arith,
        digit_value-hex_digit (b / 16) (omega arith),
        digit_value-hex_digit (b % 16) (omega arith),
      ))
      (unhex-hex bs rest)

-- A call of `Update` or `Final` on one object.
pub data Call : Type 0 where
  update_call : List ℕ → Call
  final_call : Call

-- The bytes between one `Final` and the one before it, behind those at hand.
pub blocks : List ℕ → List Call → List (List ℕ)
blocks bytes [] = []
blocks bytes (update_call datas ∷ calls) = blocks (bytes ++ datas) calls
blocks bytes (final_call ∷ calls) = bytes ∷ blocks [] calls

-- Texts of so many characters.
abbrev pub AllOfLength : ℕ → List (List ℕ) → Type 0
AllOfLength n [] = Unit {0}
AllOfLength n (s ∷ ss) = (length s ≡ n) × AllOfLength n ss

module _ (digest : HashType → List ℕ → List ℕ) where
  -- What the calls of `Final` return, one after the other.
  pub results : List Call → Hash → List (List ℕ)
  results [] h = []
  results (update_call datas ∷ calls) h = results calls (update datas h)
  results (final_call ∷ calls) h = let (s, h') = final digest h in s ∷ results calls h'

  -- An object of a type, whose context is set up for that type and has absorbed some bytes.
  abbrev fed : HashType → List ℕ → Hash
  fed t bytes = record { hash_type = t; md_ctx = record { algorithm = t; absorbed = bytes } }

  new-fed : (t : HashType) → new t ≡ fed t []
  unfolding new
  new-fed sha256_type = refl
  new-fed sha384_type = refl
  new-fed sha512_type = refl

  -- `Final` sets the context up for the type that the object has.
  final-fed :
      (t : HashType) (bytes : List ℕ)
      → final digest (fed t bytes) ≡ (hex (digest t bytes) ++ 0 ∷ [], fed t [])
  unfolding final
  final-fed sha256_type bytes = refl
  final-fed sha384_type bytes = refl
  final-fed sha512_type bytes = refl

  module _
      (sized : (t : HashType) (bs : List ℕ) → length (digest t bs) ≡ length_value (length_of t))
      (bytes : (t : HashType) (bs : List ℕ) → AllBytes (digest t bs)) where
    -- For a digest of bytes, two results of `Final` are equal exactly when the digests are: the text
    -- form loses nothing.
    pub final-eq_iff :
        (g h : Hash)
        → ((final digest g).0 ≡ (final digest h).0) ↔ (
            digest g.md_ctx.algorithm g.md_ctx.absorbed
            ≡ digest h.md_ctx.algorithm h.md_ctx.absorbed)
    unfolding final
    final-eq_iff g h = (
      λ e.
          sym (unhex-hex (digest g.md_ctx.algorithm g.md_ctx.absorbed) (bytes _ _))
          ∙ ap unhex e
          ∙ unhex-hex (digest h.md_ctx.algorithm h.md_ctx.absorbed) (bytes _ _),
      λ e. rw e,
    )

    length-text :
        (t : HashType) (bs : List ℕ)
        → length (hex (digest t bs) ++ 0 ∷ []) ≡ 2 * length_value (length_of t) + 1
    length-text t bs =
        omega
          (arith, length-append (hex (digest t bs)) (0 ∷ []), length-hex (digest t bs), sized t bs)

    results-fed :
        (t : HashType) (calls : List Call) (bs : List ℕ)
        → (map unhex (results calls (fed t bs)) ≡ map (digest t) (blocks bs calls))
          × AllOfLength (2 * length_value (length_of t) + 1) (results calls (fed t bs))
    unfolding results blocks update
    results-fed t [] bs = (refl, tt)
    results-fed t (update_call datas ∷ calls) bs = results-fed t calls (bs ++ datas)
    results-fed t (final_call ∷ calls) bs =
        let (read, long) = results-fed t calls [] in
        rw (final-fed t bs)
          (ap₂ ◌∷◌ (unhex-hex (digest t bs) (bytes t bs)) read, (length-text t bs, long))

    -- In any sequence of calls of `Update` and `Final` on one object, with a digest of bytes that has
    -- the length of its type: each result of `Final` is two hexadecimal digits for each byte of the
    -- digest and one character more, and read as digits it is the digest of the object's type, of
    -- the bytes that `Update` was given since the `Final` before, in their order.
    pub results-blocks :
        (t : HashType) (calls : List Call)
        → (map unhex (results calls (new t)) ≡ map (digest t) (blocks [] calls))
          × AllOfLength (2 * length_value (length_of t) + 1) (results calls (new t))
    results-blocks t calls = rw (new-fed t) (results-fed t calls [])
