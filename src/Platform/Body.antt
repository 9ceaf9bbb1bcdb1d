-- ===== src/Platform/Body.antt =====
-- The two loops of src/Server.cc that put a string into a message, back to front, and take it out
-- again. `none` is undefined behaviour.
use mathlib.Core.Option.{some-injective}
use mathlib.Core.List.{reverse-cons, reverse-reverse, append_assoc, append-nil, reverse-append}
use security_transmission_pl.Base.{
  ℕ, zero, suc, ◌^◌, ◌≤◌, ◌<◌, ◌≡◌, refl, sym, ap, ◌∙◌, Option, some, List, [], ◌∷◌, ◌++◌, reverse,
  length, length-reverse, get_elem?, take, arith, u32, ◌>>=◌,
}
use security_transmission_pl.Net.Message.{Message, push, pop, size}
use security_transmission_pl.Net.Message.Laws.{pop-append}

take-suc :
    (str : List ℕ) (i : ℕ)
    → i < length str
    → (c : ℕ) × (get_elem? str i ≡ some c) × (take (suc i) str ≡ take i str ++ c ∷ [])
take-suc [] i h = absurd (omega arith)
take-suc (x ∷ xs) zero h = (x, refl, refl)
take-suc (x ∷ xs) (suc i) h = let (c, e, t) = take-suc xs i (omega arith) in (c, e, ap (◌∷◌ x) t)

take_all : (str : List ℕ) → take (length str) str ≡ str
take_all [] = refl
take_all (x ∷ xs) = ap (◌∷◌ x) (take_all xs)

module _ {T : Type 0} where
  size-length : (m : Message T) → size m ≡ length m.body
  unfolding size
  size-length m = refl

  -- `for (auto i = n - 1; i != -1; --i) msg_out << str.at(i);`
  unfoldable pub fill : ℕ → List ℕ → Message T → Option (Message T)
  fill zero str m = some m
  fill (suc i) str m = do c ← get_elem? str i; fill i str (push m (c ∷ []))

  -- `for (i = 0; i != n; ++i) { char c; msg >> c; net_str += c; }`
  unfoldable pub drain : ℕ → Message T → List ℕ → Option (List ℕ × Message T)
  drain zero m net_str = some (net_str, m)
  drain (suc n) m net_str = do (c, m') ← pop m 1; drain n m' (net_str ++ c)

  -- The first `n` bytes of the string go on the body back to front; each push sets the size.
  fill-take :
      (n : ℕ) (str : List ℕ) (m : Message T)
      → n ≤ length str
      → m.header.size ≡ u32 (length m.body)
      → (m' : Message T) × (fill n str m ≡ some m')
        × (m'.body ≡ m.body ++ reverse (take n str))
        × (m'.header.id ≡ m.header.id)
        × (m'.header.size ≡ u32 (length m'.body))
  unfolding fill push
  fill-take zero str m h z = (m, refl, sym (append-nil m.body), refl, z)
  fill-take (suc i) str m h z =
      let (c, e, t) = take-suc str i h in
      let (m', f, b, id, s) = fill-take i str (push m (c ∷ [])) (omega arith) refl in
      let turned : c ∷ reverse (take i str) ≡ reverse (take (suc i) str) =
        sym (ap reverse t ∙ reverse-append (take i str) (c ∷ [])) in
      (
        m',
        rw e f,
        b ∙ append_assoc m.body (c ∷ []) (reverse (take i str)) ∙ ap (◌++◌ m.body) turned,
        id,
        s,
      )

  -- With the reverse of a string on the body, the loop takes out the string.
  drain-reverse :
      (xs : List ℕ) (m : Message T) (net_str : List ℕ)
      → m.body ≡ reverse xs
      → length xs < 2 ^ 64
      → (m' : Message T) × (drain (length xs) m net_str ≡ some (net_str ++ xs, m')) × (m'.body ≡ [])
  unfolding drain
  drain-reverse [] m net_str e h = (m, rw append-nil, e)
  drain-reverse (x ∷ xs) m net_str e h =
      let body : m.body ≡ reverse xs ++ x ∷ [] = e ∙ reverse-cons x xs in
      let fits : size m < 2 ^ 64 =
        omega (arith, ap length e, length-reverse (x ∷ xs), size-length m) in
      let m₁ : Message T = record {
        header = record { id = m.header.id; size = u32 (length (reverse xs)) };
        body = reverse xs;
      } in
      let (m', d, b) = drain-reverse xs m₁ (net_str ++ x ∷ []) refl (omega arith) in
      (
        m',
        rw (pop-append m (reverse xs) (x ∷ []) body fits)
            (d ∙ ap (λ s. some (s, m')) (append_assoc net_str (x ∷ []) xs)),
        b,
      )

  -- Any message can be drained by as many rounds as its body has bytes, and gives its body back to
  -- front.
  pub drain_lem :
      (m : Message T)
      → length m.body < 2 ^ 64
      → (m' : Message T) × (drain (size m) m [] ≡ some (reverse m.body, m'))
  drain_lem m h =
      let (m', d, _) =
        drain-reverse (reverse m.body) m [] (sym (reverse-reverse m.body))
          (omega (arith, length-reverse m.body)) in
      let rounds : length (reverse m.body) ≡ size m =
        omega (arith, length-reverse m.body, size-length m) in
      (m', ap (λ n. drain n m []) (sym rounds) ∙ d)

  -- A string below 2 ^ 64 bytes that was put into an empty message by the one loop is taken out by
  -- the other. The message keeps its id, and its header tells the size of its body in 32 bits.
  pub drain-fill :
      (str : List ℕ) (m : Message T)
      → length str < 2 ^ 64
      → m.body ≡ []
      → m.header.size ≡ 0
      → (m' : Message T) × (m'' : Message T) × (fill (length str) str m ≡ some m')
        × (drain (size m') m' [] ≡ some (str, m''))
        × (m'.header.id ≡ m.header.id)
        × (m'.header.size ≡ u32 (length str))
  drain-fill str m h e z =
      let (m', f, b, id, s) =
        fill-take (length str) str m (omega arith) (omega (arith, ap length e)) in
      let turned : m'.body ≡ reverse str =
        b ∙ ap (λ xs. xs ++ reverse (take (length str) str)) e ∙ ap reverse (take_all str) in
      let (m'', d, _) = drain-reverse str m' [] turned h in
      let long : length m'.body ≡ length str = ap length turned ∙ length-reverse str in
      let rounds : length str ≡ size m' = omega (arith, long, size-length m') in
      (m', m'', f, ap (λ n. drain n m' []) (sym rounds) ∙ d, id, s ∙ ap u32 long)

  -- What the first loop leaves in an empty message.
  pub fill_lem :
      (str : List ℕ) (m m' : Message T)
      → m.body ≡ []
      → m.header.size ≡ 0
      → fill (length str) str m ≡ some m'
      → (m'.body ≡ reverse str)
        × (m'.header.id ≡ m.header.id)
        × (m'.header.size ≡ u32 (length m'.body))
  fill_lem str m m' e z f =
      let (n, f', b, id, s) =
        fill-take (length str) str m (omega arith) (omega (arith, ap length e)) in
      let same : n ≡ m' = some-injective _ _ (sym f' ∙ f) in
      let turned : n.body ≡ reverse str =
        b ∙ ap (λ xs. xs ++ reverse (take (length str) str)) e ∙ ap reverse (take_all str) in
      rw⁻¹ same (turned, id, s)
