-- ===== src/Net/TsQueue/Order.antt =====
-- The order in which a queue hands its items out.
use mathlib.Core.List.{reverse-append, reverse-reverse, append_assoc, append-nil}
use security_transmission_pl.Base.{
  ℕ, zero, suc, ◌+◌, ◌≡◌, ◌↔◌, refl, ap, ◌∙◌, true, Option, none, some, List, [], ◌∷◌, ◌++◌,
  reverse, length, arith, length-append, length-reverse, ◌≢◌, ◌>>=◌,
}
use security_transmission_pl.Net.TsQueue.{
  TsQueue, uncons, new, front, back, pop_front, pop_back, push_back, push_front, empty, size,
}

module _ {A : Type 0} where
  -- Items put in one after another.
  abbrev pub push_all : TsQueue A → List A → TsQueue A
  push_all q [] = q
  push_all q (x ∷ xs) = push_all (push_back q x) xs

  -- `n` items taken out one after another.
  abbrev pub pop_all : ℕ → TsQueue A → Option (List A × TsQueue A)
  pop_all zero q = some ([], q)
  pop_all (suc n) q = do (x, q') ← pop_front q; (xs, q'') ← pop_all n q'; some (x ∷ xs, q'')

  push_all-append : (q : TsQueue A) (xs : List A) → (push_all q xs).deq_queue ≡ q.deq_queue ++ xs
  unfolding push_back
  push_all-append q [] = simp append-nil
  push_all-append q (x ∷ xs) =
      rw (push_all-append (push_back q x) xs) (append_assoc q.deq_queue (x ∷ []) xs)

  pop_all-length : (xs : List A) → pop_all (length xs) (record { deq_queue = xs }) ≡ some (xs, new)
  unfolding pop_front new
  pop_all-length [] = refl
  pop_all-length (x ∷ xs) = rw (pop_all-length xs)

  -- First in, first out: whatever the queue holds comes first, then the items in the order in
  -- which they were put in, and then the queue is empty.
  pub pop_all-push_all :
      (q : TsQueue A) (xs : List A)
      → pop_all (size q + length xs) (push_all q xs) ≡ some (q.deq_queue ++ xs, new)
  unfolding size
  pop_all-push_all q xs = rw (← length-append q.deq_queue xs) (
      ap (λ ys. pop_all (length (q.deq_queue ++ xs)) (record { deq_queue = ys }))
        (push_all-append q xs)
      ∙ pop_all-length (q.deq_queue ++ xs))

  -- Each end is a stack of its own.
  pub pop_ends :
      (q : TsQueue A) (x : A)
      → (pop_front (push_front q x) ≡ some (x, q)) × (pop_back (push_back q x) ≡ some (x, q))
  unfolding pop_front pop_back push_front push_back
  pop_ends q x = (refl, rw (reverse-append q.deq_queue (x ∷ []), reverse-reverse q.deq_queue))

  uncons-reverse : (x : A) (xs ys : List A) → reverse (x ∷ xs) ≡ ys → uncons ys ≢ none
  unfolding uncons
  uncons-reverse x xs [] e h = absurd (omega (arith, ap length e, length-reverse (x ∷ xs)))
  uncons-reverse x xs (y ∷ ys) e h = cc

  back_of_cons : (x : A) (xs : List A) → uncons (reverse (x ∷ xs)) ≢ none
  back_of_cons x xs = uncons-reverse x xs (reverse (x ∷ xs)) refl

  -- An access to an end of a queue is undefined exactly when `empty` holds.
  pub ends-eq-none_iff :
      (q : TsQueue A)
      → ((pop_front q ≡ none) ↔ (empty q ≡ true))
        × ((front q ≡ none) ↔ (empty q ≡ true))
        × ((pop_back q ≡ none) ↔ (empty q ≡ true))
        × ((back q ≡ none) ↔ (empty q ≡ true))
  unfolding pop_front front pop_back back empty
  ends-eq-none_iff q = ends q.deq_queue
    where
      ends :
          (xs : List A)
          → let p : TsQueue A = record { deq_queue = xs } in
            ((pop_front p ≡ none) ↔ (empty p ≡ true))
            × ((front p ≡ none) ↔ (empty p ≡ true))
            × ((pop_back p ≡ none) ↔ (empty p ≡ true))
            × ((back p ≡ none) ↔ (empty p ≡ true))
      ends [] = ground arith
      ends (x ∷ xs) = ground (arith, back_of_cons x xs)
