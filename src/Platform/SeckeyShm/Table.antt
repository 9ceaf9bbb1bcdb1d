-- ===== src/Platform/SeckeyShm/Table.antt =====
-- include/seckey_shm.hpp against a list of nodes.
use mathlib.Core.List.{append_assoc}
use security_transmission_pl.Base.{
  ℕ, suc, ◌+◌, ◌≡◌, refl, sym, ap, ap₂, ◌∙◌, Bool, true, false, Option, none, some, List, [], ◌∷◌,
  ◌++◌, length, length-append, replicate, length-replicate, get_elem?, arith, ltb, ◌==◌,
  if◌then◌else◌, ◌>>=◌, inl, inr, Bool-cases,
}
use security_transmission_pl.Platform.SeckeyShm.{
  SeckeyShm, set_elem, new_shm, reset, find, find_loop, find_with, write,
}

-- A call of one of the operations, and its answer.
pub data Call (T : Type 0) : Type 0 where
  resets : Call T
  writes : T → Call T
  finds : T → Call T
  finds_with : T → (T → T → Bool) → Call T

pub data Answer : Type 0 where
  finished : Answer
  wrote : Bool → Answer
  found : Option ℕ → Answer

-- The index of the first element that passes a test.
abbrev pub first_index {ℓ} : {A : Type ℓ} → (A → Bool) → List A → Option ℕ
first_index p [] = none
first_index p (x ∷ xs) =
    let rest = first_index p xs in if p x then some 0 else (rest >>= λ i. some (suc i))

module _ {T : Type 0} (max_node_num : ℕ) (equal : T → T → Bool) where
  -- The calls as the code answers them.
  abbrev pub call : Call T → SeckeyShm T → Option (Answer × SeckeyShm T)
  call resets s = some (finished, reset max_node_num s)
  call (writes x) s = write max_node_num x s >>= λ (b, s'). some (wrote b, s')
  call (finds x) s = find max_node_num equal x s >>= λ i. some (found i, s)
  call (finds_with x h) s = find_with max_node_num x h s >>= λ i. some (found i, s)

  abbrev pub calls : List (Call T) → SeckeyShm T → Option (List Answer × SeckeyShm T)
  calls [] s = some ([], s)
  calls (c ∷ cs) s = do (a, s') ← call c s; (answers, s'') ← calls cs s'; some (a ∷ answers, s'')

  -- The same calls on a list of nodes.
  abbrev pub table_call : Call T → List T → Answer × List T
  table_call resets xs = (finished, [])
  table_call (writes x) xs =
      if ltb (length xs) max_node_num then (wrote true, xs ++ x ∷ []) else (wrote false, xs)
  table_call (finds x) xs = (found (first_index (equal x) xs), xs)
  table_call (finds_with x h) xs = (found (first_index (h x) xs), xs)

  abbrev pub table_calls : List (Call T) → List T → List Answer × List T
  table_calls [] xs = ([], xs)
  table_calls (c ∷ cs) xs =
      let (a, xs') = table_call c xs in
      let (answers, xs'') = table_calls cs xs' in (a ∷ answers, xs'')

  -- The array holds the table, then slots of no meaning.
  pub record Holds (s : SeckeyShm T) (xs : List T) : Type 0 where
    pub unused : List T
    pub slots : s.arr ≡ xs ++ unused
    pub counted : s.num_node ≡ length xs
    pub all : length xs + length unused ≡ max_node_num

  get_mid : (xs : List T) (y : T) (zs : List T) → get_elem? (xs ++ y ∷ zs) (length xs) ≡ some y
  get_mid [] y zs = refl
  get_mid (x ∷ xs) y zs = get_mid xs y zs

  set_mid :
      (xs : List T) (y : T) (zs : List T) (x : T)
      → set_elem (xs ++ y ∷ zs) (length xs) x ≡ some (xs ++ x ∷ zs)
  set_mid [] y zs x = refl
  set_mid (w ∷ xs) y zs x = ap (λ o. o >>= λ ws. some (w ∷ ws)) (set_mid xs y zs x)

  shift :
      (n : ℕ) (o : Option ℕ)
      → (o >>= λ i. some (suc n + i)) ≡ ((o >>= λ i. some (suc i)) >>= λ i. some (n + i))
  shift n none = refl
  shift n (some i) = ap some (omega arith)

  unshift : (o : Option ℕ) → (o >>= λ i. some (0 + i)) ≡ o
  unshift none = refl
  unshift (some i) = ap some (omega arith)

  -- The loop after it has passed `seen`.
  find_from :
      (h : T → T → Bool) (x : T) (seen xs unused : List T)
      → find_loop max_node_num h x (seen ++ (xs ++ unused)) (length xs) (length seen)
        ≡ some (first_index (h x) xs >>= λ i. some (length seen + i))
  unfolding find_loop
  find_from h x seen [] unused = refl
  find_from h x seen (y ∷ ys) unused =
      let n : ℕ = length seen in
      let at_y : get_elem? (seen ++ (y ∷ (ys ++ unused))) n ≡ some y =
        get_mid seen y (ys ++ unused) in
      let rest = find_from h x (seen ++ y ∷ []) ys unused in
      let len : length (seen ++ y ∷ []) ≡ suc n = omega (arith, length-append seen (y ∷ [])) in
      let later : find_loop max_node_num h x (seen ++ (y ∷ (ys ++ unused))) (length ys) (suc n)
          ≡ some (first_index (h x) ys >>= λ i. some (suc n + i)) =
        sym (
          ap₂ (λ arr i. find_loop max_node_num h x arr (length ys) i)
            (append_assoc seen (y ∷ []) (ys ++ unused)) len)
        ∙ rest
        ∙ ap (λ k. some (first_index (h x) ys >>= λ i. some (k + i))) len in
      rw at_y (elim (Bool-cases (h x y)) [
        | inl e ↦ rw e (ap (λ k. some (some k)) (omega arith))
        | inr e ↦ rw e (later ∙ ap some (shift n (first_index (h x) ys)))
      ])

  find-Holds :
      (h : T → T → Bool) (x : T) (s : SeckeyShm T) (xs : List T)
      → Holds s xs
      → find_loop max_node_num h x s.arr s.num_node 0 ≡ some (first_index (h x) xs)
  find-Holds h x s xs v =
      ap₂ (λ arr left. find_loop max_node_num h x arr left 0) v.slots v.counted
      ∙ find_from h x [] xs v.unused
      ∙ ap some (unshift (first_index (h x) xs))

  write-Holds :
      (x : T) (s : SeckeyShm T) (xs unused : List T)
      → s.arr ≡ xs ++ unused
      → s.num_node ≡ length xs
      → length xs + length unused ≡ max_node_num
      → let (a, xs') = table_call (writes x) xs in
        (s' : SeckeyShm T) × (call (writes x) s ≡ some (a, s')) × Holds s' xs'
  unfolding write
  write-Holds x s xs [] slots counted all =
      let full : (s.num_node == max_node_num) ≡ true = ground arith in
      let no_room : ltb (length xs) max_node_num ≡ false = ground arith in
      rw full
        (rw no_room (s, refl, record { unused = []; slots = slots; counted = counted; all = all }))
  write-Holds x s xs (y ∷ ys) slots counted all =
      let room : (s.num_node == max_node_num) ≡ false = ground arith in
      let fits : ltb (length xs) max_node_num ≡ true = ground arith in
      let arr : set_elem s.arr s.num_node x ≡ some (xs ++ x ∷ ys) =
        ap₂ (λ a i. set_elem a i x) slots counted ∙ set_mid xs y ys x in
      rw room (
        rw fits (
          record { arr = xs ++ x ∷ ys; num_node = s.num_node + 1 },
          rw arr refl,
          record {
            unused = ys;
            slots = sym (append_assoc xs (x ∷ []) ys);
            counted = omega (arith, counted, length-append xs (x ∷ []));
            all = omega (arith, all, length-append xs (x ∷ []));
          },
        ))

  call_lem :
      (c : Call T) (s : SeckeyShm T) (xs : List T)
      → Holds s xs
      → let (a, xs') = table_call c xs in
        (s' : SeckeyShm T) × (call c s ≡ some (a, s')) × Holds s' xs'
  unfolding reset find find_with
  call_lem resets s xs v = (
    reset max_node_num s,
    refl,
    record {
      unused = s.arr;
      slots = refl;
      counted = refl;
      all = omega (arith, ap length v.slots, length-append xs v.unused, v.all);
    },
  )
  call_lem (writes x) s xs v = write-Holds x s xs v.unused v.slots v.counted v.all
  call_lem (finds x) s xs v =
      (s, ap (λ o. o >>= λ i. some (found i, s)) (find-Holds equal x s xs v), v)
  call_lem (finds_with x h) s xs v =
      (s, ap (λ o. o >>= λ i. some (found i, s)) (find-Holds h x s xs v), v)

  calls_from :
      (cs : List (Call T)) (s : SeckeyShm T) (xs : List T)
      → Holds s xs
      → let (answers, xs') = table_calls cs xs in
        (s' : SeckeyShm T) × (calls cs s ≡ some (answers, s')) × Holds s' xs'
  calls_from [] s xs v = (s, refl, v)
  calls_from (c ∷ cs) s xs v =
      let (s₁, e₁, v₁) = call_lem c s xs v in
      let (s₂, e₂, v₂) = calls_from cs s₁ _ v₁ in (s₂, rw e₁ (rw e₂ refl), v₂)

  -- Any sequence of calls on a new region is defined and answered as by a list of at most
  -- `max_node_num` nodes: a write appends unless the list is full, a search gives the first index
  -- that fits, and a reset empties the list.
  pub calls-table :
      (blank : T) (cs : List (Call T))
      → let (answers, xs) = table_calls cs [] in
        (s : SeckeyShm T) × (calls cs (new_shm max_node_num blank) ≡ some (answers, s)) × Holds s xs
  unfolding new_shm
  calls-table blank cs = calls_from cs (new_shm max_node_num blank) [] (record {
    unused = replicate max_node_num blank;
    slots = refl;
    counted = refl;
    all = omega (arith, length-replicate max_node_num blank);
  })
