-- ===== src/Platform/BaseShm.antt =====
-- include/base_shm.h: a shared memory object, named in the system, with the region that is mapped.
-- boost::interprocess is a parameter.
use security_transmission_pl.Base.{
  ℕ, ◌+◌, ◌≡◌, refl, sym, ap, arith, ◌∙◌, Bool, List, replicate, length,
}
use security_transmission_pl.Base.Result.{Result, ok, throws, undefined, ◌>>=◌}

-- The objects of the system, and what boost does with them by their names.
pub record Interprocess (Objects : Type 0) : Type 0 where
  pub open_only : List ℕ → Objects → Result Objects
  pub create_only : List ℕ → Objects → Result Objects
  pub truncate_object : List ℕ → ℕ → Objects → Result Objects
  pub remove_object : List ℕ → Objects → Bool × Objects
  -- The bytes of an object, as far as it reaches.
  pub read_object : List ℕ → Objects → List ℕ
  pub write_object : List ℕ → List ℕ → Objects → Objects

-- The object's name, and the size of the region that is mapped.
pub record BaseShm : Type 0 where
  pub shm : List ℕ
  pub map_size : ℕ

module _ {Objects : Type 0} (x : Interprocess Objects) where
  -- The region of an object in its present size.
  abbrev pub mapped : List ℕ → Objects → BaseShm
  mapped name o = record { shm = name; map_size = length (x.read_object name o) }

  -- `BaseShm(name)`
  unfoldable pub open_shm : List ℕ → Objects → Result (BaseShm × Objects)
  open_shm name o = do o₁ ← x.open_only name o; ok (mapped name o₁, o₁)

  -- `BaseShm(name, length)`
  unfoldable pub create_shm : List ℕ → ℕ → Objects → Result (BaseShm × Objects)
  create_shm name size o = do
    o₁ ← x.create_only name o
    o₂ ← x.truncate_object name size o₁
    ok (mapped name o₂, x.write_object name (replicate size 0) o₂)

  -- `Truncate`, on the object but not on the region.
  unfoldable pub truncate : ℕ → BaseShm → Objects → Result (BaseShm × Objects)
  truncate more s o = do o₁ ← x.truncate_object s.shm (s.map_size + more) o; ok (s, o₁)

  -- `DeleteShm`
  unfoldable pub delete_shm : BaseShm → Objects → Bool × Objects
  delete_shm s o = x.remove_object s.shm o

  -- `~BaseShm`
  unfoldable pub destroy_shm : BaseShm → Objects → Objects
  destroy_shm s o = (x.remove_object s.shm o).1

  unfoldable pub get_name : BaseShm → List ℕ
  get_name s = s.shm

  unfoldable pub region_size : BaseShm → ℕ
  region_size s = s.map_size

  -- What boost documents of `truncate`: the object has the new size afterwards.
  abbrev pub SetsSize : Type 0
  SetsSize =
      (name : List ℕ) (size : ℕ) (o o' : Objects)
      → x.truncate_object name size o ≡ ok o'
      → length (x.read_object name o') ≡ size

  abbrev value : {A : Type 0} → A → Result A → A
  value a (ok b) = b
  value a (throws e) = a
  value a undefined = a

  abbrev with_region : BaseShm → Objects → Result (BaseShm × Objects)
  with_region s o = ok (s, o)

  truncate_lem :
      (n : ℕ) (s s' : BaseShm) (o o' : Objects)
      → SetsSize
      → (r : Result Objects) → x.truncate_object s.shm (s.map_size + n) o ≡ r
      → (r >>= with_region s) ≡ ok (s', o')
      → (s' ≡ s) × (length (x.read_object s.shm o') ≡ s.map_size + n)
  truncate_lem n s s' o o' sets (ok o₁) t e =
      let both = ap (value (s, o₁)) e in
      (
        sym (ap (λ p. p.0) both),
        ap (λ p. length (x.read_object s.shm p)) (sym (ap (λ p. p.1) both))
            ∙ sets s.shm (s.map_size + n) o o₁ t,
      )
  truncate_lem n s s' o o' sets (throws y) t e = absurd (ground (arith, e))
  truncate_lem n s s' o o' sets undefined t e = absurd (ground (arith, e))

  -- Of two extensions that both succeed only the second counts: the object then has the size of the
  -- region and the second addition, and the region is as before.
  pub truncate_twice :
      (n m : ℕ) (s s₁ s₂ : BaseShm) (o o₁ o₂ : Objects)
      → SetsSize
      → truncate n s o ≡ ok (s₁, o₁)
      → truncate m s₁ o₁ ≡ ok (s₂, o₂)
      → (length (x.read_object (get_name s₂) o₂) ≡ region_size s + m)
        × (region_size s₂ ≡ region_size s)
  unfolding truncate get_name region_size
  truncate_twice n m s s₁ s₂ o o₁ o₂ sets e₁ e₂ =
      let (same, _) = truncate_lem n s s₁ o o₁ sets _ refl e₁ in
      let (same', size) = truncate_lem m s₁ s₂ o₁ o₂ sets _ refl e₂ in
      (
        ap (λ t. length (x.read_object t.shm o₂)) same' ∙ size ∙ ap (λ t. t.map_size + m) same,
        ap (λ t. t.map_size) (same' ∙ same),
      )
