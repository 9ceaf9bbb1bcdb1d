-- ===== src/Platform/SeckeyShm.antt =====
-- include/seckey_shm.hpp, and the node that include/struct_seckey.h keeps in it. The mapped region
-- is the array of its slots; an index that the code reads outside the array is undefined, `none`.
-- A pointer to a slot is the slot's index.
pub mod Table
use security_transmission_pl.Base.{
  ℕ, zero, suc, ◌+◌, Bool, true, false, Option, none, some, List, [], ◌∷◌, replicate, get_elem?,
  if◌then◌else◌, ◌==◌, ◌>>=◌,
}

pub record SeckeyShm (T : Type 0) : Type 0 where
  pub arr : List T
  pub num_node : ℕ

-- `arr[i] = x`
abbrev pub set_elem {ℓ} : {A : Type ℓ} → List A → ℕ → A → Option (List A)
set_elem [] i x = none
set_elem (y ∷ ys) zero x = some (x ∷ ys)
set_elem (y ∷ ys) (suc i) x = do zs ← set_elem ys i x; some (y ∷ zs)

module _ {T : Type 0} (max_node_num : ℕ) where
  -- A region that was just created; `blank` is what zeroed memory is as a `T`.
  unfoldable pub new_shm : T → SeckeyShm T
  new_shm blank = record { arr = replicate max_node_num blank; num_node = 0 }

  unfoldable pub max_node_num_of : SeckeyShm T → ℕ
  max_node_num_of s = max_node_num

  unfoldable pub reset : SeckeyShm T → SeckeyShm T
  reset s = record s { num_node = 0 }

  -- The loop of `Find` with `left` rounds left, at the slot `i`.
  unfoldable pub find_loop : (T → T → Bool) → T → List T → ℕ → ℕ → Option (Option ℕ)
  find_loop h target arr zero i = some none
  find_loop h target arr (suc left) i =
      let rest = find_loop h target arr left (suc i) in
      get_elem? arr i >>= λ x. if h target x then some (some i) else rest

  -- `Find` with the comparison `h`; `none` inside is the null pointer.
  unfoldable pub find_with : T → (T → T → Bool) → SeckeyShm T → Option (Option ℕ)
  find_with target h s = find_loop h target s.arr s.num_node 0

  -- `Find` with the type's own `==`
  unfoldable pub find : (T → T → Bool) → T → SeckeyShm T → Option (Option ℕ)
  find equal target s = find_loop equal target s.arr s.num_node 0

  unfoldable pub write : T → SeckeyShm T → Option (Bool × SeckeyShm T)
  write target s =
      let written = do
        arr ← set_elem s.arr s.num_node target
        some (true, record { arr = arr; num_node = s.num_node + 1 })
      in if s.num_node == max_node_num then some (false, s) else written

-- `ShmNodeSeckey`, whose `==` looks at the number only.
pub record ShmNodeSeckey : Type 0 where
  pub status : Bool
  pub seckey_id : ℕ
  pub client_id : List ℕ
  pub server_id : List ℕ
  pub seckey : List ℕ

unfoldable pub same_seckey : ShmNodeSeckey → ShmNodeSeckey → Bool
same_seckey a b = a.seckey_id == b.seckey_id

-- A node as its initializers make it, which is also what zeroed memory reads as.
abbrev pub blank_node : ShmNodeSeckey
blank_node = record {
  status = false;
  seckey_id = 0;
  client_id = replicate 12 0;
  server_id = replicate 12 0;
  seckey = replicate 129 0;
}
