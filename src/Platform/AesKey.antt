-- ===== src/Platform/AesKey.antt =====
-- `Server::GetAESRandStr`. `flag` and `draw` are the values of `std::rand` and of the distribution,
-- one of each for every round.
use security_transmission_pl.Base.Bits.{passes_below, passes_below_sound}
use security_transmission_pl.Base.{
  ℕ, zero, suc, ◌+◌, ◌%◌, ◌≤◌, ◌≡◌, refl, ap, true, none, some, List, [], ◌∷◌, length, get_elem?,
  arith, ◌==◌, if◌then◌else◌, leb, ◌&&◌,
}

-- `AESKeyLen`
pub data AesKeyLen : Type 0 where
  len16 len24 len32 : AesKeyLen

pub key_len : AesKeyLen → ℕ
key_len len16 = 16
key_len len24 = 24
key_len len32 = 32

-- "~`@#$%^&*()_+=-{}[];':"
abbrev special : List ℕ
special =
    126 ∷ 96 ∷ 64 ∷ 35 ∷ 36 ∷ 37 ∷ 94 ∷ 38 ∷ 42 ∷ 40 ∷ 41 ∷ 95 ∷ 43 ∷ 61 ∷ 45 ∷ 123 ∷ 125 ∷ 91 ∷ 93
    ∷ 59 ∷ 39 ∷ 58 ∷ []

-- `buf[i]`, where the index is a remainder by the length.
abbrev special_at : ℕ → ℕ
special_at i = elim (get_elem? special i) [ none ↦ 0 | some c ↦ c ]

-- What a round of the loop appends, for `flag` below 4.
unfoldable pub aes_char : ℕ → ℕ → ℕ
aes_char flag draw =
    if flag == 0
    then draw % 10 + b'0'
    else if flag == 1
    then draw % 26 + b'a'
    else if flag == 2
    then draw % 26 + b'A'
    else special_at (draw % length special)

-- The loop with `n` rounds left, at round `i`.
pub aes_loop : (ℕ → ℕ) → (ℕ → ℕ) → ℕ → ℕ → List ℕ
unfolding aes_char
aes_loop rand draw zero i = []
aes_loop rand draw (suc n) i = aes_char (rand i % 4) (draw i) ∷ aes_loop rand draw n (i + 1)

unfoldable pub get_aes_rand_str : (ℕ → ℕ) → (ℕ → ℕ) → AesKeyLen → List ℕ
unfolding aes_loop key_len
get_aes_rand_str rand draw len = aes_loop rand draw (key_len len) 0

-- Printable, and no space.
abbrev pub AllPrintable : List ℕ → Type 0
AllPrintable [] = Unit {0}
AllPrintable (c ∷ cs) = (33 ≤ c) × (c ≤ 126) × AllPrintable cs

special_printable : passes_below (λ i. leb 33 (special_at i) && leb (special_at i) 126) 22 ≡ true
unfolding passes_below
special_printable = refl

aes_char_printable : (flag draw : ℕ) → (33 ≤ aes_char flag draw) × (aes_char flag draw ≤ 126)
unfolding aes_char
aes_char_printable flag draw = ground (
  arith,
  passes_below_sound (λ i. leb 33 (special_at i) && leb (special_at i) 126) 22 (draw % 22)
      (omega arith) special_printable,
)

aes_loop_lem :
    (rand draw : ℕ → ℕ) (n i : ℕ)
    → (length (aes_loop rand draw n i) ≡ n) × AllPrintable (aes_loop rand draw n i)
unfolding aes_loop
aes_loop_lem rand draw zero i = (refl, tt)
aes_loop_lem rand draw (suc n) i =
    let (l, p) = aes_loop_lem rand draw n (i + 1) in
    let (lo, hi) = aes_char_printable (rand i % 4) (draw i) in (ap suc l, (lo, hi, p))

-- Whatever the random values are, the key has the length that was asked for, one byte for each
-- round, and all of its bytes are printable characters.
pub get_aes_rand_str_lem :
    (rand draw : ℕ → ℕ) (len : AesKeyLen)
    → (length (get_aes_rand_str rand draw len) ≡ key_len len)
      × AllPrintable (get_aes_rand_str rand draw len)
unfolding get_aes_rand_str
get_aes_rand_str_lem rand draw len = aes_loop_lem rand draw (key_len len) 0
