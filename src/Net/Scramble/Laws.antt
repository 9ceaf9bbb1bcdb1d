-- ===== src/Net/Scramble/Laws.antt =====
-- What the puzzle keeps of its input: the low 56 bits, since neither mask has the top byte.
use Prim.Native.Nat.{bit_and, bit_or, bit_xor}
use security_transmission_pl.Base.{
  ℕ, zero, suc, ◌+◌, ◌*◌, ◌/◌, ◌%◌, ◌^◌, ◌<◌, ◌≡◌, ◌↔◌, refl, arith, u64, ◌==◌, ==_iff, true, ap,
  ◌∙◌, sym,
}
use security_transmission_pl.Base.Bits.{
  bit_and-zero, bit_and-cut, bit_or-cut, bit_xor-cut, bit_xor-lt, bit_xor_twice, passes_below,
  passes_below_sound,
}
use security_transmission_pl.Net.Scramble.{scramble}

-- The masks over `k` bytes, and what they select.
abbrev high_mask : ℕ → ℕ
high_mask zero = 0
high_mask (suc k) = high_mask k * 2 ^ 8 + 0xF0

abbrev low_mask : ℕ → ℕ
low_mask zero = 0
low_mask (suc k) = low_mask k * 2 ^ 8 + 0x0F

high_nibbles : ℕ → ℕ → ℕ
high_nibbles zero x = 0
high_nibbles (suc k) x = high_nibbles k (x / 256) * 256 + x / 16 % 16

low_nibbles : ℕ → ℕ → ℕ
low_nibbles zero x = 0
low_nibbles (suc k) x = low_nibbles k (x / 256) * 256 + x % 16

-- The nibbles of the low `k` bytes swapped.
swap_nibbles : ℕ → ℕ → ℕ
swap_nibbles zero x = 0
swap_nibbles (suc k) x = swap_nibbles k (x / 256) * 256 + x % 16 * 16 + x / 16 % 16

high_table : passes_below (λ x. bit_and x 0xF0 == x / 16 * 16) 256 ≡ true
unfolding passes_below
high_table = refl

low_table : passes_below (λ x. bit_and x 0x0F == x % 16) 256 ≡ true
unfolding passes_below
low_table = refl

join_table : passes_below (λ x. bit_or (x / 16) (x % 16 * 16) == x % 16 * 16 + x / 16) 256 ≡ true
unfolding passes_below
join_table = refl

from_table : (f g : ℕ → ℕ) (x : ℕ) → passes_below (λ y. f y == g y) 256 ≡ true → x < 256 → f x ≡ g x
from_table f g x table h =
    (==_iff (f x) (g x)).0 (passes_below_sound (λ y. f y == g y) 256 x h table)

bit_and-high_mask : (k x : ℕ) → bit_and x (high_mask k) ≡ high_nibbles k x * 16
unfolding high_nibbles
bit_and-high_mask zero x = bit_and-zero x
bit_and-high_mask (suc k) x =
    let byte : bit_and (x % 256) 0xF0 ≡ x % 256 / 16 * 16 =
      from_table (λ y. bit_and y 0xF0) (λ y. y / 16 * 16) (x % 256) high_table (omega arith) in
    let parts : x / 256 * 2 ^ 8 + x % 256 ≡ x = omega arith in
    let cut : bit_and x (high_mask (suc k))
        ≡ bit_and (x / 256) (high_mask k) * 2 ^ 8 + bit_and (x % 256) 0xF0 =
      rw parts at
        (bit_and-cut 8 (x / 256) (high_mask k) (x % 256) 0xF0 (omega arith) (omega arith)) in
    omega (arith, cut, bit_and-high_mask k (x / 256), byte)

bit_and-low_mask : (k x : ℕ) → bit_and x (low_mask k) ≡ low_nibbles k x
unfolding low_nibbles
bit_and-low_mask zero x = bit_and-zero x
bit_and-low_mask (suc k) x =
    let byte : bit_and (x % 256) 0x0F ≡ x % 256 % 16 =
      from_table (λ y. bit_and y 0x0F) (λ y. y % 16) (x % 256) low_table (omega arith) in
    let parts : x / 256 * 2 ^ 8 + x % 256 ≡ x = omega arith in
    let cut : bit_and x (low_mask (suc k))
        ≡ bit_and (x / 256) (low_mask k) * 2 ^ 8 + bit_and (x % 256) 0x0F =
      rw parts at
        (bit_and-cut 8 (x / 256) (low_mask k) (x % 256) 0x0F (omega arith) (omega arith)) in
    omega (arith, cut, bit_and-low_mask k (x / 256), byte)

bit_or-nibbles : (k x : ℕ) → bit_or (high_nibbles k x) (low_nibbles k x * 16) ≡ swap_nibbles k x
unfolding high_nibbles low_nibbles swap_nibbles
bit_or-nibbles zero x = refl
bit_or-nibbles (suc k) x =
    let high : ℕ = high_nibbles k (x / 256) in
    let low : ℕ = low_nibbles k (x / 256) in
    let byte : bit_or (x % 256 / 16) (x % 256 % 16 * 16) ≡ x % 256 % 16 * 16 + x % 256 / 16 =
      from_table (λ y. bit_or (y / 16) (y % 16 * 16)) (λ y. y % 16 * 16 + y / 16) (x % 256)
        join_table (omega arith) in
    let above : high * 256 + x / 16 % 16 ≡ high * 2 ^ 8 + x % 256 / 16 = omega arith in
    let below : (low * 256 + x % 16) * 16 ≡ low * 16 * 2 ^ 8 + x % 256 % 16 * 16 = omega arith in
    rw (above, below)
      (omega (
        arith,
        bit_or-cut 8 high (low * 16) (x % 256 / 16) (x % 256 % 16 * 16) (omega arith) (omega arith),
        bit_or-nibbles k (x / 256),
        byte,
      ))

low_bytes : ℕ → ℕ → ℕ
low_bytes zero x = 0
low_bytes (suc k) x = low_bytes k (x / 256) * 256 + x % 256

low_bytes-seven : (x : ℕ) → low_bytes 7 x ≡ x % 2 ^ 56
unfolding low_bytes
low_bytes-seven x = omega arith

low_nibbles-lt : (x : ℕ) → low_nibbles 7 x * 16 < 2 ^ 64
unfolding low_nibbles
low_nibbles-lt x = omega arith

swap_nibbles-lt : (x : ℕ) → swap_nibbles 7 x < 2 ^ 56
unfolding swap_nibbles
swap_nibbles-lt x = omega arith

-- Swapping twice gives the low bytes back.
swap_nibbles_twice : (k x : ℕ) → swap_nibbles k (swap_nibbles k x) ≡ low_bytes k x
unfolding swap_nibbles low_bytes
swap_nibbles_twice zero x = refl
swap_nibbles_twice (suc k) x =
    let rest : swap_nibbles (suc k) x / 256 ≡ swap_nibbles k (x / 256) = omega arith in
    rw rest (omega (arith, swap_nibbles_twice k (x / 256)))

-- Only the low bytes count.
swap_nibbles-low_bytes : (k x : ℕ) → swap_nibbles k (low_bytes k x) ≡ swap_nibbles k x
unfolding swap_nibbles low_bytes
swap_nibbles-low_bytes zero x = refl
swap_nibbles-low_bytes (suc k) x =
    let rest : low_bytes (suc k) x / 256 ≡ low_bytes k (x / 256) = omega arith in
    rw rest (omega (arith, swap_nibbles-low_bytes k (x / 256)))

abbrev mixed : ℕ → ℕ
mixed x = swap_nibbles 7 (bit_xor x 0xDEADBEEFC0DECAFE)

scramble_lem : (x : ℕ) → scramble x ≡ bit_xor (mixed x) 0xC0DEFACE12345678
unfolding scramble
scramble_lem x =
    let out : ℕ = bit_xor x 0xDEADBEEFC0DECAFE in
    let shifted : bit_and out 0xF0F0F0F0F0F0F0 / 2 ^ 4 ≡ high_nibbles 7 out =
      omega (arith, bit_and-high_mask 7 out) in
    let wrapped : u64 (bit_and out 0x0F0F0F0F0F0F0F * 2 ^ 4) ≡ low_nibbles 7 out * 16 =
      omega (arith, bit_and-low_mask 7 out, low_nibbles-lt out) in
    rw (shifted, wrapped, bit_or-nibbles 7 out)

-- `scramble` can be undone as far as its input counts.
abbrev unscramble : ℕ → ℕ
unscramble y = bit_xor (swap_nibbles 7 (bit_xor y 0xC0DEFACE12345678)) (0xDEADBEEFC0DECAFE % 2 ^ 56)

bit_xor-low : (x key : ℕ) → bit_xor x key % 2 ^ 56 ≡ bit_xor (x % 2 ^ 56) (key % 2 ^ 56)
bit_xor-low x key =
    let cut : bit_xor (x / 2 ^ 56 * 2 ^ 56 + x % 2 ^ 56) (key / 2 ^ 56 * 2 ^ 56 + key % 2 ^ 56)
        ≡ bit_xor (x / 2 ^ 56) (key / 2 ^ 56) * 2 ^ 56 + bit_xor (x % 2 ^ 56) (key % 2 ^ 56) =
      bit_xor-cut 56 (x / 2 ^ 56) (key / 2 ^ 56) (x % 2 ^ 56) (key % 2 ^ 56) (omega arith)
        (omega arith) in
    let x_parts : x / 2 ^ 56 * 2 ^ 56 + x % 2 ^ 56 ≡ x = omega arith in
    let key_parts : key / 2 ^ 56 * 2 ^ 56 + key % 2 ^ 56 ≡ key = omega arith in
    let whole = rw (x_parts, key_parts) at cut in
    omega (arith, whole, bit_xor-lt 56 (x % 2 ^ 56) (key % 2 ^ 56) (omega arith) (omega arith))

-- The answer is a function of the low 56 bits.
mixed-low : (x : ℕ) → mixed x ≡ swap_nibbles 7 (bit_xor (x % 2 ^ 56) (0xDEADBEEFC0DECAFE % 2 ^ 56))
mixed-low x =
    sym (swap_nibbles-low_bytes 7 (bit_xor x 0xDEADBEEFC0DECAFE))
    ∙ ap (swap_nibbles 7)
        (low_bytes-seven (bit_xor x 0xDEADBEEFC0DECAFE) ∙ bit_xor-low x 0xDEADBEEFC0DECAFE)

unscramble-scramble : (x : ℕ) → unscramble (scramble x) ≡ x % 2 ^ 56
unscramble-scramble x =
    rw
      (
        scramble_lem x,
        bit_xor_twice (mixed x) 0xC0DEFACE12345678,
        swap_nibbles_twice 7 (bit_xor x 0xDEADBEEFC0DECAFE),
        low_bytes-seven (bit_xor x 0xDEADBEEFC0DECAFE),
        bit_xor-low x 0xDEADBEEFC0DECAFE,
      )
      (bit_xor_twice (x % 2 ^ 56) (0xDEADBEEFC0DECAFE % 2 ^ 56))

-- Two inputs get one scrambled value exactly when they agree on the low 56 bits.
pub scramble-eq_iff : (x y : ℕ) → (scramble x ≡ scramble y) ↔ (x % 2 ^ 56 ≡ y % 2 ^ 56)
scramble-eq_iff x y = (
  λ e. sym (unscramble-scramble x) ∙ ap unscramble e ∙ unscramble-scramble y,
  λ e. rw (scramble_lem x, scramble_lem y, mixed-low x, mixed-low y, e),
)

-- The top byte of every answer is 0xC0.
pub scramble_top : (x : ℕ) → scramble x / 2 ^ 56 ≡ 0xC0
scramble_top x =
    let low : ℕ = bit_xor (mixed x) (0xC0DEFACE12345678 % 2 ^ 56) in
    let small : mixed x < 2 ^ 56 = swap_nibbles-lt (bit_xor x 0xDEADBEEFC0DECAFE) in
    let none_above : 0 * 2 ^ 56 + mixed x ≡ mixed x = omega arith in
    let cut : bit_xor (mixed x) 0xC0DEFACE12345678 ≡ 0xC0 * 2 ^ 56 + low =
      rw none_above at
        (bit_xor-cut 56 0 0xC0 (mixed x) (0xC0DEFACE12345678 % 2 ^ 56) small (omega arith)) in
    omega (
      arith,
      scramble_lem x,
      cut,
      bit_xor-lt 56 (mixed x) (0xC0DEFACE12345678 % 2 ^ 56) small (omega arith),
    )
