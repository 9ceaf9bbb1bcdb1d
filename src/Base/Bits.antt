-- ===== src/Base/Bits.antt =====
-- Bitwise operations on native numbers, from the recursion on binary digits that they stand for:
-- they act on the digits, hence on the parts of a number that is cut at a power of two.
use Prim.Native.Nat.{
  ℕ, zero, suc, ◌+◌, ◌*◌, ◌/◌, ◌%◌, ◌^◌, ◌≤◌, ◌<◌, min, max, digits, bitwise, bit_and, bit_or,
  bit_xor, differ, bit_and-bitwise, bit_or-bitwise, bit_xor-bitwise,
}
use mathlib.Core.Path.{◌≡◌, refl, ap}
use mathlib.Core.Bool.{Bool, true, ◌&&◌}
use native.Mathlib.Omega.{arith}
use native.Mathlib.Nat.{pow-suc, le_refl}

module _ (z : ℕ → ℕ) (f : ℕ → ℕ → ℕ) where
  -- More fuel than the first number needs changes nothing.
  digits_enough : (a b n m : ℕ) → a ≤ n → a ≤ m → digits z f n a b ≡ digits z f m a b
  digits_enough zero b zero zero enough enough' = refl
  digits_enough zero b (suc n) zero enough enough' = refl
  digits_enough zero b zero (suc m) enough enough' = refl
  digits_enough zero b (suc n) (suc m) enough enough' = refl
  digits_enough (suc a) b zero m enough enough' = absurd (omega arith)
  digits_enough (suc a) b (suc n) zero enough enough' = absurd (omega arith)
  digits_enough (suc a) b (suc n) (suc m) enough enough' =
      omega (arith, digits_enough (suc a / 2) (b / 2) n m (omega arith) (omega arith))

  lowest_digit :
      (high low : ℕ)
      → bitwise z f (suc high) low
        ≡ bitwise z f (suc high / 2) (low / 2) * 2 + f (suc high % 2) (low % 2)
  lowest_digit high low =
      omega (
        arith,
        digits_enough (suc high / 2) (low / 2) high (suc high / 2) (omega arith) (le_refl _),
      )

-- One equation for the lowest digit.
pub bit_and_digit : (a b : ℕ) → bit_and a b ≡ bit_and (a / 2) (b / 2) * 2 + min (a % 2) (b % 2)
bit_and_digit zero b = simp bit_and-bitwise (omega arith)
bit_and_digit (suc a) b = simp bit_and-bitwise (lowest_digit (λ y. 0) min a b)

pub bit_or_digit : (a b : ℕ) → bit_or a b ≡ bit_or (a / 2) (b / 2) * 2 + max (a % 2) (b % 2)
bit_or_digit zero b = simp bit_or-bitwise (omega arith)
bit_or_digit (suc a) b = simp bit_or-bitwise (lowest_digit (λ y. y) max a b)

pub bit_xor_digit : (a b : ℕ) → bit_xor a b ≡ bit_xor (a / 2) (b / 2) * 2 + differ (a % 2) (b % 2)
bit_xor_digit zero b = simp bit_xor-bitwise (omega arith)
bit_xor_digit (suc a) b = simp bit_xor-bitwise (lowest_digit (λ y. y) differ a b)

double_pow : (q k : ℕ) → q * 2 ^ suc k ≡ 2 * (q * 2 ^ k)
double_pow q k = omega (arith, ap (λ (t : ℕ). q * t) (pow-suc 2 k))

differ-lt : (a b : ℕ) → a < 2 → b < 2 → differ a b < 2
differ-lt zero b ha hb = hb
differ-lt (suc a) zero ha hb = ha
differ-lt (suc a) (suc b) ha hb = differ-lt a b (omega arith) (omega arith)

differ_twice : (a b : ℕ) → a < 2 → b < 2 → differ (differ a b) b ≡ a
differ_twice zero zero ha hb = refl
differ_twice zero (suc zero) ha hb = refl
differ_twice zero (suc (suc b)) ha hb = absurd (omega arith)
differ_twice (suc zero) zero ha hb = refl
differ_twice (suc zero) (suc zero) ha hb = refl
differ_twice (suc zero) (suc (suc b)) ha hb = absurd (omega arith)
differ_twice (suc (suc a)) b ha hb = absurd (omega arith)

-- An operation that acts digit by digit acts on the two parts of a number cut at bit `k`.
module _ (op g : ℕ → ℕ → ℕ) (nothing : op 0 0 ≡ 0)
    (digit : (a b : ℕ) → op a b ≡ op (a / 2) (b / 2) * 2 + g (a % 2) (b % 2)) where
  op-cut :
      (k q m r s : ℕ)
      → r < 2 ^ k
      → s < 2 ^ k
      → op (q * 2 ^ k + r) (m * 2 ^ k + s) ≡ op q m * 2 ^ k + op r s
  op-cut zero q m r s hr hs = ground (arith, nothing)
  op-cut (suc k) q m r s hr hs = ground (
    arith,
    digit (q * 2 ^ suc k + r) (m * 2 ^ suc k + s),
    digit r s,
    double_pow q k,
    double_pow m k,
    double_pow (op q m) k,
    pow-suc 2 k,
    op-cut k q m (r / 2) (s / 2),
  )

pub bit_and-cut :
    (k q m r s : ℕ)
    → r < 2 ^ k
    → s < 2 ^ k
    → bit_and (q * 2 ^ k + r) (m * 2 ^ k + s) ≡ bit_and q m * 2 ^ k + bit_and r s
bit_and-cut = op-cut bit_and min refl bit_and_digit

pub bit_or-cut :
    (k q m r s : ℕ)
    → r < 2 ^ k
    → s < 2 ^ k
    → bit_or (q * 2 ^ k + r) (m * 2 ^ k + s) ≡ bit_or q m * 2 ^ k + bit_or r s
bit_or-cut = op-cut bit_or max refl bit_or_digit

pub bit_xor-cut :
    (k q m r s : ℕ)
    → r < 2 ^ k
    → s < 2 ^ k
    → bit_xor (q * 2 ^ k + r) (m * 2 ^ k + s) ≡ bit_xor q m * 2 ^ k + bit_xor r s
bit_xor-cut = op-cut bit_xor differ refl bit_xor_digit

-- The low `k` digits of the result come from the low `k` digits of the arguments.
pub bit_xor-lt : (k a b : ℕ) → a < 2 ^ k → b < 2 ^ k → bit_xor a b < 2 ^ k
bit_xor-lt zero a b ha hb = ground arith
bit_xor-lt (suc k) a b ha hb =
    ground (
      arith,
      pow-suc 2 k,
      bit_xor_digit a b,
      differ-lt (a % 2) (b % 2),
      bit_xor-lt k (a / 2) (b / 2),
    )

bit_and-zero_fuel : (n a : ℕ) → a ≤ n → bit_and a 0 ≡ 0
bit_and-zero_fuel zero a h = ground arith
bit_and-zero_fuel (suc n) a h =
    omega (arith, bit_and_digit a 0, bit_and-zero_fuel n (a / 2) (omega arith))

pub bit_and-zero : (a : ℕ) → bit_and a 0 ≡ 0
bit_and-zero a = bit_and-zero_fuel a a (omega arith)

-- A mask that is put on twice is off again.
bit_xor_twice_fuel : (n a b : ℕ) → a ≤ n → b ≤ n → bit_xor (bit_xor a b) b ≡ a
bit_xor_twice_fuel zero a b ha hb = ground arith
bit_xor_twice_fuel (suc n) a b ha hb =
    let high : ℕ = bit_xor (a / 2) (b / 2) in
    let low : ℕ = differ (a % 2) (b % 2) in
    let small : low < 2 = differ-lt (a % 2) (b % 2) (omega arith) (omega arith) in
    let halved : bit_xor a b / 2 ≡ high = omega (arith, bit_xor_digit a b) in
    let parity : bit_xor a b % 2 ≡ low = omega (arith, bit_xor_digit a b) in
    rw (bit_xor_digit (bit_xor a b) b, halved, parity)
      (omega (
        arith,
        bit_xor_twice_fuel n (a / 2) (b / 2) (omega arith) (omega arith),
        differ_twice (a % 2) (b % 2) (omega arith) (omega arith),
      ))

pub bit_xor_twice : (a b : ℕ) → bit_xor (bit_xor a b) b ≡ a
bit_xor_twice a b = bit_xor_twice_fuel (a + b) a b (omega arith) (omega arith)

-- A test of every value below a bound.
unfoldable pub passes_below : (ℕ → Bool) → ℕ → Bool
passes_below test zero = true
passes_below test (suc bound) = passes_below test bound && test bound

pub passes_below_sound :
    (test : ℕ → Bool) (bound value : ℕ)
    → value < bound
    → passes_below test bound ≡ true
    → test value ≡ true
unfolding passes_below
passes_below_sound test zero value inside passed = absurd (omega arith)
passes_below_sound test (suc bound) value inside passed =
    ground (arith, passes_below_sound test bound value)
