-- ===== src/Base/Bits.antt =====
-- `|` of disjoint fields and `&` with a mask of low ones as arithmetic, and a check of a fact
-- about bytes by evaluation.
use Prim.Native.Nat.{
  ℕ, zero, suc, ◌+◌, ◌-◌, ◌*◌, ◌/◌, ◌%◌, ◌^◌, ◌≤◌, ◌<◌, min, max, bit_and, bit_or, digits, bitwise,
}
use Prim.Native.Nat.{bit_and-bitwise, bit_or-bitwise}
use mathlib.Core.Path.{◌≡◌, refl, ap}
use mathlib.Core.Bool.{Bool, true, ◌&&◌, ◌||◌}
use native.Mathlib.Nat.{pow-suc, one-le-pow}
use native.Mathlib.Omega.{arith}
use gateway_v.Base.Tests.{◌==◌, ==_iff}

unfoldable pub all_below : (ℕ → Bool) → ℕ → Bool
all_below test zero = true
all_below test (suc k) = all_below test k && test k

-- What the test says of the numbers below the bound.
pub test-all_below : (test : ℕ → Bool) (k y : ℕ) → y < k → all_below test k ≡ true → test y ≡ true
unfolding all_below
test-all_below test zero y below h = absurd (omega arith)
test-all_below test (suc k) y below h = ground (test-all_below test k y, arith)

-- Two functions that agree on all bytes by evaluation are equal at a byte.
pub byte_table :
    (f g : ℕ → ℕ) → all_below (λ x. f x == g x) 256 ≡ true → (x : ℕ) → x < 256 → f x ≡ g x
byte_table f g t x h = (==_iff (f x) (g x)).0 (test-all_below (λ y. f y == g y) 256 x h t)

-- The digit recursion with its fuel dropped, for any operation on digits.
module _ (end : ℕ → ℕ) (op : ℕ → ℕ → ℕ) where
  fuel_irrelevant : (f g x y : ℕ) → x ≤ f → x ≤ g → digits end op f x y ≡ digits end op g x y
  fuel_irrelevant zero zero x y p q = refl
  fuel_irrelevant zero (suc g) zero y p q = refl
  fuel_irrelevant zero (suc g) (suc x) y p q = absurd (omega arith)
  fuel_irrelevant (suc f) zero zero y p q = refl
  fuel_irrelevant (suc f) zero (suc x) y p q = absurd (omega arith)
  fuel_irrelevant (suc f) (suc g) zero y p q = refl
  fuel_irrelevant (suc f) (suc g) (suc x) y p q =
      rw (fuel_irrelevant f g (suc x / 2) (y / 2) (omega arith) (omega arith))

  lowest_digit :
      (x y : ℕ)
      → bitwise end op (suc x) y ≡ bitwise end op (suc x / 2) (y / 2) * 2 + op (suc x % 2) (y % 2)
  lowest_digit x y =
      omega (arith, fuel_irrelevant x (suc x / 2) (suc x / 2) (y / 2) (omega arith) (omega arith))

pub bit_or_low : (x y : ℕ) → bit_or x y ≡ bit_or (x / 2) (y / 2) * 2 + max (x % 2) (y % 2)
bit_or_low zero y = simp bit_or-bitwise (omega arith)
bit_or_low (suc x) y = simp bit_or-bitwise (lowest_digit (λ b. b) max x y)

pub bit_and_low : (x y : ℕ) → bit_and x y ≡ bit_and (x / 2) (y / 2) * 2 + min (x % 2) (y % 2)
bit_and_low zero y = simp bit_and-bitwise (omega arith)
bit_and_low (suc x) y = simp bit_and-bitwise (lowest_digit (λ b. 0) min x y)

bit_or-zero : (n x : ℕ) → x ≤ n → bit_or x 0 ≡ x
bit_or-zero n zero h = refl
bit_or-zero zero (suc x) h = absurd (omega arith)
bit_or-zero (suc n) (suc x) h =
    omega (arith, bit_or_low (suc x) 0, bit_or-zero n (suc x / 2) (omega arith))

bit_and-zero : (n x : ℕ) → x ≤ n → bit_and x 0 ≡ 0
bit_and-zero n zero h = refl
bit_and-zero zero (suc x) h = absurd (omega arith)
bit_and-zero (suc n) (suc x) h =
    omega (arith, bit_and_low (suc x) 0, bit_and-zero n (suc x / 2) (omega arith))

double_pow : (q k : ℕ) → q * 2 ^ suc k ≡ 2 * (q * 2 ^ k)
double_pow q k = omega (arith, ap (λ (t : ℕ). q * t) (pow-suc 2 k))

-- `(q << k) | r` is a sum where `r` fits the `k` low bits.
pub bit_or_disjoint : (k q r : ℕ) → r < 2 ^ k → bit_or (q * 2 ^ k) r ≡ q * 2 ^ k + r
bit_or_disjoint zero q r h = ground (arith, bit_or-zero q q)
bit_or_disjoint (suc k) q r h = ground (
  arith,
  bit_or_low (q * 2 ^ suc k) r,
  double_pow q k,
  pow-suc 2 k,
  bit_or_disjoint k q (r / 2) (omega (arith, pow-suc 2 k)),
)

mask_of_sum : (k q r : ℕ) → r < 2 ^ k → bit_and (q * 2 ^ k + r) (2 ^ k - 1) ≡ r
mask_of_sum zero q r h = omega (arith, bit_and-zero (q * 1 + r) (q * 1 + r))
mask_of_sum (suc k) q r h = ground (
  arith,
  bit_and_low (q * 2 ^ suc k + r) (2 ^ suc k - 1),
  double_pow q k,
  pow-suc 2 k,
  mask_of_sum k q (r / 2) (omega (arith, pow-suc 2 k)),
)

-- A mask of `k` low ones is the remainder by `2 ^ k`.
pub bit_and_mask : (k x : ℕ) → bit_and x (2 ^ k - 1) ≡ x % 2 ^ k
bit_and_mask k x = ground (arith, one-le-pow k 2, mask_of_sum k (x / 2 ^ k) (x % 2 ^ k))

-- `|` stays within the width of its arguments.
pub bit_or-lt : (k x y : ℕ) → x < 2 ^ k → y < 2 ^ k → bit_or x y < 2 ^ k
bit_or-lt zero x y hx hy = let e : y ≡ 0 = omega arith in rw e (omega (arith, bit_or-zero x x))
bit_or-lt (suc k) x y hx hy = omega (
  arith,
  bit_or_low x y,
  pow-suc 2 k,
  bit_or-lt k (x / 2) (y / 2) (omega (arith, pow-suc 2 k)) (omega (arith, pow-suc 2 k)),
)

bit_or_comm_fuel : (n x y : ℕ) → x ≤ n → y ≤ n → bit_or x y ≡ bit_or y x
bit_or_comm_fuel zero x y hx hy =
    let ex : x ≡ 0 = omega arith in let ey : y ≡ 0 = omega arith in rw (ex, ey) refl
bit_or_comm_fuel (suc n) x y hx hy = omega (
  arith,
  bit_or_low x y,
  bit_or_low y x,
  bit_or_comm_fuel n (x / 2) (y / 2) (omega arith) (omega arith),
)

pub bit_or_comm : (x y : ℕ) → bit_or x y ≡ bit_or y x
bit_or_comm x y = bit_or_comm_fuel (x + y) x y (omega arith) (omega arith)

-- The bit of a number at a place.
unfoldable pub bit : ℕ → ℕ → Bool
bit zero x = x % 2 == 1
bit (suc k) x = bit k (x / 2)

pub bit-bit_or : (k x y : ℕ) → bit k (bit_or x y) ≡ (bit k x || bit k y)
unfolding bit
bit-bit_or zero x y = ground (arith, bit_or_low x y)
bit-bit_or (suc k) x y =
    let half : bit_or x y / 2 ≡ bit_or (x / 2) (y / 2) = omega (arith, bit_or_low x y) in
    rw half (bit-bit_or k (x / 2) (y / 2))

pub bit-bit_and : (k x y : ℕ) → bit k (bit_and x y) ≡ (bit k x && bit k y)
unfolding bit
bit-bit_and zero x y = ground (arith, bit_and_low x y)
bit-bit_and (suc k) x y =
    let half : bit_and x y / 2 ≡ bit_and (x / 2) (y / 2) = omega (arith, bit_and_low x y) in
    rw half (bit-bit_and k (x / 2) (y / 2))
