-- ===== src/Prelude/Bytes.antt =====
-- Exclusive or on bytes and words, and a check of all small numbers by evaluation.
use Prim.Native.Nat.{
  ℕ, zero, suc, ◌+◌, ◌-◌, ◌*◌, ◌/◌, ◌%◌, ◌^◌, ◌≤◌, ◌<◌, bit_and, bit_or, bit_xor, differ, min, max,
  digits, bitwise, bit_and-bitwise, bit_or-bitwise, bit_xor-bitwise,
}
use mathlib.Core.Path.{◌≡◌, ◌∙◌, refl, sym, ap}
use mathlib.Core.Bool.{Bool, true, ◌&&◌}
use native.Mathlib.Nat.{pow-suc}
use native.Mathlib.Omega.{arith}
use ppp.Prelude.Tests.{◌==◌}

-- A test of every number under a bound.
unfoldable pub every_below : (ℕ → Bool) → ℕ → Bool
every_below test zero = true
every_below test (suc bound) = test bound && every_below test bound

pub every_below-test :
    (test : ℕ → Bool) (bound n : ℕ) → n < bound → every_below test bound ≡ true → test n ≡ true
unfolding every_below
every_below-test test zero n small passed = elim small [ ]
every_below-test test (suc bound) n small passed = ground (arith, every_below-test test bound n)

pub eq_of_== : (a b : ℕ) → (a == b) ≡ true → a ≡ b
eq_of_== a b h = ground arith

-- What `digits` gives does not depend on the fuel, if that is enough.
module _ (rest : ℕ → ℕ) (digit : ℕ → ℕ → ℕ) where
  digits-zero : (fuel y : ℕ) → digits rest digit fuel 0 y ≡ rest y
  digits-zero zero y = refl
  digits-zero (suc fuel) y = refl

  spare_fuel :
      (x y more less : ℕ)
      → x ≤ more
      → x ≤ less
      → digits rest digit more x y ≡ digits rest digit less x y
  spare_fuel zero y more less p q = digits-zero more y ∙ sym (digits-zero less y)
  spare_fuel (suc x) y zero less p q = elim p [ ]
  spare_fuel (suc x) y (suc more) zero p q = elim q [ ]
  spare_fuel (suc x) y (suc more) (suc less) p q =
      rw (spare_fuel (suc x / 2) (y / 2) more less (omega arith) (omega arith))

  lowest :
      (x y : ℕ)
      → bitwise rest digit (suc x) y
        ≡ digit (suc x % 2) (y % 2) + bitwise rest digit (suc x / 2) (y / 2) * 2
  lowest x y =
      omega (arith, spare_fuel (suc x / 2) (y / 2) x (suc x / 2) (omega arith) (omega arith))

-- A word is its lowest bit and the rest.
halves : (y : ℕ) → y ≡ y % 2 + y / 2 * 2
halves y = omega arith

bit_xor_step : (x y : ℕ) → bit_xor x y ≡ differ (x % 2) (y % 2) + bit_xor (x / 2) (y / 2) * 2
bit_xor_step zero y = simp bit_xor-bitwise (halves y)
bit_xor_step (suc x) y = simp bit_xor-bitwise (lowest (λ t. t) differ x y)

bit_and_step : (x y : ℕ) → bit_and x y ≡ min (x % 2) (y % 2) + bit_and (x / 2) (y / 2) * 2
bit_and_step zero y = simp bit_and-bitwise (omega arith)
bit_and_step (suc x) y = simp bit_and-bitwise (lowest (λ t. 0) min x y)

bit_or_step : (x y : ℕ) → bit_or x y ≡ max (x % 2) (y % 2) + bit_or (x / 2) (y / 2) * 2
bit_or_step zero y = simp bit_or-bitwise (omega arith)
bit_or_step (suc x) y = simp bit_or-bitwise (lowest (λ t. t) max x y)

differ-lt : (a b : ℕ) → a < 2 → b < 2 → differ a b < 2
differ-lt zero b h k = k
differ-lt (suc zero) zero h k = omega arith
differ-lt (suc zero) (suc b) h k = omega arith
differ-lt (suc (suc a)) b h k = absurd (omega arith)

-- Two words of `k` bits have an exclusive or of `k` bits.
pub bit_xor_lt : (k a b : ℕ) → a < 2 ^ k → b < 2 ^ k → bit_xor a b < 2 ^ k
bit_xor_lt zero zero zero h k = omega arith
bit_xor_lt zero zero (suc b) h k = absurd (omega arith)
bit_xor_lt zero (suc a) b h k = absurd (omega arith)
bit_xor_lt (suc n) a b h k = omega (
  arith,
  bit_xor_step a b,
  differ-lt (a % 2) (b % 2) (omega arith) (omega arith),
  pow-suc 2 n,
  bit_xor_lt n (a / 2) (b / 2) (omega (arith, pow-suc 2 n)) (omega (arith, pow-suc 2 n)),
)

-- The bit of a number at a place.
unfoldable pub bit_at : ℕ → ℕ → ℕ
bit_at zero x = x % 2
bit_at (suc k) x = bit_at k (x / 2)

bit_and_none : (bound x : ℕ) → x < bound → bit_and x 0 ≡ 0
bit_and_none zero x small = elim small [ ]
bit_and_none (suc bound) zero small = refl
bit_and_none (suc bound) (suc x) small =
    omega (arith, bit_and_step (suc x) 0, bit_and_none bound (suc x / 2) (omega arith))

pub bit_and-zero : (x : ℕ) → bit_and x 0 ≡ 0
bit_and-zero x = bit_and_none (suc x) x (omega arith)

half_pow : (k : ℕ) → 2 ^ suc k / 2 ≡ 2 ^ k
half_pow k = omega (arith, pow-suc 2 k)

even_pow : (k : ℕ) → 2 ^ suc k % 2 ≡ 0
even_pow k = omega (arith, pow-suc 2 k)

min-zero : (a b : ℕ) → b ≡ 0 → min a b ≡ 0
min-zero a b h = omega arith

-- A test against one bit.
pub bit_and-pow : (k x : ℕ) → bit_and x (2 ^ k) ≡ bit_at k x * 2 ^ k
unfolding bit_at
bit_and-pow zero x =
    omega (arith, bit_and_step x 1, bit_and_none (suc (x / 2)) (x / 2) (omega arith))
bit_and-pow (suc k) x =
    let step : bit_and x (2 ^ suc k) ≡ min (x % 2) (2 ^ suc k % 2) + bit_and (x / 2) (2 ^ k) * 2 =
      rw (sym (half_pow k)) (bit_and_step x (2 ^ suc k)) in
    let doubled = ap (λ (t : ℕ). bit_at k (x / 2) * t) (pow-suc 2 k) in
    omega
      (arith, step, min-zero (x % 2) (2 ^ suc k % 2) (even_pow k), bit_and-pow k (x / 2), doubled)

half_or : (a b : ℕ) → bit_or a b / 2 ≡ bit_or (a / 2) (b / 2)
half_or a b = omega (arith, bit_or_step a b)

half_and : (a b : ℕ) → bit_and a b / 2 ≡ bit_and (a / 2) (b / 2)
half_and a b = omega (arith, bit_and_step a b)

pub bit_at-or : (k a b : ℕ) → bit_at k (bit_or a b) ≡ max (bit_at k a) (bit_at k b)
unfolding bit_at
bit_at-or zero a b = omega (arith, bit_or_step a b)
bit_at-or (suc k) a b = rw half_or (bit_at-or k (a / 2) (b / 2))

pub bit_at-and : (k a b : ℕ) → bit_at k (bit_and a b) ≡ min (bit_at k a) (bit_at k b)
unfolding bit_at
bit_at-and zero a b = omega (arith, bit_and_step a b)
bit_at-and (suc k) a b = rw half_and (bit_at-and k (a / 2) (b / 2))

-- A number without its lowest bits.
unfoldable pub drop_bits : ℕ → ℕ → ℕ
drop_bits zero x = x
drop_bits (suc k) x = drop_bits k (x / 2)

one_times : (m : ℕ) → m * 2 ^ 0 ≡ m
one_times m = omega arith

double_pow : (m k : ℕ) → m * 2 ^ suc k ≡ m * 2 ^ k * 2
double_pow m k = ap (λ t. m * t) (pow-suc 2 k) ∙ omega arith

half_even : (n : ℕ) → n * 2 / 2 ≡ n
half_even n = omega arith

half_odd : (n : ℕ) → (n * 2 + 1) / 2 ≡ n
half_odd n = omega arith

bit_and_even : (x n : ℕ) → bit_and x (n * 2) ≡ bit_and (x / 2) n * 2
bit_and_even x n = omega (
  arith,
  bit_and_step x (n * 2),
  ap (bit_and (x / 2)) (half_even n),
  min-zero (x % 2) (n * 2 % 2) (omega arith),
)

bit_and_odd : (x n : ℕ) → bit_and x (n * 2 + 1) ≡ x % 2 + bit_and (x / 2) n * 2
bit_and_odd x n = omega (arith, bit_and_step x (n * 2 + 1), ap (bit_and (x / 2)) (half_odd n))

-- A mask whose lowest bits are zero reads the other bits.
pub bit_and-shifted : (k x m : ℕ) → bit_and x (m * 2 ^ k) ≡ bit_and (drop_bits k x) m * 2 ^ k
unfolding drop_bits
bit_and-shifted zero x m = rw (one_times m) (omega arith)
bit_and-shifted (suc k) x m =
    let step = bit_and_even x (m * 2 ^ k) in
    let rest = bit_and-shifted k (x / 2) m in
    ap (bit_and x) (double_pow m k)
    ∙ omega (arith, step, rest, double_pow (bit_and (drop_bits k (x / 2)) m) k)

-- A mask of ones keeps a number that is not longer.
pub bit_and-ones : (k x : ℕ) → x < 2 ^ k → bit_and x (2 ^ k - 1) ≡ x
bit_and-ones zero zero h = refl
bit_and-ones zero (suc x) h = absurd (omega arith)
bit_and-ones (suc k) x h =
    let small : x / 2 < 2 ^ k = omega (arith, h, pow-suc 2 k) in
    let odd : 2 ^ suc k - 1 ≡ (2 ^ k - 1) * 2 + 1 = omega (arith, small, pow-suc 2 k) in
    ap (bit_and x) odd ∙ omega (arith, bit_and_odd x (2 ^ k - 1), bit_and-ones k (x / 2) small)

pub drop_bits-lt : (k n x : ℕ) → x < 2 ^ n * 2 ^ k → drop_bits k x < 2 ^ n
unfolding drop_bits
drop_bits-lt zero n x h = omega arith
drop_bits-lt (suc k) n x h = drop_bits-lt k n (x / 2) (omega (arith, double_pow (2 ^ n) k))
