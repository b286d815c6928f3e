-- ===== src/Debug/Bits.antt =====
-- Single bits of a mask (the levels of include/hid.h).
use Prim.Native.Nat.{digits, max, bit_and-bitwise, bit_or-bitwise}
use libhid.Base.{ℕ, zero, suc, ◌*◌, ◌/◌, ◌%◌, ◌≤◌, ◌≡◌, ◌≢◌, refl, ap, ◌∙◌, bit_and, bit_or, arith}
use libhid.Matching.Bits.{bit, zero-bit, and_fuel}

abbrev pub power : ℕ → ℕ
power zero = 1
power (suc j) = power j * 2

-- A power of two has one bit.
pub power-bit_self : (i : ℕ) → bit (power i) i ≡ 1
unfolding bit
power-bit_self zero = refl
power-bit_self (suc i) =
    let half : power i * 2 / 2 ≡ power i = omega arith in ap (λ n. bit n i) half ∙ power-bit_self i

pub power-bit_other : (i k : ℕ) → i ≢ k → bit (power i) k ≡ 0
unfolding bit
power-bit_other zero zero h = absurd (h refl)
power-bit_other zero (suc k) h = zero-bit k
power-bit_other (suc i) zero h = omega arith
power-bit_other (suc i) (suc k) h =
    let half : power i * 2 / 2 ≡ power i = omega arith in
    ap (λ n. bit n k) half ∙ power-bit_other i k (λ e. h (ap suc e))

abbrev or_fuel : ℕ → ℕ → ℕ → ℕ
or_fuel fuel a b = digits (λ b. b) max fuel a b

or_fuel-bit : (fuel a b k : ℕ) → a ≤ fuel → bit (or_fuel fuel a b) k ≡ max (bit a k) (bit b k)
unfolding bit
or_fuel-bit zero zero b k h = rw (zero-bit k) (omega arith)
or_fuel-bit zero (suc a) b k h = absurd (omega arith)
or_fuel-bit (suc fuel) zero b k h = rw (zero-bit k) (omega arith)
or_fuel-bit (suc fuel) (suc a) b zero h = omega arith
or_fuel-bit (suc fuel) (suc a) b (suc k) h =
    let half : or_fuel (suc fuel) (suc a) b / 2 ≡ or_fuel fuel (suc a / 2) (b / 2) = omega arith in
    ap (λ n. bit n k) half ∙ or_fuel-bit fuel (suc a / 2) (b / 2) k (omega arith)

-- A bit is set in `a | b` if it is in one of the two.
pub bit_or-bit : (a b k : ℕ) → bit (bit_or a b) k ≡ max (bit a k) (bit b k)
bit_or-bit a b k = ap (λ n. bit n k) (bit_or-bitwise a b) ∙ or_fuel-bit a a b k (omega arith)

and_fuel_none : (fuel a : ℕ) → and_fuel fuel a 0 ≡ 0
and_fuel_none zero a = refl
and_fuel_none (suc fuel) zero = refl
and_fuel_none (suc fuel) (suc a) =
    let rest : and_fuel fuel (suc a / 2) (0 / 2) ≡ 0 = and_fuel_none fuel (suc a / 2) in omega arith

and_fuel-power : (fuel a i : ℕ) → a ≤ fuel → and_fuel fuel a (power i) ≡ bit a i * power i
unfolding bit
and_fuel-power zero zero i h = rw (zero-bit i) (omega arith)
and_fuel-power zero (suc a) i h = absurd (omega arith)
and_fuel-power (suc fuel) zero i h = rw (zero-bit i) (omega arith)
and_fuel-power (suc fuel) (suc a) zero h =
    let rest : and_fuel fuel (suc a / 2) (1 / 2) ≡ 0 = and_fuel_none fuel (suc a / 2) in omega arith
and_fuel-power (suc fuel) (suc a) (suc i) h =
    let half : power i * 2 / 2 ≡ power i = omega arith in
    let low : power i * 2 % 2 ≡ 0 = omega arith in
    let high : and_fuel fuel (suc a / 2) (power i * 2 / 2) ≡ bit (suc a / 2) i * power i =
      ap (and_fuel fuel (suc a / 2)) half ∙ and_fuel-power fuel (suc a / 2) i (omega arith) in
    omega (arith, high, low)

-- `a & 2^i`
pub bit_and-power : (a i : ℕ) → bit_and a (power i) ≡ bit a i * power i
bit_and-power a i = bit_and-bitwise a (power i) ∙ and_fuel-power a a i (omega arith)
