-- ===== src/Printf/Fuel.antt =====
-- The fuel for printing a number with %d and %x, as the format strings of src/ do.
use libhid.Base.{
  ◌%◌, ◌≤◌, le→ltb, ℕ, zero, suc, ◌*◌, ◌/◌, ◌%◌, ◌<◌, ◌≡◌, inl, inr, arith, ◌∷◌, Bytes, ltb, lt→ltb,
  Bool-cases,
}
use libhid.Printf.{digit, digits_from}

abbrev ten_to : ℕ → ℕ
ten_to zero = 1
ten_to (suc k) = 10 * ten_to k

abbrev sixteen_to : ℕ → ℕ
sixteen_to zero = 1
sixteen_to (suc k) = 16 * sixteen_to k

-- A number below 10 ^ k is printed whole by k digits' fuel.
pub decimal_fuel :
    (k n : ℕ) (out : Bytes)
    → n < ten_to (suc k)
    → digits_from 10 (suc (suc k)) n out ≡ digits_from 10 (suc k) n out
unfolding digits_from
decimal_fuel zero n out h = rw (lt→ltb n 10 (omega arith), digits_from)
decimal_fuel (suc k) n out h = elim (Bool-cases (ltb n 10)) [
  | inl last ↦ rw (last, digits_from)
  | inr more ↦ rw (more, digits_from) (decimal_fuel k (n / 10) (digit (n % 10) ∷ out) (omega arith))
]

pub hexadecimal_fuel :
    (k n : ℕ) (out : Bytes)
    → n < sixteen_to (suc k)
    → digits_from 16 (suc (suc k)) n out ≡ digits_from 16 (suc k) n out
unfolding digits_from
hexadecimal_fuel zero n out h = rw (lt→ltb n 16 (omega arith), digits_from)
hexadecimal_fuel (suc k) n out h = elim (Bool-cases (ltb n 16)) [
  | inl last ↦ rw (last, digits_from)
  | inr more ↦
      rw (more, digits_from) (hexadecimal_fuel k (n / 16) (digit (n % 16) ∷ out) (omega arith))
]

-- The last digit, and one before it.
pub digits_last :
    (fuel n : ℕ) (out : Bytes) → n < 16 → digits_from 16 (suc fuel) n out ≡ digit n ∷ out
unfolding digits_from
digits_last fuel n out h = rw (lt→ltb n 16 h, digits_from)

pub digits_more :
    (fuel n : ℕ) (out : Bytes)
    → 16 ≤ n
    → digits_from 16 (suc fuel) n out ≡ digits_from 16 fuel (n / 16) (digit (n % 16) ∷ out)
unfolding digits_from
digits_more fuel n out h = rw (le→ltb n 16 h, digits_from)
