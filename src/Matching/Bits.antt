-- ===== src/Matching/Bits.antt =====
-- What the masks `(id & wanted) == wanted` of src/hid_opening.c accept, bit by bit.
use Prim.Native.Nat.{digits, min, bit_and-bitwise}
use libhid.Base.{
  ℕ, zero, suc, ◌/◌, ◌%◌, ◌≤◌, ◌≡◌, refl, sym, ◌∙◌, ◌↔◌, true, bit_and, arith, ==_iff,
}
use libhid.Matching.{id_matches}

-- Bit `k` of a number, the lowest first.
unfoldable pub bit : ℕ → ℕ → ℕ
bit n zero = n % 2
bit n (suc k) = bit (n / 2) k

-- Every bit that is set in `wanted` is set in `id`.
abbrev pub Covers : ℕ → ℕ → Type 0
Covers id wanted = (k : ℕ) → bit wanted k ≤ bit id k

abbrev pub and_fuel : ℕ → ℕ → ℕ → ℕ
and_fuel fuel a b = digits (λ b. zero) min fuel a b

pub zero-bit : (k : ℕ) → bit 0 k ≡ 0
unfolding bit
zero-bit zero = refl
zero-bit (suc k) = zero-bit k

zero_of_bits : (fuel b : ℕ) → b ≤ fuel → Covers 0 b → b ≡ 0
unfolding bit
zero_of_bits zero b h c = omega arith
zero_of_bits (suc fuel) b h c =
    let low : b % 2 ≤ 0 = c zero in
    let high : b / 2 ≡ 0 = zero_of_bits fuel (b / 2) (omega arith) (λ k. c (suc k)) in omega arith

and_fuel-Covers : (fuel a b : ℕ) → a ≤ fuel → and_fuel fuel a b ≡ b → Covers a b
unfolding bit
and_fuel-Covers zero a b h e k =
    let none_set : b ≡ 0 = sym e in rw (none_set, zero-bit k) (omega arith)
and_fuel-Covers (suc fuel) zero b h e k =
    let none_set : b ≡ 0 = sym e in rw (none_set, zero-bit k) (omega arith)
and_fuel-Covers (suc fuel) (suc a) b h e zero = omega arith
and_fuel-Covers (suc fuel) (suc a) b h e (suc k) =
    and_fuel-Covers fuel (suc a / 2) (b / 2) (omega arith) (omega arith) k

Covers-and_fuel : (fuel a b : ℕ) → a ≤ fuel → Covers a b → and_fuel fuel a b ≡ b
unfolding bit
Covers-and_fuel zero zero b h c = sym (zero_of_bits b b (omega arith) c)
Covers-and_fuel zero (suc a) b h c = absurd (omega arith)
Covers-and_fuel (suc fuel) zero b h c = sym (zero_of_bits b b (omega arith) c)
Covers-and_fuel (suc fuel) (suc a) b h c =
    let low : b % 2 ≤ suc a % 2 = c zero in
    let high : and_fuel fuel (suc a / 2) (b / 2) ≡ b / 2 =
      Covers-and_fuel fuel (suc a / 2) (b / 2) (omega arith) (λ k. c (suc k)) in
    omega arith

-- A device's number passes the mask test exactly if it has every bit that the matcher's number
-- has set; so it need not be equal to it.
pub id_matches_iff : (id wanted : ℕ) → (id_matches id wanted ≡ true) ↔ Covers id wanted
unfolding id_matches
id_matches_iff id wanted = (
  λ h.
      and_fuel-Covers id id wanted (omega arith)
        (sym (bit_and-bitwise id wanted) ∙ (==_iff (bit_and id wanted) wanted).0 h),
  λ c.
      (==_iff (bit_and id wanted) wanted).1
        (bit_and-bitwise id wanted ∙ Covers-and_fuel id id wanted (omega arith) c),
)

-- `HID_ID_MATCH_ANY` accepts every number.
pub id_matches_any : (id : ℕ) → id_matches id 0 ≡ true
id_matches_any id = (id_matches_iff id 0).1 (λ k. rw zero-bit (omega arith))

-- A number matches itself.
pub id_matches_self : (id : ℕ) → id_matches id id ≡ true
id_matches_self id = (id_matches_iff id id).1 (λ k. omega arith)
