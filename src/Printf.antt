-- ===== src/Printf.antt =====
-- The conversions of printf that libhid's format strings use: %d, %0kx of an unsigned number.
pub mod Fuel
use libhid.Base.{
  ℕ, zero, suc, ◌+◌, ◌-◌, ◌/◌, ◌%◌, [], ◌∷◌, ◌++◌, ltb, if◌then◌else◌, Bytes, ℤ, pos, negsuc,
  length, replicate,
}

-- A digit's character, in lower case.
unfoldable pub digit : ℕ → ℕ
digit d = if ltb d 10 then b'0' + d else b'a' + (d - 10)

-- The digits of `n` to a base, the highest first, before `out`. The fuel bounds their number:
-- twenty serve for any 64-bit value in base ten or more.
unfoldable pub digits_from : ℕ → ℕ → ℕ → Bytes → Bytes
digits_from base zero n out = out
digits_from base (suc fuel) n out =
    let more = digits_from base fuel (n / base) (digit (n % base) ∷ out) in
    if ltb n base then digit n ∷ out else more

unfoldable pub show_nat : ℕ → Bytes
unfolding digits_from digit
show_nat n = digits_from 10 20 n []

-- `%d`
unfoldable pub show_int : ℤ → Bytes
unfolding show_nat
show_int (pos n) = show_nat n
show_int (negsuc n) = b'-' ∷ show_nat (n + 1)

-- `%0<width>x`
unfoldable pub show_hex : ℕ → ℕ → Bytes
unfolding digits_from digit
show_hex width n = let text = digits_from 16 20 n [] in replicate (width - length text) b'0' ++ text
