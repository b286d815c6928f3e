-- ===== src/Detach/Ids/Laws.antt =====
-- Reading an identifier that was printed with `%04x` (src/libhid-detach-device.c).
use libhid.Base.{
  ℕ, ◌+◌, ◌-◌, ◌*◌, ◌/◌, ◌%◌, ◌≤◌, ◌<◌, ◌≡◌, ◌≢◌, refl, ap, ◌∙◌, false, none, some, inl, inr, arith,
  [], ◌∷◌, ◌++◌, codes, Option-cases, ◌^◌, Bool-cases, ltb, ltb→lt, Bytes, take, drop, length,
  replicate,
}
use libhid.Printf.Fuel.{digits_last, digits_more}
use libhid.Printf.{digit, digits_from, show_hex}
use libhid.Detach.Ids.{hex_digit, hex_run, id_buffer, strtol_hex, parse_id}

-- A printed digit is read back.
hex_digit-digit : (d : ℕ) → d < 16 → hex_digit (digit d) ≡ some d
unfolding hex_digit digit
hex_digit-digit d h = ground arith

-- The four digits of a 16-bit number.
abbrev pub four_digits : ℕ → Bytes
four_digits n = digit (n / 4096) ∷ digit (n / 256 % 16) ∷ digit (n / 16 % 16) ∷ digit (n % 16) ∷ []

padded :
    (n : ℕ) (text : Bytes)
    → digits_from 16 20 n [] ≡ text
    → show_hex 4 n ≡ replicate (4 - length text) b'0' ++ text
unfolding show_hex
padded n text e = rw (e, show_hex)

hex_one : (n : ℕ) → n < 16 → show_hex 4 n ≡ four_digits n
unfolding digit
hex_one n h =
    let a : n / 4096 ≡ 0 = omega arith in
    let b : n / 256 % 16 ≡ 0 = omega arith in
    let c : n / 16 % 16 ≡ 0 = omega arith in
    let d : n % 16 ≡ n = omega arith in padded n _ (digits_last 19 n [] h) ∙ (rw (a, b, c, d) refl)

hex_two : (n : ℕ) → 16 ≤ n → n < 256 → show_hex 4 n ≡ four_digits n
unfolding digit
hex_two n k h =
    let a : n / 4096 ≡ 0 = omega arith in
    let b : n / 256 % 16 ≡ 0 = omega arith in
    let c : n / 16 % 16 ≡ n / 16 = omega arith in
    padded n _ (digits_more 19 n [] k ∙ digits_last 18 (n / 16) _ (omega arith))
    ∙ (rw (a, b, c) refl)

hex_three : (n : ℕ) → 256 ≤ n → n < 4096 → show_hex 4 n ≡ four_digits n
unfolding digit
hex_three n k h =
    let a : n / 4096 ≡ 0 = omega arith in
    let b : n / 16 / 16 ≡ n / 256 = omega arith in
    let c : n / 256 % 16 ≡ n / 256 = omega arith in
    padded n _ (
      digits_more 19 n [] (omega arith)
      ∙ digits_more 18 (n / 16) _ (omega arith)
      ∙ digits_last 17 (n / 16 / 16) _ (omega arith))
    ∙ (rw (a, b, c) refl)

hex_four : (n : ℕ) → 4096 ≤ n → n < 65536 → show_hex 4 n ≡ four_digits n
hex_four n k h =
    let a : n / 16 / 16 / 16 ≡ n / 4096 = omega arith in
    let b : n / 16 / 16 % 16 ≡ n / 256 % 16 = omega arith in
    padded n _ (
      digits_more 19 n [] (omega arith)
      ∙ digits_more 18 (n / 16) _ (omega arith)
      ∙ digits_more 17 (n / 16 / 16) _ (omega arith)
      ∙ digits_last 16 (n / 16 / 16 / 16) _ (omega arith))
    ∙ (rw (a, b) refl)

at_least : (n m : ℕ) → ltb n m ≡ false → m ≤ n
at_least n m h = ground arith

-- `%04x` of a 16-bit number gives its four digits.
pub show_hex_lem : (n : ℕ) → n < 65536 → show_hex 4 n ≡ four_digits n
show_hex_lem n h = elim (Bool-cases (ltb n 16)) [
  | inl a ↦ hex_one n (ltb→lt n 16 a)
  | inr a ↦ elim (Bool-cases (ltb n 256)) [
    | inl b ↦ hex_two n (at_least n 16 a) (ltb→lt n 256 b)
    | inr b ↦ elim (Bool-cases (ltb n 4096)) [
      | inl c ↦ hex_three n (at_least n 256 b) (ltb→lt n 4096 c)
      | inr c ↦ hex_four n (at_least n 4096 c) h
    ]
  ]
]

-- One more digit, and the first byte that is none.
run_digit :
    (d acc : ℕ) (cs : Bytes) → d < 16 → hex_run (digit d ∷ cs) acc ≡ hex_run cs (acc * 16 + d)
unfolding hex_run
run_digit d acc cs h = rw (hex_digit-digit d h, hex_run)

run_end : (c acc : ℕ) (cs : Bytes) → hex_digit c ≡ none → hex_run (c ∷ cs) acc ≡ some acc
unfolding hex_run
run_end c acc cs h = rw (h, hex_run)

run_past : (c acc : ℕ) → hex_digit c ≢ none → hex_run (c ∷ []) acc ≡ none
unfolding hex_run
run_past c acc h = elim (Option-cases (hex_digit c)) [
  | inl e ↦ elim (h e) [ ]
  | inr (d, e) ↦ rw (e, hex_run)
]

-- Reading the four digits.
run_four : (n : ℕ) (cs : Bytes) → n < 65536 → hex_run (four_digits n ++ cs) 0 ≡ hex_run cs n
run_four n cs h =
    let whole : (((0 * 16 + n / 4096) * 16 + n / 256 % 16) * 16 + n / 16 % 16) * 16 + n % 16 ≡ n =
      omega arith in
    run_digit (n / 4096) 0 _ (omega arith)
    ∙ run_digit (n / 256 % 16) _ _ (omega arith)
    ∙ run_digit (n / 16 % 16) _ _ (omega arith)
    ∙ run_digit (n % 16) _ cs (omega arith)
    ∙ ap (hex_run cs) whole

parse_buffer :
    (n junk : ℕ) (rest : Bytes)
    → n < 65536
    → strtol_hex (id_buffer (show_hex 4 n ++ rest) junk) ≡ hex_run (junk ∷ []) n
unfolding strtol_hex id_buffer
parse_buffer n junk rest h =
    ap (λ text. hex_run (drop 2 (codes "0x" ++ (take 4 (text ++ rest) ++ junk ∷ []))) 0)
      (show_hex_lem n h)
    ∙ run_four n (junk ∷ []) h

-- An identifier of 16 bits that is written with `%04x`, whatever follows it, is read back, if the byte
-- that the program leaves unwritten behind it is no hexadecimal digit; if that byte is one, the program
-- reads past its array.
pub parse_id-show_hex :
    (n junk : ℕ) (rest : Bytes)
    → n < 65536
    → (hex_digit junk ≡ none → parse_id (show_hex 4 n ++ rest) junk ≡ some n)
      × (hex_digit junk ≢ none → parse_id (show_hex 4 n ++ rest) junk ≡ none)
unfolding parse_id
parse_id-show_hex n junk rest h =
    let read = parse_buffer n junk rest h in
    let whole : n % 2 ^ 16 ≡ n = omega arith in
    (
      (λ clean. rw (read ∙ run_end junk n [] clean, whole, parse_id)),
      (λ dirty. rw (read ∙ run_past junk n dirty, parse_id)),
    )
