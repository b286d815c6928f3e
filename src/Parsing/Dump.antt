-- ===== src/Parsing/Dump.antt =====
-- The dump of the raw report descriptor in `hid_prepare_parser` (src/hid_parsing.c): eight bytes on a
-- line, each line built in a buffer of 160 characters and each byte's text in one of 10.
use libhid.Base.{
  ==_iff, ℕ, zero, suc, ◌+◌, ◌*◌, ◌/◌, ◌%◌, ◌^◌, ◌≤◌, ◌<◌, ◌≡◌, refl, ap, ◌∙◌, true, not, ◌&&◌,
  Option, none, some, List, [], ◌∷◌, ◌++◌, ◌==◌, ltb, lt→ltb, ltb→lt, if◌then◌else◌, Bytes, codes,
  length, length-append, length-replicate, replicate, ◌-◌, arith, inl, inr, Bool-cases,
}
use libhid.Printf.Fuel.{digits_last, digits_more}
use libhid.Printf.{show_hex, digits_from, digit}

-- "0x%03x: "
unfoldable pub dump_head : ℕ → Bytes
dump_head i = codes "0x" ++ show_hex 3 i ++ codes ": "

-- "0x%02x "
unfoldable pub dump_byte : ℕ → Bytes
dump_byte b = codes "0x" ++ show_hex 2 b ++ codes " "

-- The buffer after byte `i`: a new line begins every eight bytes.
unfoldable pub line_with : ℕ → Bytes → ℕ → Option Bytes
line_with i buffer b =
    let start = if i % 8 == 0 then dump_head i else buffer in
    let line = start ++ dump_byte b in
    if ltb (length start) 160 && (ltb (length (dump_byte b)) 10 && ltb (length line) 160)
    then some line
    else none

-- The loop from `i` on, with what `buffer` holds; the result is the lines that are printed.
unfoldable pub dump_from : ℕ → Bytes → Bytes → Option (List Bytes)
dump_from i [] buffer = some (buffer ∷ [])
dump_from i (b ∷ bs) buffer = elim (line_with i buffer b) [
  | none ↦ none
  | some line ↦ elim (dump_from (suc i) bs line) [
    | none ↦ none
    | some lines ↦ some (if i % 8 == 0 && not (i == 0) then buffer ∷ lines else lines)
  ]
]

unfoldable pub dump_descriptor : Bytes → Option (List Bytes)
dump_descriptor bytes = dump_from 0 bytes (dump_head 0)

-- The first `n` elements of the array of `unsigned char`; one that the list does not have counts as 0,
-- since after a complete transfer of `n` bytes there is none.
unfoldable pub elements : ℕ → Bytes → Bytes
elements zero bytes = []
elements (suc n) [] = 0 ∷ elements n []
elements (suc n) (b ∷ bs) = b % 2 ^ 8 ∷ elements n bs

-- Every element is a byte.
abbrev pub AllBytes : Bytes → Type 0
AllBytes [] = Unit
AllBytes (b ∷ bs) = (b < 256) × AllBytes bs

digits_few : (fuel n : ℕ) (out : Bytes) → length (digits_from 16 fuel n out) ≤ fuel + length out
unfolding digits_from
digits_few zero n out = omega arith
digits_few (suc fuel) n out = elim (Bool-cases (ltb n 16)) [
  | inl last ↦ rw (last, digits_from) (omega arith)
  | inr more ↦
      let rest = digits_few fuel (n / 16) (digit (n % 16) ∷ out) in
      rw (more, digits_from) (omega (arith, rest))
]

show_hex_short : (w n : ℕ) → w ≤ 20 → length (show_hex w n) ≤ 20
unfolding show_hex
show_hex_short w n h =
    let text = digits_from 16 20 n [] in
    let few = digits_few 20 n [] in
    let a = length-append (replicate (w - length text) b'0') text in
    let b = length-replicate {A = ℕ} (w - length text) b'0' in omega (arith, few, a, b)

head_short : (i : ℕ) → length (dump_head i) ≤ 27
unfolding dump_head
head_short i =
    let a = length-append (show_hex 3 i) (codes ": ") in
    let b = show_hex_short 3 i (omega arith) in omega (arith, a, b)

padded :
    (w n : ℕ) (text : Bytes)
    → digits_from 16 20 n [] ≡ text
    → length (show_hex w n) ≡ w - length text + length text
unfolding show_hex
padded w n text e =
    rw (e, show_hex)
      (length-append (replicate (w - length text) b'0') text
        ∙ ap (λ x. x + length text) (length-replicate (w - length text) b'0'))

show_hex_two : (b : ℕ) → b < 256 → length (show_hex 2 b) ≤ 2
show_hex_two b h = elim (Bool-cases (ltb b 16)) [
  | inl last ↦ let e = padded 2 b _ (digits_last 19 b [] (ltb→lt b 16 last)) in omega (arith, e)
  | inr more ↦
      let over : 16 ≤ b = ground arith in
      let e = padded 2 b _ (digits_more 19 b [] over ∙ digits_last 18 (b / 16) _ (omega arith)) in
      omega (arith, e)
]

byte_short : (b : ℕ) → b < 256 → length (dump_byte b) ≤ 7
unfolding dump_byte
byte_short b h =
    let a = length-append (show_hex 2 b) (codes " ") in
    let two = show_hex_two b h in omega (arith, a, two)

-- How full the buffer may be before byte `i`.
abbrev Room : ℕ → Bytes → Type 0
Room i buffer = (0 < i % 8) → length buffer ≤ 27 + 7 * (i % 8)

fitting :
    (i : ℕ) (start : Bytes) (b : ℕ)
    → b < 256
    → length start ≤ 27 + 7 * (i % 8)
    → (ltb (length start) 160
          && (ltb (length (dump_byte b)) 10 && ltb (length (start ++ dump_byte b)) 160)
        ≡ true)
      × (length (start ++ dump_byte b) ≤ 34 + 7 * (i % 8))
fitting i start b h room =
    let a = length-append start (dump_byte b) in
    let c = byte_short b h in
    let x : ltb (length start) 160 ≡ true = lt→ltb _ _ (omega arith) in
    let y : ltb (length (dump_byte b)) 10 ≡ true = lt→ltb _ _ (omega arith) in
    let z : ltb (length (start ++ dump_byte b)) 160 ≡ true = lt→ltb _ _ (omega (arith, a, c)) in
    ((rw (x, y, z) refl), omega (arith, a, c))

line_with-fits :
    (i : ℕ) (buffer : Bytes) (b : ℕ)
    → b < 256
    → Room i buffer
    → (line : Bytes) × (line_with i buffer b ≡ some line) × Room (suc i) line
unfolding line_with
line_with-fits i buffer b h room = elim (Bool-cases (i % 8 == 0)) [
  | inl fresh ↦
      let zeroth : i % 8 ≡ 0 = (==_iff (i % 8) 0).0 fresh in
      let short = head_short i in
      let (test, few) = fitting i (dump_head i) b h (omega (arith, short)) in
      (
        dump_head i ++ dump_byte b,
        (rw (fresh, test) refl),
        λ later. omega (arith, few, zeroth, later),
      )
  | inr inside ↦
      let started : 0 < i % 8 = ground arith in
      let k : length buffer ≤ 27 + 7 * (i % 8) = room started in
      let (test, few) = fitting i buffer b h k in
      (buffer ++ dump_byte b, (rw (inside, test) refl), λ later. omega (arith, few, later))
]

dump_from-fits :
    (i : ℕ) (bytes buffer : Bytes)
    → AllBytes bytes
    → Room i buffer
    → (lines : List Bytes) × (dump_from i bytes buffer ≡ some lines)
unfolding dump_from
dump_from-fits i [] buffer all room = (_, refl)
dump_from-fits i (b ∷ bs) buffer (h, all) room =
    let (line, e, next) = line_with-fits i buffer b h room in
    let (lines, rest) = dump_from-fits (suc i) bs line all next in
    let all_lines = if i % 8 == 0 && not (i == 0) then buffer ∷ lines else lines in
    (all_lines, (rw (e, dump_from, rest) refl))

pub elements-AllBytes : (n : ℕ) (bytes : Bytes) → AllBytes (elements n bytes)
unfolding elements
elements-AllBytes zero bytes = tt
elements-AllBytes (suc n) [] = (omega arith, elements-AllBytes n [])
elements-AllBytes (suc n) (b ∷ bs) = (omega arith, elements-AllBytes n bs)

-- A descriptor of any length whose elements are bytes is dumped without writing past either array.
pub dump_descriptor-fits :
    (bytes : Bytes) → AllBytes bytes → (lines : List Bytes) × (dump_descriptor bytes ≡ some lines)
unfolding dump_descriptor
dump_descriptor-fits bytes all = dump_from-fits 0 bytes (dump_head 0) all λ h. absurd (omega arith)
