-- ===== src/FormatPath/Text.antt =====
-- The text that `hid_format_path` of src/hid_parsing.c writes.
use libhid.Base.{
  ℕ, zero, suc, ◌+◌, ◌-◌, ◌*◌, ◌/◌, ◌%◌, ◌≤◌, ◌<◌, ◌≡◌, refl, sym, ap, ◌∙◌, false, some, inl, inr,
  arith, List, [], ◌∷◌, ◌++◌, ltb, ltb→lt, le→ltb, Bytes, length, get_elem?_in, get_or, take, drop,
  drop_lem, replicate, codes, length-append, length-replicate, take-length_append, append_assoc,
  Bool-cases,
}
use libhid.Types.{success}
use libhid.Printf.{show_hex, digits_from, digit}
use libhid.Printf.Fuel.{digits_last, digits_more}
use libhid.FormatPath.Overrun.{length-drop}
use libhid.FormatPath.{item_size, write_at, item_text, format_from, hid_format_path}

-- "0x%08x"
abbrev pub element : ℕ → Bytes
element w = codes "0x" ++ show_hex 8 w

-- The elements that follow, with a point before each.
abbrev pub following : List ℕ → Bytes
following [] = []
following (w ∷ ws) = b'.' ∷ (element w ++ following ws)

-- A path as text: its elements with points between them.
abbrev pub path_line : List ℕ → Bytes
path_line [] = []
path_line (w ∷ ws) = element w ++ following ws

-- Every element is an `int`'s pattern.
abbrev pub AllWords : List ℕ → Type 0
AllWords [] = Unit
AllWords (w ∷ ws) = (w < 4294967296) × AllWords ws

word_at : (path : List ℕ) (i : ℕ) → AllWords path → get_or path i 0 < 4294967296
word_at [] i all = omega arith
word_at (w ∷ ws) zero (h, all) = h
word_at (w ∷ ws) (suc i) (h, all) = word_at ws i all

abbrev sixteen_to : ℕ → ℕ
sixteen_to zero = 1
sixteen_to (suc k) = 16 * sixteen_to k

-- A number below 16 ^ k has at most k digits.
few_digits :
    (k fuel n : ℕ) (out : Bytes)
    → n < sixteen_to (suc k)
    → k < fuel
    → length (digits_from 16 fuel n out) ≤ suc k + length out
few_digits k zero n out h room = absurd (omega arith)
few_digits zero (suc fuel) n out h room = rw (digits_last fuel n out (omega arith)) (omega arith)
few_digits (suc k) (suc fuel) n out h room = elim (Bool-cases (ltb n 16)) [
  | inl last ↦ rw (digits_last fuel n out (ltb→lt n 16 last)) (omega arith)
  | inr more ↦
      let over : 16 ≤ n = ground arith in
      let rest = few_digits k fuel (n / 16) (digit (n % 16) ∷ out) (omega arith) (omega arith) in
      rw (digits_more fuel n out over) (omega (arith, rest))
]

length-element : (w : ℕ) → w < 4294967296 → length (element w) ≡ 10
unfolding show_hex
length-element w h =
    let text : Bytes = digits_from 16 20 w [] in
    let zeros : Bytes = replicate (8 - length text) b'0' in
    omega (
      arith,
      few_digits 7 20 w [] (omega arith) (omega arith),
      length-append (codes "0x") (zeros ++ text),
      length-append zeros text,
      length-replicate {A = ℕ} (8 - length text) b'0',
    )

take_all : (n : ℕ) (xs : Bytes) → length xs ≡ n → take n xs ≡ xs
take_all zero [] h = refl
take_all (suc n) [] h = refl
take_all zero (x ∷ xs) h = absurd (omega arith)
take_all (suc n) (x ∷ xs) h = ap (λ (t : Bytes). x ∷ t) (take_all n xs (omega arith))

-- What `snprintf` writes for one element is not cut.
item_text_lem : (w : ℕ) → w < 4294967296 → item_text w ≡ element w ++ b'.' ∷ []
unfolding item_text
item_text_lem w h =
    take_all 11 (codes "0x" ++ (show_hex 8 w ++ codes ".")) (
      omega (
        arith,
        length-element w h,
        length-append (element w) (codes "."),
        ap length (append_assoc (codes "0x") (show_hex 8 w) (codes ".")),
      ))
    ∙ sym (append_assoc (codes "0x") (show_hex 8 w) (codes "."))

drop-append : (pre rest : Bytes) (k : ℕ) → drop (length pre + k) (pre ++ rest) ≡ drop k rest
drop-append [] rest k = ap (λ n. drop n rest) (omega arith)
drop-append (x ∷ pre) rest k =
    let e : suc (length pre) + k ≡ suc (length pre + k) = omega arith in
    rw e (drop-append pre rest k)

-- A write where the first part of the block ends.
write_at-append :
    (pre rest text : Bytes) (at : ℕ)
    → length pre ≡ at
    → length text ≤ length rest
    → write_at (pre ++ rest) at text ≡ some (pre ++ (text ++ drop (length text) rest))
unfolding write_at
write_at-append pre rest text at e room =
    let inside : ltb (length (pre ++ rest)) (at + length text) ≡ false =
      le→ltb _ _ (omega (arith, e, room, length-append pre rest)) in
    rw (inside, sym e, take-length_append pre rest, drop-append pre rest (length text)) refl

drop-nil : (n : ℕ) → drop {A = ℕ} n [] ≡ []
drop-nil zero = refl
drop-nil (suc n) = refl

drop-drop : (n k : ℕ) (xs : Bytes) → drop k (drop n xs) ≡ drop (n + k) xs
drop-drop zero k xs = ap (λ m. drop m xs) (omega arith)
drop-drop (suc n) k [] = drop-nil k ∙ sym (drop-nil (suc n + k))
drop-drop (suc n) k (x ∷ xs) =
    let e : suc n + k ≡ suc (n + k) = omega arith in rw e (drop-drop n k xs)

-- One element behind another, whose NUL it covers.
write_element :
    (front rest : Bytes) (w at : ℕ)
    → w < 4294967296
    → length front + 1 ≡ at
    → 11 ≤ length rest
    → write_at (front ++ b'.' ∷ 0 ∷ rest) at (item_text w ++ 0 ∷ [])
      ≡ some ((front ++ b'.' ∷ element w) ++ b'.' ∷ 0 ∷ drop 11 rest)
write_element front rest w at h e room =
    let text : Bytes = (element w ++ b'.' ∷ []) ++ 0 ∷ [] in
    let twelve : length text ≡ 12 = omega (
      arith,
      length-element w h,
      length-append (element w ++ b'.' ∷ []) (0 ∷ []),
      length-append (element w) (b'.' ∷ []),
    ) in
    let written =
      write_at-append (front ++ b'.' ∷ []) (0 ∷ rest) text at
        (omega (arith, e, length-append front (b'.' ∷ []))) (omega (arith, twelve, room)) in
    let joined : Bytes → Bytes = λ (behind : Bytes). (front ++ b'.' ∷ []) ++ (text ++ behind) in
    rw (item_text_lem w h, sym (append_assoc front (b'.' ∷ []) (0 ∷ rest)))
      (written
        ∙ ap (λ (n : ℕ). some (joined (drop n (0 ∷ rest)))) twelve
        ∙ ap (λ (m : Bytes). some m) (simp append_assoc))

-- The loop behind an element: `front` ends before the element's point, and the element's NUL follows.
format_from_after :
    (path : List ℕ) (k i room : ℕ) (front rest : Bytes)
    → AllWords path
    → suc i + k ≤ length path
    → length front ≡ i * 11 + 10
    → k * 11 ≤ length rest
    → k * 11 ≤ room
    → format_from path k (suc i) room (front ++ b'.' ∷ 0 ∷ rest)
      ≡ some (record {
        ret = success;
        memory = front ++ (following (take k (drop (suc i) path)) ++ 0 ∷ 0 ∷ drop (k * 11) rest);
      })
unfolding format_from
format_from_after path zero i room front rest all inside size space left =
    let e =
      write_at-append front (b'.' ∷ 0 ∷ rest) (0 ∷ []) (suc i * item_size - 1) (omega (arith, size))
        (omega arith) in
    rw (e, format_from) refl
format_from_after path (suc k) i room front rest all inside size space left =
    let enough : ltb room item_size ≡ false = le→ltb room item_size (omega arith) in
    let w : ℕ = get_or path (suc i) 0 in
    let small = word_at path (suc i) all in
    let there = get_elem?_in path (suc i) 0 (omega arith) in
    let e =
      write_element front rest w (suc i * item_size) small (omega (arith, size)) (omega arith) in
    let follows = drop_lem path (suc i) 0 (omega arith) in
    let again =
      format_from_after path k (suc i) (room - item_size) (front ++ b'.' ∷ element w) (drop 11 rest)
        all (omega arith)
        (omega (arith, size, length-append front (b'.' ∷ element w), length-element w small))
        (omega (arith, length-drop rest 11)) (omega arith) in
    let behind : drop (k * 11) (drop 11 rest) ≡ drop (suc k * 11) rest =
      drop-drop 11 (k * 11) rest ∙ ap (λ n. drop n rest) (omega arith) in
    rw (enough, there, e, format_from) (again ∙ rw (behind, follows) (simp append_assoc))

first_element :
    (memory : Bytes) (w : ℕ)
    → w < 4294967296
    → 12 ≤ length memory
    → write_at memory 0 (item_text w ++ 0 ∷ []) ≡ some (element w ++ b'.' ∷ 0 ∷ drop 12 memory)
first_element memory w h room =
    let text : Bytes = (element w ++ b'.' ∷ []) ++ 0 ∷ [] in
    let twelve : length text ≡ 12 = omega (
      arith,
      length-element w h,
      length-append (element w ++ b'.' ∷ []) (0 ∷ []),
      length-append (element w) (b'.' ∷ []),
    ) in
    rw (item_text_lem w h) (
      write_at-append [] memory text 0 refl (omega (arith, twelve, room))
      ∙ ap (λ (n : ℕ). some (text ++ drop n memory)) twelve
      ∙ ap (λ (m : Bytes). some m) (simp append_assoc))

-- Where the block has more than eleven bytes for each of at least one element and `length` allows for
-- as many, `hid_format_path` succeeds: the block begins with the elements of the path up to `depth`,
-- each as 0x and eight hexadecimal digits, with points between them, and two NULs; the rest of the
-- block is as it was.
pub hid_format_path-path_line :
    (path : List ℕ) (depth room : ℕ) (memory : Bytes)
    → AllWords path
    → 1 ≤ depth
    → depth ≤ length path
    → depth * 11 ≤ room
    → depth * 11 < length memory
    → hid_format_path (some memory) room path depth
      ≡ some (record {
        ret = success;
        memory = path_line (take depth path) ++ 0 ∷ 0 ∷ drop (suc (depth * 11)) memory;
      })
unfolding hid_format_path format_from
hid_format_path-path_line path zero room memory all some_element inside left size =
    absurd (omega arith)
hid_format_path-path_line [] (suc k) room memory all some_element inside left size =
    absurd (omega arith)
hid_format_path-path_line (w ∷ ws) (suc k) room memory (h, all) some_element inside left size =
    let enough : ltb room item_size ≡ false = le→ltb room item_size (omega arith) in
    let again =
      format_from_after (w ∷ ws) k 0 (room - item_size) (element w) (drop 12 memory) (h, all)
        (omega arith) (omega (arith, length-element w h)) (omega (arith, length-drop memory 12))
        (omega arith) in
    let sum : 12 + k * 11 ≡ suc (suc k * 11) = omega arith in
    let behind : drop (k * 11) (drop 12 memory) ≡ drop (suc (suc k * 11)) memory =
      drop-drop 12 (k * 11) memory ∙ ap (λ n. drop n memory) sum in
    rw (enough, first_element memory w h (omega arith), format_from)
      (again ∙ rw behind (simp append_assoc))
