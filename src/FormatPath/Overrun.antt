-- ===== src/FormatPath/Overrun.antt =====
-- The memory that `hid_format_path` of src/hid_parsing.c needs.
use libhid.Base.{
  ℕ, zero, suc, ◌+◌, ◌-◌, ◌*◌, ◌≤◌, ◌<◌, ◌≡◌, refl, ◌∙◌, false, none, some, inl, inr, arith, List,
  [], ◌∷◌, ◌++◌, ltb, lt→ltb, le→ltb, Bytes, length, get_elem?, get_elem?_in, get_or, take, drop,
  replicate, codes, length-append, length-take, length-replicate, Option-cases,
}
use libhid.Types.{success}
use libhid.Printf.{show_hex, digits_from}
use libhid.FormatPath.{item_size, write_at, item_text, format_from, hid_format_path}

at_least : (w k : ℕ) → k ≤ length (show_hex k w)
unfolding show_hex
at_least w k =
    let text : Bytes = digits_from 16 20 w [] in
    let zeros : Bytes = replicate (k - length text) b'0' in
    let many : length zeros ≡ k - length text = length-replicate (k - length text) b'0' in
    omega (arith, length-append zeros text, many)

-- An element's text fills its slot, and the NUL comes behind it.
length-item_text : (w : ℕ) → length (item_text w ++ 0 ∷ []) ≡ 12
unfolding item_text
length-item_text w =
    let digits = show_hex 8 w in
    let tail : Bytes = digits ++ codes "." in
    let whole : Bytes = codes "0x" ++ tail in
    omega (
      arith,
      length-append (take item_size whole) (0 ∷ []),
      length-take item_size whole,
      length-append (codes "0x") tail,
      length-append digits (codes "."),
      at_least w 8,
    )

pub length-drop : (xs : Bytes) (n : ℕ) → length (drop n xs) ≡ length xs - n
length-drop xs zero = omega arith
length-drop [] (suc n) = omega arith
length-drop (x ∷ xs) (suc n) = omega (arith, length-drop xs n)

-- A write keeps the block's size.
write_at-length :
    (memory : Bytes) (at : ℕ) (text : Bytes)
    → at + length text ≤ length memory
    → (m : Bytes) × (write_at memory at text ≡ some m) × (length m ≡ length memory)
unfolding write_at
write_at-length memory at text h =
    let behind : Bytes = drop (at + length text) memory in
    (
      take at memory ++ (text ++ behind),
      rw (le→ltb (length memory) (at + length text) h),
      omega (
        arith,
        length-append (take at memory) (text ++ behind),
        length-append text behind,
        length-take at memory,
        length-drop memory (at + length text),
      ),
    )

write_at_over :
    (memory : Bytes) (at : ℕ) (text : Bytes)
    → length memory < at + length text
    → write_at memory at text ≡ none
unfolding write_at
write_at_over memory at text h = rw (lt→ltb (length memory) (at + length text) h)

-- The loop from the element `i` on, with `k + 1` elements to go and a block that ends with the last
-- of them.
format_from_over :
    (path : List ℕ) (k i room : ℕ) (memory : Bytes)
    → i + suc k ≤ length path
    → length memory ≡ (i + suc k) * 11
    → room ≡ suc k * 11
    → format_from path (suc k) i room memory ≡ none
unfolding format_from
format_from_over path zero i room memory inside size left =
    let enough : ltb room item_size ≡ false = le→ltb room item_size (omega arith) in
    elim (Option-cases (get_elem? path i)) [
      | inl outside ↦ rw (enough, outside, format_from)
      | inr (w, there) ↦
          let text : Bytes = item_text w ++ 0 ∷ [] in
          let over =
            write_at_over memory (i * item_size) text (omega (arith, length-item_text w)) in
          rw (enough, there, over, format_from)
    ]
format_from_over path (suc k) i room memory inside size left =
    let enough : ltb room item_size ≡ false = le→ltb room item_size (omega arith) in
    elim (Option-cases (get_elem? path i)) [
      | inl outside ↦ rw (enough, outside, format_from)
      | inr (w, there) ↦
          let text : Bytes = item_text w ++ 0 ∷ [] in
          let (m, written, same) =
            write_at-length memory (i * item_size) text (omega (arith, length-item_text w)) in
          rw (enough, there, written, format_from)
            (format_from_over path k (suc i) (room - item_size) m (omega arith)
              (omega (arith, same)) (omega arith))
    ]

-- `hid_format_path` writes outside of a block of `depth * 11` bytes, the size that `hid_find_object`
-- allocates and passes, whatever the elements of the path are, if the path has at least one.
pub hid_format_path_overruns :
    (path : List ℕ) (k : ℕ) (memory : Bytes)
    → suc k ≤ length path
    → length memory ≡ suc k * 11
    → hid_format_path (some memory) (suc k * 11) path (suc k) ≡ none
unfolding hid_format_path
hid_format_path_overruns path k memory inside size =
    format_from_over path k 0 (suc k * 11) memory (omega arith) (omega arith) refl

-- The same loop with one byte more behind the last element.
format_from_fits :
    (path : List ℕ) (k i room : ℕ) (memory : Bytes)
    → i + k ≤ length path
    → 1 ≤ i + k
    → (i + k) * 11 < length memory
    → room ≡ k * 11
    → (m : Bytes) × (format_from path k i room memory ≡ some (record { ret = success; memory = m }))
      × (length m ≡ length memory)
unfolding format_from
format_from_fits path zero zero room memory inside some_element size left = absurd (omega arith)
format_from_fits path zero (suc i) room memory inside some_element size left =
    let (m, written, same) =
      write_at-length memory (suc i * item_size - 1) (0 ∷ []) (omega arith) in
    (m, rw (written, format_from), same)
format_from_fits path (suc k) i room memory inside some_element size left =
    let enough : ltb room item_size ≡ false = le→ltb room item_size (omega arith) in
    let w : ℕ = get_or path i 0 in
    let there = get_elem?_in path i 0 (omega arith) in
    let text : Bytes = item_text w ++ 0 ∷ [] in
    let (m, written, same) =
      write_at-length memory (i * item_size) text (omega (arith, length-item_text w)) in
    let (m', rest, kept) =
      format_from_fits path k (suc i) (room - item_size) m (omega arith) (omega arith)
        (omega (arith, same)) (omega arith) in
    (m', rw (enough, there, written, format_from) rest, kept ∙ same)

-- One byte more than `hid_find_object` allocates is enough: `hid_format_path` then succeeds and stays
-- inside of the block, for every path that has at least `depth` elements, and at least one.
pub hid_format_path_fits :
    (path : List ℕ) (depth : ℕ) (memory : Bytes)
    → depth ≤ length path
    → 1 ≤ depth
    → depth * 11 < length memory
    → (m : Bytes) × (hid_format_path (some memory) (depth * 11) path depth
        ≡ some (record { ret = success; memory = m }))
      × (length m ≡ length memory)
unfolding hid_format_path
hid_format_path_fits path depth memory inside some_element size =
    format_from_fits path depth 0 (depth * 11) memory (omega arith) (omega arith) (omega arith) refl
