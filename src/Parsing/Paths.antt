-- ===== src/Parsing/Paths.antt =====
-- `hid_prepare_parse_path` of src/hid_parsing.c: the path that the HID parser is given.
use libhid.Base.{
  ℕ, zero, suc, ◌+◌, ◌*◌, ◌≤◌, ◌<◌, ◌≡◌, refl, ap, ◌∙◌, false, none, some, inl, inr, arith, List,
  ◌++◌, map, append_assoc, ltb, ltb→lt, lt→ltb, le→ltb, Bool-cases, Option-cases, take-drop, length,
  get_elem?, get_elem?_in, get_or, set, take, drop, take-suc-set, drop-set, length-set, drop_lem,
}
use libhid.Types.{Node}
use libhid.Parsing.{node_of, fill_nodes}

node_low : (w : ℕ) → w < 2147483648 → (node_of w).upage * 65536 + (node_of w).usage ≡ w
unfolding node_of
node_low w h = rw (lt→ltb w 2147483648 h) (omega arith)

node_high :
    (w : ℕ) → 2147483648 ≤ w → w < 4294967296 → (node_of w).upage * 65536 + (node_of w).usage ≡ w
unfolding node_of
node_high w h k = rw (le→ltb w 2147483648 h) (omega arith)

at_least : (n m : ℕ) → ltb n m ≡ false → m ≤ n
at_least n m h = ground arith

-- A path's element, an `int` given by its 32-bit pattern, is split into the usage page, its upper 16
-- bits, and the usage, its lower 16 bits, also if it is negative: the two give the element back.
node_of-round_trip : (w : ℕ) → w < 4294967296 → (node_of w).upage * 65536 + (node_of w).usage ≡ w
node_of-round_trip w h = elim (Bool-cases (ltb w 2147483648)) [
  | inl small ↦ node_low w (ltb→lt w 2147483648 small)
  | inr big ↦ node_high w (at_least w 2147483648 big) h
]

fill_nodes_fits :
    (path : List ℕ) (k i : ℕ) (nodes : List Node)
    → i + k ≤ length path
    → i + k ≤ length nodes
    → fill_nodes path k i nodes
      ≡ some (take i nodes ++ (map node_of (take k (drop i path)) ++ drop (i + k) nodes))
unfolding fill_nodes
fill_nodes_fits path zero i nodes h g =
    let e : i + zero ≡ i = omega arith in rw (e, take-drop nodes i)
fill_nodes_fits path (suc k) i nodes h g =
    let v : Node = node_of (get_or path i 0) in
    let room : i < length nodes = omega arith in
    let rest =
      fill_nodes_fits path k (suc i) (set nodes i v) (omega arith)
        (omega (arith, length-set nodes i v)) in
    let round : i + suc k ≡ suc i + k = omega arith in
    rw (get_elem?_in path i 0 (omega arith), fill_nodes, lt→ltb i (length nodes) room)
      (rest
        ∙ ap some (
            rw (
              take-suc-set nodes i v room,
              drop-set nodes i (suc i + k) v (omega arith),
              drop_lem path i 0 (omega arith),
              round,
              append_assoc,
            )))

fill_nodes_over :
    (path : List ℕ) (k i : ℕ) (nodes : List Node)
    → i ≤ length nodes
    → length nodes < i + k
    → fill_nodes path k i nodes ≡ none
unfolding fill_nodes
fill_nodes_over path zero i nodes g h = absurd (omega arith)
fill_nodes_over path (suc k) i nodes g h = elim (Option-cases (get_elem? path i)) [
  | inl outside ↦ rw (outside, fill_nodes)
  | inr (w, there) ↦
      rw (there, fill_nodes)
        (elim (Bool-cases (ltb i (length nodes))) [
          | inr full ↦ rw full
          | inl room ↦ rw room (
              fill_nodes_over path k (suc i) (set nodes i (node_of w))
                (omega (arith, length-set nodes i (node_of w), ltb→lt i (length nodes) room))
                (omega (arith, length-set nodes i (node_of w))))
        ])
]

-- The loop of `hid_prepare_parse_path` writes the first `depth` elements of the path, each split, to
-- the front of the parser's array and keeps the rest of it, if path and array are long enough; a
-- depth over the array's length makes it write outside the array.
pub fill_nodes_lem :
    (path : List ℕ) (depth : ℕ) (nodes : List Node)
    → depth ≤ length path
    → (depth ≤ length nodes
        → fill_nodes path depth 0 nodes ≡ some (map node_of (take depth path) ++ drop depth nodes))
      × (length nodes < depth → fill_nodes path depth 0 nodes ≡ none)
fill_nodes_lem path depth nodes h = (
  λ g.
      fill_nodes_fits path depth 0 nodes (omega arith) (omega arith)
      ∙ (let e : zero + depth ≡ depth = omega arith in rw e refl),
  λ g. fill_nodes_over path depth 0 nodes (omega arith) (omega arith),
)
