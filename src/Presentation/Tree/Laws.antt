-- ===== src/Presentation/Tree/Laws.antt =====
-- The loop of `hid_dump_tree` (src/hid_presentation.c) over the objects that the HID parser finds.
use libhid.Base.{
  ℕ, zero, suc, ◌+◌, ◌≤◌, ◌<◌, ◌≡◌, ◌≢◌, refl, ap, ◌∙◌, true, false, Option, some, inl, inr, arith,
  List, [], ◌∷◌, ◌++◌, map, append-nil, Bool-cases, Bytes, codes, length, get_or, get_elem?_in,
  take, drop, drop_lem,
}
use libhid.Types.{HidReturn, success, Node, HidData, HidParser, HidInterface}
use libhid.State.{Env, Library, and_then, update, load-some}
use libhid.State.Returns.{Returns, returns, load_then, deref_then, known_then}
use libhid.State.Effect.{Effect, Effect-trans, Effect-store}
use libhid.Interface.Laws.{hid_is_opened_open}
use libhid.Parsing.{hid_reset_parser, restarted}
use libhid.Printf.{show_hex}
use libhid.Presentation.{newline}
use libhid.Presentation.Tree.{node_text, path_text, item_line, Walked, printed, walk, hid_dump_tree}

-- Texts with a separator between each two.
abbrev pub join : Bytes → List Bytes → Bytes
join sep [] = []
join sep (x ∷ []) = x
join sep (x ∷ y ∷ rest) = x ++ sep ++ join sep (y ∷ rest)

-- An object's line: its path, joined by points, and its type.
pub line_of : HidData → Bytes
line_of d =
    codes "  path: "
    ++ join (codes ".") (map node_text (take d.path_size d.nodes))
    ++ codes "; type: 0x"
    ++ show_hex 2 d.item_type
    ++ newline

abbrev pub lines_of : List HidData → Bytes
lines_of [] = []
lines_of (d ∷ ds) = line_of d ++ lines_of ds

blank : Node
blank = record { upage = 0; usage = 0 }

-- One round.
path_text_step :
    (nodes : List Node) (k i : ℕ) (rest : Bytes)
    → i < length nodes
    → path_text nodes k (suc i) ≡ some rest
    → path_text nodes (suc k) i
      ≡ some
          (node_text (get_or nodes i blank) ++ (elim k [ zero ↦ [] | suc _ ↦ codes "." ]) ++ rest)
unfolding path_text
path_text_step nodes k i rest h e = rw (get_elem?_in nodes i blank h, e, path_text)

path_text_lem :
    (nodes : List Node) (k i : ℕ)
    → i + k ≤ length nodes
    → path_text nodes k i ≡ some (join (codes ".") (map node_text (take k (drop i nodes))))
unfolding path_text
path_text_lem nodes zero i h = refl
path_text_lem nodes (suc zero) i h =
    path_text_step nodes zero i [] (omega arith) refl
    ∙ ap some (
        append-nil (node_text (get_or nodes i blank) ++ [])
        ∙ append-nil (node_text (get_or nodes i blank)))
    ∙ (rw (drop_lem nodes i blank (omega arith)) refl)
path_text_lem nodes (suc (suc k)) i h =
    path_text_step nodes (suc k) i _ (omega arith)
      (path_text_lem nodes (suc k) (suc i) (omega arith))
    ∙ (rw (drop_lem nodes i blank (omega arith), drop_lem nodes (suc i) blank (omega arith)) refl)

item_line_lem : (d : HidData) → d.path_size ≤ length d.nodes → item_line d ≡ some (line_of d)
unfolding item_line line_of
item_line_lem d h = rw (path_text_lem d.nodes d.path_size 0 (omega arith), item_line)

-- The objects that the parser finds from one state on, in order, and the state in which it finds no
-- more.
pub data Parses {W P : Type 0} (env : Env W P)
    : HidParser P → HidData → List HidData → HidParser P → HidData → Type 0 where
  none_left :
      (q : HidParser P) (d : HidData)
      → (env.hid_parse q d).found ≡ false
      → Parses env q d [] (env.hid_parse q d).parser (env.hid_parse q d).hid_data
  object :
      (q : HidParser P) (d : HidData) {ds : List HidData} {q' : HidParser P} {d' : HidData}
      → (env.hid_parse q d).found ≡ true
      → Parses env (env.hid_parse q d).parser (env.hid_parse q d).hid_data ds q' d'
      → Parses env q d ((env.hid_parse q d).hid_data ∷ ds) q' d'

-- A parser that comes to an end: from the states that `IsSound` admits it gets on to such states, each
-- with less left to do and a path that fits into the array.
pub record Ends {W P : Type 0} (env : Env W P) (IsSound : HidParser P → HidData → Type 0)
    (left : HidParser P → HidData → ℕ) : Type 0 where
  pub sound :
      (q : HidParser P) (d : HidData)
      → IsSound q d
      → (env.hid_parse q d).found ≡ true
      → IsSound (env.hid_parse q d).parser (env.hid_parse q d).hid_data
  pub less :
      (q : HidParser P) (d : HidData)
      → IsSound q d
      → (env.hid_parse q d).found ≡ true
      → left (env.hid_parse q d).parser (env.hid_parse q d).hid_data < left q d
  pub fits :
      (q : HidParser P) (d : HidData)
      → IsSound q d
      → (env.hid_parse q d).found ≡ true
      → (env.hid_parse q d).hid_data.path_size ≤ length (env.hid_parse q d).hid_data.nodes

module _ {W P : Type 0} (env : Env W P) (IsSound : HidParser P → HidData → Type 0)
    (left : HidParser P → HidData → ℕ) (ends : Ends env IsSound left) where
  -- The loop's result and the objects behind it.
  abbrev Listed : HidParser P → HidData → Option (Walked P) → Type 0
  Listed q d w =
      (ds : List HidData) × (q' : HidParser P) × (d' : HidData) × Parses env q d ds q' d'
      × (w ≡ some (record { parser = q'; hid_data = d'; text = lines_of ds }))

  walk-Listed :
      (fuel : ℕ) (q : HidParser P) (d : HidData)
      → IsSound q d
      → left q d < fuel
      → Listed q d (walk env fuel q d)
  unfolding walk printed line_of
  walk-Listed zero q d sound enough = absurd (omega arith)
  walk-Listed (suc fuel) q d sound enough = elim (Bool-cases (env.hid_parse q d).found) [
    | inr stop ↦ (_, _, _, none_left q d stop, rw (stop, walk))
    | inl more ↦
        let r = env.hid_parse q d in
        let (ds, q', d', rest, e) =
          walk-Listed fuel r.parser r.hid_data (ends.sound q d sound more)
            (omega (arith, ends.less q d sound more)) in
        (
          _,
          q',
          d',
          object q d more rest,
          rw (more, e, item_line_lem r.hid_data (ends.fits q d sound more), walk, printed),
        )
  ]

-- What `hid_dump_tree` has done: the objects that the parser finds after its reset are printed, one on
-- a line, and only the interface's parser and data have changed.
pub record Dumped {W P : Type 0} (env : Env W P) (p : ℕ) (i : HidInterface P) (s : Library W P)
    (q : HidParser P) (d : HidData) (r : HidReturn) (text : Bytes) (t : Library W P) : Type 0 where
  pub result : r ≡ success
  pub now : HidInterface P
  pub effect : Effect p i s now t
  pub silent : t.calls ≡ s.calls
  pub objects : List HidData
  pub last : HidParser P
  pub last_data : HidData
  pub found : Parses env (restarted env q) d objects last last_data
  pub printed :
      text ≡ codes "parse tree of HIDInterface " ++ i.id ++ codes ":" ++ newline ++ lines_of objects
  pub parser : now.hid_parser ≡ some (restarted env last)
  pub hid_data : now.hid_data ≡ some last_data

module _ {W P : Type 0} (env : Env W P) (p : ℕ) (s : Library W P) {i : HidInterface P}
    (there : p ≢ 0) (object_there : s.interfaces p ≡ some i) (opened : i.dev_handle ≢ 0) where
  reset_open :
      {q : HidParser P}
      → i.hid_parser ≡ some q
      → hid_reset_parser env p s
        ≡ some (
          tt,
          record s {
            interfaces =
                update s.interfaces p (some (record i { hid_parser = some (restarted env q) }));
          },
        )
  unfolding and_then hid_reset_parser
  reset_open parser_there =
      rw
        (hid_is_opened_open p s there object_there opened, load-some p s object_there, parser_there)

module _ {W P : Type 0} (env : Env W P) (IsSound : HidParser P → HidData → Type 0)
    (left : HidParser P → HidData → ℕ) (ends : Ends env IsSound left) (p : ℕ) (s : Library W P)
    {i : HidInterface P} (there : p ≢ 0) (object_there : s.interfaces p ≡ some i)
    (opened : i.dev_handle ≢ 0) {q : HidParser P} {d : HidData} (data_there : i.hid_data ≡ some d)
    (parser_there : i.hid_parser ≡ some q) where
  -- `hid_dump_tree` of an open interface with a parser, to a stream, returns success if the HID parser
  -- comes to an end from its reset state and the fuel is over its measure. It prints a header and one
  -- line for each object that the parser finds, in order, with the object's path and type; it makes no
  -- call, resets the parser afterwards, and changes nothing but the interface's parser and data.
  pub hid_dump_tree-Dumped :
      (fuel : ℕ)
      → IsSound (restarted env q) d
      → left (restarted env q) d < fuel
      → Returns (λ (r, text) t. Dumped env p i s q d r text t) (hid_dump_tree env fuel true p s)
  unfolding and_then hid_dump_tree
  hid_dump_tree-Dumped fuel sound enough =
      let j : HidInterface P = record i { hid_parser = some (restarted env q) } in
      let t : Library W P = record s { interfaces = update s.interfaces p (some j) } in
      let e : Effect p i s j t = Effect-store object_there j (rw parser_there) in
      let (ds, q', d', found, ran) =
        walk-Listed env IsSound left ends fuel (restarted env q) d sound enough in
      let k : HidInterface P = record j { hid_parser = some q'; hid_data = some d' } in
      let u : Library W P = record t { interfaces = update t.interfaces p (some k) } in
      let f : Effect p j t k u = Effect-store e.object k (rw data_there) in
      let l : HidInterface P = record k { hid_parser = some (restarted env q') } in
      let g : Effect p k u l (record u { interfaces = update u.interfaces p (some l) }) =
        Effect-store f.object l refl in
      known_then _ (hid_is_opened_open p s there object_there opened) (
        known_then _ (reset_open env p s there object_there opened parser_there) (
          load_then _ p t e.object (
            deref_then _ j.hid_data t data_there (
              deref_then _ (walk env fuel (restarted env q) d) t ran (
                known_then _ (reset_open env p u there f.object opened refl) (
                  returns (record {
                    result = refl;
                    now = l;
                    effect = Effect-trans (Effect-trans e f) g;
                    silent = refl;
                    objects = ds;
                    last = q';
                    last_data = d';
                    found = found;
                    printed = refl;
                    parser = refl;
                    hid_data = refl;
                  })))))))
