-- ===== src/Presentation/Tree.antt =====
-- `hid_dump_tree` of src/hid_presentation.c, and the text that it prints.
pub mod Laws
use libhid.Base.{
  ℕ, zero, suc, ◌+◌, ◌*◌, Bool, true, false, not, Option, none, some, List, [], ◌∷◌, ◌++◌,
  if◌then◌else◌, Bytes, codes, bit_or, get_elem?,
}
use libhid.Types.{
  HidReturn, success, device_not_opened, invalid_parameter, Node, HidData, HidParser,
}
use libhid.State.{Env, M, pure, deref, ◌>>=◌, ◌>>◌, load, store}
use libhid.Interface.{hid_is_opened}
use libhid.Parsing.{hid_reset_parser}
use libhid.Printf.{show_hex}
use libhid.Presentation.{newline}

-- "0x%08x" of `(UPage << 16) | Usage`.
unfoldable pub node_text : Node → Bytes
node_text n = codes "0x" ++ show_hex 8 (bit_or (n.upage * 65536) n.usage)

-- The loop over the path, `k` rounds from `i` on, with a point after each element but the last. A
-- read past the array `Path.Node` is a fault.
unfoldable pub path_text : List Node → ℕ → ℕ → Option Bytes
path_text nodes zero i = some []
path_text nodes (suc k) i = elim (get_elem? nodes i) [
  | none ↦ none
  | some n ↦ elim (path_text nodes k (suc i)) [
    | none ↦ none
    | some rest ↦ some (node_text n ++ (elim k [ zero ↦ [] | suc _ ↦ codes "." ]) ++ rest)
  ]
]

-- The line of one object.
unfoldable pub item_line : HidData → Option Bytes
item_line d = elim (path_text d.nodes d.path_size 0) [
  | none ↦ none
  | some path ↦
      some (codes "  path: " ++ path ++ codes "; type: 0x" ++ show_hex 2 d.item_type ++ newline)
]

-- Where the loop ends, and what it has printed.
pub record Walked (P : Type 0) : Type 0 where
  pub parser : HidParser P
  pub hid_data : HidData
  pub text : Bytes

module _ {P : Type 0} where
  -- The line of a round before those of the rest.
  unfoldable pub printed : Option Bytes → Option (Walked P) → Option (Walked P)
  printed none rest = none
  printed (some line) none = none
  printed (some line) (some w) = some (record w { text = line ++ w.text })

module _ {W P : Type 0} (env : Env W P) where
  -- `while (HIDParse(hidif->hid_parser, hidif->hid_data))`, for at most as many rounds as there is
  -- fuel; `none` is a fault, or a loop that goes on when the fuel is gone.
  unfoldable pub walk : ℕ → HidParser P → HidData → Option (Walked P)
  walk zero q d = none
  walk (suc fuel) q d =
      let r = env.hid_parse q d in
      elim r.found [
        | true ↦ printed (item_line r.hid_data) (walk fuel r.parser r.hid_data)
        | false ↦ some (record { parser = r.parser; hid_data = r.hid_data; text = [] })
      ]

  unfoldable pub hid_dump_tree : ℕ → Bool → ℕ → M W P (HidReturn × Bytes)
  hid_dump_tree fuel out hidif = do
    opened ← hid_is_opened hidif
    if not opened
        then pure (device_not_opened, [])
        else if not out
        then pure (invalid_parameter, [])
        else do
          hid_reset_parser env hidif
          i ← load hidif
          q ← deref i.hid_parser
          d ← deref i.hid_data
          w ← deref (walk fuel q d)
          store hidif (record i { hid_parser = some w.parser; hid_data = some w.hid_data })
          hid_reset_parser env hidif
          pure (
            success,
            codes "parse tree of HIDInterface " ++ i.id ++ codes ":" ++ newline ++ w.text,
          )
