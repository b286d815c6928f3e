-- ===== src/Parsing.antt =====
-- src/hid_parsing.c: the parser of an interface and the calls of the HID parser.
-- An element of a path is an `int`, given by its 32-bit pattern, a number below 2 ^ 32.
pub mod Preparing
pub mod Paths
pub mod Dump
pub mod Finding
use libhid.Base.{
  ℕ, zero, suc, ◌+◌, ◌*◌, ◌/◌, ◌%◌, ◌^◌, Bool, not, Option, none, some, List, ltb, if◌then◌else◌,
  Bytes, ℤ, get_elem?, set, length,
}
use libhid.Types.{HidReturn, success, device_not_opened, fail_alloc, not_found, invalid_parameter}
use libhid.Types.{Node, HidData, HidParser, report_dsc_size}
use libhid.State.{deref, Env, M, pure, ◌>>=◌, ◌>>◌, load, store}
use libhid.Interface.{hid_is_opened}
use libhid.Parsing.Dump.{elements, dump_descriptor}
use libhid.FormatPath.{item_size, hid_format_path}

-- `path[i] >> 16`, an arithmetic shift, kept in an `unsigned short`; and `path[i] & 0xffff`.
unfoldable pub node_of : ℕ → Node
node_of w = record {
  upage = (w / 2 ^ 16 + (if ltb w (2 ^ 31) then 0 else 0xffff * 2 ^ 16)) % 2 ^ 16;
  usage = w % 2 ^ 16;
}

-- The loop `for (; i < depth; ++i)`, `k` rounds from `i` on. It faults on a read past the path's
-- end, and on a write past the array `Path.Node`, which has `length nodes` elements.
unfoldable pub fill_nodes : List ℕ → ℕ → ℕ → List Node → Option (List Node)
fill_nodes path zero i nodes = some nodes
fill_nodes path (suc k) i nodes = elim (get_elem? path i) [
  | none ↦ none
  | some w ↦
      let rest = fill_nodes path k (suc i) (set nodes i (node_of w)) in
      if ltb i (length nodes) then rest else none
]

module _ {W P : Type 0} where
  -- The dump of `ReportDesc[0]` to `ReportDesc[ReportDescSize - 1]`. It faults on a read past the
  -- array and on a write past one of the buffers; the lines themselves are only printed.
  unfoldable pub dump_raw : HidParser P → M W P (Unit {0})
  dump_raw q s =
      if ltb report_dsc_size q.report_desc_size
      then none
      else elim (dump_descriptor (elements q.report_desc_size q.report_desc)) [
        | none ↦ none
        | some _ ↦ some (tt, s)
      ]

  -- `Path.Size` is an `unsigned char`.
  unfoldable pub hid_prepare_parse_path : ℕ → List ℕ → ℕ → M W P (Unit {0})
  hid_prepare_parse_path hidif path depth = do
    i ← load hidif
    d ← deref i.hid_data
    nodes ← deref (fill_nodes path depth 0 d.nodes)
    store hidif
        (record i { hid_data = some (record d { nodes = nodes; path_size = depth % 2 ^ 8 }) })

module _ {W P : Type 0} (env : Env W P) where
  -- `malloc` of each block; a block counts once it is there.
  unfoldable pub allocate_data : M W P (Option HidData)
  allocate_data s =
      let r = env.malloc_data s.world in
      elim r.block [
        | none ↦ some (none, record s { world = r.after })
        | some d ↦ some (some d, record s { world = r.after; mallocs = suc s.mallocs })
      ]

  unfoldable pub allocate_parser : M W P (Option (HidParser P))
  allocate_parser s =
      let r = env.malloc_parser s.world in
      elim r.block [
        | none ↦ some (none, record s { world = r.after })
        | some q ↦ some (some q, record s { world = r.after; mallocs = suc s.mallocs })
      ]

  unfoldable pub hid_init_parser : ℕ → M W P HidReturn
  hid_init_parser hidif = do
    opened ← hid_is_opened hidif
    if not opened then pure device_not_opened else do
      d ← allocate_data
      i ← load hidif
      store hidif (record i { hid_data = d })
      elim d [
        | none ↦ pure fail_alloc
        | some _ ↦ do
          q ← allocate_parser
          j ← load hidif
          store hidif (record j { hid_parser = q })
          elim q [ none ↦ pure fail_alloc | some _ ↦ pure success ]
      ]

  -- `ResetParser`, which sets fields of the parser's own and leaves the descriptor and its size.
  abbrev pub restarted : HidParser P → HidParser P
  restarted q = record q { inner = env.reset_parser q.inner }

  unfoldable pub hid_reset_parser : ℕ → M W P (Unit {0})
  hid_reset_parser hidif = do
    opened ← hid_is_opened hidif
    if not opened then pure tt else do
      i ← load hidif
      q ← deref i.hid_parser
      store hidif (record i { hid_parser = some (restarted q) })

  unfoldable pub hid_prepare_parser : ℕ → M W P HidReturn
  hid_prepare_parser hidif = do
    opened ← hid_is_opened hidif
    if not opened then pure device_not_opened else do
      hid_reset_parser hidif
      i ← load hidif
      q ← deref i.hid_parser
      dump_raw q
      d ← deref i.hid_data
      let r = env.hid_parse q d
      store hidif (record i { hid_parser = some r.parser; hid_data = some r.hid_data })
      pure success

  -- The text of the warning: `malloc(depth * ITEMSIZE)`, `hid_format_path` and `free`.
  unfoldable pub report_missing : List ℕ → ℕ → M W P (Unit {0})
  report_missing path depth s =
      let r = env.malloc_chars (depth * item_size) s.world in
      elim r.block [
        | none ↦ some (tt, record s { world = r.after })
        | some b ↦ elim (hid_format_path (some b) (depth * item_size) path depth) [
          | none ↦ none
          | some _ ↦
              some (tt, record s { world = r.after; mallocs = suc s.mallocs; frees = suc s.frees })
        ]
      ]

  unfoldable pub hid_find_object : ℕ → List ℕ → ℕ → M W P HidReturn
  hid_find_object hidif path depth = do
    opened ← hid_is_opened hidif
    if not opened then pure device_not_opened else do
      hid_prepare_parse_path hidif path depth
      i ← load hidif
      q ← deref i.hid_parser
      d ← deref i.hid_data
      let r = env.find_object q d
      store hidif (record i { hid_parser = some r.parser; hid_data = some r.hid_data })
      if r.found then pure success else (do report_missing path depth; pure not_found)

  -- The two results that go through pointers: `none` is a NULL pointer passed by the caller. The value
  -- is the parser's; its conversion to a `double` is exact up to 53 bits and is left out.
  unfoldable pub hid_extract_value : ℕ → Option Bytes → Bool → M W P (HidReturn × Option ℤ)
  hid_extract_value hidif buffer value = do
    opened ← hid_is_opened hidif
    if not opened then pure (device_not_opened, none) else elim buffer [
      | none ↦ pure (invalid_parameter, none)
      | some bytes ↦ if not value then pure (invalid_parameter, none) else do
        i ← load hidif
        d ← deref i.hid_data
        let d' = env.get_value bytes d
        store hidif (record i { hid_data = some d' })
        pure (success, some d'.value)
    ]

  -- `GetReportOffset` may give NULL, which is dereferenced with no test.
  unfoldable pub hid_get_report_size : ℕ → ℕ → ℕ → M W P (HidReturn × Option ℕ)
  hid_get_report_size hidif report_id report_type = do
    opened ← hid_is_opened hidif
    if not opened then pure (device_not_opened, none) else do
      i ← load hidif
      q ← deref i.hid_parser
      let r = env.get_report_offset q report_id report_type
      store hidif (record i { hid_parser = some r.parser })
      size ← deref r.entry
      pure (success, some size)
