-- ===== src/FormatPath.antt =====
-- `hid_format_path` of src/hid_parsing.c, with the memory that it writes.
pub mod Overrun
pub mod Text
use libhid.Base.{
  ℕ, zero, suc, ◌+◌, ◌-◌, ◌*◌, Option, none, some, List, [], ◌∷◌, ◌++◌, ltb, if◌then◌else◌, Bytes,
  length, get_elem?, take, drop, codes,
}
use libhid.Types.{HidReturn, success, invalid_parameter, out_of_space}
use libhid.Printf.{show_hex}

-- `sizeof("0xdeadbeef")`
abbrev pub item_size : ℕ
item_size = 11

-- A write of some bytes at an offset, which faults past the block's end.
unfoldable pub write_at : Bytes → ℕ → Bytes → Option Bytes
write_at memory at text =
    if ltb (length memory) (at + length text)
    then none
    else some (take at memory ++ (text ++ drop (at + length text) memory))

-- What `snprintf(…, ITEMSIZE + 1, "0x%08x.", path[i])` writes before the NUL.
unfoldable pub item_text : ℕ → Bytes
item_text w = take item_size (codes "0x" ++ (show_hex 8 w ++ codes "."))

pub record Formatted : Type 0 where
  pub ret : HidReturn
  pub memory : Bytes

-- The loop, `k` rounds from `i` on, and the final `buffer[i * ITEMSIZE - 1] = '\0'`.
unfoldable pub format_from : List ℕ → ℕ → ℕ → ℕ → Bytes → Option Formatted
format_from path zero zero room memory = none
format_from path zero (suc i) room memory =
    elim (write_at memory (suc i * item_size - 1) (0 ∷ [])) [
      | none ↦ none
      | some m ↦ some (record { ret = success; memory = m })
    ]
format_from path (suc k) i room memory =
    if ltb room item_size
    then some (record { ret = out_of_space; memory = memory })
    else elim (get_elem? path i) [
      | none ↦ none
      | some w ↦ elim (write_at memory (i * item_size) (item_text w ++ 0 ∷ [])) [
        | none ↦ none
        | some m ↦ format_from path k (suc i) (room - item_size) m
      ]
    ]

-- `buffer` is the block that the caller points to, or `none` for NULL; `room` is the argument
-- `length`. The result `none` is a write or read outside of the blocks.
unfoldable pub hid_format_path : Option Bytes → ℕ → List ℕ → ℕ → Option Formatted
hid_format_path none room path depth = some (record { ret = invalid_parameter; memory = [] })
hid_format_path (some memory) room path depth = format_from path depth 0 room memory
