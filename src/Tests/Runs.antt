-- ===== src/Tests/Runs.antt =====
-- Runs of the library in the small world.
use libhid.Base.{◌≡◌, refl, some, none, [], ◌∷◌, ◌++◌, replicate, codes}
use libhid.Types.{success}
use libhid.FormatPath.{write_at, item_text, format_from, hid_format_path}
use libhid.Printf.{show_hex}

-- One element needs 11 bytes and the NUL that `snprintf` writes, so a block of 12 will do.
format_one :
    hid_format_path (some (replicate 12 0)) 11 (0x00010002 ∷ []) 1
    ≡ some (record { ret = success; memory = codes "0x00010002" ++ 0 ∷ 0 ∷ [] })
unfolding hid_format_path format_from write_at item_text show_hex
format_one = refl

-- A block of the size that `hid_find_object` allocates does not.
format_over : hid_format_path (some (replicate 11 0)) 11 (0x00010002 ∷ []) 1 ≡ none
unfolding hid_format_path format_from write_at item_text show_hex
format_over = refl
