-- ===== src/Detach/Ids.antt =====
-- How src/libhid-detach-device.c reads the two identifiers of its argument.
pub mod Laws
use libhid.Base.{
  ℕ, ◌+◌, ◌-◌, ◌*◌, ◌^◌, ◌%◌, Option, none, some, [], ◌∷◌, ◌++◌, ◌&&◌, leb, if◌then◌else◌, Bytes,
  codes, take, drop,
}

-- A hexadecimal digit in either case.
unfoldable pub hex_digit : ℕ → Option ℕ
hex_digit c =
    if leb b'0' c && leb c b'9'
    then some (c - b'0')
    else if leb b'a' c && leb c b'f'
    then some (c - b'a' + 10)
    else if leb b'A' c && leb c b'F'
    then some (c - b'A' + 10)
    else none

-- The digits that `strtol` reads; `none` is a read past the array's end.
unfoldable pub hex_run : Bytes → ℕ → Option ℕ
hex_run [] acc = none
hex_run (c ∷ cs) acc = elim (hex_digit c) [ none ↦ some acc | some d ↦ hex_run cs (acc * 16 + d) ]

-- The array after `memcpy` of the prefix and `strncpy` of four characters. Its seventh byte is never
-- written: `junk` is what it holds.
unfoldable pub id_buffer : Bytes → ℕ → Bytes
id_buffer chars junk = codes "0x" ++ (take 4 chars ++ junk ∷ [])

-- `strtol(…, NULL, 16)` of an array that begins with the prefix, so with no white space and no sign.
unfoldable pub strtol_hex : Bytes → Option ℕ
strtol_hex buffer = hex_run (drop 2 buffer) 0

-- `0xffff & strtol(…)`, kept in an `unsigned short`.
unfoldable pub parse_id : Bytes → ℕ → Option ℕ
parse_id chars junk = elim (strtol_hex (id_buffer chars junk)) [
  | none ↦ none
  | some n ↦ some (n % 2 ^ 16)
]
