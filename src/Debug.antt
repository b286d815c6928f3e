-- ===== src/Debug.antt =====
-- The debug output: src/debug.c, the macros of include/debug.h and include/hid_assert.h, and the levels
-- of include/hid.h.
pub mod Trace
pub mod Bits
pub mod Laws
use libhid.Base.{
  ℕ, ℤ, Bool, true, false, not, ◌&&◌, Option, none, some, List, [], ◌∷◌, ◌++◌, ◌==◌, if◌then◌else◌,
  Bytes, codes, bit_and, bit_or,
}
use libhid.Printf.{show_nat}

-- `HIDDebugLevel`: the bits that may be combined.
pub data DebugLevel : Type 0 where
  errors warnings notices traces asserts : DebugLevel

unfoldable pub level_bit : DebugLevel → ℕ
level_bit errors = 0x1
level_bit warnings = 0x2
level_bit notices = 0x4
level_bit traces = 0x8
level_bit asserts = 0x10

abbrev pub hid_debug_none : ℕ
hid_debug_none = 0x0

-- Levels combined by a bitwise or.
unfoldable pub mask_of : List DebugLevel → ℕ
mask_of [] = hid_debug_none
mask_of (l ∷ ls) = bit_or (level_bit l) (mask_of ls)

abbrev pub hid_debug_notraces : ℕ
hid_debug_notraces = mask_of (errors ∷ warnings ∷ notices ∷ asserts ∷ [])

abbrev pub hid_debug_all : ℕ
hid_debug_all = mask_of (errors ∷ warnings ∷ notices ∷ traces ∷ asserts ∷ [])

-- `hid_debug_level` and `hid_debug_stream`: `none` is NULL, and otherwise what the stream holds.
pub record DebugState : Type 0 where
  pub hid_debug_level : ℕ
  pub hid_debug_stream : Option Bytes

unfoldable pub debug_start : DebugState
debug_start = record { hid_debug_level = hid_debug_none; hid_debug_stream = none }

unfoldable pub hid_set_debug : ℕ → DebugState → DebugState
hid_set_debug level d = record d { hid_debug_level = level }

unfoldable pub hid_set_debug_stream : Option Bytes → DebugState → DebugState
hid_set_debug_stream outstream d = record d { hid_debug_stream = outstream }

-- The level of libusb's own messages: `usb_set_debug` is libusb's.
unfoldable pub hid_set_usb_debug : {W : Type 0} → (ℤ → W → W) → ℤ → W → W
hid_set_usb_debug usb_set_debug level w = usb_set_debug level w

-- `fprintf(hid_debug_stream, …)`
unfoldable pub write_debug : Bytes → DebugState → DebugState
write_debug text d = elim d.hid_debug_stream [
  | none ↦ d
  | some old ↦ record d { hid_debug_stream = some (old ++ text) }
]

-- The four macros that print a message of a function, and `ASSERT` with its condition.
pub data Event : Type 0 where
  trace notice warning error : Bytes → Bytes → Event
  assertion : Bool → Bytes → Bytes → ℕ → Bytes → Event

-- "%s: %s(): " and the message's own text with a new line.
unfoldable pub debug_line : Bytes → Bytes → Bytes → Bytes
debug_line label function text =
    label ++ codes ": " ++ function ++ codes "(): " ++ text ++ codes "\n"

unfoldable pub assert_line : Bytes → Bytes → ℕ → Bytes → Bytes
assert_line function file line condition =
    codes "*** ASSERTION FAILURE in "
    ++ function
    ++ codes "() ["
    ++ file
    ++ codes ":"
    ++ show_nat line
    ++ codes "]: "
    ++ condition
    ++ codes "\n"

-- `if (hid_debug_level & bit) { … }`
unfoldable pub at_level : DebugLevel → Bytes → DebugState → DebugState
at_level l text d = if bit_and d.hid_debug_level (level_bit l) == 0 then d else write_debug text d

unfoldable pub emit : Event → DebugState → DebugState
emit (trace function text) d = at_level traces (debug_line (codes "  TRACE") function text) d
emit (notice function text) d = at_level notices (debug_line (codes " NOTICE") function text) d
emit (warning function text) d = at_level warnings (debug_line (codes "WARNING") function text) d
emit (error function text) d = at_level errors (debug_line (codes "  ERROR") function text) d
emit (assertion holds function file line condition) d =
    if not holds then at_level asserts (assert_line function file line condition) d else d

-- What a program prints, in order.
unfoldable pub emit_all : List Event → DebugState → DebugState
emit_all [] d = d
emit_all (e ∷ es) d = emit_all es (emit e d)
