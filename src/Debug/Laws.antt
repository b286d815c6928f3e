-- ===== src/Debug/Laws.antt =====
-- Which messages the macros of include/debug.h and include/hid_assert.h print.
use Prim.Native.Nat.{max}
use libhid.Base.{
  ℕ, zero, suc, ◌*◌, ◌≤◌, ◌≡◌, ◌≢◌, refl, ap, sym, ◌∙◌, Bool, true, false, not, ◌&&◌, ◌||◌, none,
  some, List, [], ◌∷◌, ◌++◌, ◌==◌, ==_iff, if◌then◌else◌, Bytes, codes, bit_and, arith, inl, inr,
  Bool-cases, append-nil, append_assoc,
}
use libhid.Matching.Bits.{bit, zero-bit}
use libhid.Debug.{
  DebugLevel, errors, warnings, notices, traces, asserts, level_bit, mask_of, DebugState,
  hid_set_debug, hid_set_debug_stream, write_debug, Event, trace, notice, warning, error, assertion,
  debug_line, assert_line, at_level, emit, emit_all,
}
use libhid.Interface.Laws.{eq_false}
use libhid.Debug.Bits.{power, power-bit_self, power-bit_other, bit_or-bit, bit_and-power}

-- The levels in the order of their bits.
abbrev pub index : DebugLevel → ℕ
index errors = 0
index warnings = 1
index notices = 2
index traces = 3
index asserts = 4

level_bit-power : (l : DebugLevel) → level_bit l ≡ power (index l)
unfolding level_bit
level_bit-power errors = refl
level_bit-power warnings = refl
level_bit-power notices = refl
level_bit-power traces = refl
level_bit-power asserts = refl

-- Whether a level is on a list.
unfoldable pub chosen : List DebugLevel → DebugLevel → Bool
chosen [] l = false
chosen (m ∷ ms) l = index m == index l || chosen ms l

as_bit : Bool → ℕ
as_bit true = 1
as_bit false = 0

power_pos : (j : ℕ) → 1 ≤ power j
power_pos zero = omega arith
power_pos (suc j) = let rest = power_pos j in omega (arith, rest)

as_bit_le : (b : Bool) → as_bit b ≤ 1
unfolding as_bit
as_bit_le true = omega arith
as_bit_le false = omega arith

mask_of-bit :
    (ls : List DebugLevel) (l : DebugLevel) → bit (mask_of ls) (index l) ≡ as_bit (chosen ls l)
unfolding mask_of chosen as_bit
mask_of-bit [] l = zero-bit (index l)
mask_of-bit (m ∷ ms) l =
    bit_or-bit (level_bit m) (mask_of ms) (index l)
    ∙ ap (λ x. max x (bit (mask_of ms) (index l))) (ap (λ n. bit n (index l)) (level_bit-power m))
    ∙ ap (max (bit (power (index m)) (index l))) (mask_of-bit ms l)
    ∙ elim (Bool-cases (index m == index l)) [
      | inl same ↦
          let e : index l ≡ index m = sym ((==_iff (index m) (index l)).0 same) in
          let set : bit (power (index m)) (index l) ≡ 1 =
            ap (bit (power (index m))) e ∙ power-bit_self (index m) in
          let small : as_bit (chosen ms l) ≤ 1 = as_bit_le (chosen ms l) in
          rw (set, same) (omega arith)
      | inr other ↦
          let unset : bit (power (index m)) (index l) ≡ 0 =
            power-bit_other (index m) (index l) (λ e. cc ((==_iff (index m) (index l)).1 e)) in
          rw (unset, other) (omega arith)
    ]

-- The level of an event, whether it is one at all, and its text.
abbrev pub level_of : Event → DebugLevel
level_of (trace _ _) = traces
level_of (notice _ _) = notices
level_of (warning _ _) = warnings
level_of (error _ _) = errors
level_of (assertion _ _ _ _ _) = asserts

abbrev pub happens : Event → Bool
happens (assertion holds _ _ _ _) = not holds
happens _ = true

unfoldable pub text_of : Event → Bytes
text_of (trace function text) = debug_line (codes "  TRACE") function text
text_of (notice function text) = debug_line (codes " NOTICE") function text
text_of (warning function text) = debug_line (codes "WARNING") function text
text_of (error function text) = debug_line (codes "  ERROR") function text
text_of (assertion holds function file line condition) = assert_line function file line condition

-- The texts of the events that happen at one of the levels.
unfoldable pub shown : List DebugLevel → List Event → Bytes
shown ls [] = []
shown ls (e ∷ es) = (if happens e && chosen ls (level_of e) then text_of e else []) ++ shown ls es

-- With a stream.
abbrev to_stream : ℕ → Bytes → DebugState
to_stream level old = record { hid_debug_level = level; hid_debug_stream = some old }

at_level-chosen :
    (ls : List DebugLevel) (l : DebugLevel) (text old : Bytes)
    → at_level l text (to_stream (mask_of ls) old)
      ≡ to_stream (mask_of ls) (old ++ (if chosen ls l then text else []))
unfolding at_level write_debug as_bit
at_level-chosen ls l text old =
    let masked : bit_and (mask_of ls) (level_bit l) ≡ as_bit (chosen ls l) * power (index l) =
      ap (bit_and (mask_of ls)) (level_bit-power l)
      ∙ bit_and-power (mask_of ls) (index l)
      ∙ ap (λ x. x * power (index l)) (mask_of-bit ls l) in
    elim (Bool-cases (chosen ls l)) [
      | inl on ↦
          let some_bit : bit_and (mask_of ls) (level_bit l) ≡ power (index l) =
            masked ∙ (rw on (omega arith)) in
          rw (on, eq_false _ 0 (positive (index l) _ some_bit)) refl
      | inr off ↦
          let no_bit : bit_and (mask_of ls) (level_bit l) ≡ 0 = masked ∙ (rw off (omega arith)) in
          rw (off, no_bit, append-nil old) refl
    ]
  where
    positive : (j n : ℕ) → n ≡ power j → n ≢ 0
    positive j n e h = let least = power_pos j in absurd (omega (arith, e, h, least))

emit-shown :
    (ls : List DebugLevel) (e : Event) (old : Bytes)
    → emit e (to_stream (mask_of ls) old)
      ≡ to_stream
          (mask_of ls)
          (old ++ (if happens e && chosen ls (level_of e) then text_of e else []))
unfolding emit text_of
emit-shown ls (trace f t) old = at_level-chosen ls traces _ old
emit-shown ls (notice f t) old = at_level-chosen ls notices _ old
emit-shown ls (warning f t) old = at_level-chosen ls warnings _ old
emit-shown ls (error f t) old = at_level-chosen ls errors _ old
emit-shown ls (assertion true f n k t) old = ap (to_stream (mask_of ls)) (sym (append-nil old))
emit-shown ls (assertion false f n k t) old = at_level-chosen ls asserts _ old

emit_silent :
    (e : Event) (level : ℕ)
    → let d : DebugState = record { hid_debug_level = level; hid_debug_stream = none } in
      emit e d ≡ d
unfolding emit at_level write_debug
emit_silent (trace f t) level = ground arith
emit_silent (notice f t) level = ground arith
emit_silent (warning f t) level = ground arith
emit_silent (error f t) level = ground arith
emit_silent (assertion holds f n k t) level = ground arith

emit_all_stream :
    (ls : List DebugLevel) (es : List Event) (old : Bytes)
    → emit_all es (to_stream (mask_of ls) old) ≡ to_stream (mask_of ls) (old ++ shown ls es)
unfolding emit_all shown
emit_all_stream ls [] old = ap (to_stream (mask_of ls)) (sym (append-nil old))
emit_all_stream ls (e ∷ es) old =
    ap (emit_all es) (emit-shown ls e old)
    ∙ emit_all_stream ls es (old ++ (if happens e && chosen ls (level_of e) then text_of e else []))
    ∙ ap (to_stream (mask_of ls)) (append_assoc old _ _)

emit_all_silent :
    (es : List Event) (level : ℕ)
    → let d : DebugState = record { hid_debug_level = level; hid_debug_stream = none } in
      emit_all es d ≡ d
unfolding emit_all
emit_all_silent [] level = refl
emit_all_silent (e ∷ es) level = ap (emit_all es) (emit_silent e level) ∙ emit_all_silent es level

-- With a stream, and a level that combines some levels by a bitwise or, what a program prints to the
-- stream are the texts of its messages and of the assertions that do not hold, each if its level is
-- one of these, in the order in which they happen; the level stays. With no stream nothing happens,
-- whatever the level is.
pub emit_all-shown :
    (ls : List DebugLevel) (es : List Event) (old : Bytes) (level : ℕ) (d : DebugState)
    → (emit_all es (hid_set_debug (mask_of ls) (hid_set_debug_stream (some old) d))
        ≡ hid_set_debug (mask_of ls) (hid_set_debug_stream (some (old ++ shown ls es)) d))
      × (emit_all es (hid_set_debug level (hid_set_debug_stream none d))
          ≡ hid_set_debug level (hid_set_debug_stream none d))
unfolding hid_set_debug hid_set_debug_stream
emit_all-shown ls es old level d = (emit_all_stream ls es old, emit_all_silent es level)
