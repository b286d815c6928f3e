-- ===== src/Tests/Programs.antt =====
-- The theorems on whole programs and on loops over the parser at concrete inputs, in the small world.
use libhid.Base.{
  false, List, if◌then◌else◌, pos, negsuc, ℕ, suc, ◌-◌, ◌<◌, ◌≡◌, ◌≢◌, ◌∙◌, true, ltb, ltb→lt, refl,
  none, some, [], ◌∷◌, ◌++◌, codes, arith,
}
use libhid.Tests.{matcher, env, fresh, open_one, an_open, blank_data, blank_parser}
use libhid.Types.{HidData, HidParser, UsbCall, Reply, claim_interface, detach_kernel_driver}
use libhid.State.{Env}
use libhid.Presentation.Tree.{hid_dump_tree}
use libhid.Presentation.Tree.Laws.{Ends, Dumped, hid_dump_tree-Dumped}
use libhid.Tests.Witnesses.{one, an_open-IsOpened, fresh-IsConsistent}
use libhid.State.Returns.{Returns}
use libhid.ForceClaim.{linux, hid_os_force_claim}
use libhid.ForceClaim.Success.{GivesWay, Wins, force_claim-Wins}
use libhid.Printf.{show_hex, show_nat}
use libhid.Debug.{
  DebugLevel, errors, asserts, Event, trace, error, assertion, mask_of, hid_set_debug,
  hid_set_debug_stream, debug_start, debug_line, assert_line, emit_all,
}
use libhid.Debug.Laws.{shown, text_of, chosen, emit_all-shown}
use libhid.Detach.{detach_main}
use libhid.Detach.Ids.{hex_digit, parse_id}
use libhid.Detach.Ids.Laws.{parse_id-show_hex}
use libhid.Detach.Leaving.{Fresh}
use libhid.Detach.Main.{Detached, detach_main-Detached}

-- The parser's buffer ends in a NUL here.
nul : hex_digit 0 ≡ none
unfolding hex_digit
nul = refl

parse_id-show_hex_example :
    (hex_digit 0 ≡ none → parse_id (show_hex 4 0x06c2 ++ codes ":0038") 0 ≡ some 0x06c2)
    × (hex_digit 0 ≢ none → parse_id (show_hex 4 0x06c2 ++ codes ":0038") 0 ≡ none)
parse_id-show_hex_example = parse_id-show_hex 0x06c2 0 (codes ":0038") (omega arith)

new_block : Fresh env fresh
new_block w p got = ((λ z. one (same ∙ z)), refl)
  where
    same : ◌≡◌ {A = ℕ} 1 p
    same = cc

detach_main-Detached_example :
    Returns
      (Detached fresh (codes "000d:001a" ∷ []))
      (detach_main env linux (codes "detach") (codes "000d:001a" ∷ []) 0 0 fresh)
detach_main-Detached_example =
    detach_main-Detached env fresh fresh-IsConsistent new_block linux (codes "detach") 0 0
      (codes "000d:001a" ∷ []) nul nul

-- A parser that finds two objects, each with one element of a path. It counts them in `report_id`.
abbrev two_objects : Env ℕ (Unit {0})
two_objects = record env {
  hid_parse = λ q d. record {
    found = ltb d.report_id 2;
    parser = q;
    hid_data = record blank_data { report_id = suc d.report_id; path_size = 1 };
  };
}

abbrev to_find : HidParser (Unit {0}) → HidData → ℕ
to_find q d = 2 - d.report_id

abbrev Anything : HidParser (Unit {0}) → HidData → Type 0
Anything q d = Unit {0}

two_objects-Ends : Ends two_objects Anything to_find
two_objects-Ends = record {
  sound = λ q d h more. tt;
  less = λ q d h more. (let below : d.report_id < 2 = ltb→lt d.report_id 2 more in omega arith);
  fits = λ q d h more. omega arith;
}

hid_dump_tree-Dumped_example :
    Returns
      (λ (r, text) t. Dumped two_objects 1 an_open open_one blank_parser blank_data r text t)
      (hid_dump_tree two_objects 3 true 1 open_one)
hid_dump_tree-Dumped_example =
    hid_dump_tree-Dumped two_objects Anything to_find two_objects-Ends 1 open_one one refl
      an_open-IsOpened.handle refl refl 3 tt (omega arith)

-- A kernel that grants a claim after two detaches, which the world counts.
abbrev gives_way : UsbCall → ℕ → record { reply : Reply; after : ℕ }
gives_way (claim_interface h n) w = record {
  reply = record { ret = if ltb w 2 then negsuc 15 else pos 0; handle = 0; buffer = [] };
  after = w;
}
gives_way (detach_kernel_driver h n) w = record {
  reply = record { ret = pos 0; handle = 0; buffer = [] };
  after = suc w;
}
gives_way call w = env.usb_call call w

abbrev stubborn : Env ℕ (Unit {0})
stubborn = record env { usb_call = gives_way }

two_rounds : GivesWay stubborn 5 (pos 0) 2 open_one.world
two_rounds = record { granted = refl; detached = λ j h. refl }

force_claim-Wins_example :
    Returns
      (Wins 2 open_one)
      (hid_os_force_claim stubborn linux 1 (pos 0) (some matcher) 3 open_one)
force_claim-Wins_example =
    force_claim-Wins stubborn 1 open_one one refl (an_open-IsOpened.handle) (pos 0) matcher 2 3
      (omega arith) two_rounds

-- A trace and an error, and an assertion that does not hold, at the levels of errors and assertions.
abbrev three_events : List Event
three_events =
    trace (codes "f") (codes "a")
    ∷ error (codes "f") (codes "b")
    ∷ assertion false (codes "f") (codes "f.c") 7 (codes "p")
    ∷ []

abbrev two_levels : List DebugLevel
two_levels = errors ∷ asserts ∷ []

emit_all-shown_example :
    (emit_all three_events
        (hid_set_debug (mask_of two_levels) (hid_set_debug_stream (some []) debug_start))
      ≡ hid_set_debug
          (mask_of two_levels)
          (hid_set_debug_stream (some (shown two_levels three_events)) debug_start))
    × (emit_all three_events (hid_set_debug 31 (hid_set_debug_stream none debug_start))
        ≡ hid_set_debug 31 (hid_set_debug_stream none debug_start))
emit_all-shown_example = emit_all-shown two_levels three_events [] 31 debug_start

three_events_text :
    shown two_levels three_events
    ≡ codes "  ERROR: f(): b\n*** ASSERTION FAILURE in f() [f.c:7]: p\n"
unfolding shown text_of chosen debug_line assert_line show_nat
three_events_text = refl
