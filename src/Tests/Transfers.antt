-- ===== src/Tests/Transfers.antt =====
-- The theorems on transfers, paths and texts at concrete inputs, in the small world.
use libhid.Base.{
  ◌↔◌, ℕ, Option, sym, ap, ◌∙◌, length-replicate, Bytes, replicate, ◌≡◌, ◌⊎◌, refl, ◌≤◌, ◌<◌,
  length, true, false, some, none, [], ◌∷◌, ◌++◌, pos, arith, map, drop,
}
use libhid.Tests.{answer, env, fresh, open_one, an_open, blank_data, blank_parser}
use libhid.Types.{HidReturn, Reply, HidData, UsbCall}
use libhid.State.Returns.{Returns}
use libhid.Exchange.{
  item_feature, hid_rt_input, hid_rt_feature, hid_get_input_report, hid_set_feature_report,
  hid_interrupt_read, hid_interrupt_write, hid_set_idle,
}
use libhid.Exchange.Interrupt.{
  ReadDone, WriteDone, hid_interrupt_read-ReadDone, hid_interrupt_write-WriteDone,
}
use libhid.Exchange.Idle.{IdleSet, hid_set_idle-IdleSet}
use libhid.Presentation.{hid_write_identification}
use libhid.Presentation.Laws.{asked, made, hid_write_identification-Returns}
use libhid.Exchange.Reports.{wanted, Exchanged, get_call, set_call}
use libhid.Exchange.Kinds.{got_input, set_feature, get_report-Exchanged, set_report-Exchanged}
use libhid.Initialisation.{hid_init, hid_cleanup}
use libhid.FormatPath.{hid_format_path}
use libhid.FormatPath.Overrun.{hid_format_path_overruns}
use libhid.FormatPath.Text.{path_line, hid_format_path-path_line}
use libhid.Initialisation.Laws.{Started, hid_init-Started, hid_cleanup-Returns}
use libhid.Parsing.{node_of, fill_nodes, hid_find_object}
use libhid.Parsing.Paths.{fill_nodes_lem}
use libhid.Parsing.Finding.{looked_for, Missing, Found, hid_find_object-Found}
use libhid.Tests.Witnesses.{one, an_open-IsOpened}

hid_interrupt_read-ReadDone_example :
    Returns
      (ReadDone env an_open 0x81 true 1 100 open_one)
      (hid_interrupt_read env 1 0x81 true 1 100 open_one)
hid_interrupt_read-ReadDone_example =
    hid_interrupt_read-ReadDone env 1 open_one one refl 0x81 1 100 true

hid_set_idle-IdleSet_example :
    Returns (IdleSet env an_open 25 2 open_one) (hid_set_idle env 1 25 2 open_one)
hid_set_idle-IdleSet_example = hid_set_idle-IdleSet env 1 open_one refl 25 2

hid_init-Started_example : Returns (Started fresh) (hid_init env fresh)
hid_init-Started_example = hid_init-Started env fresh

fill_nodes_example :
    (2 ≤ length blank_data.nodes
      → fill_nodes (65537 ∷ 65538 ∷ []) 2 0 blank_data.nodes
        ≡ some (map node_of (65537 ∷ 65538 ∷ []) ++ drop 2 blank_data.nodes))
    × (length blank_data.nodes < 2 → fill_nodes (65537 ∷ 65538 ∷ []) 2 0 blank_data.nodes ≡ none)
fill_nodes_example = fill_nodes_lem (65537 ∷ 65538 ∷ []) 2 blank_data.nodes (omega arith)

-- The small world's `malloc` gives what it is asked for.
exact_blocks : (n w : ℕ) (b : Bytes) → (env.malloc_chars n w).block ≡ some b → length b ≡ n
exact_blocks n w b got = sym (ap size_of got) ∙ length-replicate n 0
  where
    size_of : Option Bytes → ℕ
    size_of none = 0
    size_of (some bytes) = length bytes

hid_find_object-Found_example :
    (((env.find_object blank_parser (looked_for blank_data (65537 ∷ []) 1)).found ≡ true)
      × Returns
          (Found env 1 an_open blank_parser blank_data (65537 ∷ []) 1 open_one)
          (hid_find_object env 1 (65537 ∷ []) 1 open_one))
    ⊎ (((env.find_object blank_parser (looked_for blank_data (65537 ∷ []) 1)).found ≡ false)
        × ((env.malloc_chars 11 0).block ≡ none)
        × Returns
            (Missing env 1 an_open blank_parser blank_data (65537 ∷ []) 1 open_one)
            (hid_find_object env 1 (65537 ∷ []) 1 open_one))
    ⊎ (((env.find_object blank_parser (looked_for blank_data (65537 ∷ []) 1)).found ≡ false)
        × (b : Bytes) × ((env.malloc_chars 11 0).block ≡ some b)
        × (hid_find_object env 1 (65537 ∷ []) 1 open_one ≡ none))
hid_find_object-Found_example =
    hid_find_object-Found env 1 open_one one refl (an_open-IsOpened.handle) refl refl (65537 ∷ []) 1
      (omega arith) (omega arith) (omega arith) exact_blocks

hid_interrupt_write-WriteDone_example :
    Returns
      (WriteDone env an_open 2 (some (7 ∷ [])) 1 100 open_one)
      (hid_interrupt_write env 1 2 (some (7 ∷ [])) 1 100 open_one)
hid_interrupt_write-WriteDone_example =
    hid_interrupt_write-WriteDone env 1 open_one one refl 2 1 100 (some (7 ∷ []))

hid_write_identification-Returns_example :
    Returns
      (λ (r, _) t.
        (r ≡ HidReturn.success)
        × (t.interfaces ≡ open_one.interfaces)
        × (t.open_list ≡ open_one.open_list)
        × (made t.calls ≡ asked 5 0 ++ (asked 5 2 ++ (asked 5 1 ++ []))))
      (hid_write_identification env true 1 open_one)
hid_write_identification-Returns_example =
    hid_write_identification-Returns env 1 open_one one refl an_open-IsOpened.handle refl

hid_format_path_overruns_example :
    hid_format_path (some (replicate 22 0)) 22 (65537 ∷ 65538 ∷ []) 2 ≡ none
hid_format_path_overruns_example =
    hid_format_path_overruns (65537 ∷ 65538 ∷ []) 1 (replicate 22 0) (omega arith) refl

hid_format_path-path_line_example :
    hid_format_path (some (replicate 25 7)) 30 (65537 ∷ 65538 ∷ []) 2
    ≡ some (record {
      ret = HidReturn.success;
      memory = path_line (65537 ∷ 65538 ∷ []) ++ 0 ∷ 0 ∷ 7 ∷ 7 ∷ [];
    })
hid_format_path-path_line_example =
    hid_format_path-path_line (65537 ∷ 65538 ∷ []) 2 30 (replicate 25 7) (omega arith) (omega arith)
      (omega arith) (omega arith) (omega arith)

-- What the parser finds for the path, the request for it, and the reply.
abbrev an_item : HidData
an_item = (env.find_object blank_parser (wanted blank_data item_feature (65537 ∷ []) 1)).hid_data

abbrev a_request : UsbCall
a_request = get_call env 5 hid_rt_feature 3 (pos 0) 8

abbrev a_reply : Reply
a_reply = answer a_request

get_report-Exchanged_example :
    Returns
      (λ a t.
        (reply : Reply) × (a.buffer ≡ reply.buffer)
        × Exchanged 1 an_open open_one (get_call env 5 hid_rt_input 3 (pos 0) 2) 2 a.ret reply t)
      (hid_get_input_report env 1 (65537 ∷ []) 1 true 2 open_one)
get_report-Exchanged_example =
    get_report-Exchanged env 1 open_one one refl (an_open-IsOpened.handle) refl refl (65537 ∷ []) 1
      (omega arith) (omega arith) got_input 2 refl

set_report-Exchanged_example :
    Returns
      (λ r t.
        (reply : Reply) × Exchanged 1 an_open open_one
          (set_call env 5 hid_rt_feature 3 (pos 0) (9 ∷ 8 ∷ []) 2)
          2
          r
          reply
          t)
      (hid_set_feature_report env 1 (65537 ∷ []) 1 (some (9 ∷ 8 ∷ [])) 2 open_one)
set_report-Exchanged_example =
    set_report-Exchanged env 1 open_one one refl (an_open-IsOpened.handle) refl refl (65537 ∷ []) 1
      (omega arith) (omega arith) set_feature (9 ∷ 8 ∷ []) 2 refl

hid_cleanup-Returns_example :
    Returns
      (λ r t.
        (t.initialised ≡ false)
        × ((r ≡ HidReturn.success) ↔ (open_one.initialised ≡ true))
        × (t.interfaces ≡ open_one.interfaces)
        × (t.open_list ≡ open_one.open_list)
        × (t.calls ≡ open_one.calls)
        × (t.mallocs ≡ open_one.mallocs)
        × (t.frees ≡ open_one.frees))
      (hid_cleanup open_one)
hid_cleanup-Returns_example = hid_cleanup-Returns env open_one
