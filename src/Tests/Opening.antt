-- ===== src/Tests/Opening.antt =====
-- A run of the library from its initialisation to a closed interface.
use libhid.Base.{ℕ, ◌≡◌, refl, Option, some, none, pos}
use libhid.Types.{HidReturn, success}
use libhid.State.{Library, and_then, load}
use libhid.Tests.{env, matcher, closed_one}
use libhid.Opening.{hid_open, check_open, with_matcher, acquire, claim_and_finish, finish_open}
use libhid.Finding.{
  is_success, same_device, any_matched, or_next, or_return, hid_previously_matched, settle,
  match_unseen, consider, inspect, scan_devices, scan_busses, hid_find_usb_device,
  hid_get_usb_handle,
}
use libhid.Interface.{hid_is_opened, hid_reset_interface}
use libhid.Parsing.{
  hid_init_parser, allocate_data, allocate_parser, hid_reset_parser, hid_prepare_parser, dump_raw,
}
use libhid.Preparation.{
  hid_prepare_interface, or_close, hid_prepare_report_descriptor, hid_prepare_hid_descriptor,
  keep_size, fetched, described, judge, overwrite, desc_size,
}
use libhid.Parsing.Dump.{dump_descriptor, dump_from, elements, line_with, dump_head, dump_byte}
use libhid.Printf.{show_hex}
use libhid.OpenList.{add_open_device}
use libhid.Matching.{hid_compare_usb_device, ask}

-- What a run has returned.
abbrev returned : Option (HidReturn × Library ℕ (Unit {0})) → Option HidReturn
returned none = none
returned (some (r, _)) = some r

opens : returned (hid_open env 1 (pos 0) (some matcher) closed_one) ≡ some success
unfolding hid_open check_open with_matcher acquire claim_and_finish finish_open is_success
    same_device any_matched or_next or_return hid_previously_matched settle match_unseen consider
    inspect scan_devices scan_busses hid_find_usb_device hid_get_usb_handle hid_is_opened
    hid_reset_interface hid_init_parser allocate_data allocate_parser hid_reset_parser
    hid_prepare_parser hid_prepare_interface or_close hid_prepare_report_descriptor
    hid_prepare_hid_descriptor keep_size fetched described judge overwrite desc_size and_then load
    add_open_device hid_compare_usb_device ask dump_raw dump_descriptor dump_from elements line_with
    dump_head show_hex dump_byte
opens = refl
