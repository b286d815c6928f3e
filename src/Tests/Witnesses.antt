-- ===== src/Tests/Witnesses.antt =====
-- The theorems on opening, closing and the list of open interfaces at concrete inputs, in the small
-- world.
use libhid.Base.{
  ℕ, ◌≡◌, ◌≢◌, ◌↔◌, refl, sym, ◌∙◌, true, false, some, none, [], ◌∷◌, pos, negsuc, arith,
}
use libhid.Tests.{
  env, matcher, fresh, closed_one, open_one, found_one, an_open, blank_data, blank_parser, keyboard,
}
use libhid.State.Effect.{update_ne}
use libhid.State.{and_then, Library, load}
use libhid.State.Returns.{Returns}
use libhid.Interface.{reset, hid_new_interface}
use libhid.OpenList.{no_open_devices, add_open_device, remove_open_device}
use libhid.OpenList.Refine.{IsValid, contents, erase_first, remove_refines}
use libhid.OpenList.Members.{remove_open_device_absent, mem_nil}
use libhid.Opening.{hid_open, hid_force_open}
use libhid.Opening.Outcome.{IsOpened, Opened, reset-IsClosed}
use libhid.Opening.Laws.{hid_open-Opened, hid_force_open-Opened}
use libhid.Closing.{hid_close}
use libhid.Closing.Removed.{Removed, hid_close-Removed}
use libhid.Session.{IsConsistent, Steps, stay, next, creating, initialising, using}
use libhid.Session.Calls.{run_call, set_idle}
use libhid.Initialisation.{hid_init, hid_is_initialised}
use libhid.Exchange.{hid_set_idle}
use libhid.Types.{Reply, success, init, find_busses, find_devices, control_out}
use libhid.Session.Cycle.{Restored, open_close-Restored}
use libhid.Session.Laws.{list_grown}
use libhid.Session.Invariant.{start-IsConsistent, Steps-IsConsistent}
use libhid.Finding.Listed.{occupied, hid_previously_matched_lem}
use libhid.Finding.{hid_previously_matched, hid_get_usb_handle}
use libhid.Finding.Laws.{Acquired, hid_get_usb_handle-Acquired}
use libhid.ForceClaim.{linux, hid_os_force_claim}
use libhid.ForceClaim.Laws.{Tried, force_claim_tries}
use libhid.Preparation.{hid_prepare_interface}
use libhid.Preparation.Laws.{Readied, hid_prepare_interface-Readied}
use libhid.Matching.{id_matches, hid_compare_usb_device, usb_match_all}
use libhid.Matching.Bits.{bit, Covers, id_matches_iff}
use libhid.Matching.Verdict.{HasVendor, SaysYes, compare_matches_all}

-- 1 is not NULL.
pub one : ◌≢◌ {A = ℕ} 1 0
one h = absurd (omega arith)

empty_list-IsValid : IsValid no_open_devices
empty_list-IsValid = record { capacity = refl; in_use = omega arith }

pub absent_one : remove_open_device no_open_devices 1 ≡ no_open_devices
absent_one = remove_open_device_absent no_open_devices 1 empty_list-IsValid (mem_nil 1)

pub fresh-IsConsistent : IsConsistent fresh
fresh-IsConsistent = start-IsConsistent refl λ q. refl

-- `hid_new_HIDInterface` after the start.
created : Steps env fresh (record closed_one { initialised = false })
unfolding hid_new_interface
created = next stay (creating 1 refl refl)

abbrev reply : Reply
reply = record { ret = pos 0; handle = 0; buffer = [] }

-- `hid_init` after that, and `hid_set_idle` of the closed interface.
abbrev busy_one : Library ℕ (Unit {0})
busy_one = record closed_one {
  calls =
      (control_out 0 0x21 0x0a 256 (negsuc 0) [] 0 10000, reply)
      ∷ (find_devices, reply)
      ∷ (find_busses, reply)
      ∷ (init, reply)
      ∷ [];
}

used : Steps env fresh busy_one
unfolding hid_init hid_is_initialised and_then run_call hid_set_idle load
used = next (next created (initialising success refl)) (using 1 reset (set_idle 1 0) one refl refl)

Steps-IsConsistent_example : IsConsistent busy_one
Steps-IsConsistent_example = Steps-IsConsistent env used fresh-IsConsistent

hid_open-Opened_example :
    Returns (Opened 1 reset closed_one) (hid_open env 1 (pos 0) (some matcher) closed_one)
hid_open-Opened_example =
    hid_open-Opened env 1 closed_one one refl reset-IsClosed tt absent_one (pos 0) (some matcher)

hid_force_open-Opened_example :
    Returns
      (Opened 1 reset closed_one)
      (hid_force_open env linux 1 (pos 0) (some matcher) 3 closed_one)
hid_force_open-Opened_example =
    hid_force_open-Opened env 1 closed_one one refl reset-IsClosed tt absent_one linux (pos 0)
      (some matcher) 3

pub closed_one-IsConsistent : IsConsistent closed_one
closed_one-IsConsistent =
    let c = Steps-IsConsistent env created fresh-IsConsistent in
    record { valid = c.valid; states = c.states; listed = c.listed; distinct = c.distinct }

others_kept : (q : ℕ) → q ≢ 1 → open_one.interfaces q ≡ closed_one.interfaces q
others_kept q h =
    update_ne fresh.interfaces 1 (some an_open) q h
    ∙ sym (update_ne fresh.interfaces 1 (some reset) q h)

pub an_open-IsOpened : IsOpened an_open
an_open-IsOpened = record {
  handle = λ h. absurd (omega arith);
  parser = record {
    hid_data = blank_data;
    data_there = refl;
    hid_parser = blank_parser;
    parser_there = refl;
  };
}

listed_one : open_one.open_list ≡ (add_open_device closed_one.open_list 1).list
unfolding add_open_device
listed_one = refl

pub open_one-IsConsistent : IsConsistent open_one
open_one-IsConsistent =
    list_grown closed_one open_one closed_one-IsConsistent 1 an_open refl others_kept (mem_nil 1)
      listed_one an_open-IsOpened

open_close-Restored_example :
    Returns
      (λ _ t. Restored 1 closed_one t)
      (and_then (hid_open env 1 (pos 0) (some matcher) closed_one) (λ _. hid_close env 1))
open_close-Restored_example =
    open_close-Restored env 1 closed_one one refl closed_one-IsConsistent reset-IsClosed (pos 0)
      (some matcher)

hid_close-Removed_example : Returns (Removed 1 an_open open_one) (hid_close env 1 open_one)
hid_close-Removed_example =
    hid_close-Removed env 1 open_one one refl open_one-IsConsistent.valid
      open_one-IsConsistent.distinct

hid_get_usb_handle-Acquired_example :
    Returns (Acquired 1 reset closed_one) (hid_get_usb_handle env 1 matcher closed_one)
hid_get_usb_handle-Acquired_example = hid_get_usb_handle-Acquired env 1 matcher closed_one refl tt

hid_previously_matched_example :
    hid_previously_matched env 5 (pos 0) open_one
    ≡ some (occupied open_one.interfaces keyboard (pos 0) (1 ∷ []), open_one)
hid_previously_matched_example =
    hid_previously_matched_lem env 5 (pos 0) open_one ((an_open, refl), tt)

remove_refines_example :
    (contents (remove_open_device open_one.open_list 1) ≡ erase_first 1 (1 ∷ []))
    × IsValid (remove_open_device open_one.open_list 1)
remove_refines_example =
    remove_refines open_one.open_list 1 (record { capacity = refl; in_use = omega arith })

id_matches_iff_example : (id_matches 0x1b 0x0a ≡ true) ↔ Covers 0x1b 0x0a
id_matches_iff_example = id_matches_iff 0x1b 0x0a

compare_matches_all_example :
    (flags : ℕ) × (w : ℕ) × (hid_compare_usb_device env 5 matcher closed_one
      ≡ some (flags, record closed_one { world = w }))
    × (matcher.matcher_fn ≡ none → w ≡ 0)
    × ((bit flags 0 ≡ 1) ↔ HasVendor keyboard matcher)
    × ((bit flags 1 ≡ 1) ↔ Covers 0x1a 0x1a)
    × ((bit flags 2 ≡ 1) ↔ SaysYes matcher 5 0)
    × ((flags ≡ usb_match_all)
        ↔ (HasVendor keyboard matcher × Covers 0x1a 0x1a × SaysYes matcher 5 0))
compare_matches_all_example = compare_matches_all env 5 matcher closed_one

force_claim_tries_example :
    Returns
      (Tried 5 (pos 0) 3 open_one)
      (hid_os_force_claim env linux 1 (pos 0) (some matcher) 3 open_one)
force_claim_tries_example =
    force_claim_tries env 1 open_one one refl (an_open-IsOpened.handle) (pos 0) matcher 3

hid_prepare_interface-Readied_example :
    Returns
      (Readied 1 (record an_open { hid_data = none; hid_parser = none }) found_one)
      (hid_prepare_interface env 1 found_one)
hid_prepare_interface-Readied_example =
    hid_prepare_interface-Readied env 1 found_one one refl (an_open-IsOpened.handle) refl refl
      absent_one
