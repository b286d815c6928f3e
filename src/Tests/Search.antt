-- ===== src/Tests/Search.antt =====
-- The search for a device in a world with two devices, of which the second is wanted. The world holds
-- the device that was opened last.
use libhid.Base.{
  ℕ, ◌+◌, ◌∙◌, List, Bytes, ◌≡◌, refl, Bool, true, false, none, some, pos, [], ◌∷◌, negsuc, codes,
  replicate, arith,
}
use libhid.Types.{Device, HidInterfaceMatcher, UsbCall, Reply, open_device}
use libhid.State.{Env, Library}
use libhid.State.Handles.{openings, closings}
use libhid.State.Returns.{Returns}
use libhid.Tests.{keyboard, answer, blank_data, blank_parser}
use libhid.Opening.{hid_open, hid_force_open}
use libhid.Opening.Outcome.{reset-IsClosed}
use libhid.ForceClaim.{linux}
use libhid.Session.{IsConsistent}
use libhid.Session.Laws.{creating_keeps}
use libhid.Session.Invariant.{start-IsConsistent}
use libhid.Session.Choice.{Chosen, IsOpenOn, opening-Chosen}
use libhid.Session.Cooperation.{opening_succeeds}
use libhid.Preparation.{desc_size}
use libhid.Preparation.Success.{Cooperates}
use libhid.Types.{success}
use libhid.Detach.{detach_main}
use libhid.Detach.Ids.{hex_digit}
use libhid.Detach.Leaving.{Fresh}
use libhid.Detach.Success.{Serves}
use libhid.Detach.Whole.{done_text, written, detach_main_succeeds}
use libhid.Tests.Witnesses.{one}
use libhid.Interface.{reset}
use libhid.OpenList.{no_open_devices}
use libhid.State.{update}
use libhid.Matching.{ask, vendor_matches, id_matches}
use libhid.Finding.Listed.{occupied}
use libhid.Finding.{hid_get_usb_handle}
use libhid.Finding.First.{in_use, skipped_before, Opens, Decides, wanted, first, candidates}
use libhid.Finding.Search.{Taken, hid_get_usb_handle-Taken}

abbrev mouse : Device
mouse = record keyboard { address = 65; filename = codes "003"; id_vendor = 0x02 }

abbrev holds_last : UsbCall → Device → record { reply : Reply; after : Device }
holds_last (open_device d) w = record { reply = answer (open_device d); after = d }
holds_last call w = record { reply = answer call; after = w }

abbrev two_devices : Env Device (Unit {0})
two_devices = record {
  usb_endpoint_in = 0x80;
  usb_endpoint_out = 0;
  usb_type_class = 0x20;
  usb_recip_interface = 1;
  usb_req_get_descriptor = 6;
  usb_dt_hid = 0x21;
  usb_dt_report = 0x22;
  etimedout = negsuc 109;
  usb_call = holds_last;
  usb_device = λ w h. w;
  usb_get_busses = λ w. record { dirname = codes "001"; devices = mouse ∷ keyboard ∷ [] } ∷ [];
  malloc_interface = λ w. record { block = some 1; after = w };
  malloc_data = λ w. record { block = some blank_data; after = w };
  malloc_parser = λ w. record { block = some blank_parser; after = w };
  malloc_chars = λ n w. record { block = some (replicate n 0); after = w };
  reset_parser = λ u. u;
  hid_parse = λ q d. record { found = false; parser = q; hid_data = d };
  find_object = λ q d. record { found = true; parser = q; hid_data = d };
  get_report_offset = λ q n t. record { entry = some 8; parser = q };
  get_value = λ b d. d;
}

two_devices-Opens : Opens two_devices
two_devices-Opens = record {
  granted = λ d w z. absurd (omega arith);
  opened = λ d w. refl;
  claimed = λ h n w. refl;
}

abbrev by_ids : HidInterfaceMatcher Device
by_ids = record {
  vendor_id = 0x0d;
  product_id = 0x1a;
  matcher_fn = none;
  custom_data = 0;
  custom_data_length = 0;
}

abbrev anything : Device → Bool
anything d = true

by_ids-Decides : Decides two_devices by_ids anything
unfolding ask
by_ids-Decides h w = refl

abbrev closed : Library Device (Unit {0})
closed = record {
  world = mouse;
  initialised = true;
  open_list = no_open_devices;
  interfaces = update (λ _. none) 1 (some reset);
  calls = [];
  mallocs = 1;
  frees = 0;
}

abbrev on_two : List (Bytes × Device)
on_two = candidates (two_devices.usb_get_busses mouse)

hid_get_usb_handle-Taken_example :
    Returns
      (Taken two_devices 1 reset closed
        (skipped_before (wanted closed reset by_ids anything) (in_use closed reset) on_two)
        (first (wanted closed reset by_ids anything) on_two))
      (hid_get_usb_handle two_devices 1 by_ids closed)
hid_get_usb_handle-Taken_example =
    hid_get_usb_handle-Taken two_devices two_devices-Opens 1 by_ids anything by_ids-Decides reset
      closed refl tt

-- The second device is the first that is wanted.
takes_keyboard :
    first (wanted closed reset by_ids anything) (candidates (two_devices.usb_get_busses mouse))
    ≡ some (codes "001", keyboard)
unfolding occupied vendor_matches id_matches
takes_keyboard = refl

closed-IsConsistent : IsConsistent closed
closed-IsConsistent =
    let start : Library Device (Unit {0}) = record closed { interfaces = λ _. none; mallocs = 0 } in
    creating_keeps (start-IsConsistent {s = start} refl (λ q. refl)) 1 mouse refl

opening-Chosen_example :
    Returns
      (Chosen 1
        (pos 0)
        closed
        (skipped_before
          (wanted closed (record reset { interface = pos 0 }) by_ids anything)
          (in_use closed (record reset { interface = pos 0 }))
          on_two)
        (first (wanted closed (record reset { interface = pos 0 }) by_ids anything) on_two))
      (hid_open two_devices 1 (pos 0) (some by_ids) closed)
    × Returns
        (Chosen 1
          (pos 0)
          closed
          (skipped_before
            (wanted closed (record reset { interface = pos 0 }) by_ids anything)
            (in_use closed (record reset { interface = pos 0 }))
            on_two)
          (first (wanted closed (record reset { interface = pos 0 }) by_ids anything) on_two))
        (hid_force_open two_devices linux 1 (pos 0) (some by_ids) 3 closed)
opening-Chosen_example =
    opening-Chosen two_devices two_devices-Opens 1 closed one refl closed-IsConsistent
      reset-IsClosed refl (pos 0) by_ids anything by_ids-Decides linux 3

two_devices-Cooperates : Cooperates two_devices
unfolding desc_size
two_devices-Cooperates = record {
  granted = λ h n w. refl;
  answered = λ h k r v n size t w. refl;
  small = λ h t n w. omega arith;
  room_for_data = λ w. (blank_data, refl);
  room_for_parser = λ w. (blank_parser, refl);
}

opening_succeeds_example :
    Returns
      (λ r t. (r ≡ success) × IsOpenOn 1 (pos 0) closed 0 (codes "001") keyboard t)
      (hid_open two_devices 1 (pos 0) (some by_ids) closed)
    × Returns
        (λ r t. (r ≡ success) × IsOpenOn 1 (pos 0) closed 0 (codes "001") keyboard t)
        (hid_force_open two_devices linux 1 (pos 0) (some by_ids) 3 closed)
unfolding occupied vendor_matches id_matches skipped_before
opening_succeeds_example =
    opening_succeeds two_devices two_devices-Opens two_devices-Cooperates 1 closed one refl
      closed-IsConsistent reset-IsClosed refl (pos 0) by_ids anything by_ids-Decides (codes "001")
      keyboard refl linux 3

two_devices-Serves : Serves two_devices
two_devices-Serves = record {
  busses = λ w. refl;
  devices = λ w. refl;
  closes = λ h w. refl;
  room = λ w. (1, refl);
}

abbrev at_start : Library Device (Unit {0})
at_start = record closed { initialised = false; interfaces = λ _. none; mallocs = 0 }

at_start-Fresh : Fresh two_devices at_start
at_start-Fresh w p got = ((λ z. one (same ∙ z)), refl)
  where
    same : ◌≡◌ {A = ℕ} 1 p
    same = cc

no_digit : hex_digit 0 ≡ none
unfolding hex_digit
no_digit = refl

detach_main_succeeds_example :
    Returns
      (λ r t.
        (r ≡ (0, done_text 0x0d 0x1a))
        × (t.initialised ≡ false)
        × ((q : ℕ) → t.interfaces q ≡ none)
        × (t.mallocs + 0 ≡ 0 + t.frees)
        × (openings t.calls + 0 ≡ 0 + closings t.calls))
      (detach_main two_devices linux (codes "detach") (written 0x0d 0x1a ∷ []) 0 0 at_start)
unfolding vendor_matches id_matches
detach_main_succeeds_example =
    detach_main_succeeds two_devices two_devices-Serves two_devices-Opens two_devices-Cooperates
      at_start refl (λ q. refl) refl at_start-Fresh 0x0d 0x1a (omega arith) (omega arith)
      (codes "001") keyboard (λ w. refl) linux (codes "detach") 0 0 no_digit no_digit
