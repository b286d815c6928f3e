-- ===== src/Tests.antt =====
-- A small world to run the library in: one bus with one device, whose vendor is 0x0d and whose
-- product is 0x1a, a libusb that grants every request, and a parser that finds every path.
mod Runs
mod Opening
mod Witnesses
mod Transfers
mod Programs
mod Search
mod Sessions
use libhid.Base.{
  ℕ, ◌^◌, Bool, true, false, Option, none, some, List, [], ◌∷◌, ℤ, pos, negsuc, replicate, codes,
}
use libhid.Types.{
  HidData, HidParser, Node, Device, Bus, HidInterface, HidInterfaceMatcher, UsbCall, Reply,
  open_device, control_in, control_out,
}
use libhid.State.{Env, Library, Parsed, update}
use libhid.OpenList.{OpenDeviceList, no_open_devices, add_open_device}
use libhid.Interface.{reset}

abbrev pub keyboard : Device
keyboard = record {
  address = 64;
  dirname = codes "001";
  filename = codes "004";
  id_vendor = 0x0d;
  id_product = 0x1a;
  i_manufacturer = 1;
  i_product = 2;
  i_serial_number = 0;
}

abbrev pub blank_data : HidData
blank_data = record {
  value = pos 0;
  path_size = 0;
  nodes = replicate 10 (record { upage = 0; usage = 0 });
  report_id = 0;
  offset = 0;
  size = 0;
  item_type = 0;
  attribute = 0;
  unit = 0;
  unit_exp = pos 0;
  log_min = pos 0;
  log_max = pos 0;
  phy_min = pos 0;
  phy_max = pos 0;
}

abbrev pub blank_parser : HidParser (Unit {0})
blank_parser = record { report_desc = []; report_desc_size = 0; inner = tt }

abbrev pub answer : UsbCall → Reply
answer (open_device d) = record { ret = pos 0; handle = 5; buffer = [] }
answer (control_in _ _ _ _ _ size _) = record {
  ret = pos size;
  handle = 0;
  buffer = 9 ∷ 33 ∷ 0 ∷ 1 ∷ 0 ∷ 1 ∷ 34 ∷ 2 ∷ 0 ∷ [];
}
answer (control_out _ _ _ _ _ _ size _) = record { ret = pos size; handle = 0; buffer = [] }
answer (UsbCall.interrupt_read _ _ size _) = record { ret = pos size; handle = 0; buffer = 7 ∷ [] }
answer (UsbCall.interrupt_write _ _ _ size _) = record { ret = pos size; handle = 0; buffer = [] }
answer _ = record { ret = pos 0; handle = 0; buffer = [] }

abbrev pub env : Env ℕ (Unit {0})
env = record {
  usb_endpoint_in = 0x80;
  usb_endpoint_out = 0;
  usb_type_class = 0x20;
  usb_recip_interface = 1;
  usb_req_get_descriptor = 6;
  usb_dt_hid = 0x21;
  usb_dt_report = 0x22;
  etimedout = negsuc 109;
  usb_call = λ c w. record { reply = answer c; after = w };
  usb_device = λ w h. keyboard;
  usb_get_busses = λ w. record { dirname = codes "001"; devices = keyboard ∷ [] } ∷ [];
  malloc_interface = λ w. record { block = some 1; after = w };
  malloc_data = λ w. record { block = some blank_data; after = w };
  malloc_parser = λ w. record { block = some blank_parser; after = w };
  malloc_chars = λ n w. record { block = some (replicate n 0); after = w };
  reset_parser = λ u. u;
  hid_parse = λ q d. record { found = true; parser = q; hid_data = d };
  find_object = λ q d. record { found = true; parser = q; hid_data = record d { report_id = 3 } };
  get_report_offset = λ q n t. record { entry = some 8; parser = q };
  get_value = λ b d. d;
}

abbrev pub matcher : HidInterfaceMatcher ℕ
matcher = record {
  vendor_id = 0x0d;
  product_id = 0x1a;
  matcher_fn = none;
  custom_data = 0;
  custom_data_length = 0;
}

-- Before `hid_init`.
abbrev pub fresh : Library ℕ (Unit {0})
fresh = record {
  world = 0;
  initialised = false;
  open_list = no_open_devices;
  interfaces = λ _. none;
  calls = [];
  mallocs = 0;
  frees = 0;
}

-- Initialised, with one closed interface.
abbrev pub closed_one : Library ℕ (Unit {0})
closed_one = record fresh {
  initialised = true;
  interfaces = update fresh.interfaces 1 (some reset);
  mallocs = 1;
}

abbrev pub an_open : HidInterface (Unit {0})
an_open = record {
  dev_handle = 5;
  device = some keyboard;
  interface = pos 0;
  id = codes "001/004[0]";
  hid_data = some blank_data;
  hid_parser = some blank_parser;
}

-- The same interface once it is open and listed.
abbrev pub open_one : Library ℕ (Unit {0})
open_one = record fresh {
  initialised = true;
  open_list = record { n_devices = 1; slots = 1 ∷ replicate 19 0 };
  interfaces = update fresh.interfaces 1 (some an_open);
  mallocs = 3;
}

-- A device has been found for the interface, and nothing is prepared yet.
abbrev pub found_one : Library ℕ (Unit {0})
found_one = record fresh {
  initialised = true;
  interfaces =
      update fresh.interfaces 1 (some (record an_open { hid_data = none; hid_parser = none }));
  mallocs = 1;
}
