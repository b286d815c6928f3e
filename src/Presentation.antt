-- ===== src/Presentation.antt =====
-- src/hid_presentation.c: the identification of an interface and the texts of the result codes. What
-- is printed to the stream is a result of the function; a `Bool` says that the stream is not NULL.
pub mod Laws
pub mod Tree
pub mod Keeps
use libhid.Base.{
  ℕ, zero, suc, Bool, not, List, [], ◌∷◌, ◌++◌, ◌==◌, ltb, if◌then◌else◌, Bytes, codes, ℤ, pos,
  negsuc,
}
use libhid.Types.{HidReturn, success, device_not_opened, invalid_parameter, Device, get_string}
use libhid.State.{Env, M, pure, deref, ◌>>=◌, ◌>>◌, load, usb}
use libhid.Interface.{hid_is_opened}
use libhid.Printf.{show_hex}

-- `%s` prints a buffer up to its NUL.
unfoldable pub c_string : Bytes → Bytes
c_string [] = []
c_string (b ∷ bs) = let rest = c_string bs in if b == 0 then [] else b ∷ rest

-- `len > 0`
unfoldable pub is_positive : ℤ → Bool
is_positive (pos n) = ltb 0 n
is_positive (negsuc n) = ltb 0 0

unfoldable pub newline : Bytes
newline = 10 ∷ []

module _ {W P : Type 0} (env : Env W P) where
  -- One of the three strings: nothing for the index 0, and a note where it cannot be fetched.
  unfoldable pub string_line : Bytes → Bytes → ℕ → ℕ → M W P Bytes
  string_line label missing handle index = if index == 0 then pure [] else do
    r ← usb env (get_string handle index 256)
    pure (if is_positive r.ret then label ++ c_string r.buffer ++ newline else missing ++ newline)

  unfoldable pub hid_write_identification : Bool → ℕ → M W P (HidReturn × Bytes)
  hid_write_identification out hidif = do
    opened ← hid_is_opened hidif
    if not opened
        then pure (device_not_opened, [])
        else if not out
        then pure (invalid_parameter, [])
        else do
          i ← load hidif
          d ← deref i.device
          manufacturer ←
              string_line (codes "  manufacturer:  ")
                (codes "(unable to fetch manufacturer string)") i.dev_handle d.i_manufacturer
          product ←
              string_line (codes "  product:       ") (codes "(unable to fetch product string)")
                i.dev_handle d.i_product
          serial ←
              string_line (codes "  serial number: ") (codes "(unable to fetch product string)")
                i.dev_handle d.i_serial_number
          pure (
            success,
            codes "device identification of HIDInterface "
                ++ i.id
                ++ codes ":"
                ++ newline
                ++ codes "  dev_handle:    0x"
                ++ show_hex 8 i.dev_handle
                ++ newline
                ++ codes "  device:        0x"
                ++ show_hex 8 d.address
                ++ newline
                ++ codes "  location:      "
                ++ d.dirname
                ++ codes "/"
                ++ d.filename
                ++ newline
                ++ manufacturer
                ++ product
                ++ serial,
          )

-- The final `return "libhid: unknown error"` is for numbers that are no result code.
unfoldable pub hid_strerror : HidReturn → Bytes
hid_strerror HidReturn.success = codes "libhid: success"
hid_strerror HidReturn.invalid_parameter = codes "libhid: invalid parameter"
hid_strerror HidReturn.not_initialised = codes "libhid: not initialized; call hid_init() first"
hid_strerror HidReturn.already_initialised = codes "libhid: hid_init() already called"
hid_strerror HidReturn.fail_find_busses = codes "libhid: failed to find any USB busses"
hid_strerror HidReturn.fail_find_devices = codes "libhid: failed to find any USB devices"
hid_strerror HidReturn.fail_open_device = codes "libhid: failed to open device"
hid_strerror HidReturn.device_not_found = codes "libhid: device not found"
hid_strerror HidReturn.device_not_opened = codes "libhid: device not yet opened"
hid_strerror HidReturn.device_already_opened = codes "libhid: device already opened"
hid_strerror HidReturn.fail_close_device = codes "libhid: could not close device"
hid_strerror HidReturn.fail_claim_iface =
    codes "libhid: failed to claim interface; is another driver using it?"
hid_strerror HidReturn.fail_detach_driver = codes "libhid: failed to detach kernel driver"
hid_strerror HidReturn.not_hid_device = codes "libhid: not recognized as a HID device"
hid_strerror HidReturn.hid_desc_short = codes "libhid: HID interface descriptor too short"
hid_strerror HidReturn.report_desc_short = codes "libhid: HID report descriptor too short"
hid_strerror HidReturn.report_desc_long = codes "libhid: HID report descriptor too long"
hid_strerror HidReturn.fail_alloc = codes "libhid: failed to allocate memory"
hid_strerror HidReturn.out_of_space = codes "libhid: no space left in buffer"
hid_strerror HidReturn.fail_set_report = codes "libhid: failed to set report"
hid_strerror HidReturn.fail_get_report = codes "libhid: failed to get report"
hid_strerror HidReturn.fail_int_read = codes "libhid: interrupt read failed"
hid_strerror HidReturn.not_found = codes "libhid: not found"
hid_strerror HidReturn.timeout = codes "libhid: timeout"
