-- ===== src/Preparation.antt =====
-- src/hid_preparation.c: the descriptors of an interface that has just been opened.
pub mod Laws
pub mod Success
use libhid.Base.{
  ℕ, ◌+◌, ◌*◌, ◌%◌, ◌^◌, not, some, ltb, ◌++◌, if◌then◌else◌, Bytes, ℤ, pos, negsuc, bit_or, get_or,
  drop, take, length,
}
use libhid.Types.{
  report_dsc_size, HidReturn, success, device_not_opened, not_hid_device, hid_desc_short,
  report_desc_short, report_desc_long, fail_get_report, control_in, HidInterface,
}
use libhid.State.{deref, Env, M, pure, ◌>>=◌, ◌>>◌, load, store, usb}
use libhid.Interface.{hid_is_opened}
use libhid.Parsing.{hid_init_parser, hid_prepare_parser}
use libhid.Closing.{hid_close}

-- include/constants.h
abbrev pub usb_timeout : ℕ
usb_timeout = 10000

-- `buffer[7] | (buffer[8] << 8)`, kept in an `unsigned short`
unfoldable pub desc_size : Bytes → ℕ
desc_size buffer = bit_or (get_or buffer 7 0) (get_or buffer 8 0 * 2 ^ 8) % 2 ^ 16

-- An array after a transfer of at most `size` bytes into its first bytes; libusb writes no more.
unfoldable pub overwrite : ℕ → Bytes → Bytes → Bytes
overwrite size received old =
    let written = take size received in written ++ drop (length written) old

-- `len < 0` and `len < expected`, the two tests of a transfer's result.
pub data Transfer : Type 0 where
  failed short complete : Transfer

unfoldable pub judge : ℤ → ℕ → Transfer
judge (negsuc _) expected = failed
judge (pos len) expected = if ltb len expected then short else complete

-- What the two transfers return.
unfoldable pub described : Transfer → HidReturn
described failed = not_hid_device
described short = hid_desc_short
described complete = success

unfoldable pub fetched : Transfer → HidReturn
fetched failed = fail_get_report
fetched short = report_desc_short
fetched complete = success

module _ {W P : Type 0} where
  -- Only a complete descriptor sets the size.
  unfoldable pub keep_size : Transfer → ℕ → HidInterface P → Bytes → M W P (Unit {0})
  keep_size complete hidif i buffer = do
    q ← deref i.hid_parser
    store hidif (record i { hid_parser = some (record q { report_desc_size = desc_size buffer }) })
  keep_size _ hidif i buffer = pure tt

module _ {W P : Type 0} (env : Env W P) where
  unfoldable pub hid_prepare_hid_descriptor : ℕ → M W P HidReturn
  hid_prepare_hid_descriptor hidif = do
    i ← load hidif
    r ← usb env (
        control_in i.dev_handle (env.usb_endpoint_in + 1) env.usb_req_get_descriptor
          (env.usb_dt_hid * 2 ^ 8 + 0) i.interface 9 usb_timeout)
    keep_size (judge r.ret 9) hidif i r.buffer
    pure (described (judge r.ret 9))

  unfoldable pub hid_prepare_report_descriptor : ℕ → M W P HidReturn
  hid_prepare_report_descriptor hidif = do
    i ← load hidif
    q ← deref i.hid_parser
    if ltb report_dsc_size q.report_desc_size then pure report_desc_long else do
      r ← usb env (
          control_in i.dev_handle (env.usb_endpoint_in + 1) env.usb_req_get_descriptor
            (env.usb_dt_report * 2 ^ 8 + 0) i.interface q.report_desc_size usb_timeout)
      store hidif (record i {
        hid_parser =
            some (record q { report_desc = overwrite q.report_desc_size r.buffer q.report_desc });
      })
      pure (fetched (judge r.ret q.report_desc_size))

  -- `if (ret != HID_RET_SUCCESS) { hid_close(hidif); return ret; }`, and else the next step.
  unfoldable pub or_close : ℕ → HidReturn → M W P HidReturn → M W P HidReturn
  or_close hidif HidReturn.success next = next
  or_close hidif ret next = do hid_close env hidif; pure ret

  unfoldable pub hid_prepare_interface : ℕ → M W P HidReturn
  hid_prepare_interface hidif = do
    opened ← hid_is_opened hidif
    if not opened then pure device_not_opened else do
      r1 ← hid_init_parser env hidif
      or_close hidif r1 (do
        r2 ← hid_prepare_hid_descriptor hidif
        or_close hidif r2 (do
          r3 ← hid_prepare_report_descriptor hidif
          or_close hidif r3
              (do r4 ← hid_prepare_parser env hidif; or_close hidif r4 (pure success))))
