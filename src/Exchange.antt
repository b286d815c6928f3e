-- ===== src/Exchange.antt =====
-- src/hid_exchange.c: reports and interrupt transfers. A function that fills a caller's buffer
-- gives back what libusb left there; a `Bool` argument says that a pointer is not NULL.
pub mod Interrupt
pub mod Idle
pub mod Reports
pub mod Kinds
pub mod Item
pub mod Keeps
use libhid.Base.{
  ℕ, ◌+◌, ◌*◌, ◌^◌, ◌%◌, Bool, not, ◌&&◌, Option, none, some, List, [], ltb, if◌then◌else◌, Bytes,
  ℤ, pos, is_neg, eq_ℤ, signed, length,
}
use libhid.Types.{
  HidReturn, success, invalid_parameter, device_not_opened, fail_get_report, fail_set_report,
  fail_int_read, timeout, HidInterface, control_in, control_out, UsbCall, Reply,
}
use libhid.State.{deref, Env, M, pure, ◌>>=◌, ◌>>◌, load, store, usb}
use libhid.Interface.{hid_is_opened}
use libhid.Parsing.{hid_find_object, hid_get_report_size, hid_extract_value}
use libhid.Preparation.{usb_timeout}
use libhid.Finding.{is_success}

-- hidparser/hidtypes.h
abbrev pub item_feature : ℕ
item_feature = 0xb0

abbrev pub item_input : ℕ
item_input = 0x80

abbrev pub item_output : ℕ
item_output = 0x90

-- include/constants.h
abbrev pub hid_report_get : ℕ
hid_report_get = 0x01

abbrev pub hid_report_set : ℕ
hid_report_set = 0x09

abbrev pub hid_set_idle_request : ℕ
hid_set_idle_request = 0x0a

abbrev pub hid_rt_input : ℕ
hid_rt_input = 0x01

abbrev pub hid_rt_output : ℕ
hid_rt_output = 0x02

abbrev pub hid_rt_feature : ℕ
hid_rt_feature = 0x03

-- Neither `len < 0` nor `len != (signed)size`.
unfoldable pub is_complete : ℤ → ℕ → Bool
is_complete len size = not (is_neg len) && eq_ℤ len (signed size)

pub record Received : Type 0 where
  pub ret : HidReturn
  pub buffer : Bytes

-- The interface and the report's number, as the lookup leaves them.
pub record Target (P : Type 0) : Type 0 where
  pub hidif : HidInterface P
  pub report_id : ℕ

module _ {W P : Type 0} (env : Env W P) where
  -- The lookup that the report functions share. The result of `hid_find_object` is not looked at.
  unfoldable pub look_up : ℕ → ℕ → List ℕ → ℕ → M W P (Target P)
  look_up hidif item path depth = do
    i ← load hidif
    d ← deref i.hid_data
    store hidif (record i { hid_data = some (record d { item_type = item; report_id = 0 }) })
    hid_find_object env hidif path depth
    j ← load hidif
    e ← deref j.hid_data
    pure (record { hidif = j; report_id = e.report_id })

  -- A report of one type from the device.
  unfoldable pub receive : ℕ → ℕ → ℕ → List ℕ → ℕ → Bool → ℕ → M W P Received
  receive item rt hidif path depth buffer size =
      if not buffer then pure (record { ret = invalid_parameter; buffer = [] }) else do
        opened ← hid_is_opened hidif
        if not opened then pure (record { ret = device_not_opened; buffer = [] }) else do
          t ← look_up hidif item path depth
          r ← usb env (
              control_in t.hidif.dev_handle
                (env.usb_endpoint_in + env.usb_type_class + env.usb_recip_interface) hid_report_get
                (t.report_id + rt * 2 ^ 8) t.hidif.interface size usb_timeout)
          pure (record {
            ret = if is_complete r.ret size then success else fail_get_report;
            buffer = r.buffer;
          })

  -- A report of one type to the device; `none` is a NULL buffer.
  unfoldable pub send : ℕ → ℕ → ℕ → List ℕ → ℕ → Option Bytes → ℕ → M W P HidReturn
  send item rt hidif path depth buffer size = elim buffer [
    | none ↦ pure invalid_parameter
    | some bytes ↦ do
      opened ← hid_is_opened hidif
      if not opened then pure device_not_opened else do
        t ← look_up hidif item path depth
        r ← usb env (
            control_out t.hidif.dev_handle
              (env.usb_endpoint_out + env.usb_type_class + env.usb_recip_interface) hid_report_set
              (t.report_id + rt * 2 ^ 8) t.hidif.interface bytes size usb_timeout)
        pure (if is_complete r.ret size then success else fail_set_report)
  ]

  unfoldable pub hid_get_input_report : ℕ → List ℕ → ℕ → Bool → ℕ → M W P Received
  unfolding receive
  hid_get_input_report = receive item_input hid_rt_input

  unfoldable pub hid_set_output_report : ℕ → List ℕ → ℕ → Option Bytes → ℕ → M W P HidReturn
  unfolding send
  hid_set_output_report = send item_output hid_rt_output

  unfoldable pub hid_get_feature_report : ℕ → List ℕ → ℕ → Bool → ℕ → M W P Received
  unfolding receive
  hid_get_feature_report = receive item_feature hid_rt_feature

  unfoldable pub hid_set_feature_report : ℕ → List ℕ → ℕ → Option Bytes → ℕ → M W P HidReturn
  unfolding send
  hid_set_feature_report = send item_feature hid_rt_feature

  -- What `hid_get_item_value` does after its transfer. The item's buffer has 32 bytes; a transfer past
  -- its end is a fault. The parser is given those that the transfer wrote, since the others are not
  -- initialised.
  unfoldable pub item_received : ℕ → Bool → ℕ → Reply → M W P (HidReturn × Option ℤ)
  item_received hidif value size r = do
    bytes ← deref (if ltb 32 (length r.buffer) then none else some r.buffer)
    if not (eq_ℤ r.ret (pos size)) then pure (fail_get_report, none) else do
      (ret, v) ← hid_extract_value env hidif (some bytes) value
      pure (if is_success ret then (success, v) else (fail_get_report, none))

  unfoldable pub hid_get_item_value : ℕ → List ℕ → ℕ → Bool → M W P (HidReturn × Option ℤ)
  hid_get_item_value hidif path depth value = do
    opened ← hid_is_opened hidif
    if not opened then pure (device_not_opened, none) else do
      t ← look_up hidif item_feature path depth
      d ← deref t.hidif.hid_data
      (_, sized) ← hid_get_report_size env hidif d.report_id d.item_type
      size ← deref sized
      j ← load hidif
      r ← usb env (
          control_in j.dev_handle
            (env.usb_endpoint_in + env.usb_type_class + env.usb_recip_interface) hid_report_get
            (t.report_id + hid_rt_feature * 2 ^ 8) j.interface size usb_timeout)
      item_received hidif value size r

  -- Two functions that are not implemented, and report success.
  unfoldable pub hid_get_item_string : ℕ → List ℕ → ℕ → Bytes → ℕ → M W P HidReturn
  hid_get_item_string hidif path depth value maxlen = pure success

  unfoldable pub hid_set_item_value : ℕ → List ℕ → ℕ → ℤ → M W P HidReturn
  hid_set_item_value hidif path depth value = pure success

  -- The outcome of an interrupt transfer.
  unfoldable pub interrupt_result : ℤ → ℕ → HidReturn
  interrupt_result len size =
      if eq_ℤ len env.etimedout
      then timeout
      else if is_complete len size
      then success
      else fail_int_read

  unfoldable pub hid_interrupt_read : ℕ → ℕ → Bool → ℕ → ℕ → M W P Received
  hid_interrupt_read hidif ep bytes size wait =
      if not bytes then pure (record { ret = invalid_parameter; buffer = [] }) else do
        opened ← hid_is_opened hidif
        if not opened then pure (record { ret = device_not_opened; buffer = [] }) else do
          i ← load hidif
          r ← usb env (UsbCall.interrupt_read i.dev_handle ep size wait)
          pure (record { ret = interrupt_result r.ret size; buffer = r.buffer })

  unfoldable pub hid_interrupt_write : ℕ → ℕ → Option Bytes → ℕ → ℕ → M W P HidReturn
  hid_interrupt_write hidif ep bytes size wait = elim bytes [
    | none ↦ pure invalid_parameter
    | some sent ↦ do
      opened ← hid_is_opened hidif
      if not opened then pure device_not_opened else do
        i ← load hidif
        r ← usb env (UsbCall.interrupt_write i.dev_handle ep sent size wait)
        pure (interrupt_result r.ret size)
  ]

  -- The interface is dereferenced with no test that it is open. `duration & 0xff` is `% 2 ^ 8`.
  unfoldable pub hid_set_idle : ℕ → ℕ → ℕ → M W P HidReturn
  hid_set_idle hidif duration report_id =
      if ltb 255 duration
      then pure invalid_parameter
      else if ltb 255 report_id
      then pure invalid_parameter
      else do
        i ← load hidif
        r ← usb env (
            control_out i.dev_handle (env.usb_type_class + env.usb_recip_interface)
              hid_set_idle_request (report_id + duration % 2 ^ 8 * 2 ^ 8) i.interface [] 0
              usb_timeout)
        pure (if eq_ℤ r.ret (pos 0) then success else fail_get_report)
