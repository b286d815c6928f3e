-- ===== src/Opening.antt =====
-- `hid_open` and `hid_force_open` of src/hid_opening.c.
pub mod Outcome
pub mod Kept
pub mod Laws
use libhid.Base.{ℕ, not, Option, none, some, ◌==◌, if◌then◌else◌, ℤ, is_neg}
use libhid.Types.{
  HidReturn, success, not_initialised, invalid_parameter, device_already_opened, fail_claim_iface,
  HidInterfaceMatcher, claim_interface,
}
use libhid.State.{Env, M, pure, gets, ◌>>=◌, ◌>>◌, modify, load, store, usb}
use libhid.OpenList.{add_open_device}
use libhid.Interface.{hid_is_opened}
use libhid.Closing.{hid_close}
use libhid.Preparation.{hid_prepare_interface}
use libhid.Finding.{is_success, hid_get_usb_handle}
use libhid.ForceClaim.{Platform, hid_os_force_claim}

-- `if (!matcher) return HID_RET_INVALID_PARAMETER;` and what comes after it.
unfoldable pub with_matcher :
    {W P : Type 0}
    → Option (HidInterfaceMatcher W)
    → (HidInterfaceMatcher W → M W P HidReturn)
    → M W P HidReturn
with_matcher none go = pure invalid_parameter
with_matcher (some m) go = go m

module _ {W P : Type 0} (env : Env W P) where
  -- What both do once the interface is claimed. The result of `add_open_device` is not looked at.
  unfoldable pub finish_open : ℕ → M W P HidReturn
  finish_open hidif = do
    ret ← hid_prepare_interface env hidif
    if is_success ret
        then (do
          modify (λ s. record s { open_list = (add_open_device s.open_list hidif).list })
          pure success)
        else pure ret

  -- The tests at the head of both, in order; `go` is the rest of the function.
  unfoldable pub check_open :
      ℕ
      → Option (HidInterfaceMatcher W)
      → (HidInterfaceMatcher W → M W P HidReturn)
      → M W P HidReturn
  check_open hidif matcher go = do
    ready ← gets (λ s. s.initialised)
    if not ready then pure not_initialised else if hidif == 0 then pure invalid_parameter else do
      opened ← hid_is_opened hidif
      if opened then pure device_already_opened else with_matcher matcher go

  unfoldable pub claim_and_finish : ℕ → ℤ → M W P HidReturn
  claim_and_finish hidif interface = do
    i ← load hidif
    r ← usb env (claim_interface i.dev_handle interface)
    if is_neg r.ret then (do hid_close env hidif; pure fail_claim_iface) else finish_open hidif

  -- `hidif->interface = interface;` and the search for a device.
  unfoldable pub acquire : ℕ → ℤ → HidInterfaceMatcher W → M W P HidReturn
  acquire hidif interface matcher = do
    i ← load hidif
    store hidif (record i { interface = interface })
    hid_get_usb_handle env hidif matcher

  unfoldable pub hid_open : ℕ → ℤ → Option (HidInterfaceMatcher W) → M W P HidReturn
  hid_open hidif interface matcher = check_open hidif matcher (λ m. do
    ret ← acquire hidif interface m
    if is_success ret then claim_and_finish hidif interface else pure ret)

  unfoldable pub force_claim_and_finish :
      Platform → ℕ → ℤ → HidInterfaceMatcher W → ℕ → M W P HidReturn
  force_claim_and_finish platform hidif interface m retries = do
    ret ← hid_os_force_claim env platform hidif interface (some m) retries
    if is_success ret then finish_open hidif else (do hid_close env hidif; pure ret)

  -- `retries` is an `unsigned short`.
  unfoldable pub hid_force_open :
      Platform → ℕ → ℤ → Option (HidInterfaceMatcher W) → ℕ → M W P HidReturn
  hid_force_open platform hidif interface matcher retries = check_open hidif matcher (λ m. do
    ret ← acquire hidif interface m
    if is_success ret then force_claim_and_finish platform hidif interface m retries else pure ret)
