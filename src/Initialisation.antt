-- ===== src/Initialisation.antt =====
-- `hid_init`, `hid_cleanup` and `hid_is_initialised` of src/hid_initialisation.c.
pub mod Laws
use libhid.Base.{Bool, true, false, if◌then◌else◌, is_neg}
use libhid.Types.{
  HidReturn, success, not_initialised, already_initialised, fail_find_busses, fail_find_devices,
  init, find_busses, find_devices,
}
use libhid.State.{Env, M, pure, gets, ◌>>=◌, ◌>>◌, modify, usb}

module _ {W P : Type 0} where
  unfoldable pub hid_is_initialised : M W P Bool
  hid_is_initialised = gets (λ s. s.initialised)

  unfoldable pub hid_cleanup : M W P HidReturn
  unfolding hid_is_initialised
  hid_cleanup = do
    ready ← hid_is_initialised
    if ready
        then (do modify (λ s. record s { initialised = false }); pure success)
        else pure not_initialised

module _ {W P : Type 0} (env : Env W P) where
  unfoldable pub hid_init : M W P HidReturn
  unfolding hid_is_initialised
  hid_init = do
    ready ← hid_is_initialised
    if ready then pure already_initialised else do
      usb env init
      b ← usb env find_busses
      if is_neg b.ret then pure fail_find_busses else do
        d ← usb env find_devices
        if is_neg d.ret
            then pure fail_find_devices
            else do modify (λ s. record s { initialised = true }); pure success
