-- ===== src/ForceClaim.antt =====
-- `hid_os_force_claim` for each platform: src/linux.c, src/bsd.c (also Solaris) and src/darwin.c.
pub mod Laws
pub mod Success
use libhid.Base.{ℕ, zero, suc, not, Option, none, some, ◌==◌, if◌then◌else◌, ℤ, pos, is_neg, eq_ℤ}
use libhid.Types.{
  HidReturn, success, invalid_parameter, device_already_opened, fail_claim_iface,
  fail_detach_driver, claim_interface, detach_kernel_driver, HidInterfaceMatcher,
}
use libhid.State.{Env, M, pure, ◌>>=◌, ◌>>◌, load, usb}
use libhid.Interface.{hid_is_opened}

-- The file that src/Makefile.am compiles in.
pub data Platform : Type 0 where
  linux bsd darwin : Platform

module _ {W P : Type 0} (env : Env W P) where
  -- `while ((ret = usb_claim_interface(…)) != 0 && retries-- > 0) { … }`
  unfoldable pub claim_loop : ℕ → ℤ → ℕ → M W P HidReturn
  claim_loop handle interface zero = do
    r ← usb env (claim_interface handle interface)
    pure (if eq_ℤ r.ret (pos 0) then success else fail_claim_iface)
  claim_loop handle interface (suc retries) = do
    r ← usb env (claim_interface handle interface)
    if eq_ℤ r.ret (pos 0) then pure success else do
      d ← usb env (detach_kernel_driver handle interface)
      if is_neg d.ret then pure fail_detach_driver else claim_loop handle interface retries

  unfoldable pub claim_bsd : ℕ → ℤ → M W P HidReturn
  claim_bsd handle interface = do
    r ← usb env (claim_interface handle interface)
    pure (if is_neg r.ret then fail_claim_iface else success)

  -- The failure's `return` is commented out.
  unfoldable pub claim_darwin : ℕ → ℤ → M W P HidReturn
  claim_darwin handle interface = do usb env (claim_interface handle interface); pure success

  unfoldable pub claim_on : Platform → ℕ → ℤ → ℕ → M W P HidReturn
  claim_on linux handle interface retries = claim_loop handle interface retries
  claim_on bsd handle interface retries = claim_bsd handle interface
  claim_on darwin handle interface retries = claim_darwin handle interface

  unfoldable pub hid_os_force_claim :
      Platform → ℕ → ℤ → Option (HidInterfaceMatcher W) → ℕ → M W P HidReturn
  hid_os_force_claim platform hidif interface matcher retries =
      if hidif == 0 then pure invalid_parameter else do
        opened ← hid_is_opened hidif
        if not opened then pure device_already_opened else elim matcher [
          | none ↦ pure invalid_parameter
          | some _ ↦ do i ← load hidif; claim_on platform i.dev_handle interface retries
        ]
