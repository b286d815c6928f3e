-- ===== src/Closing.antt =====
-- `hid_close` of src/hid_opening.c.
pub mod Laws
pub mod Removed
use libhid.Base.{ℕ, ◌+◌, Option, none, some, negsuc, is_neg, if◌then◌else◌, not, ℤ}
use libhid.Types.{HidParser, HidReturn, success, fail_close_device, close_handle}
use libhid.State.{block, Env, M, pure, ◌>>=◌, ◌>>◌, modify, load, usb}
use libhid.OpenList.{remove_open_device}
use libhid.Interface.{hid_is_opened, hid_reset_interface}
use libhid.Parsing.{hid_reset_parser}

module _ {W P : Type 0} (env : Env W P) where
  -- The result of `usb_close`, or -1 for an interface that is not open.
  unfoldable pub close_device : ℕ → M W P ℤ
  close_device hidif = do
    opened ← hid_is_opened hidif
    if not opened
        then pure (negsuc 0)
        else do i ← load hidif; r ← usb env (close_handle i.dev_handle); pure r.ret

  -- `if (hidif->hid_parser) hid_reset_parser(hidif);`
  unfoldable pub reset_held : Option (HidParser P) → ℕ → M W P (Unit {0})
  reset_held none hidif = pure tt
  reset_held (some _) hidif = hid_reset_parser env hidif

  -- `free` of both structures, where they are there.
  unfoldable pub release_parser : ℕ → M W P (Unit {0})
  release_parser hidif = do
    i ← load hidif
    reset_held i.hid_parser hidif
    modify (λ s. record s { frees = s.frees + (block i.hid_parser + block i.hid_data) })

  unfoldable pub hid_close : ℕ → M W P HidReturn
  hid_close hidif = do
    ret ← close_device hidif
    modify (λ s. record s { open_list = remove_open_device s.open_list hidif })
    release_parser hidif
    hid_reset_interface hidif
    pure (if is_neg ret then fail_close_device else success)
