-- ===== src/Finding.antt =====
-- `hid_previously_matched`, `hid_find_usb_device` and `hid_get_usb_handle` of src/hid_opening.c:
-- the search for a device among those that libusb lists.
pub mod Listed
pub mod Laws
pub mod Handles
pub mod First
pub mod Round
pub mod Search
use libhid.Base.{
  ℕ, Bool, true, false, not, ◌&&◌, Option, none, some, List, [], ◌∷◌, ◌++◌, ◌==◌, if◌then◌else◌,
  Bytes, ℤ, eq_ℤ, take, codes,
}
use libhid.Types.{
  HidReturn, success, fail_open_device, device_not_found, Device, Bus, HidInterface,
  HidInterfaceMatcher, open_device, close_handle, claim_interface,
}
use libhid.State.{Env, M, pure, gets, ◌>>=◌, ◌>>◌, load, store, usb}
use libhid.Matching.{hid_compare_usb_device, usb_match_all}
use libhid.Printf.{show_int}

-- `usbdev == hidif->device`: two devices are the same object if they have one address.
unfoldable pub same_device : Device → Option Device → Bool
same_device d none = false
same_device d (some e) = d.address == e.address

unfoldable pub is_success : HidReturn → Bool
is_success HidReturn.success = true
is_success _ = false

-- `snprintf(hidif->id, 32, "%s/%s[%d]", …)`: at most 31 characters and the final NUL.
unfoldable pub format_id : Bytes → Bytes → ℤ → Bytes
format_id dirname filename interface =
    take 31 (dirname ++ codes "/" ++ filename ++ codes "[" ++ show_int interface ++ codes "]")

module _ {W P : Type 0} where
  -- The loop over the open interfaces, each of which is dereferenced.
  unfoldable pub any_matched : Device → ℤ → List ℕ → M W P Bool
  any_matched dev interface [] = pure false
  any_matched dev interface (p ∷ ps) = do
    i ← load p
    if eq_ℤ interface i.interface && same_device dev i.device
        then pure true
        else any_matched dev interface ps

module _ {W P : Type 0} where
  -- The next round of the inner and of the outer loop, unless this one has returned.
  unfoldable pub or_next : Option HidReturn → M W P (Option HidReturn) → M W P (Option HidReturn)
  or_next none next = next
  or_next (some ret) next = pure (some ret)

  unfoldable pub or_return : Option HidReturn → M W P HidReturn → M W P HidReturn
  or_return none next = next
  or_return (some ret) next = pure ret

module _ {W P : Type 0} (env : Env W P) where
  unfoldable pub hid_previously_matched : ℕ → ℤ → M W P Bool
  hid_previously_matched dev_h interface = do
    l ← gets (λ s. s.open_list)
    dev ← gets (λ s. env.usb_device s.world dev_h)
    any_matched dev interface (take l.n_devices l.slots)

  -- The end of a round, by whether the flags are USB_MATCH_ALL; `none` goes on to the next device.
  unfoldable pub settle : Bool → ℕ → HidInterface P → ℕ → M W P (Option HidReturn)
  settle true hidif i dev_h = do
    dev ← gets (λ s. env.usb_device s.world dev_h)
    store hidif (record i { dev_handle = dev_h; device = some dev })
    pure (some success)
  settle false hidif i dev_h = do usb env (close_handle dev_h); pure none

  -- After the test for a match that was made before. Its `continue` skips `usb_close`.
  unfoldable pub match_unseen :
      Bool → ℕ → HidInterface P → HidInterfaceMatcher W → ℕ → M W P (Option HidReturn)
  match_unseen true hidif i matcher dev_h = pure none
  match_unseen false hidif i matcher dev_h = do
    flags ← hid_compare_usb_device env dev_h matcher
    settle (flags == usb_match_all) hidif i dev_h

  -- After a handle is there.
  unfoldable pub consider : ℕ → HidInterfaceMatcher W → ℕ → M W P (Option HidReturn)
  consider hidif matcher dev_h = do
    i ← load hidif
    usb env (claim_interface dev_h i.interface)
    seen ← hid_previously_matched dev_h i.interface
    match_unseen seen hidif i matcher dev_h

  -- One round of the inner loop.
  unfoldable pub inspect : ℕ → HidInterfaceMatcher W → Bytes → Device → M W P (Option HidReturn)
  inspect hidif matcher dirname dev = do
    i ← load hidif
    store hidif (record i { id = format_id dirname dev.filename i.interface })
    r ← usb env (open_device dev)
    if r.handle == 0 then pure (some fail_open_device) else consider hidif matcher r.handle

  unfoldable pub scan_devices :
      ℕ → HidInterfaceMatcher W → Bytes → List Device → M W P (Option HidReturn)
  scan_devices hidif matcher dirname [] = pure none
  scan_devices hidif matcher dirname (d ∷ ds) = do
    r ← inspect hidif matcher dirname d
    or_next r (scan_devices hidif matcher dirname ds)

  unfoldable pub scan_busses : ℕ → HidInterfaceMatcher W → List Bus → M W P HidReturn
  scan_busses hidif matcher [] = pure device_not_found
  scan_busses hidif matcher (b ∷ bs) = do
    r ← scan_devices hidif matcher b.dirname b.devices
    or_return r (scan_busses hidif matcher bs)

  unfoldable pub hid_find_usb_device : ℕ → HidInterfaceMatcher W → M W P HidReturn
  hid_find_usb_device hidif matcher = do
    busses ← gets (λ s. env.usb_get_busses s.world)
    scan_busses hidif matcher busses

  unfoldable pub hid_get_usb_handle : ℕ → HidInterfaceMatcher W → M W P HidReturn
  hid_get_usb_handle hidif matcher = do
    ret ← hid_find_usb_device hidif matcher
    if is_success ret
        then pure success
        else do i ← load hidif; store hidif (record i { dev_handle = 0; device = none }); pure ret
