-- ===== src/Detach.antt =====
-- `main` of src/libhid-detach-device.c: the program that takes a device from the kernel's driver. Its
-- result is the exit status and what it prints to stderr.
pub mod Ids
pub mod Leaving
pub mod Main
pub mod Success
pub mod Whole
use libhid.Base.{
  ℕ, zero, suc, ◌+◌, not, some, none, List, [], ◌∷◌, ◌++◌, ◌==◌, if◌then◌else◌, Bytes, codes, pos,
  length, drop,
}
use libhid.Types.{HidReturn, HidInterfaceMatcher, result_code}
use libhid.State.{Env, M, pure, deref, ◌>>=◌, ◌>>◌}
use libhid.Printf.{show_nat, show_hex}
use libhid.Initialisation.{hid_init, hid_cleanup}
use libhid.Interface.{hid_new_interface, hid_delete_interface}
use libhid.Finding.{is_success}
use libhid.ForceClaim.{Platform}
use libhid.Opening.{hid_force_open}
use libhid.Closing.{hid_close}
use libhid.Detach.Ids.{parse_id}

-- "… failed with return code %d.\n"
unfoldable pub failure_text : Bytes → HidReturn → Bytes
failure_text name ret =
    name ++ codes " failed with return code " ++ show_nat (result_code ret) ++ codes ".\n"

unfoldable pub usage : Bytes → Bytes
usage program =
    codes "Usage: "
    ++ program
    ++ codes " vendor_id:product_id\n   Eg: "
    ++ program
    ++ codes " 06c2:0038\n"

-- `HIDInterfaceMatcher matcher = { vendor_id, product_id, NULL, NULL, 0 };`
unfoldable pub detach_matcher : {W : Type 0} → ℕ → ℕ → HidInterfaceMatcher W
detach_matcher vendor_id product_id = record {
  vendor_id = vendor_id;
  product_id = product_id;
  matcher_fn = none;
  custom_data = 0;
  custom_data_length = 0;
}

module _ {W P : Type 0} where
  -- After a successful `hid_close`.
  unfoldable pub delete_and_leave : ℕ → M W P (ℕ × Bytes)
  delete_and_leave hid = do
    hid_delete_interface hid
    ret ← hid_cleanup
    if not (is_success ret)
        then pure (1, failure_text (codes "hid_cleanup") ret)
        else pure (0, codes "done.\n")

module _ {W P : Type 0} (env : Env W P) where
  -- After a successful `hid_force_open`.
  unfoldable pub close_and_leave : ℕ → M W P (ℕ × Bytes)
  close_and_leave hid = do
    ret ← hid_close env hid
    if not (is_success ret)
        then pure (1, failure_text (codes "hid_close") ret)
        else delete_and_leave hid

  -- After a successful `hid_init`.
  unfoldable pub open_and_leave : Platform → HidInterfaceMatcher W → M W P (ℕ × Bytes)
  open_and_leave platform matcher = do
    hid ← hid_new_interface env
    if hid == 0 then pure (1, codes "hid_new_HIDInterface() failed, out of memory?\n") else do
      ret ← hid_force_open env platform hid (pos 0) (some matcher) 3
      if not (is_success ret)
          then pure (1, failure_text (codes "hid_force_open") ret)
          else close_and_leave hid

  unfoldable pub init_and_leave : Platform → HidInterfaceMatcher W → M W P (ℕ × Bytes)
  init_and_leave platform matcher = do
    ret ← hid_init env
    if not (is_success ret)
        then pure (1, failure_text (codes "hid_init") ret)
        else open_and_leave platform matcher

  -- `arguments` are those after the program's name. The last two arguments are the bytes that the two
  -- arrays hold behind the identifiers.
  unfoldable pub detach_main : Platform → Bytes → List Bytes → ℕ → ℕ → M W P (ℕ × Bytes)
  detach_main platform program (argument ∷ []) junk junk' =
      if not (length argument == length (codes "dead:beef")) then pure (255, usage program) else do
        vendor_id ← deref (parse_id argument junk)
        product_id ← deref (parse_id (drop 5 argument) junk')
        (status, text) ← init_and_leave platform (detach_matcher vendor_id product_id)
        pure (
          status,
          codes "Trying to detach HID with IDs "
              ++ show_hex 4 vendor_id
              ++ codes ":"
              ++ show_hex 4 product_id
              ++ codes "... "
              ++ text,
        )
  detach_main platform program arguments junk junk' = pure (255, usage program)
