-- ===== src/Interface/Laws.antt =====
-- `hid_is_opened` and `hid_reset_HIDInterface` at an interface that exists.
use libhid.Base.{ap, Option, none, ℕ, ◌≡◌, ◌≢◌, true, false, not, some, arith, ◌==◌, ==_iff}
use libhid.Types.{HidInterface}
use libhid.State.{Library, and_then, load-some, update}
use libhid.Interface.{hid_is_opened, hid_reset_interface, reset}

pub eq_false : (a b : ℕ) → a ≢ b → (a == b) ≡ false
eq_false a b h = ground arith

module _ {W P : Type 0} (p : ℕ) (s : Library W P) {i : HidInterface P} (there : p ≢ 0)
    (object : s.interfaces p ≡ some i) where
  pub hid_is_opened_lem : hid_is_opened p s ≡ some (not (i.dev_handle == 0), s)
  unfolding hid_is_opened and_then
  hid_is_opened_lem = rw (eq_false p 0 there, load-some p s object)

  pub hid_is_opened_open : i.dev_handle ≢ 0 → hid_is_opened p s ≡ some (true, s)
  hid_is_opened_open h = rw (hid_is_opened_lem, eq_false i.dev_handle 0 h)

  pub hid_is_opened_closed : i.dev_handle ≡ 0 → hid_is_opened p s ≡ some (false, s)
  hid_is_opened_closed h = rw (hid_is_opened_lem, (==_iff i.dev_handle 0).1 h)

  pub hid_reset_interface_lem :
      hid_reset_interface p s
      ≡ some (tt, record s { interfaces = update s.interfaces p (some reset) })
  unfolding hid_reset_interface and_then
  hid_reset_interface_lem = rw (eq_false p 0 there, load-some p s object)

-- An address holds one object.
pub same_object : {P : Type 0} (i j : HidInterface P) → some i ≡ some j → i ≡ j
same_object {P} i j same = ap known same
  where
    known : Option (HidInterface P) → HidInterface P
    known none = i
    known (some k) = k
