-- ===== src/Matching.antt =====
-- `hid_compare_usb_device` of src/hid_opening.c: how a device is held against a HIDInterfaceMatcher.
pub mod Bits
pub mod Verdict
use libhid.Base.{ℕ, Bool, true, ◌&&◌, Option, none, some, ltb, ◌==◌, if◌then◌else◌, bit_and, bit_or}
use libhid.Types.{Device, HidInterfaceMatcher}
use libhid.State.{Env, Library, M, pure, gets, ◌>>=◌}

-- `enum USBMatchFlags`
abbrev pub usb_match_none : ℕ
usb_match_none = 0x0

abbrev pub usb_match_vendor : ℕ
usb_match_vendor = 0x1

abbrev pub usb_match_product : ℕ
usb_match_product = 0x2

abbrev pub usb_match_custom : ℕ
usb_match_custom = 0x4

abbrev pub usb_match_all : ℕ
usb_match_all = bit_or (bit_or usb_match_vendor usb_match_product) usb_match_custom

-- `(id & wanted) == wanted`
unfoldable pub id_matches : ℕ → ℕ → Bool
id_matches id wanted = bit_and id wanted == wanted

-- `ret |= flag` under a test
abbrev pub raise : Bool → ℕ → ℕ → ℕ
raise test flag ret = if test then bit_or ret flag else ret

-- What the custom function says; a matcher without one accepts every device.
unfoldable pub ask :
    {W : Type 0} → HidInterfaceMatcher W → ℕ → W → record { verdict : Bool; after : W }
ask matcher dev_h w = elim matcher.matcher_fn [
  | none ↦ record { verdict = true; after = w }
  | some f ↦ f dev_h matcher.custom_data matcher.custom_data_length w
]

unfoldable pub custom_verdict : {W P : Type 0} → HidInterfaceMatcher W → ℕ → M W P Bool
custom_verdict matcher dev_h s =
    let r = ask matcher dev_h s.world in some (r.verdict, record s { world = r.after })

unfoldable pub vendor_matches : {W : Type 0} → Device → HidInterfaceMatcher W → Bool
unfolding id_matches
vendor_matches dev matcher = ltb 0 dev.id_vendor && id_matches dev.id_vendor matcher.vendor_id

module _ {W P : Type 0} (env : Env W P) where
  unfoldable pub hid_compare_usb_device : ℕ → HidInterfaceMatcher W → M W P ℕ
  unfolding custom_verdict vendor_matches
  hid_compare_usb_device dev_h matcher = do
    dev ← gets (λ s. env.usb_device s.world dev_h)
    let vendor = raise (vendor_matches dev matcher) usb_match_vendor usb_match_none
    let product = raise (id_matches dev.id_product matcher.product_id) usb_match_product vendor
    custom ← custom_verdict matcher dev_h
    pure (raise custom usb_match_custom product)
