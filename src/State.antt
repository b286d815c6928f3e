-- ===== src/State.antt =====
-- The state that libhid's functions share, as explicit state passing: the static variables of
-- src/hid_initialisation.c and src/hid_opening.c, the HIDInterface objects on the heap, and what
-- lies outside (libusb, malloc, the MGE HID parser) as the parameter `Env`.
-- The result `none` is undefined behaviour, such as a dereference of NULL or of a freed object.
pub mod Returns
pub mod Safe
pub mod Effect
pub mod Handles
use libhid.Base.{ℕ, Bool, Option, none, some, List, ◌∷◌, Bytes, ℤ, ◌≡◌, ◌==◌, if◌then◌else◌, arith}
use libhid.Types.{HidData, HidParser, Bus, Device, HidInterface, UsbCall, Reply}
use libhid.OpenList.{OpenDeviceList}

-- The HID parser's functions, on the fields that a call changes.
pub record Parsed (P : Type 0) : Type 0 where
  pub found : Bool
  pub parser : HidParser P
  pub hid_data : HidData

-- The code that libhid calls and does not define: the constants of <usb.h>, with `etimedout` for
-- -ETIMEDOUT, libusb, malloc for each type (of chars with the
-- bytes that the block really has room for), and the parser. `W` is the outside
-- world: the USB devices and the allocator.
pub record Env (W P : Type 0) : Type 0 where
  pub usb_endpoint_in : ℕ
  pub usb_endpoint_out : ℕ
  pub usb_type_class : ℕ
  pub usb_recip_interface : ℕ
  pub usb_req_get_descriptor : ℕ
  pub usb_dt_hid : ℕ
  pub usb_dt_report : ℕ
  pub etimedout : ℤ
  pub usb_call : UsbCall → W → record { reply : Reply; after : W }
  pub usb_device : W → ℕ → Device
  pub usb_get_busses : W → List Bus
  pub malloc_interface : W → record { block : Option ℕ; after : W }
  pub malloc_data : W → record { block : Option HidData; after : W }
  pub malloc_parser : W → record { block : Option (HidParser P); after : W }
  pub malloc_chars : ℕ → W → record { block : Option Bytes; after : W }
  pub reset_parser : P → P
  pub hid_parse : HidParser P → HidData → Parsed P
  pub find_object : HidParser P → HidData → Parsed P
  pub get_report_offset : HidParser P → ℕ → ℕ → record { entry : Option ℕ; parser : HidParser P }
  pub get_value : Bytes → HidData → HidData

-- `initialised`, `open_hid_device_list`, and the heap. `calls`, `mallocs` and `frees` only observe:
-- the libusb calls made, the newest first, and the blocks of libhid's own malloc and free.
pub record Library (W P : Type 0) : Type 0 where
  pub world : W
  pub initialised : Bool
  pub open_list : OpenDeviceList
  pub interfaces : ℕ → Option (HidInterface P)
  pub calls : List (UsbCall × Reply)
  pub mallocs : ℕ
  pub frees : ℕ

abbrev pub M : Type 0 → Type 0 → Type 0 → Type 0
M W P A = Library W P → Option (A × Library W P)

-- The number of blocks behind a pointer: one, or none if it is NULL.
abbrev pub block {ℓ} : {A : Type ℓ} → Option A → ℕ
block none = 0
block (some _) = 1

module _ {W P A : Type 0} where
  abbrev pub pure : A → M W P A
  pure a s = some (a, s)

  abbrev pub gets : (Library W P → A) → M W P A
  gets f s = some (f s, s)

-- `*p`, where `p` may be NULL.
abbrev pub deref : {W P A : Type 0} → Option A → M W P A
deref none s = none
deref (some a) s = some (a, s)

-- The rest of a block runs on what the first part has left, unless that was a fault.
unfoldable pub and_then :
    {W P A B : Type 0} → Option (A × Library W P) → (A → M W P B) → Option (B × Library W P)
and_then none f = none
and_then (some (a, s)) f = f a s

infixl 5 ◌>>=◌ ◌>>◌
abbrev pub ◌>>=◌ : {W P A B : Type 0} → M W P A → (A → M W P B) → M W P B
◌>>=◌ m f s = and_then (m s) f

abbrev pub ◌>>◌ : {W P A B : Type 0} → M W P A → M W P B → M W P B
m >> k = m >>= λ _. k

abbrev pub update {ℓ} : {A : Type ℓ} → (ℕ → A) → ℕ → A → ℕ → A
update f p a q = if q == p then a else f q

module _ {W P : Type 0} where
  abbrev pub modify : (Library W P → Library W P) → M W P (Unit {0})
  modify f s = some (tt, f s)

  -- `*hidif`, and the assignment of its fields.
  unfoldable pub load : ℕ → M W P (HidInterface P)
  load p s = elim (s.interfaces p) [ none ↦ none | some i ↦ some (i, s) ]

  abbrev pub store : ℕ → HidInterface P → M W P (Unit {0})
  store p i s = some (tt, record s { interfaces = update s.interfaces p (some i) })

  -- One call of libusb.
  abbrev pub usb : Env W P → UsbCall → M W P Reply
  usb env c s =
      let r = env.usb_call c s.world in
      some (r.reply, record s { world = r.after; calls = (c, r.reply) ∷ s.calls })

  pub load-some :
      (p : ℕ) (s : Library W P) {i : HidInterface P}
      → s.interfaces p ≡ some i
      → load p s ≡ some (i, s)
  unfolding load
  load-some p s h = rw (h, load)
