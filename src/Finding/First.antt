-- ===== src/Finding/First.antt =====
-- Which device the search of src/hid_opening.c takes: the first that is wanted, in the order of the
-- busses and of the devices on each.
use libhid.Base.{
  ℕ, ◌+◌, ◌≡◌, ◌≢◌, Bool, not, ◌&&◌, Option, none, some, List, [], ◌∷◌, ◌++◌, map, Bytes, ℤ,
  if◌then◌else◌,
}
use libhid.Types.{Device, Bus, HidInterface, HidInterfaceMatcher, claim_interface, open_device}
use libhid.State.{Env, Library}
use libhid.State.Handles.{openings, closings}
use libhid.OpenList.Refine.{contents}
use libhid.Matching.{ask, id_matches, vendor_matches}
use libhid.Finding.{format_id}
use libhid.Finding.Listed.{occupied}

-- What libusb does where every device can be opened: a handle's device is the one that it was opened
-- for, and a claim does not change it.
pub record Opens {W P : Type 0} (env : Env W P) : Type 0 where
  pub granted : (d : Device) (w : W) → (env.usb_call (open_device d) w).reply.handle ≢ 0
  pub opened :
      (d : Device) (w : W)
      → let r = env.usb_call (open_device d) w in env.usb_device r.after r.reply.handle ≡ d
  pub claimed :
      (h : ℕ) (n : ℤ) (w : W)
      → env.usb_device (env.usb_call (claim_interface h n) w).after h ≡ env.usb_device w h

-- The custom test, where there is one, looks at the device alone.
abbrev pub Decides : {W P : Type 0} → Env W P → HidInterfaceMatcher W → (Device → Bool) → Type 0
Decides {W = W} env matcher accepts =
    (h : ℕ) (w : W) → ask matcher h w ≡ record { verdict = accepts (env.usb_device w h); after = w }

-- The devices with their busses' names, in order.
abbrev pub on_bus : Bytes → List Device → List (Bytes × Device)
on_bus dirname ds = map (λ d. (dirname, d)) ds

abbrev pub candidates : List Bus → List (Bytes × Device)
candidates [] = []
candidates (b ∷ bs) = on_bus b.dirname b.devices ++ candidates bs

-- The first that passes a test.
abbrev pub first : (Device → Bool) → List (Bytes × Device) → Option (Bytes × Device)
first test [] = none
first test ((n, d) ∷ rest) = if test d then some (n, d) else first test rest

-- How many devices in use come before it.
unfoldable pub skipped_before : (Device → Bool) → (Device → Bool) → List (Bytes × Device) → ℕ
skipped_before test busy [] = 0
skipped_before test busy ((n, d) ∷ rest) =
    if test d then 0 else (if busy d then 1 else 0) + skipped_before test busy rest

-- The devices whose interface of that number is in use.
abbrev pub in_use : {W P : Type 0} → Library W P → HidInterface P → Device → Bool
in_use s i d = occupied s.interfaces d i.interface (contents s.open_list)

-- The devices that a search may take: not in use through this interface number, and accepted by the
-- matcher.
module _ {W P : Type 0} (s : Library W P) (i : HidInterface P) (matcher : HidInterfaceMatcher W)
    (accepts : Device → Bool) where
  abbrev pub wanted : Device → Bool
  wanted d =
      not (in_use s i d)
      && (vendor_matches d matcher && id_matches d.id_product matcher.product_id && accepts d)

module _ {W P : Type 0} (env : Env W P) (p : ℕ) (i : HidInterface P) (s : Library W P) where
  -- Devices have been passed over: so far only the interface's text has changed, and `n` of
  -- the handles that were opened are open still.
  pub record Passed (n : ℕ) (t : Library W P) : Type 0 where
    pub now : HidInterface P
    pub object : t.interfaces p ≡ some now
    pub others : (q : ℕ) → q ≢ p → t.interfaces q ≡ s.interfaces q
    pub list : t.open_list ≡ s.open_list
    pub number : now.interface ≡ i.interface
    pub device : now.device ≡ i.device
    pub held : openings t.calls + closings s.calls ≡ openings s.calls + closings t.calls + n

  -- A device has been taken: the interface has it, its text, and the handle that was opened for it;
  -- `n` of the handles that were opened are open.
  pub record Picked (n : ℕ) (dirname : Bytes) (d : Device) (t : Library W P) : Type 0 where
    pub now : HidInterface P
    pub object : t.interfaces p ≡ some now
    pub device : now.device ≡ some d
    pub id : now.id ≡ format_id dirname d.filename i.interface
    pub handle : now.dev_handle ≢ 0
    pub opened : env.usb_device t.world now.dev_handle ≡ d
    pub held : openings t.calls + closings s.calls ≡ openings s.calls + closings t.calls + n
