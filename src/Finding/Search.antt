-- ===== src/Finding/Search.antt =====
-- The loops of `hid_find_usb_device` and `hid_get_usb_handle` in src/hid_opening.c: the device that
-- they take.
use libhid.Base.{
  ℕ, suc, ◌+◌, arith, ◌≡◌, refl, sym, Bool, Option, none, some, List, [], ◌∷◌, ◌++◌, inl, inr,
  Bytes, Bool-cases, if◌then◌else◌,
}
use libhid.Types.{
  HidReturn, success, device_not_found, Device, Bus, HidInterface, HidInterfaceMatcher,
}
use libhid.State.{Env, Library, and_then, pure, load, store, ◌>>=◌, ◌>>◌}
use libhid.State.Returns.{Returns, returns, bind, load_then}
use libhid.State.Effect.{update_self}
use libhid.State.Handles.{openings, closings}
use libhid.Finding.{
  or_next, or_return, is_success, scan_devices, scan_busses, hid_find_usb_device,
  hid_get_usb_handle,
}
use libhid.Finding.Listed.{IsLive}
use libhid.Finding.Round.{round}
use libhid.Finding.First.{
  on_bus, in_use, skipped_before, Opens, Decides, candidates, first, wanted, Passed, Picked,
}

-- Going on where the first list has nothing.
first-append :
    (test : Device → Bool) (xs ys : List (Bytes × Device))
    → first test (xs ++ ys) ≡ (elim (first test xs) [ none ↦ first test ys | some x ↦ some x ])
first-append test [] ys = refl
first-append test ((n, d) ∷ xs) ys = elim (Bool-cases (test d)) [
  | inl good ↦ rw good
  | inr bad ↦ rw bad (first-append test xs ys)
]

skipped_before-append :
    (test busy : Device → Bool) (xs ys : List (Bytes × Device))
    → skipped_before test busy (xs ++ ys)
      ≡ skipped_before test busy xs
        + (elim (first test xs) [ none ↦ skipped_before test busy ys | some x ↦ 0 ])
unfolding skipped_before
skipped_before-append test busy [] ys = omega arith
skipped_before-append test busy ((n, d) ∷ xs) ys = elim (Bool-cases (test d)) [
  | inl good ↦ rw (good, skipped_before) refl
  | inr bad ↦
      let rest = skipped_before-append test busy xs ys in
      rw (bad, skipped_before) (omega (arith, rest))
]

plus_zero : (n : ℕ) → n + 0 ≡ n
plus_zero n = omega arith

zero_plus : (n : ℕ) → 0 + n ≡ n
zero_plus n = omega arith

plus_assoc : (n a b : ℕ) → n + (a + b) ≡ n + a + b
plus_assoc n a b = omega arith

module _ {W P : Type 0} (env : Env W P) (p : ℕ) (i : HidInterface P) (s : Library W P) where
  -- The loops' outcomes, by the number of handles left open for devices in use and by the device that
  -- the search should take.
  abbrev Sought : ℕ → Option (Bytes × Device) → Option HidReturn → Library W P → Type 0
  Sought n none r t = (r ≡ none) × Passed env p i s n t
  Sought n (some (b, d)) r t = (r ≡ some success) × Picked env p i s (suc n) b d t

  abbrev Ended : ℕ → Option (Bytes × Device) → HidReturn → Library W P → Type 0
  Ended n none r t = (r ≡ device_not_found) × Passed env p i s n t
  Ended n (some (b, d)) r t = (r ≡ success) × Picked env p i s (suc n) b d t

  -- What the search leaves, by the device that it should take.
  abbrev pub Taken : ℕ → Option (Bytes × Device) → HidReturn → Library W P → Type 0
  Taken n none r t =
      (r ≡ device_not_found)
      × ((now : HidInterface P) × (t.interfaces p ≡ some now)
          × (now.dev_handle ≡ 0)
          × (now.device ≡ none))
      × (openings t.calls + closings s.calls ≡ openings s.calls + closings t.calls + n)
  Taken n (some (b, d)) r t = (r ≡ success) × Picked env p i s (suc n) b d t

module _ {W P : Type 0} (env : Env W P) (opens : Opens env) (p : ℕ)
    (matcher : HidInterfaceMatcher W) (accepts : Device → Bool)
    (decides : Decides env matcher accepts) (i : HidInterface P) (s : Library W P)
    (was : s.interfaces p ≡ some i) (live : IsLive s) where
  abbrev test : Device → Bool
  test = wanted s i matcher accepts

  abbrev before : List (Bytes × Device) → ℕ
  before = skipped_before test (in_use s i)

  scan_devices-Sought :
      (n : ℕ) (dirname : Bytes) (ds : List Device) (t : Library W P)
      → Passed env p i s n t
      → Returns
          (Sought env p i s (n + before (on_bus dirname ds)) (first test (on_bus dirname ds)))
          (scan_devices env p matcher dirname ds t)
  unfolding and_then scan_devices or_next skipped_before
  scan_devices-Sought n dirname [] t k = rw (plus_zero n) (returns (refl, k))
  scan_devices-Sought n dirname (d ∷ ds) t k =
      bind (round env opens p matcher accepts decides i s was live n dirname d t k) λ r u outcome.
        elim outcome [
          | inl (good, e, picked) ↦ rw (good, e, or_next, plus_zero n) (returns (refl, picked))
          | inr (bad, e, passed) ↦
              rw
                (
                  bad,
                  e,
                  or_next,
                  plus_assoc n (if in_use s i d then 1 else 0) (before (on_bus dirname ds)),
                )
                (scan_devices-Sought (n + (if in_use s i d then 1 else 0)) dirname ds u passed)
        ]

  -- The end of a bus.
  onwards :
      (m k : ℕ) (here rest : Option (Bytes × Device)) (bs : List Bus) (r : Option HidReturn)
      (u : Library W P)
      → Sought env p i s m here r u
      → (Passed env p i s m u
          → Returns (Ended env p i s (m + k) rest) (scan_busses env p matcher bs u))
      → Returns
          (Ended env p i s
            (m + (elim here [ none ↦ k | some x ↦ 0 ]))
            (elim here [ none ↦ rest | some x ↦ some x ]))
          (or_return r (scan_busses env p matcher bs) u)
  unfolding or_return
  onwards m k none rest bs r u (e, passed) next = rw (e, or_return) (next passed)
  onwards m k (some (n, d)) rest bs r u (e, picked) next =
      rw (e, or_return, plus_zero m) (returns (refl, picked))

  scan_busses-Ended :
      (n : ℕ) (bs : List Bus) (t : Library W P)
      → Passed env p i s n t
      → Returns
          (Ended env p i s (n + before (candidates bs)) (first test (candidates bs)))
          (scan_busses env p matcher bs t)
  unfolding and_then scan_busses skipped_before
  scan_busses-Ended n [] t k = rw (plus_zero n) (returns (refl, k))
  scan_busses-Ended n (b ∷ bs) t k =
      let here = on_bus b.dirname b.devices in
      let split = skipped_before-append test (in_use s i) here (candidates bs) in
      bind (scan_devices-Sought n b.dirname b.devices t k) λ r u outcome.
        rw (first-append test here (candidates bs), split, plus_assoc n (before here) _)
          (onwards (n + before here) (before (candidates bs)) _ _ bs r u outcome
            (scan_busses-Ended (n + before here) bs u))

  -- Where no pointer on the list of open interfaces dangles, libusb opens every device, and the
  -- matcher's custom test, if there is one, looks at the device alone, `hid_get_usb_handle` of an
  -- existing interface takes the first device, in the order of the busses and of the devices on each,
  -- that the matcher accepts and whose interface of that number is not in use: the interface then has
  -- the device, a handle opened for it, and its text. If there is none the result is
  -- HID_RET_DEVICE_NOT_FOUND and the interface has neither a device nor a handle. Of the handles that
  -- it opened there remain open the one taken and one for each device in use that came before.
  pub hid_get_usb_handle-Taken :
      let devices = candidates (env.usb_get_busses s.world) in
      Returns
        (Taken env p i s
          (skipped_before (wanted s i matcher accepts) (in_use s i) devices)
          (first (wanted s i matcher accepts) devices))
        (hid_get_usb_handle env p matcher s)
  unfolding and_then hid_get_usb_handle hid_find_usb_device is_success
  hid_get_usb_handle-Taken =
      let start : Passed env p i s 0 s = record {
        now = i;
        object = was;
        others = λ q h. refl;
        list = refl;
        number = refl;
        device = refl;
        held = omega arith;
      } in
      let devices = candidates (env.usb_get_busses s.world) in
      rw (sym (zero_plus (before devices))) (
        bind (scan_busses-Ended 0 (env.usb_get_busses s.world) s start)
          λ r t outcome. finish _ _ r t outcome)
    where
      finish :
          (n : ℕ) (o : Option (Bytes × Device)) (r : HidReturn) (t : Library W P)
          → Ended env p i s n o r t
          → Returns (Taken env p i s n o) (
              (if is_success r
                  then pure success
                  else do i ← load p; store p (record i { dev_handle = 0; device = none }); pure r)
                t)
      finish n none r t (e, k) =
          rw (e, is_success)
            (load_then _ p t k.object
              (returns (refl, (_, update_self t.interfaces p _, refl, refl), k.held)))
      finish n (some (b, d)) r t (e, k) = rw (e, is_success) (returns (refl, k))
