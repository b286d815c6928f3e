-- ===== src/Finding/Handles.antt =====
-- The handles that the search of src/hid_opening.c opens and closes: it closes only those that it opened.
use libhid.Base.{
  ℕ, ◌+◌, ◌≤◌, ◌≡◌, ◌≢◌, refl, ap, Bool, true, false, Option, none, some, List, [], ◌∷◌, inl, inr,
  arith, Bytes, ℤ, Bool-cases, ◌==◌, ◌&&◌, eq_ℤ,
}
use libhid.Types.{HidReturn, open_device, Device, Bus, HidInterface, HidInterfaceMatcher}
use libhid.State.{Env, Library, and_then}
use libhid.State.Handles.{Gains, Gains-trans, openings, closings}
use libhid.State.Safe.{Safe, gives, weaken, run_bind, run_if, run_load}
use libhid.Matching.Verdict.{hid_compare_usb_device_lem}
use libhid.Finding.{
  same_device, is_success, any_matched, or_next, or_return, hid_previously_matched, settle,
  match_unseen, consider, inspect, scan_devices, scan_busses, hid_find_usb_device,
  hid_get_usb_handle,
}

-- One handle, if the result is success.
abbrev pub one_if : Bool → ℕ
one_if true = 1
one_if false = 0

-- A round's result: `none` goes on.
abbrev won : Option HidReturn → ℕ
won none = 0
won (some r) = one_if (is_success r)

module _ {W P : Type 0} where
  any_matched_silent :
      (dev : Device) (interface : ℤ) (ps : List ℕ) (s : Library W P)
      → Safe (λ _ t. t.calls ≡ s.calls) (any_matched dev interface ps s)
  unfolding and_then any_matched
  any_matched_silent dev interface [] s = gives refl
  any_matched_silent dev interface (p ∷ ps) s = run_load _ p s λ i there.
      run_if (eq_ℤ interface i.interface && same_device dev i.device) _ _ s (gives refl)
        (any_matched_silent dev interface ps s)

-- Of a handle that is open, what is done with it leaves at most that one.
module _ {W P : Type 0} (env : Env W P) (p : ℕ) (matcher : HidInterfaceMatcher W) (dev_h : ℕ) where
  abbrev Leaves : Library W P → Option HidReturn → Library W P → Type 0
  Leaves s r t =
      openings s.calls + closings t.calls + won r ≤ openings t.calls + closings s.calls + 1

  settle-Leaves :
      (b : Bool) (s : Library W P) (i : HidInterface P) → Safe (Leaves s) (settle env b p i dev_h s)
  unfolding and_then settle is_success
  settle-Leaves true s i = gives (omega arith)
  settle-Leaves false s i = gives (omega arith)

  match_unseen-Leaves :
      (b : Bool) (s : Library W P) (i : HidInterface P)
      → Safe (Leaves s) (match_unseen env b p i matcher dev_h s)
  unfolding and_then match_unseen
  match_unseen-Leaves true s i = gives (omega arith)
  match_unseen-Leaves false s i =
      rw (hid_compare_usb_device_lem env dev_h matcher s) (settle-Leaves _ _ i)

  consider-Leaves : (s : Library W P) → Safe (Leaves s) (consider env p matcher dev_h s)
  unfolding and_then consider hid_previously_matched
  consider-Leaves s = run_load _ p s λ i there.
      run_bind (any_matched_silent _ _ _ _) λ seen t silent.
        weaken (match_unseen-Leaves seen t i)
          λ r u k. omega (arith, k, ap openings silent, ap closings silent)

module _ {W P : Type 0} (env : Env W P) (p : ℕ) (matcher : HidInterfaceMatcher W) where
  inspect-Gains :
      (dirname : Bytes) (dev : Device) (s : Library W P)
      → Safe (λ r t. Gains (won r) s t) (inspect env p matcher dirname dev s)
  unfolding and_then inspect is_success
  inspect-Gains dirname dev s = run_load _ p s λ i there.
      let r = env.usb_call (open_device dev) s.world in
      elim (Bool-cases (r.reply.handle == 0)) [
        | inl refused ↦ rw refused (gives (omega arith))
        | inr granted ↦
            rw granted
              (weaken (consider-Leaves env p matcher r.reply.handle _) λ x u k. omega (arith, k))
      ]

  scan_devices-Gains :
      (dirname : Bytes) (ds : List Device) (s : Library W P)
      → Safe (λ r t. Gains (won r) s t) (scan_devices env p matcher dirname ds s)
  unfolding and_then scan_devices or_next
  scan_devices-Gains dirname [] s = gives (omega arith)
  scan_devices-Gains dirname (d ∷ ds) s =
      run_bind (inspect-Gains dirname d s) λ r t k. go r t k (scan_devices-Gains dirname ds t)
    where
      go :
          (r : Option HidReturn) (t : Library W P)
          → Gains (won r) s t
          → Safe (λ r' u. Gains (won r') t u) (scan_devices env p matcher dirname ds t)
          → Safe (λ r' u. Gains (won r') s u) (or_next r (scan_devices env p matcher dirname ds) t)
      go none t k rest = weaken rest λ r' u l. Gains-trans s t u (won r') k l
      go (some ret) t k rest = gives k

  scan_busses-Gains :
      (bs : List Bus) (s : Library W P)
      → Safe (λ r t. Gains (won (some r)) s t) (scan_busses env p matcher bs s)
  unfolding and_then scan_busses is_success or_return
  scan_busses-Gains [] s = gives (omega arith)
  scan_busses-Gains (b ∷ bs) s =
      run_bind (scan_devices-Gains b.dirname b.devices s) λ r t k. go r t k (scan_busses-Gains bs t)
    where
      go :
          (r : Option HidReturn) (t : Library W P)
          → Gains (won r) s t
          → Safe (λ r' u. Gains (won (some r')) t u) (scan_busses env p matcher bs t)
          → Safe (λ r' u. Gains (won (some r')) s u) (or_return r (scan_busses env p matcher bs) t)
      go none t k rest = weaken rest λ r' u l. Gains-trans s t u (won (some r')) k l
      go (some ret) t k rest = gives k

  -- With success one handle more is open, and otherwise not fewer.
  pub hid_get_usb_handle-Gains :
      (s : Library W P)
      → Safe
          (λ r t. (is_success r ≡ true → Gains 1 s t) × Gains 0 s t)
          (hid_get_usb_handle env p matcher s)
  unfolding and_then hid_get_usb_handle hid_find_usb_device is_success
  hid_get_usb_handle-Gains s = run_bind (scan_busses-Gains (env.usb_get_busses s.world) s) λ r t k.
      elim (Bool-cases (is_success r)) [
        | inl found ↦
            let one : one_if (is_success r) ≡ 1 = ap one_if found in
            rw found (gives (λ _. omega (arith, k, one), omega (arith, k)))
        | inr failed ↦
            rw failed
              (run_load _ p t λ i there. gives (λ h. absurd (is_not r failed h), omega (arith, k)))
      ]
    where
      is_not : (r : HidReturn) → is_success r ≡ false → is_success r ≢ true
      is_not r bad good = cc
