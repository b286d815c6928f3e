-- ===== src/Session/Choice.antt =====
-- Which device `hid_open` and `hid_force_open` of src/hid_opening.c end up with: the search's choice
-- goes through the claim and the preparation.
use libhid.Base.{
  ℕ, ◌≡◌, ◌≢◌, refl, sym, ap, ◌∙◌, Bool, true, not, Option, none, some, ℤ, subst, suc, fun_ext,
  ◌&&◌, Bytes, if◌then◌else◌,
}
use libhid.Types.{HidReturn, success, device_not_found, Device, HidInterface, HidInterfaceMatcher}
use libhid.State.{Env, Library, M, and_then, update, load-some}
use libhid.State.Handles.{Held, Held-Quiet, Held-Dropped}
use libhid.State.Returns.{Returns, returns, both, bind, mono, known_then, taken, skipped}
use libhid.State.Effect.{Effect-store, update_self, update_ne}
use libhid.OpenList.{remove_open_device}
use libhid.OpenList.Refine.{contents}
use libhid.Interface.Laws.{same_object, eq_false, hid_is_opened_closed}
use libhid.Finding.{is_success, format_id}
use libhid.Finding.Listed.{IsLive, IsLive-Effect, occupied_unlisted}
use libhid.Finding.Laws.{Acquired, hid_get_usb_handle-Acquired}
use libhid.Session.{IsConsistent}
use libhid.Session.Laws.{consistent-IsLive, unlisted, absent}
use libhid.Matching.{id_matches, vendor_matches}
use libhid.Finding.First.{skipped_before, Opens, Decides, candidates, first, wanted, in_use}
use libhid.Finding.Search.{Taken, hid_get_usb_handle-Taken}
use libhid.ForceClaim.{Platform}
use libhid.Opening.{with_matcher, check_open, acquire, hid_open, hid_force_open}
use libhid.Opening.Outcome.{IsClosed, IsOpened}
use libhid.Session.Finished.{Finished, claim_and_finish-Finished, force_claim_and_finish-Finished}

-- The interface is open on this device, has its text and the number that was asked for, and of the
-- handles that were opened there remain one for each of `n` devices and the interface's.
abbrev pub IsOpenOn :
    {W P : Type 0} → ℕ → ℤ → Library W P → ℕ → Bytes → Device → Library W P → Type 0
IsOpenOn {P = P} p interface s n dirname d t =
    ((now : HidInterface P) × (t.interfaces p ≡ some now)
      × IsOpened now
      × (now.device ≡ some d)
      × (now.id ≡ format_id dirname d.filename interface)
      × (now.interface ≡ interface))
    × Held (suc n) s t

-- What an attempt to open has come to, by the device that the search should take and the number `n` of
-- devices in use that come before it: a handle stays open for each of these, and one more with success.
abbrev pub Chosen :
    {W P : Type 0}
    → ℕ
    → ℤ
    → Library W P
    → ℕ
    → Option (Bytes × Device)
    → HidReturn
    → Library W P
    → Type 0
Chosen {P = P} p interface s n none r t =
    (r ≡ device_not_found)
    × ((now : HidInterface P) × (t.interfaces p ≡ some now)
        × (now.dev_handle ≡ 0)
        × (now.device ≡ none))
    × Held n s t
Chosen {P = P} p interface s n (some (dirname, d)) r t =
    (r ≢ device_not_found)
    × (r ≡ success → IsOpenOn p interface s n dirname d t)
    × (r ≢ success → Held n s t)

-- What is known of the result, if a device was found.
abbrev pub Answered : (HidReturn → Type 0) → Option (Bytes × Device) → HidReturn → Type 0
Answered Q none r = Unit {0}
Answered Q (some _) r = Q r

module _ {W P : Type 0} (env : Env W P) (opens : Opens env) (p : ℕ) (s : Library W P)
    {i : HidInterface P} (there : p ≢ 0) (object : s.interfaces p ≡ some i) (c : IsConsistent s)
    (closed : IsClosed i) (ready : s.initialised ≡ true) (interface : ℤ) (m : HidInterfaceMatcher W)
    (accepts : Device → Bool) (decides : Decides env m accepts) where
  -- The interface as the search begins, and the devices that it may take.
  abbrev numbered : HidInterface P
  numbered = record i { interface = interface }

  abbrev target : Option (Bytes × Device)
  target = first (wanted s numbered m accepts) (candidates (env.usb_get_busses s.world))

  abbrev passed : ℕ
  passed =
      skipped_before (wanted s numbered m accepts) (in_use s numbered)
        (candidates (env.usb_get_busses s.world))

  abbrev begun : Library W P
  begun = record s { interfaces = update s.interfaces p (some numbered) }

  same_busy : in_use begun numbered ≡ in_use s numbered
  same_busy = fun_ext λ d.
      occupied_unlisted p s.interfaces begun.interfaces (update_ne s.interfaces p (some numbered)) d
        interface (contents s.open_list) (unlisted c object closed)

  -- Entering the number into the interface changes nothing of what the search looks for.
  same_search :
      (r : HidReturn) (u : Library W P)
      → Taken env p numbered begun
          (skipped_before
            (wanted begun numbered m accepts)
            (in_use begun numbered)
            (candidates (env.usb_get_busses s.world)))
          (first (wanted begun numbered m accepts) (candidates (env.usb_get_busses s.world)))
          r
          u
      → Taken env p numbered begun passed target r u
  same_search r u =
      subst
        (λ (b : Device → Bool).
          let test : Device → Bool = λ d.
            not (b d)
            && (vendor_matches d m && id_matches d.id_product m.product_id && accepts d) in
          Taken env p numbered begun
            (skipped_before test b (candidates (env.usb_get_busses s.world)))
            (first test (candidates (env.usb_get_busses s.world))) r u)
        same_busy

  -- What the rest of both functions does with an interface that the search has given a handle.
  abbrev Finishes : (HidReturn → Type 0) → M W P HidReturn → Type 0
  Finishes Q go =
      (t : Library W P) (j : HidInterface P)
      → t.interfaces p ≡ some j
      → remove_open_device t.open_list p ≡ t.open_list
      → j.dev_handle ≢ 0
      → j.hid_data ≡ none
      → j.hid_parser ≡ none
      → Returns (λ r u. Finished p j t r u × Q r) (go t)

  settled :
      (Q : HidReturn → Type 0) (go : M W P HidReturn)
      → Finishes Q go
      → (n : ℕ) (x : Option (Bytes × Device)) (r : HidReturn) (u : Library W P)
      → Acquired p numbered begun r u
      → Taken env p numbered begun n x r u
      → Returns
          (λ r' t. Chosen p interface s n x r' t × Answered Q x r')
          ((if is_success r then go else (λ t. some (r, t))) u)
  unfolding is_success
  settled Q go next n none r u k (e, (now, at, no_handle, no_device), held) =
      rw (e, is_success) (returns ((refl, (now, at, no_handle, no_device), held), tt))
  settled Q go next n (some (dirname, d)) r u k (e, picked) =
      let gone =
        ap (λ l. remove_open_device l p) k.effect.list
        ∙ absent c object closed
        ∙ sym k.effect.list in
      let same = same_object k.now picked.now (sym k.effect.object ∙ picked.object) in
      rw (e, is_success)
        (mono
          (next u k.now k.effect.object gone (k.gained (ap is_success e))
            (k.data_kept ∙ closed.no_data) (k.parser_kept ∙ closed.no_parser))
          λ r' t (f, q). (
            (
              f.other,
              λ h.
                  let (now, at, opened, who) = f.done h in
                  (
                    (
                      now,
                      at,
                      opened,
                      ap (λ x. x.device) who ∙ ap (λ j. j.device) same ∙ picked.device,
                      ap (λ x. x.id) who ∙ ap (λ j. j.id) same ∙ picked.id,
                      ap (λ x. x.number) who ∙ k.number_kept,
                    ),
                    Held-Quiet begun u t (suc n) picked.held (f.quiet h),
                  ),
              λ h. Held-Dropped begun u t n picked.held (f.shut h),
            ),
            q,
          ))

  pub choose :
      (Q : HidReturn → Type 0) (go : HidInterfaceMatcher W → M W P HidReturn)
      → Finishes Q (go m)
      → Returns
          (λ r t. Chosen p interface s passed target r t × Answered Q target r)
          (check_open env p
            (some m)
            (λ m'. λ t.
              and_then
                (acquire env p interface m' t)
                (λ r. if is_success r then go m' else (λ v. some (r, v))))
            s)
  unfolding and_then check_open with_matcher acquire
  choose Q go next = skipped _ _ s (ap not ready) (
      skipped _ _ s (eq_false p 0 there) (
        known_then _ (hid_is_opened_closed p s there object closed.no_handle) (
          rw (load-some p s object) (
            bind
              (both (hid_get_usb_handle-Acquired env p m begun (update_self s.interfaces p _) live)
                (hid_get_usb_handle-Taken env opens p m accepts decides numbered begun
                  (update_self s.interfaces p _) live))
              λ r u (k, taken).
                settled Q (go m) next passed target r u k (same_search r u taken)))))
    where
      live : IsLive begun
      live = IsLive-Effect (Effect-store {s = s} object numbered refl) (consistent-IsLive c)

  -- In an initialised and consistent library, where libusb opens every device and the matcher's custom
  -- test, if there is one, looks at the device alone, `hid_open` and `hid_force_open` of a closed
  -- interface return, the latter on each platform and for any number of retries. The result is
  -- HID_RET_DEVICE_NOT_FOUND exactly if no device is wanted, that is, accepted by the matcher and not in
  -- use through this interface number; then the interface has no handle and no device. With success the
  -- interface is open on the first wanted device, in the order of the busses and of the devices on
  -- each, and has its text and the number that was asked for. Of the handles that the call opened there
  -- remain open one for each device in use that came before and, with success, the interface's.
  pub opening-Chosen :
      (platform : Platform) (retries : ℕ)
      → Returns (Chosen p interface s passed target) (hid_open env p interface (some m) s)
        × Returns
            (Chosen p interface s passed target)
            (hid_force_open env platform p interface (some m) retries s)
  unfolding hid_open hid_force_open
  opening-Chosen platform retries = (
    mono
        (choose (λ _. Unit {0}) _
          λ t j at gone opened no_data no_parser.
            mono
              (claim_and_finish-Finished env p t there at gone opened no_data no_parser interface)
              λ _ _ f. (f, tt))
        λ _ _ (k, _). k,
    mono
        (choose (λ _. Unit {0}) _
          λ t j at gone opened no_data no_parser.
            mono
              (force_claim_and_finish-Finished env p t there at gone opened no_data no_parser
                platform interface m retries)
              λ _ _ f. (f, tt))
        λ _ _ (k, _). k,
  )
