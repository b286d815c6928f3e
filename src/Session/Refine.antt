-- ===== src/Session/Refine.antt =====
-- The calls of the library (src/hid_opening.c and the others) keep the promises of Spec.
use libhid.Base.{
  ◌⊎◌, subst, false, ℕ, ◌≡◌, ◌≢◌, refl, sym, ap, ◌∙◌, Option, none, some, inl, inr, not, Bool-cases,
  ◌==◌, ==_iff, ltb, ltb→lt, length, length-take, arith, if◌then◌else◌,
}
use libhid.Types.{
  HidReturn, success, not_initialised, device_already_opened, HidInterface, HidInterfaceMatcher,
}
use libhid.State.{Env, Library, M, and_then}
use libhid.State.Returns.{Returns, returns, result, taken}
use libhid.OpenList.{OpenDeviceList, max_open_devices, add_open_device}
use libhid.OpenList.Refine.{contents, IsValid, add_refines, add_full, remove_refines}
use libhid.Interface.Laws.{eq_false}
use libhid.Opening.{check_open}
use libhid.Opening.Outcome.{
  IsClosed, IsOpened, Opened, reset-IsClosed, success_of_test, not_success,
}
use libhid.Opening.Kept.{Kept}
use libhid.Closing.Laws.{Closed}
use libhid.Finding.{is_success}
use libhid.Session.{IsConsistent}
use libhid.Session.Laws.{absent}
use libhid.Session.Spec.{
  Status, View, admit, Same, Rests, Move, opens, fails_open, finds_open, finds_unready, closes,
  finds_shut, to_open, to_close,
}

abbrev pub status_of : {P : Type 0} → Option (HidInterface P) → Status
status_of none = Status.absent
status_of (some i) = if i.dev_handle == 0 then Status.shut else Status.opened

-- The library as its user sees it.
abbrev pub view : {W P : Type 0} → Library W P → View
view s = record {
  ready = s.initialised;
  status = λ q. status_of (s.interfaces q);
  listed = contents s.open_list;
}

module _ {P : Type 0} {o : Option (HidInterface P)} {i : HidInterface P} (object : o ≡ some i) where
  pub status_shut : IsClosed i → status_of o ≡ Status.shut
  status_shut closed = rw (object, closed.no_handle) refl

  status_opened : IsOpened i → status_of o ≡ Status.opened
  status_opened opened = rw (object, eq_false i.dev_handle 0 opened.handle) refl

  status_there : status_of o ≢ Status.absent
  status_there h = elim (Bool-cases (i.dev_handle == 0)) [
    | inl shut ↦ shut_absent (sym (rw (object, shut) refl) ∙ h)
    | inr open_now ↦ opened_absent (sym (rw (object, open_now) refl) ∙ h)
  ]
    where
      shut_absent : Status.shut ≢ Status.absent
      shut_absent z = cc

      opened_absent : Status.opened ≢ Status.absent
      opened_absent z = cc

-- The list has as many entries as it says.
length-contents : (l : OpenDeviceList) → IsValid l → length (contents l) ≡ l.n_devices
length-contents l v = omega (arith, length-take l.n_devices l.slots)

admitted :
    (l : OpenDeviceList) (p : ℕ)
    → IsValid l
    → contents (add_open_device l p).list ≡ admit p (contents l)
admitted l p v =
    let size = length-contents l v in
    elim (Bool-cases (ltb l.n_devices max_open_devices)) [
      | inl room ↦
          let (_, appended, _) = add_refines l p v (ltb→lt _ _ room) in rw (size, room) appended
      | inr full ↦ rw (size, full) (ap contents (add_full l p full))
    ]

module _ {W P : Type 0} (s t : Library W P) where
  pub still :
      t.interfaces ≡ s.interfaces
      → t.open_list ≡ s.open_list
      → t.initialised ≡ s.initialised
      → Rests (view s) (view t)
  still heap list ready = (λ q. ap (λ f. status_of (f q)) heap, ap contents list, ready)

  pub others_status :
      {p : ℕ}
      → ((q : ℕ) → q ≢ p → t.interfaces q ≡ s.interfaces q)
      → (q : ℕ) → q ≢ p
      → status_of (t.interfaces q) ≡ status_of (s.interfaces q)
  others_status others q h = ap status_of (others q h)

  -- An interface whose status is what it was.
  unchanged :
      (p : ℕ)
      → status_of (t.interfaces p) ≡ status_of (s.interfaces p)
      → ((q : ℕ) → q ≢ p → t.interfaces q ≡ s.interfaces q)
      → Same (view s) (view t)
  unchanged p here others q = elim (Bool-cases (q == p)) [
    | inl same ↦
        let e : q ≡ p = (==_iff q p).0 same in
        ap (λ x. status_of (t.interfaces x)) e ∙ here ∙ sym (ap (λ x. status_of (s.interfaces x)) e)
    | inr other ↦ others_status others q (λ z. cc ((==_iff q p).1 z))
  ]

module _ {W P : Type 0} {s t : Library W P} (c : IsConsistent s) {p : ℕ} {i : HidInterface P}
    (object : s.interfaces p ≡ some i) where
  pub Opened-Move :
      {r : HidReturn}
      → IsClosed i
      → (s.initialised ≡ false → r ≡ not_initialised)
      → Opened p i s r t
      → Move (view s) (view t) (to_open p r)
  Opened-Move {r = r} closed off k = elim (Bool-cases s.initialised) [
    | inr unready ↦ let refused = off unready in finds_unready unready refused (no_change λ h. cc)
    | inl on ↦ elim (Bool-cases (is_success r)) [
      | inl good ↦
          let succeeded = success_of_test r good in
          let (opened, list) = k.done succeeded in
          opens on (status_shut object closed) succeeded
            (status_opened k.object opened, others_status s t k.others)
            (ap contents list ∙ admitted s.open_list p c.valid) k.ready
      | inr bad ↦
          let failed = not_success r bad in
          fails_open on (status_shut object closed) failed (no_change failed)
    ]
  ]
    where
      no_change : r ≢ success → Rests (view s) (view t)
      no_change failed =
          let (still_closed, list) = k.undone failed in
          (
            unchanged s t p (status_shut k.object still_closed ∙ sym (status_shut object closed))
                k.others,
            ap contents list,
            k.ready,
          )

  pub Closed-Move :
      {r : HidReturn}
      → IsClosed i ⊎ IsOpened i
      → Closed p i s r t
      → Move (view s) (view t) (to_close p r)
  Closed-Move (inl closed) k =
      let was = status_shut object closed in
      finds_shut was (k.unopened closed.no_handle).0 (
        unchanged s t p (status_shut k.object reset-IsClosed ∙ sym was) k.others,
        ap contents (k.list ∙ absent c object closed),
        k.ready,
      )
  Closed-Move (inr opened) k =
      closes (status_opened object opened)
        (status_shut k.object reset-IsClosed, others_status s t k.others)
        (ap contents k.list ∙ (remove_refines s.open_list p c.valid).0) k.ready

  pub Kept-Rests : IsOpened i → Kept p s t → Rests (view s) (view t)
  Kept-Rests opened k = (
    unchanged s t p (status_opened k.object k.opened ∙ sym (status_opened object opened)) k.others,
    ap contents k.list,
    k.ready,
  )

module _ {W P : Type 0} (env : Env W P) (p : ℕ) (s : Library W P) where
  -- A library that is not initialised opens nothing.
  pub check_open_unready :
      (matcher : Option (HidInterfaceMatcher W)) (go : HidInterfaceMatcher W → M W P HidReturn)
      {r : HidReturn} {t : Library W P}
      → check_open env p matcher go s ≡ some (r, t)
      → s.initialised ≡ false
      → r ≡ not_initialised
  unfolding and_then check_open
  check_open_unready matcher go e off =
      let refused : Returns (λ r' _. r' ≡ not_initialised) (check_open env p matcher go s) =
        taken _ _ s (ap not off) (returns refl) in
      result refused e

module _ {W P : Type 0} {s t : Library W P} {p : ℕ} {i : HidInterface P} {r : HidReturn}
    (object : s.interfaces p ≡ some i) (opened : IsOpened i) (same : t ≡ s) where
  -- Nor does an open interface.
  pub refused-Move :
      r ≡ (if s.initialised then device_already_opened else not_initialised)
      → Move (view s) (view t) (to_open p r)
  refused-Move said =
      subst (λ u. Move (view s) (view u) (to_open p r)) (sym same)
        (elim (Bool-cases s.initialised) [
          | inl on ↦
              finds_open on (status_opened object opened)
                (said ∙ ap (λ b. if b then device_already_opened else not_initialised) on)
                (still s s refl refl refl)
          | inr off ↦
              finds_unready off
                (said ∙ ap (λ b. if b then device_already_opened else not_initialised) off)
                (still s s refl refl refl)
        ])
