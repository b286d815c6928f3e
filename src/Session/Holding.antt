-- ===== src/Session/Holding.antt =====
-- The device handles over a whole use of the library (src/hid_opening.c and the others).
use libhid.Base.{
  ℕ, ◌+◌, ◌≤◌, ◌≡◌, ◌≢◌, refl, sym, ap, subst, Option, none, some, inl, inr, ℤ, Option-cases,
  Bool-cases, List, [], ◌∷◌, arith, ◌==◌, if◌then◌else◌,
}
use libhid.Types.{HidReturn, HidInterface, HidInterfaceMatcher}
use libhid.State.{Env, Library, and_then}
use libhid.State.Handles.{openings, closings}
use libhid.State.Returns.{Returns, returns, both, mono, result, load_then, skipped}
use libhid.State.Safe.{run_result}
use libhid.State.Effect.{update_self, update_ne}
use libhid.OpenList.Members.{mem, IsDistinct}
use libhid.Interface.{reset, hid_new_interface, hid_delete_interface}
use libhid.Interface.Laws.{eq_false}
use libhid.Finding.{is_success}
use libhid.Opening.{hid_open, hid_force_open}
use libhid.Opening.Outcome.{IsClosed, Opened, success_of_test, not_success}
use libhid.Opening.Laws.{hid_open-Opened, hid_force_open-Opened}
use libhid.Closing.{hid_close}
use libhid.Closing.Laws.{hid_close-Closed}
use libhid.ForceClaim.{Platform}
use libhid.Initialisation.Laws.{hid_init-Started, hid_cleanup-Returns}
use libhid.Session.{
  IsConsistent, Step, Steps, opening, forcing, closing, creating, deleting, stay, next, using,
  initialising, cleaning,
}
use libhid.Session.Laws.{consistent-IsLive, absent}
use libhid.Session.Calls.{Call, run_call, run_call-Keeps, run_call_closed}
use libhid.Session.Invariant.{check_open_opened, Steps-IsConsistent}
use libhid.Session.Blocks.{total, total_absent, total_present}
use libhid.Session.Handles.{Grown, open-Grown, force_open-Grown}

-- The handle that an object has, if any.
abbrev pub handles : {P : Type 0} → Option (HidInterface P) → ℕ
handles none = 0
handles (some i) = if i.dev_handle == 0 then 0 else 1

-- The interfaces have no more handles, taken together, than were asked for and are not closed. With no
-- address it says that no more handles were closed than asked for.
pub record HasHandles {W P : Type 0} (s : Library W P) : Type 0 where
  pub bound :
      (ps : List ℕ)
      → IsDistinct ps
      → closings s.calls + total handles s.interfaces ps ≤ openings s.calls

-- Where there are no interfaces.
pub start-HasHandles :
    {W P : Type 0} {s : Library W P}
    → ((q : ℕ) → s.interfaces q ≡ none)
    → closings s.calls ≤ openings s.calls
    → HasHandles s
start-HasHandles {s = s} empty fewer = record {
  bound = λ ps d. omega (arith, fewer, nothing_held ps);
}
  where
    nothing_held : (ps : List ℕ) → total handles s.interfaces ps ≡ 0
    nothing_held [] = refl
    nothing_held (q ∷ ps) = omega (arith, ap handles (empty q), nothing_held ps)

module _ {P : Type 0} {o : Option (HidInterface P)} {i : HidInterface P} (object : o ≡ some i) where
  closed_handle : i.dev_handle ≡ 0 → handles o ≡ 0
  closed_handle closed = rw (object, closed) refl

  open_handle : i.dev_handle ≢ 0 → handles o ≡ 1
  open_handle opened = rw (object, eq_false i.dev_handle 0 opened) refl

module _ {W P : Type 0} {s : Library W P} (t : Library W P) (h : HasHandles s) (p : ℕ)
    (others : (q : ℕ) → q ≢ p → t.interfaces q ≡ s.interfaces q)
    (account : openings s.calls + closings t.calls + handles (t.interfaces p)
      ≤ openings t.calls + closings s.calls + handles (s.interfaces p)) where
  -- One interface has changed, and it accounts for the calls.
  change-HasHandles : HasHandles t
  change-HasHandles = record {
    bound = λ ps d. elim (Bool-cases (mem p ps)) [
      | inl known ↦
          let moved = total_present handles s.interfaces t.interfaces p others ps d known in
          omega (arith, moved, h.bound ps d, account)
      | inr fresh ↦
          let still = total_absent handles s.interfaces t.interfaces p others ps fresh in
          omega (arith, still, h.bound (p ∷ ps) (fresh, d), account)
    ];
  }

-- The interfaces are the same, and as many handles were closed as opened.
same-HasHandles :
    {W P : Type 0} {s t : Library W P}
    → t.interfaces ≡ s.interfaces
    → openings t.calls + closings s.calls ≡ openings s.calls + closings t.calls
    → HasHandles s
    → HasHandles t
same-HasHandles heap quiet h = record {
  bound = λ ps d. omega (arith, h.bound ps d, quiet, ap (λ f. total handles f ps) heap);
}

module _ {W P : Type 0} {s t : Library W P} {p : ℕ} {i : HidInterface P} {r : HidReturn}
    (object : s.interfaces p ≡ some i) (closed : IsClosed i) (h : HasHandles s) where
  attempt-HasHandles : Opened p i s r t → Grown s r t → HasHandles t
  attempt-HasHandles k (one, none_less) =
      let before = closed_handle object closed.no_handle in
      elim (Bool-cases (is_success r)) [
        | inl good ↦
            let won = success_of_test r good in
            let after = open_handle k.object (k.done won).0.handle in
            change-HasHandles t h p k.others (omega (arith, before, after, one won))
        | inr bad ↦
            let after = closed_handle k.object (k.undone (not_success r bad)).0.no_handle in
            change-HasHandles t h p k.others (omega (arith, before, after, none_less))
      ]

module _ {W P : Type 0} (env : Env W P) (p : ℕ) (s : Library W P) {i : HidInterface P}
    (there : p ≢ 0) (object : s.interfaces p ≡ some i) (c : IsConsistent s) (h : HasHandles s) where
  open-HasHandles :
      (interface : ℤ) (matcher : Option (HidInterfaceMatcher W))
      → Returns (λ _ t. HasHandles t) (hid_open env p interface matcher s)
  unfolding hid_open
  open-HasHandles interface matcher = elim (c.states p i object) [
    | inl closed ↦
        mono
          (both
            (hid_open-Opened env p s there object closed (consistent-IsLive c)
              (absent c object closed) interface matcher)
            (open-Grown env p s there object c closed interface matcher))
          λ _ _ (k, g). attempt-HasHandles object closed h k g
    | inr opened ↦
        mono (check_open_opened env p s there object matcher _ opened)
          λ _ _ k. subst HasHandles (sym k.0) h
  ]

  force-HasHandles :
      (platform : Platform) (interface : ℤ) (matcher : Option (HidInterfaceMatcher W)) (retries : ℕ)
      → Returns (λ _ t. HasHandles t) (hid_force_open env platform p interface matcher retries s)
  unfolding hid_force_open
  force-HasHandles platform interface matcher retries = elim (c.states p i object) [
    | inl closed ↦
        mono
          (both
            (hid_force_open-Opened env p s there object closed (consistent-IsLive c)
              (absent c object closed) platform interface matcher retries)
            (force_open-Grown env p s there object c closed interface platform matcher retries))
          λ _ _ (k, g). attempt-HasHandles object closed h k g
    | inr opened ↦
        mono (check_open_opened env p s there object matcher _ opened)
          λ _ _ k. subst HasHandles (sym k.0) h
  ]

  close-HasHandles : Returns (λ _ t. HasHandles t) (hid_close env p s)
  close-HasHandles = mono (hid_close-Closed env p s there object) λ _ t k.
      let after : handles (t.interfaces p) ≡ 0 = closed_handle k.object refl in
      elim (c.states p i object) [
        | inl closed ↦
            let (_, calls) = k.unopened closed.no_handle in
            change-HasHandles t h p k.others
              (omega (arith, after, ap openings calls, ap closings calls))
        | inr opened ↦
            let (_, calls, _) = k.opened opened.handle in
            let before = open_handle object opened.handle in
            change-HasHandles t h p k.others
              (omega (arith, after, before, ap openings calls, ap closings calls))
      ]

  delete-HasHandles : Returns (λ _ t. HasHandles t) (hid_delete_interface p s)
  unfolding hid_delete_interface and_then
  delete-HasHandles = skipped _ _ s (eq_false p 0 there) (
      load_then _ p s object (
        returns (
          change-HasHandles _ h p (update_ne s.interfaces p none)
            (omega (arith, ap handles (update_self s.interfaces p none))))))

  using-HasHandles : (k : Call) {t : Library W P} → run_call env p k s ≡ some (tt, t) → HasHandles t
  using-HasHandles k {t} e = elim (c.states p i object) [
    | inl closed ↦
        let (heap, _, _, _, _, quiet) =
          run_result _ (run_call_closed env p there s object closed k) e in
        same-HasHandles heap quiet h
    | inr opened ↦
        let kept = run_result _ (run_call-Keeps env p there k s i object opened) e in
        let before = open_handle object opened.handle in
        let after = open_handle kept.object kept.opened.handle in
        change-HasHandles t h p kept.others (omega (arith, before, after, kept.quiet))
  ]

module _ {W P : Type 0} (env : Env W P) where
  new-HasHandles :
      (s : Library W P)
      → HasHandles s
      → Returns (λ p t. s.interfaces p ≡ none → HasHandles t) (hid_new_interface env s)
  unfolding hid_new_interface
  new-HasHandles s h = elim (Option-cases (env.malloc_interface s.world).block) [
    | inl full ↦ rw (full, hid_new_interface) (returns λ _. same-HasHandles refl refl h)
    | inr (p, got) ↦
        rw (got, hid_new_interface)
          (returns λ unused. change-HasHandles _ h p (update_ne s.interfaces p _) (
            omega (arith, ap handles unused, ap handles (update_self s.interfaces p (some reset)))))
  ]

  Step-HasHandles :
      {s t : Library W P} → Step env s t → IsConsistent s → HasHandles s → HasHandles t
  Step-HasHandles {s = s} (opening p i interface matcher r there object e) c h =
      result (open-HasHandles env p s there object c h interface matcher) e
  Step-HasHandles {s = s} (forcing p i platform interface matcher retries r there object e) c h =
      result (force-HasHandles env p s there object c h platform interface matcher retries) e
  Step-HasHandles {s = s} (closing p i r there object e) c h =
      result (close-HasHandles env p s there object c h) e
  Step-HasHandles {s = s} (creating p unused e) c h = result (new-HasHandles s h) e unused
  Step-HasHandles {s = s} (deleting p i n there object closed e) c h =
      result (delete-HasHandles env p s there object c h) e
  Step-HasHandles {s = s} (using p i k there object e) c h =
      using-HasHandles env p s there object c h k e
  Step-HasHandles {s = s} (initialising r e) c h =
      result (mono (hid_init-Started env s) λ _ t k. same-HasHandles {t = t} k.interfaces k.quiet h)
        e
  Step-HasHandles {s = s} (cleaning r e) c h =
      result
        (mono (hid_cleanup-Returns env s) λ _ t (_, _, heap, _, calls, _, _).
          same-HasHandles {t = t} heap (omega (arith, ap openings calls, ap closings calls)) h)
        e

  -- From a consistent state in which the interfaces at any different addresses have together at most as
  -- many handles as usb_open was called more often than usb_close, every sequence of calls of the
  -- library, each of which returns, leads to such a state.
  pub Steps-HasHandles :
      {s t : Library W P} → Steps env s t → IsConsistent s → HasHandles s → HasHandles t
  Steps-HasHandles stay c h = h
  Steps-HasHandles (next steps step) c h =
      Step-HasHandles step (Steps-IsConsistent env steps c) (Steps-HasHandles steps c h)
