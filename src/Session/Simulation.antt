-- ===== src/Session/Simulation.antt =====
-- Each call of the library (src/hid_opening.c and the others) is a move of Spec.
use libhid.Base.{
  List, [], ◌∷◌, true, false, ℕ, ◌≡◌, ◌≢◌, refl, sym, ap, ◌∙◌, subst, Option, none, some, inl, inr,
  ℤ, Bool-cases, Option-cases,
}
use libhid.Types.{HidReturn, HidInterface, HidInterfaceMatcher}
use libhid.State.{Env, Library, and_then}
use libhid.State.Returns.{Returns, returns, result, load_then, skipped}
use libhid.State.Safe.{run_result}
use libhid.State.Effect.{update_self, update_ne}
use libhid.OpenList.Refine.{contents}
use libhid.Interface.{reset, hid_new_interface, hid_delete_interface}
use libhid.Interface.Laws.{eq_false}
use libhid.Opening.{hid_open, hid_force_open}
use libhid.Opening.Outcome.{IsClosed}
use libhid.Opening.Laws.{hid_open-Opened, hid_force_open-Opened}
use libhid.Closing.Laws.{hid_close-Closed}
use libhid.ForceClaim.{Platform}
use libhid.Initialisation.Laws.{Started, hid_init-Started, hid_cleanup-Returns}
use libhid.Session
use libhid.Session.{
  IsConsistent, Step, Steps, opening, forcing, closing, creating, deleting, using, initialising,
  cleaning,
}
use libhid.Session.Laws.{consistent-IsLive, absent}
use libhid.Session.Calls.{Call, run_call, run_call-Keeps, run_call_closed}
use libhid.Session.Invariant.{check_open_opened, Steps-IsConsistent}
use libhid.Session.Refine.{
  status_of, view, still, status_shut, Opened-Move, Closed-Move, Kept-Rests, refused-Move,
  check_open_unready,
}
use libhid.Session.Spec.{
  Action, Move, Moves, starts, fails_start, finds_ready, stops, finds_stopped, creates,
  lacks_memory, deletes, uses, to_open, to_close, to_create, to_delete, to_use, to_initialise,
  to_clean,
}
use libhid.Initialisation.{hid_cleanup}

module _ {W P : Type 0} (env : Env W P) where
  opening-Move :
      (s : Library W P) {t : Library W P} (c : IsConsistent s) (p : ℕ) {i : HidInterface P}
      (interface : ℤ) (matcher : Option (HidInterfaceMatcher W)) (r : HidReturn)
      → p ≢ 0
      → s.interfaces p ≡ some i
      → hid_open env p interface matcher s ≡ some (r, t)
      → Move (view s) (view t) (to_open p r)
  unfolding hid_open
  opening-Move s {t} c p {i} interface matcher r there object e = elim (c.states p i object) [
    | inl closed ↦ Opened-Move c object closed (check_open_unready env p s matcher _ e) (
        result
          (hid_open-Opened env p s there object closed (consistent-IsLive c)
            (absent c object closed) interface matcher)
          e)
    | inr opened ↦
        let (same, said) = result (check_open_opened env p s there object matcher _ opened) e in
        refused-Move object opened same said
  ]

  forcing-Move :
      (s : Library W P) {t : Library W P} (c : IsConsistent s) (p : ℕ) {i : HidInterface P}
      (platform : Platform) (interface : ℤ) (matcher : Option (HidInterfaceMatcher W)) (retries : ℕ)
      (r : HidReturn)
      → p ≢ 0
      → s.interfaces p ≡ some i
      → hid_force_open env platform p interface matcher retries s ≡ some (r, t)
      → Move (view s) (view t) (to_open p r)
  unfolding hid_force_open
  forcing-Move s {t} c p {i} platform interface matcher retries r there object e =
      elim (c.states p i object) [
        | inl closed ↦ Opened-Move c object closed (check_open_unready env p s matcher _ e) (
            result
              (hid_force_open-Opened env p s there object closed (consistent-IsLive c)
                (absent c object closed) platform interface matcher retries)
              e)
        | inr opened ↦
            let (same, said) = result (check_open_opened env p s there object matcher _ opened) e in
            refused-Move object opened same said
      ]

  creating-Move :
      (s : Library W P) {t : Library W P} (p : ℕ)
      → s.interfaces p ≡ none
      → hid_new_interface env s ≡ some (p, t)
      → Move (view s) (view t) (to_create p)
  unfolding hid_new_interface
  creating-Move s p unused e = result made e unused
    where
      made :
          Returns
            (λ q u. s.interfaces q ≡ none → Move (view s) (view u) (to_create q))
            (hid_new_interface env s)
      made = elim (Option-cases (env.malloc_interface s.world).block) [
        | inl full ↦
            rw (full, hid_new_interface)
              (returns λ _. lacks_memory refl (
                still s (record s { world = (env.malloc_interface s.world).after }) refl refl refl))
        | inr (q, got) ↦
            rw (got, hid_new_interface)
              (returns λ none_there.
                creates (ap status_of none_there)
                  (
                    ap status_of (update_self s.interfaces q (some reset)),
                    λ x h. ap status_of (update_ne s.interfaces q (some reset) x h),
                  )
                  refl refl)
      ]

  using-Move :
      (s : Library W P) {t : Library W P} (c : IsConsistent s) (p : ℕ) {i : HidInterface P}
      (k : Call)
      → p ≢ 0
      → s.interfaces p ≡ some i
      → run_call env p k s ≡ some (tt, t)
      → Move (view s) (view t) (to_use p)
  using-Move s {t} c p {i} k there object e = elim (c.states p i object) [
    | inl closed ↦
        let (heap, list, _, _, ready, _) =
          run_result _ (run_call_closed env p there s object closed k) e in
        uses (still s t heap list ready)
    | inr opened ↦ uses (
        Kept-Rests c object opened
          (run_result _ (run_call-Keeps env p there k s i object opened) e))
  ]

  starting-Move :
      (s : Library W P) {t : Library W P} {r : HidReturn}
      → Started s r t
      → Move (view s) (view t) (to_initialise r)
  starting-Move s {t} {r} k = elim (Bool-cases s.initialised) [
    | inl on ↦
        let (said, same) = k.again on in
        subst (λ u. Move (view s) (view u) (to_initialise r)) (sym same)
          (finds_ready on said (still s s refl refl refl))
    | inr off ↦ elim (Bool-cases t.initialised) [
      | inl now_on ↦
          starts off ((k.ready off).1 now_on) now_on (λ q. ap (λ f. status_of (f q)) k.interfaces)
            (ap contents k.list)
      | inr still_off ↦
          fails_start off (λ h. true_false (sym ((k.ready off).0 h) ∙ still_off))
            (still s t k.interfaces k.list (still_off ∙ sym off))
    ]
  ]
    where
      true_false : true ≢ false
      true_false z = cc

  cleaning-Move :
      (s : Library W P) {t : Library W P} {r : HidReturn}
      → hid_cleanup s ≡ some (r, t)
      → Move (view s) (view t) (to_clean r)
  cleaning-Move s {t} {r} e =
      let (off, said, heap, list, _, _, _) = result (hid_cleanup-Returns env s) e in
      elim (Bool-cases s.initialised) [
        | inl on ↦ stops on (said.1 on) off (λ q. ap (λ f. status_of (f q)) heap) (ap contents list)
        | inr before ↦
            finds_stopped before (λ h. true_false (sym (said.0 h) ∙ before))
              (still s t heap list (off ∙ sym before))
      ]
    where
      true_false : true ≢ false
      true_false z = cc

  deleting-Move :
      (s : Library W P) {t : Library W P} (p : ℕ) {i : HidInterface P} {n : ℕ}
      → p ≢ 0
      → s.interfaces p ≡ some i
      → IsClosed i
      → hid_delete_interface p s ≡ some (n, t)
      → Move (view s) (view t) (to_delete p)
  unfolding hid_delete_interface and_then
  deleting-Move s p {i} there object closed e = result gone e
    where
      gone : Returns (λ _ u. Move (view s) (view u) (to_delete p)) (hid_delete_interface p s)
      gone = skipped _ _ s (eq_false p 0 there) (
          load_then _ p s object (
            returns (
              deletes (status_shut object closed)
                (
                  ap status_of (update_self s.interfaces p none),
                  λ x h. ap status_of (update_ne s.interfaces p none x h),
                )
                refl refl)))

  -- Which call a step makes, and what it returns.
  abbrev pub action : {s t : Library W P} → Step env s t → Action
  action (opening p i interface matcher r there object e) = to_open p r
  action (forcing p i platform interface matcher retries r there object e) = to_open p r
  action (closing p i r there object e) = to_close p r
  action (creating p unused e) = to_create p
  action (deleting p i n there object closed e) = to_delete p
  action (using p i k there object e) = to_use p
  action (initialising r e) = to_initialise r
  action (cleaning r e) = to_clean r

  -- The calls of a sequence, the last first.
  abbrev pub actions : {s t : Library W P} → Steps env s t → List Action
  actions Session.stay = []
  actions (Session.next steps step) = action step ∷ actions steps

  Step-Move :
      {s t : Library W P} (step : Step env s t)
      → IsConsistent s
      → Move (view s) (view t) (action step)
  Step-Move {s = s} (opening p i interface matcher r there object e) c =
      opening-Move s c p interface matcher r there object e
  Step-Move {s = s} (forcing p i platform interface matcher retries r there object e) c =
      forcing-Move s c p platform interface matcher retries r there object e
  Step-Move {s = s} (closing p i r there object e) c =
      Closed-Move c object (c.states p i object) (result (hid_close-Closed env p s there object) e)
  Step-Move {s = s} (creating p unused e) c = creating-Move s p unused e
  Step-Move {s = s} (deleting p i n there object closed e) c =
      deleting-Move s p there object closed e
  Step-Move {s = s} (using p i k there object e) c = using-Move s c p k there object e
  Step-Move {s = s} (initialising r e) c = starting-Move s (result (hid_init-Started env s) e)
  Step-Move {s = s} (cleaning r e) c = cleaning-Move s e

  -- From a consistent state, each call of a sequence of calls of the library, each of which returns, is
  -- one move that the specification allows for this call and its result. `hid_init` makes the library
  -- ready exactly with success, and only if it was not; `hid_cleanup` ends that, with success exactly
  -- if it was ready. An interface is created closed and deleted only when it is closed. `hid_open` and
  -- `hid_force_open` return HID_RET_NOT_INITIALISED if the library is not ready, and otherwise
  -- HID_RET_DEVICE_ALREADY_OPENED if the interface is open; with success it was closed, is open and
  -- joins the list of open interfaces if there is room, and with any other result nothing
  -- changes. `hid_close` of an open interface closes it and takes it off the list, and of a
  -- closed one fails. Every other call leaves the interfaces' states, the list and the
  -- readiness alone.
  pub Steps-Moves :
      {s t : Library W P} (steps : Steps env s t)
      → IsConsistent s
      → Moves (view s) (actions steps) (view t)
  Steps-Moves Session.stay c = Moves.stay
  Steps-Moves (Session.next steps step) c =
      Moves.next (Steps-Moves steps c) (Step-Move step (Steps-IsConsistent env steps c))
