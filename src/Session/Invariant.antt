-- ===== src/Session/Invariant.antt =====
-- The invariant of the library's calls (src/hid_opening.c and the others), and of sequences of them.
use libhid.Base.{
  ℕ, ◌≡◌, ◌≢◌, refl, sym, ap, ◌∙◌, subst, true, false, Option, none, some, inl, inr, ℤ, Bool-cases,
  arith, Option-cases, not, if◌then◌else◌,
}
use libhid.Types.{
  HidReturn, not_initialised, device_already_opened, HidInterface, HidInterfaceMatcher,
}
use libhid.State.{Env, Library, M, and_then}
use libhid.State.Returns.{result, Returns, returns, mono, load_then, known_then, taken, skipped}
use libhid.OpenList.{no_open_devices}
use libhid.OpenList.Refine.{contents, IsValid}
use libhid.OpenList.Members.{mem, mem_nil, IsDistinct}
use libhid.Interface.Laws.{eq_false, hid_is_opened_open}
use libhid.Opening.{check_open, hid_open, hid_force_open}
use libhid.Opening.Outcome.{IsClosed, IsOpened}
use libhid.Opening.Laws.{hid_open-Opened, hid_force_open-Opened}
use libhid.Closing.{hid_close}
use libhid.Closing.Laws.{hid_close-Closed}
use libhid.Finding.Listed.{IsLive}
use libhid.ForceClaim.{Platform}
use libhid.Session.{
  IsConsistent, Step, Steps, opening, forcing, closing, creating, deleting, stay, next, using,
  initialising, cleaning,
}
use libhid.Session.Laws.{
  consistent-IsLive, unlisted, absent, closing_keeps, opening_keeps, creating_keeps, deleting_keeps,
  same_keeps, using_keeps,
}
use libhid.Session.Calls.{Call, run_call, run_call-Keeps, run_call_closed}
use libhid.Initialisation.{hid_init, hid_cleanup}
use libhid.Initialisation.Laws.{hid_init-Started, hid_cleanup-Returns}
use libhid.State.Safe.{run_result}
use libhid.Interface.{hid_new_interface, hid_delete_interface}

-- The program's start: the list has its initial value and no interface exists.
pub start-IsConsistent :
    {W P : Type 0} {s : Library W P}
    → s.open_list ≡ no_open_devices
    → ((q : ℕ) → s.interfaces q ≡ none)
    → IsConsistent s
start-IsConsistent {P = P} {s = s} empty_list empty_heap = record {
  valid = subst IsValid (sym empty_list) (record { capacity = refl; in_use = omega arith });
  states = λ q j h. absurd (none_some (sym (empty_heap q) ∙ h));
  listed = λ q h.
      absurd (false_true (sym (mem_nil q) ∙ ap (λ l. mem q (contents l)) (sym empty_list) ∙ h));
  distinct = subst (λ l. IsDistinct (contents l)) (sym empty_list) tt;
}
  where
    none_some : {j : HidInterface P} → none ≢ some j
    none_some z = cc

    false_true : false ≢ true
    false_true z = cc

module _ {W P : Type 0} (env : Env W P) (p : ℕ) (s : Library W P) {i : HidInterface P}
    (there : p ≢ 0) (object : s.interfaces p ≡ some i) where
  -- Opening an interface that is open changes nothing, whatever the rest of the function is.
  pub check_open_opened :
      (matcher : Option (HidInterfaceMatcher W)) (go : HidInterfaceMatcher W → M W P HidReturn)
      → IsOpened i
      → Returns
          (λ r t.
            (t ≡ s) × (r ≡ (if s.initialised then device_already_opened else not_initialised)))
          (check_open env p matcher go s)
  unfolding and_then check_open
  check_open_opened matcher go opened = elim (Bool-cases s.initialised) [
    | inr off ↦ taken _ _ s (ap not off) (returns (refl, rw off refl))
    | inl on ↦ skipped _ _ s (ap not on) (
        skipped _ _ s (eq_false p 0 there) (
          known_then _ (hid_is_opened_open p s there object opened.handle)
            (returns (refl, rw on refl))))
  ]

module _ {W P : Type 0} (env : Env W P) (p : ℕ) (s : Library W P) {i : HidInterface P}
    (there : p ≢ 0) (object : s.interfaces p ≡ some i) (c : IsConsistent s) where
  -- `hid_close` of an existing interface always returns, and keeps the library consistent.
  pub hid_close-IsConsistent : Returns (λ _ t. IsConsistent t) (hid_close env p s)
  hid_close-IsConsistent = mono (hid_close-Closed env p s there object) λ _ _ k. closing_keeps c k

  -- `hid_open` of an existing interface, open or closed, always returns, and keeps the library
  -- consistent.
  pub hid_open-IsConsistent :
      (interface : ℤ) (matcher : Option (HidInterfaceMatcher W))
      → Returns (λ _ t. IsConsistent t) (hid_open env p interface matcher s)
  unfolding hid_open
  hid_open-IsConsistent interface matcher = elim (c.states p i object) [
    | inl closed ↦
        mono
          (hid_open-Opened env p s there object closed (consistent-IsLive c)
            (absent c object closed) interface matcher)
          λ _ _ k. opening_keeps c (unlisted c object closed) k
    | inr opened ↦
        mono (check_open_opened env p s there object matcher _ opened)
          λ _ _ k. subst IsConsistent (sym k.0) c
  ]

  -- `hid_force_open` of an existing interface, open or closed, always returns on each platform, and
  -- keeps the library consistent.
  pub hid_force_open-IsConsistent :
      (platform : Platform) (interface : ℤ) (matcher : Option (HidInterfaceMatcher W)) (retries : ℕ)
      → Returns (λ _ t. IsConsistent t) (hid_force_open env platform p interface matcher retries s)
  unfolding hid_force_open
  hid_force_open-IsConsistent platform interface matcher retries = elim (c.states p i object) [
    | inl closed ↦
        mono
          (hid_force_open-Opened env p s there object closed (consistent-IsLive c)
            (absent c object closed) platform interface matcher retries)
          λ _ _ k. opening_keeps c (unlisted c object closed) k
    | inr opened ↦
        mono (check_open_opened env p s there object matcher _ opened)
          λ _ _ k. subst IsConsistent (sym k.0) c
  ]

  delete_IsConsistent : IsClosed i → Returns (λ _ t. IsConsistent t) (hid_delete_interface p s)
  unfolding hid_delete_interface and_then
  delete_IsConsistent closed =
      skipped _ _ s (eq_false p 0 there)
        (load_then _ p s object (returns (deleting_keeps c p object closed)))

module _ {W P : Type 0} (env : Env W P) where
  -- A new object keeps the library consistent if its block was not in use.
  new_IsConsistent :
      (s : Library W P)
      → IsConsistent s
      → Returns (λ p t. s.interfaces p ≡ none → IsConsistent t) (hid_new_interface env s)
  unfolding hid_new_interface
  new_IsConsistent s c = elim (Option-cases (env.malloc_interface s.world).block) [
    | inl full ↦
        rw (full, hid_new_interface)
          (returns λ _. record {
            valid = c.valid;
            states = c.states;
            listed = c.listed;
            distinct = c.distinct;
          })
    | inr (p, got) ↦ rw (got, hid_new_interface) (returns λ unused. creating_keeps c p _ unused)
  ]

  -- Any other call with an interface.
  using-IsConsistent :
      (p : ℕ) (s : Library W P) {i : HidInterface P}
      → p ≢ 0
      → s.interfaces p ≡ some i
      → IsConsistent s
      → (k : Call) {t : Library W P} → run_call env p k s ≡ some (tt, t)
      → IsConsistent t
  using-IsConsistent p s {i} there object c k e = elim (c.states p i object) [
    | inl closed ↦
        let (heap, list, _, _, _, _) =
          run_result _ (run_call_closed env p there s object closed k) e in
        same_keeps heap list c
    | inr opened ↦ using_keeps c (run_result _ (run_call-Keeps env p there k s i object opened) e)
  ]

  init-IsConsistent :
      (s : Library W P) → IsConsistent s → Returns (λ _ t. IsConsistent t) (hid_init env s)
  init-IsConsistent s c = mono (hid_init-Started env s) λ _ _ k. same_keeps k.interfaces k.list c

  cleanup-IsConsistent :
      (s : Library W P) → IsConsistent s → Returns (λ _ t. IsConsistent t) (hid_cleanup s)
  cleanup-IsConsistent s c =
      mono (hid_cleanup-Returns env s) λ _ _ (_, _, heap, list, _, _, _). same_keeps heap list c

  Step-IsConsistent : {s t : Library W P} → Step env s t → IsConsistent s → IsConsistent t
  Step-IsConsistent {s = s} (opening p i interface matcher r there object e) c =
      result (hid_open-IsConsistent env p s there object c interface matcher) e
  Step-IsConsistent {s = s} (forcing p i platform interface matcher retries r there object e) c =
      result (hid_force_open-IsConsistent env p s there object c platform interface matcher retries)
        e
  Step-IsConsistent {s = s} (closing p i r there object e) c =
      result (hid_close-IsConsistent env p s there object c) e
  Step-IsConsistent {s = s} (creating p unused e) c = result (new_IsConsistent s c) e unused
  Step-IsConsistent {s = s} (deleting p i n there object closed e) c =
      result (delete_IsConsistent env p s there object c closed) e
  Step-IsConsistent {s = s} (using p i k there object e) c =
      using-IsConsistent p s there object c k e
  Step-IsConsistent {s = s} (initialising r e) c = result (init-IsConsistent s c) e
  Step-IsConsistent {s = s} (cleaning r e) c = result (cleanup-IsConsistent s c) e

  -- From a consistent state, every sequence of calls of the library, each of which returns, leads to
  -- a consistent one.
  pub Steps-IsConsistent : {s t : Library W P} → Steps env s t → IsConsistent s → IsConsistent t
  Steps-IsConsistent stay c = c
  Steps-IsConsistent (next steps step) c = Step-IsConsistent step (Steps-IsConsistent steps c)

  -- However a program uses the library from the start (initialises it and cleans it up, creates
  -- interfaces, opens, forces open and closes them, exchanges reports, prints, and deletes closed ones),
  -- no pointer on the list of open interfaces dangles, as long as its calls return.
  pub Steps-IsLive :
      {s t : Library W P}
      → s.open_list ≡ no_open_devices
      → ((q : ℕ) → s.interfaces q ≡ none)
      → Steps env s t
      → IsLive t
  Steps-IsLive empty_list empty_heap steps =
      consistent-IsLive (Steps-IsConsistent steps (start-IsConsistent empty_list empty_heap))
