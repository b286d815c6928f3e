-- ===== src/Session/Balance.antt =====
-- No sequence of calls of the library (src/hid_opening.c and the others) loses a block of memory.
use libhid.Base.{
  ℕ, ◌≡◌, ◌≢◌, refl, sym, ap, ◌∙◌, subst, Option, none, some, inl, inr, ℤ, Option-cases, List, [],
  ◌∷◌, arith,
}
use libhid.Types.{HidInterface, HidInterfaceMatcher}
use libhid.State.{Env, Library, and_then, block}
use libhid.State.Returns.{result, both, Returns, returns, mono, load_then, skipped}
use libhid.State.Safe.{run_result}
use libhid.State.Effect.{blocks, update_self, update_ne}
use libhid.OpenList.{no_open_devices}
use libhid.Interface.{hid_new_interface, hid_delete_interface}
use libhid.Interface.Laws.{eq_false}
use libhid.Opening.{hid_open, hid_force_open}
use libhid.Opening.Outcome.{IsClosed}
use libhid.Opening.Laws.{hid_open-Opened, hid_force_open-Opened}
use libhid.Closing.{hid_close}
use libhid.Closing.Laws.{hid_close-Closed}
use libhid.ForceClaim.{Platform}
use libhid.Initialisation.Laws.{hid_init-Started, hid_cleanup-Returns}
use libhid.Session.{
  IsConsistent, Step, Steps, opening, forcing, closing, creating, deleting, stay, next, using,
  initialising, cleaning,
}
use libhid.Session.Laws.{consistent-IsLive, absent}
use libhid.Session.Calls.{Call, run_call, run_call-Keeps, run_call_closed}
use libhid.Session.Invariant.{
  check_open_opened, start-IsConsistent, Steps-IsConsistent, hid_open-IsConsistent,
  hid_force_open-IsConsistent, hid_close-IsConsistent,
}
use libhid.Session.Blocks.{
  IsBalanced, weight, owned, change-IsBalanced, same-IsBalanced, moved-IsBalanced,
}

module _ {W P : Type 0} (env : Env W P) (p : ℕ) (s : Library W P) {i : HidInterface P}
    (there : p ≢ 0) (object : s.interfaces p ≡ some i) (c : IsConsistent s) (b : IsBalanced s) where
  open-IsBalanced :
      (interface : ℤ) (matcher : Option (HidInterfaceMatcher W))
      → Returns (λ _ t. IsBalanced t) (hid_open env p interface matcher s)
  unfolding hid_open
  open-IsBalanced interface matcher = elim (c.states p i object) [
    | inl closed ↦
        mono
          (hid_open-Opened env p s there object closed (consistent-IsLive c)
            (absent c object closed) interface matcher)
          λ _ _ k. moved-IsBalanced object k.object k.others k.balance b
    | inr opened ↦
        mono (check_open_opened env p s there object matcher _ opened)
          λ _ _ k. subst IsBalanced (sym k.0) b
  ]

  force-IsBalanced :
      (platform : Platform) (interface : ℤ) (matcher : Option (HidInterfaceMatcher W)) (retries : ℕ)
      → Returns (λ _ t. IsBalanced t) (hid_force_open env platform p interface matcher retries s)
  unfolding hid_force_open
  force-IsBalanced platform interface matcher retries = elim (c.states p i object) [
    | inl closed ↦
        mono
          (hid_force_open-Opened env p s there object closed (consistent-IsLive c)
            (absent c object closed) platform interface matcher retries)
          λ _ _ k. moved-IsBalanced object k.object k.others k.balance b
    | inr opened ↦
        mono (check_open_opened env p s there object matcher _ opened)
          λ _ _ k. subst IsBalanced (sym k.0) b
  ]

  close-IsBalanced : Returns (λ _ t. IsBalanced t) (hid_close env p s)
  close-IsBalanced =
      mono (hid_close-Closed env p s there object)
        λ _ _ k. moved-IsBalanced object k.object k.others (omega (arith, k.balance)) b

  -- In a consistent state in which every block that was allocated is freed, or is an existing interface
  -- or owned by one, `hid_open`, `hid_force_open` and `hid_close` of an existing interface, open or
  -- closed, always return, whatever libusb and `malloc` answer, and lead to such a state.
  pub lifecycle-Returns :
      (platform : Platform) (interface : ℤ) (matcher : Option (HidInterfaceMatcher W)) (retries : ℕ)
      → Returns (λ _ t. IsConsistent t × IsBalanced t) (hid_open env p interface matcher s)
        × Returns
            (λ _ t. IsConsistent t × IsBalanced t)
            (hid_force_open env platform p interface matcher retries s)
        × Returns (λ _ t. IsConsistent t × IsBalanced t) (hid_close env p s)
  lifecycle-Returns platform interface matcher retries = (
    both (hid_open-IsConsistent env p s there object c interface matcher)
        (open-IsBalanced interface matcher),
    both (hid_force_open-IsConsistent env p s there object c platform interface matcher retries)
        (force-IsBalanced platform interface matcher retries),
    both (hid_close-IsConsistent env p s there object c) close-IsBalanced,
  )

  delete-IsBalanced : IsClosed i → Returns (λ _ t. IsBalanced t) (hid_delete_interface p s)
  unfolding hid_delete_interface and_then
  delete-IsBalanced closed =
      let nothing : blocks i ≡ 0 = rw (closed.no_data, closed.no_parser) in
      skipped _ _ s (eq_false p 0 there) (
        load_then _ p s object (
          returns (
            change-IsBalanced _ b p (update_ne s.interfaces p none) (
              omega
                (arith, ap weight object, ap weight (update_self s.interfaces p none), nothing)))))

  using-IsBalanced : (k : Call) {t : Library W P} → run_call env p k s ≡ some (tt, t) → IsBalanced t
  using-IsBalanced k e = elim (c.states p i object) [
    | inl closed ↦
        let (heap, _, mallocs, frees, _, _) =
          run_result _ (run_call_closed env p there s object closed k) e in
        same-IsBalanced heap mallocs frees b
    | inr opened ↦
        let kept = run_result _ (run_call-Keeps env p there k s i object opened) e in
        let before = ap block opened.parser.data_there in
        let before' = ap block opened.parser.parser_there in
        let after = ap block kept.opened.parser.data_there in
        let after' = ap block kept.opened.parser.parser_there in
        moved-IsBalanced object kept.object kept.others
          (omega (arith, before, before', after, after', kept.balance)) b
  ]

module _ {W P : Type 0} (env : Env W P) where
  new-IsBalanced :
      (s : Library W P)
      → IsBalanced s
      → Returns (λ p t. s.interfaces p ≡ none → IsBalanced t) (hid_new_interface env s)
  unfolding hid_new_interface
  new-IsBalanced s b = elim (Option-cases (env.malloc_interface s.world).block) [
    | inl full ↦ rw (full, hid_new_interface) (returns λ _. same-IsBalanced refl refl refl b)
    | inr (p, got) ↦
        rw (got, hid_new_interface)
          (returns λ unused.
            change-IsBalanced _ b p (update_ne s.interfaces p _)
              (omega (arith, ap weight unused, ap weight (update_self s.interfaces p _))))
  ]

  Step-IsBalanced :
      {s t : Library W P} → Step env s t → IsConsistent s → IsBalanced s → IsBalanced t
  Step-IsBalanced {s = s} (opening p i interface matcher r there object e) c b =
      result (open-IsBalanced env p s there object c b interface matcher) e
  Step-IsBalanced {s = s} (forcing p i platform interface matcher retries r there object e) c b =
      result (force-IsBalanced env p s there object c b platform interface matcher retries) e
  Step-IsBalanced {s = s} (closing p i r there object e) c b =
      result (close-IsBalanced env p s there object c b) e
  Step-IsBalanced {s = s} (creating p unused e) c b = result (new-IsBalanced s b) e unused
  Step-IsBalanced {s = s} (deleting p i n there object closed e) c b =
      result (delete-IsBalanced env p s there object c b closed) e
  Step-IsBalanced {s = s} (using p i k there object e) c b =
      using-IsBalanced env p s there object c b k e
  Step-IsBalanced {s = s} (initialising r e) c b =
      result
        (mono (hid_init-Started env s)
          λ _ t k. same-IsBalanced {t = t} k.interfaces k.mallocs k.frees b)
        e
  Step-IsBalanced {s = s} (cleaning r e) c b =
      result
        (mono (hid_cleanup-Returns env s)
          λ _ t (_, _, heap, _, _, mallocs, frees). same-IsBalanced {t = t} heap mallocs frees b)
        e

  -- From a consistent state in which every block that was allocated is freed, or is an existing
  -- interface or owned by one, every sequence of calls of the library, each of which returns, leads to
  -- such a state.
  pub Steps-IsBalanced :
      {s t : Library W P} → Steps env s t → IsConsistent s → IsBalanced s → IsBalanced t
  Steps-IsBalanced stay c b = b
  Steps-IsBalanced (next steps step) c b =
      Step-IsBalanced step (Steps-IsConsistent env steps c) (Steps-IsBalanced steps c b)

  -- From the program's start, with as many blocks freed as allocated, every sequence of calls of the
  -- library, each of which returns, at whose end every interface has been deleted has freed as many
  -- blocks as it has allocated.
  pub Steps-all_freed :
      {s t : Library W P}
      → s.open_list ≡ no_open_devices
      → ((q : ℕ) → s.interfaces q ≡ none)
      → s.mallocs ≡ s.frees
      → Steps env s t
      → ((q : ℕ) → t.interfaces q ≡ none)
      → t.mallocs ≡ t.frees
  Steps-all_freed {s = s} {t = t} empty_list empty_heap even steps deleted =
      let start : IsBalanced s = record {
        addresses = [];
        distinct = tt;
        complete = λ q j h. absurd (none_some (sym (empty_heap q) ∙ h));
        account = omega (arith, even);
      } in
      let b = Steps-IsBalanced steps (start-IsConsistent empty_list empty_heap) start in
      omega (arith, b.account, nothing_owned b.addresses)
    where
      none_some : {j : HidInterface P} → none ≢ some j
      none_some z = cc

      nothing_owned : (qs : List ℕ) → owned t.interfaces qs ≡ 0
      nothing_owned [] = refl
      nothing_owned (q ∷ qs) = omega (arith, ap weight (deleted q), nothing_owned qs)
