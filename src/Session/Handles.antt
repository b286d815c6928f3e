-- ===== src/Session/Handles.antt =====
-- No sequence of calls of the library (src/hid_opening.c and the others) closes a handle too often.
use libhid.Base.{
  ℕ, ◌≡◌, ◌≢◌, refl, sym, ap, ◌∙◌, not, Option, none, some, inl, inr, ℤ, Bool-cases, arith,
  if◌then◌else◌,
}
use libhid.Types.{HidReturn, success, HidInterface, HidInterfaceMatcher}
use libhid.State.{Env, Library, M, and_then, load-some, update}
use libhid.ForceClaim.{Platform}
use libhid.State.Handles.{Gains}
use libhid.State.Returns.{Returns, returns, bind, mono, known_then, taken, skipped}
use libhid.State.Safe.{safely}
use libhid.State.Effect.{Effect-store, update_self}
use libhid.OpenList.{remove_open_device}
use libhid.Interface.Laws.{eq_false, hid_is_opened_closed}
use libhid.Finding.{is_success}
use libhid.Finding.Listed.{IsLive, IsLive-Effect}
use libhid.Finding.Laws.{hid_get_usb_handle-Acquired}
use libhid.Finding.Handles.{hid_get_usb_handle-Gains}
use libhid.Opening.{with_matcher, check_open, acquire, hid_open, hid_force_open}
use libhid.Opening.Outcome.{IsClosed, success_of_test, not_success}
use libhid.Session.{IsConsistent}
use libhid.Session.Laws.{consistent-IsLive, absent}
use libhid.Session.Finished.{Finished, claim_and_finish-Finished, force_claim_and_finish-Finished}

-- What an attempt to open has come to: with success one handle more is open, and otherwise not fewer.
abbrev pub Grown : {W P : Type 0} → Library W P → HidReturn → Library W P → Type 0
Grown s r t = (r ≡ success → Gains 1 s t) × Gains 0 s t

module _ {W P : Type 0} (p : ℕ) (s u : Library W P) {j : HidInterface P} where
  complete_attempt :
      (r : HidReturn) (t : Library W P) → Gains 1 s u → Finished p j u r t → Grown s r t
  complete_attempt r t one f = elim (Bool-cases (is_success r)) [
    | inl good ↦
        let kept = f.quiet (success_of_test r good) in
        (λ _. omega (arith, one, kept), omega (arith, one, kept))
    | inr bad ↦
        let dropped = f.shut (not_success r bad) in
        (λ h. absurd (not_success r bad h), omega (arith, one, dropped))
  ]

module _ {W P : Type 0} (env : Env W P) (p : ℕ) (s : Library W P) {i : HidInterface P}
    (there : p ≢ 0) (object : s.interfaces p ≡ some i) (c : IsConsistent s) (closed : IsClosed i)
    (interface : ℤ) where
  abbrev begun : Library W P
  begun = record s {
    interfaces = update s.interfaces p (some (record i { interface = interface }));
  }

  -- What the rest of both functions does with an interface that the search has given a handle.
  abbrev Finishes : (HidInterfaceMatcher W → M W P HidReturn) → Type 0
  Finishes go =
      (m : HidInterfaceMatcher W) (t : Library W P) (j : HidInterface P)
      → t.interfaces p ≡ some j
      → remove_open_device t.open_list p ≡ t.open_list
      → j.dev_handle ≢ 0
      → j.hid_data ≡ none
      → j.hid_parser ≡ none
      → Returns (Finished p j t) (go m t)

  attempt-Grown :
      (go : HidInterfaceMatcher W → M W P HidReturn)
      → Finishes go
      → (matcher : Option (HidInterfaceMatcher W))
      → Returns (Grown s) (
          check_open env p matcher
            (λ m. λ t.
              and_then
                (acquire env p interface m t)
                (λ r. if is_success r then go m else (λ v. some (r, v))))
            s)
  unfolding and_then check_open with_matcher acquire
  attempt-Grown go next matcher = elim (Bool-cases s.initialised) [
    | inr off ↦ taken _ _ s (ap not off) (returns (λ h. cc, omega arith))
    | inl ready ↦ skipped _ _ s (ap not ready) (
        skipped _ _ s (eq_false p 0 there) (
          known_then _ (hid_is_opened_closed p s there object closed.no_handle) (searched matcher)))
  ]
    where
      live : IsLive begun
      live =
          IsLive-Effect (Effect-store {s = s} object (record i { interface = interface }) refl)
            (consistent-IsLive c)

      searched :
          (matcher : Option (HidInterfaceMatcher W))
          → Returns (Grown s) (
              with_matcher matcher
                (λ m. λ t.
                  and_then
                    (acquire env p interface m t)
                    (λ r. if is_success r then go m else (λ v. some (r, v))))
                s)
      searched none = returns (λ h. cc, omega arith)
      searched (some m) = rw (load-some p s object) (
          bind
            (safely (hid_get_usb_handle-Acquired env p m begun (update_self s.interfaces p _) live)
              (hid_get_usb_handle-Gains env p m begun))
            λ r u (k, gains). elim (Bool-cases (is_success r)) [
              | inl good ↦
                  let gone =
                    ap (λ l. remove_open_device l p) k.effect.list
                    ∙ absent c object closed
                    ∙ sym k.effect.list in
                  rw good (
                    mono
                      (next m u k.now k.effect.object gone (k.gained good)
                        (k.data_kept ∙ closed.no_data) (k.parser_kept ∙ closed.no_parser))
                      λ r' t f. complete_attempt p s u r' t (gains.0 good) f)
              | inr bad ↦ rw bad (returns (λ h. absurd (not_success r bad h), gains.1))
            ])

  pub open-Grown :
      (matcher : Option (HidInterfaceMatcher W))
      → Returns (Grown s) (hid_open env p interface matcher s)
  unfolding hid_open
  open-Grown matcher =
      attempt-Grown _
        (λ m t j at gone opened no_data no_parser.
          claim_and_finish-Finished env p t there at gone opened no_data no_parser interface)
        matcher

  pub force_open-Grown :
      (platform : Platform) (matcher : Option (HidInterfaceMatcher W)) (retries : ℕ)
      → Returns (Grown s) (hid_force_open env platform p interface matcher retries s)
  unfolding hid_force_open
  force_open-Grown platform matcher retries =
      attempt-Grown _
        (λ m t j at gone opened no_data no_parser.
          force_claim_and_finish-Finished env p t there at gone opened no_data no_parser platform
            interface m retries)
        matcher
