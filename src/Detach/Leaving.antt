-- ===== src/Detach/Leaving.antt =====
-- What libhid-detach-device (src/libhid-detach-device.c) leaves behind once it has read its argument.
use libhid.Base.{
  ℕ, zero, suc, ◌+◌, ◌≤◌, ◌≡◌, ◌≢◌, ◌⊎◌, refl, ap, ◌∙◌, sym, not, true, false, some, none, inl, inr,
  arith, Bool-cases, Option-cases, ◌==◌, ==_iff, Bytes, codes, pos,
}
use libhid.Types.{HidReturn, success, HidInterfaceMatcher}
use libhid.State.{Env, Library, and_then, update, load-some}
use libhid.State.Returns.{Returns, returns, bind, mono, known_then, taken, skipped}
use libhid.State.Effect.{blocks, update_self, update_ne}
use libhid.OpenList.Refine.{contents}
use libhid.Interface.{reset, hid_new_interface, hid_delete_interface}
use libhid.Interface.Laws.{eq_false}
use libhid.Initialisation.Laws.{hid_init-Started, hid_cleanup-Returns}
use libhid.Opening.Outcome.{Opened, not_success, reset-IsClosed}
use libhid.Opening.Laws.{hid_force_open-Opened}
use libhid.Closing.Laws.{hid_close-Closed}
use libhid.Finding.{is_success}
use libhid.ForceClaim.{Platform}
use libhid.Session.{IsConsistent}
use libhid.Session.Laws.{consistent-IsLive, absent, creating_keeps, same_keeps}
use libhid.Session.Cycle.{Restored, restored}
use libhid.Detach.{delete_and_leave, close_and_leave, open_and_leave, init_and_leave}

-- What the program has done once its argument is read: the list of open interfaces holds what it held,
-- and no more than the interface's block is lost. The status 0 means that nothing is left behind.
pub record Left {W P : Type 0} (s : Library W P) (r : ℕ × Bytes) (t : Library W P) : Type 0 where
  pub status : (r.0 ≡ 0) ⊎ (r.0 ≡ 1)
  pub list : contents t.open_list ≡ contents s.open_list
  pub lost : t.mallocs + s.frees ≤ suc (s.mallocs + t.frees)
  pub done :
      r.0 ≡ 0
      → (r.1 ≡ codes "done.\n")
        × (t.initialised ≡ false)
        × ((q : ℕ) → t.interfaces q ≡ s.interfaces q)
        × (t.mallocs + s.frees ≡ s.mallocs + t.frees)

module _ {W P : Type 0} {s : Library W P} where
  -- Every way out with the status 1.
  gave_up :
      (text : Bytes) (t : Library W P)
      → contents t.open_list ≡ contents s.open_list
      → t.mallocs + s.frees ≤ suc (s.mallocs + t.frees)
      → Left s (1, text) t
  gave_up text t list lost = record {
    status = inr refl;
    list = list;
    lost = lost;
    done = λ h. absurd (one_zero h);
  }
    where
      one_zero : suc zero ≢ zero
      one_zero h = omega arith

  from_same :
      {u : Library W P} {r : ℕ × Bytes} (t : Library W P)
      → (u.interfaces ≡ s.interfaces) × (u.open_list ≡ s.open_list)
      → (u.mallocs ≡ s.mallocs) × (u.frees ≡ s.frees)
      → Left u r t
      → Left s r t
  from_same t (heap, list) (mallocs, frees) k = record {
    status = k.status;
    list = k.list ∙ ap contents list;
    lost = omega (arith, k.lost, mallocs, frees);
    done = λ h.
        let (text, off, same, balance) = k.done h in
        (text, off, (λ q. same q ∙ ap (λ f. f q) heap), omega (arith, balance, mallocs, frees));
  }

-- The state with a new interface.
abbrev pub with_new : {W P : Type 0} → Library W P → W → ℕ → Library W P
with_new s w p = record s {
  world = w;
  interfaces = update s.interfaces p (some reset);
  mallocs = suc s.mallocs;
}

module _ {W P : Type 0} (env : Env W P) (s : Library W P) (c : IsConsistent s) (w : W) (p : ℕ)
    (there : p ≢ 0) (unused : s.interfaces p ≡ none) where
  made-IsConsistent : IsConsistent (with_new s w p)
  made-IsConsistent = creating_keeps c p w unused

  module _ (u : Library W P) (k : Restored p (with_new s w p) u) where
    -- Deleting the interface leaves the others as they were before it was made.
    same_objects : (q : ℕ) → update u.interfaces p none q ≡ s.interfaces q
    same_objects q = elim (Bool-cases (q == p)) [
      | inl same ↦
          let e = (==_iff q p).0 same in
          ap (update u.interfaces p none) e
          ∙ update_self u.interfaces p none
          ∙ sym unused
          ∙ ap s.interfaces (sym e)
      | inr other ↦
          let apart : q ≢ p = λ e. true_false (sym ((==_iff q p).1 e) ∙ other) in
          update_ne u.interfaces p none q apart
          ∙ k.others q apart
          ∙ update_ne s.interfaces p (some reset) q apart
    ]
      where
        true_false : true ≢ false
        true_false h = cc

    deleted :
        hid_delete_interface p u
        ≡ some (0, record u { interfaces = update u.interfaces p none; frees = suc u.frees })
    unfolding and_then hid_delete_interface
    deleted = rw (eq_false p 0 there, load-some p u k.object)

    -- The interface is deleted and the library cleaned up.
    delete_and_leave-Left : Returns (Left s) (delete_and_leave p u)
    unfolding and_then delete_and_leave
    delete_and_leave-Left =
        let t = record u { interfaces = update u.interfaces p none; frees = suc u.frees } in
        known_then _ deleted (
          bind (hid_cleanup-Returns env t) λ r v (off, _, heap, list, _, mallocs, frees).
            elim (Bool-cases (is_success r)) [
              | inr bad ↦ taken _ _ v (ap not bad) (
                  returns (
                    gave_up _ v (ap contents list ∙ k.list)
                      (omega (arith, mallocs, frees, k.balance))))
              | inl good ↦ skipped _ _ v (ap not good) (
                  returns (record {
                    status = inl refl;
                    list = ap contents list ∙ k.list;
                    lost = omega (arith, mallocs, frees, k.balance);
                    done = λ _. (
                      refl,
                      off,
                      (λ q. ap (λ f. f q) heap ∙ same_objects q),
                      omega (arith, mallocs, frees, k.balance),
                    );
                  }))
            ])

    -- What is left when the interface cannot be closed.
    kept_Left : (text : Bytes) → Left s (1, text) u
    kept_Left text = gave_up text u k.list (omega (arith, k.balance))

  module _ {r : HidReturn} (u : Library W P) (k : Opened p reset (with_new s w p) r u) where
    close_and_leave-Left : Returns (Left s) (close_and_leave env p u)
    unfolding and_then close_and_leave
    close_and_leave-Left = bind (hid_close-Closed env p u there k.object) λ r' v l.
        let z =
          restored env p (with_new s w p) there (update_self s.interfaces p (some reset))
            made-IsConsistent reset-IsClosed k l in
        elim (Bool-cases (is_success r')) [
          | inr bad ↦ taken _ _ v (ap not bad) (returns (kept_Left v z _))
          | inl good ↦ skipped _ _ v (ap not good) (delete_and_leave-Left v z)
        ]

    -- What is left when no device can be opened.
    unopened_Left : r ≢ success → (text : Bytes) → Left s (1, text) u
    unopened_Left bad text =
        let (closed, list) = k.undone bad in
        gave_up text u (ap contents list) (
          let nothing : blocks k.now ≡ 0 = rw (closed.no_data, closed.no_parser) in
          omega (arith, k.balance, nothing))

-- `malloc` gives a block that is not NULL and not in use.
abbrev pub Fresh : {W P : Type 0} → Env W P → Library W P → Type 0
Fresh {W = W} env s =
    (w : W) (p : ℕ) → (env.malloc_interface w).block ≡ some p → (p ≢ 0) × (s.interfaces p ≡ none)

module _ {W P : Type 0} (env : Env W P) where
  open_and_leave-Left :
      (s : Library W P)
      → IsConsistent s
      → Fresh env s
      → (platform : Platform) (matcher : HidInterfaceMatcher W)
      → Returns (Left s) (open_and_leave env platform matcher s)
  unfolding and_then open_and_leave hid_new_interface
  open_and_leave-Left s c fresh platform matcher =
      elim (Option-cases (env.malloc_interface s.world).block) [
        | inl full ↦ rw (full, hid_new_interface) (returns (gave_up _ _ refl (omega arith)))
        | inr (p, got) ↦
            let (there, unused) = fresh s.world p got in
            let w = (env.malloc_interface s.world).after in
            let t = with_new s w p in
            let made = made-IsConsistent env s c w p there unused in
            let object = update_self s.interfaces p (some reset) in
            rw (got, hid_new_interface, eq_false p 0 there)
              (bind
                (hid_force_open-Opened env p t there object reset-IsClosed (consistent-IsLive made)
                  (absent made object reset-IsClosed) platform (pos 0) (some matcher) 3)
                λ r u k. elim (Bool-cases (is_success r)) [
                  | inr bad ↦
                      taken _ _ u (ap not bad)
                        (returns (unopened_Left env s c w p there unused u k (not_success r bad) _))
                  | inl good ↦
                      skipped _ _ u (ap not good)
                        (close_and_leave-Left env s c w p there unused u k)
                ])
      ]

  pub init_and_leave-Left :
      (s : Library W P)
      → IsConsistent s
      → Fresh env s
      → (platform : Platform) (matcher : HidInterfaceMatcher W)
      → Returns (Left s) (init_and_leave env platform matcher s)
  unfolding and_then init_and_leave
  init_and_leave-Left s c fresh platform matcher = bind (hid_init-Started env s) λ r t k.
      elim (Bool-cases (is_success r)) [
        | inr bad ↦
            taken _ _ t (ap not bad)
              (returns (gave_up _ t (ap contents k.list) (omega (arith, k.mallocs, k.frees))))
        | inl good ↦ skipped _ _ t (ap not good) (
            mono
              (open_and_leave-Left t (same_keeps k.interfaces k.list c)
                (λ w p got.
                  let (there, unused) = fresh w p got in
                  (there, ap (λ f. f p) k.interfaces ∙ unused))
                platform matcher)
              λ _ u l. from_same u (k.interfaces, k.list) (k.mallocs, k.frees) l)
      ]
