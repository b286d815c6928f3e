-- ===== src/Session/Laws.antt =====
-- What opening, closing, creating and deleting an interface do to a consistent library
-- (src/hid_opening.c, src/hid_initialisation.c).
use libhid.Base.{
  ℕ, suc, ◌≡◌, ◌≢◌, refl, sym, ap, ◌∙◌, subst, ◌⊎◌, true, false, none, some, inl, inr, Bool-cases,
  ◌==◌, ==_iff, List, [], ◌∷◌, ltb, ltb→lt,
}
use libhid.Types.{HidReturn, HidInterface}
use libhid.State.Effect.{update_self, update_ne}
use libhid.State.{update, Library}
use libhid.OpenList.{add_open_device, remove_open_device, max_open_devices}
use libhid.OpenList.Refine.{contents, IsValid, add_refines, remove_refines, erase_first, add_full}
use libhid.OpenList.Members.{
  mem, mem_head, mem_self, IsDistinct, mem-erase_first, mem-erase_first_self,
  erase_first-IsDistinct, mem-append, earlier, append-IsDistinct, remove_open_device_absent,
}
use libhid.Interface.{reset}
use libhid.Interface.Laws.{same_object}
use libhid.Opening.Outcome.{
  IsClosed, IsOpened, Opened, reset-IsClosed, success_of_test, not_success,
}
use libhid.Opening.Kept.{Kept}
use libhid.Finding.{is_success}
use libhid.Closing.Laws.{Closed}
use libhid.Finding.Listed.{IsLive, AllLive}
use libhid.Session.{IsConsistent}

module _ {W P : Type 0} {s : Library W P} (c : IsConsistent s) where
  all_live :
      (ps : List ℕ)
      → ((q : ℕ) → mem q ps ≡ true → mem q (contents s.open_list) ≡ true)
      → AllLive s.interfaces ps
  all_live [] f = tt
  all_live (p ∷ ps) f =
      let (j, object, _) = c.listed p (f p (mem_self p ps)) in
      ((j, object), all_live ps λ q h. f q (mem_head q p ps h))

  pub consistent-IsLive : IsLive s
  consistent-IsLive = all_live (contents s.open_list) λ q h. h

module _ {W P : Type 0} {s : Library W P} (c : IsConsistent s) {p : ℕ} {i : HidInterface P}
    (object : s.interfaces p ≡ some i) where
  -- A closed interface is not on the list.
  pub unlisted : IsClosed i → mem p (contents s.open_list) ≡ false
  unlisted closed = elim (Bool-cases (mem p (contents s.open_list))) [
    | inl h ↦
        let (j, there, opened) = c.listed p h in
        absurd
          (opened.handle (subst IsClosed (same_object i j (sym object ∙ there)) closed).no_handle)
    | inr h ↦ h
  ]

  pub absent : IsClosed i → remove_open_device s.open_list p ≡ s.open_list
  absent closed = remove_open_device_absent s.open_list p c.valid (unlisted closed)

module _ {W P : Type 0} (s t : Library W P) (c : IsConsistent s) (p : ℕ) (k : HidInterface P)
    (now : t.interfaces p ≡ some k)
    (others : (q : ℕ) → q ≢ p → t.interfaces q ≡ s.interfaces q) where
  -- The interface `p` has become `k`.
  others_states :
      IsClosed k ⊎ IsOpened k
      → (q : ℕ) (j : HidInterface P) → t.interfaces q ≡ some j
      → IsClosed j ⊎ IsOpened j
  others_states shape q j h = elim (Bool-cases (q == p)) [
    | inl same ↦
        let here = sym now ∙ sym (ap t.interfaces ((==_iff q p).0 same)) ∙ h in
        subst (λ x. IsClosed x ⊎ IsOpened x) (same_object k j here) shape
    | inr other ↦ c.states q j (sym (others q (λ z. cc ((==_iff q p).1 z))) ∙ h)
  ]

  -- What was listed and is another interface is as it was.
  still_listed :
      (q : ℕ)
      → q ≢ p
      → mem q (contents s.open_list) ≡ true
      → (j : HidInterface P) × (t.interfaces q ≡ some j) × IsOpened j
  still_listed q other h =
      let (j, there, opened) = c.listed q h in (j, others q other ∙ there, opened)

  -- An interface that is not on the list changes, and the list does not.
  list_kept :
      mem p (contents s.open_list) ≡ false
      → t.open_list ≡ s.open_list
      → IsClosed k ⊎ IsOpened k
      → IsConsistent t
  list_kept fresh same shape = record {
    valid = subst IsValid (sym same) c.valid;
    states = others_states shape;
    listed = λ q h.
        let was = ap (λ l. mem q (contents l)) (sym same) ∙ h in
        still_listed q (λ z. cc (ap (λ x. mem x (contents s.open_list)) z)) was;
    distinct = subst (λ l. IsDistinct (contents l)) (sym same) c.distinct;
  }

  -- An interface that was not on the list is open, and is added to the list where there is room.
  pub list_grown :
      mem p (contents s.open_list) ≡ false
      → t.open_list ≡ (add_open_device s.open_list p).list
      → IsOpened k
      → IsConsistent t
  list_grown fresh grown opened = elim (Bool-cases (ltb s.open_list.n_devices max_open_devices)) [
    | inr full ↦ list_kept fresh (grown ∙ add_full s.open_list p full) (inr opened)
    | inl room ↦
        let (_, appended, valid) = add_refines s.open_list p c.valid (ltb→lt _ _ room) in
        let after = ap contents grown ∙ appended in
        record {
          valid = subst IsValid (sym grown) valid;
          states = others_states (inr opened);
          listed = λ q h. elim (Bool-cases (q == p)) [
            | inl same ↦ (k, ap t.interfaces ((==_iff q p).0 same) ∙ now, opened)
            | inr other ↦
                let found =
                  sym (mem-append q p (contents s.open_list)) ∙ ap (mem q) (sym after) ∙ h in
                still_listed q (λ z. cc ((==_iff q p).1 z))
                  (earlier (mem q (contents s.open_list)) (q == p) other found)
          ];
          distinct =
              subst IsDistinct (sym after)
                (append-IsDistinct p (contents s.open_list) c.distinct fresh);
        }
  ]

module _ {W P : Type 0} {s t : Library W P} (c : IsConsistent s) {p : ℕ} {i : HidInterface P}
    {r : HidReturn} where
  pub closing_keeps : Closed p i s r t → IsConsistent t
  closing_keeps k =
      let (erased, valid) = remove_refines s.open_list p c.valid in
      let after = ap contents k.list ∙ erased in
      let gone = mem-erase_first_self p (contents s.open_list) c.distinct in
      record {
        valid = subst IsValid (sym k.list) valid;
        states = others_states s t c p reset k.object k.others (inl reset-IsClosed);
        listed = λ q h.
            let left = ap (mem q) (sym after) ∙ h in
            still_listed s t c p reset k.object k.others q
              (λ z. cc (ap (λ x. mem x (erase_first p (contents s.open_list))) z))
              (mem-erase_first q p (contents s.open_list) left);
        distinct =
            subst IsDistinct (sym after)
              (erase_first-IsDistinct p (contents s.open_list) c.distinct);
      }

  pub opening_keeps : mem p (contents s.open_list) ≡ false → Opened p i s r t → IsConsistent t
  opening_keeps fresh k = elim (Bool-cases (is_success r)) [
    | inl good ↦
        let (opened, grown) = k.done (success_of_test r good) in
        list_grown s t c p k.now k.object k.others fresh grown opened
    | inr bad ↦
        let (closed, same) = k.undone (not_success r bad) in
        list_kept s t c p k.now k.object k.others fresh same (inl closed)
  ]

module _ {W P : Type 0} {s : Library W P} (c : IsConsistent s) (p : ℕ) where
  -- A new object is reset.
  pub creating_keeps :
      (w : W)
      → s.interfaces p ≡ none
      → IsConsistent (record s {
        world = w;
        interfaces = update s.interfaces p (some reset);
        mallocs = suc s.mallocs;
      })
  creating_keeps w unused =
      list_kept s _ c p reset (update_self s.interfaces p (some reset))
        (update_ne s.interfaces p (some reset)) fresh refl (inl reset-IsClosed)
    where
      fresh : mem p (contents s.open_list) ≡ false
      fresh = elim (Bool-cases (mem p (contents s.open_list))) [
        | inl h ↦ let (j, there, _) = c.listed p h in cc
        | inr h ↦ h
      ]

  -- A closed object goes.
  pub deleting_keeps :
      {i : HidInterface P}
      → s.interfaces p ≡ some i
      → IsClosed i
      → IsConsistent (record s { interfaces = update s.interfaces p none; frees = suc s.frees })
  deleting_keeps object closed = record {
    valid = c.valid;
    states = λ q j h. elim (Bool-cases (q == p)) [
      | inl same ↦ absurd (none_some (sym (gone q same) ∙ h))
      | inr other ↦ c.states q j (sym (apart q other) ∙ h)
    ];
    listed = λ q h. elim (Bool-cases (q == p)) [
      | inl same ↦
          let off = ap (λ x. mem x (contents s.open_list)) ((==_iff q p).0 same) in
          absurd (true_false (sym h ∙ off ∙ unlisted c object closed))
      | inr other ↦ let (j, there, opened) = c.listed q h in (j, apart q other ∙ there, opened)
    ];
    distinct = c.distinct;
  }
    where
      true_false : true ≢ false
      true_false z = cc

      none_some : {j : HidInterface P} → none ≢ some j
      none_some z = cc

      gone : (q : ℕ) → (q == p) ≡ true → update s.interfaces p none q ≡ none
      gone q same = rw same

      apart : (q : ℕ) → (q == p) ≡ false → update s.interfaces p none q ≡ s.interfaces q
      apart q other = update_ne s.interfaces p none q λ z. cc ((==_iff q p).1 z)

-- Consistency is about the interfaces and the list alone.
pub same_keeps :
    {W P : Type 0} {s t : Library W P}
    → t.interfaces ≡ s.interfaces
    → t.open_list ≡ s.open_list
    → IsConsistent s
    → IsConsistent t
same_keeps {t = t} heap list c = record {
  valid = subst IsValid (sym list) c.valid;
  states = λ q j h. c.states q j (sym (ap (λ f. f q) heap) ∙ h);
  listed = λ q h.
      let (j, object, opened) = c.listed q (sym (ap (λ l. mem q (contents l)) list) ∙ h) in
      (j, ap (λ f. f q) heap ∙ object, opened);
  distinct = subst (λ l. IsDistinct (contents l)) (sym list) c.distinct;
}

-- Calls that leave an open interface open.
pub using_keeps :
    {W P : Type 0} {s t : Library W P} {p : ℕ} → IsConsistent s → Kept p s t → IsConsistent t
using_keeps {s = s} {t = t} {p = p} c k = record {
  valid = subst IsValid (sym k.list) c.valid;
  states = others_states s t c p k.now k.object k.others (inr k.opened);
  listed = λ q h.
      let was = ap (λ l. mem q (contents l)) (sym k.list) ∙ h in
      elim (Bool-cases (q == p)) [
        | inl same ↦ (k.now, ap t.interfaces ((==_iff q p).0 same) ∙ k.object, k.opened)
        | inr other ↦
            still_listed s t c p k.now k.object k.others q (λ z. cc ((==_iff q p).1 z)) was
      ];
  distinct = subst (λ l. IsDistinct (contents l)) (sym k.list) c.distinct;
}
