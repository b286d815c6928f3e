-- ===== src/Session/Cycle.antt =====
-- Opening an interface and closing it again (src/hid_opening.c).
use libhid.Base.{
  ℕ, ◌+◌, ◌≡◌, ◌≢◌, ap, ◌∙◌, false, Option, some, inl, inr, ℤ, arith, Bool-cases, ltb, ltb→lt,
}
use libhid.Types.{HidReturn, HidInterface, HidInterfaceMatcher}
use libhid.State.{Env, Library, and_then}
use libhid.State.Returns.{Returns, mono, bind}
use libhid.State.Effect.{blocks}
use libhid.OpenList.{add_open_device, remove_open_device, max_open_devices, OpenDeviceList}
use libhid.OpenList.Refine.{contents, IsValid, erase_first, add_refines, add_full, remove_refines}
use libhid.OpenList.Members.{mem, erase_first-append, remove_open_device_absent}
use libhid.Interface.{reset}
use libhid.Opening.{hid_open}
use libhid.Opening.Outcome.{IsClosed, Opened, success_of_test, not_success}
use libhid.Opening.Laws.{hid_open-Opened}
use libhid.Closing.{hid_close}
use libhid.Closing.Laws.{Closed, hid_close-Closed}
use libhid.Finding.{is_success}
use libhid.Session.{IsConsistent}
use libhid.Session.Laws.{consistent-IsLive, unlisted, absent}

-- The list after an addition and a removal.
add_remove :
    (l : OpenDeviceList) (p : ℕ)
    → IsValid l
    → mem p (contents l) ≡ false
    → contents (remove_open_device (add_open_device l p).list p) ≡ contents l
add_remove l p v fresh = elim (Bool-cases (ltb l.n_devices max_open_devices)) [
  | inr full ↦
      ap (λ m. contents (remove_open_device m p)) (add_full l p full)
      ∙ ap contents (remove_open_device_absent l p v fresh)
  | inl room ↦
      let (_, appended, valid) = add_refines l p v (ltb→lt _ _ room) in
      (remove_refines (add_open_device l p).list p valid).0
      ∙ ap (erase_first p) appended
      ∙ erase_first-append p (contents l) fresh
]

-- What an attempt to open and a close leave behind: as before, but for the interface's fields.
pub record Restored {W P : Type 0} (p : ℕ) (s t : Library W P) : Type 0 where
  pub object : t.interfaces p ≡ some reset
  pub others : (q : ℕ) → q ≢ p → t.interfaces q ≡ s.interfaces q
  pub list : contents t.open_list ≡ contents s.open_list
  pub balance : t.mallocs + s.frees ≡ s.mallocs + t.frees

module _ {W P : Type 0} (env : Env W P) (p : ℕ) (s : Library W P) {i : HidInterface P}
    (there : p ≢ 0) (object : s.interfaces p ≡ some i) (c : IsConsistent s)
    (closed : IsClosed i) where
  -- After an attempt to open and `hid_close`.
  pub restored :
      {r r' : HidReturn} {t u : Library W P} (k : Opened p i s r t)
      → Closed p k.now t r' u
      → Restored p s u
  restored {r = r} {t = t} k l = record {
    object = l.object;
    others = λ q h. l.others q h ∙ k.others q h;
    list = ap contents l.list ∙ elim (Bool-cases (is_success r)) [
      | inl good ↦
          ap (λ m. contents (remove_open_device m p)) (k.done (success_of_test r good)).1
          ∙ add_remove s.open_list p c.valid (unlisted c object closed)
      | inr bad ↦
          ap (λ m. contents (remove_open_device m p)) (k.undone (not_success r bad)).1
          ∙ ap contents (absent c object closed)
    ];
    balance =
        let nothing : blocks i ≡ 0 = rw (closed.no_data, closed.no_parser) in
        omega (arith, k.balance, l.balance, nothing);
  }

  -- In a consistent state, `hid_open` of a closed interface followed by `hid_close`, whatever the
  -- first has returned, returns: the interface is reset, the list holds what it held in the same
  -- order, no other interface has changed, and as many blocks are freed as were allocated.
  pub open_close-Restored :
      (interface : ℤ) (matcher : Option (HidInterfaceMatcher W))
      → Returns
          (λ _ t. Restored p s t)
          (and_then (hid_open env p interface matcher s) (λ _. hid_close env p))
  open_close-Restored interface matcher =
      bind
        (hid_open-Opened env p s there object closed (consistent-IsLive c) (absent c object closed)
          interface matcher)
        λ _ t k. mono (hid_close-Closed env p t there k.object) λ _ _ l. restored k l
