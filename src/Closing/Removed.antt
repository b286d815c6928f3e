-- ===== src/Closing/Removed.antt =====
-- What `hid_close` of src/hid_opening.c does to the list of open interfaces.
use libhid.Base.{ℕ, ◌≡◌, ◌≢◌, sym, subst, ap, ◌∙◌, some, false}
use libhid.Types.{HidReturn, HidInterface}
use libhid.State.{Env, Library}
use libhid.State.Returns.{Returns, mono}
use libhid.OpenList.Refine.{contents, IsValid, erase_first, remove_refines}
use libhid.OpenList.Members.{mem, IsDistinct, mem-erase_first_self, mem-erase_first_other}
use libhid.Closing.{hid_close}
use libhid.Closing.Laws.{Closed, hid_close-Closed}

-- The interface is closed and is not on the list, which holds the others as it did.
pub record Removed {W P : Type 0} (p : ℕ) (i : HidInterface P) (s : Library W P) (r : HidReturn)
    (t : Library W P) : Type 0 where
  pub closed : Closed p i s r t
  pub valid : IsValid t.open_list
  pub order : contents t.open_list ≡ erase_first p (contents s.open_list)
  pub gone : mem p (contents t.open_list) ≡ false
  pub stay : (q : ℕ) → q ≢ p → mem q (contents t.open_list) ≡ mem q (contents s.open_list)

module _ {W P : Type 0} (env : Env W P) (p : ℕ) (s : Library W P) {i : HidInterface P}
    (there : p ≢ 0) (object : s.interfaces p ≡ some i) (valid : IsValid s.open_list)
    (distinct : IsDistinct (contents s.open_list)) where
  -- Where the list of open interfaces is valid and holds none twice, `hid_close` of an existing
  -- interface always returns. The interface is reset and not on the list, which holds the others in
  -- their order; no other interface has changed, and every block that it owned is freed. For an
  -- open interface one call was made, which closes its handle, and the result is success exactly
  -- if that did not return an error; for one that is not open no call was made and the result is
  -- an error.
  pub hid_close-Removed : Returns (Removed p i s) (hid_close env p s)
  hid_close-Removed = mono (hid_close-Closed env p s there object) λ _ t k.
      let (erased, still_valid) = remove_refines s.open_list p valid in
      let after = ap contents k.list ∙ erased in
      record {
        closed = k;
        valid = subst IsValid (sym k.list) still_valid;
        order = after;
        gone = ap (mem p) after ∙ mem-erase_first_self p (contents s.open_list) distinct;
        stay = λ q apart. ap (mem q) after ∙ mem-erase_first_other q p (contents s.open_list) apart;
      }
