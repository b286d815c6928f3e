-- ===== src/Opening/Outcome.antt =====
-- What an attempt to open an interface (src/hid_opening.c) may leave behind.
use libhid.Base.{ℕ, ◌+◌, ◌≡◌, ◌≢◌, refl, ap, ◌∙◌, true, false, none, some, arith}
use libhid.Types.{HidReturn, success, HidInterface}
use libhid.State.{Library}
use libhid.State.Effect.{Effect, blocks}
use libhid.OpenList.{add_open_device}
use libhid.Interface.{reset}
use libhid.Parsing.Preparing.{HasParser}
use libhid.Finding.{is_success}

-- A closed interface owns nothing, an open one has its parser.
pub record IsClosed {P : Type 0} (i : HidInterface P) : Type 0 where
  pub no_handle : i.dev_handle ≡ 0
  pub no_data : i.hid_data ≡ none
  pub no_parser : i.hid_parser ≡ none

pub record IsOpened {P : Type 0} (i : HidInterface P) : Type 0 where
  pub handle : i.dev_handle ≢ 0
  pub parser : HasParser i

-- What an attempt to open has done. Success gives an open interface, entered in the list if there
-- is room; anything else a closed one and the list as it was. No block is lost.
pub record Opened {W P : Type 0} (p : ℕ) (i : HidInterface P) (s : Library W P) (r : HidReturn)
    (s' : Library W P) : Type 0 where
  pub now : HidInterface P
  pub object : s'.interfaces p ≡ some now
  pub others : (q : ℕ) → q ≢ p → s'.interfaces q ≡ s.interfaces q
  pub ready : s'.initialised ≡ s.initialised
  pub balance : s'.mallocs + (blocks i + s.frees) ≡ s.mallocs + (blocks now + s'.frees)
  pub done : r ≡ success → IsOpened now × (s'.open_list ≡ (add_open_device s.open_list p).list)
  pub undone : r ≢ success → IsClosed now × (s'.open_list ≡ s.open_list)

module _ {W P : Type 0} {p : ℕ} {i j : HidInterface P} {s t : Library W P} {r : HidReturn} where
  -- What came before changed the interface alone.
  pub from_Effect : {u : Library W P} → Effect p i s j t → Opened p j t r u → Opened p i s r u
  from_Effect e k = record {
    now = k.now;
    object = k.object;
    others = λ q h. k.others q h ∙ e.others q h;
    ready = k.ready ∙ e.ready;
    balance = omega (arith, k.balance, e.balance);
    done = λ h.
        let (opened, list) = k.done h in
        (opened, list ∙ ap (λ l. (add_open_device l p).list) e.list);
    undone = λ h. let (closed, list) = k.undone h in (closed, list ∙ e.list);
  }

  pub failed_Opened : Effect p i s j t → IsClosed j → r ≢ success → Opened p i s r t
  failed_Opened e closed bad = record {
    now = j;
    object = e.object;
    others = e.others;
    ready = e.ready;
    balance = e.balance;
    done = λ h. absurd (bad h);
    undone = λ _. (closed, e.list);
  }

pub success_of_test : (r : HidReturn) → is_success r ≡ true → r ≡ success
unfolding is_success
success_of_test HidReturn.success h = refl
success_of_test _ h = cc

pub not_success : (r : HidReturn) → is_success r ≡ false → r ≢ success
unfolding is_success
not_success HidReturn.success h e = cc
not_success _ h e = cc

pub reset-IsClosed : {P : Type 0} → IsClosed {P = P} reset
reset-IsClosed = record { no_handle = refl; no_data = refl; no_parser = refl }
