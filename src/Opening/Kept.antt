-- ===== src/Opening/Kept.antt =====
-- Calls that leave an open interface (src/hid_opening.c) open.
use libhid.Base.{ℕ, ◌+◌, arith, ◌≡◌, ◌≢◌, refl, ap, ◌∙◌, Option, some}
use libhid.Types.{HidInterface, HidData, HidParser}
use libhid.State.{Library, M, update}
use libhid.State.Handles.{Quiet, Quiet-trans}
use libhid.State.Safe.{Safe, faults, gives}
use libhid.State.Effect.{update_self, update_ne}
use libhid.Opening.Outcome.{IsOpened}

-- The interface is open; the other interfaces, the list and `initialised` are as they were, and as
-- many blocks have been freed as were allocated, and as many handles closed as opened.
pub record Kept {W P : Type 0} (p : ℕ) (s t : Library W P) : Type 0 where
  pub now : HidInterface P
  pub object : t.interfaces p ≡ some now
  pub opened : IsOpened now
  pub others : (q : ℕ) → q ≢ p → t.interfaces q ≡ s.interfaces q
  pub list : t.open_list ≡ s.open_list
  pub balance : t.mallocs + s.frees ≡ s.mallocs + t.frees
  pub ready : t.initialised ≡ s.initialised
  pub quiet : Quiet s t

module _ {W P : Type 0} {p : ℕ} {s t u : Library W P} where
  pub Kept-trans : Kept p s t → Kept p t u → Kept p s u
  Kept-trans k l = record {
    now = l.now;
    object = l.object;
    opened = l.opened;
    others = λ q h. l.others q h ∙ k.others q h;
    list = l.list ∙ k.list;
    balance = omega arith;
    ready = l.ready ∙ k.ready;
    quiet = Quiet-trans s t u k.quiet l.quiet;
  }

module _ {W P : Type 0} {p : ℕ} {s t : Library W P} where
  pub go_on :
      {A : Type 0} {o : Option (A × Library W P)}
      → Kept p s t
      → Safe (λ _ v. Kept p t v) o
      → Safe (λ _ v. Kept p s v) o
  go_on k faults = faults
  go_on k (gives l) = gives (Kept-trans k l)

module _ {W P : Type 0} {p : ℕ} {s : Library W P} {i : HidInterface P}
    (object : s.interfaces p ≡ some i) (opened : IsOpened i) where
  -- Nothing of the interfaces has changed.
  pub Kept-same :
      (t : Library W P)
      → t.interfaces ≡ s.interfaces
      → t.open_list ≡ s.open_list
      → t.mallocs + s.frees ≡ s.mallocs + t.frees
      → t.initialised ≡ s.initialised
      → Quiet s t
      → Kept p s t
  Kept-same t heap list balance ready quiet = record {
    now = i;
    object = ap (λ f. f p) heap ∙ object;
    opened = opened;
    others = λ q h. ap (λ f. f q) heap;
    list = list;
    balance = balance;
    ready = ready;
    quiet = quiet;
  }

  -- An assignment to the parser's fields.
  pub Kept-store :
      (j : HidInterface P)
      → IsOpened j
      → Kept p s (record s { interfaces = update s.interfaces p (some j) })
  Kept-store j open_now = record {
    now = j;
    object = update_self s.interfaces p (some j);
    opened = open_now;
    others = λ q h. update_ne s.interfaces p (some j) q h;
    list = refl;
    balance = refl;
    ready = refl;
    quiet = refl;
  }

module _ {P : Type 0} {i : HidInterface P} (opened : IsOpened i) where
  -- Other data, or another parser.
  pub with_data : (d : HidData) → IsOpened (record i { hid_data = some d })
  with_data d = record {
    handle = opened.handle;
    parser = record {
      hid_data = d;
      data_there = refl;
      hid_parser = opened.parser.hid_parser;
      parser_there = opened.parser.parser_there;
    };
  }

  pub with_parser : (q : HidParser P) → IsOpened (record i { hid_parser = some q })
  with_parser q = record {
    handle = opened.handle;
    parser = record {
      hid_data = opened.parser.hid_data;
      data_there = opened.parser.data_there;
      hid_parser = q;
      parser_there = refl;
    };
  }

-- Every call that begins at an open interface.
abbrev pub Keeps : {W P A : Type 0} → ℕ → M W P A → Type 0
Keeps {W} {P} {A} p m =
    (s : Library W P) (i : HidInterface P)
    → s.interfaces p ≡ some i
    → IsOpened i
    → Safe (λ _ t. Kept p s t) (m s)
