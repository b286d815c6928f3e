-- ===== src/State/Effect.antt =====
-- What a call may do to the one interface that it is given, and what it leaves alone.
use libhid.Base.{ℕ, ◌+◌, some, ◌≡◌, ◌≢◌, refl, ◌∙◌, arith, ==_refl, List}
use libhid.Types.{HidInterface, UsbCall, Reply}
use libhid.State.{Library, update, block}

-- The blocks that an interface owns.
abbrev pub blocks : {P : Type 0} → HidInterface P → ℕ
blocks i = block i.hid_parser + block i.hid_data

-- The interface `p` was `i` and is `i'`; no other interface, not the list of open interfaces and
-- not `initialised` has changed; and each block that was allocated is freed or owned by `i'`.
pub record Effect {W P : Type 0} (p : ℕ) (i : HidInterface P) (s : Library W P)
    (i' : HidInterface P) (s' : Library W P) : Type 0 where
  pub object : s'.interfaces p ≡ some i'
  pub others : (q : ℕ) → q ≢ p → s'.interfaces q ≡ s.interfaces q
  pub list : s'.open_list ≡ s.open_list
  pub ready : s'.initialised ≡ s.initialised
  pub balance : s'.mallocs + (blocks i + s.frees) ≡ s.mallocs + (blocks i' + s'.frees)

module _ {ℓ} {A : Type ℓ} where
  pub update_self : (f : ℕ → A) (p : ℕ) (a : A) → update f p a p ≡ a
  update_self f p a = rw (==_refl p)

  pub update_ne : (f : ℕ → A) (p : ℕ) (a : A) (q : ℕ) → q ≢ p → update f p a q ≡ f q
  update_ne f p a q h = ground arith

module _ {W P : Type 0} {p : ℕ} {i j k : HidInterface P} {s t u : Library W P} where
  pub Effect-trans : Effect p i s j t → Effect p j t k u → Effect p i s k u
  Effect-trans e f = record {
    object = f.object;
    others = λ q h. f.others q h ∙ e.others q h;
    list = f.list ∙ e.list;
    ready = f.ready ∙ e.ready;
    balance = omega arith;
  }

module _ {W P : Type 0} {p : ℕ} {i : HidInterface P} {s : Library W P}
    (object : s.interfaces p ≡ some i) where
  pub Effect-refl : Effect p i s i s
  Effect-refl = record {
    object = object;
    others = λ q h. refl;
    list = refl;
    ready = refl;
    balance = refl;
  }

  -- A call of libusb.
  pub Effect-usb :
      (w : W) (c : List (UsbCall × Reply)) → Effect p i s i (record s { world = w; calls = c })
  Effect-usb w c = record {
    object = object;
    others = λ q h. refl;
    list = refl;
    ready = refl;
    balance = refl;
  }

  -- An assignment to the interface, after the world has moved on and blocks have come and gone.
  pub Effect-after :
      (j : HidInterface P) (t : Library W P)
      → ((q : ℕ) → q ≢ p → t.interfaces q ≡ s.interfaces q)
      → (t.open_list ≡ s.open_list)
        × (t.initialised ≡ s.initialised)
        × (t.mallocs + (blocks i + s.frees) ≡ s.mallocs + (blocks j + t.frees))
      → Effect p i s j (record t { interfaces = update t.interfaces p (some j) })
  Effect-after j t others (list, ready, balance) = record {
    object = update_self t.interfaces p (some j);
    others = λ q h. update_ne t.interfaces p (some j) q h ∙ others q h;
    list = list;
    ready = ready;
    balance = balance;
  }

  -- An assignment to fields that own no block.
  pub Effect-store :
      (j : HidInterface P)
      → blocks j ≡ blocks i
      → Effect p i s j (record s { interfaces = update s.interfaces p (some j) })
  Effect-store j same = Effect-after j s (λ q h. refl) (refl, refl, omega arith)
