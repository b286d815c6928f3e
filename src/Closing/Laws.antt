-- ===== src/Closing/Laws.antt =====
-- What `hid_close` of src/hid_opening.c leaves behind.
use libhid.Base.{
  false, ℕ, ◌+◌, ◌≡◌, ◌≢◌, refl, ap, ◌∙◌, Option, none, some, inl, inr, arith, ℤ, negsuc, is_neg,
  ◌∷◌, if◌then◌else◌, Bool-cases, ◌==◌, ==_iff,
}
use libhid.Types.{
  HidReturn, success, fail_close_device, HidInterface, HidParser, Reply, close_handle,
}
use libhid.State.{Env, Library, and_then, block}
use libhid.State.Returns.{Returns, returns, bind, mono, load_then}
use libhid.State.Effect.{Effect, Effect-refl, blocks, update_self, update_ne}
use libhid.OpenList.{remove_open_device}
use libhid.Interface.{reset}
use libhid.Interface.Laws.{hid_is_opened_open, hid_is_opened_lem, hid_reset_interface_lem}
use libhid.Parsing.Preparing.{hid_reset_parser-Returns}
use libhid.Closing.{close_device, reset_held, release_parser, hid_close}

-- What closing the handle has done: at most one call of libusb.
record Hung {W P : Type 0} (i : HidInterface P) (s : Library W P) (ret : ℤ) (s' : Library W P)
    : Type 0 where
  same : s'.interfaces ≡ s.interfaces
  list : s'.open_list ≡ s.open_list
  ready : s'.initialised ≡ s.initialised
  mallocs : s'.mallocs ≡ s.mallocs
  frees : s'.frees ≡ s.frees
  unopened : i.dev_handle ≡ 0 → (ret ≡ negsuc 0) × (s'.calls ≡ s.calls)
  opened :
      i.dev_handle ≢ 0
      → (reply : Reply) × (s'.calls ≡ (close_handle i.dev_handle, reply) ∷ s.calls)
        × (ret ≡ reply.ret)

-- What `hid_close` has done: the interface is reset and off the list of open ones, its blocks are
-- freed, an open handle is closed once, and the result says whether that went well.
pub record Closed {W P : Type 0} (p : ℕ) (i : HidInterface P) (s : Library W P) (r : HidReturn)
    (s' : Library W P) : Type 0 where
  pub object : s'.interfaces p ≡ some reset
  pub others : (q : ℕ) → q ≢ p → s'.interfaces q ≡ s.interfaces q
  pub list : s'.open_list ≡ remove_open_device s.open_list p
  pub ready : s'.initialised ≡ s.initialised
  pub balance : s'.mallocs + (blocks i + s.frees) ≡ s.mallocs + s'.frees
  pub unopened : i.dev_handle ≡ 0 → (r ≡ fail_close_device) × (s'.calls ≡ s.calls)
  pub opened :
      i.dev_handle ≢ 0
      → (reply : Reply) × (s'.calls ≡ (close_handle i.dev_handle, reply) ∷ s.calls)
        × (r ≡ (if is_neg reply.ret then fail_close_device else success))

module _ {W P : Type 0} (env : Env W P) (p : ℕ) (s : Library W P) {i : HidInterface P}
    (there : p ≢ 0) (object : s.interfaces p ≡ some i) where
  close_device-Hung : Returns (Hung i s) (close_device env p s)
  unfolding and_then close_device
  close_device-Hung =
      rw (hid_is_opened_lem p s there object) (elim (Bool-cases (i.dev_handle == 0)) [
        | inl closed ↦ rw closed (
            returns (record {
              same = refl;
              list = refl;
              ready = refl;
              mallocs = refl;
              frees = refl;
              unopened = λ _. (refl, refl);
              opened = λ h. absurd (h ((==_iff i.dev_handle 0).0 closed));
            }))
        | inr open_now ↦ rw open_now (
            load_then _ p s object (
              returns (record {
                same = refl;
                list = refl;
                ready = refl;
                mallocs = refl;
                frees = refl;
                unopened = λ h. cc ((==_iff i.dev_handle 0).1 h);
                opened = λ _. (_, refl, refl);
              })))
      ])

-- What the reset of a parser that may be missing has done.
record Held {W P : Type 0} (p : ℕ) (i : HidInterface P) (s : Library W P) (s' : Library W P)
    : Type 0 where
  now : HidInterface P
  effect : Effect p i s now s'
  owned : blocks now ≡ blocks i
  silent : s'.calls ≡ s.calls

-- What `release_parser` has done.
record Released {W P : Type 0} (p : ℕ) (i : HidInterface P) (s : Library W P) (s' : Library W P)
    : Type 0 where
  object : (j : HidInterface P) × (s'.interfaces p ≡ some j)
  others : (q : ℕ) → q ≢ p → s'.interfaces q ≡ s.interfaces q
  list : s'.open_list ≡ s.open_list
  ready : s'.initialised ≡ s.initialised
  balance : s'.mallocs + (blocks i + s.frees) ≡ s.mallocs + s'.frees
  silent : s'.calls ≡ s.calls

module _ {W P : Type 0} (env : Env W P) (p : ℕ) (s : Library W P) {i : HidInterface P}
    (there : p ≢ 0) (object : s.interfaces p ≡ some i) where
  reset_held-Held :
      (o : Option (HidParser P))
      → i.hid_parser ≡ o
      → Returns (λ _ s'. Held p i s s') (reset_held env o p s)
  unfolding reset_held
  reset_held-Held none e =
      returns (record { now = i; effect = Effect-refl object; owned = refl; silent = refl })
  reset_held-Held (some q) e = mono (hid_reset_parser-Returns env p s there object e) λ _ t r.
      record {
        now = r.now;
        effect = r.effect;
        owned = omega (arith, ap block r.parser_there, ap block e, ap block r.data_kept);
        silent = r.silent;
      }

  release_parser-Released : Returns (λ _ s'. Released p i s s') (release_parser env p s)
  unfolding and_then release_parser
  release_parser-Released = load_then _ p s object (
      bind (reset_held-Held i.hid_parser refl) λ _ t h. returns (record {
        object = (h.now, h.effect.object);
        others = h.effect.others;
        list = h.effect.list;
        ready = h.effect.ready;
        balance = omega (arith, h.effect.balance, h.owned);
        silent = h.silent;
      }))

module _ {W P : Type 0} (env : Env W P) (p : ℕ) (s : Library W P) {i : HidInterface P}
    (there : p ≢ 0) (object : s.interfaces p ≡ some i) where
  -- `hid_close` of an existing interface always returns. The interface is reset, `remove_open_device`
  -- has been applied to the list, no other interface has changed, and every block that it owned is
  -- freed. For an open interface one call was made, which closes its handle, and the result is success
  -- exactly if that did not return an error; for one that is not open no call was made and the result
  -- is an error.
  pub hid_close-Closed : Returns (Closed p i s) (hid_close env p s)
  unfolding and_then hid_close
  hid_close-Closed = bind (close_device-Hung env p s there object) λ ret t hung.
      bind
        (release_parser-Released env p (record t { open_list = remove_open_device t.open_list p })
          there (ap (λ f. f p) hung.same ∙ object))
        λ _ u rel. rw (hid_reset_interface_lem p u there rel.object.1) (
          returns (record {
            object = update_self u.interfaces p (some reset);
            others = λ q h.
                update_ne u.interfaces p (some reset) q h
                ∙ (rel.others q h ∙ ap (λ f. f q) hung.same);
            list = rel.list ∙ ap (λ l. remove_open_device l p) hung.list;
            ready = rel.ready ∙ hung.ready;
            balance = omega (arith, rel.balance, hung.mallocs, hung.frees);
            unopened = λ h.
                let (failed, silent) = hung.unopened h in
                (
                  ap (λ x. if is_neg x then fail_close_device else success) failed,
                  rel.silent ∙ silent,
                );
            opened = λ h.
                let (reply, call, result) = hung.opened h in
                (
                  reply,
                  rel.silent ∙ call,
                  ap (λ x. if is_neg x then fail_close_device else success) result,
                );
          }))

module _ {W P : Type 0} (env : Env W P) (p : ℕ) (s : Library W P) {i : HidInterface P}
    (there : p ≢ 0) (object : s.interfaces p ≡ some i) (opened : i.dev_handle ≢ 0)
    (closes : (handle : ℕ) (w : W)
      → is_neg (env.usb_call (close_handle handle) w).reply.ret ≡ false) where
  close_device_succeeds :
      Returns (λ ret t. (is_neg ret ≡ false) × (t.interfaces ≡ s.interfaces)) (close_device env p s)
  unfolding and_then close_device
  close_device_succeeds =
      rw (hid_is_opened_open p s there object opened)
        (load_then _ p s object (returns (closes _ _, refl)))

  -- An open interface is closed with success where libusb closes every handle.
  pub hid_close_succeeds : Returns (λ r _. r ≡ success) (hid_close env p s)
  unfolding and_then hid_close
  hid_close_succeeds = bind close_device_succeeds λ ret t (fine, same).
      bind
        (release_parser-Released env p (record t { open_list = remove_open_device t.open_list p })
          there (ap (λ f. f p) same ∙ object))
        λ _ u rel. rw (hid_reset_interface_lem p u there rel.object.1, fine) (returns refl)
