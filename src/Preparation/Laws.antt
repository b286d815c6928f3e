-- ===== src/Preparation/Laws.antt =====
-- `hid_prepare_interface` of src/hid_preparation.c ends with a parser, or with a closed interface.
use libhid.Base.{
  ℕ, ◌≤◌, ◌≡◌, ◌≢◌, refl, sym, ap, ◌∙◌, none, some, Bytes, inl, inr, arith, ltb, Bool-cases,
}
use libhid.Types.{device_not_found, report_dsc_size, HidReturn, success, HidInterface}
use libhid.State.{Env, Library, M, and_then, block}
use libhid.State.Handles.{Quiet, Dropped, Quiet-trans, Quiet-Dropped}
use libhid.State.Returns.{Returns, returns, bind, load_then, deref_then}
use libhid.State.Effect.{Effect, Effect-trans, Effect-refl, Effect-store, Effect-usb}
use libhid.OpenList.{remove_open_device}
use libhid.Interface.{reset}
use libhid.Interface.Laws.{hid_is_opened_open}
use libhid.Parsing.Preparing.{
  identity, Prepared, raw_size, HasParser, hid_init_parser-Returns, hid_prepare_parser-Returns,
}
use libhid.Closing.{hid_close}
use libhid.Closing.Laws.{Closed, hid_close-Closed}
use libhid.Preparation.{
  keep_size, described, fetched, failed, short, hid_prepare_hid_descriptor,
  hid_prepare_report_descriptor, or_close, hid_prepare_interface, Transfer, complete,
}

-- Success gives an interface with its handle, its device and a parser, anything else one that is
-- reset; the result never says that no device was found.
pub record Readied {W P : Type 0} (p : ℕ) (i : HidInterface P) (s : Library W P) (r : HidReturn)
    (s' : Library W P) : Type 0 where
  pub now : HidInterface P
  pub effect : Effect p i s now s'
  pub other : r ≢ device_not_found
  pub quiet : r ≡ success → Quiet s s'
  pub shut : r ≢ success → Dropped s s'
  pub done :
      r ≡ success → (now.dev_handle ≡ i.dev_handle) × HasParser now × (identity now ≡ identity i)
  pub undone : r ≢ success → now ≡ reset

-- Closing an interface that is not on the list of open ones touches nothing else.
pub Closed-Effect :
    {W P : Type 0} {p : ℕ} {i : HidInterface P} {s t : Library W P} {r : HidReturn}
    → Closed p i s r t
    → remove_open_device s.open_list p ≡ s.open_list
    → Effect p i s reset t
Closed-Effect c absent = record {
  object = c.object;
  others = c.others;
  list = c.list ∙ absent;
  ready = c.ready;
  balance = omega (arith, c.balance);
}

module _ {W P : Type 0} (env : Env W P) (p : ℕ) (s : Library W P) {i : HidInterface P}
    (there : p ≢ 0) (absent : remove_open_device s.open_list p ≡ s.open_list)
    (i_opened : i.dev_handle ≢ 0) where
  give_up :
      (r : HidReturn) {j : HidInterface P} (t : Library W P)
      → r ≢ success
      → r ≢ device_not_found
      → Quiet s t
      → j.dev_handle ≢ 0
      → Effect p i s j t
      → Returns (Readied p i s) (and_then (hid_close env p t) (λ _ u. some (r, u)))
  unfolding and_then
  give_up r t bad other quiet opened e = bind (hid_close-Closed env p t there e.object) λ _ u c.
      returns (record {
        now = reset;
        effect =
            Effect-trans e
              (Closed-Effect c (ap (λ l. remove_open_device l p) e.list ∙ (absent ∙ sym e.list)));
        other = other;
        quiet = λ h. absurd (bad h);
        shut = λ _.
            let (reply, calls, result) = c.opened opened in
            Quiet-Dropped s t u quiet (rw calls (omega arith));
        done = λ h. absurd (bad h);
        undone = λ _. refl;
      })

  or_close-Readied :
      (r : HidReturn) (next : M W P HidReturn) (t : Library W P)
      → (now : Prepared p i s r t)
      → (r ≡ success → HasParser now.now → Returns (Readied p i s) (next t))
      → Returns (Readied p i s) (or_close env p r next t)
  unfolding or_close
  or_close-Readied HidReturn.success next t now rest = rest refl (now.parser refl)
  or_close-Readied ret next t now rest =
      give_up ret t (λ h. cc) now.other now.quiet (λ z. i_opened (sym now.handle ∙ z)) now.effect

-- Any result goes with an interface that has kept its handle and its parser.
kept :
    {W P : Type 0} {p : ℕ} {i j : HidInterface P} {s t : Library W P} (r : HidReturn)
    → r ≢ device_not_found
    → Quiet s t
    → Effect p i s j t
    → (j.dev_handle ≡ i.dev_handle) × (identity j ≡ identity i)
    → HasParser j
    → Prepared p i s r t
kept r other quiet e (same, identified) h = record {
  effect = e;
  handle = same;
  identified = identified;
  other = other;
  quiet = quiet;
  parser = λ _. h;
  now = _;
}

described_found : (x : Transfer) → described x ≢ device_not_found
unfolding described
described_found failed h = cc
described_found short h = cc
described_found complete h = cc

fetched_found : (x : Transfer) → fetched x ≢ device_not_found
unfolding fetched
fetched_found failed h = cc
fetched_found short h = cc
fetched_found complete h = cc

module _ {W P : Type 0} (p : ℕ) (s : Library W P) {i : HidInterface P}
    (object : s.interfaces p ≡ some i) (h : HasParser i) where
  keep_size-Prepared :
      (x : Transfer) (buffer : Bytes) (r : HidReturn)
      → r ≢ device_not_found
      → Returns (λ _ t. Prepared p i s r t) (keep_size x p i buffer s)
  unfolding and_then keep_size
  keep_size-Prepared complete buffer r other = deref_then _ i.hid_parser s h.parser_there (
      returns (
        kept r other refl (Effect-store object _ (omega (arith, ap block h.parser_there)))
          (refl, refl)
          (record {
            hid_data = h.hid_data;
            data_there = h.data_there;
            hid_parser = _;
            parser_there = refl;
          })))
  keep_size-Prepared _ buffer r other =
      returns (kept r other refl (Effect-refl object) (refl, refl) h)

module _ {W P : Type 0} (env : Env W P) (p : ℕ) (s : Library W P) {i : HidInterface P}
    (object : s.interfaces p ≡ some i) (h : HasParser i) where
  pub hid_prepare_hid_descriptor-Prepared :
      Returns (Prepared p i s) (hid_prepare_hid_descriptor env p s)
  unfolding and_then hid_prepare_hid_descriptor
  hid_prepare_hid_descriptor-Prepared = load_then _ p s object (
      bind (keep_size-Prepared p _ object h _ _ _ (described_found _)) λ _ t k. returns (record {
        now = k.now;
        effect = Effect-trans (Effect-usb object _ _) k.effect;
        handle = k.handle;
        identified = k.identified;
        other = k.other;
        quiet = k.quiet;
        parser = k.parser;
      }))

  pub hid_prepare_report_descriptor-Prepared :
      Returns
        (λ r t. (k : Prepared p i s r t) × (r ≡ success → raw_size k.now ≤ report_dsc_size))
        (hid_prepare_report_descriptor env p s)
  unfolding and_then hid_prepare_report_descriptor kept
  hid_prepare_report_descriptor-Prepared = load_then _ p s object (
      deref_then _ i.hid_parser s h.parser_there
        (elim (Bool-cases (ltb report_dsc_size h.hid_parser.report_desc_size)) [
          | inl big ↦
              rw big (returns (kept _ (λ r. cc) refl (Effect-refl object) (refl, refl) h, λ r. cc))
          | inr fits ↦
              let bound : h.hid_parser.report_desc_size ≤ report_dsc_size = ground arith in
              rw fits (
                returns (
                  (kept _ (fetched_found _) refl
                      (Effect-trans (Effect-usb object _ _)
                        (Effect-store object _ (omega (arith, ap block h.parser_there))))
                      (refl, refl)
                      (record {
                        hid_data = h.hid_data;
                        data_there = h.data_there;
                        hid_parser = _;
                        parser_there = refl;
                      })),
                  λ _. bound,
                ))
        ]))

after :
    {W P : Type 0} {p : ℕ} {i : HidInterface P} {s t u : Library W P} {r r' : HidReturn}
    (k : Prepared p i s r t)
    → Prepared p k.now t r' u
    → Prepared p i s r' u
after {s} {t} {u} k l = record {
  now = l.now;
  effect = Effect-trans k.effect l.effect;
  handle = l.handle ∙ k.handle;
  identified = l.identified ∙ k.identified;
  other = l.other;
  quiet = Quiet-trans s t u k.quiet l.quiet;
  parser = l.parser;
}

module _ {W P : Type 0} (env : Env W P) (p : ℕ) (s : Library W P) {i : HidInterface P}
    (there : p ≢ 0) (object : s.interfaces p ≡ some i) where
  -- `hid_prepare_interface` of an interface that has a handle and no parser, and is not on the list,
  -- always returns, and never that no device was found. With success the handle and the device have
  -- stayed and the parser is there; with any other result the interface is reset. Nothing but the
  -- interface has changed, and every block that was allocated is freed or owned by it. That it returns says of the raw descriptor's dump that it reads no element
  -- past the array and writes none past its buffers.
  pub hid_prepare_interface-Readied :
      i.dev_handle ≢ 0
      → i.hid_data ≡ none
      → i.hid_parser ≡ none
      → remove_open_device s.open_list p ≡ s.open_list
      → Returns (Readied p i s) (hid_prepare_interface env p s)
  unfolding and_then hid_prepare_interface after
  hid_prepare_interface-Readied opened no_data no_parser absent =
      rw (hid_is_opened_open p s there object opened) (
        bind (hid_init_parser-Returns env p s there object opened no_data no_parser) λ r1 t1 k1.
          or_close-Readied env p s there absent opened r1 _ t1 k1 λ _ h1.
            bind (hid_prepare_hid_descriptor-Prepared env p t1 k1.effect.object h1) λ r2 t2 l2.
              let k2 = after k1 l2 in
              or_close-Readied env p s there absent opened r2 _ t2 k2 λ _ h2.
                bind (hid_prepare_report_descriptor-Prepared env p t2 k2.effect.object h2)
                  λ r3 t3 (l3, bound).
                    let k3 = after k2 l3 in
                    or_close-Readied env p s there absent opened r3 _ t3 k3 λ good h3.
                      bind
                        (hid_prepare_parser-Returns env p t3 there k3.effect.object
                          (λ z. opened ((sym k3.handle) ∙ z)) h3 (bound good))
                        λ r4 t4 (l4, _).
                          let k4 = after k3 l4 in
                          or_close-Readied env p s there absent opened r4 _ t4 k4 λ _ h4.
                            returns (record {
                              now = k4.now;
                              effect = k4.effect;
                              other = λ h. cc;
                              quiet = λ _. k4.quiet;
                              shut = λ h. absurd (h refl);
                              done = λ _. (k4.handle, h4, k4.identified);
                              undone = λ h. absurd (h refl);
                            }))
