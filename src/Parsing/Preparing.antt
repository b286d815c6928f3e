-- ===== src/Parsing/Preparing.antt =====
-- The calls that get an opened interface its parser: `hid_init_parser`, `hid_reset_parser` and
-- `hid_prepare_parser` of src/hid_parsing.c.
use libhid.Base.{
  ℕ, ℤ, Bytes, ◌≤◌, false, Option, sym, ltb, suc, ◌≡◌, ◌≢◌, refl, ap, ◌∙◌, none, some, inl, inr,
  arith, Option-cases, Bool-cases, ◌==◌,
}
use libhid.Parsing.Dump.{elements, elements-AllBytes, dump_descriptor-fits}
use libhid.Types.{
  Device, device_not_found, report_dsc_size, HidReturn, success, HidInterface, HidData, HidParser,
}
use libhid.State.{Env, Library, update, and_then, block}
use libhid.State.Returns.{Returns, returns, known_then, load_then, deref_then, bind}
use libhid.State.Effect.{
  Effect, Effect-trans, Effect-store, Effect-after, Effect-refl, update_self, update_ne,
}
use libhid.State.Handles.{Quiet}
use libhid.Interface.Laws.{hid_is_opened_lem, hid_is_opened_open}
use libhid.Parsing.{
  dump_raw, restarted, allocate_data, allocate_parser, hid_init_parser, hid_reset_parser,
  hid_prepare_parser,
}

-- What the search for a device has put into an interface, and the interface's number.
abbrev pub identity :
    {P : Type 0} → HidInterface P → record { device : Option Device; id : Bytes; number : ℤ }
identity i = record { device = i.device; id = i.id; number = i.interface }

-- The size of the raw descriptor that the parser keeps.
abbrev pub parser_size : {P : Type 0} → Option (HidParser P) → ℕ
parser_size none = 0
parser_size (some q) = q.report_desc_size

abbrev pub raw_size : {P : Type 0} → HidInterface P → ℕ
raw_size i = parser_size i.hid_parser

-- A descriptor that fits into its array is dumped.
dump_raw-fits :
    {W P : Type 0} (q : HidParser P) (s : Library W P)
    → q.report_desc_size ≤ report_dsc_size
    → dump_raw q s ≡ some (tt, s)
unfolding dump_raw
dump_raw-fits q s short =
    let within : ltb report_dsc_size q.report_desc_size ≡ false = ground arith in
    let (lines, e) =
      dump_descriptor-fits (elements q.report_desc_size q.report_desc)
        (elements-AllBytes q.report_desc_size q.report_desc) in
    rw (within, e, dump_raw) refl

-- Both of the parser's structures are there.
pub record HasParser {P : Type 0} (i : HidInterface P) : Type 0 where
  pub hid_data : HidData
  pub data_there : i.hid_data ≡ some hid_data
  pub hid_parser : HidParser P
  pub parser_there : i.hid_parser ≡ some hid_parser

-- What a call that prepares the parser has done: the handle and the device stay, success gives a
-- parser, and the result never says that no device was found.
pub record Prepared {W P : Type 0} (p : ℕ) (i : HidInterface P) (s : Library W P) (r : HidReturn)
    (s' : Library W P) : Type 0 where
  pub now : HidInterface P
  pub effect : Effect p i s now s'
  pub handle : now.dev_handle ≡ i.dev_handle
  pub identified : identity now ≡ identity i
  pub quiet : Quiet s s'
  pub other : r ≢ device_not_found
  pub parser : r ≡ success → HasParser now

module _ {W P : Type 0} (env : Env W P) (p : ℕ) (s : Library W P) {i : HidInterface P}
    (there : p ≢ 0) (object : s.interfaces p ≡ some i) (opened : i.dev_handle ≢ 0) where
  pub hid_init_parser-Returns :
      i.hid_data ≡ none → i.hid_parser ≡ none → Returns (Prepared p i s) (hid_init_parser env p s)
  unfolding and_then hid_init_parser allocate_data allocate_parser
  hid_init_parser-Returns no_data no_parser =
      rw (hid_is_opened_open p s there object opened)
        (elim (Option-cases (env.malloc_data s.world).block) [
          | inl full ↦
              rw (full, allocate_data)
                (load_then _ p _ object (
                  returns (record {
                    now = record i { hid_data = none };
                    effect =
                        Effect-after object (record i { hid_data = none })
                          (record s { world = (env.malloc_data s.world).after }) (λ q h. refl)
                          (refl, refl, rw (no_data) (omega arith));
                    handle = refl;
                    identified = refl;
                    quiet = refl;
                    other = λ h. cc;
                    parser = λ h. cc;
                  })))
          | inr (d, e) ↦
              rw (e, allocate_data)
                (load_then _ p _ object
                  (elim (Option-cases (env.malloc_parser (env.malloc_data s.world).after).block) [
                    | inl full ↦
                        rw (full, allocate_parser)
                          (load_then _ p _ (update_self s.interfaces p _) (
                            returns (record {
                              now = record i { hid_data = some d; hid_parser = none };
                              effect =
                                  Effect-after object _
                                    (record s {
                                      world =
                                          (env.malloc_parser (env.malloc_data s.world).after).after;
                                      interfaces =
                                          update s.interfaces p
                                            (some (record i { hid_data = some d }));
                                      mallocs = suc s.mallocs;
                                    })
                                    (update_ne s.interfaces p _)
                                    (refl, refl, rw (no_data, no_parser) (omega arith));
                              handle = refl;
                              identified = refl;
                              quiet = refl;
                              other = λ h. cc;
                              parser = λ h. cc;
                            })))
                    | inr (q, e') ↦
                        rw (e', allocate_parser)
                          (load_then _ p _ (update_self s.interfaces p _) (
                            returns (record {
                              now = record i { hid_data = some d; hid_parser = some q };
                              effect =
                                  Effect-after object _
                                    (record s {
                                      world =
                                          (env.malloc_parser (env.malloc_data s.world).after).after;
                                      interfaces =
                                          update s.interfaces p
                                            (some (record i { hid_data = some d }));
                                      mallocs = suc (suc s.mallocs);
                                    })
                                    (update_ne s.interfaces p _)
                                    (refl, refl, rw (no_data, no_parser) (omega arith));
                              handle = refl;
                              identified = refl;
                              quiet = refl;
                              other = λ h. cc;
                              parser = λ h. record {
                                hid_data = d;
                                data_there = refl;
                                hid_parser = q;
                                parser_there = refl;
                              };
                            })))
                  ]))
        ])

-- What `hid_reset_parser` has done, whether or not the interface is open.
pub record Renewed {W P : Type 0} (p : ℕ) (i : HidInterface P) (s : Library W P) (s' : Library W P)
    : Type 0 where
  pub now : HidInterface P
  pub effect : Effect p i s now s'
  pub handle : now.dev_handle ≡ i.dev_handle
  pub identified : identity now ≡ identity i
  pub data_kept : now.hid_data ≡ i.hid_data
  pub hid_parser : HidParser P
  pub parser_there : now.hid_parser ≡ some hid_parser
  pub silent : s'.calls ≡ s.calls
  pub sized : raw_size now ≡ raw_size i

module _ {W P : Type 0} (env : Env W P) (p : ℕ) (s : Library W P) {i : HidInterface P}
    (there : p ≢ 0) (object : s.interfaces p ≡ some i) where
  pub hid_reset_parser-Returns :
      {q : HidParser P}
      → i.hid_parser ≡ some q
      → Returns (λ _ s'. Renewed p i s s') (hid_reset_parser env p s)
  unfolding and_then hid_reset_parser
  hid_reset_parser-Returns {q} e =
      rw (hid_is_opened_lem p s there object) (elim (Bool-cases (i.dev_handle == 0)) [
        | inl closed ↦ rw closed (
            returns (record {
              now = i;
              effect = Effect-refl object;
              handle = refl;
              identified = refl;
              data_kept = refl;
              hid_parser = q;
              parser_there = e;
              silent = refl;
              sized = refl;
            }))
        | inr open_now ↦ rw open_now (
            load_then _ p s object (
              deref_then _ i.hid_parser s e (
                returns (record {
                  now = record i { hid_parser = some (restarted env q) };
                  effect = Effect-store object _ (omega (arith, ap block e));
                  handle = refl;
                  identified = refl;
                  data_kept = refl;
                  hid_parser = restarted env q;
                  parser_there = refl;
                  silent = refl;
                  sized = sym (ap parser_size e);
                }))))
      ])

  pub hid_prepare_parser-Returns :
      i.dev_handle ≢ 0
      → HasParser i
      → raw_size i ≤ report_dsc_size
      → Returns (λ r t. (k : Prepared p i s r t) × (r ≡ success)) (hid_prepare_parser env p s)
  unfolding and_then hid_prepare_parser
  hid_prepare_parser-Returns opened h short = rw (hid_is_opened_open p s there object opened) (
      bind (hid_reset_parser-Returns h.parser_there) λ _ t r. load_then _ p t r.effect.object (
        deref_then _ r.now.hid_parser t r.parser_there (
          known_then _
            (dump_raw-fits r.hid_parser t
              (omega (arith, short, r.sized, ap parser_size r.parser_there)))
            (deref_then _ r.now.hid_data t (r.data_kept ∙ h.data_there) (
              let parsed = env.hid_parse r.hid_parser h.hid_data in
              returns (
                (
                  record {
                    now = record (r.now) {
                      hid_parser = some parsed.parser;
                      hid_data = some parsed.hid_data;
                    };
                    effect = Effect-trans r.effect (
                        Effect-store r.effect.object _ (
                          omega (
                            arith,
                            ap block r.parser_there,
                            ap block (r.data_kept ∙ h.data_there),
                          )));
                    handle = r.handle;
                    identified = r.identified;
                    quiet = rw r.silent refl;
                    other = λ h. cc;
                    parser = λ _. record {
                      hid_data = parsed.hid_data;
                      data_there = refl;
                      hid_parser = parsed.parser;
                      parser_there = refl;
                    };
                  },
                  refl,
                )))))))
