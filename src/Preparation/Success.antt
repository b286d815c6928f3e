-- ===== src/Preparation/Success.antt =====
-- When `hid_prepare_interface` of src/hid_preparation.c succeeds.
use libhid.Base.{
  ℕ, ℤ, pos, ◌+◌, ◌*◌, ◌^◌, ◌≤◌, ◌≡◌, ◌≢◌, refl, sym, ap, ◌∙◌, none, some, false, ltb, arith, subst,
}
use libhid.Types.{
  HidReturn, success, HidData, HidParser, HidInterface, report_dsc_size, control_in,
  claim_interface,
}
use libhid.State.{Env, Library, M, and_then}
use libhid.State.Effect.{update_self}
use libhid.State.Returns.{Returns, returns, both, bind, load_then, deref_then}
use libhid.Interface.Laws.{same_object, hid_is_opened_open}
use libhid.Parsing.{allocate_data, allocate_parser, hid_init_parser}
use libhid.Parsing.Preparing.{
  HasParser, raw_size, parser_size, hid_init_parser-Returns, hid_prepare_parser-Returns,
}
use libhid.Preparation.{
  desc_size, judge, described, fetched, complete, keep_size, or_close, hid_prepare_hid_descriptor,
  hid_prepare_report_descriptor, hid_prepare_interface,
}
use libhid.Preparation.Laws.{
  hid_prepare_hid_descriptor-Prepared, hid_prepare_report_descriptor-Prepared,
}

-- A device that grants every claim and answers every control transfer in full, with a HID descriptor
-- that announces a report descriptor that fits, and a malloc that has room.
pub record Cooperates {W P : Type 0} (env : Env W P) : Type 0 where
  pub granted :
      (handle : ℕ) (interface : ℤ) (w : W)
      → (env.usb_call (claim_interface handle interface) w).reply.ret ≡ pos 0
  pub answered :
      (handle kind request value : ℕ) (index : ℤ) (size timeout : ℕ) (w : W)
      → (env.usb_call (control_in handle kind request value index size timeout) w).reply.ret
        ≡ pos size
  pub small :
      (handle timeout : ℕ) (index : ℤ) (w : W)
      → let call =
          control_in handle
            (env.usb_endpoint_in + 1)
            env.usb_req_get_descriptor
            (env.usb_dt_hid * 2 ^ 8 + 0)
            index
            9
            timeout in
        desc_size (env.usb_call call w).reply.buffer ≤ report_dsc_size
  pub room_for_data : (w : W) → (d : HidData) × ((env.malloc_data w).block ≡ some d)
  pub room_for_parser : (w : W) → (q : HidParser P) × ((env.malloc_parser w).block ≡ some q)

judge_full : (n : ℕ) → judge (pos n) n ≡ complete
unfolding judge
judge_full n = let e : ltb n n ≡ false = ground arith in rw e refl

module _ {W P : Type 0} (env : Env W P) (c : Cooperates env) (p : ℕ) (s : Library W P)
    {i : HidInterface P} (there : p ≢ 0) (object : s.interfaces p ≡ some i)
    (opened : i.dev_handle ≢ 0) where
  hid_init_parser_succeeds : Returns (λ r _. r ≡ success) (hid_init_parser env p s)
  unfolding and_then hid_init_parser allocate_data allocate_parser
  hid_init_parser_succeeds =
      let (d, e) = c.room_for_data s.world in
      let (q, f) = c.room_for_parser (env.malloc_data s.world).after in
      rw (hid_is_opened_open p s there object opened, e, allocate_data)
        (load_then _ p _ object
          (rw (f, allocate_parser) (load_then _ p _ (update_self s.interfaces p _) (returns refl))))

module _ {W P : Type 0} (env : Env W P) (c : Cooperates env) (p : ℕ) (s : Library W P)
    {i : HidInterface P} (object : s.interfaces p ≡ some i) (h : HasParser i) where
  hid_prepare_hid_descriptor_succeeds :
      Returns
        (λ r t.
          (r ≡ success)
          × ((now : HidInterface P) → t.interfaces p ≡ some now → raw_size now ≤ report_dsc_size))
        (hid_prepare_hid_descriptor env p s)
  unfolding and_then hid_prepare_hid_descriptor keep_size described
  hid_prepare_hid_descriptor_succeeds = load_then _ p s object (
      rw (c.answered, judge_full 9, described, keep_size, h.parser_there)
        (returns (
          refl,
          λ now at.
              subst (λ j. raw_size j ≤ report_dsc_size)
                (same_object _ now (sym (update_self s.interfaces p _) ∙ at)) (c.small _ _ _ _),
        )))

  hid_prepare_report_descriptor_succeeds :
      raw_size i ≤ report_dsc_size
      → Returns (λ r _. r ≡ success) (hid_prepare_report_descriptor env p s)
  unfolding and_then hid_prepare_report_descriptor fetched
  hid_prepare_report_descriptor_succeeds fits = load_then _ p s object (
      deref_then _ i.hid_parser s h.parser_there (
        let size = h.hid_parser.report_desc_size in
        let bound : size ≤ report_dsc_size = omega (arith, fits, ap parser_size h.parser_there) in
        let within : ltb report_dsc_size size ≡ false = ground arith in
        rw (within, c.answered, judge_full size) (returns refl)))

-- A result that is success goes on to the next step.
go_on :
    {W P : Type 0} {Q : HidReturn → Library W P → Type 0} (env : Env W P) (p : ℕ) {r : HidReturn}
    (next : M W P HidReturn) {t : Library W P}
    → r ≡ success
    → Returns Q (next t)
    → Returns Q (or_close env p r next t)
unfolding or_close
go_on env p next e rest = rw (e, or_close) rest

module _ {W P : Type 0} (env : Env W P) (c : Cooperates env) (p : ℕ) (s : Library W P)
    {i : HidInterface P} (there : p ≢ 0) (object : s.interfaces p ≡ some i)
    (opened : i.dev_handle ≢ 0) where
  pub hid_prepare_interface_succeeds :
      i.hid_data ≡ none
      → i.hid_parser ≡ none
      → Returns (λ r _. r ≡ success) (hid_prepare_interface env p s)
  unfolding and_then hid_prepare_interface
  hid_prepare_interface_succeeds no_data no_parser =
      rw (hid_is_opened_open p s there object opened) (
        bind
          (both (hid_init_parser-Returns env p s there object opened no_data no_parser)
            (hid_init_parser_succeeds env c p s there object opened))
          λ r1 t1 (k1, e1).
            let h1 = k1.parser e1 in
            go_on env p _ e1 (
              bind
                (both (hid_prepare_hid_descriptor-Prepared env p t1 k1.effect.object h1)
                  (hid_prepare_hid_descriptor_succeeds env c p t1 k1.effect.object h1))
                λ r2 t2 (l2, (e2, fits)).
                  let h2 = l2.parser e2 in
                  go_on env p _ e2 (
                    bind
                      (both (hid_prepare_report_descriptor-Prepared env p t2 l2.effect.object h2) (
                        hid_prepare_report_descriptor_succeeds env c p t2 l2.effect.object h2
                          (fits l2.now l2.effect.object)))
                      λ r3 t3 ((l3, bound), e3). go_on env p _ e3 (
                        bind
                          (hid_prepare_parser-Returns env p t3 there l3.effect.object
                            (λ z. opened (sym k1.handle ∙ (sym l2.handle ∙ (sym l3.handle ∙ z))))
                            (l3.parser e3) (bound e3))
                          λ r4 t4 (l4, e4). go_on env p _ e4 (returns refl)))))
