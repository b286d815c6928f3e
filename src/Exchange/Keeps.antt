-- ===== src/Exchange/Keeps.antt =====
-- What the calls of src/hid_exchange.c, with those of src/hid_parsing.c that they make, leave of an
-- open interface: it stays open, with its parser, and nothing else of the library changes.
use libhid.Base.{
  ℕ, arith, ◌*◌, ◌%◌, ◌^◌, ◌≢◌, refl, Bool, not, Option, none, some, List, Bytes, inl, inr,
  Option-cases, if◌then◌else◌, pos, eq_ℤ, ltb, length,
}
use libhid.Types.{HidInterface, HidData, Reply}
use libhid.State.{Env, Library, and_then, update, load-some}
use libhid.State.Safe.{faults, gives, run_bind, run_if, run_deref, run_known}
use libhid.Interface.Laws.{hid_is_opened_open}
use libhid.Parsing.{
  fill_nodes, hid_prepare_parse_path, hid_find_object, report_missing, hid_get_report_size,
  hid_extract_value,
}
use libhid.FormatPath.{item_size, hid_format_path}
use libhid.Opening.Outcome.{IsOpened}
use libhid.Opening.Kept.{Keeps, Kept-trans, Kept-same, Kept-store, go_on, with_data, with_parser}
use libhid.Exchange.{
  item_feature, look_up, receive, send, item_received, hid_get_item_value, hid_interrupt_read,
  hid_interrupt_write, hid_set_idle,
}

module _ {W P : Type 0} (env : Env W P) (p : ℕ) (there : p ≢ 0) where
  path-Keeps :
      (path : List ℕ) (depth : ℕ) → Keeps {W = W} {P = P} p (hid_prepare_parse_path p path depth)
  unfolding and_then hid_prepare_parse_path
  path-Keeps path depth s i object opened = run_known _ (load-some p s object) (
      run_deref _ i.hid_data s λ d _. run_deref _ (fill_nodes path depth 0 d.nodes) s λ nodes _.
        gives (
          Kept-store object opened _
            (with_data opened (record d { nodes = nodes; path_size = depth % 2 ^ 8 }))))

  missing-Keeps : (path : List ℕ) (depth : ℕ) → Keeps p (report_missing env path depth)
  unfolding report_missing
  missing-Keeps path depth s i object opened =
      elim (Option-cases (env.malloc_chars (depth * item_size) s.world).block) [
        | inl full ↦
            rw (full, report_missing) (gives (Kept-same object opened _ refl refl refl refl refl))
        | inr (b, got) ↦
            elim (Option-cases (hid_format_path (some b) (depth * item_size) path depth)) [
              | inl over ↦ rw (got, over, report_missing) faults
              | inr (r, fits) ↦
                  rw (got, fits, report_missing)
                    (gives (Kept-same object opened _ refl refl (omega arith) refl refl))
            ]
      ]

  find-Keeps : (path : List ℕ) (depth : ℕ) → Keeps p (hid_find_object env p path depth)
  unfolding and_then hid_find_object
  find-Keeps path depth s i object opened =
      run_known _ (hid_is_opened_open p s there object opened.handle) (
        run_bind (path-Keeps path depth s i object opened) λ _ t k.
          run_known _ (load-some p t k.object) (
            run_deref _ k.now.hid_parser t λ q _. run_deref _ k.now.hid_data t λ d _.
              let r = env.find_object q d in
              let j : HidInterface P = record (k.now) {
                hid_parser = some r.parser;
                hid_data = some r.hid_data;
              } in
              let u : Library W P = record t { interfaces = update t.interfaces p (some j) } in
              let open_j : IsOpened j = with_data (with_parser k.opened r.parser) r.hid_data in
              let l = Kept-trans k (Kept-store k.object k.opened j open_j) in
              run_if r.found _ _ u (gives l) (
                run_bind (missing-Keeps path depth u l.now l.object l.opened)
                  λ _ _ m. gives (Kept-trans l m))))

  look_up-Keeps : (item : ℕ) (path : List ℕ) (depth : ℕ) → Keeps p (look_up env p item path depth)
  unfolding and_then look_up
  look_up-Keeps item path depth s i object opened = run_known _ (load-some p s object) (
      run_deref _ i.hid_data s λ d _.
        let d' : HidData = record d { item_type = item; report_id = 0 } in
        let k = Kept-store object opened (record i { hid_data = some d' }) (with_data opened d') in
        run_bind (go_on k (find-Keeps path depth _ k.now k.object k.opened)) λ _ u l.
          run_known _ (load-some p u l.object) (run_deref _ l.now.hid_data u λ e _. gives l))

  pub receive-Keeps :
      (item rt : ℕ) (path : List ℕ) (depth : ℕ) (buffer : Bool) (size : ℕ)
      → Keeps p (receive env item rt p path depth buffer size)
  unfolding and_then receive
  receive-Keeps item rt path depth buffer size s i object opened =
      run_if (not buffer) _ _ s (gives (Kept-same object opened s refl refl refl refl refl)) (
        run_known _ (hid_is_opened_open p s there object opened.handle) (
          run_bind (look_up-Keeps item path depth s i object opened)
            λ _ t k. gives (Kept-trans k (Kept-same k.object k.opened _ refl refl refl refl refl))))

  pub send-Keeps :
      (item rt : ℕ) (path : List ℕ) (depth : ℕ) (buffer : Option Bytes) (size : ℕ)
      → Keeps p (send env item rt p path depth buffer size)
  unfolding and_then send
  send-Keeps item rt path depth none size s i object opened =
      gives (Kept-same object opened s refl refl refl refl refl)
  send-Keeps item rt path depth (some bytes) size s i object opened =
      run_known _ (hid_is_opened_open p s there object opened.handle) (
        run_bind (look_up-Keeps item path depth s i object opened)
          λ _ t k. gives (Kept-trans k (Kept-same k.object k.opened _ refl refl refl refl refl)))

  size-Keeps :
      (report_id report_type : ℕ) → Keeps p (hid_get_report_size env p report_id report_type)
  unfolding and_then hid_get_report_size
  size-Keeps report_id report_type s i object opened =
      run_known _ (hid_is_opened_open p s there object opened.handle) (
        run_known _ (load-some p s object) (
          run_deref _ i.hid_parser s λ q _.
            let r = env.get_report_offset q report_id report_type in
            let k = Kept-store object opened _ (with_parser opened r.parser) in
            run_deref _ r.entry _ λ n _. gives k))

  extract-Keeps :
      (buffer : Option Bytes) (value : Bool) → Keeps p (hid_extract_value env p buffer value)
  unfolding and_then hid_extract_value
  extract-Keeps none value s i object opened =
      run_known _ (hid_is_opened_open p s there object opened.handle)
        (gives (Kept-same object opened s refl refl refl refl refl))
  extract-Keeps (some bytes) value s i object opened =
      run_known _ (hid_is_opened_open p s there object opened.handle) (
        run_if (not value) _ _ s (gives (Kept-same object opened s refl refl refl refl refl)) (
          run_known _ (load-some p s object) (
            run_deref _ i.hid_data s λ d _.
              gives (Kept-store object opened _ (with_data opened (env.get_value bytes d))))))

  received-Keeps :
      (value : Bool) (size : ℕ) (r : Reply) → Keeps p (item_received env p value size r)
  unfolding and_then item_received
  received-Keeps value size r s i object opened =
      run_deref _ (if ltb 32 (length r.buffer) then none else some r.buffer) s λ bytes _.
        run_if (not (eq_ℤ r.ret (pos size))) _ _ s
          (gives (Kept-same object opened s refl refl refl refl refl))
          (run_bind (extract-Keeps (some bytes) value s i object opened) λ _ t k. gives k)

  pub item-Keeps :
      (path : List ℕ) (depth : ℕ) (value : Bool)
      → Keeps p (hid_get_item_value env p path depth value)
  unfolding and_then hid_get_item_value
  item-Keeps path depth value s i object opened =
      run_known _ (hid_is_opened_open p s there object opened.handle) (
        run_bind (look_up-Keeps item_feature path depth s i object opened) λ a t k.
          run_deref _ a.hidif.hid_data t λ d _.
            run_bind (go_on k (size-Keeps d.report_id d.item_type t k.now k.object k.opened))
              λ x u l. run_deref _ x.1 u λ size _. run_known _ (load-some p u l.object) (
                let m = Kept-same l.object l.opened _ refl refl refl refl refl in
                go_on (Kept-trans l m) (received-Keeps value size _ _ m.now m.object m.opened)))

  pub idle-Keeps : (duration report_id : ℕ) → Keeps p (hid_set_idle env p duration report_id)
  unfolding and_then hid_set_idle
  idle-Keeps duration report_id s i object opened =
      run_if (ltb 255 duration) _ _ s (gives (Kept-same object opened s refl refl refl refl refl)) (
        run_if (ltb 255 report_id) _ _ s
          (gives (Kept-same object opened s refl refl refl refl refl))
          (run_known _ (load-some p s object)
            (gives (Kept-same object opened _ refl refl refl refl refl))))

  pub interrupt_read-Keeps :
      (ep : ℕ) (bytes : Bool) (size wait : ℕ)
      → Keeps p (hid_interrupt_read env p ep bytes size wait)
  unfolding and_then hid_interrupt_read
  interrupt_read-Keeps ep bytes size wait s i object opened =
      run_if (not bytes) _ _ s (gives (Kept-same object opened s refl refl refl refl refl)) (
        run_known _ (hid_is_opened_open p s there object opened.handle) (
          run_known _ (load-some p s object)
            (gives (Kept-same object opened _ refl refl refl refl refl))))

  pub interrupt_write-Keeps :
      (ep : ℕ) (bytes : Option Bytes) (size wait : ℕ)
      → Keeps p (hid_interrupt_write env p ep bytes size wait)
  unfolding and_then hid_interrupt_write
  interrupt_write-Keeps ep none size wait s i object opened =
      gives (Kept-same object opened s refl refl refl refl refl)
  interrupt_write-Keeps ep (some sent) size wait s i object opened =
      run_known _ (hid_is_opened_open p s there object opened.handle) (
        run_known _ (load-some p s object)
          (gives (Kept-same object opened _ refl refl refl refl refl)))
