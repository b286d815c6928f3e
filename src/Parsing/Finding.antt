-- ===== src/Parsing/Finding.antt =====
-- `hid_find_object` of src/hid_parsing.c, where the HID parser knows the path and where it does not.
use libhid.Base.{
  ℕ, zero, suc, ◌*◌, ◌⊎◌, inl, inr, none, arith, Bytes, Bool-cases, Option-cases, ◌%◌, ◌^◌, ◌≤◌,
  ◌≡◌, ◌≢◌, refl, ap, ◌∙◌, false, if◌then◌else◌, true, some, List, ◌++◌, map, length, take, drop,
}
use libhid.Types.{HidReturn, success, not_found, HidInterface, HidData, HidParser}
use libhid.State.{Env, Library, and_then, update, load-some, pure, deref, ◌>>◌}
use libhid.State.Returns.{
  and_then_known, Returns, returns, load_then, deref_then, known_then, taken,
}
use libhid.State.Effect.{Effect-usb, Effect, Effect-trans, Effect-store}
use libhid.Interface.Laws.{hid_is_opened_open}
use libhid.Parsing.{report_missing, node_of, hid_prepare_parse_path, hid_find_object}
use libhid.FormatPath.Overrun.{hid_format_path_overruns}
use libhid.Parsing.Paths.{fill_nodes_lem}

-- The data that the HID parser gets: the path in front, and its depth in an `unsigned char`.
abbrev pub looked_for : HidData → List ℕ → ℕ → HidData
looked_for d path depth = record d {
  nodes = map node_of (take depth path) ++ drop depth d.nodes;
  path_size = depth % 2 ^ 8;
}

-- What a lookup that finds its object has done.
pub record Found {W P : Type 0} (env : Env W P) (p : ℕ) (i : HidInterface P) (q : HidParser P)
    (d : HidData) (path : List ℕ) (depth : ℕ) (s : Library W P) (r : HidReturn) (t : Library W P)
    : Type 0 where
  pub now : HidInterface P
  pub effect : Effect p i s now t
  pub result : r ≡ success
  pub handle : now.dev_handle ≡ i.dev_handle
  pub number : now.interface ≡ i.interface
  pub hid_data : now.hid_data ≡ some ((env.find_object q (looked_for d path depth)).hid_data)
  pub hid_parser : now.hid_parser ≡ some ((env.find_object q (looked_for d path depth)).parser)
  pub calls : t.calls ≡ s.calls
  pub world : t.world ≡ s.world

-- What a lookup that finds nothing has done, if there is no memory for its warning.
pub record Missing {W P : Type 0} (env : Env W P) (p : ℕ) (i : HidInterface P) (q : HidParser P)
    (d : HidData) (path : List ℕ) (depth : ℕ) (s : Library W P) (r : HidReturn) (t : Library W P)
    : Type 0 where
  pub now : HidInterface P
  pub effect : Effect p i s now t
  pub result : r ≡ not_found
  pub handle : now.dev_handle ≡ i.dev_handle
  pub number : now.interface ≡ i.interface
  pub hid_data : now.hid_data ≡ some ((env.find_object q (looked_for d path depth)).hid_data)
  pub hid_parser : now.hid_parser ≡ some ((env.find_object q (looked_for d path depth)).parser)
  pub calls : t.calls ≡ s.calls

module _ {W P : Type 0} (env : Env W P) (p : ℕ) (s : Library W P) {i : HidInterface P}
    (there : p ≢ 0) (object : s.interfaces p ≡ some i) (opened : i.dev_handle ≢ 0) {d : HidData}
    {q : HidParser P} (data_there : i.hid_data ≡ some d)
    (parser_there : i.hid_parser ≡ some q) where
  parsed :
      (path : List ℕ) (depth : ℕ)
      → depth ≤ length path
      → depth ≤ length d.nodes
      → hid_prepare_parse_path p path depth s
        ≡ some (
          tt,
          record s {
            interfaces =
                update s.interfaces p
                  (some (record i { hid_data = some (looked_for d path depth) }));
          },
        )
  unfolding and_then hid_prepare_parse_path
  parsed path depth long room =
      rw (load-some p s object, data_there, (fill_nodes_lem path depth d.nodes long).0 room)

  -- Where the HID parser finds the object.
  pub find-Found :
      (path : List ℕ) (depth : ℕ)
      → depth ≤ length path
      → depth ≤ length d.nodes
      → (env.find_object q (looked_for d path depth)).found ≡ true
      → Returns (Found env p i q d path depth s) (hid_find_object env p path depth s)
  unfolding and_then hid_find_object hid_prepare_parse_path
  find-Found path depth long room found =
      let j : HidInterface P = record i { hid_data = some (looked_for d path depth) } in
      let t : Library W P = record s { interfaces = update s.interfaces p (some j) } in
      let e : Effect p i s j t = Effect-store object j (rw data_there) in
      let r = env.find_object q (looked_for d path depth) in
      known_then _ (hid_is_opened_open p s there object opened) (
        known_then _ (parsed path depth long room) (
          load_then _ p t e.object (
            deref_then _ j.hid_parser t parser_there (
              taken _ _ _ found (
                returns (record {
                  now = _;
                  effect = Effect-trans e (
                      Effect-store e.object
                        (record j { hid_parser = some r.parser; hid_data = some r.hid_data })
                        (rw parser_there));
                  result = refl;
                  handle = refl;
                  number = refl;
                  hid_data = refl;
                  hid_parser = refl;
                  calls = refl;
                  world = refl;
                }))))))

  -- Where it does not: the warning is left to be made.
  missing :
      (path : List ℕ) (depth : ℕ)
      → depth ≤ length path
      → depth ≤ length d.nodes
      → let r = env.find_object q (looked_for d path depth) in
        let j : HidInterface P = record i {
          hid_parser = some r.parser;
          hid_data = some r.hid_data;
        } in
        r.found ≡ false
        → (t : Library W P) × Effect p i s j t
          × (t.calls ≡ s.calls)
          × (t.world ≡ s.world)
          × (hid_find_object env p path depth s
              ≡ and_then (report_missing env path depth t) (λ _. pure not_found))
  unfolding and_then hid_find_object hid_prepare_parse_path
  missing path depth long room lost =
      let j : HidInterface P = record i { hid_data = some (looked_for d path depth) } in
      let t : Library W P = record s { interfaces = update s.interfaces p (some j) } in
      let e : Effect p i s j t = Effect-store object j (rw data_there) in
      let r = env.find_object q (looked_for d path depth) in
      let k : HidInterface P = record j {
        hid_parser = some r.parser;
        hid_data = some r.hid_data;
      } in
      let u : Library W P = record t { interfaces = update t.interfaces p (some k) } in
      (
        u,
        Effect-trans e (Effect-store e.object k (rw parser_there)),
        refl,
        refl,
        and_then_known _ (hid_is_opened_open p s there object opened)
            ∙ and_then_known _ (parsed path depth long room)
            ∙ and_then_known _ (load-some p t e.object)
            ∙ and_then_known _ (ap (λ o. deref o t) parser_there)
            ∙ ap
                (λ b.
                  (if b then pure success else (do report_missing env path depth; pure not_found))
                    u)
                lost,
      )

  -- `hid_find_object` of an open interface with a parser, for a path that is as long as its depth, has
  -- at least one element and fits into the parser's array, where `malloc` gives blocks of exactly the
  -- size asked for: if the HID parser finds the object, it returns success and the interface has the
  -- parser's answer; if not and there is no memory for the warning, it returns HID_RET_NOT_FOUND; and
  -- if not and there is memory, the warning's text is written past its block. Where it returns, nothing
  -- but the interface has changed, and no block is lost.
  pub hid_find_object-Found :
      (path : List ℕ) (depth : ℕ)
      → 1 ≤ depth
      → depth ≤ length path
      → depth ≤ length d.nodes
      → ((n : ℕ) (w : W) (b : Bytes) → (env.malloc_chars n w).block ≡ some b → length b ≡ n)
      → (((env.find_object q (looked_for d path depth)).found ≡ true)
          × Returns (Found env p i q d path depth s) (hid_find_object env p path depth s))
        ⊎ (((env.find_object q (looked_for d path depth)).found ≡ false)
            × ((env.malloc_chars (depth * 11) s.world).block ≡ none)
            × Returns (Missing env p i q d path depth s) (hid_find_object env p path depth s))
        ⊎ (((env.find_object q (looked_for d path depth)).found ≡ false)
            × (b : Bytes) × ((env.malloc_chars (depth * 11) s.world).block ≡ some b)
            × (hid_find_object env p path depth s ≡ none))
  unfolding and_then report_missing missing
  hid_find_object-Found path zero some_element long room exact = absurd (omega arith)
  hid_find_object-Found path (suc k) some_element long room exact =
      let r = env.find_object q (looked_for d path (suc k)) in
      elim (Bool-cases r.found) [
        | inl found ↦ inl (found, find-Found path (suc k) long room found)
        | inr lost ↦
            let (t, e, silent, still, runs) = missing path (suc k) long room lost in
            elim (Option-cases (env.malloc_chars (suc k * 11) s.world).block) [
              | inl full ↦ inr (
                  inl (
                    lost,
                    full,
                    (rw (runs, still, full, report_missing)
                        (returns (record {
                          now = record i { hid_parser = some r.parser; hid_data = some r.hid_data };
                          effect = Effect-trans e (
                              Effect-usb e.object (env.malloc_chars (suc k * 11) s.world).after
                                t.calls);
                          result = refl;
                          handle = refl;
                          number = refl;
                          hid_data = refl;
                          hid_parser = refl;
                          calls = silent;
                        }))),
                  ))
              | inr (b, got) ↦
                  let over =
                    hid_format_path_overruns path k b long (exact (suc k * 11) s.world b got) in
                  inr (inr (lost, b, got, (rw (runs, still, got, over, report_missing) refl)))
            ]
      ]
