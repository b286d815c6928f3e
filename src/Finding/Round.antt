-- ===== src/Finding/Round.antt =====
-- One round of the search in src/hid_opening.c: a device is taken or passed over.
use libhid.Base.{
  ℕ, suc, ◌+◌, arith, ◌≡◌, ◌≢◌, refl, ap, ◌∙◌, Bool, true, false, ◌&&◌, Option, none, some, ◌∷◌,
  inl, inr, Bytes, ◌⊎◌, ◌==◌, Bool-cases, if◌then◌else◌,
}
use libhid.Types.{
  HidReturn, success, Device, HidInterface, HidInterfaceMatcher, claim_interface, open_device,
}
use libhid.State.{Env, Library, and_then, update}
use libhid.State.Returns.{Returns, returns, load_then, known_then}
use libhid.State.Effect.{update_self, update_ne}
use libhid.OpenList.Refine.{contents}
use libhid.Interface.Laws.{eq_false}
use libhid.Matching.{id_matches, vendor_matches, usb_match_all}
use libhid.Matching.Verdict.{flags_of, hid_compare_usb_device_lem}
use libhid.Finding.{format_id, settle, match_unseen, consider, inspect, hid_previously_matched}
use libhid.Finding.Listed.{
  IsLive, occupied, occupied_kept, AllLive-kept, hid_previously_matched_lem,
}
use libhid.Finding.First.{Opens, Decides, in_use, wanted, Passed, Picked}

-- A test of the flags for each of the three results.
flags_test : (v p c : Bool) → (flags_of v p c == usb_match_all) ≡ (v && p && c)
flags_test true true true = refl
flags_test true true false = refl
flags_test true false true = refl
flags_test true false false = refl
flags_test false true true = refl
flags_test false true false = refl
flags_test false false true = refl
flags_test false false false = refl

module _ {W P : Type 0} (env : Env W P) (opens : Opens env) (p : ℕ)
    (matcher : HidInterfaceMatcher W) (accepts : Device → Bool)
    (decides : Decides env matcher accepts) (i : HidInterface P) (s : Library W P)
    (was : s.interfaces p ≡ some i) (live : IsLive s) where
  -- One round's two outcomes.
  abbrev pub Round : ℕ → Bytes → Device → Option HidReturn → Library W P → Type 0
  Round n dirname d r t =
      ((wanted s i matcher accepts d ≡ true)
        × (r ≡ some success)
        × Picked env p i s (suc n) dirname d t)
      ⊎ ((wanted s i matcher accepts d ≡ false)
          × (r ≡ none)
          × Passed env p i s (n + (if in_use s i d then 1 else 0)) t)

  -- A device that is not in use is taken exactly if the matcher accepts it.
  unseen :
      (d : Device) (h : ℕ) (t : Library W P) (j : HidInterface P)
      → env.usb_device t.world h ≡ d
      → match_unseen env false p j matcher h t
        ≡ settle env
            (vendor_matches d matcher && id_matches d.id_product matcher.product_id && accepts d)
            p
            j
            h
            t
  unfolding and_then match_unseen
  unseen d h t j same =
      let e = decides h t.world ∙ ap (λ x. record { verdict = accepts x; after = t.world }) same in
      let test =
        flags_test (vendor_matches d matcher) (id_matches d.id_product matcher.product_id)
          (accepts d) in
      rw (hid_compare_usb_device_lem env h matcher t, same, e, test)

  -- After the device is opened and claimed.
  judged :
      (n : ℕ) (dirname : Bytes) (d : Device) (h : ℕ) (t : Library W P)
      (k : Passed env p i s (suc n) t)
      → h ≢ 0
      → env.usb_device t.world h ≡ d
      → k.now.id ≡ format_id dirname d.filename i.interface
      → Returns (Round n dirname d) (
          match_unseen env
            (occupied s.interfaces d i.interface (contents s.open_list))
            p
            k.now
            matcher
            h
            t)
  unfolding and_then match_unseen settle
  judged n dirname d h t k nonzero same named =
      elim (Bool-cases (occupied s.interfaces d i.interface (contents s.open_list))) [
        | inl busy ↦ rw busy (
            returns (
              inr (
                rw busy,
                refl,
                record {
                  now = k.now;
                  object = k.object;
                  others = k.others;
                  list = k.list;
                  number = k.number;
                  device = k.device;
                  held = rw busy (omega (arith, k.held));
                },
              )))
        | inr idle ↦
            let test =
              vendor_matches d matcher && id_matches d.id_product matcher.product_id && accepts d in
            rw (idle, unseen d h t k.now same)
              (elim (Bool-cases test) [
                | inl good ↦ rw good (
                    returns (
                      inl (
                        rw (idle, good),
                        refl,
                        record {
                          now = _;
                          object = update_self t.interfaces p _;
                          device = ap some same;
                          id = named;
                          handle = nonzero;
                          opened = same;
                          held = k.held;
                        },
                      )))
                | inr bad ↦ rw bad (
                    returns (
                      inr (
                        rw (idle, bad),
                        refl,
                        record {
                          now = k.now;
                          object = k.object;
                          others = k.others;
                          list = k.list;
                          number = k.number;
                          device = k.device;
                          held = rw idle (omega (arith, k.held));
                        },
                      )))
              ])
      ]

  -- Whether a device is in use does not depend on what has been passed over.
  seen :
      (n : ℕ) (d : Device) (h : ℕ) (t : Library W P) (k : Passed env p i s n t)
      → env.usb_device t.world h ≡ d
      → hid_previously_matched env h k.now.interface t
        ≡ some (occupied s.interfaces d i.interface (contents s.open_list), t)
  seen n d h t k same =
      let kept =
        occupied_kept p s.interfaces t.interfaces k.others was k.object k.number k.device in
      let alive : IsLive t = rw k.list (
        AllLive-kept p s.interfaces t.interfaces k.others was k.object k.number k.device
          (contents s.open_list) live) in
      hid_previously_matched_lem env h k.now.interface t alive
      ∙ (rw (same, k.number, k.list, kept d i.interface (contents s.open_list)) refl)

  pub round :
      (n : ℕ) (dirname : Bytes) (d : Device) (t : Library W P)
      → Passed env p i s n t
      → Returns (Round n dirname d) (inspect env p matcher dirname d t)
  unfolding and_then inspect consider
  round n dirname d t k =
      let j : HidInterface P = record k.now { id = format_id dirname d.filename k.now.interface } in
      let u : Library W P = record t { interfaces = update t.interfaces p (some j) } in
      let r = env.usb_call (open_device d) u.world in
      let v : Library W P = record u {
        world = r.after;
        calls = (open_device d, r.reply) ∷ u.calls;
      } in
      let h = r.reply.handle in
      let call = claim_interface h j.interface in
      let c = env.usb_call call v.world in
      let w : Library W P = record v { world = c.after; calls = (call, c.reply) ∷ v.calls } in
      let same = opens.claimed h j.interface v.world ∙ opens.opened d u.world in
      let l : Passed env p i s (suc n) w = record {
        now = j;
        object = update_self t.interfaces p (some j);
        others = λ q z. update_ne t.interfaces p (some j) q z ∙ k.others q z;
        list = k.list;
        number = k.number;
        device = k.device;
        held = omega (arith, k.held);
      } in
      load_then _ p t k.object (
        rw (eq_false h 0 (opens.granted d u.world)) (
          load_then _ p v (update_self t.interfaces p (some j)) (
            known_then _ (seen (suc n) d h w l same) (
              judged n dirname d h w l (opens.granted d u.world) same
                (ap (format_id dirname d.filename) k.number)))))
