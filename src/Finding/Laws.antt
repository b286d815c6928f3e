-- ===== src/Finding/Laws.antt =====
-- The search for a device: `hid_find_usb_device` and `hid_get_usb_handle` of src/hid_opening.c.
use libhid.Base.{
  ℕ, ◌≡◌, ◌≢◌, refl, ◌∙◌, Bool, true, false, Option, none, some, List, [], ◌∷◌, inl, inr, Bytes,
  ◌==◌, ==_iff, Bool-cases,
}
use libhid.Types.{
  HidReturn, Device, Bus, HidInterface, HidInterfaceMatcher, claim_interface, open_device,
}
use libhid.State.{Env, Library, and_then, update}
use libhid.State.Returns.{Returns, returns, bind, mono, load_then}
use libhid.State.Effect.{Effect, Effect-trans, Effect-refl, Effect-store, Effect-usb}
use libhid.Matching.Verdict.{hid_compare_usb_device_lem}
use libhid.Finding.{
  format_id, or_next, or_return, is_success, settle, match_unseen, consider, inspect, scan_devices,
  scan_busses, hid_find_usb_device, hid_get_usb_handle,
}
use libhid.Finding.Listed.{IsLive, IsLive-Effect, hid_previously_matched_lem}

-- What a part of the search has done: the parser's structures and the number stay, and success
-- leaves a handle.
pub record Scanned {W P : Type 0} (p : ℕ) (i : HidInterface P) (s : Library W P) (success_if : Bool)
    (s' : Library W P) : Type 0 where
  pub now : HidInterface P
  pub effect : Effect p i s now s'
  pub data_kept : now.hid_data ≡ i.hid_data
  pub parser_kept : now.hid_parser ≡ i.hid_parser
  pub number_kept : now.interface ≡ i.interface
  pub handle : success_if ≡ true → now.dev_handle ≢ 0

-- A round's result: `none` goes on.
abbrev is_found : Option HidReturn → Bool
is_found none = false
is_found (some r) = is_success r

quiet :
    {W P : Type 0} {p : ℕ} {i : HidInterface P} {s t : Library W P}
    → Effect p i s i t
    → Scanned p i s false t
quiet e = record {
  now = _;
  effect = e;
  data_kept = refl;
  parser_kept = refl;
  number_kept = refl;
  handle = λ h. cc;
}

behind :
    {W P : Type 0} {p : ℕ} {i : HidInterface P} {s t u : Library W P} {b : Bool}
    → Effect p i s i t
    → Scanned p i t b u
    → Scanned p i s b u
behind e k = record {
  now = k.now;
  effect = Effect-trans e k.effect;
  data_kept = k.data_kept;
  parser_kept = k.parser_kept;
  number_kept = k.number_kept;
  handle = k.handle;
}

module _ {W P : Type 0} (env : Env W P) (p : ℕ) (matcher : HidInterfaceMatcher W) (dev_h : ℕ)
    (there : dev_h ≢ 0) where
  settle-Scanned :
      (b : Bool) (s : Library W P) {i : HidInterface P}
      → s.interfaces p ≡ some i
      → Returns (λ r t. Scanned p i s (is_found r) t) (settle env b p i dev_h s)
  unfolding and_then settle is_success
  settle-Scanned true s object = returns (record {
    now = _;
    effect = Effect-store object _ refl;
    data_kept = refl;
    parser_kept = refl;
    number_kept = refl;
    handle = λ _. there;
  })
  settle-Scanned false s object = returns (quiet (Effect-usb object _ _))

  match_unseen-Scanned :
      (b : Bool) (s : Library W P) {i : HidInterface P}
      → s.interfaces p ≡ some i
      → Returns (λ r t. Scanned p i s (is_found r) t) (match_unseen env b p i matcher dev_h s)
  unfolding and_then match_unseen
  match_unseen-Scanned true s object = returns (quiet (Effect-refl object))
  match_unseen-Scanned false s object =
      rw (hid_compare_usb_device_lem env dev_h matcher s)
        (mono (settle-Scanned _ _ object) λ r t k. behind (Effect-usb object _ _) k)

  consider-Scanned :
      (s : Library W P) {i : HidInterface P}
      → s.interfaces p ≡ some i
      → IsLive s
      → Returns (λ r t. Scanned p i s (is_found r) t) (consider env p matcher dev_h s)
  unfolding and_then consider
  consider-Scanned s {i} object live =
      let call = claim_interface dev_h i.interface in
      let r = env.usb_call call s.world in
      let t : Library W P = record s { world = r.after; calls = (call, r.reply) ∷ s.calls } in
      load_then _ p s object (
        rw (hid_previously_matched_lem env dev_h i.interface t live)
          (mono (match_unseen-Scanned _ t object) λ r t k. behind (Effect-usb object _ _) k))

-- A round that goes on leaves the object there for the next.
next_round :
    {W P : Type 0} {p : ℕ} {i : HidInterface P} {s t u : Library W P} {b c : Bool}
    (k : Scanned p i s b t)
    → Scanned p k.now t c u
    → Scanned p i s c u
next_round k l = record {
  now = l.now;
  effect = Effect-trans k.effect l.effect;
  data_kept = l.data_kept ∙ k.data_kept;
  parser_kept = l.parser_kept ∙ k.parser_kept;
  number_kept = l.number_kept ∙ k.number_kept;
  handle = l.handle;
}

module _ {W P : Type 0} (env : Env W P) (p : ℕ) (matcher : HidInterfaceMatcher W) where
  inspect-Scanned :
      (dirname : Bytes) (dev : Device) (s : Library W P) {i : HidInterface P}
      → s.interfaces p ≡ some i
      → IsLive s
      → Returns (λ r t. Scanned p i s (is_found r) t) (inspect env p matcher dirname dev s)
  unfolding and_then inspect is_success
  inspect-Scanned dirname dev s {i} object live =
      let j : HidInterface P = record i { id = format_id dirname dev.filename i.interface } in
      let named = Effect-store object j refl in
      let t : Library W P = record s { interfaces = update s.interfaces p (some j) } in
      let r = env.usb_call (open_device dev) t.world in
      let u : Library W P = record t {
        world = r.after;
        calls = (open_device dev, r.reply) ∷ t.calls;
      } in
      let e : Effect p i s j u = Effect-trans named (Effect-usb named.object _ _) in
      let start : Scanned p i s false u = record {
        now = j;
        effect = e;
        data_kept = refl;
        parser_kept = refl;
        number_kept = refl;
        handle = λ h. cc;
      } in
      load_then _ p s object (elim (Bool-cases (r.reply.handle == 0)) [
        | inl refused ↦ rw refused (returns start)
        | inr granted ↦ rw granted (
            mono
              (consider-Scanned env p matcher r.reply.handle
                (λ z. cc ((==_iff r.reply.handle 0).1 z)) u e.object (IsLive-Effect e live))
              λ _ _ k. next_round start k)
      ])

  scan_devices-Scanned :
      (dirname : Bytes) (ds : List Device) (s : Library W P) {i : HidInterface P}
      → s.interfaces p ≡ some i
      → IsLive s
      → Returns (λ r t. Scanned p i s (is_found r) t) (scan_devices env p matcher dirname ds s)
  unfolding and_then scan_devices or_next
  scan_devices-Scanned dirname [] s object live = returns (quiet (Effect-refl object))
  scan_devices-Scanned dirname (d ∷ ds) s {i} object live =
      bind (inspect-Scanned dirname d s object live) λ r t k.
        go r t k (scan_devices-Scanned dirname ds t k.effect.object (IsLive-Effect k.effect live))
    where
      go :
          (r : Option HidReturn) (t : Library W P) (k : Scanned p i s (is_found r) t)
          → Returns
              (λ r' u. Scanned p k.now t (is_found r') u)
              (scan_devices env p matcher dirname ds t)
          → Returns
              (λ r' u. Scanned p i s (is_found r') u)
              (or_next r (scan_devices env p matcher dirname ds) t)
      go none t k rest = mono rest λ _ _ l. next_round k l
      go (some ret) t k rest = returns k

  scan_busses-Scanned :
      (bs : List Bus) (s : Library W P) {i : HidInterface P}
      → s.interfaces p ≡ some i
      → IsLive s
      → Returns (λ r t. Scanned p i s (is_success r) t) (scan_busses env p matcher bs s)
  unfolding and_then scan_busses is_success or_return
  scan_busses-Scanned [] s object live = returns (quiet (Effect-refl object))
  scan_busses-Scanned (b ∷ bs) s {i} object live =
      bind (scan_devices-Scanned b.dirname b.devices s object live)
        λ r t k. go r t k (scan_busses-Scanned bs t k.effect.object (IsLive-Effect k.effect live))
    where
      go :
          (r : Option HidReturn) (t : Library W P) (k : Scanned p i s (is_found r) t)
          → Returns (λ r' u. Scanned p k.now t (is_success r') u) (scan_busses env p matcher bs t)
          → Returns
              (λ r' u. Scanned p i s (is_success r') u)
              (or_return r (scan_busses env p matcher bs) t)
      go none t k rest = mono rest λ _ _ l. next_round k l
      go (some ret) t k rest = returns k

-- What acquiring a handle has done: on success there is a handle, and otherwise none.
pub record Acquired {W P : Type 0} (p : ℕ) (i : HidInterface P) (s : Library W P) (r : HidReturn)
    (s' : Library W P) : Type 0 where
  pub now : HidInterface P
  pub effect : Effect p i s now s'
  pub data_kept : now.hid_data ≡ i.hid_data
  pub parser_kept : now.hid_parser ≡ i.hid_parser
  pub number_kept : now.interface ≡ i.interface
  pub gained : is_success r ≡ true → now.dev_handle ≢ 0
  pub refused : is_success r ≡ false → (now.dev_handle ≡ 0) × (now.device ≡ none)

module _ {W P : Type 0} (env : Env W P) (p : ℕ) (matcher : HidInterfaceMatcher W) (s : Library W P)
    {i : HidInterface P} (object : s.interfaces p ≡ some i) (live : IsLive s) where
  -- Where no pointer on the list of open interfaces dangles, `hid_get_usb_handle` of an existing
  -- interface always returns, changes nothing but that interface, and no field of it that owns a block
  -- or holds its number. With success the interface has a handle; with any other result it has neither
  -- a handle nor a device.
  pub hid_get_usb_handle-Acquired : Returns (Acquired p i s) (hid_get_usb_handle env p matcher s)
  unfolding and_then hid_get_usb_handle hid_find_usb_device is_success
  hid_get_usb_handle-Acquired =
      bind (scan_busses-Scanned env p matcher (env.usb_get_busses s.world) s object live) λ r t k.
        elim (Bool-cases (is_success r)) [
          | inl found ↦ rw found (
              returns (record {
                now = k.now;
                effect = k.effect;
                data_kept = k.data_kept;
                parser_kept = k.parser_kept;
                number_kept = k.number_kept;
                gained = λ _. k.handle found;
                refused = λ h. cc;
              }))
          | inr failed ↦ rw failed (
              load_then _ p t k.effect.object (
                returns (record {
                  now = _;
                  effect = Effect-trans k.effect (Effect-store k.effect.object _ refl);
                  data_kept = k.data_kept;
                  parser_kept = k.parser_kept;
                  number_kept = k.number_kept;
                  gained = λ h. cc;
                  refused = λ _. (refl, refl);
                })))
        ]
