-- ===== src/Matching/Verdict.antt =====
-- The flags of `hid_compare_usb_device` in src/hid_opening.c.
use libhid.Base.{
  ℕ, ◌<◌, ◌≡◌, ◌⊎◌, refl, sym, ap, ◌∙◌, ◌↔◌, Bool, true, false, ◌&&◌, ltb, lt→ltb, ltb→lt, Option,
  none, some, inl, inr, arith,
}
use libhid.Types.{Device, HidInterfaceMatcher}
use libhid.State.{Env, Library, and_then}
use libhid.Matching.Bits.{bit, Covers, id_matches_iff}
use libhid.Matching.{
  usb_match_none, usb_match_vendor, usb_match_product, usb_match_custom, usb_match_all, raise, ask,
  id_matches, vendor_matches, hid_compare_usb_device,
}

-- The flags that three test results raise.
abbrev pub flags_of : Bool → Bool → Bool → ℕ
flags_of vendor product custom =
    raise custom usb_match_custom
      (raise product usb_match_product (raise vendor usb_match_vendor usb_match_none))

pub flags_all :
    (v p c : Bool) → (flags_of v p c ≡ usb_match_all) ↔ ((v ≡ true) × (p ≡ true) × (c ≡ true))
flags_all true true true = (λ _. (refl, refl, refl), λ _. refl)
flags_all true true false = (λ h. absurd (omega arith), λ h. cc)
flags_all true false true = (λ h. absurd (omega arith), λ h. cc)
flags_all true false false = (λ h. absurd (omega arith), λ h. cc)
flags_all false true true = (λ h. absurd (omega arith), λ h. cc)
flags_all false true false = (λ h. absurd (omega arith), λ h. cc)
flags_all false false true = (λ h. absurd (omega arith), λ h. cc)
flags_all false false false = (λ h. absurd (omega arith), λ h. cc)

-- What the bits of the flags say, and whether a bit is set.
flag : Bool → ℕ
flag true = 1
flag false = 0

flag_iff : (b : Bool) → (flag b ≡ 1) ↔ (b ≡ true)
unfolding flag
flag_iff true = (λ _. refl, λ _. refl)
flag_iff false = (λ h. absurd (omega arith), λ h. cc)

flags_bits :
    (v p c : Bool)
    → (bit (flags_of v p c) 0 ≡ flag v)
      × (bit (flags_of v p c) 1 ≡ flag p)
      × (bit (flags_of v p c) 2 ≡ flag c)
unfolding bit flag
flags_bits true true true = (refl, refl, refl)
flags_bits true true false = (refl, refl, refl)
flags_bits true false true = (refl, refl, refl)
flags_bits true false false = (refl, refl, refl)
flags_bits false true true = (refl, refl, refl)
flags_bits false true false = (refl, refl, refl)
flags_bits false false true = (refl, refl, refl)
flags_bits false false false = (refl, refl, refl)

-- A bit that shows a test's result, where the test decides a condition.
shows : (n : ℕ) (b : Bool) {A : Type 0} → n ≡ flag b → (b ≡ true) ↔ A → (n ≡ 1) ↔ A
shows n b e decides =
    (λ h. decides.0 ((flag_iff b).0 (sym e ∙ h)), λ a. e ∙ (flag_iff b).1 (decides.1 a))

-- A device's vendor number is not 0 and has every bit of the matcher's.
abbrev pub HasVendor : {W : Type 0} → Device → HidInterfaceMatcher W → Type 0
HasVendor dev matcher = (0 < dev.id_vendor) × Covers dev.id_vendor matcher.vendor_id

-- There is no custom function, or it says yes.
abbrev pub SaysYes : {W : Type 0} → HidInterfaceMatcher W → ℕ → W → Type 0
SaysYes {W} matcher dev_h w =
    (matcher.matcher_fn ≡ none)
    ⊎ ((f : ℕ → ℕ → ℕ → W → record { verdict : Bool; after : W }) × (matcher.matcher_fn ≡ some f)
        × ((f dev_h matcher.custom_data matcher.custom_data_length w).verdict ≡ true))

both_true : (a b : Bool) → (a && b) ≡ true → (a ≡ true) × (b ≡ true)
both_true true b h = (refl, h)
both_true false b h = cc

vendor_iff :
    {W : Type 0} (dev : Device) (matcher : HidInterfaceMatcher W)
    → (vendor_matches dev matcher ≡ true) ↔ HasVendor dev matcher
unfolding vendor_matches
vendor_iff dev matcher = (
  λ h.
      let (some_vendor, mask) = both_true (ltb 0 dev.id_vendor) _ h in
      (ltb→lt 0 dev.id_vendor some_vendor, (id_matches_iff _ _).0 mask),
  λ (some_vendor, mask). rw (lt→ltb 0 dev.id_vendor some_vendor, (id_matches_iff _ _).1 mask) refl,
)

custom_iff :
    {W : Type 0} (matcher : HidInterfaceMatcher W) (dev_h : ℕ) (w : W)
    → ((ask matcher dev_h w).verdict ≡ true) ↔ SaysYes matcher dev_h w
unfolding ask
custom_iff {W} matcher dev_h w = decide matcher.matcher_fn
  where
    decide :
        (o : Option (ℕ → ℕ → ℕ → W → record { verdict : Bool; after : W }))
        → ((ask (record matcher { matcher_fn = o }) dev_h w).verdict ≡ true)
          ↔ SaysYes (record matcher { matcher_fn = o }) dev_h w
    decide none = (λ _. inl refl, λ _. refl)
    decide (some f) = (
      λ h. inr (f, refl, h),
      λ h. elim h [
        | inl missing ↦ cc
        | inr (g, same, accepted) ↦
            ap (λ o. (ask (record matcher { matcher_fn = o }) dev_h w).verdict) same ∙ accepted
      ],
    )

module _ {W P : Type 0} (env : Env W P) (dev_h : ℕ) (matcher : HidInterfaceMatcher W) where
  pub hid_compare_usb_device_lem :
      (s : Library W P)
      → let dev = env.usb_device s.world dev_h in
        let custom = ask matcher dev_h s.world in
        hid_compare_usb_device env dev_h matcher s
        ≡ some (
          flags_of
              (vendor_matches dev matcher)
              (id_matches dev.id_product matcher.product_id)
              custom.verdict,
          record s { world = custom.after },
        )
  unfolding hid_compare_usb_device and_then
  hid_compare_usb_device_lem s = refl

  -- The comparison always returns and changes nothing but the world, and that only if the matcher has a
  -- custom function. The lowest bit of its flags is set exactly if the device's vendor number is
  -- not 0 and has every bit that the matcher's has, the second exactly if the product number
  -- has every bit that the matcher's has, and the third exactly if the matcher has no custom function
  -- or this accepts the handle. The flags are USB_MATCH_ALL exactly if all three hold.
  pub compare_matches_all :
      (s : Library W P)
      → let dev = env.usb_device s.world dev_h in
        (flags : ℕ) × (w : W) × (hid_compare_usb_device env dev_h matcher s
          ≡ some (flags, record s { world = w }))
        × (matcher.matcher_fn ≡ none → w ≡ s.world)
        × ((bit flags 0 ≡ 1) ↔ HasVendor dev matcher)
        × ((bit flags 1 ≡ 1) ↔ Covers dev.id_product matcher.product_id)
        × ((bit flags 2 ≡ 1) ↔ SaysYes matcher dev_h s.world)
        × ((flags ≡ usb_match_all) ↔ (
            HasVendor dev matcher
            × Covers dev.id_product matcher.product_id
            × SaysYes matcher dev_h s.world))
  unfolding ask
  compare_matches_all s =
      let dev = env.usb_device s.world dev_h in
      let v = vendor_iff dev matcher in
      let p = id_matches_iff dev.id_product matcher.product_id in
      let c = custom_iff matcher dev_h s.world in
      let (first, second, third) =
        flags_bits (vendor_matches dev matcher) (id_matches dev.id_product matcher.product_id)
          (ask matcher dev_h s.world).verdict in
      let all =
        flags_all (vendor_matches dev matcher) (id_matches dev.id_product matcher.product_id)
          (ask matcher dev_h s.world).verdict in
      (
        _,
        _,
        hid_compare_usb_device_lem s,
        λ none_there. rw (none_there, ask),
        shows _ _ first v,
        shows _ _ second p,
        shows _ _ third c,
        (
          λ h. let (a, b, d) = all.0 h in (v.0 a, p.0 b, c.0 d),
          λ (a, b, d). all.1 (v.1 a, p.1 b, c.1 d),
        ),
      )
