-- ===== src/Finding/Listed.antt =====
-- `hid_previously_matched` of src/hid_opening.c, and the interfaces that it may dereference.
use libhid.Base.{
  sym, ℕ, ◌≡◌, ◌≢◌, refl, ap, ◌∙◌, Bool, false, ◌&&◌, ◌||◌, Option, none, some, List, [], ◌∷◌, inl,
  inr, ℤ, eq_ℤ, ◌==◌, ==_iff, Bool-cases,
}
use libhid.Types.{Device, HidInterface}
use libhid.State.{Env, Library, and_then, load-some}
use libhid.State.Effect.{Effect}
use libhid.OpenList.Members.{mem, mem_tail}
use libhid.OpenList.Refine.{contents}
use libhid.Finding.{same_device, any_matched, hid_previously_matched}

-- Every interface on a list exists.
abbrev pub AllLive : {P : Type 0} → (ℕ → Option (HidInterface P)) → List ℕ → Type 0
AllLive interfaces [] = Unit
AllLive {P} interfaces (p ∷ ps) =
    ((j : HidInterface P) × (interfaces p ≡ some j)) × AllLive interfaces ps

-- No pointer on the list of open interfaces dangles.
abbrev pub IsLive : {W P : Type 0} → Library W P → Type 0
IsLive s = AllLive s.interfaces (contents s.open_list)

module _ {W P : Type 0} {p : ℕ} {i j : HidInterface P} {s t : Library W P}
    (e : Effect p i s j t) where
  AllLive-Effect : (ps : List ℕ) → AllLive s.interfaces ps → AllLive t.interfaces ps
  AllLive-Effect [] h = tt
  AllLive-Effect (q ∷ ps) h = (
    elim (Bool-cases (q == p)) [
      | inl same ↦ (j, ap t.interfaces ((==_iff q p).0 same) ∙ e.object)
      | inr other ↦ (h.0.0, e.others q (λ z. cc ((==_iff q p).1 z)) ∙ h.0.1)
    ],
    AllLive-Effect ps h.1,
  )

  pub IsLive-Effect : IsLive s → IsLive t
  IsLive-Effect h = rw e.list (AllLive-Effect (contents s.open_list) h)

-- Whether the interface number and the device are those of an interface.
abbrev pub uses : {P : Type 0} → Device → ℤ → HidInterface P → Bool
uses dev interface j = eq_ℤ interface j.interface && same_device dev j.device

-- Whether some interface on a list uses that interface of the device.
unfoldable pub occupied : {P : Type 0} → (ℕ → Option (HidInterface P)) → Device → ℤ → List ℕ → Bool
occupied interfaces dev interface [] = false
occupied interfaces dev interface (p ∷ ps) = elim (interfaces p) [
  | none ↦ occupied interfaces dev interface ps
  | some j ↦ uses dev interface j || occupied interfaces dev interface ps
]

-- Only the fields `interface` and `device` of the interfaces on a list matter.
module _ {P : Type 0} (p : ℕ) (f g : ℕ → Option (HidInterface P)) {i j : HidInterface P}
    (others : (q : ℕ) → q ≢ p → g q ≡ f q) (was : f p ≡ some i) (now : g p ≡ some j)
    (number : j.interface ≡ i.interface) (device : j.device ≡ i.device) where
  pub occupied_kept : (d : Device) (n : ℤ) (ps : List ℕ) → occupied g d n ps ≡ occupied f d n ps
  unfolding occupied
  occupied_kept d n [] = refl
  occupied_kept d n (q ∷ ps) = elim (Bool-cases (q == p)) [
    | inl same ↦
        let e : q ≡ p = (==_iff q p).0 same in
        let at_f : f q ≡ some i = ap f e ∙ was in
        let at_g : g q ≡ some j = ap g e ∙ now in
        rw (at_f, at_g, number, device, occupied_kept d n ps, occupied)
    | inr other ↦
        rw (others q (λ z. cc ((==_iff q p).1 z)), occupied)
          (ap (λ (rest : Bool). elim (f q) [ none ↦ rest | some k ↦ uses d n k || rest ])
            (occupied_kept d n ps))
  ]

  pub AllLive-kept : (ps : List ℕ) → AllLive f ps → AllLive g ps
  AllLive-kept [] h = tt
  AllLive-kept (q ∷ ps) h = (
    elim (Bool-cases (q == p)) [
      | inl same ↦ (j, ap g ((==_iff q p).0 same) ∙ now)
      | inr other ↦ (h.0.0, others q (λ z. cc ((==_iff q p).1 z)) ∙ h.0.1)
    ],
    AllLive-kept ps h.1,
  )

module _ {W P : Type 0} (dev : Device) (interface : ℤ) (s : Library W P) where
  pub any_matched_lem :
      (ps : List ℕ)
      → AllLive s.interfaces ps
      → any_matched dev interface ps s ≡ some (occupied s.interfaces dev interface ps, s)
  unfolding and_then any_matched occupied
  any_matched_lem [] h = refl
  any_matched_lem (p ∷ ps) ((j, e), h) =
      rw (load-some p s e, e, occupied)
        (elim (Bool-cases (uses dev interface j)) [
          | inl hit ↦ rw hit
          | inr miss ↦ rw miss (any_matched_lem ps h)
        ])

module _ {W P : Type 0} (env : Env W P) where
  -- Where no recorded interface dangles, `hid_previously_matched` answers whether the device's
  -- interface of that number is in use by an interface on the list, and changes nothing.
  pub hid_previously_matched_lem :
      (dev_h : ℕ) (interface : ℤ) (s : Library W P)
      → IsLive s
      → hid_previously_matched env dev_h interface s
        ≡ some (
          occupied s.interfaces (env.usb_device s.world dev_h) interface (contents s.open_list),
          s,
        )
  unfolding and_then hid_previously_matched
  hid_previously_matched_lem dev_h interface s h =
      any_matched_lem (env.usb_device s.world dev_h) interface s (contents s.open_list) h

-- An interface that is not on the list does not matter.
module _ {P : Type 0} (p : ℕ) (f g : ℕ → Option (HidInterface P))
    (others : (q : ℕ) → q ≢ p → g q ≡ f q) where
  pub occupied_unlisted :
      (d : Device) (n : ℤ) (ps : List ℕ) → mem p ps ≡ false → occupied g d n ps ≡ occupied f d n ps
  unfolding occupied
  occupied_unlisted d n [] h = refl
  occupied_unlisted d n (q ∷ ps) h =
      let (apart, rest) = mem_tail p q ps h in
      rw (others q (λ z. cc ((==_iff p q).1 (sym z))), occupied)
        (ap (λ (b : Bool). elim (f q) [ none ↦ b | some k ↦ uses d n k || b ])
          (occupied_unlisted d n ps rest))
