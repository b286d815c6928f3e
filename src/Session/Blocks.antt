-- ===== src/Session/Blocks.antt =====
-- The blocks of memory over a whole use of the library (src/hid_opening.c, src/hid_initialisation.c,
-- src/hid_parsing.c, src/hid_exchange.c, src/hid_presentation.c).
use libhid.Base.{
  ℕ, suc, ◌+◌, ◌≡◌, ◌≢◌, refl, sym, ap, ◌∙◌, true, false, Option, none, some, inl, inr, Bool-cases,
  Option-cases, ◌==◌, ==_iff, List, [], ◌∷◌, arith,
}
use libhid.Types.{HidInterface}
use libhid.State.{Library}
use libhid.State.Effect.{blocks}
use libhid.OpenList.Members.{mem, mem_self, mem_head, mem_tail, mem_later, mem_nil, IsDistinct}

-- What the object at an address accounts for: its own block and those that it owns.
abbrev pub weight : {P : Type 0} → Option (HidInterface P) → ℕ
weight none = 0
weight (some i) = suc (blocks i)

-- The sum of a number for the object at each of these addresses.
abbrev pub total :
    {P : Type 0} → (Option (HidInterface P) → ℕ) → (ℕ → Option (HidInterface P)) → List ℕ → ℕ
total w heap [] = 0
total w heap (q ∷ qs) = w (heap q) + total w heap qs

abbrev pub owned : {P : Type 0} → (ℕ → Option (HidInterface P)) → List ℕ → ℕ
owned heap qs = total weight heap qs

-- Every block that was allocated is freed, or is an existing interface or owned by one.
pub record IsBalanced {W P : Type 0} (s : Library W P) : Type 0 where
  pub addresses : List ℕ
  pub distinct : IsDistinct addresses
  pub complete : (q : ℕ) (j : HidInterface P) → s.interfaces q ≡ some j → mem q addresses ≡ true
  pub account : s.mallocs ≡ s.frees + owned s.interfaces addresses

false-ne-true : false ≢ true
false-ne-true z = cc

module _ {P : Type 0} (w : Option (HidInterface P) → ℕ) (f g : ℕ → Option (HidInterface P)) (p : ℕ)
    (others : (q : ℕ) → q ≢ p → g q ≡ f q) where
  pub total_absent : (qs : List ℕ) → mem p qs ≡ false → total w g qs ≡ total w f qs
  total_absent [] h = refl
  total_absent (q ∷ qs) h =
      let (apart, rest) = mem_tail p q qs h in
      let same : g q ≡ f q = others q (λ z. cc ((==_iff p q).1 (sym z))) in
      rw same (ap (λ n. w (f q) + n) (total_absent qs rest))

  pub total_present :
      (qs : List ℕ)
      → IsDistinct qs
      → mem p qs ≡ true
      → total w g qs + w (f p) ≡ total w f qs + w (g p)
  total_present [] d h = absurd (false-ne-true (sym (mem_nil p) ∙ h))
  total_present (q ∷ qs) (fresh, d) h = elim (Bool-cases (p == q)) [
    | inl hit ↦
        let e : p ≡ q = (==_iff p q).0 hit in
        let rest = total_absent qs (ap (λ x. mem x qs) e ∙ fresh) in rw e (omega (arith, rest))
    | inr miss ↦
        let same : g q ≡ f q = others q (λ z. cc ((==_iff p q).1 (sym z))) in
        let rest = total_present qs d (mem_later p q qs miss h) in rw same (omega (arith, rest))
  ]

module _ {W P : Type 0} {s : Library W P} (t : Library W P) (b : IsBalanced s) (p : ℕ)
    (others : (q : ℕ) → q ≢ p → t.interfaces q ≡ s.interfaces q)
    (balance : t.mallocs + (weight (s.interfaces p) + s.frees)
      ≡ s.mallocs + (weight (t.interfaces p) + t.frees)) where
  complete_at :
      (qs : List ℕ)
      → mem p qs ≡ true
      → ((q : ℕ) → mem q b.addresses ≡ true → mem q qs ≡ true)
      → (q : ℕ) (j : HidInterface P) → t.interfaces q ≡ some j
      → mem q qs ≡ true
  complete_at qs here more q j h = elim (Bool-cases (q == p)) [
    | inl same ↦ ap (λ x. mem x qs) ((==_iff q p).0 same) ∙ here
    | inr apart ↦ more q (b.complete q j (sym (others q (λ z. cc ((==_iff q p).1 z))) ∙ h))
  ]

  -- The object at one address has changed, and the blocks with it.
  pub change-IsBalanced : IsBalanced t
  change-IsBalanced = elim (Bool-cases (mem p b.addresses)) [
    | inl known ↦
        let moved =
          total_present weight s.interfaces t.interfaces p others b.addresses b.distinct known in
        record {
          addresses = b.addresses;
          distinct = b.distinct;
          complete = complete_at b.addresses known λ q h. h;
          account = omega (arith, moved, b.account, balance);
        }
    | inr fresh ↦
        let still = total_absent weight s.interfaces t.interfaces p others b.addresses fresh in
        let nothing : weight (s.interfaces p) ≡ 0 = elim (Option-cases (s.interfaces p)) [
          | inl none_there ↦ ap weight none_there
          | inr (j, there) ↦ absurd (false-ne-true (sym fresh ∙ b.complete p j there))
        ] in
        record {
          addresses = p ∷ b.addresses;
          distinct = (fresh, b.distinct);
          complete =
              complete_at (p ∷ b.addresses) (mem_self p b.addresses)
                λ q h. mem_head q p b.addresses h;
          account = omega (arith, still, nothing, b.account, balance);
        }
  ]

-- A change that leaves the interfaces and the blocks alone.
pub same-IsBalanced :
    {W P : Type 0} {s t : Library W P}
    → t.interfaces ≡ s.interfaces
    → t.mallocs ≡ s.mallocs
    → t.frees ≡ s.frees
    → IsBalanced s
    → IsBalanced t
same-IsBalanced heap mallocs frees b = record {
  addresses = b.addresses;
  distinct = b.distinct;
  complete = λ q j h. b.complete q j (sym (ap (λ f. f q) heap) ∙ h);
  account = omega (arith, b.account, mallocs, frees, ap (λ f. owned f b.addresses) heap);
}

-- An existing interface changes.
pub moved-IsBalanced :
    {W P : Type 0} {s t : Library W P} {p : ℕ} {i j : HidInterface P}
    → s.interfaces p ≡ some i
    → t.interfaces p ≡ some j
    → ((q : ℕ) → q ≢ p → t.interfaces q ≡ s.interfaces q)
    → t.mallocs + (blocks i + s.frees) ≡ s.mallocs + (blocks j + t.frees)
    → IsBalanced s
    → IsBalanced t
moved-IsBalanced {t = t} {p = p} was now others balance b =
    change-IsBalanced t b p others (omega (arith, ap weight was, ap weight now, balance))
