-- ===== src/State/Safe.antt =====
-- Partial correctness of a call: what holds after it if it does not run into undefined behaviour.
use libhid.Base.{
  ℕ, Option, none, some, ◌≡◌, refl, subst, Bool, true, false, inl, inr, Option-cases, if◌then◌else◌,
}
use libhid.Types.{HidInterface}
use libhid.State.Returns.{Returns, returns}
use libhid.State.{Library, M, and_then, load, deref}

pub data Safe {W P A : Type 0} (Q : A → Library W P → Type 0)
    : Option (A × Library W P) → Type 0 where
  faults : Safe Q none
  gives : {a : A} {s : Library W P} → Q a s → Safe Q (some (a, s))

module _ {W P A B : Type 0} {Q : A → Library W P → Type 0} {R : B → Library W P → Type 0} where
  pub run_bind :
      {r : Option (A × Library W P)} {k : A → M W P B}
      → Safe Q r
      → ((a : A) (s : Library W P) → Q a s → Safe R (k a s))
      → Safe R (and_then r k)
  unfolding and_then
  run_bind faults next = faults
  run_bind (gives q) next = next _ _ q

module _ {W P B : Type 0} {R : B → Library W P → Type 0} where
  pub run_load :
      (k : HidInterface P → M W P B) (p : ℕ) (s : Library W P)
      → ((i : HidInterface P) → s.interfaces p ≡ some i → Safe R (k i s))
      → Safe R (and_then (load p s) k)
  unfolding and_then load
  run_load k p s next = elim (Option-cases (s.interfaces p)) [
    | inl gone ↦ rw (gone, load) faults
    | inr (i, there) ↦ rw (there, load) (next i there)
  ]

  pub run_if :
      (b : Bool) (x y : M W P B) (s : Library W P)
      → Safe R (x s)
      → Safe R (y s)
      → Safe R ((if b then x else y) s)
  run_if true x y s p q = p
  run_if false x y s p q = q

module _ {W P A B : Type 0} {R : B → Library W P → Type 0} where
  pub run_deref :
      (k : A → M W P B) (o : Option A) (s : Library W P)
      → ((a : A) → o ≡ some a → Safe R (k a s))
      → Safe R (and_then (deref o s) k)
  unfolding and_then
  run_deref k none s next = faults
  run_deref k (some a) s next = next a refl

  pub run_known :
      (k : A → M W P B) {r : Option (A × Library W P)} {a : A} {s : Library W P}
      → r ≡ some (a, s)
      → Safe R (k a s)
      → Safe R (and_then r k)
  unfolding and_then
  run_known k e rest = rw e rest

module _ {W P A : Type 0} (Q : A → Library W P → Type 0) where
  abbrev Holds : Option (A × Library W P) → Type 0
  Holds none = Unit
  Holds (some (a, s)) = Q a s

  held : {r : Option (A × Library W P)} → Safe Q r → Holds r
  held faults = tt
  held (gives q) = q

  -- What a call that gave something has done.
  pub run_result :
      {r : Option (A × Library W P)} {a : A} {s : Library W P} → Safe Q r → r ≡ some (a, s) → Q a s
  run_result k e = subst Holds e (held k)

module _ {W P A : Type 0} {Q R : A → Library W P → Type 0} where
  pub weaken :
      {r : Option (A × Library W P)}
      → Safe Q r
      → ((a : A) (s : Library W P) → Q a s → R a s)
      → Safe R r
  weaken faults less = faults
  weaken (gives q) less = gives (less _ _ q)

  -- With a call that returns.
  pub safely :
      {r : Option (A × Library W P)} → Returns Q r → Safe R r → Returns (λ a s. Q a s × R a s) r
  safely (returns q) k = returns (q, run_result R k refl)
