-- ===== src/State/Returns.antt =====
-- Total correctness of a call: it does not run into undefined behaviour, and what holds after it.
use libhid.Base.{ℕ, Option, none, some, subst, ap, ◌≡◌, Bool, true, false, refl, if◌then◌else◌}
use libhid.Types.{HidInterface}
use libhid.State.{Library, M, and_then, load, deref, load-some}

pub data Returns {W P A : Type 0} (Q : A → Library W P → Type 0)
    : Option (A × Library W P) → Type 0 where
  returns : {a : A} {s : Library W P} → Q a s → Returns Q (some (a, s))

module _ {W P A : Type 0} {Q : A → Library W P → Type 0} where
  pub bind :
      {B : Type 0} {R : B → Library W P → Type 0} {r : Option (A × Library W P)} {k : A → M W P B}
      → Returns Q r
      → ((a : A) (s : Library W P) → Q a s → Returns R (k a s))
      → Returns R (and_then r k)
  unfolding and_then
  bind (returns q) next = next _ _ q

  pub mono :
      {R : A → Library W P → Type 0} {r : Option (A × Library W P)}
      → Returns Q r
      → ((a : A) (s : Library W P) → Q a s → R a s)
      → Returns R r
  mono (returns q) weaken = returns (weaken _ _ q)

  -- What a call that returns has given.
  pub invert :
      {r : Option (A × Library W P)}
      → Returns Q r
      → (a : A) × (s : Library W P) × (r ≡ some (a, s)) × Q a s
  invert (returns q) = (_, _, refl, q)

module _ {W P B : Type 0} {R : B → Library W P → Type 0} (k : HidInterface P → M W P B) where
  -- `*hidif` gives the object.
  pub load_then :
      (p : ℕ) (s : Library W P) {i : HidInterface P}
      → s.interfaces p ≡ some i
      → Returns R (k i s)
      → Returns R (and_then (load p s) k)
  unfolding and_then
  load_then p s object rest = rw (load-some p s object) rest

module _ {W P A B : Type 0} {R : B → Library W P → Type 0} (k : A → M W P B) where
  -- A call whose result is known.
  pub known_then :
      {r : Option (A × Library W P)} {a : A} {s : Library W P}
      → r ≡ some (a, s)
      → Returns R (k a s)
      → Returns R (and_then r k)
  unfolding and_then
  known_then e rest = rw e rest

module _ {W P A B : Type 0} {R : B → Library W P → Type 0} (k : A → M W P B) where
  -- A pointer that is not NULL.
  pub deref_then :
      (o : Option A) (s : Library W P) {a : A}
      → o ≡ some a
      → Returns R (k a s)
      → Returns R (and_then (deref o s) k)
  unfolding and_then
  deref_then o s e rest = rw e rest

module _ {W P B : Type 0} {R : B → Library W P → Type 0} {b : Bool} (x y : M W P B)
    (s : Library W P) where
  -- A test whose outcome is known.
  pub taken : b ≡ true → Returns R (x s) → Returns R ((if b then x else y) s)
  taken e rest = rw e rest

  pub skipped : b ≡ false → Returns R (y s) → Returns R ((if b then x else y) s)
  skipped e rest = rw e rest

-- The same, for what the rest is.
pub and_then_known :
    {W P A B : Type 0} {r : Option (A × Library W P)} {a : A} {s : Library W P} (k : A → M W P B)
    → r ≡ some (a, s)
    → and_then r k ≡ k a s
unfolding and_then
and_then_known k e = rw e refl

-- What holds of a result that is known.
pub result :
    {W P A : Type 0} {Q : A → Library W P → Type 0} {o : Option (A × Library W P)} {a : A}
    {s : Library W P}
    → Returns Q o
    → o ≡ some (a, s)
    → Q a s
result {W} {P} {A} {Q} {a} {s} (returns q) e =
    subst (λ (y : A × Library W P). Q y.0 y.1) (ap known e) q
  where
    known : Option (A × Library W P) → A × Library W P
    known none = (a, s)
    known (some y) = y

pub both :
    {W P A : Type 0} {Q R : A → Library W P → Type 0} {o : Option (A × Library W P)}
    → Returns Q o
    → Returns R o
    → Returns (λ a s. Q a s × R a s) o
both (returns q) k = returns (q, result k refl)
