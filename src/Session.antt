-- ===== src/Session.antt =====
-- A whole use of the library: its calls in any order (src/hid_opening.c, src/hid_initialisation.c,
-- src/hid_exchange.c, src/hid_presentation.c), and what they keep consistent between the open list and the interfaces.
pub mod Calls
pub mod Laws
pub mod Invariant
pub mod Cycle
pub mod Blocks
pub mod Balance
pub mod Finished
pub mod Handles
pub mod Holding
pub mod Choice
pub mod Cooperation
pub mod Spec
pub mod Refine
pub mod Simulation
use libhid.Base.{ℕ, ◌≡◌, ◌≢◌, ◌⊎◌, Option, true, some, none, ℤ}
use libhid.Types.{HidReturn, HidInterface, HidInterfaceMatcher}
use libhid.State.{Env, Library}
use libhid.OpenList.Refine.{contents, IsValid}
use libhid.OpenList.Members.{mem, IsDistinct}
use libhid.Interface.{hid_new_interface, hid_delete_interface}
use libhid.Opening.{hid_open, hid_force_open}
use libhid.Opening.Outcome.{IsClosed, IsOpened}
use libhid.Closing.{hid_close}
use libhid.Initialisation.{hid_init, hid_cleanup}
use libhid.Session.Calls.{Call, run_call}
use libhid.ForceClaim.{Platform}

-- Every interface is closed or open; the list holds open interfaces only, each once.
pub record IsConsistent {W P : Type 0} (s : Library W P) : Type 0 where
  pub valid : IsValid s.open_list
  pub states : (q : ℕ) (j : HidInterface P) → s.interfaces q ≡ some j → IsClosed j ⊎ IsOpened j
  pub listed :
      (q : ℕ)
      → mem q (contents s.open_list) ≡ true
      → (j : HidInterface P) × (s.interfaces q ≡ some j) × IsOpened j
  pub distinct : IsDistinct (contents s.open_list)

-- One call. Those with an interface are made on one that exists.
pub data Step {W P : Type 0} (env : Env W P) (s : Library W P) : Library W P → Type 0 where
  opening :
      {t : Library W P} (p : ℕ) (i : HidInterface P) (interface : ℤ)
      (matcher : Option (HidInterfaceMatcher W)) (r : HidReturn)
      → p ≢ 0
      → s.interfaces p ≡ some i
      → hid_open env p interface matcher s ≡ some (r, t)
      → Step env s t
  forcing :
      {t : Library W P} (p : ℕ) (i : HidInterface P) (platform : Platform) (interface : ℤ)
      (matcher : Option (HidInterfaceMatcher W)) (retries : ℕ) (r : HidReturn)
      → p ≢ 0
      → s.interfaces p ≡ some i
      → hid_force_open env platform p interface matcher retries s ≡ some (r, t)
      → Step env s t
  closing :
      {t : Library W P} (p : ℕ) (i : HidInterface P) (r : HidReturn)
      → p ≢ 0
      → s.interfaces p ≡ some i
      → hid_close env p s ≡ some (r, t)
      → Step env s t
  -- `malloc` gives no block that is in use.
  creating :
      {t : Library W P} (p : ℕ)
      → s.interfaces p ≡ none
      → hid_new_interface env s ≡ some (p, t)
      → Step env s t
  -- Only a closed interface is deleted.
  deleting :
      {t : Library W P} (p : ℕ) (i : HidInterface P) (n : ℕ)
      → p ≢ 0
      → s.interfaces p ≡ some i
      → IsClosed i
      → hid_delete_interface p s ≡ some (n, t)
      → Step env s t
  using :
      {t : Library W P} (p : ℕ) (i : HidInterface P) (c : Call)
      → p ≢ 0
      → s.interfaces p ≡ some i
      → run_call env p c s ≡ some (tt, t)
      → Step env s t
  initialising : {t : Library W P} (r : HidReturn) → hid_init env s ≡ some (r, t) → Step env s t
  cleaning : {t : Library W P} (r : HidReturn) → hid_cleanup s ≡ some (r, t) → Step env s t

-- Any number of calls.
pub data Steps {W P : Type 0} (env : Env W P) (s : Library W P) : Library W P → Type 0 where
  stay : Steps env s s
  next : {t u : Library W P} → Steps env s t → Step env t u → Steps env s u
