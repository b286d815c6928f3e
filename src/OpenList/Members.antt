-- ===== src/OpenList/Members.antt =====
-- Which interfaces the list of open ones (src/hid_opening.c) holds, each at most once.
use libhid.Base.{
  ℕ, zero, suc, ◌+◌, ◌≤◌, ◌≡◌, ◌≢◌, refl, sym, ap, subst, ◌∙◌, Bool, true, false, ◌||◌, inl, inr,
  List, [], ◌∷◌, ◌++◌, arith, ◌==◌, ==_iff, ==_refl, if◌then◌else◌, Bool-cases, length, get_or,
  take, drop, drop_lem,
}
use libhid.OpenList.{OpenDeviceList, remove_from, remove_open_device}
use libhid.OpenList.Refine.{contents, IsValid, erase_first}

pub mem : ℕ → List ℕ → Bool
mem q [] = false
mem q (x ∷ xs) = (q == x) || mem q xs

-- No interface twice.
abbrev pub IsDistinct : List ℕ → Type 0
IsDistinct [] = Unit
IsDistinct (x ∷ xs) = (mem x xs ≡ false) × IsDistinct xs

-- Looking for `q` behind a head.
pub mem_head : (q x : ℕ) (xs : List ℕ) → mem q xs ≡ true → mem q (x ∷ xs) ≡ true
unfolding mem
mem_head q x xs h = ground arith

later : (b c : Bool) → b ≡ false → (b || c) ≡ true → c ≡ true
later true c h k = cc
later false c h k = k

pub earlier : (b c : Bool) → c ≡ false → (b || c) ≡ true → b ≡ true
earlier true c h k = refl
earlier false c h k = cc

mem_cons :
    (q x : ℕ) (xs ys : List ℕ)
    → (mem q xs ≡ true → mem q ys ≡ true)
    → mem q (x ∷ xs) ≡ true
    → mem q (x ∷ ys) ≡ true
unfolding mem
mem_cons q x xs ys f h = elim (Bool-cases (q == x)) [
  | inl hit ↦ rw hit refl
  | inr miss ↦ mem_head q x ys (f (later (q == x) (mem q xs) miss h))
]

pub mem_nil : (q : ℕ) → mem q [] ≡ false
unfolding mem
mem_nil q = refl

pub mem_self : (x : ℕ) (xs : List ℕ) → mem x (x ∷ xs) ≡ true
unfolding mem
mem_self x xs = rw (==_refl x)

pub mem_tail :
    (q x : ℕ) (xs : List ℕ) → mem q (x ∷ xs) ≡ false → ((q == x) ≡ false) × (mem q xs ≡ false)
unfolding mem
mem_tail q x xs h = ground arith

pub mem_later : (q x : ℕ) (xs : List ℕ) → (q == x) ≡ false → mem q (x ∷ xs) ≡ true → mem q xs ≡ true
unfolding mem
mem_later q x xs miss h = later (q == x) (mem q xs) miss h

pub mem-erase_first : (q p : ℕ) (xs : List ℕ) → mem q (erase_first p xs) ≡ true → mem q xs ≡ true
unfolding erase_first
mem-erase_first q p [] h = h
mem-erase_first q p (x ∷ xs) h = elim (Bool-cases (p == x)) [
  | inl hit ↦
      mem_head q x xs (subst (λ b. mem q (if b then xs else x ∷ erase_first p xs) ≡ true) hit h)
  | inr miss ↦
      mem_cons q x (erase_first p xs) xs (mem-erase_first q p xs)
        (subst (λ b. mem q (if b then xs else x ∷ erase_first p xs) ≡ true) miss h)
]

pub mem-erase_first_self : (p : ℕ) (xs : List ℕ) → IsDistinct xs → mem p (erase_first p xs) ≡ false
unfolding mem erase_first
mem-erase_first_self p [] d = refl
mem-erase_first_self p (x ∷ xs) (fresh, d) = elim (Bool-cases (p == x)) [
  | inl hit ↦ rw hit (ap (λ q. mem q xs) ((==_iff p x).0 hit) ∙ fresh)
  | inr miss ↦ rw (miss, miss) (mem-erase_first_self p xs d)
]

-- The others stay.
pub mem-erase_first_other : (q p : ℕ) (xs : List ℕ) → q ≢ p → mem q (erase_first p xs) ≡ mem q xs
unfolding mem erase_first
mem-erase_first_other q p [] apart = refl
mem-erase_first_other q p (x ∷ xs) apart = elim (Bool-cases (p == x)) [
  | inl hit ↦
      let missed : (q == x) ≡ false = ground (arith, (==_iff p x).0 hit) in rw (hit, missed) refl
  | inr miss ↦ rw (miss, mem-erase_first_other q p xs apart) refl
]

-- What is not there is not there afterwards.
mem-erase_first_none : (q p : ℕ) (xs : List ℕ) → mem q xs ≡ false → mem q (erase_first p xs) ≡ false
mem-erase_first_none q p xs h = elim (Bool-cases (mem q (erase_first p xs))) [
  | inl found ↦ cc (mem-erase_first q p xs found)
  | inr missing ↦ missing
]

pub erase_first-IsDistinct : (p : ℕ) (xs : List ℕ) → IsDistinct xs → IsDistinct (erase_first p xs)
unfolding erase_first
erase_first-IsDistinct p [] d = tt
erase_first-IsDistinct p (x ∷ xs) (fresh, d) = elim (Bool-cases (p == x)) [
  | inl hit ↦ rw hit d
  | inr miss ↦ rw miss (mem-erase_first_none x p xs fresh, erase_first-IsDistinct p xs d)
]

pub mem-append : (q p : ℕ) (xs : List ℕ) → mem q (xs ++ p ∷ []) ≡ mem q xs || (q == p)
unfolding mem
mem-append q p [] = elim (Bool-cases (q == p)) [ inl h ↦ rw h | inr h ↦ rw h ]
mem-append q p (x ∷ xs) =
    rw (mem-append q p xs) (elim (Bool-cases (q == x)) [ inl h ↦ rw h | inr h ↦ rw h ])

pub append-IsDistinct :
    (p : ℕ) (xs : List ℕ) → IsDistinct xs → mem p xs ≡ false → IsDistinct (xs ++ p ∷ [])
unfolding mem
append-IsDistinct p [] d h = (refl, tt)
append-IsDistinct p (x ∷ xs) (fresh, d) h =
    let (other, absent) = mem_tail p x xs h in
    let apart : (x == p) ≡ false = ground arith in
    (mem-append x p xs ∙ rw (fresh, apart), append-IsDistinct p xs d absent)

-- Taking out an interface that is not there.
remove_from_absent :
    (l : OpenDeviceList) (p k i : ℕ)
    → i + k ≤ length l.slots
    → mem p (take k (drop i l.slots)) ≡ false
    → remove_from l p k i ≡ l
unfolding remove_from
remove_from_absent l p zero i fits h = refl
remove_from_absent l p (suc k) i fits h =
    let now = drop_lem l.slots i 0 (omega arith) in
    let (other, absent) =
      mem_tail p (get_or l.slots i 0) (take k (drop (suc i) l.slots))
        (ap (λ xs. mem p (take (suc k) xs)) (sym now) ∙ h) in
    rw other (remove_from_absent l p k (suc i) (omega arith) absent)

-- `remove_open_device` leaves a list that does not hold the interface as it is.
pub remove_open_device_absent :
    (l : OpenDeviceList) (p : ℕ)
    → IsValid l
    → mem p (contents l) ≡ false
    → remove_open_device l p ≡ l
unfolding remove_open_device
remove_open_device_absent l p v h = remove_from_absent l p l.n_devices 0 (omega arith) h

pub erase_first_absent : (p : ℕ) (xs : List ℕ) → mem p xs ≡ false → erase_first p xs ≡ xs
unfolding erase_first
erase_first_absent p [] h = refl
erase_first_absent p (x ∷ xs) h =
    let (other, absent) = mem_tail p x xs h in
    rw other (ap (λ l. x ∷ l) (erase_first_absent p xs absent))

-- Taking out what was just appended.
pub erase_first-append :
    (p : ℕ) (xs : List ℕ) → mem p xs ≡ false → erase_first p (xs ++ p ∷ []) ≡ xs
unfolding erase_first
erase_first-append p [] h = rw (==_refl p)
erase_first-append p (x ∷ xs) h =
    let (other, absent) = mem_tail p x xs h in
    rw other (ap (λ l. x ∷ l) (erase_first-append p xs absent))
