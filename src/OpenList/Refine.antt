-- ===== src/OpenList/Refine.antt =====
-- `add_open_device` and `remove_open_device` of src/hid_opening.c against the list of the used slots.
use libhid.Base.{
  ℕ, zero, suc, ◌+◌, ◌-◌, ◌≤◌, ◌<◌, ◌≡◌, refl, ◌∙◌, inl, inr, List, [], ◌∷◌, ◌++◌, append_assoc,
  append-nil, pos, arith, ltb, false, ◌==◌, if◌then◌else◌, Bool-cases, length, get_or, set, take,
  drop, length-set, take-suc, take-add, take-suc-set, drop-set, drop_lem,
}
use libhid.OpenList.{
  OpenDeviceList, max_open_devices, add_open_device, shift_left, remove_from, remove_open_device,
}

-- The interfaces recorded as open, the first opened first.
abbrev pub contents : OpenDeviceList → List ℕ
contents l = take l.n_devices l.slots

pub record IsValid (l : OpenDeviceList) : Type 0 where
  pub capacity : length l.slots ≡ max_open_devices
  pub in_use : l.n_devices ≤ max_open_devices

-- The list without the first occurrence of `p`.
unfoldable pub erase_first : ℕ → List ℕ → List ℕ
erase_first p [] = []
erase_first p (x ∷ xs) = if p == x then xs else x ∷ erase_first p xs

-- With a slot free, `add_open_device` returns 0 and appends the interface.
pub add_refines :
    (l : OpenDeviceList) (p : ℕ)
    → IsValid l
    → l.n_devices < max_open_devices
    → let r = add_open_device l p in
      (r.ret ≡ pos 0) × (contents r.list ≡ contents l ++ p ∷ []) × IsValid r.list
unfolding add_open_device
add_refines l p v h =
    ground (arith, take-suc-set l.slots l.n_devices p, length-set l.slots l.n_devices p)

-- With no slot free nothing happens.
pub add_full :
    (l : OpenDeviceList) (p : ℕ)
    → ltb l.n_devices max_open_devices ≡ false
    → (add_open_device l p).list ≡ l
unfolding add_open_device
add_full l p full = rw full

take-shift_left :
    (k i : ℕ) (s : List ℕ)
    → suc i + k ≤ length s
    → take (i + k) (shift_left k (suc i) s) ≡ take i s ++ take k (drop (suc i) s)
unfolding shift_left
take-shift_left zero i s h = take-add s i zero
take-shift_left (suc k) i s h =
    let x : ℕ = get_or s (suc i) 0 in
    let round : i + suc k ≡ suc i + k = omega arith in
    let left : suc i - 1 ≡ i = omega arith in
    let fits : suc (suc i) + k ≤ length (set s i x) = omega (arith, length-set s i x) in
    rw (
      round,
      left,
      take-shift_left k (suc i) (set s i x) fits,
      take-suc-set s i x (omega arith),
      drop-set s i (suc (suc i)) x (omega arith),
      drop_lem s (suc i) 0 (omega arith),
      append_assoc,
    )

length-shift_left : (k j : ℕ) (s : List ℕ) → length (shift_left k j s) ≡ length s
unfolding shift_left
length-shift_left zero j s = refl
length-shift_left (suc k) j s =
    length-shift_left k (suc j) (set s (j - 1) (get_or s j 0)) ∙ length-set s (j - 1) (get_or s j 0)

remove_from-refines :
    (l : OpenDeviceList) (p k i : ℕ)
    → i + k ≡ l.n_devices
    → l.n_devices ≤ length l.slots
    → let r = remove_from l p k i in
      (contents r ≡ take i l.slots ++ erase_first p (take k (drop i l.slots)))
      × (length r.slots ≡ length l.slots)
      × (r.n_devices ≤ l.n_devices)
unfolding remove_from erase_first
remove_from-refines l p zero i e h =
    let same : l.n_devices ≡ i = omega arith in (rw (append-nil, same), refl, omega arith)
remove_from-refines l p (suc k) i e h =
    let x : ℕ = get_or l.slots i 0 in
    let now : drop i l.slots ≡ x ∷ drop (suc i) l.slots = drop_lem l.slots i 0 (omega arith) in
    elim (Bool-cases (p == x)) [
      | inl hit ↦
          rw (now, hit)
            let used : l.n_devices - 1 ≡ i + k = omega arith in
              let rounds : l.n_devices - suc i ≡ k = omega arith in
              (
                rw (used, rounds) (take-shift_left k i l.slots (omega arith)),
                length-shift_left (l.n_devices - suc i) (suc i) l.slots,
                omega arith,
              )
      | inr miss ↦
          rw (now, miss)
            let (tail_erased, kept, fewer) = remove_from-refines l p k (suc i) (omega arith) h in
              (tail_erased ∙ (rw (take-suc l.slots i 0 (omega arith), append_assoc)), kept, fewer)
    ]

-- `remove_open_device` takes the first occurrence of the interface out, keeps the order of the
-- others, and changes nothing if there is none.
pub remove_refines :
    (l : OpenDeviceList) (p : ℕ)
    → IsValid l
    → (contents (remove_open_device l p) ≡ erase_first p (contents l))
      × IsValid (remove_open_device l p)
unfolding remove_open_device
remove_refines l p v =
    let (erased, kept, fewer) = remove_from-refines l p l.n_devices 0 (omega arith) (omega arith) in
    (erased, record { capacity = kept ∙ v.capacity; in_use = omega arith })
