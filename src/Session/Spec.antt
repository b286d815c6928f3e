-- ===== src/Session/Spec.antt =====
-- What the calls of the library promise, with no device, parser or memory in sight: which interfaces
-- there are, which of them are open, which are recorded as open, and whether the library is ready
-- (src/hid_opening.c, src/hid_initialisation.c, include/hid.h).
use libhid.Base.{ℕ, ◌≡◌, ◌≢◌, Bool, true, false, List, [], ◌∷◌, ◌++◌, ltb, length, if◌then◌else◌}
use libhid.Types.{
  HidReturn, success, already_initialised, device_already_opened, not_initialised,
  fail_close_device,
}
use libhid.OpenList.{max_open_devices}
use libhid.OpenList.Refine.{erase_first}

pub data Status : Type 0 where
  absent shut opened : Status

pub record View : Type 0 where
  pub ready : Bool
  pub status : ℕ → Status
  pub listed : List ℕ

-- The record of open interfaces takes one more while there is room.
abbrev pub admit : ℕ → List ℕ → List ℕ
admit p listed = if ltb (length listed) max_open_devices then listed ++ p ∷ [] else listed

-- One interface changes its status.
abbrev pub Becomes : ℕ → Status → View → View → Type 0
Becomes p now v w = (w.status p ≡ now) × ((q : ℕ) → q ≢ p → w.status q ≡ v.status q)

abbrev pub Same : View → View → Type 0
Same v w = (q : ℕ) → w.status q ≡ v.status q

-- One call and its result: `hid_init`, `hid_cleanup`, `hid_new_HIDInterface` with the pointer that it
-- returns, `hid_delete_HIDInterface`, `hid_open` or `hid_force_open`, `hid_close`, and every other
-- call that is given an interface.
pub data Action : Type 0 where
  to_initialise to_clean : HidReturn → Action
  to_create to_delete to_use : ℕ → Action
  to_open to_close : ℕ → HidReturn → Action

-- Nothing changes.
abbrev pub Rests : View → View → Type 0
Rests v w = Same v w × (w.listed ≡ v.listed) × (w.ready ≡ v.ready)

-- What each call may do, by what it returns.
pub data Move (v w : View) : Action → Type 0 where
  starts :
      {r : HidReturn}
      → v.ready ≡ false
      → r ≡ success
      → w.ready ≡ true
      → Same v w
      → w.listed ≡ v.listed
      → Move v w (to_initialise r)
  fails_start :
      {r : HidReturn} → v.ready ≡ false → r ≢ success → Rests v w → Move v w (to_initialise r)
  finds_ready :
      {r : HidReturn}
      → v.ready ≡ true
      → r ≡ already_initialised
      → Rests v w
      → Move v w (to_initialise r)
  stops :
      {r : HidReturn}
      → v.ready ≡ true
      → r ≡ success
      → w.ready ≡ false
      → Same v w
      → w.listed ≡ v.listed
      → Move v w (to_clean r)
  finds_stopped :
      {r : HidReturn} → v.ready ≡ false → r ≢ success → Rests v w → Move v w (to_clean r)
  creates :
      {p : ℕ}
      → v.status p ≡ absent
      → Becomes p shut v w
      → w.listed ≡ v.listed
      → w.ready ≡ v.ready
      → Move v w (to_create p)
  lacks_memory : {p : ℕ} → p ≡ 0 → Rests v w → Move v w (to_create p)
  deletes :
      {p : ℕ}
      → v.status p ≡ shut
      → Becomes p absent v w
      → w.listed ≡ v.listed
      → w.ready ≡ v.ready
      → Move v w (to_delete p)
  uses : {p : ℕ} → Rests v w → Move v w (to_use p)
  opens :
      {p : ℕ} {r : HidReturn}
      → v.ready ≡ true
      → v.status p ≡ shut
      → r ≡ success
      → Becomes p opened v w
      → w.listed ≡ admit p v.listed
      → w.ready ≡ v.ready
      → Move v w (to_open p r)
  fails_open :
      {p : ℕ} {r : HidReturn}
      → v.ready ≡ true
      → v.status p ≡ shut
      → r ≢ success
      → Rests v w
      → Move v w (to_open p r)
  finds_open :
      {p : ℕ} {r : HidReturn}
      → v.ready ≡ true
      → v.status p ≡ opened
      → r ≡ device_already_opened
      → Rests v w
      → Move v w (to_open p r)
  finds_unready :
      {p : ℕ} {r : HidReturn}
      → v.ready ≡ false
      → r ≡ not_initialised
      → Rests v w
      → Move v w (to_open p r)
  closes :
      {p : ℕ} {r : HidReturn}
      → v.status p ≡ opened
      → Becomes p shut v w
      → w.listed ≡ erase_first p v.listed
      → w.ready ≡ v.ready
      → Move v w (to_close p r)
  finds_shut :
      {p : ℕ} {r : HidReturn}
      → v.status p ≡ shut
      → r ≡ fail_close_device
      → Rests v w
      → Move v w (to_close p r)

-- One move for each call, the last call first.
pub data Moves (v : View) : List Action → View → Type 0 where
  stay : Moves v [] v
  next :
      {a : Action} {earlier : List Action} {w x : View}
      → Moves v earlier w
      → Move w x a
      → Moves v (a ∷ earlier) x
