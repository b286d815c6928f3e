-- ===== src/State/Handles.antt =====
-- The device handles that the calls of libusb made by libhid (src/hid_opening.c) open and close.
use libhid.Base.{ℕ, suc, ◌+◌, ◌≡◌, ◌≤◌, List, [], ◌∷◌, arith}
use libhid.Types.{UsbCall, Reply, open_device, close_handle}
use libhid.State.{Library}

-- The handles that were asked for and those that were closed.
abbrev pub openings : List (UsbCall × Reply) → ℕ
openings [] = 0
openings ((open_device _, _) ∷ calls) = suc (openings calls)
openings ((_, _) ∷ calls) = openings calls

abbrev pub closings : List (UsbCall × Reply) → ℕ
closings [] = 0
closings ((close_handle _, _) ∷ calls) = suc (closings calls)
closings ((_, _) ∷ calls) = closings calls

-- Between two states as many handles were asked for as were closed.
abbrev pub Quiet : {W P : Type 0} → Library W P → Library W P → Type 0
Quiet s t = openings t.calls + closings s.calls ≡ openings s.calls + closings t.calls

-- One more was closed.
abbrev pub Dropped : {W P : Type 0} → Library W P → Library W P → Type 0
Dropped s t = openings t.calls + closings s.calls + 1 ≡ openings s.calls + closings t.calls

-- Of the handles that were asked for between them `n` are open.
abbrev pub Held : {W P : Type 0} → ℕ → Library W P → Library W P → Type 0
Held n s t = openings t.calls + closings s.calls ≡ openings s.calls + closings t.calls + n

-- At least `n` of those that were asked for are open.
abbrev pub Gains : {W P : Type 0} → ℕ → Library W P → Library W P → Type 0
Gains n s t = openings s.calls + closings t.calls + n ≤ openings t.calls + closings s.calls

module _ {W P : Type 0} (s t u : Library W P) where
  pub Quiet-trans : Quiet s t → Quiet t u → Quiet s u
  Quiet-trans a b = omega arith

  pub Quiet-Dropped : Quiet s t → Dropped t u → Dropped s u
  Quiet-Dropped a b = omega arith

  pub Held-Quiet : (n : ℕ) → Held n s t → Quiet t u → Held n s u
  Held-Quiet n a b = omega arith

  pub Held-Dropped : (n : ℕ) → Held (suc n) s t → Dropped t u → Held n s u
  Held-Dropped n a b = omega arith

  pub Gains-trans : (n : ℕ) → Gains 0 s t → Gains n t u → Gains n s u
  Gains-trans n a b = omega arith
