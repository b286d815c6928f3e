-- ===== src/OpenList.antt =====
-- `open_hid_device_list`, `add_open_device` and `remove_open_device` of src/hid_opening.c.
pub mod Refine
pub mod Members
use libhid.Base.{
  ℕ, zero, suc, ◌-◌, List, ℤ, pos, negsuc, ltb, ◌==◌, if◌then◌else◌, get_or, set, replicate,
}

-- `struct t_open_hid_device_list`: the first `n_devices` of the twenty slots are in use.
pub record OpenDeviceList : Type 0 where
  pub n_devices : ℕ
  pub slots : List ℕ

abbrev pub max_open_devices : ℕ
max_open_devices = 20

abbrev pub no_open_devices : OpenDeviceList
no_open_devices = record { n_devices = 0; slots = replicate max_open_devices 0 }

pub record Added : Type 0 where
  pub ret : ℤ
  pub list : OpenDeviceList

unfoldable pub add_open_device : OpenDeviceList → ℕ → Added
add_open_device l hidif =
    if ltb l.n_devices max_open_devices
    then record {
      ret = pos 0;
      list = record { n_devices = suc l.n_devices; slots = set l.slots l.n_devices hidif };
    }
    else record { ret = negsuc 0; list = l }

-- The inner loop, `k` rounds from `j` on: each slot takes its right neighbour.
shift_left : ℕ → ℕ → List ℕ → List ℕ
shift_left zero j slots = slots
shift_left (suc k) j slots = shift_left k (suc j) (set slots (j - 1) (get_or slots j 0))

-- The outer loop, `k` rounds from `i` on.
remove_from : OpenDeviceList → ℕ → ℕ → ℕ → OpenDeviceList
remove_from l hidif zero i = l
remove_from l hidif (suc k) i =
    let rest = remove_from l hidif k (suc i) in
    if hidif == get_or l.slots i 0
    then record {
      n_devices = l.n_devices - 1;
      slots = shift_left (l.n_devices - suc i) (suc i) l.slots;
    }
    else rest

pub remove_open_device : OpenDeviceList → ℕ → OpenDeviceList
remove_open_device l hidif = remove_from l hidif l.n_devices 0
