-- ===== src/Interface.antt =====
-- The life of an HIDInterface object: `hid_new_HIDInterface`, `hid_delete_HIDInterface` and
-- `hid_reset_HIDInterface` of src/hid_initialisation.c, and `hid_is_opened` of src/hid_opening.c.
pub mod Laws
use libhid.Base.{ℕ, suc, Bool, false, not, none, some, [], negsuc, ◌==◌, if◌then◌else◌}
use libhid.Types.{HidInterface}
use libhid.State.{Env, M, pure, ◌>>=◌, ◌>>◌, modify, load, store, update}

-- The fields that a reset gives.
abbrev pub reset : {P : Type 0} → HidInterface P
reset = record {
  dev_handle = 0;
  device = none;
  interface = negsuc 0;
  id = [];
  hid_data = none;
  hid_parser = none;
}

module _ {W P : Type 0} where
  unfoldable pub hid_is_opened : ℕ → M W P Bool
  hid_is_opened hidif =
      if hidif == 0 then pure false else do i ← load hidif; pure (not (i.dev_handle == 0))

  unfoldable pub hid_reset_interface : ℕ → M W P (Unit {0})
  hid_reset_interface hidif = if hidif == 0 then pure tt else do load hidif; store hidif reset

  -- `free(*ixs)`; the caller's pointer is set to NULL, so the result is the pointer's new value.
  unfoldable pub hid_delete_interface : ℕ → M W P ℕ
  hid_delete_interface hidif = if hidif == 0 then pure 0 else do
    load hidif
    modify (λ s. record s { interfaces = update s.interfaces hidif none; frees = suc s.frees })
    pure 0

module _ {W P : Type 0} (env : Env W P) where
  -- A fresh block is reset at once, so what it held does not matter.
  unfoldable pub hid_new_interface : M W P ℕ
  hid_new_interface s =
      let r = env.malloc_interface s.world in
      elim r.block [
        | none ↦ some (0, record s { world = r.after })
        | some p ↦ some (
          p,
          record s {
            world = r.after;
            interfaces = update s.interfaces p (some reset);
            mallocs = suc s.mallocs;
          },
        )
      ]
