-- ===== src/Initialisation/Laws.antt =====
-- The life of the library itself (src/hid_initialisation.c).
use libhid.Base.{◌≡◌, ◌≢◌, ◌↔◌, refl, true, false, inl, inr, ◌∷◌, is_neg, Bool-cases}
use libhid.Types.{HidReturn, success, already_initialised, Reply, init, find_busses, find_devices}
use libhid.State.{Env, Library, and_then}
use libhid.State.Handles.{Quiet}
use libhid.State.Returns.{Returns, returns, taken, skipped}
use libhid.Initialisation.{hid_init, hid_cleanup}

-- What `hid_init` has done.
pub record Started {W P : Type 0} (s : Library W P) (r : HidReturn) (t : Library W P) : Type 0 where
  pub interfaces : t.interfaces ≡ s.interfaces
  pub list : t.open_list ≡ s.open_list
  pub mallocs : t.mallocs ≡ s.mallocs
  pub frees : t.frees ≡ s.frees
  pub quiet : Quiet s t
  pub again : s.initialised ≡ true → (r ≡ already_initialised) × (t ≡ s)
  pub ready : s.initialised ≡ false → (r ≡ success) ↔ (t.initialised ≡ true)
  pub calls :
      r ≡ success
      → (a b c : Reply) × (t.calls ≡ (find_devices, c) ∷ (find_busses, b) ∷ (init, a) ∷ s.calls)
        × (is_neg b.ret ≡ false)
        × (is_neg c.ret ≡ false)

-- An attempt that failed left `initialised` as it was.
failed :
    {W P : Type 0} {s : Library W P} {r : HidReturn} (t : Library W P)
    → s.initialised ≡ false
    → t.initialised ≡ s.initialised
    → t.interfaces ≡ s.interfaces
    → t.open_list ≡ s.open_list
    → (t.mallocs ≡ s.mallocs) × (t.frees ≡ s.frees) × Quiet s t
    → r ≢ success
    → Started s r t
failed t off same kept list (mallocs, frees, quiet) bad = record {
  interfaces = kept;
  list = list;
  mallocs = mallocs;
  frees = frees;
  quiet = quiet;
  again = λ on. cc;
  ready = λ _. (λ h. absurd (bad h), λ h. cc);
  calls = λ h. absurd (bad h);
}

module _ {W P : Type 0} (env : Env W P) (s : Library W P) where
  -- `hid_init` always returns, and changes neither interfaces nor the list of open ones, nor
  -- allocates or frees a block, nor opens or closes a handle. An initialised library is left as it is,
  -- with an error. Otherwise the library is initialised afterwards exactly if the result is success,
  -- and then usb_init, usb_find_busses and usb_find_devices were called in this order and neither
  -- search reported an error.
  pub hid_init-Started : Returns (Started s) (hid_init env s)
  unfolding and_then hid_init
  hid_init-Started =
      let r1 = env.usb_call init s.world in
      let r2 = env.usb_call find_busses r1.after in
      let r3 = env.usb_call find_devices r2.after in
      elim (Bool-cases s.initialised) [
        | inl on ↦ taken _ _ s on (
            returns (record {
              interfaces = refl;
              list = refl;
              mallocs = refl;
              frees = refl;
              quiet = refl;
              again = λ _. (refl, refl);
              ready = λ off. cc;
              calls = λ h. cc;
            }))
        | inr off ↦ skipped _ _ s off (elim (Bool-cases (is_neg r2.reply.ret)) [
          | inl no_busses ↦
              rw no_busses (returns (failed _ off refl refl refl (refl, refl, refl) λ h. cc))
          | inr busses ↦ rw busses (elim (Bool-cases (is_neg r3.reply.ret)) [
            | inl no_devices ↦
                rw no_devices (returns (failed _ off refl refl refl (refl, refl, refl) λ h. cc))
            | inr devices ↦ rw devices (
                returns (record {
                  interfaces = refl;
                  list = refl;
                  mallocs = refl;
                  frees = refl;
                  quiet = refl;
                  again = λ on. cc;
                  ready = λ _. (λ _. refl, λ _. refl);
                  calls = λ _. (r1.reply, r2.reply, r3.reply, refl, busses, devices);
                }))
          ])
        ])
      ]

  -- `hid_cleanup` always returns and leaves the library uninitialised; it reports success exactly if
  -- the library was initialised before, and changes neither interfaces nor the list of open ones,
  -- makes no call, and allocates and frees no block.
  pub hid_cleanup-Returns :
      Returns
        (λ r t.
          (t.initialised ≡ false)
          × ((r ≡ success) ↔ (s.initialised ≡ true))
          × (t.interfaces ≡ s.interfaces)
          × (t.open_list ≡ s.open_list)
          × (t.calls ≡ s.calls)
          × (t.mallocs ≡ s.mallocs)
          × (t.frees ≡ s.frees))
        (hid_cleanup s)
  unfolding and_then hid_cleanup
  hid_cleanup-Returns = elim (Bool-cases s.initialised) [
    | inl on ↦ taken _ _ s on (returns (refl, (λ _. on, λ _. refl), refl, refl, refl, refl, refl))
    | inr off ↦ skipped _ _ s off (returns (off, (λ h. cc, λ h. cc), refl, refl, refl, refl, refl))
  ]
