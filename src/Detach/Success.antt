-- ===== src/Detach/Success.antt =====
-- When libhid-detach-device (src/libhid-detach-device.c) succeeds.
use libhid.Base.{
  inl, inr, Bool-cases, List, [], ◌∷◌, arith, fun_ext, ℕ, ◌≡◌, ◌≢◌, refl, ap, ◌∙◌, not, Bool, true,
  false, some, none, ◌&&◌, is_neg, Bytes, codes, pos,
}
use libhid.Types.{
  HidReturn, success, Device, HidInterface, HidInterfaceMatcher, find_busses, find_devices,
  close_handle,
}
use libhid.State.{Env, Library, and_then, load-some}
use libhid.State.Handles.{Quiet, Dropped, openings, closings}
use libhid.State.Returns.{mono, Returns, returns, bind, both, skipped}
use libhid.State.Effect.{update_self}
use libhid.OpenList.{no_open_devices}
use libhid.OpenList.Refine.{contents}
use libhid.Interface.{reset, hid_new_interface, hid_delete_interface}
use libhid.Interface.Laws.{eq_false}
use libhid.Initialisation.{hid_init}
use libhid.Initialisation.Laws.{hid_init-Started, hid_cleanup-Returns}
use libhid.Opening.Outcome.{reset-IsClosed}
use libhid.Opening.Laws.{hid_force_open-Opened}
use libhid.Closing.Laws.{hid_close-Closed, hid_close_succeeds}
use libhid.Matching.{ask, vendor_matches, id_matches}
use libhid.Finding.{is_success}
use libhid.Finding.Listed.{occupied}
use libhid.Finding.First.{Opens, Decides, candidates, first, wanted, in_use, skipped_before}
use libhid.ForceClaim.{Platform}
use libhid.Preparation.Success.{Cooperates}
use libhid.Session.{IsConsistent}
use libhid.Session.Laws.{consistent-IsLive, absent, creating_keeps, same_keeps}
use libhid.Session.Cooperation.{opening_succeeds}
use libhid.Detach.Leaving.{Fresh, with_new}
use libhid.Detach.{
  detach_matcher, delete_and_leave, close_and_leave, open_and_leave, init_and_leave,
}

-- libusb finds the busses and the devices and closes every handle, and there is memory for an
-- interface.
pub record Serves {W P : Type 0} (env : Env W P) : Type 0 where
  pub busses : (w : W) → is_neg (env.usb_call find_busses w).reply.ret ≡ false
  pub devices : (w : W) → is_neg (env.usb_call find_devices w).reply.ret ≡ false
  pub closes :
      (handle : ℕ) (w : W) → is_neg (env.usb_call (close_handle handle) w).reply.ret ≡ false
  pub room : (w : W) → (p : ℕ) × ((env.malloc_interface w).block ≡ some p)

-- A matcher for two identifiers.
abbrev pub numbers : {W : Type 0} → ℕ → ℕ → HidInterfaceMatcher W
numbers v u = record {
  vendor_id = v;
  product_id = u;
  matcher_fn = none;
  custom_data = 0;
  custom_data_length = 0;
}

-- A matcher's identifiers accept a device.
abbrev pub accepted : {W : Type 0} → HidInterfaceMatcher W → Device → Bool
accepted m d = vendor_matches d m && id_matches d.id_product m.product_id

-- The program is done, and has closed as many handles as it opened.
abbrev pub IsDone : {W P : Type 0} → Library W P → ℕ × Bytes → Library W P → Type 0
IsDone s r t = (r ≡ (0, codes "done.\n")) × Quiet s t

good : {r : HidReturn} → r ≡ success → not (is_success r) ≡ false
unfolding is_success
good e = rw e refl

module _ {W P : Type 0} (env : Env W P) (p : ℕ) (s : Library W P) {i : HidInterface P}
    (there : p ≢ 0) (object : s.interfaces p ≡ some i) (ready : s.initialised ≡ true) where
  delete_and_leave_succeeds : Returns (IsDone s) (delete_and_leave {W = W} {P = P} p s)
  unfolding and_then delete_and_leave hid_delete_interface
  delete_and_leave_succeeds =
      rw (eq_false p 0 there, load-some p s object)
        (bind (hid_cleanup-Returns env _) λ r t (_, off, _, _, calls, _, _).
          skipped _ _ t (good (off.1 ready))
            (returns (refl, omega (arith, ap openings calls, ap closings calls))))

module _ {W P : Type 0} (env : Env W P) (serves : Serves env) where
  close_and_leave_succeeds :
      (p : ℕ) (s : Library W P) {i : HidInterface P}
      → p ≢ 0
      → s.interfaces p ≡ some i
      → s.initialised ≡ true
      → i.dev_handle ≢ 0
      → Returns (λ r t. (r ≡ (0, codes "done.\n")) × Dropped s t) (close_and_leave env p s)
  unfolding and_then close_and_leave
  close_and_leave_succeeds p s there object ready opened =
      bind
        (both (hid_close-Closed env p s there object)
          (hid_close_succeeds env p s there object opened serves.closes))
        λ r t (k, won). skipped _ _ t (good won) (
          mono (delete_and_leave_succeeds env p t there k.object (k.ready ∙ ready))
            λ x y (e, quiet).
              let (_, calls, _) = k.opened opened in
              (e, omega (arith, quiet, ap openings calls, ap closings calls)))

  hid_init_succeeds :
      (s : Library W P) → s.initialised ≡ false → Returns (λ r _. r ≡ success) (hid_init env s)
  unfolding and_then hid_init
  hid_init_succeeds s off = rw (off, serves.busses, serves.devices) (returns refl)

and_true : (b : Bool) → (b && true) ≡ b
and_true true = refl
and_true false = refl

detach-Decides :
    {W P : Type 0} (env : Env W P) (v u : ℕ) → Decides env (detach_matcher v u) (λ _. true)
unfolding ask detach_matcher
detach-Decides env v u h w = refl

-- Where no interface is open, the wanted devices are those that are accepted.
wanted_all :
    {W P : Type 0} (s : Library W P) (i : HidInterface P) (m : HidInterfaceMatcher W)
    → s.open_list ≡ no_open_devices
    → wanted s i m (λ _. true) ≡ accepted m
unfolding occupied
wanted_all s i m none_open = fun_ext λ d.
    ap
      (λ l.
        not (occupied s.interfaces d i.interface (contents l))
        && (vendor_matches d m && id_matches d.id_product m.product_id && true))
      none_open
    ∙ and_true (accepted m d)

none_before :
    (test busy : Device → Bool)
    → ((d : Device) → busy d ≡ false)
    → (ds : List (Bytes × Device)) → skipped_before test busy ds ≡ 0
unfolding skipped_before
none_before test busy free [] = refl
none_before test busy free ((n, d) ∷ ds) = elim (Bool-cases (test d)) [
  | inl hit ↦ rw hit refl
  | inr miss ↦ rw (miss, free d, none_before test busy free ds) refl
]

-- And no device in use comes before one.
none_passed :
    {W P : Type 0} (s : Library W P) (i : HidInterface P) (m : HidInterfaceMatcher W)
    → s.open_list ≡ no_open_devices
    → (ds : List (Bytes × Device)) → skipped_before (wanted s i m (λ _. true)) (in_use s i) ds ≡ 0
unfolding occupied
none_passed s i m none_open =
    none_before (wanted s i m (λ _. true)) (in_use s i)
      λ d. ap (λ l. occupied s.interfaces d i.interface (contents l)) none_open

module _ {W P : Type 0} (env : Env W P) (serves : Serves env) (opens : Opens env)
    (cooperates : Cooperates env) (v u : ℕ) (dirname : Bytes) (d : Device)
    (listed : (w : W)
      → first (accepted (numbers {W = W} v u)) (candidates (env.usb_get_busses w))
        ≡ some (dirname, d)) where
  open_and_leave_succeeds :
      (s : Library W P)
      → IsConsistent s
      → Fresh env s
      → s.open_list ≡ no_open_devices
      → s.initialised ≡ true
      → (platform : Platform)
      → Returns (IsDone s) (open_and_leave env platform (detach_matcher v u) s)
  unfolding and_then open_and_leave hid_new_interface detach_matcher
  open_and_leave_succeeds s c fresh none_open ready platform =
      let (p, got) = serves.room s.world in
      let (there, unused) = fresh s.world p got in
      let w = (env.malloc_interface s.world).after in
      let t = with_new s w p in
      let made = creating_keeps c p w unused in
      let object = update_self s.interfaces p (some reset) in
      let numbered : HidInterface P = record reset { interface = pos 0 } in
      let m : HidInterfaceMatcher W = detach_matcher v u in
      let devices = candidates (env.usb_get_busses t.world) in
      let found =
        ap (λ test. first test (candidates (env.usb_get_busses t.world)))
          (wanted_all t numbered m none_open)
        ∙ listed t.world in
      rw (got, hid_new_interface, eq_false p 0 there)
        (bind
          (both
            (hid_force_open-Opened env p t there object reset-IsClosed (consistent-IsLive made)
              (absent made object reset-IsClosed) platform (pos 0) (some m) 3)
            (opening_succeeds env opens cooperates p t there object made reset-IsClosed ready
              (pos 0) m (λ _. true) (detach-Decides env v u) dirname d found platform 3).1)
          λ r x (k, (won, (_, held))). skipped _ _ x (good won) (
            mono
              (close_and_leave_succeeds env serves p x there k.object (k.ready ∙ ready)
                (k.done won).0.handle)
              λ y z (e, dropped).
                (e, omega (arith, held, dropped, none_passed t numbered m none_open devices))))

  pub init_and_leave_succeeds :
      (s : Library W P)
      → IsConsistent s
      → Fresh env s
      → s.open_list ≡ no_open_devices
      → s.initialised ≡ false
      → (platform : Platform)
      → Returns (IsDone s) (init_and_leave env platform (detach_matcher v u) s)
  unfolding and_then init_and_leave
  init_and_leave_succeeds s c fresh none_open off platform =
      bind (both (hid_init-Started env s) (hid_init_succeeds env serves s off)) λ r t (k, won).
        skipped _ _ t (good won) (
          mono
            (open_and_leave_succeeds t (same_keeps k.interfaces k.list c)
              (λ w p got.
                let (there, unused) = fresh w p got in (there, ap (λ f. f p) k.interfaces ∙ unused))
              (k.list ∙ none_open) ((k.ready off).0 won) platform)
            λ x y (e, quiet). (e, omega (arith, quiet, k.quiet)))
