-- ===== src/Session/Cooperation.antt =====
-- `hid_open` and `hid_force_open` of src/hid_opening.c on a device that answers every request.
use libhid.Base.{
  ℕ, ℤ, Option, Bytes, Bool, true, false, ◌≡◌, ◌≢◌, refl, sym, ap, none, some, ◌∷◌, is_neg, arith,
  subst,
}
use libhid.Types.{HidReturn, success, Device, HidInterface, HidInterfaceMatcher, claim_interface}
use libhid.State.{Env, Library, and_then}
use libhid.State.Returns.{Returns, returns, both, bind, mono, load_then}
use libhid.Preparation.Success.{Cooperates, hid_prepare_interface_succeeds}
use libhid.Finding.{is_success}
use libhid.Finding.First.{skipped_before, Opens, Decides, candidates, first, wanted, in_use}
use libhid.ForceClaim.{
  Platform, linux, bsd, darwin, claim_bsd, claim_darwin, claim_on, hid_os_force_claim,
}
use libhid.ForceClaim.Laws.{hid_os_force_claim_lem, hid_os_force_claim-Effect}
use libhid.ForceClaim.Success.{claim_loop-Wins}
use libhid.Opening.{finish_open, claim_and_finish, force_claim_and_finish, hid_open, hid_force_open}
use libhid.Opening.Outcome.{IsClosed}
use libhid.Session.{IsConsistent}
use libhid.Session.Finished.{claim_and_finish-Finished, force_claim_and_finish-Finished}
use libhid.Session.Choice.{Chosen, Answered, IsOpenOn, choose}

-- `r` is HID_RET_SUCCESS.
abbrev Succeeds : HidReturn → Type 0
Succeeds r = r ≡ success

module _ {W P : Type 0} (env : Env W P) (c : Cooperates env) (p : ℕ) (s : Library W P)
    {i : HidInterface P} (there : p ≢ 0) (object : s.interfaces p ≡ some i)
    (opened : i.dev_handle ≢ 0) where
  hid_os_force_claim_succeeds :
      (platform : Platform) (interface : ℤ) (m : HidInterfaceMatcher W) (retries : ℕ)
      → Returns
          (λ r _. r ≡ success)
          (hid_os_force_claim env platform p interface (some m) retries s)
  unfolding and_then claim_on claim_bsd claim_darwin
  hid_os_force_claim_succeeds linux interface m retries =
      rw (hid_os_force_claim_lem env p s there object opened linux interface m retries) (
        mono
          (claim_loop-Wins env i.dev_handle interface 0 retries s (omega arith)
            (record { granted = c.granted _ _ _; detached = λ j h. absurd (omega (arith, h)) }))
          λ _ _ (e, _). e)
  hid_os_force_claim_succeeds bsd interface m retries =
      rw (hid_os_force_claim_lem env p s there object opened bsd interface m retries)
        (returns (rw (c.granted _ _ _) refl))
  hid_os_force_claim_succeeds darwin interface m retries =
      rw (hid_os_force_claim_lem env p s there object opened darwin interface m retries)
        (returns refl)

  module _ (no_data : i.hid_data ≡ none) (no_parser : i.hid_parser ≡ none) where
    finish_open_succeeds : Returns (λ r _. r ≡ success) (finish_open env p s)
    unfolding and_then finish_open is_success
    finish_open_succeeds =
        bind (hid_prepare_interface_succeeds env c p s there object opened no_data no_parser)
          λ r t e. rw (e, is_success) (returns refl)

module _ {W P : Type 0} (env : Env W P) (c : Cooperates env) (p : ℕ) (s : Library W P)
    {i : HidInterface P} (there : p ≢ 0) (object : s.interfaces p ≡ some i)
    (opened : i.dev_handle ≢ 0) (no_data : i.hid_data ≡ none)
    (no_parser : i.hid_parser ≡ none) where
  claim_and_finish_succeeds :
      (interface : ℤ) → Returns (λ r _. r ≡ success) (claim_and_finish env p interface s)
  unfolding and_then claim_and_finish
  claim_and_finish_succeeds interface =
      let call = claim_interface i.dev_handle interface in
      let r = env.usb_call call s.world in
      let t : Library W P = record s { world = r.after; calls = (call, r.reply) ∷ s.calls } in
      let granted : is_neg r.reply.ret ≡ false =
        ap is_neg (c.granted i.dev_handle interface s.world) in
      load_then _ p s object
        (rw granted (finish_open_succeeds env c p t there object opened no_data no_parser))

  force_claim_and_finish_succeeds :
      (platform : Platform) (interface : ℤ) (m : HidInterfaceMatcher W) (retries : ℕ)
      → Returns (λ r _. r ≡ success) (force_claim_and_finish env platform p interface m retries s)
  unfolding and_then force_claim_and_finish is_success
  force_claim_and_finish_succeeds platform interface m retries =
      bind
        (both (hid_os_force_claim-Effect env p s there object opened platform interface m retries)
          (hid_os_force_claim_succeeds env c p s there object opened platform interface m retries))
        λ r t ((other, quiet, e), won).
          rw (won, is_success)
            (finish_open_succeeds env c p t there e.object opened no_data no_parser)

-- A device was found, and what follows succeeded.
reached :
    {W P : Type 0} (p : ℕ) (interface : ℤ) (s : Library W P) (n : ℕ) {x : Option (Bytes × Device)}
    (dirname : Bytes) (d : Device) {r : HidReturn} (t : Library W P)
    → x ≡ some (dirname, d)
    → Chosen p interface s n x r t × Answered Succeeds x r
    → (r ≡ success) × IsOpenOn p interface s n dirname d t
reached p interface s n dirname d {r} t found =
    subst
      (λ y.
        Chosen p interface s n y r t × Answered Succeeds y r
        → (r ≡ success) × IsOpenOn p interface s n dirname d t)
      (sym found) λ ((_, done, _), e). (e, done e)

module _ {W P : Type 0} (env : Env W P) (opens : Opens env) (cooperates : Cooperates env) (p : ℕ)
    (s : Library W P) {i : HidInterface P} (there : p ≢ 0) (object : s.interfaces p ≡ some i)
    (c : IsConsistent s) (closed : IsClosed i) (ready : s.initialised ≡ true) (interface : ℤ)
    (m : HidInterfaceMatcher W) (accepts : Device → Bool) (decides : Decides env m accepts) where
  -- In an initialised and consistent library, with devices that libusb opens, that grant each claim
  -- and answer each control transfer in full, with a HID descriptor that announces a report descriptor
  -- of at most as many bytes as its array has, with memory for the two structures of the parser, and
  -- with a custom test, if there is one, that looks at the device alone: if there is a device that is
  -- accepted by the matcher and not in use through this interface number, then `hid_open` and
  -- `hid_force_open` of a closed interface return HID_RET_SUCCESS, the latter on each platform and for
  -- any number of retries, and the interface is open on the first such device, with its text and the
  -- number that was asked for. Of the handles that the call opened there remain open the interface's
  -- and one for each device in use that came before.
  pub opening_succeeds :
      (dirname : Bytes) (d : Device)
      → let numbered : HidInterface P = record i { interface = interface } in
        let devices = candidates (env.usb_get_busses s.world) in
        let n = skipped_before (wanted s numbered m accepts) (in_use s numbered) devices in
        first (wanted s numbered m accepts) devices ≡ some (dirname, d)
        → (platform : Platform) (retries : ℕ)
        → Returns
            (λ r t. (r ≡ success) × IsOpenOn p interface s n dirname d t)
            (hid_open env p interface (some m) s)
          × Returns
              (λ r t. (r ≡ success) × IsOpenOn p interface s n dirname d t)
              (hid_force_open env platform p interface (some m) retries s)
  unfolding hid_open hid_force_open
  opening_succeeds dirname d found platform retries =
      let numbered : HidInterface P = record i { interface = interface } in
      let n =
        skipped_before (wanted s numbered m accepts) (in_use s numbered)
          (candidates (env.usb_get_busses s.world)) in
      (
        mono
            (choose env opens p s there object c closed ready interface m accepts decides Succeeds _
              λ t j at gone opened no_data no_parser.
                both
                  (claim_and_finish-Finished env p t there at gone opened no_data no_parser
                    interface)
                  (claim_and_finish_succeeds env cooperates p t there at opened no_data no_parser
                    interface))
            λ r t k. reached p interface s n dirname d t found k,
        mono
            (choose env opens p s there object c closed ready interface m accepts decides Succeeds _
              λ t j at gone opened no_data no_parser.
                both
                  (force_claim_and_finish-Finished env p t there at gone opened no_data no_parser
                    platform interface m retries)
                  (force_claim_and_finish_succeeds env cooperates p t there at opened no_data
                    no_parser platform interface m retries))
            λ r t k. reached p interface s n dirname d t found k,
      )
