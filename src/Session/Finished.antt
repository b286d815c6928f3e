-- ===== src/Session/Finished.antt =====
-- What `hid_open` and `hid_force_open` of src/hid_opening.c do once the search has found a device.
use libhid.Base.{
  ℕ, ◌≡◌, ◌≢◌, refl, sym, ap, ◌∙◌, none, some, inl, inr, ℤ, is_neg, arith, Bool-cases, ◌∷◌,
}
use libhid.Types.{
  HidReturn, success, device_not_found, fail_claim_iface, HidInterface, HidInterfaceMatcher,
  claim_interface,
}
use libhid.State.{Env, Library, and_then}
use libhid.State.Handles.{Quiet, Dropped, Quiet-trans, Quiet-Dropped}
use libhid.State.Returns.{Returns, returns, bind, mono, load_then}
use libhid.OpenList.{remove_open_device}
use libhid.Closing.{hid_close}
use libhid.Closing.Laws.{hid_close-Closed}
use libhid.Parsing.Preparing.{identity}
use libhid.Preparation.Laws.{hid_prepare_interface-Readied}
use libhid.Finding.{is_success}
use libhid.ForceClaim.{Platform}
use libhid.ForceClaim.Laws.{hid_os_force_claim-Effect}
use libhid.Opening.{finish_open, claim_and_finish, force_claim_and_finish}
use libhid.Opening.Outcome.{IsOpened, success_of_test, not_success}

-- What follows a search that found a device: it never says that none was found, and with success the
-- interface is open and still has the device. Of the handles that were open one is closed if it fails.
pub record Finished {W P : Type 0} (p : ℕ) (i : HidInterface P) (s : Library W P) (r : HidReturn)
    (t : Library W P) : Type 0 where
  pub other : r ≢ device_not_found
  pub quiet : r ≡ success → Quiet s t
  pub shut : r ≢ success → Dropped s t
  pub done :
      r ≡ success
      → (now : HidInterface P) × (t.interfaces p ≡ some now)
        × IsOpened now
        × (identity now ≡ identity i)

-- What came before opened and closed no handle.
from_Quiet :
    {W P : Type 0} {p : ℕ} {i : HidInterface P} {s t u : Library W P} {r : HidReturn}
    → Quiet s t
    → Finished p i t r u
    → Finished p i s r u
from_Quiet {s = s} {t = t} {u = u} before k = record {
  other = k.other;
  quiet = λ h. Quiet-trans s t u before (k.quiet h);
  shut = λ h. Quiet-Dropped s t u before (k.shut h);
  done = k.done;
}

module _ {W P : Type 0} (env : Env W P) (p : ℕ) (s : Library W P) {i : HidInterface P}
    (there : p ≢ 0) (object : s.interfaces p ≡ some i) where
  closed-Finished :
      {j : HidInterface P} (r : HidReturn)
      → r ≢ success
      → r ≢ device_not_found
      → i.dev_handle ≢ 0
      → Returns (Finished p j s) (and_then (hid_close env p s) (λ _ u. some (r, u)))
  unfolding and_then
  closed-Finished r bad other opened = bind (hid_close-Closed env p s there object) λ _ u c.
      returns (record {
        other = other;
        quiet = λ h. absurd (bad h);
        shut = λ _. let (reply, calls, result) = c.opened opened in rw calls (omega arith);
        done = λ h. absurd (bad h);
      })

module _ {W P : Type 0} (env : Env W P) (p : ℕ) (s : Library W P) {i : HidInterface P}
    (there : p ≢ 0) (object : s.interfaces p ≡ some i)
    (absent : remove_open_device s.open_list p ≡ s.open_list) (opened : i.dev_handle ≢ 0)
    (no_data : i.hid_data ≡ none) (no_parser : i.hid_parser ≡ none) where
  finish_open-Finished : Returns (Finished p i s) (finish_open env p s)
  unfolding and_then finish_open
  finish_open-Finished =
      bind (hid_prepare_interface-Readied env p s there object opened no_data no_parser absent)
        λ r t k. elim (Bool-cases (is_success r)) [
          | inl good ↦ rw good (
              let (handle, parser, same) = k.done (success_of_test r good) in
              returns (record {
                other = λ h. cc;
                quiet = λ _. k.quiet (success_of_test r good);
                shut = λ h. absurd (h refl);
                done = λ _. (
                  k.now,
                  k.effect.object,
                  record { handle = λ z. opened (sym handle ∙ z); parser = parser },
                  same,
                );
              }))
          | inr bad ↦ rw bad (
              returns (record {
                other = k.other;
                quiet = λ h. absurd (not_success r bad h);
                shut = λ _. k.shut (not_success r bad);
                done = λ h. absurd (not_success r bad h);
              }))
        ]

module _ {W P : Type 0} (env : Env W P) (p : ℕ) (s : Library W P) {i : HidInterface P}
    (there : p ≢ 0) (object : s.interfaces p ≡ some i)
    (absent : remove_open_device s.open_list p ≡ s.open_list) (opened : i.dev_handle ≢ 0)
    (no_data : i.hid_data ≡ none) (no_parser : i.hid_parser ≡ none) where
  pub claim_and_finish-Finished :
      (interface : ℤ) → Returns (Finished p i s) (claim_and_finish env p interface s)
  unfolding and_then claim_and_finish
  claim_and_finish-Finished interface =
      let call = claim_interface i.dev_handle interface in
      let r = env.usb_call call s.world in
      let t : Library W P = record s { world = r.after; calls = (call, r.reply) ∷ s.calls } in
      load_then _ p s object (elim (Bool-cases (is_neg r.reply.ret)) [
        | inl refused ↦ rw refused (
            mono (closed-Finished env p t there object fail_claim_iface (λ h. cc) (λ h. cc) opened)
              λ _ _ k. from_Quiet refl k)
        | inr claimed ↦ rw claimed (
            mono (finish_open-Finished env p t there object absent opened no_data no_parser)
              λ _ _ k. from_Quiet refl k)
      ])

  pub force_claim_and_finish-Finished :
      (platform : Platform) (interface : ℤ) (m : HidInterfaceMatcher W) (retries : ℕ)
      → Returns (Finished p i s) (force_claim_and_finish env platform p interface m retries s)
  unfolding and_then force_claim_and_finish
  force_claim_and_finish-Finished platform interface m retries =
      bind (hid_os_force_claim-Effect env p s there object opened platform interface m retries)
        λ r t (other, quiet, e).
          let gone = ap (λ l. remove_open_device l p) e.list ∙ absent ∙ sym e.list in
          elim (Bool-cases (is_success r)) [
            | inl good ↦ rw good (
                mono (finish_open-Finished env p t there e.object gone opened no_data no_parser)
                  λ _ _ k. from_Quiet quiet k)
            | inr bad ↦ rw bad (
                mono (closed-Finished env p t there e.object r (not_success r bad) other opened)
                  λ _ _ k. from_Quiet quiet k)
          ]
