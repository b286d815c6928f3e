-- ===== src/Tests/Sessions.antt =====
-- The theorems on whole sessions, in the small world: an interface is created, opened, closed and
-- deleted.
use libhid.Base.{
  arith, ℕ, suc, ◌≡◌, ◌≢◌, refl, ◌∙◌, some, none, [], ◌∷◌, pos, inl, inr, ◌==◌, ==_iff, Bool-cases,
}
use libhid.Tests.{env, matcher, fresh, closed_one}
use libhid.Types.{HidReturn, Reply, success, init, find_busses, find_devices}
use libhid.State.{Library, update, load-some, and_then}
use libhid.State.Effect.{update_ne}
use libhid.State.Returns.{Returns, invert, and_then_known}
use libhid.Interface.{reset, hid_new_interface, hid_delete_interface}
use libhid.Initialisation.{hid_init, hid_is_initialised}
use libhid.ForceClaim.{linux}
use libhid.Opening.{hid_open, hid_force_open}
use libhid.Opening.Outcome.{Opened, reset-IsClosed}
use libhid.Opening.Laws.{hid_open-Opened}
use libhid.Closing.{hid_close}
use libhid.Closing.Laws.{Closed, hid_close-Closed}
use libhid.Session.{
  IsConsistent, Steps, stay, next, creating, initialising, opening, closing, deleting,
}
use libhid.Session.Spec.{Moves}
use libhid.Session.Refine.{view}
use libhid.Session.Invariant.{Steps-IsLive}
use libhid.Finding.Listed.{IsLive}
use libhid.Session.Simulation.{actions, Steps-Moves}
use libhid.Session.Blocks.{IsBalanced}
use libhid.Session.Holding.{HasHandles, start-HasHandles, Steps-HasHandles}
use libhid.Session.Balance.{lifecycle-Returns, Steps-IsBalanced, Steps-all_freed}
use libhid.Tests.Witnesses.{one, absent_one, closed_one-IsConsistent, fresh-IsConsistent}

abbrev reply : Reply
reply = record { ret = pos 0; handle = 0; buffer = [] }

-- After `hid_new_HIDInterface` and `hid_init`.
abbrev started : Library ℕ (Unit {0})
started = record closed_one {
  calls = (find_devices, reply) ∷ (find_busses, reply) ∷ (init, reply) ∷ [];
}

to_started : Steps env fresh started
unfolding hid_new_interface hid_init hid_is_initialised and_then
to_started = next (next stay (creating 1 refl refl)) (initialising success refl)

abbrev OpenRun : Type 0
OpenRun =
    (r : HidReturn) × (t : Library ℕ (Unit {0})) × (hid_open env 1 (pos 0) (some matcher) started
      ≡ some (r, t))
    × Opened 1 reset started r t

open_run : OpenRun
open_run =
    invert
      (hid_open-Opened env 1 started one refl reset-IsClosed tt absent_one (pos 0) (some matcher))

abbrev CloseRun : OpenRun → Type 0
CloseRun o =
    (r : HidReturn) × (t : Library ℕ (Unit {0})) × (hid_close env 1 (o.1) ≡ some (r, t))
    × Closed 1 (o.3.now) (o.1) r t

close_run : (o : OpenRun) → CloseRun o
close_run o = invert (hid_close-Closed env 1 (o.1) one (o.3.object))

abbrev closed_again : Library ℕ (Unit {0})
closed_again = (close_run open_run).1

abbrev deleted : Library ℕ (Unit {0})
deleted = record closed_again {
  interfaces = update closed_again.interfaces 1 none;
  frees = suc closed_again.frees;
}

abbrev opened : Library ℕ (Unit {0})
opened = open_run.1

to_opened : Steps env fresh opened
to_opened =
    let o = open_run in
    next to_started (opening 1 reset (pos 0) (some matcher) (o.0) one refl (o.2))

Steps-IsLive_example : IsLive opened
Steps-IsLive_example = Steps-IsLive env refl (λ q. refl) to_opened

to_closed : Steps env fresh closed_again
to_closed =
    let o = open_run in
    let c = close_run open_run in next to_opened (closing 1 (o.3.now) (c.0) one (o.3.object) (c.2))

to_deleted : Steps env fresh deleted
unfolding hid_delete_interface and_then
to_deleted = next to_closed (
    deleting 1 reset 0 one ((close_run open_run).3.object) reset-IsClosed
      (and_then_known _ (load-some 1 closed_again ((close_run open_run).3.object))))

nothing_left : (q : ℕ) → deleted.interfaces q ≡ none
nothing_left q = elim (Bool-cases (q == 1)) [
  | inl here ↦ rw here
  | inr other ↦
      let apart : q ≢ 1 = λ z. cc ((==_iff q 1).1 z) in
      update_ne closed_again.interfaces 1 none q apart
      ∙ (close_run open_run).3.others q apart
      ∙ open_run.3.others q apart
      ∙ update_ne fresh.interfaces 1 (some reset) q apart
]

fresh-IsBalanced : IsBalanced fresh
fresh-IsBalanced = record { addresses = []; distinct = tt; complete = λ q j h. cc; account = refl }

Steps-IsBalanced_example : IsBalanced closed_again
Steps-IsBalanced_example = Steps-IsBalanced env to_closed fresh-IsConsistent fresh-IsBalanced

Steps-all_freed_example : deleted.mallocs ≡ deleted.frees
Steps-all_freed_example = Steps-all_freed env refl (λ q. refl) refl to_deleted nothing_left

started-IsConsistent : IsConsistent started
started-IsConsistent =
    let c = closed_one-IsConsistent in
    record { valid = c.valid; states = c.states; listed = c.listed; distinct = c.distinct }

lifecycle-Returns_example :
    Returns (λ _ t. IsConsistent t × IsBalanced t) (hid_open env 1 (pos 0) (some matcher) started)
    × Returns
        (λ _ t. IsConsistent t × IsBalanced t)
        (hid_force_open env linux 1 (pos 0) (some matcher) 3 started)
    × Returns (λ _ t. IsConsistent t × IsBalanced t) (hid_close env 1 started)
lifecycle-Returns_example =
    lifecycle-Returns env 1 started one refl started-IsConsistent
      (Steps-IsBalanced env to_started fresh-IsConsistent fresh-IsBalanced) linux (pos 0)
      (some matcher) 3

Steps-HasHandles_example : HasHandles closed_again
Steps-HasHandles_example =
    Steps-HasHandles env to_closed fresh-IsConsistent (start-HasHandles (λ q. refl) (omega arith))

Steps-Moves_example : Moves (view fresh) (actions env to_closed) (view closed_again)
Steps-Moves_example = Steps-Moves env to_closed fresh-IsConsistent
