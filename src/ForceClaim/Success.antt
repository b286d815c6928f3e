-- ===== src/ForceClaim/Success.antt =====
-- `hid_os_force_claim` of src/linux.c where the kernel gives way after some tries.
use libhid.Base.{
  ℕ, zero, suc, ◌+◌, ◌≤◌, ◌<◌, ◌≡◌, ◌≢◌, refl, false, some, ◌∷◌, inl, inr, arith, ℤ, pos, is_neg,
  eq_ℤ, eq_ℤ_iff, Bool-cases,
}
use libhid.Types.{
  HidReturn, success, HidInterface, HidInterfaceMatcher, claim_interface, detach_kernel_driver,
}
use libhid.State.{Env, Library, and_then}
use libhid.State.Returns.{Returns, returns, mono}
use libhid.ForceClaim.{linux, claim_loop, claim_on, hid_os_force_claim}
use libhid.ForceClaim.Laws.{detaches, hid_os_force_claim_lem}

module _ {W P : Type 0} where
  -- Success, and how often the driver was detached.
  abbrev pub Wins : ℕ → Library W P → HidReturn → Library W P → Type 0
  Wins k s r t = (r ≡ success) × (detaches t.calls ≤ detaches s.calls + k)

module _ {W P : Type 0} (env : Env W P) (handle : ℕ) (interface : ℤ) where
  -- The world after a claim, and after a failed claim and a detach.
  abbrev claimed : W → W
  claimed w = (env.usb_call (claim_interface handle interface) w).after

  abbrev pub rounds : ℕ → W → W
  rounds zero w = w
  rounds (suc k) w =
      rounds k (env.usb_call (detach_kernel_driver handle interface) (claimed w)).after

  -- A claim is granted after `k` rounds, none of which fails to detach the kernel's driver.
  pub record GivesWay (k : ℕ) (w : W) : Type 0 where
    pub granted : (env.usb_call (claim_interface handle interface) (rounds k w)).reply.ret ≡ pos 0
    pub detached :
        (j : ℕ)
        → j < k
        → is_neg
            (env.usb_call (detach_kernel_driver handle interface) (claimed (rounds j w))).reply.ret
          ≡ false

  later : (k : ℕ) (w : W) → GivesWay (suc k) w → GivesWay k (rounds 1 w)
  later k w g = record { granted = g.granted; detached = λ j h. g.detached (suc j) (omega arith) }

  pub claim_loop-Wins :
      (k retries : ℕ) (s : Library W P)
      → k ≤ retries
      → GivesWay k s.world
      → Returns (Wins k s) (claim_loop env handle interface retries s)
  unfolding and_then claim_loop
  claim_loop-Wins zero zero s h g = rw ((eq_ℤ_iff _ _).1 g.granted) (returns (refl, omega arith))
  claim_loop-Wins (suc k) zero s h g = absurd (omega arith)
  claim_loop-Wins zero (suc retries) s h g =
      rw ((eq_ℤ_iff _ _).1 g.granted) (returns (refl, omega arith))
  claim_loop-Wins (suc k) (suc retries) s h g =
      let c = claim_interface handle interface in
      let r = env.usb_call c s.world in
      let t : Library W P = record s { world = r.after; calls = (c, r.reply) ∷ s.calls } in
      let again = detach_kernel_driver handle interface in
      let d = env.usb_call again t.world in
      let u : Library W P = record t { world = d.after; calls = (again, d.reply) ∷ t.calls } in
      elim (Bool-cases (eq_ℤ r.reply.ret (pos 0))) [
        | inl good ↦ rw good (returns (refl, omega arith))
        | inr bad ↦
            rw (bad, g.detached 0 (omega arith))
              (mono (claim_loop-Wins k retries u (omega arith) (later k s.world g))
                λ _ v (e, few). (e, omega (arith, few)))
      ]

module _ {W P : Type 0} (env : Env W P) (p : ℕ) (s : Library W P) {i : HidInterface P}
    (there : p ≢ 0) (object : s.interfaces p ≡ some i) (opened : i.dev_handle ≢ 0) where
  -- If after some number of rounds, at most the number of retries, the kernel grants the claim, and no
  -- detach before failed, the forced claim of an open interface on Linux returns with success, and has
  -- detached the driver at most once in each of these rounds.
  pub force_claim-Wins :
      (interface : ℤ) (m : HidInterfaceMatcher W) (k retries : ℕ)
      → k ≤ retries
      → GivesWay env i.dev_handle interface k s.world
      → Returns (Wins k s) (hid_os_force_claim env linux p interface (some m) retries s)
  unfolding claim_on
  force_claim-Wins interface m k retries h g =
      rw (hid_os_force_claim_lem env p s there object opened linux interface m retries)
        (claim_loop-Wins env i.dev_handle interface k retries s h g)
