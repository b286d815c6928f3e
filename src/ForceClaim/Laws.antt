-- ===== src/ForceClaim/Laws.antt =====
-- `hid_os_force_claim` of src/linux.c, src/bsd.c and src/darwin.c: its tries and its result.
use libhid.Base.{
  if◌then◌else◌, Bool, false, ℕ, zero, suc, ◌+◌, ◌≤◌, ◌≡◌, ◌≢◌, refl, true, some, List, [], ◌∷◌,
  inl, inr, arith, ℤ, pos, is_neg, eq_ℤ, eq_ℤ_iff, Bool-cases, ◌⊎◌,
}
use libhid.Types.{
  device_not_found, HidReturn, success, fail_claim_iface, fail_detach_driver, HidInterface,
  HidInterfaceMatcher, UsbCall, Reply, claim_interface, detach_kernel_driver,
}
use libhid.State.{Env, Library, and_then, load-some}
use libhid.State.Handles.{Quiet}
use libhid.State.Returns.{Returns, returns, mono}
use libhid.State.Effect.{Effect, Effect-trans, Effect-usb}
use libhid.Interface.Laws.{eq_false, hid_is_opened_open}
use libhid.ForceClaim.{
  Platform, linux, bsd, darwin, claim_loop, claim_bsd, claim_darwin, claim_on, hid_os_force_claim,
}

-- The calls of one kind among those made.
abbrev pub claims : List (UsbCall × Reply) → ℕ
claims [] = 0
claims ((claim_interface _ _, _) ∷ calls) = suc (claims calls)
claims ((_, _) ∷ calls) = claims calls

abbrev pub detaches : List (UsbCall × Reply) → ℕ
detaches [] = 0
detaches ((detach_kernel_driver _ _, _) ∷ calls) = suc (detaches calls)
detaches ((_, _) ∷ calls) = detaches calls

-- How the loop on Linux ends after at most `retries` retries.
pub record Tried {W P : Type 0} (handle : ℕ) (interface : ℤ) (retries : ℕ) (s : Library W P)
    (r : HidReturn) (s' : Library W P) : Type 0 where
  pub detached : detaches s'.calls ≤ detaches s.calls + retries
  pub claimed : claims s'.calls ≤ claims s.calls + retries + 1
  pub outcome :
      ((r ≡ success)
        × ((reply : Reply) × (rest : List (UsbCall × Reply)) × (s'.calls
              ≡ (claim_interface handle interface, reply) ∷ rest)
            × (reply.ret ≡ pos 0)))
      ⊎ (((r ≡ fail_detach_driver)
            × ((reply : Reply) × (rest : List (UsbCall × Reply)) × (s'.calls
                  ≡ (detach_kernel_driver handle interface, reply) ∷ rest)
                × (is_neg reply.ret ≡ true)))
          ⊎ ((r ≡ fail_claim_iface)
              × (claims s'.calls ≡ claims s.calls + retries + 1)
              × (detaches s'.calls ≡ detaches s.calls + retries)))

-- A failed claim and a detach come before the remaining tries.
one_more :
    {W P : Type 0} {handle : ℕ} {interface : ℤ} {retries : ℕ} {s u v : Library W P} {x : HidReturn}
    → claims u.calls ≡ suc (claims s.calls)
    → detaches u.calls ≡ suc (detaches s.calls)
    → Tried handle interface retries u x v
    → Tried handle interface (suc retries) s x v
one_more c d k = record {
  detached = omega (arith, k.detached);
  claimed = omega (arith, k.claimed);
  outcome = elim k.outcome [
    | inl won ↦ inl won
    | inr (inl stuck) ↦ inr (inl stuck)
    | inr (inr (e, all_claims, all_detaches)) ↦ inr (inr (e, omega arith, omega arith))
  ];
}

module _ {W P : Type 0} (env : Env W P) (handle : ℕ) (interface : ℤ) where
  claim_loop-Tried :
      (retries : ℕ) (s : Library W P)
      → Returns (Tried handle interface retries s) (claim_loop env handle interface retries s)
  unfolding and_then claim_loop
  claim_loop-Tried zero s =
      let call = claim_interface handle interface in
      let r = env.usb_call call s.world in
      elim (Bool-cases (eq_ℤ r.reply.ret (pos 0))) [
        | inl good ↦ rw good (
            returns (record {
              detached = omega arith;
              claimed = omega arith;
              outcome = inl (refl, (r.reply, s.calls, refl, (eq_ℤ_iff r.reply.ret (pos 0)).0 good));
            }))
        | inr bad ↦ rw bad (
            returns (record {
              detached = omega arith;
              claimed = omega arith;
              outcome = inr (inr (refl, omega arith, omega arith));
            }))
      ]
  claim_loop-Tried (suc retries) s =
      let call = claim_interface handle interface in
      let r = env.usb_call call s.world in
      let t : Library W P = record s { world = r.after; calls = (call, r.reply) ∷ s.calls } in
      let again = detach_kernel_driver handle interface in
      let d = env.usb_call again t.world in
      let u : Library W P = record t { world = d.after; calls = (again, d.reply) ∷ t.calls } in
      elim (Bool-cases (eq_ℤ r.reply.ret (pos 0))) [
        | inl good ↦ rw good (
            returns (record {
              detached = omega arith;
              claimed = omega arith;
              outcome = inl (refl, (r.reply, s.calls, refl, (eq_ℤ_iff r.reply.ret (pos 0)).0 good));
            }))
        | inr bad ↦ rw bad (elim (Bool-cases (is_neg d.reply.ret)) [
          | inl stuck ↦ rw stuck (
              returns (record {
                detached = omega arith;
                claimed = omega arith;
                outcome = inr (inl (refl, (d.reply, t.calls, refl, stuck)));
              }))
          | inr freed ↦ rw freed (mono (claim_loop-Tried retries u) λ x v k. one_more refl refl k)
        ])
      ]

claimed_or_not : (b : Bool) → (if b then success else fail_claim_iface) ≢ device_not_found
claimed_or_not true h = cc
claimed_or_not false h = cc

refused_or_not : (b : Bool) → (if b then fail_claim_iface else success) ≢ device_not_found
refused_or_not true h = cc
refused_or_not false h = cc

module _ {W P : Type 0} (env : Env W P) (p : ℕ) (handle : ℕ) (interface : ℤ) where
  claim_loop-Effect :
      (retries : ℕ) (s : Library W P) {i : HidInterface P}
      → s.interfaces p ≡ some i
      → Returns
          (λ r t. (r ≢ device_not_found) × Quiet s t × Effect p i s i t)
          (claim_loop env handle interface retries s)
  unfolding and_then claim_loop
  claim_loop-Effect zero s object = returns (claimed_or_not _, refl, Effect-usb object _ _)
  claim_loop-Effect (suc retries) s object =
      let call = claim_interface handle interface in
      let r = env.usb_call call s.world in
      let t : Library W P = record s { world = r.after; calls = (call, r.reply) ∷ s.calls } in
      let again = detach_kernel_driver handle interface in
      let d = env.usb_call again t.world in
      let u : Library W P = record t { world = d.after; calls = (again, d.reply) ∷ t.calls } in
      elim (Bool-cases (eq_ℤ r.reply.ret (pos 0))) [
        | inl good ↦ rw good (returns (λ h. cc, refl, Effect-usb object _ _))
        | inr bad ↦ rw bad (elim (Bool-cases (is_neg d.reply.ret)) [
          | inl stuck ↦ rw stuck (returns (λ h. cc, refl, Effect-usb object _ _))
          | inr freed ↦ rw freed (
              mono (claim_loop-Effect retries u object)
                λ _ _ (other, quiet, e). (other, quiet, Effect-trans (Effect-usb object _ _) e))
        ])
      ]

  claim_on-Effect :
      (platform : Platform) (retries : ℕ) (s : Library W P) {i : HidInterface P}
      → s.interfaces p ≡ some i
      → Returns
          (λ r t. (r ≢ device_not_found) × Quiet s t × Effect p i s i t)
          (claim_on env platform handle interface retries s)
  unfolding and_then claim_on claim_bsd claim_darwin
  claim_on-Effect linux retries s object = claim_loop-Effect retries s object
  claim_on-Effect bsd retries s object = returns (refused_or_not _, refl, Effect-usb object _ _)
  claim_on-Effect darwin retries s object = returns (λ h. cc, refl, Effect-usb object _ _)

module _ {W P : Type 0} (env : Env W P) (p : ℕ) (s : Library W P) {i : HidInterface P}
    (there : p ≢ 0) (object : s.interfaces p ≡ some i) (opened : i.dev_handle ≢ 0) where
  -- At an open interface and a matcher, what is left is the platform's way to claim.
  pub hid_os_force_claim_lem :
      (platform : Platform) (interface : ℤ) (m : HidInterfaceMatcher W) (retries : ℕ)
      → hid_os_force_claim env platform p interface (some m) retries s
        ≡ claim_on env platform i.dev_handle interface retries s
  unfolding and_then hid_os_force_claim
  hid_os_force_claim_lem platform interface m retries =
      rw (eq_false p 0 there, hid_is_opened_open p s there object opened, load-some p s object)

  pub hid_os_force_claim-Effect :
      (platform : Platform) (interface : ℤ) (m : HidInterfaceMatcher W) (retries : ℕ)
      → Returns
          (λ r t. (r ≢ device_not_found) × Quiet s t × Effect p i s i t)
          (hid_os_force_claim env platform p interface (some m) retries s)
  hid_os_force_claim-Effect platform interface m retries =
      rw (hid_os_force_claim_lem platform interface m retries)
        (claim_on-Effect env p i.dev_handle interface platform retries s object)

  -- On Linux a forced claim of an open interface always returns: it claims at most once more than
  -- it has retries and detaches the kernel's driver at most once for each; it succeeds only when its
  -- last call claimed the interface, reports a driver that it could not detach only when its last
  -- call failed to detach it, and otherwise gives up after using every retry.
  pub force_claim_tries :
      (interface : ℤ) (m : HidInterfaceMatcher W) (retries : ℕ)
      → Returns
          (Tried i.dev_handle interface retries s)
          (hid_os_force_claim env linux p interface (some m) retries s)
  unfolding claim_on
  force_claim_tries interface m retries =
      rw (hid_os_force_claim_lem linux interface m retries)
        (claim_loop-Tried env i.dev_handle interface retries s)
