-- ===== src/Exchange/Idle.antt =====
-- Set_Idle (src/hid_exchange.c): what is sent, and what the result says.
use libhid.Base.{
  ℕ, ◌+◌, ◌*◌, ◌%◌, ◌≤◌, ◌<◌, ◌≡◌, ◌↔◌, ◌⊎◌, refl, ap, Bool, true, false, some, inl, inr, arith, [],
  ◌∷◌, ℤ, pos, eq_ℤ, eq_ℤ_iff, Bool-cases, ltb, ltb→lt, if◌then◌else◌,
}
use libhid.Types.{
  HidReturn, success, invalid_parameter, fail_get_report, HidInterface, Reply, UsbCall, control_out,
}
use libhid.State.{Env, Library, and_then}
use libhid.State.Returns.{Returns, returns, load_then, taken, skipped}
use libhid.Preparation.{usb_timeout}
use libhid.Exchange.{hid_set_idle, hid_set_idle_request}

-- What Set_Idle does: nothing for an argument over 255, and one request otherwise.
pub record IdleSet {W P : Type 0} (env : Env W P) (i : HidInterface P) (duration report_id : ℕ)
    (s : Library W P) (r : HidReturn) (t : Library W P) : Type 0 where
  pub interfaces : t.interfaces ≡ s.interfaces
  pub refused : (255 < duration) ⊎ (255 < report_id) → (r ≡ invalid_parameter) × (t.calls ≡ s.calls)
  pub sent :
      duration ≤ 255
      → report_id ≤ 255
      → (reply : Reply) × (t.calls
          ≡ (
            control_out i.dev_handle
                (env.usb_type_class + env.usb_recip_interface)
                hid_set_idle_request
                (report_id + duration * 256)
                i.interface
                []
                0
                usb_timeout,
            reply,
          )
            ∷ s.calls)
        × ((r ≡ success) ↔ (reply.ret ≡ pos 0))

success_if : (b : Bool) → ((if b then success else fail_get_report) ≡ success) ↔ (b ≡ true)
success_if true = (λ _. refl, λ _. refl)
success_if false = (λ h. cc, λ h. cc)

small_enough : (n : ℕ) → ltb 255 n ≡ false → n ≤ 255
small_enough n h = ground arith

succeeded :
    (len : ℤ) → ((if eq_ℤ len (pos 0) then success else fail_get_report) ≡ success) ↔ (len ≡ pos 0)
succeeded len = (
  λ h. (eq_ℤ_iff len (pos 0)).0 ((success_if (eq_ℤ len (pos 0))).0 h),
  λ h. (success_if (eq_ℤ len (pos 0))).1 ((eq_ℤ_iff len (pos 0)).1 h),
)

neither : {d n : ℕ} → (255 < d) ⊎ (255 < n) → d ≤ 255 → ¬ (n ≤ 255)
neither (inl a) h k = omega arith
neither (inr a) h k = omega arith

refused_IdleSet :
    {W P : Type 0} {env : Env W P} {i : HidInterface P} {duration report_id : ℕ} {s : Library W P}
    → (255 < duration) ⊎ (255 < report_id)
    → IdleSet env i duration report_id s invalid_parameter s
refused_IdleSet {duration = d} {report_id = n} over = record {
  interfaces = refl;
  refused = λ _. (refl, refl);
  sent = λ h k. absurd (neither over h k);
}

module _ {W P : Type 0} (env : Env W P) (p : ℕ) (s : Library W P) {i : HidInterface P}
    (object : s.interfaces p ≡ some i) (duration report_id : ℕ) where
  -- `hid_set_idle` of an existing interface, open or not, always returns and changes no interface. A
  -- duration or a report number over 255 is refused and nothing is sent; otherwise one Set_Idle
  -- request goes out, the duration in the upper byte of its value and the report in the lower, and
  -- the result is success exactly if libusb returned 0.
  pub hid_set_idle-IdleSet :
      Returns (IdleSet env i duration report_id s) (hid_set_idle env p duration report_id s)
  unfolding and_then hid_set_idle
  hid_set_idle-IdleSet =
      let call : ℕ → UsbCall = λ v.
        control_out i.dev_handle (env.usb_type_class + env.usb_recip_interface) hid_set_idle_request
          (report_id + v * 256) i.interface [] 0 usb_timeout in
      let reply : Reply = (env.usb_call (call (duration % 256)) s.world).reply in
      elim (Bool-cases (ltb 255 duration)) [
        | inl long ↦ taken _ _ s long (returns (refused_IdleSet (inl (ltb→lt 255 duration long))))
        | inr short ↦ skipped _ _ s short (elim (Bool-cases (ltb 255 report_id)) [
          | inl big ↦ taken _ _ s big (returns (refused_IdleSet (inr (ltb→lt 255 report_id big))))
          | inr small ↦ skipped _ _ s small (
              load_then _ p s object (
                returns (record {
                  interfaces = refl;
                  refused = λ h.
                      absurd
                        (neither h (small_enough duration short) (small_enough report_id small));
                  sent = λ h _.
                      let low : duration % 256 ≡ duration = omega arith in
                      (reply, ap (λ v. (call v, reply) ∷ s.calls) low, succeeded reply.ret);
                })))
        ])
      ]
