-- ===== src/Exchange/Interrupt.antt =====
-- Interrupt transfers (src/hid_exchange.c): what is sent, and what the result says.
use libhid.Base.{
  ℕ, ◌≡◌, ◌≢◌, ◌↔◌, ◌⊎◌, refl, ap, Option, none, Bytes, Bool, true, false, some, inl, inr, ◌∷◌, ℤ,
  is_neg, eq_ℤ, eq_ℤ_iff, signed, Bool-cases, ◌==◌, ==_iff,
}
use libhid.Types.{
  HidReturn, success, timeout, fail_int_read, invalid_parameter, device_not_opened, HidInterface,
  Reply, UsbCall,
}
use libhid.State.{Env, Library, and_then}
use libhid.State.Returns.{Returns, returns, load_then, known_then}
use libhid.Interface.Laws.{hid_is_opened_open, hid_is_opened_closed}
use libhid.Exchange.{
  is_complete, Received, interrupt_result, hid_interrupt_read, hid_interrupt_write,
}

pub is_complete_iff :
    (len : ℤ) (size : ℕ)
    → (is_complete len size ≡ true) ↔ ((is_neg len ≡ false) × (len ≡ signed size))
unfolding is_complete
is_complete_iff len size = elim (Bool-cases (is_neg len)) [
  | inl neg ↦ rw neg (λ h. cc, λ h. cc)
  | inr fine ↦
      rw fine
        (λ h. (refl, (eq_ℤ_iff len (signed size)).0 h), λ h. (eq_ℤ_iff len (signed size)).1 h.1)
]

-- What an interrupt transfer's result says about the number that libusb returned.
pub record Judged (etimedout len : ℤ) (size : ℕ) (r : HidReturn) : Type 0 where
  pub late : (r ≡ timeout) ↔ (len ≡ etimedout)
  pub complete : (r ≡ success) ↔ ((len ≢ etimedout) × ((is_neg len ≡ false) × (len ≡ signed size)))
  pub closed : (r ≡ success) ⊎ ((r ≡ timeout) ⊎ (r ≡ fail_int_read))

module _ {W P : Type 0} (env : Env W P) where
  interrupt_result-Judged :
      (len : ℤ) (size : ℕ) → Judged env.etimedout len size (interrupt_result env len size)
  unfolding interrupt_result
  interrupt_result-Judged len size = elim (Bool-cases (eq_ℤ len env.etimedout)) [
    | inl late ↦
        let same = (eq_ℤ_iff len env.etimedout).0 late in
        rw late (record {
          late = (λ _. same, λ _. refl);
          complete = (λ h. cc, λ h. absurd (h.0 same));
          closed = inr (inl refl);
        })
    | inr early ↦
        let other : len ≢ env.etimedout = λ z. cc ((eq_ℤ_iff len env.etimedout).1 z) in
        rw early (elim (Bool-cases (is_complete len size)) [
          | inl whole ↦ rw whole (record {
            late = (λ h. cc, λ h. absurd (other h));
            complete = (λ _. (other, (is_complete_iff len size).0 whole), λ _. refl);
            closed = inl refl;
          })
          | inr part ↦ rw part (record {
            late = (λ h. cc, λ h. absurd (other h));
            complete = (λ h. cc, λ h. cc ((is_complete_iff len size).1 h.1));
            closed = inr (inr refl);
          })
        ])
  ]

-- One transfer for an open interface and a buffer, none otherwise; only the world changes.
pub record ReadDone {W P : Type 0} (env : Env W P) (i : HidInterface P) (ep : ℕ) (buffer : Bool)
    (size wait : ℕ) (s : Library W P) (r : Received) (t : Library W P) : Type 0 where
  pub interfaces : t.interfaces ≡ s.interfaces
  pub no_buffer : buffer ≡ false → (r.ret ≡ invalid_parameter) × (t.calls ≡ s.calls)
  pub unopened :
      buffer ≡ true → i.dev_handle ≡ 0 → (r.ret ≡ device_not_opened) × (t.calls ≡ s.calls)
  pub opened :
      buffer ≡ true
      → i.dev_handle ≢ 0
      → (reply : Reply) × (t.calls
          ≡ (UsbCall.interrupt_read i.dev_handle ep size wait, reply) ∷ s.calls)
        × (r.buffer ≡ reply.buffer)
        × Judged env.etimedout reply.ret size r.ret

module _ {W P : Type 0} (env : Env W P) (p : ℕ) (s : Library W P) {i : HidInterface P}
    (there : p ≢ 0) (object : s.interfaces p ≡ some i) (ep : ℕ) (size wait : ℕ) where
  -- `hid_interrupt_read` of an existing interface always returns and changes no interface. Without a
  -- buffer, or for an interface that is not open, it sends nothing and says so; otherwise it makes one
  -- transfer, passes on the bytes that libusb gave, and says success exactly if libusb returned the
  -- size asked for, and timeout exactly if it returned -ETIMEDOUT.
  pub hid_interrupt_read-ReadDone :
      (buffer : Bool)
      → Returns
          (ReadDone env i ep buffer size wait s)
          (hid_interrupt_read env p ep buffer size wait s)
  unfolding and_then hid_interrupt_read
  hid_interrupt_read-ReadDone false = returns (record {
    interfaces = refl;
    no_buffer = λ _. (refl, refl);
    unopened = λ h. cc;
    opened = λ h. cc;
  })
  hid_interrupt_read-ReadDone true = elim (Bool-cases (i.dev_handle == 0)) [
    | inl shut ↦
        let none_open = (==_iff i.dev_handle 0).0 shut in
        known_then _ (hid_is_opened_closed p s there object none_open) (
          returns (record {
            interfaces = refl;
            no_buffer = λ h. cc;
            unopened = λ _ _. (refl, refl);
            opened = λ _ h. absurd (h none_open);
          }))
    | inr open_now ↦
        let handle : i.dev_handle ≢ 0 = λ z. cc ((==_iff i.dev_handle 0).1 z) in
        known_then _ (hid_is_opened_open p s there object handle) (
          load_then _ p s object (
            returns (record {
              interfaces = refl;
              no_buffer = λ h. cc;
              unopened = λ _ h. absurd (handle h);
              opened = λ _ _. (_, refl, refl, interrupt_result-Judged env _ size);
            })))
  ]

same_value : (a b : Bytes) → some a ≡ some b → a ≡ b
same_value a b e = ap value e
  where
    value : Option Bytes → Bytes
    value none = a
    value (some x) = x

-- The same of a write: the bytes go out, and nothing comes back.
pub record WriteDone {W P : Type 0} (env : Env W P) (i : HidInterface P) (ep : ℕ)
    (bytes : Option Bytes) (size wait : ℕ) (s : Library W P) (r : HidReturn) (t : Library W P)
    : Type 0 where
  pub interfaces : t.interfaces ≡ s.interfaces
  pub no_buffer : bytes ≡ none → (r ≡ invalid_parameter) × (t.calls ≡ s.calls)
  pub unopened :
      (sent : Bytes)
      → bytes ≡ some sent
      → i.dev_handle ≡ 0
      → (r ≡ device_not_opened) × (t.calls ≡ s.calls)
  pub opened :
      (sent : Bytes)
      → bytes ≡ some sent
      → i.dev_handle ≢ 0
      → (reply : Reply) × (t.calls
          ≡ (UsbCall.interrupt_write i.dev_handle ep sent size wait, reply) ∷ s.calls)
        × Judged env.etimedout reply.ret size r

module _ {W P : Type 0} (env : Env W P) (p : ℕ) (s : Library W P) {i : HidInterface P}
    (there : p ≢ 0) (object : s.interfaces p ≡ some i) (ep : ℕ) (size wait : ℕ) where
  -- `hid_interrupt_write` of an existing interface always returns and changes no interface. Without
  -- bytes, or for an interface that is not open, it sends nothing and says so; otherwise it makes one
  -- transfer of the bytes, and says success exactly if libusb returned the size given, and timeout
  -- exactly if it returned -ETIMEDOUT.
  pub hid_interrupt_write-WriteDone :
      (bytes : Option Bytes)
      → Returns
          (WriteDone env i ep bytes size wait s)
          (hid_interrupt_write env p ep bytes size wait s)
  unfolding and_then hid_interrupt_write
  hid_interrupt_write-WriteDone none = returns (record {
    interfaces = refl;
    no_buffer = λ _. (refl, refl);
    unopened = λ _ h. cc;
    opened = λ _ h. cc;
  })
  hid_interrupt_write-WriteDone (some given) = elim (Bool-cases (i.dev_handle == 0)) [
    | inl shut ↦
        let none_open = (==_iff i.dev_handle 0).0 shut in
        known_then _ (hid_is_opened_closed p s there object none_open) (
          returns (record {
            interfaces = refl;
            no_buffer = λ h. cc;
            unopened = λ _ _ _. (refl, refl);
            opened = λ _ _ h. absurd (h none_open);
          }))
    | inr open_now ↦
        let handle : i.dev_handle ≢ 0 = λ z. cc ((==_iff i.dev_handle 0).1 z) in
        let reply : Reply =
          (env.usb_call (UsbCall.interrupt_write i.dev_handle ep given size wait) s.world).reply in
        known_then _ (hid_is_opened_open p s there object handle) (
          load_then _ p s object (
            returns (record {
              interfaces = refl;
              no_buffer = λ h. cc;
              unopened = λ _ _ h. absurd (handle h);
              opened = λ sent e _. (
                reply,
                ap (λ x. (UsbCall.interrupt_write i.dev_handle ep x size wait, reply) ∷ s.calls)
                    (same_value given sent e),
                interrupt_result-Judged env reply.ret size,
              );
            })))
  ]
