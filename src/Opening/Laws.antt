-- ===== src/Opening/Laws.antt =====
-- `hid_open` and `hid_force_open` of src/hid_opening.c, with each step that they take.
use libhid.Base.{
  ℕ, ◌≡◌, ◌≢◌, refl, sym, ap, ◌∙◌, Option, none, some, inl, inr, ℤ, is_neg, Bool-cases, ◌∷◌,
  if◌then◌else◌, not,
}
use libhid.Types.{
  HidReturn, success, not_initialised, invalid_parameter, fail_claim_iface, HidInterface,
  HidInterfaceMatcher, claim_interface,
}
use libhid.State.{Env, Library, M, and_then, update, load-some}
use libhid.State.Returns.{Returns, returns, bind, mono, load_then, known_then, taken, skipped}
use libhid.State.Effect.{Effect, Effect-trans, Effect-store, Effect-usb, Effect-refl}
use libhid.OpenList.{remove_open_device, add_open_device}
use libhid.Interface.Laws.{eq_false, hid_is_opened_closed}
use libhid.Closing.{hid_close}
use libhid.Closing.Laws.{hid_close-Closed}
use libhid.Preparation.Laws.{Closed-Effect, hid_prepare_interface-Readied}
use libhid.Finding.{is_success}
use libhid.Finding.Listed.{IsLive, IsLive-Effect}
use libhid.Finding.Laws.{hid_get_usb_handle-Acquired}
use libhid.ForceClaim.{Platform}
use libhid.ForceClaim.Laws.{hid_os_force_claim-Effect}
use libhid.Opening.{
  with_matcher, finish_open, check_open, claim_and_finish, acquire, hid_open,
  force_claim_and_finish, hid_force_open,
}
use libhid.Opening.Outcome.{
  IsClosed, Opened, from_Effect, failed_Opened, success_of_test, not_success, reset-IsClosed,
}

module _ {W P : Type 0} (env : Env W P) (p : ℕ) (s : Library W P) {i : HidInterface P}
    (there : p ≢ 0) (object : s.interfaces p ≡ some i)
    (absent : remove_open_device s.open_list p ≡ s.open_list) where
  close_failed :
      (r : HidReturn)
      → r ≢ success
      → Returns (Opened p i s) (and_then (hid_close env p s) (λ _ u. some (r, u)))
  unfolding and_then
  close_failed r bad =
      bind (hid_close-Closed env p s there object)
        λ _ u c. returns (failed_Opened (Closed-Effect c absent) reset-IsClosed bad)

  finish_open-Opened :
      i.dev_handle ≢ 0
      → i.hid_data ≡ none
      → i.hid_parser ≡ none
      → Returns (Opened p i s) (finish_open env p s)
  unfolding and_then finish_open
  finish_open-Opened opened no_data no_parser =
      bind (hid_prepare_interface-Readied env p s there object opened no_data no_parser absent)
        λ r t k. elim (Bool-cases (is_success r)) [
          | inl good ↦ rw good (
              let ready = k.done (success_of_test r good) in
              returns (record {
                now = k.now;
                object = k.effect.object;
                others = k.effect.others;
                ready = k.effect.ready;
                balance = k.effect.balance;
                done = λ _. (
                  record { handle = λ z. opened (sym ready.0 ∙ z); parser = ready.1 },
                  ap (λ l. (add_open_device l p).list) k.effect.list,
                );
                undone = λ h. absurd (h refl);
              }))
          | inr bad ↦ rw bad (
              returns (
                failed_Opened k.effect (rw (k.undone (not_success r bad)) reset-IsClosed)
                  (not_success r bad)))
        ]

module _ {W P : Type 0} (env : Env W P) (p : ℕ) (s : Library W P) {i : HidInterface P}
    (there : p ≢ 0) (object : s.interfaces p ≡ some i)
    (absent : remove_open_device s.open_list p ≡ s.open_list) (opened : i.dev_handle ≢ 0)
    (no_data : i.hid_data ≡ none) (no_parser : i.hid_parser ≡ none) where
  claim_and_finish-Opened :
      (interface : ℤ) → Returns (Opened p i s) (claim_and_finish env p interface s)
  unfolding and_then claim_and_finish
  claim_and_finish-Opened interface =
      let call = claim_interface i.dev_handle interface in
      let r = env.usb_call call s.world in
      let t : Library W P = record s { world = r.after; calls = (call, r.reply) ∷ s.calls } in
      load_then _ p s object (elim (Bool-cases (is_neg r.reply.ret)) [
        | inl refused ↦ rw refused (
            mono (close_failed env p t there object absent fail_claim_iface λ h. cc)
              λ _ _ k. from_Effect (Effect-usb object _ _) k)
        | inr claimed ↦ rw claimed (
            mono (finish_open-Opened env p t there object absent opened no_data no_parser)
              λ _ _ k. from_Effect (Effect-usb object _ _) k)
      ])

  force_claim_and_finish-Opened :
      (platform : Platform) (interface : ℤ) (m : HidInterfaceMatcher W) (retries : ℕ)
      → Returns (Opened p i s) (force_claim_and_finish env platform p interface m retries s)
  unfolding and_then force_claim_and_finish
  force_claim_and_finish-Opened platform interface m retries =
      bind (hid_os_force_claim-Effect env p s there object opened platform interface m retries)
        λ r t (_, _, e).
          let gone = ap (λ l. remove_open_device l p) e.list ∙ absent ∙ sym e.list in
          elim (Bool-cases (is_success r)) [
            | inl good ↦ rw good (
                mono (finish_open-Opened env p t there e.object gone opened no_data no_parser)
                  λ _ _ k. from_Effect e k)
            | inr bad ↦ rw bad (
                mono (close_failed env p t there e.object gone r (not_success r bad))
                  λ _ _ k. from_Effect e k)
          ]

module _ {W P : Type 0} (env : Env W P) (p : ℕ) (s : Library W P) {i : HidInterface P}
    (there : p ≢ 0) (object : s.interfaces p ≡ some i) (closed : IsClosed i) (live : IsLive s)
    (absent : remove_open_device s.open_list p ≡ s.open_list) where
  -- Whatever follows a successful search, if it opens or closes the interface.
  acquire_then :
      (interface : ℤ) (m : HidInterfaceMatcher W) (go : M W P HidReturn)
      → ((t : Library W P) (j : HidInterface P)
          → t.interfaces p ≡ some j
          → remove_open_device t.open_list p ≡ t.open_list
          → j.dev_handle ≢ 0
          → j.hid_data ≡ none
          → j.hid_parser ≡ none
          → Returns (Opened p j t) (go t))
      → Returns (Opened p i s) (
          and_then (acquire env p interface m s) λ r. if is_success r then go else λ t. some (r, t))
  unfolding and_then acquire
  acquire_then interface m go next =
      let j : HidInterface P = record i { interface = interface } in
      let t : Library W P = record s { interfaces = update s.interfaces p (some j) } in
      let e : Effect p i s j t = Effect-store object j refl in
      rw (load-some p s object) (
        bind (hid_get_usb_handle-Acquired env p m t e.object (IsLive-Effect e live)) λ r u k.
          let gone = ap (λ l. remove_open_device l p) k.effect.list ∙ absent ∙ sym k.effect.list in
          elim (Bool-cases (is_success r)) [
            | inl good ↦ rw good (
                mono
                  (next u k.now k.effect.object gone (k.gained good) (k.data_kept ∙ closed.no_data)
                    (k.parser_kept ∙ closed.no_parser))
                  λ _ _ o. from_Effect (Effect-trans e k.effect) o)
            | inr bad ↦ rw bad (
                returns (
                  failed_Opened (Effect-trans e k.effect)
                    (record {
                      no_handle = (k.refused bad).0;
                      no_data = k.data_kept ∙ closed.no_data;
                      no_parser = k.parser_kept ∙ closed.no_parser;
                    })
                    (not_success r bad)))
          ])

  stays : (r : HidReturn) → r ≢ success → Opened p i s r s
  stays r bad = failed_Opened (Effect-refl object) closed bad

  check_open-Opened :
      (matcher : Option (HidInterfaceMatcher W)) (go : HidInterfaceMatcher W → M W P HidReturn)
      → ((m : HidInterfaceMatcher W) → Returns (Opened p i s) (go m s))
      → Returns (Opened p i s) (check_open env p matcher go s)
  unfolding and_then check_open with_matcher
  check_open-Opened matcher go next = elim (Bool-cases s.initialised) [
    | inr off ↦ taken _ _ s (ap not off) (returns (stays not_initialised λ h. cc))
    | inl on ↦ skipped _ _ s (ap not on) (
        skipped _ _ s (eq_false p 0 there) (
          known_then _ (hid_is_opened_closed p s there object closed.no_handle)
            (by_matcher matcher)))
  ]
    where
      by_matcher :
          (o : Option (HidInterfaceMatcher W)) → Returns (Opened p i s) (with_matcher o go s)
      by_matcher none = returns (stays invalid_parameter λ h. cc)
      by_matcher (some m) = next m

  -- `hid_open` of an existing closed interface that is not on the list, where no pointer on the list
  -- dangles, always returns, whatever libusb and `malloc` answer. On success the interface has a handle
  -- and a parser and has been added to the list if there was room. With any other result it has no
  -- handle and no parser and the list is as it was. Either way no other interface has changed, and
  -- every block that was allocated is freed or owned by the interface.
  pub hid_open-Opened :
      (interface : ℤ) (matcher : Option (HidInterfaceMatcher W))
      → Returns (Opened p i s) (hid_open env p interface matcher s)
  unfolding hid_open
  hid_open-Opened interface matcher = check_open-Opened matcher _ λ m.
      acquire_then interface m _ λ t j object absent opened no_data no_parser.
        claim_and_finish-Opened env p t there object absent opened no_data no_parser interface

  -- `hid_force_open` of an existing closed interface that is not on the list, where no pointer on the
  -- list dangles, always returns, on each platform and for any number of retries, and leaves what
  -- `hid_open` leaves: an open and added interface on success, a closed one and the list as it was
  -- otherwise, no other interface changed, and every block freed or owned.
  pub hid_force_open-Opened :
      (platform : Platform) (interface : ℤ) (matcher : Option (HidInterfaceMatcher W)) (retries : ℕ)
      → Returns (Opened p i s) (hid_force_open env platform p interface matcher retries s)
  unfolding hid_force_open
  hid_force_open-Opened platform interface matcher retries = check_open-Opened matcher _ λ m.
      acquire_then interface m _ λ t j object absent opened no_data no_parser.
        force_claim_and_finish-Opened env p t there object absent opened no_data no_parser platform
          interface m retries
