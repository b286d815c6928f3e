-- ===== src/Session/Calls.antt =====
-- The calls that a program makes with an interface between opening and closing it: those of
-- src/hid_exchange.c and the two of src/hid_presentation.c.
use libhid.Base.{ℕ, ◌≡◌, ◌≢◌, refl, Bool, true, false, Option, none, some, List, Bytes, ltb}
use libhid.Types.{HidInterface}
use libhid.State.{Env, Library, M, pure, ◌>>◌, and_then, load-some}
use libhid.State.Handles.{Quiet}
use libhid.State.Safe.{Safe, gives, run_bind, run_if, run_known}
use libhid.Interface.{hid_is_opened}
use libhid.Interface.Laws.{hid_is_opened_closed}
use libhid.Opening.Outcome.{IsClosed}
use libhid.Opening.Kept.{Keeps}
use libhid.Exchange.{
  item_input, item_output, item_feature, hid_rt_input, hid_rt_output, hid_rt_feature, receive, send,
  hid_get_input_report, hid_set_output_report, hid_get_feature_report, hid_set_feature_report,
  hid_get_item_value, hid_interrupt_read, hid_interrupt_write, hid_set_idle,
}
use libhid.Exchange.Keeps.{
  receive-Keeps, send-Keeps, item-Keeps, idle-Keeps, interrupt_read-Keeps, interrupt_write-Keeps,
}
use libhid.Presentation.{hid_write_identification}
use libhid.Presentation.Tree.{hid_dump_tree}
use libhid.Presentation.Keeps.{identification-Keeps, dump_tree-Keeps}

-- A call and its arguments after the interface.
pub data Call : Type 0 where
  get_input_report get_feature_report : List ℕ → ℕ → Bool → ℕ → Call
  set_output_report set_feature_report : List ℕ → ℕ → Option Bytes → ℕ → Call
  get_item_value : List ℕ → ℕ → Bool → Call
  interrupt_read : ℕ → Bool → ℕ → ℕ → Call
  interrupt_write : ℕ → Option Bytes → ℕ → ℕ → Call
  set_idle : ℕ → ℕ → Call
  write_identification : Bool → Call
  dump_tree : ℕ → Bool → Call

-- Its result is dropped.
unfoldable pub run_call : {W P : Type 0} → Env W P → ℕ → Call → M W P (Unit {0})
run_call env p (get_input_report path depth buffer size) = do
  hid_get_input_report env p path depth buffer size
  pure tt
run_call env p (get_feature_report path depth buffer size) = do
  hid_get_feature_report env p path depth buffer size
  pure tt
run_call env p (set_output_report path depth buffer size) = do
  hid_set_output_report env p path depth buffer size
  pure tt
run_call env p (set_feature_report path depth buffer size) = do
  hid_set_feature_report env p path depth buffer size
  pure tt
run_call env p (get_item_value path depth value) = do
  hid_get_item_value env p path depth value
  pure tt
run_call env p (interrupt_read ep bytes size wait) = do
  hid_interrupt_read env p ep bytes size wait
  pure tt
run_call env p (interrupt_write ep bytes size wait) = do
  hid_interrupt_write env p ep bytes size wait
  pure tt
run_call env p (set_idle duration report_id) = do hid_set_idle env p duration report_id; pure tt
run_call env p (write_identification out) = do hid_write_identification env out p; pure tt
run_call env p (dump_tree fuel out) = do hid_dump_tree env fuel out p; pure tt

module _ {W P : Type 0} (env : Env W P) (p : ℕ) (there : p ≢ 0) where
  -- At an open interface.
  pub run_call-Keeps : (c : Call) → Keeps p (run_call env p c)
  unfolding and_then run_call hid_get_input_report hid_set_output_report hid_get_feature_report
      hid_set_feature_report
  run_call-Keeps (get_input_report path depth buffer size) s i object opened =
      run_bind
        (receive-Keeps env p there item_input hid_rt_input path depth buffer size s i object opened)
        λ _ _ k. gives k
  run_call-Keeps (get_feature_report path depth buffer size) s i object opened =
      run_bind
        (receive-Keeps env p there item_feature hid_rt_feature path depth buffer size s i object
          opened)
        λ _ _ k. gives k
  run_call-Keeps (set_output_report path depth buffer size) s i object opened =
      run_bind
        (send-Keeps env p there item_output hid_rt_output path depth buffer size s i object opened)
        λ _ _ k. gives k
  run_call-Keeps (set_feature_report path depth buffer size) s i object opened =
      run_bind
        (send-Keeps env p there item_feature hid_rt_feature path depth buffer size s i object
          opened)
        λ _ _ k. gives k
  run_call-Keeps (get_item_value path depth value) s i object opened =
      run_bind (item-Keeps env p there path depth value s i object opened) λ _ _ k. gives k
  run_call-Keeps (interrupt_read ep bytes size wait) s i object opened =
      run_bind (interrupt_read-Keeps env p there ep bytes size wait s i object opened)
        λ _ _ k. gives k
  run_call-Keeps (interrupt_write ep bytes size wait) s i object opened =
      run_bind (interrupt_write-Keeps env p there ep bytes size wait s i object opened)
        λ _ _ k. gives k
  run_call-Keeps (set_idle duration report_id) s i object opened =
      run_bind (idle-Keeps env p there duration report_id s i object opened) λ _ _ k. gives k
  run_call-Keeps (write_identification out) s i object opened =
      run_bind (identification-Keeps env p there out s i object opened) λ _ _ k. gives k
  run_call-Keeps (dump_tree fuel out) s i object opened =
      run_bind (dump_tree-Keeps env p there fuel out s i object opened) λ _ _ k. gives k

module _ {W P : Type 0} (env : Env W P) (p : ℕ) (there : p ≢ 0) (s : Library W P)
    {i : HidInterface P} (object : s.interfaces p ≡ some i) (closed : IsClosed i) where
  -- At a closed one the interfaces, the list and `initialised` stay, no block comes or goes,
  -- and no handle.
  abbrev Unmoved : Library W P → Type 0
  Unmoved t =
      (t.interfaces ≡ s.interfaces)
      × (t.open_list ≡ s.open_list)
      × (t.mallocs ≡ s.mallocs)
      × (t.frees ≡ s.frees)
      × (t.initialised ≡ s.initialised)
      × Quiet s t

  here : Unmoved s
  here = (refl, refl, refl, refl, refl, refl)

  -- A test that finds it closed.
  refused :
      {A B : Type 0} (k : Bool → M W P A) (f : A → M W P B)
      → Safe (λ _ t. Unmoved t) (k false s)
      → ((a : A) (t : Library W P) → Unmoved t → Safe (λ _ u. Unmoved u) (f a t))
      → Safe (λ _ t. Unmoved t) (and_then (and_then (hid_is_opened p s) k) f)
  refused k f stop rest =
      run_bind (run_known k (hid_is_opened_closed p s there object closed.no_handle) stop) rest

  pub run_call_closed : (c : Call) → Safe (λ _ t. Unmoved t) (run_call env p c s)
  unfolding and_then run_call hid_get_input_report hid_set_output_report hid_get_feature_report
      hid_set_feature_report receive send hid_get_item_value hid_interrupt_read hid_interrupt_write
      hid_set_idle hid_write_identification hid_dump_tree
  run_call_closed (get_input_report path depth true size) =
      refused _ _ (gives here) λ _ _ k. gives k
  run_call_closed (get_input_report path depth false size) = gives here
  run_call_closed (get_feature_report path depth true size) =
      refused _ _ (gives here) λ _ _ k. gives k
  run_call_closed (get_feature_report path depth false size) = gives here
  run_call_closed (set_output_report path depth (some bytes) size) =
      refused _ _ (gives here) λ _ _ k. gives k
  run_call_closed (set_output_report path depth none size) = gives here
  run_call_closed (set_feature_report path depth (some bytes) size) =
      refused _ _ (gives here) λ _ _ k. gives k
  run_call_closed (set_feature_report path depth none size) = gives here
  run_call_closed (get_item_value path depth value) = refused _ _ (gives here) λ _ _ k. gives k
  run_call_closed (interrupt_read ep true size wait) = refused _ _ (gives here) λ _ _ k. gives k
  run_call_closed (interrupt_read ep false size wait) = gives here
  run_call_closed (interrupt_write ep (some bytes) size wait) =
      refused _ _ (gives here) λ _ _ k. gives k
  run_call_closed (interrupt_write ep none size wait) = gives here
  run_call_closed (set_idle duration report_id) =
      run_bind
        (run_if (ltb 255 duration) _ _ s (gives here) (
          run_if (ltb 255 report_id) _ _ s (gives here)
            (run_known _ (load-some p s object) (gives here))))
        λ _ _ k. gives k
  run_call_closed (write_identification out) = refused _ _ (gives here) λ _ _ k. gives k
  run_call_closed (dump_tree fuel out) = refused _ _ (gives here) λ _ _ k. gives k
