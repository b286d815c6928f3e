-- ===== src/Exchange/Reports.antt =====
-- Reports over the control pipe (src/hid_exchange.c): which request goes out, and what the result
-- says.
use libhid.Base.{
  ℕ, ◌+◌, ◌*◌, ◌≤◌, ◌≡◌, ◌≢◌, ◌↔◌, refl, Bool, true, false, some, Bytes, List, ◌∷◌, ℤ, is_neg,
  signed, length, if◌then◌else◌,
}
use libhid.Types.{
  HidReturn, success, fail_get_report, fail_set_report, HidInterface, HidData, HidParser, Reply,
  UsbCall, control_in, control_out,
}
use libhid.State.{Env, Library, and_then, update}
use libhid.State.Returns.{Returns, returns, bind, load_then, deref_then, known_then}
use libhid.State.Effect.{Effect, Effect-trans, Effect-store, Effect-usb}
use libhid.Interface.Laws.{hid_is_opened_open}
use libhid.Parsing.Finding.{looked_for, find-Found}
use libhid.Preparation.{usb_timeout}
use libhid.Exchange.{
  item_feature, item_input, item_output, hid_rt_feature, hid_rt_input, hid_rt_output,
  hid_report_get, hid_report_set, is_complete, look_up, receive, send, hid_get_input_report,
  hid_get_feature_report, hid_set_output_report, hid_set_feature_report,
}
use libhid.Exchange.Interrupt.{is_complete_iff}

-- What the HID parser is asked for by a report function: the type and no report number.
abbrev pub wanted : HidData → ℕ → List ℕ → ℕ → HidData
wanted d item path depth = looked_for (record d { item_type = item; report_id = 0 }) path depth

-- The class requests GET_REPORT and SET_REPORT: the report's type is the upper byte of the value.
abbrev pub get_call : {W P : Type 0} → Env W P → ℕ → ℕ → ℕ → ℤ → ℕ → UsbCall
get_call env handle rt report_id interface size =
    control_in handle (env.usb_endpoint_in + env.usb_type_class + env.usb_recip_interface)
      hid_report_get (report_id + rt * 256) interface size usb_timeout

abbrev pub set_call : {W P : Type 0} → Env W P → ℕ → ℕ → ℕ → ℤ → Bytes → ℕ → UsbCall
set_call env handle rt report_id interface bytes size =
    control_out handle (env.usb_endpoint_out + env.usb_type_class + env.usb_recip_interface)
      hid_report_set (report_id + rt * 256) interface bytes size usb_timeout

-- After one exchange: only the interface and the world have changed, one request was made, and the
-- result is success exactly if libusb moved the whole report.
pub record Exchanged {W P : Type 0} (p : ℕ) (i : HidInterface P) (s : Library W P)
    (request : UsbCall) (size : ℕ) (r : HidReturn) (reply : Reply) (t : Library W P) : Type 0 where
  pub now : HidInterface P
  pub effect : Effect p i s now t
  pub sent : t.calls ≡ (request, reply) ∷ s.calls
  pub complete : (r ≡ success) ↔ ((is_neg reply.ret ≡ false) × (reply.ret ≡ signed size))

succeeds :
    (b : Bool) (bad : HidReturn)
    → bad ≢ success
    → ((if b then success else bad) ≡ success) ↔ (b ≡ true)
succeeds true bad h = (λ _. refl, λ _. refl)
succeeds false bad h = (λ z. absurd (h z), λ z. cc)

judged :
    (len : ℤ) (size : ℕ) (bad : HidReturn)
    → bad ≢ success
    → ((if is_complete len size then success else bad) ≡ success)
      ↔ ((is_neg len ≡ false) × (len ≡ signed size))
judged len size bad h = (
  λ z. (is_complete_iff len size).0 ((succeeds (is_complete len size) bad h).0 z),
  λ z. (succeeds (is_complete len size) bad h).1 ((is_complete_iff len size).1 z),
)

module _ {W P : Type 0} (env : Env W P) (p : ℕ) (s : Library W P) {i : HidInterface P}
    (there : p ≢ 0) (object : s.interfaces p ≡ some i) (opened : i.dev_handle ≢ 0) {d : HidData}
    {q : HidParser P} (data_there : i.hid_data ≡ some d) (parser_there : i.hid_parser ≡ some q)
    (path : List ℕ) (depth : ℕ) (long : depth ≤ length path) (room : depth ≤ length d.nodes) where
  -- What the lookup gives: the handle, the interface number and the report number that the HID
  -- parser found.
  pub look_up-Returns :
      (item : ℕ)
      → (env.find_object q (wanted d item path depth)).found ≡ true
      → Returns
          (λ a t.
            Effect p i s a.hidif t
            × (a.hidif.dev_handle ≡ i.dev_handle)
            × (a.hidif.interface ≡ i.interface)
            × (a.report_id ≡ (env.find_object q (wanted d item path depth)).hid_data.report_id)
            × (t.calls ≡ s.calls)
            × (a.hidif.hid_data ≡ some ((env.find_object q (wanted d item path depth)).hid_data))
            × (a.hidif.hid_parser ≡ some ((env.find_object q (wanted d item path depth)).parser))
            × (t.world ≡ s.world))
          (look_up env p item path depth s)
  unfolding and_then look_up
  look_up-Returns item found =
      let j : HidInterface P = record i {
        hid_data = some (record d { item_type = item; report_id = 0 });
      } in
      let t : Library W P = record s { interfaces = update s.interfaces p (some j) } in
      let e : Effect p i s j t = Effect-store object j (rw data_there) in
      load_then _ p s object (
        deref_then _ i.hid_data s data_there (
          bind
            (find-Found env p t there e.object opened refl parser_there path depth long room found)
            λ _ u k. load_then _ p u k.effect.object (
              deref_then _ k.now.hid_data u k.hid_data (
                returns (
                  Effect-trans e k.effect,
                  k.handle,
                  k.number,
                  refl,
                  k.calls,
                  k.hid_data,
                  k.hid_parser,
                  k.world,
                )))))

  abbrev get_request : ℕ → ℕ → ℕ → UsbCall
  get_request item rt size =
      get_call env i.dev_handle rt (env.find_object q (wanted d item path depth)).hid_data.report_id
        i.interface size

  abbrev set_request : ℕ → ℕ → Bytes → ℕ → UsbCall
  set_request item rt bytes size =
      set_call env i.dev_handle rt (env.find_object q (wanted d item path depth)).hid_data.report_id
        i.interface bytes size

  receive-Exchanged :
      (item rt size : ℕ)
      → (env.find_object q (wanted d item path depth)).found ≡ true
      → Returns
          (λ a t.
            (reply : Reply) × (a.buffer ≡ reply.buffer)
            × Exchanged p i s (get_request item rt size) size a.ret reply t)
          (receive env item rt p path depth true size s)
  unfolding and_then receive
  receive-Exchanged item rt size found = known_then _ (hid_is_opened_open p s there object opened) (
      bind (look_up-Returns item found) λ a u (e, handle, number, report, quiet, _, _, _).
        let reply : Reply =
          (env.usb_call (get_call env a.hidif.dev_handle rt a.report_id a.hidif.interface size)
            u.world).reply in
        returns (
          reply,
          refl,
          record {
            now = a.hidif;
            effect = Effect-trans e (Effect-usb e.object _ _);
            sent = cc;
            complete = judged reply.ret size fail_get_report (λ h. cc);
          },
        ))

  send-Exchanged :
      (item rt : ℕ) (bytes : Bytes) (size : ℕ)
      → (env.find_object q (wanted d item path depth)).found ≡ true
      → Returns
          (λ r t. (reply : Reply) × Exchanged p i s (set_request item rt bytes size) size r reply t)
          (send env item rt p path depth (some bytes) size s)
  unfolding and_then send
  send-Exchanged item rt bytes size found =
      known_then _ (hid_is_opened_open p s there object opened) (
        bind (look_up-Returns item found) λ a u (e, handle, number, report, quiet, _, _, _).
          let reply : Reply =
            (env.usb_call
              (set_call env a.hidif.dev_handle rt a.report_id a.hidif.interface bytes size)
              u.world).reply in
          returns (
            reply,
            record {
              now = a.hidif;
              effect = Effect-trans e (Effect-usb e.object _ _);
              sent = cc;
              complete = judged reply.ret size fail_set_report (λ h. cc);
            },
          ))

  -- `hid_get_input_report` of an open interface with a parser, given a buffer and a path whose input
  -- item the HID parser finds, returns and makes one request, for the input report of the number that
  -- the parser found. It passes on libusb's bytes, and succeeds exactly if libusb read `size` bytes.
  pub hid_get_input_report-Exchanged :
      (size : ℕ)
      → (env.find_object q (wanted d item_input path depth)).found ≡ true
      → Returns
          (λ a t.
            (reply : Reply) × (a.buffer ≡ reply.buffer)
            × Exchanged p i s (get_request item_input hid_rt_input size) size a.ret reply t)
          (hid_get_input_report env p path depth true size s)
  unfolding hid_get_input_report
  hid_get_input_report-Exchanged size found = receive-Exchanged item_input hid_rt_input size found

  -- `hid_get_feature_report`, likewise, for a feature item: one request, for the feature report of the
  -- number that the parser found, and success exactly if libusb read `size` bytes.
  pub hid_get_feature_report-Exchanged :
      (size : ℕ)
      → (env.find_object q (wanted d item_feature path depth)).found ≡ true
      → Returns
          (λ a t.
            (reply : Reply) × (a.buffer ≡ reply.buffer)
            × Exchanged p i s (get_request item_feature hid_rt_feature size) size a.ret reply t)
          (hid_get_feature_report env p path depth true size s)
  unfolding hid_get_feature_report
  hid_get_feature_report-Exchanged size found =
      receive-Exchanged item_feature hid_rt_feature size found

  -- `hid_set_output_report` of an open interface with a parser, given bytes and a path whose output
  -- item the HID parser finds, returns and makes one request, which sends the bytes as the output
  -- report of the number that the parser found; it succeeds exactly if libusb wrote `size` bytes.
  pub hid_set_output_report-Exchanged :
      (bytes : Bytes) (size : ℕ)
      → (env.find_object q (wanted d item_output path depth)).found ≡ true
      → Returns
          (λ r t.
            (reply : Reply) × Exchanged p i s
              (set_request item_output hid_rt_output bytes size)
              size
              r
              reply
              t)
          (hid_set_output_report env p path depth (some bytes) size s)
  unfolding hid_set_output_report
  hid_set_output_report-Exchanged bytes size found =
      send-Exchanged item_output hid_rt_output bytes size found

  -- `hid_set_feature_report`, likewise, for a feature item: one request, which sends the bytes as the
  -- feature report of the number that the parser found, and success exactly if libusb wrote `size`
  -- bytes.
  pub hid_set_feature_report-Exchanged :
      (bytes : Bytes) (size : ℕ)
      → (env.find_object q (wanted d item_feature path depth)).found ≡ true
      → Returns
          (λ r t.
            (reply : Reply) × Exchanged p i s
              (set_request item_feature hid_rt_feature bytes size)
              size
              r
              reply
              t)
          (hid_set_feature_report env p path depth (some bytes) size s)
  unfolding hid_set_feature_report
  hid_set_feature_report-Exchanged bytes size found =
      send-Exchanged item_feature hid_rt_feature bytes size found
