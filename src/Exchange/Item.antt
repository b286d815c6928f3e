-- ===== src/Exchange/Item.antt =====
-- `hid_get_item_value` of src/hid_exchange.c: the request, the value, and the buffer of 32 bytes.
use libhid.Base.{ℕ, ◌≤◌, ◌≡◌, ◌≢◌, true, Option, none, some, List, ◌∷◌, ℤ, pos, length}
use libhid.Types.{
  HidReturn, success, fail_get_report, HidInterface, HidData, HidParser, Reply, UsbCall,
}
use libhid.State.{Env, Library, update}
use libhid.State.Returns.{Returns}
use libhid.State.Effect.{Effect}
use libhid.Exchange.{item_feature, hid_rt_feature, item_received, hid_get_item_value}
use libhid.Exchange.Reports.{wanted, get_call}

-- The state with other contents of the interface.
abbrev with_object : {W P : Type 0} → ℕ → Library W P → HidInterface P → Library W P
with_object p s j = record s { interfaces = update s.interfaces p (some j) }

-- What the call has done: one request; the value that the HID parser takes out of the bytes if libusb
-- read all of them, and an error otherwise.
pub record Valued {W P : Type 0} (env : Env W P) (p : ℕ) (i : HidInterface P) (s : Library W P)
    (request : UsbCall) (reply : Reply) (d : HidData) (size : ℕ) (r : HidReturn × Option ℤ)
    (t : Library W P) : Type 0 where
  pub now : HidInterface P
  pub effect : Effect p i s now t
  pub sent : t.calls ≡ (request, reply) ∷ s.calls
  pub complete :
      reply.ret ≡ pos size
      → (r ≡ (success, some ((env.get_value reply.buffer d).value)))
        × (now.hid_data ≡ some (env.get_value reply.buffer d))
  pub incomplete : reply.ret ≢ pos size → r ≡ (fail_get_report, none)

module _ {W P : Type 0} (env : Env W P) (p : ℕ) (s : Library W P) {i : HidInterface P}
    (there : p ≢ 0) (object : s.interfaces p ≡ some i) (opened : i.dev_handle ≢ 0) {d : HidData}
    {q : HidParser P} (data_there : i.hid_data ≡ some d) (parser_there : i.hid_parser ≡ some q)
    (path : List ℕ) (depth : ℕ) (long : depth ≤ length path) (room : depth ≤ length d.nodes)
    (size : ℕ) where
  -- What the HID parser finds, and the request for it.
  abbrev pub item : HidData
  item = (env.find_object q (wanted d item_feature path depth)).hid_data

  abbrev pub item_request : UsbCall
  item_request = get_call env i.dev_handle hid_rt_feature item.report_id i.interface size

  abbrev pub item_reply : Reply
  item_reply = (env.usb_call item_request s.world).reply

  -- The call up to its transfer.
  record Asked : Type 0 where
    after : Library W P
    now : HidInterface P
    effect : Effect p i s now after
    sent : after.calls ≡ (item_request, item_reply) ∷ s.calls
    data_kept : now.hid_data ≡ some item
    handle : now.dev_handle ≢ 0
    runs :
        hid_get_item_value env p path depth true s ≡ item_received env p true size item_reply after
