-- ===== src/Exchange/Kinds.antt =====
-- The report functions of src/hid_exchange.c by the kind of report.
use libhid.Base.{ℕ, ◌≤◌, ◌≡◌, ◌≢◌, Bool, true, Option, some, Bytes, List, length}
use libhid.Types.{HidReturn, HidInterface, HidData, HidParser, Reply}
use libhid.State.{Env, Library, M}
use libhid.State.Returns.{Returns}
use libhid.Exchange.{
  Received, item_feature, item_input, item_output, hid_rt_feature, hid_rt_input, hid_rt_output,
  hid_get_input_report, hid_get_feature_report, hid_set_output_report, hid_set_feature_report,
}
use libhid.Exchange.Reports.{
  wanted, get_call, set_call, Exchanged, hid_get_input_report-Exchanged,
  hid_get_feature_report-Exchanged, hid_set_output_report-Exchanged,
  hid_set_feature_report-Exchanged,
}

-- The report functions by the kind of report: the function, the parser's item and the request's type.
pub data Gettable : Type 0 where
  got_input got_feature : Gettable

pub data Settable : Type 0 where
  set_output set_feature : Settable

abbrev pub item_got : Gettable → ℕ
item_got got_input = item_input
item_got got_feature = item_feature

abbrev pub type_got : Gettable → ℕ
type_got got_input = hid_rt_input
type_got got_feature = hid_rt_feature

abbrev pub item_set : Settable → ℕ
item_set set_output = item_output
item_set set_feature = item_feature

abbrev pub type_set : Settable → ℕ
type_set set_output = hid_rt_output
type_set set_feature = hid_rt_feature

abbrev pub get_report :
    {W P : Type 0} → Env W P → Gettable → ℕ → List ℕ → ℕ → Bool → ℕ → M W P Received
get_report env got_input = hid_get_input_report env
get_report env got_feature = hid_get_feature_report env

abbrev pub set_report :
    {W P : Type 0} → Env W P → Settable → ℕ → List ℕ → ℕ → Option Bytes → ℕ → M W P HidReturn
set_report env set_output = hid_set_output_report env
set_report env set_feature = hid_set_feature_report env

module _ {W P : Type 0} (env : Env W P) (p : ℕ) (s : Library W P) {i : HidInterface P}
    (there : p ≢ 0) (object : s.interfaces p ≡ some i) (opened : i.dev_handle ≢ 0) {d : HidData}
    {q : HidParser P} (data_there : i.hid_data ≡ some d) (parser_there : i.hid_parser ≡ some q)
    (path : List ℕ) (depth : ℕ) (long : depth ≤ length path) (room : depth ≤ length d.nodes) where
  -- `hid_get_input_report` of an open interface with a parser, given a buffer and a path whose input
  -- item the HID parser finds, and `hid_get_feature_report`, given a path whose feature item it finds,
  -- return and make one request, for the input or the feature report of the number that the
  -- parser found. Each passes on libusb's bytes, and succeeds exactly if libusb read `size` bytes.
  pub get_report-Exchanged :
      (kind : Gettable) (size : ℕ)
      → (env.find_object q (wanted d (item_got kind) path depth)).found ≡ true
      → Returns
          (λ a t.
            (reply : Reply) × (a.buffer ≡ reply.buffer)
            × Exchanged p i s
                (get_call env i.dev_handle
                  (type_got kind)
                  (env.find_object q (wanted d (item_got kind) path depth)).hid_data.report_id
                  i.interface
                  size)
                size
                a.ret
                reply
                t)
          (get_report env kind p path depth true size s)
  get_report-Exchanged got_input size found =
      hid_get_input_report-Exchanged env p s there object opened data_there parser_there path depth
        long room size found
  get_report-Exchanged got_feature size found =
      hid_get_feature_report-Exchanged env p s there object opened data_there parser_there path
        depth long room size found

  -- `hid_set_output_report` of an open interface with a parser, given bytes and a path whose output item
  -- the HID parser finds, and `hid_set_feature_report`, given a path whose feature item it finds,
  -- return and make one request, which sends the bytes as the output or the feature report of
  -- the number that the parser found; each succeeds exactly if libusb wrote `size` bytes.
  pub set_report-Exchanged :
      (kind : Settable) (bytes : Bytes) (size : ℕ)
      → (env.find_object q (wanted d (item_set kind) path depth)).found ≡ true
      → Returns
          (λ r t.
            (reply : Reply) × Exchanged p i s
              (set_call env i.dev_handle
                (type_set kind)
                (env.find_object q (wanted d (item_set kind) path depth)).hid_data.report_id
                i.interface
                bytes
                size)
              size
              r
              reply
              t)
          (set_report env kind p path depth (some bytes) size s)
  set_report-Exchanged set_output bytes size found =
      hid_set_output_report-Exchanged env p s there object opened data_there parser_there path depth
        long room bytes size found
  set_report-Exchanged set_feature bytes size found =
      hid_set_feature_report-Exchanged env p s there object opened data_there parser_there path
        depth long room bytes size found
