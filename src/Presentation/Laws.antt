-- ===== src/Presentation/Laws.antt =====
-- The texts of the result codes and the requests of the identification (src/hid_presentation.c).
use libhid.Base.{
  ℕ, ◌≡◌, ◌≢◌, refl, sym, ap, ◌∙◌, Bool, true, false, ◌&&◌, Option, none, some, inl, inr, List, [],
  ◌∷◌, ◌++◌, ◌==◌, Bool-cases, if◌then◌else◌, Bytes,
}
use libhid.Types.{HidReturn, success, HidInterface, Device, UsbCall, Reply, get_string}
use libhid.State.{Env, Library, and_then}
use libhid.State.Returns.{Returns, returns, bind, load_then, deref_then, known_then}
use libhid.Interface.Laws.{hid_is_opened_open}
use libhid.Presentation.{string_line, hid_write_identification, hid_strerror}

abbrev same_bytes : Bytes → Bytes → Bool
same_bytes [] [] = true
same_bytes [] (b ∷ bs) = false
same_bytes (a ∷ xs) [] = false
same_bytes (a ∷ xs) (b ∷ bs) = (a == b) && same_bytes xs bs

-- Every result code.
abbrev codes_of_results : List HidReturn
codes_of_results =
    HidReturn.success ∷ HidReturn.invalid_parameter ∷ HidReturn.not_initialised
    ∷ HidReturn.already_initialised ∷ HidReturn.fail_find_busses ∷ HidReturn.fail_find_devices
    ∷ HidReturn.fail_open_device ∷ HidReturn.device_not_found ∷ HidReturn.device_not_opened
    ∷ HidReturn.device_already_opened ∷ HidReturn.fail_close_device ∷ HidReturn.fail_claim_iface
    ∷ HidReturn.fail_detach_driver ∷ HidReturn.not_hid_device ∷ HidReturn.hid_desc_short
    ∷ HidReturn.report_desc_short ∷ HidReturn.report_desc_long ∷ HidReturn.fail_alloc
    ∷ HidReturn.out_of_space ∷ HidReturn.fail_set_report ∷ HidReturn.fail_get_report
    ∷ HidReturn.fail_int_read ∷ HidReturn.not_found ∷ HidReturn.timeout ∷ []

unfoldable first_with : List HidReturn → Bytes → Option HidReturn
first_with [] text = none
first_with (r ∷ rs) text =
    let rest = first_with rs text in if same_bytes (hid_strerror r) text then some r else rest

-- The result code that a text stands for.
unfoldable result_of : Bytes → Option HidReturn
unfolding first_with
result_of text = first_with codes_of_results text

read_back : (r : HidReturn) → result_of (hid_strerror r) ≡ some r
unfolding result_of first_with hid_strerror
read_back HidReturn.success = refl
read_back HidReturn.invalid_parameter = refl
read_back HidReturn.not_initialised = refl
read_back HidReturn.already_initialised = refl
read_back HidReturn.fail_find_busses = refl
read_back HidReturn.fail_find_devices = refl
read_back HidReturn.fail_open_device = refl
read_back HidReturn.device_not_found = refl
read_back HidReturn.device_not_opened = refl
read_back HidReturn.device_already_opened = refl
read_back HidReturn.fail_close_device = refl
read_back HidReturn.fail_claim_iface = refl
read_back HidReturn.fail_detach_driver = refl
read_back HidReturn.not_hid_device = refl
read_back HidReturn.hid_desc_short = refl
read_back HidReturn.report_desc_short = refl
read_back HidReturn.report_desc_long = refl
read_back HidReturn.fail_alloc = refl
read_back HidReturn.out_of_space = refl
read_back HidReturn.fail_set_report = refl
read_back HidReturn.fail_get_report = refl
read_back HidReturn.fail_int_read = refl
read_back HidReturn.not_found = refl
read_back HidReturn.timeout = refl

-- `hid_strerror` gives different texts for different result codes.
pub hid_strerror_injective : (a b : HidReturn) → hid_strerror a ≡ hid_strerror b → a ≡ b
hid_strerror_injective a b same = known (sym (read_back a) ∙ ap result_of same ∙ read_back b)
  where
    value : Option HidReturn → HidReturn
    value none = a
    value (some r) = r

    known : some a ≡ some b → a ≡ b
    known e = ap value e

-- The request for a string, unless its index is 0.
abbrev pub asked : ℕ → ℕ → List UsbCall
asked handle index = if index == 0 then [] else get_string handle index 256 ∷ []

-- The calls among those recorded.
abbrev pub made : List (UsbCall × Reply) → List UsbCall
made [] = []
made ((c, _) ∷ calls) = c ∷ made calls

-- Nothing but the world changes, and these calls are made, the last first.
record Asked {W P : Type 0} (requests : List UsbCall) (s t : Library W P) : Type 0 where
  interfaces : t.interfaces ≡ s.interfaces
  list : t.open_list ≡ s.open_list
  calls : made t.calls ≡ requests ++ made s.calls

module _ {W P : Type 0} (env : Env W P) where
  string_line-Asked :
      (label missing : Bytes) (handle index : ℕ) (s : Library W P)
      → Returns
          (λ _ t. Asked (asked handle index) s t)
          (string_line env label missing handle index s)
  unfolding and_then string_line
  string_line-Asked label missing handle index s = elim (Bool-cases (index == 0)) [
    | inl unset ↦ rw unset (returns (record { interfaces = refl; list = refl; calls = refl }))
    | inr set ↦ rw set (returns (record { interfaces = refl; list = refl; calls = refl }))
  ]

module _ {W P : Type 0} (env : Env W P) (p : ℕ) (s : Library W P) {i : HidInterface P}
    (there : p ≢ 0) (object : s.interfaces p ≡ some i) (opened : i.dev_handle ≢ 0) {d : Device}
    (device : i.device ≡ some d) where
  -- `hid_write_identification` of an open interface with a device, to a stream, returns success. It
  -- asks the device for the manufacturer, the product and the serial number, in this order and each
  -- only if its index is not 0, and changes neither interfaces nor the list of open ones.
  pub hid_write_identification-Returns :
      Returns
        (λ (r, _) t.
          (r ≡ success)
          × (t.interfaces ≡ s.interfaces)
          × (t.open_list ≡ s.open_list)
          × (made t.calls
              ≡ asked i.dev_handle d.i_serial_number
                ++ (asked i.dev_handle d.i_product
                    ++ (asked i.dev_handle d.i_manufacturer ++ made s.calls))))
        (hid_write_identification env true p s)
  unfolding and_then hid_write_identification
  hid_write_identification-Returns = known_then _ (hid_is_opened_open p s there object opened) (
      load_then _ p s object (
        deref_then _ i.device s device (
          bind (string_line-Asked env _ _ i.dev_handle d.i_manufacturer s) λ _ t k.
            bind (string_line-Asked env _ _ i.dev_handle d.i_product t) λ _ u l.
              bind (string_line-Asked env _ _ i.dev_handle d.i_serial_number u) λ _ v m. returns (
                refl,
                m.interfaces ∙ l.interfaces ∙ k.interfaces,
                m.list ∙ l.list ∙ k.list,
                m.calls
                    ∙ ap (λ x. asked i.dev_handle d.i_serial_number ++ x)
                        (l.calls ∙ ap (λ x. asked i.dev_handle d.i_product ++ x) k.calls),
              ))))
