-- ===== src/Types.antt =====
-- The data of include/hid.h and of the libraries' headers that libhid reads and writes.
-- A pointer is an address, a native number, and 0 is NULL.
use libhid.Base.{ℕ, Bool, List, Option, ℤ, Bytes}

-- `hid_return`: the library's result codes.
pub data HidReturn : Type 0 where
  success invalid_parameter not_initialised already_initialised : HidReturn
  fail_find_busses fail_find_devices fail_open_device device_not_found : HidReturn
  device_not_opened device_already_opened fail_close_device fail_claim_iface : HidReturn
  fail_detach_driver not_hid_device hid_desc_short report_desc_short : HidReturn
  report_desc_long fail_alloc out_of_space fail_set_report : HidReturn
  fail_get_report fail_int_read not_found timeout : HidReturn

-- The number of a result code.
unfoldable pub result_code : HidReturn → ℕ
result_code HidReturn.success = 0
result_code HidReturn.invalid_parameter = 1
result_code HidReturn.not_initialised = 2
result_code HidReturn.already_initialised = 3
result_code HidReturn.fail_find_busses = 4
result_code HidReturn.fail_find_devices = 5
result_code HidReturn.fail_open_device = 6
result_code HidReturn.device_not_found = 7
result_code HidReturn.device_not_opened = 8
result_code HidReturn.device_already_opened = 9
result_code HidReturn.fail_close_device = 10
result_code HidReturn.fail_claim_iface = 11
result_code HidReturn.fail_detach_driver = 12
result_code HidReturn.not_hid_device = 13
result_code HidReturn.hid_desc_short = 14
result_code HidReturn.report_desc_short = 15
result_code HidReturn.report_desc_long = 16
result_code HidReturn.fail_alloc = 17
result_code HidReturn.out_of_space = 18
result_code HidReturn.fail_set_report = 19
result_code HidReturn.fail_get_report = 20
result_code HidReturn.fail_int_read = 21
result_code HidReturn.not_found = 22
result_code HidReturn.timeout = 23

-- `HIDNode`.
pub record Node : Type 0 where
  pub upage : ℕ
  pub usage : ℕ

-- `HIDData`, with its `Path` spread out: `path_size` is `Path.Size` and `nodes` the array `Path.Node`.
pub record HidData : Type 0 where
  pub value : ℤ
  pub path_size : ℕ
  pub nodes : List Node
  pub report_id : ℕ
  pub offset : ℕ
  pub size : ℕ
  pub item_type : ℕ
  pub attribute : ℕ
  pub unit : ℕ
  pub unit_exp : ℤ
  pub log_min : ℤ
  pub log_max : ℤ
  pub phy_min : ℤ
  pub phy_max : ℤ

-- `REPORT_DSC_SIZE`, the size of the array `ReportDesc`
abbrev pub report_dsc_size : ℕ
report_dsc_size = 6144

-- `HIDParser`: the two fields that libhid fills itself; `inner` stands for the parser's own fields.
pub record HidParser (P : Type 0) : Type 0 where
  pub report_desc : Bytes
  pub report_desc_size : ℕ
  pub inner : P

-- `struct usb_device` of libusb, as far as libhid reads it, with its address and its bus's name.
pub record Device : Type 0 where
  pub address : ℕ
  pub dirname : Bytes
  pub filename : Bytes
  pub id_vendor : ℕ
  pub id_product : ℕ
  pub i_manufacturer : ℕ
  pub i_product : ℕ
  pub i_serial_number : ℕ

-- `struct usb_bus`: its name and the linked list of its devices.
pub record Bus : Type 0 where
  pub dirname : Bytes
  pub devices : List Device

-- `HIDInterface`. `hid_data` and `hid_parser` are owned by the interface alone, so each stands
-- for the block that it points to.
pub record HidInterface (P : Type 0) : Type 0 where
  pub dev_handle : ℕ
  pub device : Option Device
  pub interface : ℤ
  pub id : Bytes
  pub hid_data : Option HidData
  pub hid_parser : Option (HidParser P)

-- The libusb calls that libhid makes. A transfer's last fields are the buffer's size or the bytes
-- sent, and the timeout in milliseconds.
pub data UsbCall : Type 0 where
  init find_busses find_devices : UsbCall
  open_device : Device → UsbCall
  close_handle : ℕ → UsbCall
  claim_interface : ℕ → ℤ → UsbCall
  detach_kernel_driver : ℕ → ℤ → UsbCall
  control_in : ℕ → ℕ → ℕ → ℕ → ℤ → ℕ → ℕ → UsbCall
  control_out : ℕ → ℕ → ℕ → ℕ → ℤ → Bytes → ℕ → ℕ → UsbCall
  interrupt_read : ℕ → ℕ → ℕ → ℕ → UsbCall
  interrupt_write : ℕ → ℕ → Bytes → ℕ → ℕ → UsbCall
  get_string : ℕ → ℕ → ℕ → UsbCall

-- What a call gives back: the `int` that it returns, the handle of `usb_open` (0 on failure), and
-- what it leaves in the caller's buffer.
pub record Reply : Type 0 where
  pub ret : ℤ
  pub handle : ℕ
  pub buffer : Bytes

-- `HIDInterfaceMatcher`. The custom function may look at the device, so it runs on the world.
pub record HidInterfaceMatcher (W : Type 0) : Type 0 where
  pub vendor_id : ℕ
  pub product_id : ℕ
  pub matcher_fn : Option (ℕ → ℕ → ℕ → W → record { verdict : Bool; after : W })
  pub custom_data : ℕ
  pub custom_data_length : ℕ
