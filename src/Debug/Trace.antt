-- ===== src/Debug/Trace.antt =====
-- The functions of src/debug.c that print libusb's structures. `%10p` is what the C library makes of a
-- pointer: a parameter.
use libhid.Base.{ℕ, ◌*◌, ◌++◌, Bytes, codes}
use libhid.Printf.{show_nat, show_hex}

-- The fields of libusb's structures that are printed; a pointer is an address.
pub record UsbBus : Type 0 where
  pub self : ℕ
  pub dirname : Bytes
  pub devices : ℕ
  pub prev : ℕ
  pub next : ℕ

pub record UsbDevice : Type 0 where
  pub self : ℕ
  pub prev : ℕ
  pub next : ℕ
  pub filename : Bytes
  pub bus : ℕ
  pub descriptor : ℕ
  pub config : ℕ
  pub dev : ℕ

pub record UsbDeviceDescriptor : Type 0 where
  pub self : ℕ
  pub b_length : ℕ
  pub b_descriptor_type : ℕ
  pub bcd_usb : ℕ
  pub b_device_class : ℕ
  pub b_device_sub_class : ℕ
  pub b_device_protocol : ℕ
  pub b_max_packet_size0 : ℕ
  pub id_vendor : ℕ
  pub id_product : ℕ
  pub bcd_device : ℕ
  pub i_manufacturer : ℕ
  pub i_product : ℕ
  pub i_serial_number : ℕ
  pub b_num_configurations : ℕ

pub record UsbConfigDescriptor : Type 0 where
  pub self : ℕ
  pub b_length : ℕ
  pub b_descriptor_type : ℕ
  pub w_total_length : ℕ
  pub b_num_interfaces : ℕ
  pub b_configuration_value : ℕ
  pub i_configuration : ℕ
  pub bm_attributes : ℕ
  pub max_power : ℕ

-- A label and a value on a line.
unfoldable pub field_line : Bytes → Bytes → Bytes
field_line label value = label ++ value ++ codes "\n"

unfoldable pub trace_usb_device_descriptor : (ℕ → Bytes) → UsbDeviceDescriptor → Bytes
trace_usb_device_descriptor show_pointer d =
    field_line (codes "usb_device_descriptor instance at: ") (show_pointer d.self)
    ++ field_line (codes "  bLength:                         ") (show_nat d.b_length)
    ++ field_line (codes "  bDescriptorType:                 ") (show_nat d.b_descriptor_type)
    ++ field_line (codes "  bcdUSB:                          0x") (show_hex 4 d.bcd_usb)
    ++ field_line (codes "  bDeviceClass:                    ") (show_nat d.b_device_class)
    ++ field_line (codes "  bDeviceSubClass:                 ") (show_nat d.b_device_sub_class)
    ++ field_line (codes "  bDeviceProtocol:                 ") (show_nat d.b_device_protocol)
    ++ field_line (codes "  bMaxPacketSize0:                 ") (show_nat d.b_max_packet_size0)
    ++ field_line (codes "  idVendor:                        0x") (show_hex 4 d.id_vendor)
    ++ field_line (codes "  idProduct:                       0x") (show_hex 4 d.id_product)
    ++ field_line (codes "  bcdDevice:                       0x") (show_hex 4 d.bcd_device)
    ++ field_line (codes "  iManufacturer:                   ") (show_nat d.i_manufacturer)
    ++ field_line (codes "  iProduct:                        ") (show_nat d.i_product)
    ++ field_line (codes "  iSerialNumber:                   ") (show_nat d.i_serial_number)
    ++ field_line (codes "  bNumConfigurations:              ") (show_nat d.b_num_configurations)

unfoldable pub trace_usb_bus : (ℕ → Bytes) → UsbBus → Bytes
trace_usb_bus show_pointer b =
    field_line (codes "usb_bus instance at: ") (show_pointer b.self)
    ++ field_line (codes "  dirname:           ") b.dirname
    ++ field_line (codes "  devices:           ") (show_pointer b.devices)
    ++ field_line (codes "  prev:              ") (show_pointer b.prev)
    ++ field_line (codes "  next:              ") (show_pointer b.next)

unfoldable pub trace_usb_device : (ℕ → Bytes) → UsbDevice → Bytes
trace_usb_device show_pointer d =
    field_line (codes "usb_device instance at: ") (show_pointer d.self)
    ++ field_line (codes "  prev:                 ") (show_pointer d.prev)
    ++ field_line (codes "  next:                 ") (show_pointer d.next)
    ++ field_line (codes "  filename:             ") d.filename
    ++ field_line (codes "  bus:                  ") (show_pointer d.bus)
    ++ field_line (codes "  descriptor:           ") (show_pointer d.descriptor)
    ++ field_line (codes "  config:               ") (show_pointer d.config)
    ++ field_line (codes "  dev:                  ") (show_pointer d.dev)

unfoldable pub trace_usb_config_descriptor : (ℕ → Bytes) → UsbConfigDescriptor → Bytes
trace_usb_config_descriptor show_pointer c =
    field_line (codes "usb_config_descriptor instance at: ") (show_pointer c.self)
    ++ field_line (codes "  bLength:                         ") (show_nat c.b_length)
    ++ field_line (codes "  bDescriptorType:                 ") (show_nat c.b_descriptor_type)
    ++ field_line (codes "  wTotalLength:                    ") (show_nat c.w_total_length)
    ++ field_line (codes "  bNumInterfaces:                  ") (show_nat c.b_num_interfaces)
    ++ field_line (codes "  bConfigurationValue:             ") (show_nat c.b_configuration_value)
    ++ field_line (codes "  iConfiguration:                  ") (show_nat c.i_configuration)
    ++ field_line (codes "  bmAttributes:                    ") (show_nat c.bm_attributes)
    ++ field_line (codes "  MaxPower:                        ")
        (show_nat (c.max_power * 2) ++ codes " mA")

-- `usb_device` of libusb gives the device of a handle.
unfoldable pub trace_usb_dev_handle : (ℕ → Bytes) → (ℕ → UsbDevice) → ℕ → Bytes
unfolding trace_usb_device
trace_usb_dev_handle show_pointer usb_device usbdev_h =
    trace_usb_device show_pointer (usb_device usbdev_h)
