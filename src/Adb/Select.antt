-- ===== src/Adb/Select.antt =====
-- app/src/adb/adb_device.c and adb.c: the choice of a device. The index that the code leaves unset
-- where no device is selected is `none`.
pub mod Loops
pub mod Chosen
use dskcpy.Prelude.{
  ℕ, ◌+◌, ◌&&◌, ◌||◌, not, Bool, true, false, List, [], ◌∷◌, ◌++◌, Option, none, some, ◌==◌,
  if◌then◌else◌, length, get_elem?,
}
use dskcpy.Util.Str.{strncmp_eq, strchr}
use dskcpy.Adb.Devices.{codes, starts_with, strcmp_eq, Device}

pub data DeviceType : Type 0 where
  usb : DeviceType
  tcpip : DeviceType
  emulator : DeviceType

-- `strstr`, as a test.
unfoldable pub strstr : List ℕ → List ℕ → Bool
strstr [] t = starts_with t []
strstr (c ∷ s) t = starts_with t (c ∷ s) || strstr s t

-- `sc_adb_device_get_type`
unfoldable pub get_type : List ℕ → DeviceType
get_type serial =
    if starts_with (codes "emulator-") serial then emulator else elim (strchr serial 58) [
      | some i ↦ tcpip
      | none ↦ if strstr serial (codes "adb-tls-connect") then tcpip else usb
    ]

abbrev pub is_usb : Device → Bool
is_usb d = elim (get_type d.serial) [ usb ↦ true | _ ↦ false ]

-- `enum sc_adb_device_selector_type`, with the serial.
pub data Selector : Type 0 where
  all : Selector
  serial : List ℕ → Selector
  usb_only : Selector
  tcpip_only : Selector
  tcpip_preferred : Selector

-- The serial that is wanted, and the serial of a device.
unfoldable pub serial_matches : List ℕ → List ℕ → Bool
serial_matches wanted own = elim (strchr own 58) [
  | none ↦ strcmp_eq wanted own
  | some ip_len ↦ elim (strchr wanted 58) [
    | some colon ↦ strcmp_eq wanted own
    | none ↦ length wanted == ip_len && strncmp_eq wanted own ip_len
  ]
]

-- `sc_adb_accept_device`; a failed assertion is `none`.
unfoldable pub accept_device : Selector → Device → Option Bool
accept_device all d = some true
accept_device (serial wanted) d = some (serial_matches wanted d.serial)
accept_device usb_only d = some (is_usb d)
accept_device tcpip_only d = some (not (is_usb d))
accept_device tcpip_preferred d = none

-- The devices with their flags, how many are selected, and the index of the first one.
pub record Selection : Type 0 where
  pub devices : List Device
  pub count : ℕ
  pub idx_out : Option ℕ

-- One round of the loop of a selection, at the device `i`, whose flag is to be `selected`.
unfoldable pub select_one : ℕ → Device → Bool → Selection → Selection
select_one i d selected s = record {
  devices = s.devices ++ record d { selected = selected } ∷ [];
  count = if selected then s.count + 1 else s.count;
  idx_out = if selected && s.count == 0 then some i else s.idx_out;
}

-- `sc_adb_devices_select_type`
unfoldable pub select_type_from : Bool → ℕ → List Device → Selection → Selection
select_type_from select_usb i [] s = s
select_type_from select_usb i (d ∷ ds) s =
    select_type_from select_usb (i + 1) ds
      (select_one i d (if select_usb then is_usb d else not (is_usb d)) s)

unfoldable pub select_type : Bool → Option ℕ → List Device → Selection
select_type select_usb idx_out ds =
    select_type_from select_usb 0 ds (record { devices = []; count = 0; idx_out = idx_out })

-- `sc_adb_devices_select_tcpip_preferred`
unfoldable pub select_tcpip_preferred : List Device → Selection
select_tcpip_preferred ds =
    let first = select_type false none ds in
    if first.count == 0 then select_type true first.idx_out first.devices else first

-- `sc_adb_devices_select`
unfoldable pub select_from : Selector → ℕ → List Device → Selection → Option Selection
select_from selector i [] s = some s
select_from selector i (d ∷ ds) s = elim (accept_device selector d) [
  | none ↦ none
  | some selected ↦ select_from selector (i + 1) ds (select_one i d selected s)
]

unfoldable pub devices_select : Selector → List Device → Option Selection
devices_select tcpip_preferred ds = some (select_tcpip_preferred ds)
devices_select selector ds =
    select_from selector 0 ds (record { devices = []; count = 0; idx_out = none })

-- `sc_adb_select_device` behind the listing of the devices: the one that is chosen.
unfoldable pub select_device : Selector → List Device → Option Device
select_device selector ds = elim (devices_select selector ds) [
  | none ↦ none
  | some s ↦
      if s.count == 1
      then elim s.idx_out [
        | none ↦ none
        | some i ↦ elim (get_elem? s.devices i) [
          | none ↦ none
          | some d ↦ if strcmp_eq (codes "device") d.state then some d else none
        ]
      ]
      else none
]
