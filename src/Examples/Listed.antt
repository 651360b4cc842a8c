-- ===== src/Examples/Listed.antt =====
-- The output of adb with a phone on USB and its network connection, and the choice between them.
use dskcpy.Prelude.{ℕ, ◌≡◌, refl, List, [], ◌∷◌, ◌++◌, none, some, true, false, arith}
use dskcpy.Util.Str.{strncmp_eq, strchr}
use dskcpy.Adb.Devices.{codes, is_device_state, Device, Memory, header, parse_devices}
use dskcpy.Adb.Devices.Fields.{all_solid-All}
use dskcpy.Adb.Devices.Printed.{
  Entry, IsEntry, printed, devices_of, end_of_line, print_lines, print_all, all_plain-All,
}
use dskcpy.Adb.Devices.Output.{IsGarbage, parse_devices_lem}
use dskcpy.Adb.Select.{tcpip_preferred, get_type, strstr, select_device}
use dskcpy.Adb.Select.Loops.{keep}
use dskcpy.Adb.Select.Chosen.{wanted, the_only, select_device_lem}

abbrev memory : ℕ → Memory
memory i = record { for_serial = true; for_state = true; for_model = true; for_push = true }

abbrev daemon_line : List ℕ
daemon_line = codes "* daemon started successfully"

abbrev phone : Entry
phone = record {
  serial = codes "0123";
  gap = 32 ∷ 32 ∷ [];
  state = codes "device";
  fields =
      record { gap = 32 ∷ []; token = codes "usb:2-1" }
      ∷ record { gap = 32 ∷ []; token = codes "model:X" }
      ∷ [];
  trail = [];
}

-- A serial with a blank.
abbrev network : Entry
network = record {
  serial = codes "a (2)";
  gap = 9 ∷ [];
  state = codes "offline";
  fields = [];
  trail = 32 ∷ [];
}

phone-IsEntry : IsEntry phone
unfolding is_device_state strncmp_eq
phone-IsEntry = record {
  serial_ends = (codes "012", 51, refl, refl);
  no_star = λ e. omega (arith, e);
  no_server = refl;
  blanks = (refl, (refl, tt));
  some_blank = omega arith;
  is_state = refl;
  no_states = (
    (
      record {
        blanks = (refl, tt);
        some_blank = omega arith;
        solid = all_solid-All (codes "usb:2-1") refl;
        some_solid = omega arith;
      },
      refl,
    ),
    (
      (
        record {
          blanks = (refl, tt);
          some_blank = omega arith;
          solid = all_solid-All (codes "model:X") refl;
          some_solid = omega arith;
        },
        refl,
      ),
      tt,
    ),
  );
  trailing = tt;
  plain = all_plain-All (printed phone) refl;
}

network-IsEntry : IsEntry network
unfolding is_device_state strncmp_eq
network-IsEntry = record {
  serial_ends = (codes "a (2", 41, refl, refl);
  no_star = λ e. omega (arith, e);
  no_server = refl;
  blanks = (refl, tt);
  some_blank = omega arith;
  is_state = refl;
  no_states = tt;
  trailing = (refl, tt);
  plain = all_plain-All (printed network) refl;
}

daemon-IsGarbage : IsGarbage true daemon_line
unfolding strncmp_eq
daemon-IsGarbage = (all_plain-All daemon_line refl, refl)

parse_devices_example :
    parse_devices memory (
      print_lines true (daemon_line ∷ [])
      ++ (header ++ (end_of_line true ++ (10 ∷ print_all true (phone ∷ network ∷ [])))))
    ≡ (true, devices_of (phone ∷ network ∷ []))
parse_devices_example =
    parse_devices_lem memory true (daemon_line ∷ []) (phone ∷ network ∷ [])
      (λ j. (refl, refl, refl, refl)) (daemon-IsGarbage, tt) (phone-IsEntry, (network-IsEntry, tt))

-- The same phone twice.
abbrev phone_twice : List Device
phone_twice =
    record { serial = codes "0123"; state = codes "device"; model = none; selected = false }
    ∷ record {
      serial = codes "10.0.0.2:5555";
      state = codes "device";
      model = none;
      selected = false;
    }
    ∷ []

select_device_example :
    select_device tcpip_preferred phone_twice
    ≡ the_only (keep (wanted tcpip_preferred phone_twice) phone_twice)
select_device_example = select_device_lem tcpip_preferred phone_twice

-- It is the network connection that is chosen.
select_device_test :
    select_device tcpip_preferred phone_twice
    ≡ some (record {
      serial = codes "10.0.0.2:5555";
      state = codes "device";
      model = none;
      selected = true;
    })
unfolding get_type strncmp_eq strchr strstr
select_device_test = select_device_lem tcpip_preferred phone_twice
