-- ===== src/Adb/Select/Chosen.antt =====
-- app/src/adb/adb.c: which device is chosen.
use dskcpy.Prelude.{
  ℕ, ◌≡◌, refl, ap, ◌∙◌, not, Bool, true, false, List, [], ◌∷◌, Option, none, some, ◌==◌,
  if◌then◌else◌, length, get_elem?, arith,
}
use dskcpy.Adb.Devices.{codes, strcmp_eq, Device}
use dskcpy.Adb.Select.{
  Selector, all, serial, usb_only, tcpip_only, tcpip_preferred, is_usb, serial_matches,
  accept_device, Selection, select_type, select_tcpip_preferred, select_from, devices_select,
  select_device,
}
use dskcpy.Adb.Select.Loops.{
  keep, Inv, flag, flag_all, selected_one, type_test, select_type_from-Inv, select_from-Inv,
}

-- The tests of the selectors.
abbrev pub wanted : Selector → List Device → Device → Bool
wanted all ds d = true
wanted (serial text) ds d = serial_matches text d.serial
wanted usb_only ds d = is_usb d
wanted tcpip_only ds d = not (is_usb d)
wanted tcpip_preferred ds d = elim (keep (λ d'. not (is_usb d')) ds) [
  | [] ↦ is_usb d
  | d' ∷ others ↦ not (is_usb d)
]

-- The only one of the devices, if it is ready.
abbrev pub the_only : List Device → Option Device
the_only [] = none
the_only (d ∷ []) = if strcmp_eq (codes "device") d.state then some (selected_one d) else none
the_only (d ∷ d' ∷ ds) = none

abbrev choose : Selection → Option Device
choose s =
    if s.count == 1
    then elim s.idx_out [
      | none ↦ none
      | some i ↦ elim (get_elem? s.devices i) [
        | none ↦ none
        | some d ↦ if strcmp_eq (codes "device") d.state then some d else none
      ]
    ]
    else none

choose-Inv : (seen kept : List Device) (s : Selection) → Inv seen kept s → choose s ≡ the_only kept
choose-Inv seen [] s (e, c, f) = rw c refl
choose-Inv seen (d ∷ d' ∷ kept) s (e, c, f) =
    let many : (s.count == 1) ≡ false = ground (arith, c) in rw many refl
choose-Inv seen (d ∷ []) s (e, c, (j, idx, there)) = rw (c, idx, there) refl

abbrev start_with : Option ℕ → Selection
start_with idx_out = record { devices = []; count = 0; idx_out = idx_out }

select_device-choose :
    (selector : Selector) (ds : List Device) (s : Selection)
    → devices_select selector ds ≡ some s
    → select_device selector ds ≡ choose s
unfolding select_device
select_device-choose selector ds s e =
    ap (λ (o : Option Selection). elim o [ none ↦ none | some s ↦ choose s ]) e

-- The selectors that look at one device after the other.
by_one :
    (selector : Selector) (p : Device → Bool) (ds : List Device)
    → ((d : Device) → accept_device selector d ≡ some (p d))
    → devices_select selector ds ≡ select_from selector 0 ds (start_with none)
    → select_device selector ds ≡ the_only (keep p ds)
by_one selector p ds accepts e =
    let s = select_from-Inv selector p ds [] [] (start_with none) accepts (refl, refl, tt) in
    select_device-choose selector ds s.0 (e ∙ s.1) ∙ choose-Inv (flag_all p ds) (keep p ds) s.0 s.2

select_type-Inv :
    (u : Bool) (idx_out : Option ℕ) (ds : List Device)
    → Inv (flag_all (type_test u) ds) (keep (type_test u) ds) (select_type u idx_out ds)
unfolding select_type
select_type-Inv u idx_out ds = select_type_from-Inv u ds [] [] (start_with idx_out) (refl, refl, tt)

-- The flags of an earlier selection do not matter.
keep_flagged :
    (p : Device → Bool) (ds : List Device)
    → keep is_usb (flag_all p ds) ≡ flag_all p (keep is_usb ds)
keep_flagged p [] = refl
keep_flagged p (d ∷ ds) = by_test (is_usb d) (keep_flagged p ds)
  where
    by_test :
        (b : Bool)
        → keep is_usb (flag_all p ds) ≡ flag_all p (keep is_usb ds)
        → (if b then flag p d ∷ keep is_usb (flag_all p ds) else keep is_usb (flag_all p ds))
          ≡ flag_all p (if b then d ∷ keep is_usb ds else keep is_usb ds)
    by_test true e = ap (λ ts. flag p d ∷ ts) e
    by_test false e = e

the_only_flagged : (p : Device → Bool) (ds : List Device) → the_only (flag_all p ds) ≡ the_only ds
the_only_flagged p [] = refl
the_only_flagged p (d ∷ []) = refl
the_only_flagged p (d ∷ d' ∷ ds) = refl

preferred :
    (ds kept : List Device)
    → keep (type_test false) ds ≡ kept
    → choose (select_tcpip_preferred ds)
      ≡ the_only (keep (λ d. elim kept [ [] ↦ is_usb d | d' ∷ others ↦ not (is_usb d) ]) ds)
unfolding select_tcpip_preferred
preferred ds [] e =
    let first = select_type false none ds in
    let inv = select_type-Inv false none ds in
    let no_one : (first.count == 0) ≡ true = ground (arith, inv.1 ∙ ap length e) in
    let second = select_type-Inv true first.idx_out first.devices in
    ap (λ b. choose (if b then select_type true first.idx_out first.devices else first)) no_one
    ∙ choose-Inv _ _ (select_type true first.idx_out first.devices) second
    ∙ ap (λ ts. the_only (keep is_usb ts)) inv.0
    ∙ ap the_only (keep_flagged (type_test false) ds)
    ∙ the_only_flagged (type_test false) (keep is_usb ds)
preferred ds (d ∷ kept) e =
    let first = select_type false none ds in
    let inv = select_type-Inv false none ds in
    let some_one : (first.count == 0) ≡ false = ground (arith, inv.1 ∙ ap length e) in
    ap (λ b. choose (if b then select_type true first.idx_out first.devices else first)) some_one
    ∙ choose-Inv _ _ first inv

-- A device is chosen if and only if it is the only one that the selector wants, and its state is
-- `device`; the one that is chosen is marked as selected. The automatic choice wants the devices that
-- are not on USB, or those on USB if there are no others.
pub select_device_lem :
    (selector : Selector) (ds : List Device)
    → select_device selector ds ≡ the_only (keep (wanted selector ds) ds)
unfolding devices_select accept_device
select_device_lem all ds = by_one all (λ d. true) ds (λ d. refl) refl
select_device_lem (serial text) ds =
    by_one (serial text) (λ d. serial_matches text d.serial) ds (λ d. refl) refl
select_device_lem usb_only ds = by_one usb_only is_usb ds (λ d. refl) refl
select_device_lem tcpip_only ds = by_one tcpip_only (λ d. not (is_usb d)) ds (λ d. refl) refl
select_device_lem tcpip_preferred ds =
    select_device-choose tcpip_preferred ds (select_tcpip_preferred ds) refl
    ∙ preferred ds (keep (type_test false) ds) refl
