-- ===== src/Console/Ports.antt =====
-- The ports that discovery finds (internal/serialconsole/model.go and the order of discover.go).
use provisioning_station.Base.{
  Bool, List, Option, Text, [], codes, contains, equal_fold, false, if◌then◌else◌, is_empty,
  join_with, length, ltb, none, not, some, text_eq, text_lt, upper_byte, ℕ, ◌&&◌, ◌++◌, ◌+◌, ◌==◌,
  ◌||◌, ◌∷◌,
}
use provisioning_station.Base.Int.{pos, ℤ, ◌<ℤ◌}
use mathlib.Core.Option
pub mod Unique

pub record Port : Type 0 where
  pub id : Text
  pub name : Text
  pub vendor_id : Text
  pub product_id : Text
  pub usb_serial : Text
  pub channel : Text
  pub busy : Bool
  pub has_controller : Bool
  pub active_baud_rate : ℤ

pub record PortWarning : Type 0 where
  pub code : Text
  pub message : Text
  pub usb_serial : Text

pub record Discovery : Type 0 where
  pub ports : List Port
  pub warnings : List PortWarning

pub record Candidate : Type 0 where
  pub name : Text
  pub vendor_id : Text
  pub product_id : Text
  pub usb_serial : Text
  pub channel : Text

-- SHA-256 in hexadecimal, and the verb `%q`.
pub record Formats : Type 0 where
  pub digest : Text → Text
  pub quote : Text → Text

unfoldable pub port_from_identity : Formats → Candidate → Text → Port
port_from_identity f c identity = record {
  id = f.digest identity;
  name = c.name;
  vendor_id = c.vendor_id;
  product_id = c.product_id;
  usb_serial = c.usb_serial;
  channel = c.channel;
  busy = false;
  has_controller = false;
  active_baud_rate = pos 0;
}

unfoldable pub new_port : Formats → Candidate → Port
new_port f c = port_from_identity f c (
    join_with 0
      (codes "mnc-serial-console-v1" ∷ c.vendor_id ∷ c.product_id ∷ c.usb_serial ∷ c.channel ∷ []))

unfoldable pub new_manual_port : Formats → Candidate → Port
new_manual_port f c =
    port_from_identity f c (join_with 0 (codes "mnc-serial-console-manual-v1" ∷ c.name ∷ []))

unfoldable pub automatic_candidate : Candidate → Bool
automatic_candidate c =
    equal_fold c.vendor_id (codes "0403")
    && equal_fold c.product_id (codes "6010")
    && equal_fold c.channel (codes "B")

unfoldable pub automatically_matchable : Port → Bool
automatically_matchable p =
    automatic_candidate (record {
      name = [];
      vendor_id = p.vendor_id;
      product_id = p.product_id;
      usb_serial = p.usb_serial;
      channel = p.channel;
    })
    && not (is_empty p.usb_serial)

-- `counts[serial]` after the first loop.
unfoldable pub count_serial : Text → List Candidate → ℕ
count_serial serial [] = 0
count_serial serial (c ∷ cs) =
    count_serial serial cs
    + (if automatic_candidate c && not (is_empty c.usb_serial) && text_eq c.usb_serial serial
        then 1
        else 0)

abbrev pub missing_warning : Candidate → PortWarning
missing_warning c = record {
  code = codes "serial_missing";
  message = c.name ++ codes " has no FTDI EEPROM serial and can only be selected manually";
  usb_serial = [];
}

abbrev pub duplicate_warning : Formats → Candidate → PortWarning
duplicate_warning f c = record {
  code = codes "serial_duplicate";
  message =
      codes "FTDI serial "
      ++ f.quote c.usb_serial
      ++ codes " is present more than once and can only be selected manually";
  usb_serial = c.usb_serial;
}

-- What one candidate adds, given the counts.
unfoldable pub add_candidate : Formats → List Candidate → Candidate → Discovery → Discovery
add_candidate f all_found c d =
    if not (automatic_candidate c)
    then record d { ports = new_manual_port f c ∷ d.ports }
    else if is_empty c.usb_serial
    then record { ports = new_manual_port f c ∷ d.ports; warnings = missing_warning c ∷ d.warnings }
    else if not (count_serial c.usb_serial all_found == 1)
    then record {
      ports = new_manual_port f c ∷ d.ports;
      warnings = duplicate_warning f c ∷ d.warnings;
    }
    else record d { ports = new_port f c ∷ d.ports }

-- The second loop; `names` are those seen before.
unfoldable pub normalize_loop :
    Formats → List Candidate → (names : List Text) → List Candidate → Discovery
normalize_loop f all_found names [] = record { ports = []; warnings = [] }
normalize_loop f all_found names (c ∷ cs) =
    let skipped = is_empty c.name || contains names c.name in
    let rest = normalize_loop f all_found (if skipped then names else c.name ∷ names) cs in
    if skipped then rest else add_candidate f all_found c rest

unfoldable pub normalize_candidates : Formats → List Candidate → Discovery
normalize_candidates f found = normalize_loop f found [] found

-- The order of `Discover`: by name, then by identifier.
unfoldable pub port_before : Port → Port → Bool
port_before a b = text_lt a.name b.name || (text_eq a.name b.name && text_lt a.id b.id)

unfoldable pub insert_port : Port → List Port → List Port
insert_port p [] = p ∷ []
insert_port p (q ∷ qs) =
    let rest = insert_port p qs in if port_before q p then q ∷ rest else p ∷ q ∷ qs

unfoldable pub sort_ports : List Port → List Port
sort_ports [] = []
sort_ports (p ∷ ps) = insert_port p (sort_ports ps)

-- `Discover` on the candidates that the operating system lists.
unfoldable pub discover : Formats → List Candidate → Discovery
discover f found = let d = normalize_candidates f found in record d { ports = sort_ports d.ports }

-- `windowsFTDIIdentity`: the last byte is the channel. `none` stands for both errors.
unfoldable pub split_last : Text → Option (Text × ℕ)
split_last [] = none
split_last (c ∷ []) = some ([], c)
split_last (c ∷ d ∷ s) = Option.map (λ r. (c ∷ r.0, r.1)) (split_last (d ∷ s))

unfoldable pub windows_ftdi_identity : Text → Option (Text × Text)
windows_ftdi_identity serial = if ltb (length serial) 2 then none else elim (split_last serial) [
  | none ↦ none
  | some (prefix, c) ↦
      if upper_byte c == b'A' || upper_byte c == b'B'
      then some (prefix, upper_byte c ∷ [])
      else none
]

-- `ValidateBaudRate`.
unfoldable pub valid_baud_rate : ℤ → Bool
valid_baud_rate v = not (v <ℤ pos 300) && not (pos 4000000 <ℤ v)
