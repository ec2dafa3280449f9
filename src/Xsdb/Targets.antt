-- ===== src/Xsdb/Targets.antt =====
-- The targets that XSDB finds (internal/xsdb/targets.go).
use provisioning_station.Base.{
  Bool, Failure, List, Option, Text, [], codes, if◌then◌else◌, join_with, leb, length, ltb, map,
  none, not, some, split_on, text_eq, ℕ, ◌%◌, ◌&&◌, ◌*◌, ◌+◌, ◌-◌, ◌/◌, ◌==◌, ◌∷◌,
}
use provisioning_station.Xsdb.Arguments.{XsdbError, validate_target_id}
use provisioning_station.Xsdb.Lines.{trim_return}

pub record Target : Type 0 where
  pub id : Text
  pub name : Text
  pub device_index : Text
  pub device_name : Text
  pub cable_name : Text
  pub cable_serial : Text

pub data TargetError : Type 0 where
  malformed_record bad_property : TargetError
  bad_target : XsdbError → TargetError
  unread : Failure → TargetError

pub data Targets : Type 0 where
  targets : List Target → Targets
  no_targets : TargetError → Targets

-- What `bufio.Scanner` yields, and its error.
pub record Scan : Type 0 where
  pub lines : List Text
  pub problem : Option Failure

abbrev pub target_marker : Text
target_marker = codes "MNC_XSDB_TARGET"

-- `hex.DecodeString`.
abbrev pub hex_digit : ℕ → Option ℕ
hex_digit c =
    if leb b'0' c && leb c b'9'
    then some (c - b'0')
    else if leb b'a' c && leb c b'f'
    then some (c - b'a' + 10)
    else if leb b'A' c && leb c b'F'
    then some (c - b'A' + 10)
    else none

abbrev pub hex_byte_of : Option ℕ → Option ℕ → Option Text → Option Text
hex_byte_of (some h) (some l) (some rest) = some ((h * 16 + l) ∷ rest)
hex_byte_of _ _ _ = none

unfoldable pub hex_decode : Text → Option Text
hex_decode [] = some []
hex_decode (h ∷ []) = none
hex_decode (h ∷ l ∷ s) = hex_byte_of (hex_digit h) (hex_digit l) (hex_decode s)

-- A property of a target; `valid_utf8` is `utf8.Valid`.
unfoldable pub decode_property : (valid_utf8 : Text → Bool) → Text → Option Text
decode_property valid_utf8 encoded = elim (hex_decode encoded) [
  | none ↦ none
  | some decoded ↦ if valid_utf8 decoded then some decoded else none
]

abbrev pub prepend : Option Text → Option (List Text) → Option (List Text)
prepend (some v) (some vs) = some (v ∷ vs)
prepend _ _ = none

unfoldable pub decode_properties : (valid_utf8 : Text → Bool) → List Text → Option (List Text)
decode_properties valid_utf8 [] = some []
decode_properties valid_utf8 (e ∷ es) =
    prepend (decode_property valid_utf8 e) (decode_properties valid_utf8 es)

abbrev pub add_target : Target → Targets → Targets
add_target t (targets ts) = targets (t ∷ ts)
add_target t (no_targets e) = no_targets e

-- The six values of a record; `later` is what the rest of the output gives.
unfoldable pub take_values : List Text → Targets → Targets
take_values (id ∷ name ∷ index ∷ device ∷ cable ∷ serial ∷ []) later =
    elim (validate_target_id id) [
      | some e ↦ no_targets (bad_target e)
      | none ↦
          add_target
            (record {
              id = id;
              name = name;
              device_index = index;
              device_name = device;
              cable_name = cable;
              cable_serial = serial;
            })
            later
    ]
take_values _ later = no_targets malformed_record

unfoldable pub take_fields : (valid_utf8 : Text → Bool) → List Text → Targets → Targets
take_fields valid_utf8 fields later =
    if not (length fields == 6)
    then no_targets malformed_record
    else elim (decode_properties valid_utf8 fields) [
      | none ↦ no_targets bad_property
      | some values ↦ take_values values later
    ]

-- A line, which is passed over if it does not begin with the marker.
unfoldable pub take_line : (valid_utf8 : Text → Bool) → List Text → Targets → Targets
take_line valid_utf8 [] later = later
take_line valid_utf8 (first ∷ fields) later =
    if text_eq first target_marker then take_fields valid_utf8 fields later else later

unfoldable pub parse_lines : (valid_utf8 : Text → Bool) → Option Failure → List Text → Targets
parse_lines valid_utf8 problem [] = elim problem [
  | none ↦ targets []
  | some f ↦ no_targets (unread f)
]
parse_lines valid_utf8 problem (line ∷ rest) =
    take_line valid_utf8 (split_on 9 (trim_return line)) (parse_lines valid_utf8 problem rest)

-- `parseTargets`.
unfoldable pub parse_targets : (valid_utf8 : Text → Bool) → Scan → Targets
parse_targets valid_utf8 s = parse_lines valid_utf8 s.problem s.lines

-- `binary encode hex` in the script.
abbrev pub hex_char : ℕ → ℕ
hex_char n = if ltb n 10 then b'0' + n else b'a' + (n - 10)

unfoldable pub hex_encode : Text → Text
hex_encode [] = []
hex_encode (b ∷ s) = hex_char (b / 16) ∷ hex_char (b % 16) ∷ hex_encode s

abbrev pub properties : Target → List Text
properties t = t.id ∷ t.name ∷ t.device_index ∷ t.device_name ∷ t.cable_name ∷ t.cable_serial ∷ []

-- The line that the script prints.
unfoldable pub print_target : Target → Text
print_target t = join_with 9 (target_marker ∷ map hex_encode (properties t))
