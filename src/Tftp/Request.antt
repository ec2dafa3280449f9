-- ===== src/Tftp/Request.antt =====
-- Read requests (internal/tftp/server.go, `parseRequest`, `splitZeroTerminated`, `validateFilename`).
pub mod Encoded
pub mod Inside
use provisioning_station.Base.{
  Bool, List, Map, Option, Text, [], all, codes, drop, fail_if, false, if◌then◌else◌, insert,
  is_control, is_dots, is_empty, is_some, length, lookup, lower_byte, ltb, map, none, not, some,
  split_on, starts_with, suc, text_eq, text_key, true, zero, ℕ, ◌&&◌, ◌==◌, ◌>>◌, ◌||◌, ◌∷◌,
}
use provisioning_station.Tftp.Packets.{opcode_rrq, read_word}

pub record ReadRequest : Type 0 where
  pub filename : Text
  pub options : Map Text Text

pub data RequestError : Type 0 where
  not_a_read malformed bad_mode empty_option : RequestError
  unsafe_filename duplicate_option : Text → RequestError

pub data Parsed : Type 0 where
  parsed : ReadRequest → Parsed
  rejected : RequestError → Parsed

-- `data[len(data)-1] == 0`, false of no data.
unfoldable pub ends_zero : Text → Bool
ends_zero [] = false
ends_zero (c ∷ []) = c == 0
ends_zero (c ∷ d ∷ s) = ends_zero (d ∷ s)

-- `data[:len(data)-1]`.
unfoldable pub without_last : Text → Text
without_last [] = []
without_last (c ∷ []) = []
without_last (c ∷ d ∷ s) = c ∷ without_last (d ∷ s)

unfoldable pub split_zero_terminated : Text → List Text
split_zero_terminated bytes =
    if not (ends_zero bytes)
    then []
    else let fields = split_on 0 (without_last bytes) in
      if all (λ f. not (is_empty f)) fields then fields else []

unfoldable pub validate_filename : Text → Option RequestError
validate_filename name =
    fail_if
      (is_empty name
        || ltb 1024 (length name)
        || starts_with b'/' name
        || not (all (λ c. not (c == b'\\') && not (c == b':')) name))
      (unsafe_filename name)
    >> fail_if (not (all (λ c. not (is_control c)) name)) (unsafe_filename name)
    >> fail_if (not (all (λ part. not (is_dots part)) (split_on b'/' name))) (unsafe_filename name)

-- `strings.ToLower`, with the Unicode tables of the standard library for what is not ASCII.
abbrev pub to_lower : (Text → Text) → Text → Text
to_lower unicode s = if all (λ c. ltb c 128) s then map lower_byte s else unicode s

-- `strings.EqualFold(s, "octet")`: none of these letters folds to a letter outside ASCII.
abbrev pub is_octet : Text → Bool
is_octet s = text_eq (map lower_byte s) (codes "octet")

-- The loop over the options. The number of fields is even; the code would panic on a name alone.
unfoldable pub parse_options : (Text → Text) → Text → Map Text Text → List Text → Parsed
parse_options unicode filename options [] =
    parsed (record { filename = filename; options = options })
parse_options unicode filename options (field ∷ []) = rejected malformed
parse_options unicode filename options (field ∷ value ∷ rest) =
    let name = to_lower unicode field in
    let later = parse_options unicode filename (insert name value options) rest in
    if is_empty name
    then rejected empty_option
    else if is_some (lookup name options)
    then rejected (duplicate_option name)
    else later

unfoldable pub is_even : ℕ → Bool
is_even zero = true
is_even (suc n) = not (is_even n)

-- `len(parts) < 2 || len(parts)%2 != 0` and the rest of `parseRequest`.
unfoldable pub parse_parts : (Text → Text) → List Text → Parsed
parse_parts unicode (filename ∷ mode ∷ rest) =
    if not (is_even (length rest)) then rejected malformed else elim (validate_filename filename) [
      | some e ↦ rejected e
      | none ↦
          if not (is_octet mode) then rejected bad_mode else parse_options unicode filename [] rest
    ]
parse_parts unicode _ = rejected malformed

unfoldable pub parse_request : (Text → Text) → Text → Parsed
parse_request unicode packet =
    if ltb (length packet) 4 || not (read_word packet == opcode_rrq)
    then rejected not_a_read
    else parse_parts unicode (split_zero_terminated (drop 2 packet))
