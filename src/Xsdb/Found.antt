-- ===== src/Xsdb/Found.antt =====
-- The targets that the script prints are read back (internal/xsdb/targets.go).
use provisioning_station.Base.{
  All, Bool, List, Text, [], all, ap, arith, join_with, map, none, not, refl, some, split_on,
  text_eq_refl, true, ℕ, ◌%◌, ◌&&◌, ◌++◌, ◌/◌, ◌<◌, ◌==◌, ◌∙◌, ◌∷◌, ◌≡◌, ◌≢◌,
}
use provisioning_station.Xsdb.Arguments.{validate_target_id}
use provisioning_station.Xsdb.Lines.{trim_return}
use provisioning_station.Xsdb.Targets.{
  Target, Targets, add_target, decode_properties, decode_property, hex_char, hex_decode, hex_digit,
  hex_encode, parse_lines, parse_targets, print_target, properties, take_fields, take_line,
  take_values, target_marker, targets,
}

-- Neither a tab nor a carriage return.
abbrev Plain : Text → Type 0
Plain s = All (λ c. (c ≢ 9) × (c ≢ 13)) s

split_on-Plain_last : (s : Text) → Plain s → split_on 9 s ≡ s ∷ []
unfolding split_on
split_on-Plain_last [] p = refl
split_on-Plain_last (c ∷ s) ((no_tab, _), p) = ground (arith, no_tab, split_on-Plain_last s p)

split_on-Plain : (s t : Text) → Plain s → split_on 9 (s ++ 9 ∷ t) ≡ s ∷ split_on 9 t
unfolding split_on
split_on-Plain [] t p = refl
split_on-Plain (c ∷ s) t ((no_tab, _), p) = ground (arith, no_tab, split_on-Plain s t p)

split_on-join_with :
    (f : Text) (fs : List Text) → All Plain (f ∷ fs) → split_on 9 (join_with 9 (f ∷ fs)) ≡ f ∷ fs
split_on-join_with f [] (p, _) = split_on-Plain_last f p
split_on-join_with f (g ∷ gs) (p, ps) =
    split_on-Plain f (join_with 9 (g ∷ gs)) p ∙ ap (λ r. f ∷ r) (split_on-join_with g gs ps)

NoReturn : Text → Type 0
NoReturn s = All (λ c. c ≢ 13) s

trim_return-same : (s : Text) → NoReturn s → trim_return s ≡ s
unfolding trim_return NoReturn
trim_return-same [] p = refl
trim_return-same (c ∷ []) (q, _) = ground (arith, q)
trim_return-same (c ∷ d ∷ s) (_, p) = ap (λ r. c ∷ r) (trim_return-same (d ∷ s) p)

append-NoReturn : (s t : Text) → Plain s → NoReturn t → NoReturn (s ++ t)
unfolding NoReturn
append-NoReturn [] t p q = q
append-NoReturn (c ∷ s) t ((_, r), p) q = (r, append-NoReturn s t p q)

Plain-NoReturn : (s : Text) → Plain s → NoReturn s
unfolding NoReturn
Plain-NoReturn [] p = tt
Plain-NoReturn (c ∷ s) ((_, r), p) = (r, Plain-NoReturn s p)

join_with-NoReturn :
    (f : Text) (fs : List Text) → All Plain (f ∷ fs) → NoReturn (join_with 9 (f ∷ fs))
unfolding NoReturn
join_with-NoReturn f [] (p, _) = Plain-NoReturn f p
join_with-NoReturn f (g ∷ gs) (p, ps) =
    append-NoReturn f (9 ∷ join_with 9 (g ∷ gs)) p ((λ e. cc e), join_with-NoReturn g gs ps)

abbrev Bytes : Text → Type 0
Bytes s = All (λ b. b < 256) s

hex_char-plain : (n : ℕ) → (hex_char n ≢ 9) × (hex_char n ≢ 13)
hex_char-plain n = ground arith

hex_encode-Plain : (s : Text) → Plain (hex_encode s)
unfolding hex_encode
hex_encode-Plain [] = tt
hex_encode-Plain (b ∷ s) = (hex_char-plain (b / 16), (hex_char-plain (b % 16), hex_encode-Plain s))

hex_digit-hex_char : (n : ℕ) → n < 16 → hex_digit (hex_char n) ≡ some n
hex_digit-hex_char n h = ground (arith, h)

hex_decode-hex_encode : (s : Text) → Bytes s → hex_decode (hex_encode s) ≡ some s
unfolding hex_decode hex_encode
hex_decode-hex_encode [] h = refl
hex_decode-hex_encode (b ∷ s) (small, h) =
    rw
      (
        hex_digit-hex_char (b / 16) (omega (arith, small)),
        hex_digit-hex_char (b % 16) (omega arith),
        hex_decode-hex_encode s h,
      )
      (ap (λ n. some (n ∷ s)) (omega arith))

-- Bytes that are a text in UTF-8.
abbrev IsProperty : (valid_utf8 : Text → Bool) → Text → Type 0
IsProperty valid_utf8 s = Bytes s × (valid_utf8 s ≡ true)

module _ (valid_utf8 : Text → Bool) where
  decode_property-hex_encode :
      (s : Text) → IsProperty valid_utf8 s → decode_property valid_utf8 (hex_encode s) ≡ some s
  unfolding decode_property
  decode_property-hex_encode s (b, v) = rw (hex_decode-hex_encode s b, decode_property) (rw v refl)

  decode_properties-hex_encode :
      (ss : List Text)
      → All (IsProperty valid_utf8) ss
      → decode_properties valid_utf8 (map hex_encode ss) ≡ some ss
  unfolding decode_properties
  decode_properties-hex_encode [] p = refl
  decode_properties-hex_encode (s ∷ ss) (p, ps) =
      rw (decode_property-hex_encode s p, decode_properties-hex_encode ss ps) refl

encoded-Plain : (ss : List Text) → All Plain (map hex_encode ss)
encoded-Plain [] = tt
encoded-Plain (s ∷ ss) = (hex_encode-Plain s, encoded-Plain ss)

-- A target that the script may print: an identifier that is valid, and texts.
pub record IsTarget (valid_utf8 : Text → Bool) (t : Target) : Type 0 where
  pub good_id : validate_target_id t.id ≡ none
  pub texts : All (IsProperty valid_utf8) (properties t)

all-Plain : (s : Text) → all (λ c. not (c == 9) && not (c == 13)) s ≡ true → Plain s
all-Plain [] h = tt
all-Plain (c ∷ s) h = ((ground (arith, h), ground (arith, h)), all-Plain s (ground (arith, h)))

marker-Plain : Plain target_marker
marker-Plain = all-Plain target_marker refl

split_on-print_target :
    (t : Target)
    → split_on 9 (trim_return (print_target t)) ≡ target_marker ∷ map hex_encode (properties t)
unfolding print_target
split_on-print_target t =
    let plain : All Plain (target_marker ∷ map hex_encode (properties t)) =
      (marker-Plain, encoded-Plain (properties t)) in
    ap (split_on 9) (
      trim_return-same (print_target t)
        (join_with-NoReturn target_marker (map hex_encode (properties t)) plain))
    ∙ split_on-join_with target_marker (map hex_encode (properties t)) plain

take_line-print_target :
    (valid_utf8 : Text → Bool) (t : Target) (later : Targets)
    → IsTarget valid_utf8 t
    → take_line valid_utf8 (split_on 9 (trim_return (print_target t))) later ≡ add_target t later
unfolding take_line take_fields take_values
take_line-print_target valid_utf8 t later p =
    rw
      (
        split_on-print_target t,
        text_eq_refl target_marker,
        decode_properties-hex_encode valid_utf8 (properties t) p.texts,
        take_values,
        p.good_id,
      )
      refl

-- Targets with valid identifiers whose properties are texts in UTF-8 are read back, in order,
-- from the lines that the discovery script prints for them.
pub parse_targets-print_target :
    (valid_utf8 : Text → Bool) (ts : List Target)
    → All (IsTarget valid_utf8) ts
    → parse_targets valid_utf8 (record { lines = map print_target ts; problem = none }) ≡ targets ts
unfolding parse_targets parse_lines
parse_targets-print_target valid_utf8 [] p = refl
parse_targets-print_target valid_utf8 (t ∷ ts) (p, ps) =
    take_line-print_target valid_utf8 t _ p
    ∙ ap (add_target t) (parse_targets-print_target valid_utf8 ts ps)
