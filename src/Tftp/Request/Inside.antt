-- ===== src/Tftp/Request/Inside.antt =====
-- A file name that is accepted stays below the root.
use provisioning_station.Base.{
  List, Map, Text, [], all, arith, drop, insert, is_dots, none, not, reverse_onto, split_on,
  text_key, true, walk, walk_plain, ◌∷◌, ◌≡◌,
}
use provisioning_station.Tftp.Request.{
  ReadRequest, parse_options, parse_parts, parse_request, parsed, split_zero_terminated, to_lower,
  validate_filename,
}

parse_options-filename :
    (unicode : Text → Text) (filename : Text) (options : Map Text Text) (fields : List Text)
    (r : ReadRequest)
    → parse_options unicode filename options fields ≡ parsed r
    → r.filename ≡ filename
unfolding parse_options
parse_options-filename unicode filename options [] r h = ground arith
parse_options-filename unicode filename options (field ∷ []) r h = absurd (cc h)
parse_options-filename unicode filename options (field ∷ value ∷ rest) r h = ground (
  arith,
  parse_options-filename unicode filename (insert (to_lower unicode field) value options) rest r,
)

parse_parts-validate_filename :
    (unicode : Text → Text) (parts : List Text) (r : ReadRequest)
    → parse_parts unicode parts ≡ parsed r
    → validate_filename r.filename ≡ none
unfolding parse_parts
parse_parts-validate_filename unicode [] r h = absurd (cc h)
parse_parts-validate_filename unicode (filename ∷ []) r h = absurd (cc h)
parse_parts-validate_filename unicode (filename ∷ mode ∷ rest) r h =
    ground (arith, parse_options-filename unicode filename [] rest r)

validate_filename-parts :
    (name : Text)
    → validate_filename name ≡ none
    → all (λ part. not (is_dots part)) (split_on b'/' name) ≡ true
unfolding validate_filename
validate_filename-parts name h = ground arith

-- The name of a request that is parsed, cleaned component by component below any directory, is
-- that directory followed by all the components of the name: it never leaves the directory.
pub parse_request-Inside :
    (unicode : Text → Text) (packet : Text) (r : ReadRequest) (root : List Text)
    → parse_request unicode packet ≡ parsed r
    → walk root (split_on b'/' r.filename) ≡ reverse_onto (split_on b'/' r.filename) root
unfolding parse_request
parse_request-Inside unicode packet r root h = walk_plain root (split_on b'/' r.filename) (
    validate_filename-parts r.filename (
      parse_parts-validate_filename unicode (split_zero_terminated (drop 2 packet)) r
        (ground arith)))
