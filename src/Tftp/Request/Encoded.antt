-- ===== src/Tftp/Request/Encoded.antt =====
-- Reading back what a client wrote.
use provisioning_station.Base.{
  All, List, Map, Text, [], all, ap, append-nil, append_assoc, arith, false, insert, is_empty,
  length, length-append, lookup, none, not, refl, split_on, sym, text_key, true, ℕ, ◌++◌, ◌∙◌, ◌∷◌,
  ◌≡◌, ◌≤◌,
}
use provisioning_station.Tftp.Packets.{opcode_rrq, read_word, word}
use provisioning_station.Tftp.Request.{
  ends_zero, is_even, is_octet, parse_options, parse_parts, parse_request, parsed,
  split_zero_terminated, to_lower, validate_filename, without_last,
}

-- Fields that are each ended by a zero.
unfoldable pub encode_fields : List Text → Text
encode_fields [] = []
encode_fields (f ∷ fs) = f ++ 0 ∷ encode_fields fs

-- A field that can be encoded: it is not empty and holds no zero.
abbrev pub IsField : Text → Type 0
IsField f = (is_empty f ≡ false) × All (λ c. 1 ≤ c) f

split_on_last : (f : Text) → All (λ c. 1 ≤ c) f → split_on 0 f ≡ f ∷ []
unfolding split_on
split_on_last [] h = refl
split_on_last (c ∷ f) h = ground (arith, split_on_last f h.1)

split_on_field : (f s : Text) → All (λ c. 1 ≤ c) f → split_on 0 (f ++ 0 ∷ s) ≡ f ∷ split_on 0 s
unfolding split_on
split_on_field [] s h = ground arith
split_on_field (c ∷ f) s h = ground (arith, split_on_field f s h.1)

ends_zero-append : (s : Text) → ends_zero (s ++ 0 ∷ []) ≡ true
unfolding ends_zero
ends_zero-append [] = refl
ends_zero-append (c ∷ []) = refl
ends_zero-append (c ∷ d ∷ s) = ends_zero-append (d ∷ s)

without_last-append : (s : Text) (b : ℕ) → without_last (s ++ b ∷ []) ≡ s
unfolding without_last
without_last-append [] b = refl
without_last-append (c ∷ []) b = refl
without_last-append (c ∷ d ∷ s) b = ap (λ t. c ∷ t) (without_last-append (d ∷ s) b)

-- The fields with a zero between any two.
joined : Text → List Text → Text
joined f [] = f
joined f (g ∷ fs) = f ++ 0 ∷ joined g fs

encode_fields-joined : (f : Text) (fs : List Text) → encode_fields (f ∷ fs) ≡ joined f fs ++ 0 ∷ []
unfolding encode_fields joined
encode_fields-joined f [] = refl
encode_fields-joined f (g ∷ fs) =
    ap (λ s. f ++ 0 ∷ s) (encode_fields-joined g fs)
    ∙ sym (append_assoc f (0 ∷ joined g fs) (0 ∷ []))

split_on-joined :
    (f : Text) (fs : List Text) → All IsField (f ∷ fs) → split_on 0 (joined f fs) ≡ f ∷ fs
unfolding joined
split_on-joined f [] h = split_on_last f h.0.1
split_on-joined f (g ∷ fs) h =
    split_on_field f (joined g fs) h.0.1 ∙ ap (λ t. f ∷ t) (split_on-joined g fs h.1)

all-IsField : (fs : List Text) → All IsField fs → all (λ f. not (is_empty f)) fs ≡ true
all-IsField [] h = refl
all-IsField (f ∷ fs) h = ground (arith, all-IsField fs h.1)

-- Fields that a client has ended with zeros are read back as they were.
pub split_zero_terminated-encode_fields :
    (f : Text) (fs : List Text)
    → All IsField (f ∷ fs)
    → split_zero_terminated (encode_fields (f ∷ fs)) ≡ f ∷ fs
unfolding split_zero_terminated
split_zero_terminated-encode_fields f fs h =
    let bytes : encode_fields (f ∷ fs) ≡ joined f fs ++ 0 ∷ [] = encode_fields-joined f fs in
    let fields = split_on-joined f fs h in
    rw
      (
        bytes,
        ends_zero-append (joined f fs),
        without_last-append (joined f fs) 0,
        fields,
        all-IsField (f ∷ fs) h,
      )
      refl

-- The fields of options, a name and a value each.
unfoldable pub option_fields : Map Text Text → List Text
option_fields [] = []
option_fields ((name, value) ∷ rest) = name ∷ value ∷ option_fields rest

-- Options that have not been seen before and are written in lower case, so that no two collide.
abbrev pub Fresh : (Text → Text) → Map Text Text → Map Text Text → Type 0
Fresh unicode before [] = Unit
Fresh unicode before ((name, value) ∷ rest) =
    (to_lower unicode name ≡ name)
    × (is_empty name ≡ false)
    × (lookup name before ≡ none)
    × Fresh unicode (before ++ (name, value) ∷ []) rest

insert_new :
    (name value : Text) (m : Map Text Text)
    → lookup name m ≡ none
    → insert name value m ≡ m ++ (name, value) ∷ []
unfolding insert lookup
insert_new name value [] h = refl
insert_new name value ((k, v) ∷ m) h = ground (arith, insert_new name value m)

parse_options-Fresh :
    (unicode : Text → Text) (filename : Text) (before options : Map Text Text)
    → Fresh unicode before options
    → parse_options unicode filename before (option_fields options)
      ≡ parsed (record { filename = filename; options = before ++ options })
unfolding parse_options option_fields
parse_options-Fresh unicode filename before [] h =
    ap (λ m. parsed (record { filename = filename; options = m })) (sym (append-nil before))
parse_options-Fresh unicode filename before ((name, value) ∷ rest) h =
    let (lower, some_name, unseen, others) = h in
    let later = parse_options-Fresh unicode filename (before ++ (name, value) ∷ []) rest others in
    rw
      (
        lower,
        some_name,
        unseen,
        insert_new name value before unseen,
        later,
        append_assoc before ((name, value) ∷ []) rest,
      )
      refl

is_even-option_fields : (options : Map Text Text) → is_even (length (option_fields options)) ≡ true
unfolding is_even option_fields
is_even-option_fields [] = refl
is_even-option_fields ((name, value) ∷ rest) = ground (arith, is_even-option_fields rest)

length-encode_fields : (f g : Text) (fs : List Text) → 2 ≤ length (encode_fields (f ∷ g ∷ fs))
unfolding encode_fields
length-encode_fields f g fs =
    omega (
      arith,
      length-append f (0 ∷ g ++ 0 ∷ encode_fields fs),
      length-append g (0 ∷ encode_fields fs),
    )

-- A read request as a client writes it.
abbrev pub request_packet : (filename mode : Text) → Map Text Text → Text
request_packet filename mode options =
    word opcode_rrq ++ encode_fields (filename ∷ mode ∷ option_fields options)

-- A read request that a client writes with an acceptable file name, the octet mode in any case,
-- and options with pairwise different lower-case names, all of them neither empty nor with a
-- zero byte, is parsed to that file name and those options.
pub parse_request-request_packet :
    (unicode : Text → Text) (filename mode : Text) (options : Map Text Text)
    → validate_filename filename ≡ none
    → is_octet mode ≡ true
    → All IsField (filename ∷ mode ∷ option_fields options)
    → Fresh unicode [] options
    → parse_request unicode (request_packet filename mode options)
      ≡ parsed (record { filename = filename; options = options })
unfolding parse_request parse_parts word read_word
parse_request-request_packet unicode filename mode options v o f fresh =
    let fields = split_zero_terminated-encode_fields filename (mode ∷ option_fields options) f in
    let later = parse_options-Fresh unicode filename [] options fresh in
    let long = length-encode_fields filename mode (option_fields options) in
    ground (arith, fields, later, long, is_even-option_fields options)
