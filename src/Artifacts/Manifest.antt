-- ===== src/Artifacts/Manifest.antt =====
-- The manifest of an artifact (internal/artifact/manifest.go).
pub mod Checked
use provisioning_station.Base.{
  Bool, List, Map, Option, Text, [], all, codes, fail_if, false, if◌then◌else◌, is_alnum,
  is_control, is_digit, is_dots, is_empty, leb, length, lookup, none, not, some, split_on,
  starts_with, text_eq, text_key, true, ℕ, ◌&&◌, ◌++◌, ◌==◌, ◌>>◌, ◌||◌, ◌∷◌,
}
use provisioning_station.Base.Int.{negsuc, pos, ℤ, ◌<ℤ◌}

pub record FileDescriptor : Type 0 where
  pub size : ℤ
  pub sha256 : Text
  pub mode : Text

-- `FileDescriptor` and `ActualFile` have the same fields.
abbrev pub ActualFile : Type 0
ActualFile = FileDescriptor

pub record ArtifactMetadata : Type 0 where
  pub name : Text
  pub vendor : Text
  pub operation : Text
  pub product : Text
  pub machine : Text
  pub version : Text
  pub build_id : Text
  pub created_utc : Text

pub record ExecutorMetadata : Type 0 where
  pub kind : Text
  pub entrypoint : Text
  pub tftp_root : Text

pub record Manifest : Type 0 where
  pub schema : Text
  pub format_version : ℤ
  pub artifact : ArtifactMetadata
  pub executor : ExecutorMetadata
  pub files : Map Text FileDescriptor

pub data ManifestError : Type 0 where
  bad_schema bad_format bad_identifier bad_text bad_time : ManifestError
  unsafe_path : Text → ManifestError
  no_files no_entrypoint entrypoint_mode empty_tftp_root : ManifestError
  reserved_path bad_size bad_hash bad_mode : Text → ManifestError
  payload_set : ManifestError
  size_differs hash_differs mode_differs : Text → ManifestError

abbrev pub manifest_name : Text
manifest_name = codes "manifest.json"

abbrev pub signature_name : Text
signature_name = codes "manifest.sig"

-- `ValidateRelativePath`.
unfoldable pub validate_relative_path : Text → Option ManifestError
validate_relative_path value =
    fail_if (is_empty value) (unsafe_path value)
    >> fail_if
        (starts_with b'/' value || not (all (λ c. not (c == b'\\') && not (c == b':')) value))
        (unsafe_path value)
    >> fail_if (not (all (λ c. not (is_control c)) value)) (unsafe_path value)
    >> fail_if (not (all (λ part. not (is_dots part)) (split_on b'/' value))) (unsafe_path value)

-- `identifierPattern`.
abbrev pub is_name_tail : ℕ → Bool
is_name_tail c = is_alnum c || c == b'.' || c == b'_' || c == b'+' || c == b'-'

abbrev pub matches_identifier : Text → Bool
matches_identifier [] = false
matches_identifier (c ∷ s) = is_alnum c && all is_name_tail s

-- `sha256Pattern`.
abbrev pub is_lower_hex : ℕ → Bool
is_lower_hex c = is_digit c || (leb b'a' c && leb c b'f')

abbrev pub matches_sha256 : Text → Bool
matches_sha256 s = length s == 64 && all is_lower_hex s

-- `validateText`.
unfoldable pub validate_text : Text → Option ManifestError
validate_text value =
    fail_if (is_empty value) bad_text
    >> fail_if (not (all (λ c. not (is_control c)) value)) bad_text

-- `time.Parse(time.RFC3339, …)`: what it gives is known by whether its location is UTC.
abbrev pub Times : Type 0
Times = Text → Option Bool

unfoldable pub ends_with : ℕ → Text → Bool
ends_with b [] = false
ends_with b (c ∷ []) = c == b
ends_with b (c ∷ d ∷ s) = ends_with b (d ∷ s)

unfoldable pub check_time : Times → Text → Option ManifestError
check_time times value = elim (times value) [
  | none ↦ some bad_time
  | some is_utc ↦ fail_if (not (ends_with b'Z' value) || not is_utc) bad_time
]

abbrev pub is_mode : Text → Bool
is_mode mode = text_eq mode (codes "0644") || text_eq mode (codes "0755")

-- The identifiers that `Validate` checks, in one of the orders in which Go may read the map.
abbrev pub identifiers : Manifest → List Text
identifiers m =
    m.artifact.name ∷ m.artifact.vendor ∷ m.artifact.operation ∷ m.artifact.product
    ∷ m.artifact.machine ∷ m.artifact.build_id ∷ m.executor.kind ∷ []

unfoldable pub check_file : Text → FileDescriptor → Option ManifestError
check_file path d =
    fail_if (text_eq path manifest_name || text_eq path signature_name) (reserved_path path)
    >> validate_relative_path path
    >> fail_if (d.size <ℤ pos 0) (bad_size path)
    >> fail_if (not (matches_sha256 d.sha256)) (bad_hash path)
    >> fail_if (not (is_mode d.mode)) (bad_mode path)

-- The loop over the files, in the order of the map.
unfoldable pub check_files : Map Text FileDescriptor → Option ManifestError
check_files [] = none
check_files ((path, d) ∷ rest) = check_file path d >> check_files rest

-- `strings.HasPrefix`.
unfoldable pub has_prefix : Text → Text → Bool
has_prefix s [] = true
has_prefix [] (b ∷ p) = false
has_prefix (a ∷ s) (b ∷ p) = a == b && has_prefix s p

unfoldable pub some_file_below : Text → Map Text FileDescriptor → Bool
some_file_below prefix [] = false
some_file_below prefix ((path, d) ∷ rest) = has_prefix path prefix || some_file_below prefix rest

abbrev pub no_entries : Map Text FileDescriptor → Bool
no_entries [] = true
no_entries (_ ∷ _) = false

unfoldable pub check_entrypoint : Manifest → Option ManifestError
check_entrypoint m = elim (lookup m.executor.entrypoint m.files) [
  | none ↦ some no_entrypoint
  | some d ↦ fail_if (not (text_eq d.mode (codes "0755"))) entrypoint_mode
]

unfoldable pub check_tftp_root : Manifest → Option ManifestError
check_tftp_root m =
    fail_if
      (not (is_empty m.executor.tftp_root)
        && not (some_file_below (m.executor.tftp_root ++ b'/' ∷ []) m.files))
      empty_tftp_root

abbrev pub is_two : ℤ → Bool
is_two (pos n) = n == 2
is_two (negsuc n) = false

-- `Manifest.Validate`.
unfoldable pub validate_manifest : Times → Manifest → Option ManifestError
validate_manifest times m =
    fail_if (not (text_eq m.schema (codes "mnc-station-artifact"))) bad_schema
    >> fail_if (not (is_two m.format_version)) bad_format
    >> fail_if (not (all matches_identifier (identifiers m))) bad_identifier
    >> validate_text m.artifact.version
    >> check_time times m.artifact.created_utc
    >> validate_relative_path m.executor.entrypoint
    >> (if is_empty m.executor.tftp_root then none else validate_relative_path m.executor.tftp_root)
    >> fail_if (no_entries m.files) no_files
    >> check_files m.files
    >> check_entrypoint m
    >> check_tftp_root m

unfoldable pub int_eq : ℤ → ℤ → Bool
int_eq (pos a) (pos b) = a == b
int_eq (negsuc a) (negsuc b) = a == b
int_eq _ _ = false

unfoldable pub compare_file : Text → FileDescriptor → ActualFile → Option ManifestError
compare_file path expected observed =
    fail_if (not (int_eq observed.size expected.size)) (size_differs path)
    >> fail_if (not (text_eq observed.sha256 expected.sha256)) (hash_differs path)
    >> fail_if (not (text_eq observed.mode expected.mode)) (mode_differs path)

unfoldable pub compare_files : Map Text ActualFile → Map Text FileDescriptor → Option ManifestError
compare_files actual [] = none
compare_files actual ((path, expected) ∷ rest) =
    (elim (lookup path actual) [
      | none ↦ some payload_set
      | some observed ↦ compare_file path expected observed
    ])
    >> compare_files actual rest

-- `Manifest.ValidatePayload`.
unfoldable pub validate_payload : Manifest → Map Text ActualFile → Option ManifestError
validate_payload m actual =
    fail_if (not (length actual == length m.files)) payload_set >> compare_files actual m.files
