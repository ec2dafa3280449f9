-- ===== src/Artifacts/Archive.antt =====
-- The members of an artifact archive (internal/artifact/archive.go, the checks of the loop of
-- `validateAndExtract` on the headers; the extraction of a member's content is not modelled).
use provisioning_station.Artifacts.Manifest.{
  ManifestError, manifest_name, signature_name, validate_relative_path,
}
use provisioning_station.Base.{
  Bool, List, Option, Text, [], contains, fail_if, false, if◌then◌else◌, is_empty, ltb, none, not,
  some, suc, text_eq, ℕ, ◌&&◌, ◌++◌, ◌+◌, ◌==◌, ◌>>◌, ◌^◌, ◌||◌, ◌∷◌,
}
use provisioning_station.Base.Int.{is_zero, negsuc, pos, ℤ, ◌<ℤ◌}
use mathlib.Core.Option
pub mod Bounded

-- The limits are positive int64; one that is not positive is refused like zero.
pub record ArchiveLimits : Type 0 where
  pub max_compressed_bytes : ℕ
  pub max_uncompressed_bytes : ℕ
  pub max_file_bytes : ℕ
  pub max_files : ℕ

-- A header of archive/tar, with the numbers of its PAX records and extended attributes.
pub record Member : Type 0 where
  pub name : Text
  pub is_regular_file : Bool
  pub uid : ℤ
  pub gid : ℤ
  pub uname : Text
  pub gname : Text
  pub pax_records : ℕ
  pub xattrs : ℕ
  pub size : ℤ
  pub mode : ℤ

-- The variables of the loop.
pub record Progress : Type 0 where
  pub seen : List Text
  pub ordered_payload : List Text
  pub total_bytes : ℕ
  pub has_signature : Bool
  pub member_index : ℕ

pub data ArchiveError : Type 0 where
  bad_limits too_many_members irregular bad_owner extended_metadata member_too_large : ArchiveError
  signature_too_large archive_too_large abnormal_mode bad_member_mode : ArchiveError
  manifest_not_first signature_not_second : ArchiveError
  bad_member_path : ManifestError → ArchiveError
  duplicate_path : Text → ArchiveError

-- `validateLimits`.
unfoldable pub validate_limits : ArchiveLimits → Option ArchiveError
validate_limits l =
    fail_if
      (l.max_compressed_bytes == 0
        || l.max_uncompressed_bytes == 0
        || l.max_file_bytes == 0
        || l.max_files == 0)
      bad_limits

abbrev pub is_manifest : Member → Bool
is_manifest m = text_eq m.name manifest_name

abbrev pub is_signature : Member → Bool
is_signature m = text_eq m.name signature_name

abbrev pub size_of : ℤ → ℕ
size_of (pos n) = n
size_of (negsuc n) = 0

abbrev pub is_int : ℕ → ℤ → Bool
is_int n (pos k) = k == n
is_int n (negsuc k) = false

-- "0644", and "0755" for the payload.
abbrev pub has_allowed_mode : Member → Bool
has_allowed_mode m =
    is_int 420 m.mode || (is_int 493 m.mode && not (is_manifest m || is_signature m))

-- The checks on one header, `index` being its place from 1. Every limit is compared as the code does,
-- `total > limits.MaxUncompressedBytes-header.Size` with the size carried over.
unfoldable pub check_member : ArchiveLimits → Progress → ℕ → Member → Option ArchiveError
check_member l p index m =
    fail_if (ltb (l.max_files + 2) index) too_many_members
    >> Option.map bad_member_path (validate_relative_path m.name)
    >> fail_if (contains p.seen m.name) (duplicate_path m.name)
    >> fail_if (not m.is_regular_file) irregular
    >> fail_if
        (not (is_zero m.uid)
          || not (is_zero m.gid)
          || not (is_empty m.uname)
          || not (is_empty m.gname))
        bad_owner
    >> fail_if (not (m.pax_records == 0) || not (m.xattrs == 0)) extended_metadata
    >> fail_if (m.size <ℤ pos 0 || pos l.max_file_bytes <ℤ m.size) member_too_large
    >> fail_if (is_signature m && pos (2 ^ 20) <ℤ m.size) signature_too_large
    >> fail_if (ltb l.max_uncompressed_bytes (p.total_bytes + size_of m.size)) archive_too_large
    >> fail_if (m.mode <ℤ pos 0 || pos 511 <ℤ m.mode) abnormal_mode
    >> fail_if (not (has_allowed_mode m)) bad_member_mode
    >> fail_if (index == 1 && not (is_manifest m)) manifest_not_first
    >> fail_if (is_signature m && not (index == 2)) signature_not_second

-- The variables after a member.
unfoldable pub take_member : Progress → Member → Progress
take_member p m = record {
  seen = m.name ∷ p.seen;
  ordered_payload =
      if is_signature m || is_manifest m
      then p.ordered_payload
      else p.ordered_payload ++ m.name ∷ [];
  total_bytes = p.total_bytes + size_of m.size;
  has_signature = p.has_signature || is_signature m;
  member_index = suc p.member_index;
}

-- The loop over the headers.
unfoldable pub check_members :
    ArchiveLimits → Progress → List Member → Progress × Option ArchiveError
check_members l p [] = (p, none)
check_members l p (m ∷ rest) =
    let later = check_members l (take_member p m) rest in
    elim (check_member l p (suc p.member_index) m) [ some e ↦ (p, some e) | none ↦ later ]

abbrev pub no_members : Progress
no_members = record {
  seen = [];
  ordered_payload = [];
  total_bytes = 0;
  has_signature = false;
  member_index = 0;
}

unfoldable pub check_archive : ArchiveLimits → List Member → Progress × Option ArchiveError
check_archive l members = elim (validate_limits l) [
  | some e ↦ (no_members, some e)
  | none ↦ check_members l no_members members
]
