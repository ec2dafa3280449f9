-- ===== src/Tests/Stores.antt =====
-- An artifact with one file, and a store with one job that has written something.
use provisioning_station.Artifacts.Archive.{
  ArchiveLimits, Member, check_archive, check_member, check_members, take_member, validate_limits,
}
use provisioning_station.Artifacts.Archive.Bounded.{
  Apart, Bounded, check_archive-Bounded, names_onto, total_size,
}
use provisioning_station.Artifacts.Manifest.{
  ActualFile, FileDescriptor, Manifest, Times, check_entrypoint, check_file, check_files,
  check_tftp_root, check_time, compare_file, compare_files, ends_with, has_prefix, int_eq,
  manifest_name, some_file_below, validate_manifest, validate_payload, validate_relative_path,
  validate_text,
}
use provisioning_station.Artifacts.Manifest.Checked.{
  IsManifest, validate_manifest-IsManifest, validate_payload-lookup,
}
use provisioning_station.Base.{
  All, List, Map, Text, [], codes, contains, false, insert, length, lookup, none, refl, some,
  split_on, text_eq, text_key, true, ◌+◌, ◌∷◌, ◌≡◌, ◌≤◌,
}
use provisioning_station.Base.Int.{pos, ℤ}
use provisioning_station.Jobs.State.{Gate}
use provisioning_station.Storage.{
  Store, consume, ensure_locked, reserved_paths, scan, status_locked, status_of, total,
}
use provisioning_station.Storage.Room.{Fits, ensure_locked-Fits}

abbrev hash : Text
hash = codes "0123456789abcdef0123456789abcdef0123456789abcdef0123456789abcdef"

abbrev deploy_script : FileDescriptor
deploy_script = record { size = pos 12; sha256 = hash; mode = codes "0755" }

abbrev boot_image : FileDescriptor
boot_image = record { size = pos 4096; sha256 = hash; mode = codes "0644" }

abbrev boot_manifest : Manifest
boot_manifest = record {
  schema = codes "mnc-station-artifact";
  format_version = pos 2;
  artifact = record {
    name = codes "boot";
    vendor = codes "mnc";
    operation = codes "deploy";
    product = codes "board";
    machine = codes "zynq";
    version = codes "1.0";
    build_id = codes "b1";
    created_utc = codes "2026-01-01T00:00:00Z";
  };
  executor = record {
    kind = codes "xsdb";
    entrypoint = codes "deploy.tcl";
    tftp_root = codes "tftp";
  };
  files = (codes "deploy.tcl", deploy_script) ∷ (codes "tftp/boot.bin", boot_image) ∷ [];
}

abbrev all_utc : Times
all_utc value = some true

boot_manifest_accepted : validate_manifest all_utc boot_manifest ≡ none
unfolding validate_manifest validate_text validate_relative_path check_time ends_with check_files
    check_file check_entrypoint check_tftp_root some_file_below has_prefix lookup text_eq split_on
boot_manifest_accepted = refl

validate_manifest-IsManifest_example : IsManifest boot_manifest
validate_manifest-IsManifest_example =
    validate_manifest-IsManifest all_utc boot_manifest boot_manifest_accepted

abbrev extracted : Map Text ActualFile
extracted = (codes "tftp/boot.bin", boot_image) ∷ (codes "deploy.tcl", deploy_script) ∷ []

extracted_matches : validate_payload boot_manifest extracted ≡ none
unfolding validate_payload compare_files compare_file int_eq lookup text_eq
extracted_matches = refl

validate_payload-lookup_example :
    (length extracted ≡ length boot_manifest.files)
    × All (λ file. lookup file.0 extracted ≡ some file.1) boot_manifest.files
validate_payload-lookup_example = validate_payload-lookup boot_manifest extracted extracted_matches

-- A gate of 100 bytes; the job has written 10 of the 30 bytes reserved.
abbrev log_path : Text
log_path = codes "/jobs/a/events.jsonl"

abbrev job_gate : Gate
job_gate = record {
  limit = 100;
  pins = [];
  consumption = (codes "a", log_path ∷ []) ∷ [];
  reservations = (codes "a", 30) ∷ [];
}

abbrev job_store : Store
job_store = record {
  gate = job_gate;
  walk = record {
    files =
        record { path = log_path; size = 10; is_regular = true }
        ∷ record { path = codes "/artifacts/x"; size = 20; is_regular = true }
        ∷ [];
    error = none;
  };
}

-- 30 bytes are used, and 20 of the reservation are left.
job_store_status : status_of job_store ≡ record {
  limit_bytes = 100;
  used_bytes = 30;
  reserved_bytes = 20;
  available_bytes = 50;
  over_budget = false;
}
unfolding status_locked scan consume reserved_paths total lookup insert text_eq
job_store_status = refl

ensure_locked-Fits_example :
    ((ensure_locked none (pos 50) job_store).1 ≡ none
      → Fits 50 (ensure_locked none (pos 50) job_store).0)
    × (job_store.walk.error ≡ none
        → Fits 50 job_store
        → ensure_locked none (pos 50) job_store ≡ (job_store, none))
ensure_locked-Fits_example = ensure_locked-Fits none 50 job_store

abbrev member : Text → ℤ → ℤ → Member
member name size mode = record {
  name = name;
  is_regular_file = true;
  uid = pos 0;
  gid = pos 0;
  uname = [];
  gname = [];
  pax_records = 0;
  xattrs = 0;
  size = size;
  mode = mode;
}

abbrev boot_members : List Member
boot_members =
    member manifest_name (pos 900) (pos 420)
    ∷ member (codes "deploy.tcl") (pos 12) (pos 493)
    ∷ member (codes "tftp/boot.bin") (pos 4096) (pos 420)
    ∷ []

abbrev small_limits : ArchiveLimits
small_limits = record {
  max_compressed_bytes = 6000;
  max_uncompressed_bytes = 8000;
  max_file_bytes = 5000;
  max_files = 2;
}

boot_members_accepted : (check_archive small_limits boot_members).1 ≡ none
unfolding check_archive validate_limits check_members check_member take_member
    validate_relative_path contains text_eq split_on
boot_members_accepted = refl

check_archive-Bounded_example :
    (length boot_members ≤ small_limits.max_files + 2)
    × (total_size boot_members ≤ small_limits.max_uncompressed_bytes)
    × Apart (names_onto [] boot_members)
    × Bounded small_limits (check_archive small_limits boot_members).0
    × ((check_archive small_limits boot_members).0.member_index ≡ length boot_members)
check_archive-Bounded_example =
    check_archive-Bounded small_limits boot_members boot_members_accepted
