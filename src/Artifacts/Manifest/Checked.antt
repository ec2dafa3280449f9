-- ===== src/Artifacts/Manifest/Checked.antt =====
-- What the checks of a manifest establish.
use provisioning_station.Artifacts.Manifest.{
  ActualFile, FileDescriptor, Manifest, Times, check_entrypoint, check_file, check_files,
  check_tftp_root, compare_file, compare_files, int_eq, is_mode, manifest_name, matches_sha256,
  payload_set, signature_name, some_file_below, validate_manifest, validate_payload,
  validate_relative_path,
}
use provisioning_station.Base.{
  >>-eq_none, All, List, Map, Option-cases, Text, [], all, ap, arith, codes, fail_if, false, inl,
  inr, is_dots, length, lookup, none, not, reverse_onto, some, split_on, text_eq, text_eq_iff,
  text_key, true, walk, walk_plain, ◌++◌, ◌==◌, ◌>>◌, ◌↔◌, ◌∙◌, ◌∷◌, ◌≡◌, ◌≢◌, ◌⊎◌,
}
use provisioning_station.Base.Int.{negsuc, pos, ℤ}

relative_parts :
    (value : Text)
    → validate_relative_path value ≡ none
    → all (λ part. not (is_dots part)) (split_on b'/' value) ≡ true
unfolding validate_relative_path
relative_parts value h = ground arith

-- A path below any directory stays there.
abbrev pub StaysInside : Text → Type 0
StaysInside path =
    (root : List Text) → walk root (split_on b'/' path) ≡ reverse_onto (split_on b'/' path) root

pub relative_path-StaysInside :
    (value : Text) → validate_relative_path value ≡ none → StaysInside value
relative_path-StaysInside value h root =
    walk_plain root (split_on b'/' value) (relative_parts value h)

-- A file of a manifest: its path stays below the directory of the artifact, and its mode is one of two.
abbrev pub FileSound : Text × FileDescriptor → Type 0
FileSound (path, d) =
    StaysInside path
    × (path ≢ manifest_name)
    × (path ≢ signature_name)
    × (matches_sha256 d.sha256 ≡ true)
    × ((d.mode ≡ codes "0644") ⊎ (d.mode ≡ codes "0755"))

check_file-parts :
    (path : Text) (d : FileDescriptor)
    → check_file path d ≡ none
    → (validate_relative_path path ≡ none)
      × (text_eq path manifest_name ≡ false)
      × (text_eq path signature_name ≡ false)
      × (matches_sha256 d.sha256 ≡ true)
      × (is_mode d.mode ≡ true)
unfolding check_file
check_file-parts path d h = ground arith

text_ne : (s t : Text) → text_eq s t ≡ false → s ≢ t
text_ne s t h e = ground (arith, text_eq_iff s t)

check_file-FileSound :
    (path : Text) (d : FileDescriptor) → check_file path d ≡ none → FileSound (path, d)
check_file-FileSound path d h =
    let (safe, manifest, signature, hash, mode) = check_file-parts path d h in
    (
      relative_path-StaysInside path safe,
      text_ne path manifest_name manifest,
      text_ne path signature_name signature,
      hash,
      ground (arith, text_eq_iff d.mode (codes "0644"), text_eq_iff d.mode (codes "0755")),
    )

check_files-FileSound :
    (files : Map Text FileDescriptor) → check_files files ≡ none → All FileSound files
unfolding check_files
check_files-FileSound [] h = tt
check_files-FileSound ((path, d) ∷ rest) h =
    let (first, others) = >>-eq_none (check_file path d) (check_files rest) h in
    (check_file-FileSound path d first, check_files-FileSound rest others)

-- A manifest whose files are sound and whose entrypoint is one of them and can be executed.
abbrev pub IsManifest : Manifest → Type 0
IsManifest m =
    All FileSound m.files
    × (d : FileDescriptor) × (lookup m.executor.entrypoint m.files ≡ some d)
    × (d.mode ≡ codes "0755")
    × ((m.executor.tftp_root ≡ [])
        ⊎ (some_file_below (m.executor.tftp_root ++ b'/' ∷ []) m.files ≡ true))

validate_manifest-parts :
    (times : Times) (m : Manifest)
    → validate_manifest times m ≡ none
    → (check_files m.files ≡ none) × (check_entrypoint m ≡ none) × (check_tftp_root m ≡ none)
unfolding validate_manifest
validate_manifest-parts times m h = ground arith

check_entrypoint-lookup :
    (m : Manifest)
    → check_entrypoint m ≡ none
    → (d : FileDescriptor) × (lookup m.executor.entrypoint m.files ≡ some d)
      × (d.mode ≡ codes "0755")
unfolding check_entrypoint
check_entrypoint-lookup m h = elim (Option-cases (lookup m.executor.entrypoint m.files)) [
  | inl e ↦ absurd (cc (rw (e, check_entrypoint) at h))
  | inr (d, e) ↦ (d, e, ground (arith, text_eq_iff d.mode (codes "0755")))
]

check_tftp_root-below :
    (m : Manifest)
    → check_tftp_root m ≡ none
    → (m.executor.tftp_root ≡ [])
      ⊎ (some_file_below (m.executor.tftp_root ++ b'/' ∷ []) m.files ≡ true)
unfolding check_tftp_root
check_tftp_root-below m h = ground arith

-- In a manifest that is accepted, every path stays below any directory that it is joined to and
-- is no reserved name, every hash is one and every mode is 0644 or 0755; the entrypoint is one
-- of the files and can be executed, and a TFTP root that is given holds a file.
pub validate_manifest-IsManifest :
    (times : Times) (m : Manifest) → validate_manifest times m ≡ none → IsManifest m
validate_manifest-IsManifest times m h =
    let (files, entry, root) = validate_manifest-parts times m h in
    let (d, found, mode) = check_entrypoint-lookup m entry in
    (check_files-FileSound m.files files, d, found, mode, check_tftp_root-below m root)

int_eq_iff : (a b : ℤ) → (int_eq a b ≡ true) ↔ (a ≡ b)
unfolding int_eq
int_eq_iff (pos a) (pos b) = ground arith
int_eq_iff (negsuc a) (negsuc b) = ground arith
int_eq_iff (pos a) (negsuc b) = ground arith
int_eq_iff (negsuc a) (pos b) = ground arith

compare_file-eq :
    (path : Text) (expected observed : FileDescriptor)
    → compare_file path expected observed ≡ none
    → observed ≡ expected
unfolding compare_file
compare_file-eq path expected observed h = ground (
  arith,
  int_eq_iff observed.size expected.size,
  text_eq_iff observed.sha256 expected.sha256,
  text_eq_iff observed.mode expected.mode,
)

compare_files-lookup :
    (actual : Map Text ActualFile) (files : Map Text FileDescriptor)
    → compare_files actual files ≡ none
    → All (λ file. lookup file.0 actual ≡ some file.1) files
unfolding compare_files
compare_files-lookup actual [] h = tt
compare_files-lookup actual ((path, expected) ∷ rest) h = elim (Option-cases (lookup path actual)) [
  | inl e ↦ absurd (cc (rw (e, compare_files) at h))
  | inr (observed, e) ↦
      let both : (compare_file path expected observed >> compare_files actual rest) ≡ none =
        rw (e, compare_files) at h in
      let (first, others) =
        >>-eq_none (compare_file path expected observed) (compare_files actual rest) both in
      (
        e ∙ ap some (compare_file-eq path expected observed first),
        compare_files-lookup actual rest others,
      )
]

-- A payload that is accepted has as many files as the manifest, and every file of the manifest
-- is among them with the same size, hash and mode.
pub validate_payload-lookup :
    (m : Manifest) (actual : Map Text ActualFile)
    → validate_payload m actual ≡ none
    → (length actual ≡ length m.files) × All (λ file. lookup file.0 actual ≡ some file.1) m.files
unfolding validate_payload
validate_payload-lookup m actual h =
    let (count, files) =
      >>-eq_none (fail_if (not (length actual == length m.files)) payload_set)
        (compare_files actual m.files) h in
    (ground arith, compare_files-lookup actual m.files files)
