-- ===== src/Artifacts/Archive/Bounded.antt =====
-- What an accepted archive is bounded by.
use provisioning_station.Artifacts.Archive.{
  ArchiveLimits, Member, Progress, check_archive, check_member, check_members, no_members, size_of,
  take_member, validate_limits,
}
use provisioning_station.Artifacts.Manifest.{validate_relative_path}
use provisioning_station.Artifacts.Manifest.Checked.{StaysInside, relative_path-StaysInside}
use provisioning_station.Base.{
  List, Option-cases, Text, [], ap, arith, contains, false, inl, inr, length, none, refl, subst,
  suc, sym, ℕ, ◌+◌, ◌∙◌, ◌∷◌, ◌≡◌, ◌≤◌,
}

-- Names that stay inside and are pairwise different.
abbrev pub Apart : List Text → Type 0
Apart [] = Unit
Apart (name ∷ rest) = (contains rest name ≡ false) × StaysInside name × Apart rest

pub record Bounded (l : ArchiveLimits) (p : Progress) : Type 0 where
  pub size_bound : p.total_bytes ≤ l.max_uncompressed_bytes
  pub count_bound : p.member_index ≤ l.max_files + 2
  pub counted : length p.seen ≡ p.member_index
  pub apart : Apart p.seen

check_member-parts :
    (l : ArchiveLimits) (p : Progress) (index : ℕ) (m : Member)
    → check_member l p index m ≡ none
    → (index ≤ l.max_files + 2)
      × (validate_relative_path m.name ≡ none)
      × (contains p.seen m.name ≡ false)
      × (p.total_bytes + size_of m.size ≤ l.max_uncompressed_bytes)
unfolding check_member
check_member-parts l p index m h = ground arith

take_member-Bounded :
    (l : ArchiveLimits) (p : Progress) (m : Member)
    → check_member l p (suc p.member_index) m ≡ none
    → Bounded l p
    → Bounded l (take_member p m)
unfolding take_member
take_member-Bounded l p m h b =
    let (count, path, fresh, size) = check_member-parts l p (suc p.member_index) m h in
    record {
      size_bound = size;
      count_bound = count;
      counted = ap suc b.counted;
      apart = (fresh, relative_path-StaysInside m.name path, b.apart);
    }

check_members-Bounded :
    (l : ArchiveLimits) (p : Progress) (members : List Member)
    → Bounded l p
    → Bounded l (check_members l p members).0
unfolding check_members
check_members-Bounded l p [] b = b
check_members-Bounded l p (m ∷ rest) b =
    elim (Option-cases (check_member l p (suc p.member_index) m)) [
      | inl e ↦
          rw (e, check_members)
            (check_members-Bounded l (take_member p m) rest (take_member-Bounded l p m e b))
      | inr (bad, e) ↦ rw (e, check_members) b
    ]

check_members-count :
    (l : ArchiveLimits) (p : Progress) (members : List Member)
    → (check_members l p members).1 ≡ none
    → (check_members l p members).0.member_index ≡ p.member_index + length members
unfolding check_members take_member
check_members-count l p [] h = omega arith
check_members-count l p (m ∷ rest) h = ground (arith, check_members-count l (take_member p m) rest)

-- The sizes of the members, added up.
pub total_size : List Member → ℕ
total_size [] = 0
total_size (m ∷ rest) = size_of m.size + total_size rest

-- The names of the members, the last one first.
pub names_onto : List Text → List Member → List Text
names_onto names [] = names
names_onto names (m ∷ rest) = names_onto (m.name ∷ names) rest

check_members-total_size :
    (l : ArchiveLimits) (p : Progress) (members : List Member)
    → (check_members l p members).1 ≡ none
    → (check_members l p members).0.total_bytes ≡ p.total_bytes + total_size members
unfolding check_members take_member total_size
check_members-total_size l p [] h = omega arith
check_members-total_size l p (m ∷ rest) h =
    ground (arith, check_members-total_size l (take_member p m) rest)

check_members-names_onto :
    (l : ArchiveLimits) (p : Progress) (members : List Member)
    → (check_members l p members).1 ≡ none
    → (check_members l p members).0.seen ≡ names_onto p.seen members
unfolding check_members take_member names_onto
check_members-names_onto l p [] h = refl
check_members-names_onto l p (m ∷ rest) h =
    ground (arith, check_members-names_onto l (take_member p m) rest)

-- If all headers of an archive are accepted, all of them were read, they are at most two more
-- than the limit on files, their sizes add up to at most the limit on uncompressed bytes, and
-- their names are pairwise different and stay below any directory that they are joined to; the
-- progress that is returned is bounded in the same way.
pub check_archive-Bounded :
    (l : ArchiveLimits) (members : List Member)
    → (check_archive l members).1 ≡ none
    → (length members ≤ l.max_files + 2)
      × (total_size members ≤ l.max_uncompressed_bytes)
      × Apart (names_onto [] members)
      × Bounded l (check_archive l members).0
      × ((check_archive l members).0.member_index ≡ length members)
unfolding check_archive
check_archive-Bounded l members h = elim (Option-cases (validate_limits l)) [
  | inr (bad, e) ↦ absurd (cc (rw (e, check_archive) at h))
  | inl e ↦
      let nothing_read : Bounded l no_members = record {
        size_bound = omega arith;
        count_bound = omega arith;
        counted = refl;
        apart = tt;
      } in
      let reached : check_archive l members ≡ check_members l no_members members =
        rw (e, check_archive) refl in
      let fine : (check_members l no_members members).1 ≡ none = ap (λ r. r.1) (sym reached) ∙ h in
      let b = check_members-Bounded l no_members members nothing_read in
      let count = check_members-count l no_members members fine in
      let sizes = check_members-total_size l no_members members fine in
      (
        omega (arith, b.count_bound, count),
        omega (arith, b.size_bound, sizes),
        subst Apart (check_members-names_onto l no_members members fine) b.apart,
        subst (λ r. Bounded l r.0) (sym reached) b,
        ap (λ r. r.0.member_index) reached ∙ omega (arith, count),
      )
]
