-- ===== src/Storage.antt =====
-- The storage budget (internal/storagebudget/budget.go).
pub mod Room
use provisioning_station.Base.{
  Bool, Failure, List, Map, Option, Text, [], fail_if, if◌then◌else◌, insert, leb, lookup, ltb,
  none, not, some, text_key, ℕ, ◌&&◌, ◌+◌, ◌-◌, ◌∷◌,
}
use provisioning_station.Base.Int.{negsuc, pos, ℤ, ◌<ℤ◌}
use provisioning_station.Jobs.State.{Gate}

-- A file that the walk of the store visits, with its cleaned path.
pub record StoredFile : Type 0 where
  pub path : Text
  pub size : ℕ
  pub is_regular : Bool

-- What `filepath.WalkDir` visits before it ends or fails; files that are gone by then are left out.
pub record Walk : Type 0 where
  pub files : List StoredFile
  pub error : Option Failure

pub record Status : Type 0 where
  pub limit_bytes : ℕ
  pub used_bytes : ℕ
  pub reserved_bytes : ℕ
  pub available_bytes : ℕ
  pub over_budget : Bool

pub data BudgetError : Type 0 where
  storage_full negative_reservation : BudgetError
  unreadable : Failure → BudgetError

abbrev pub paths_of : Option (List Text) → List Text
paths_of none = []
paths_of (some paths) = paths

abbrev pub assign : Text → List Text → Map Text Text → Map Text Text
assign id [] paths = paths
assign id (p ∷ ps) paths = assign id ps (insert p id paths)

-- The paths that the reservations of jobs stand for.
unfoldable pub reserved_paths : Map Text (List Text) → Map Text ℕ → Map Text Text → Map Text Text
reserved_paths consumption [] paths = paths
reserved_paths consumption ((id, n) ∷ rest) paths =
    reserved_paths consumption rest (assign id (paths_of (lookup id consumption)) paths)

abbrev pub spent : ℕ → Option ℕ → ℕ
spent size none = 0
spent size (some n) = n - size

-- `remaining[id] -= info.Size()`. What falls below zero is not counted in the end, so it stops there.
unfoldable pub consume : Map Text Text → StoredFile → Map Text ℕ → Map Text ℕ
consume paths f remaining = elim (lookup f.path paths) [
  | none ↦ remaining
  | some id ↦
      if f.is_regular then insert id (spent f.size (lookup id remaining)) remaining else remaining
]

-- The walk: the bytes used, and what is left of the reservations.
unfoldable pub scan : Map Text Text → List StoredFile → ℕ → Map Text ℕ → ℕ × Map Text ℕ
scan paths [] used remaining = (used, remaining)
scan paths (f ∷ rest) used remaining = scan paths rest (used + f.size) (consume paths f remaining)

unfoldable pub total : Map Text ℕ → ℕ
total [] = 0
total ((id, n) ∷ rest) = n + total rest

abbrev pub make_status : ℕ → ℕ × Map Text ℕ → Status
make_status limit (used, remaining) = record {
  limit_bytes = limit;
  used_bytes = used;
  reserved_bytes = total remaining;
  available_bytes = limit - used - total remaining;
  over_budget = ltb limit (used + total remaining);
}

-- `StatusLocked`.
unfoldable pub status_locked : Gate → Walk → Status
status_locked g w =
    make_status g.limit
      (scan (reserved_paths g.consumption g.reservations []) w.files 0 g.reservations)

-- The gate, whose consumption has cleaned paths, and the store.
pub record Store : Type 0 where
  pub gate : Gate
  pub walk : Walk

abbrev pub status_of : Store → Status
status_of s = status_locked s.gate s.walk

-- `Reclaim`, where it is set: it may remove files and reservations, and may fail.
abbrev pub Reclaim : Type 0
Reclaim = Option (ℤ → Store → Store × Option Failure)

unfoldable pub has_room : ℤ → Status → Bool
has_room (pos n) s = leb n s.available_bytes && not s.over_budget
has_room (negsuc n) s = not s.over_budget

-- The second look at the status, after the reclaim.
unfoldable pub ensure_again : ℤ → Store → Option BudgetError
ensure_again n s = elim s.walk.error [
  | some f ↦ some (unreadable f)
  | none ↦ fail_if (not (has_room n (status_of s))) storage_full
]

unfoldable pub reclaim_first : Reclaim → ℤ → Store → Store × Option Failure
reclaim_first none n s = (s, none)
reclaim_first (some reclaim) n s = reclaim n s

unfoldable pub ensure_reclaimed : Reclaim → ℤ → Store → Store × Option BudgetError
ensure_reclaimed r n s =
    let (after, problem) = reclaim_first r n s in
    elim problem [ some f ↦ (after, some (unreadable f)) | none ↦ (after, ensure_again n after) ]

-- `EnsureLocked`.
unfoldable pub ensure_locked : Reclaim → ℤ → Store → Store × Option BudgetError
ensure_locked r n s = elim s.walk.error [
  | some f ↦ (s, some (unreadable f))
  | none ↦
      if n <ℤ pos 0
      then (s, some negative_reservation)
      else if has_room n (status_of s)
      then (s, none)
      else ensure_reclaimed r n s
]
