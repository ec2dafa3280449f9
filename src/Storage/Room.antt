-- ===== src/Storage/Room.antt =====
-- A reservation that is granted fits.
use provisioning_station.Base.{
  Bool-cases, Option-cases, ap, arith, false, inl, inr, none, subst, sym, true, ℕ, ◌+◌, ◌∙◌, ◌≡◌,
  ◌≤◌,
}
use provisioning_station.Base.Int.{pos}
use provisioning_station.Storage.{
  Reclaim, Store, ensure_again, ensure_locked, ensure_reclaimed, has_room, reclaim_first,
  status_locked, status_of,
}

-- The store, what is reserved in it and a new reservation fit the limit.
abbrev pub Fits : ℕ → Store → Type 0
Fits n s = (status_of s).used_bytes + (status_of s).reserved_bytes + n ≤ (status_of s).limit_bytes

has_room-Fits : (n : ℕ) (s : Store) → has_room (pos n) (status_of s) ≡ true → Fits n s
unfolding has_room status_locked
has_room-Fits n s h = ground arith

Fits-has_room : (n : ℕ) (s : Store) → Fits n s → has_room (pos n) (status_of s) ≡ true
unfolding has_room status_locked
Fits-has_room n s h = ground arith

ensure_again-Fits : (n : ℕ) (s : Store) → ensure_again (pos n) s ≡ none → Fits n s
unfolding ensure_again
ensure_again-Fits n s h = has_room-Fits n s (ground arith)

ensure_reclaimed-Fits :
    (r : Reclaim) (n : ℕ) (s : Store)
    → (ensure_reclaimed r (pos n) s).1 ≡ none
    → Fits n (ensure_reclaimed r (pos n) s).0
unfolding ensure_reclaimed
ensure_reclaimed-Fits r n s h = elim (Option-cases (reclaim_first r (pos n) s).1) [
  | inl e ↦
      rw (e, ensure_reclaimed)
        (ensure_again-Fits n (reclaim_first r (pos n) s).0 (rw (e, ensure_reclaimed) at h))
  | inr (f, e) ↦ absurd (cc (rw (e, ensure_reclaimed) at h))
]

granted_at_once :
    (r : Reclaim) (n : ℕ) (s : Store)
    → s.walk.error ≡ none
    → has_room (pos n) (status_of s) ≡ true
    → ensure_locked r (pos n) s ≡ (s, none)
unfolding ensure_locked
granted_at_once r n s e room = ground arith

reclaims :
    (r : Reclaim) (n : ℕ) (s : Store)
    → s.walk.error ≡ none
    → has_room (pos n) (status_of s) ≡ false
    → ensure_locked r (pos n) s ≡ ensure_reclaimed r (pos n) s
unfolding ensure_locked
reclaims r n s e room = ground arith

-- A reservation of n bytes that is granted fits: in the store that is left, the bytes used,
-- those still reserved and n are at most the limit. If the store can be read and they fit
-- already, it is granted at once and nothing is reclaimed.
pub ensure_locked-Fits :
    (r : Reclaim) (n : ℕ) (s : Store)
    → ((ensure_locked r (pos n) s).1 ≡ none → Fits n (ensure_locked r (pos n) s).0)
      × (s.walk.error ≡ none → Fits n s → ensure_locked r (pos n) s ≡ (s, none))
unfolding ensure_locked
ensure_locked-Fits r n s = (
  λ h. elim (Option-cases s.walk.error) [
    | inr (f, e) ↦ absurd (cc (rw (e, ensure_locked) at h))
    | inl e ↦ elim (Bool-cases (has_room (pos n) (status_of s))) [
      | inl room ↦
          subst (λ v. Fits n v.0) (sym (granted_at_once r n s e room)) (has_room-Fits n s room)
      | inr none_left ↦
          let reached = reclaims r n s e none_left in
          subst (λ v. Fits n v.0) (sym reached)
            (ensure_reclaimed-Fits r n s (ap (λ v. v.1) (sym reached) ∙ h))
    ]
  ],
  λ e fits. granted_at_once r n s e (Fits-has_room n s fits),
)
