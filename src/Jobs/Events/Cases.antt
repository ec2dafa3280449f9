-- ===== src/Jobs/Events/Cases.antt =====
-- The ways through `emit_locked`, for properties that each of them has.
use provisioning_station.Base.{Bool-cases, Text, arith, inl, inr, leb, lookup, text_key, ℕ, ◌≡◌}
use provisioning_station.Jobs.Events.{append_event, emit_locked, mark_long}
use provisioning_station.Jobs.Model.{Job, terminal}
use provisioning_station.Jobs.State.{Host, Manager, event_limit_bytes, or_zero, put_job}

-- A job of which only the mark for lost events may differ.
abbrev pub SameJob : Job → Job → Type 0
SameJob job j = j ≡ record job { events_truncated = j.events_truncated }

mark_long-SameJob : (job : Job) (message : Text) → SameJob job (mark_long job message)
unfolding mark_long
mark_long-SameJob job message = ground arith

module _ (h : Host) (now : ℕ) (m : Manager) (job : Job) (level message : Text) where
  -- An event is appended, or dropped with the mark set.
  pub emit_cases {ℓ} :
      (P : Manager × Job → Type ℓ)
      → ((j : Job) (text : Text) → SameJob job j → P (append_event h now m j level text))
      → ((j : Job) → SameJob job j → P (put_job m j, j))
      → P (emit_locked h now m job level message)
  unfolding emit_locked
  emit_cases P appended dropped =
      elim (Bool-cases (leb event_limit_bytes (or_zero (lookup job.id m.event_bytes)))) [
        | inr under ↦ rw under (appended (mark_long job message) _ (mark_long-SameJob job message))
        | inl over ↦ elim (Bool-cases (terminal job.state)) [
          | inl end ↦ rw (over, end) (appended _ _ (cc (mark_long-SameJob job message)))
          | inr live ↦ rw (over, live) (dropped _ (cc (mark_long-SameJob job message)))
        ]
      ]
