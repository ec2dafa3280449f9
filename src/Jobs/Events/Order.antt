-- ===== src/Jobs/Events/Order.antt =====
-- The order of a job's events, and reading them in pages.
use provisioning_station.Base.{
  Bool-cases, List, Text, [], arith, inl, inr, lookup-insert, ltb, ltb→lt, refl, some, suc, take,
  text_eq_iff, text_key, zero, ℕ, ◌++◌, ◌+◌, ◌<◌, ◌∷◌, ◌≡◌, ◌≤◌,
}
use provisioning_station.Jobs.Events.{append_event, behind, collect, emit_locked}
use provisioning_station.Jobs.Events.Cases.{emit_cases}
use provisioning_station.Jobs.Model.{Event, Job}
use provisioning_station.Jobs.State.{Host, Manager, events_of, find_job, put_job}

-- Sequence numbers rise strictly from above `low`, and none is past `top`.
abbrev pub Ordered : ℕ → List Event → ℕ → Type 0
Ordered low [] top = low ≤ top
Ordered low (e ∷ es) top = (low < e.sequence) × Ordered e.sequence es top

pub Ordered-append :
    (low : ℕ) (es : List Event) (top : ℕ) (e : Event)
    → Ordered low es top
    → e.sequence ≡ top + 1
    → Ordered low (es ++ e ∷ []) e.sequence
Ordered-append low [] top e h q = (omega arith, omega arith)
Ordered-append low (x ∷ es) top e h q = (h.0, Ordered-append x.sequence es top e h.1 q)

-- Every job stands under its identifier, and its history is in order up to its event count.
abbrev pub HasOrder : Manager → Type 0
HasOrder m =
    (id : Text) (job : Job)
    → find_job m id ≡ some job
    → (job.id ≡ id) × Ordered 0 (events_of m id) job.event_count

pub put_job-HasOrder :
    (m : Manager) (job : Job)
    → HasOrder m
    → Ordered 0 (events_of m job.id) job.event_count
    → HasOrder (put_job m job)
put_job-HasOrder m job h o id j e =
    ground (arith, lookup-insert id job.id job m.jobs, text_eq_iff job.id id, h id j)

append_event-HasOrder :
    (h : Host) (now : ℕ) (m : Manager) (job : Job) (level message : Text)
    → HasOrder m
    → Ordered 0 (events_of m job.id) job.event_count
    → HasOrder (append_event h now m job level message).0
unfolding append_event
append_event-HasOrder h now m job level message h' o id j e =
    let event : Event = record {
      sequence = job.event_count + 1;
      time = now;
      level = level;
      message = message;
    } in
    ground (
      arith,
      lookup-insert id job.id (record job { event_count = job.event_count + 1 }) m.jobs,
      lookup-insert id job.id (events_of m job.id ++ event ∷ []) m.events,
      text_eq_iff job.id id,
      h' id j,
      Ordered-append 0 (events_of m job.id) job.event_count event o refl,
    )

-- What is behind a cursor, read in pages of `n`: a page and what is behind its last event.
abbrev pub cursor : ℕ → List Event → ℕ
cursor after [] = after
cursor after (e ∷ page) = cursor e.sequence page

behind_all :
    (low after : ℕ) (es : List Event) (top : ℕ)
    → Ordered low es top
    → after ≤ low
    → behind after es ≡ es
unfolding behind
behind_all low after [] top o l = refl
behind_all low after (e ∷ es) top o l = ground (arith, behind_all e.sequence after es top)

collect_all :
    (low after n : ℕ) (es : List Event) (top : ℕ)
    → Ordered low es top
    → after ≤ low
    → collect after n es ≡ take n es
unfolding collect
collect_all low after zero es top o l = refl
collect_all low after (suc n) [] top o l = refl
collect_all low after (suc n) (e ∷ es) top o l =
    ground (arith, collect_all e.sequence after n es top)

cursor-take :
    (low n : ℕ) (es : List Event) (top : ℕ) → Ordered low es top → low ≤ cursor low (take n es)
cursor-take low zero es top o = omega arith
cursor-take low (suc n) [] top o = omega arith
cursor-take low (suc n) (e ∷ es) top o = omega (arith, cursor-take e.sequence n es top o.1)

cursor-collect :
    (low after n : ℕ) (es : List Event) (top : ℕ)
    → Ordered low es top
    → after ≤ cursor after (collect after n es)
unfolding collect
cursor-collect low after zero es top o = omega arith
cursor-collect low after (suc n) [] top o = omega arith
cursor-collect low after (suc n) (e ∷ es) top o = elim (Bool-cases (ltb after e.sequence)) [
  | inl more ↦
      let lt = ltb→lt after e.sequence more in
      rw (more, collect_all e.sequence after n es top o.1 (omega arith))
        (omega (arith, cursor-take e.sequence n es top o.1))
  | inr less ↦ rw less (cursor-collect e.sequence after (suc n) es top o.1)
]

-- In a history that is in order, a page of events behind a cursor followed by the events behind
-- the last event of the page are all the events behind the cursor: paging misses and repeats
-- none.
pub behind-collect :
    (low after n : ℕ) (es : List Event) (top : ℕ)
    → Ordered low es top
    → behind after es ≡ collect after n es ++ behind (cursor after (collect after n es)) es
unfolding collect behind
behind-collect low after zero es top o = refl
behind-collect low after (suc n) [] top o = refl
behind-collect low after (suc n) (e ∷ es) top o = elim (Bool-cases (ltb after e.sequence)) [
  | inl more ↦ ground (
    arith,
    collect_all e.sequence after n es top o.1 (omega (arith, ltb→lt after e.sequence more)),
    collect_all e.sequence e.sequence n es top o.1 (omega arith),
    behind_all e.sequence after es top o.1 (omega (arith, ltb→lt after e.sequence more)),
    behind_all e.sequence e.sequence es top o.1 (omega arith),
    behind-collect e.sequence e.sequence n es top o.1,
    cursor-take e.sequence n es top o.1,
  )
  | inr less ↦ ground (
    arith,
    behind-collect e.sequence after (suc n) es top o.1,
    cursor-collect e.sequence after (suc n) es top o.1,
  )
]

-- Emitting an event of any length for a job whose history is in order keeps every history in
-- order: the sequence numbers rise strictly and end at most at the event count of the job.
pub emit_locked-HasOrder :
    (h : Host) (now : ℕ) (m : Manager) (job : Job) (level message : Text)
    → HasOrder m
    → Ordered 0 (events_of m job.id) job.event_count
    → HasOrder (emit_locked h now m job level message).0
emit_locked-HasOrder h now m job level message o k =
    emit_cases h now m job level message (λ r. HasOrder r.0)
      (λ j text kept. append_event-HasOrder h now m j level text o (rw kept k))
      (λ j kept. put_job-HasOrder m j o (rw kept k))
