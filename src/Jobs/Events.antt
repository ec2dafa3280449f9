-- ===== src/Jobs/Events.antt =====
-- The event history of a job (internal/jobs/manager.go, `emitLocked`, `emit`, `EventsLimit`, `Subscribe` and
-- `closeSubscribersLocked`).
pub mod Cases
pub mod Frame
pub mod Order
use provisioning_station.Base.{
  List, Option, Text, [], erase, false, if◌then◌else◌, insert, leb, length, lookup, ltb, none, some,
  suc, text_key, true, zero, ℕ, ◌++◌, ◌+◌, ◌==◌, ◌∷◌,
}
use provisioning_station.Jobs.Model.{Event, Job, bounded_text, terminal}
use provisioning_station.Jobs.State.{
  Host, Manager, Subscriber, channel_capacity, event_limit_bytes, events_of, find_job, or_zero,
  put_job, subscribers_of, with_job,
}

-- `select { case channel <- event: default: }`: a full channel misses the event.
unfoldable pub deliver : Event → List Subscriber → List Subscriber
deliver event [] = []
deliver event (s ∷ ss) =
    (if ltb (length s.buffer) channel_capacity
      then record s { buffer = s.buffer ++ event ∷ [] }
      else s)
    ∷ deliver event ss

-- The part of `emitLocked` behind its guards. The append to events.jsonl is best effort.
unfoldable pub append_event : Host → ℕ → Manager → Job → Text → Text → Manager × Job
append_event h now m job level message =
    let event : Event = record {
      sequence = job.event_count + 1;
      time = now;
      level = level;
      message = message;
    } in
    let counted = record job { event_count = event.sequence } in
    let written = or_zero (lookup job.id m.event_bytes) + (h.event_length event + 1) in
    (
      put_job
          (record m {
            event_bytes = insert job.id written m.event_bytes;
            events = insert job.id (events_of m job.id ++ event ∷ []) m.events;
            subscribers = insert job.id (deliver event (subscribers_of m job.id)) m.subscribers;
          })
          counted,
      counted,
    )

-- `if len(message) > 16384 { …; job.EventsTruncated = true }`.
unfoldable pub mark_long : Job → Text → Job
mark_long job message =
    if ltb 16384 (length message) then record job { events_truncated = true } else job

unfoldable pub emit_locked : Host → ℕ → Manager → Job → Text → Text → Manager × Job
emit_locked h now m job level message =
    let job₁ = mark_long job message in
    let short = bounded_text message 16384 in
    let job₂ = record job₁ { events_truncated = true } in
    if leb event_limit_bytes (or_zero (lookup job.id m.event_bytes))
    then (if terminal job.state
        then append_event h now m job₂ level (bounded_text short 2048)
        else (put_job m job₂, job₂))
    else append_event h now m job₁ level short

-- `emit`: an unknown job is left alone.
unfoldable pub emit : Host → ℕ → Manager → Text → Text → Text → Manager
emit h now m id level message = with_job m id λ job. (emit_locked h now m job level message).0

-- The events behind a cursor.
unfoldable pub behind : ℕ → List Event → List Event
behind after [] = []
behind after (e ∷ es) = if ltb after e.sequence then e ∷ behind after es else behind after es

-- The loop of `EventsLimit` with `room` more events to collect.
unfoldable pub collect : ℕ → ℕ → List Event → List Event
collect after zero es = []
collect after (suc room) [] = []
collect after (suc room) (e ∷ es) =
    if ltb after e.sequence then e ∷ collect after room es else collect after (suc room) es

-- `EventsLimit`; a limit of zero is none. (A negative one reads like zero.)
unfoldable pub events_limit : Manager → Text → ℕ → ℕ → Option (List Event)
events_limit m id after limit = elim (find_job m id) [
  | none ↦ none
  | some job ↦
      some
        (if limit == 0 then behind after (events_of m id) else collect after limit (events_of m id))
]

-- `Subscribe`: the history behind a cursor and a channel, which is closed at once for a finished job.
unfoldable pub subscribe : Manager → Text → ℕ → ℕ → Option (Manager × List Event × Subscriber)
subscribe m id after fresh = elim (find_job m id) [
  | none ↦ none
  | some job ↦
      let open_channel : Subscriber = record { id = fresh; buffer = []; closed = false } in
      if terminal job.state
      then some (m, behind after (events_of m id), record open_channel { closed = true })
      else some (
        record m { subscribers = insert id (open_channel ∷ subscribers_of m id) m.subscribers },
        behind after (events_of m id),
        open_channel,
      )
]

unfoldable pub close_subscribers : Manager → Text → Manager
close_subscribers m id = record m { subscribers = erase id m.subscribers }

abbrev pub without_channel : ℕ → List Subscriber → List Subscriber
without_channel channel [] = []
without_channel channel (s ∷ ss) =
    if s.id == channel then without_channel channel ss else s ∷ without_channel channel ss

-- The function that `Subscribe` returns; a channel that is not open is left alone.
unfoldable pub unsubscribe : Manager → Text → ℕ → Manager
unsubscribe m id channel = elim (lookup id m.subscribers) [
  | none ↦ m
  | some ss ↦ record m { subscribers = insert id (without_channel channel ss) m.subscribers }
]
