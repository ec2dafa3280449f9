-- ===== src/Capture.antt =====
-- The transcript of a serial console that a job keeps (internal/jobs/serial_capture.go).
pub mod Stopped
pub mod Transcript
use provisioning_station.Base.{
  Bool, Failure, List, Option, Text, [], false, if◌then◌else◌, is_some, length, ltb, none, some,
  take, true, ℕ, ◌++◌, ◌+◌, ◌-◌, ◌==◌, ◌||◌, ◌∷◌,
}
use provisioning_station.Jobs.Model.{
  CaptureState, SerialCapture, capturing, complete, failed, truncated,
}

-- What the write to the transcript does: how much of the chunk gets into the file, and the error.
pub record FileWrite : Type 0 where
  pub written : ℕ
  pub error : Option Failure

-- What the loop of `run` gets in turn. A channel that is closed comes with the error of the
-- attachment and with whether the capture was stopped by then.
pub data CaptureEvent : Type 0 where
  stop_seen : CaptureEvent
  chunk_seen : Text → FileWrite → CaptureEvent
  channel_closed : (stopped : Bool) → Option Failure → CaptureEvent

pub data CaptureError : Type 0 where
  write_failed : Option Failure → CaptureError
  console_ended : Failure → CaptureError

pub record Capture : Type 0 where
  pub limit : ℕ
  pub metadata : SerialCapture
  pub write_error : Option CaptureError
  pub failure_error : Option CaptureError
  -- the warning about the limit was emitted
  pub warned : Bool
  -- the content of the transcript
  pub transcript : Text

-- A first failure is kept.
unfoldable pub fail_capture : CaptureError → Capture → Capture
fail_capture e c = elim c.failure_error [ none ↦ record c { failure_error = some e } | some f ↦ c ]

-- `err != nil || written != len(toWrite)`.
abbrev pub write_problem : Text → FileWrite → Option CaptureError
write_problem to_write w = elim w.error [
  | some f ↦ some (write_failed (some f))
  | none ↦ if w.written == length to_write then none else some (write_failed none)
]

-- The part of a chunk that is within the limit is written.
abbrev pub room_left : Capture → ℕ
room_left c = c.limit - c.metadata.retained_bytes

unfoldable pub write_chunk : Text → FileWrite → Capture → Capture
write_chunk to_write w c = record c {
  metadata = record c.metadata { retained_bytes = c.metadata.retained_bytes + w.written };
  write_error = elim (write_problem to_write w) [ none ↦ c.write_error | some e ↦ some e ];
  transcript = c.transcript ++ take w.written to_write;
}

unfoldable pub store_chunk : Text → FileWrite → Capture → Capture
store_chunk chunk w c =
    if ltb c.metadata.retained_bytes c.limit then write_chunk (take (room_left c) chunk) w c else c

abbrev pub count_chunk : Text → Capture → Capture
count_chunk chunk c = record c {
  metadata = record c.metadata { received_bytes = c.metadata.received_bytes + length chunk };
}

unfoldable pub mark_limit : Capture → Capture
mark_limit c =
    if ltb c.limit c.metadata.received_bytes
    then record c { metadata = record c.metadata { truncated = true } }
    else c

-- A chunk: the counts, the transcript and the mark of the limit.
unfoldable pub take_capture : Text → FileWrite → Capture → Capture
take_capture chunk w c = mark_limit (store_chunk chunk w (count_chunk chunk c))

abbrev pub warn_once : Capture → Capture
warn_once c = if c.metadata.truncated then record c { warned = true } else c

-- A failed write ends the run.
unfoldable pub end_run : Option CaptureError → (after later : Capture) → Capture
end_run (some e) after later = fail_capture e after
end_run none after later = later

-- `run`: it ends at a stop, at the end of the channel and at a failed write.
unfoldable pub capture_run : List CaptureEvent → Capture → Capture
capture_run [] c = c
capture_run (stop_seen ∷ rest) c = c
capture_run (channel_closed stopped error ∷ rest) c =
    if stopped then c else elim error [ none ↦ c | some f ↦ fail_capture (console_ended f) c ]
capture_run (chunk_seen chunk w ∷ rest) c =
    let after = take_capture chunk w c in
    let later = capture_run rest (warn_once after) in end_run after.write_error after later

-- The capture that `startSerialCapture` makes.
abbrev pub start_capture : ℕ → (now : ℕ) → Capture
start_capture limit now = record {
  limit = limit;
  metadata = record {
    state = capturing;
    received_bytes = 0;
    retained_bytes = 0;
    truncated = false;
    started = now;
    finished = none;
  };
  write_error = none;
  failure_error = none;
  warned = false;
  transcript = [];
}

-- The state in which `Stop` leaves the capture.
unfoldable pub final_state : (run_failed : Bool) → Capture → CaptureState
final_state run_failed c =
    if run_failed || is_some c.write_error || is_some c.failure_error
    then failed
    else if c.metadata.truncated
    then truncated
    else complete

abbrev pub first_error : Option CaptureError → Option CaptureError → Option CaptureError
first_error (some e) other = some e
first_error none other = other

-- `Stop`, after `run` has ended; `close_error` is that of the file.
unfoldable pub stop_capture :
    ℕ → (run_failed : Bool) → Option CaptureError → Capture → SerialCapture × Option CaptureError
stop_capture now run_failed close_error c = (
  record c.metadata { finished = some now; state = final_state run_failed c },
  first_error c.failure_error (first_error c.write_error close_error),
)
