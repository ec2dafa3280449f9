-- ===== src/Jobs/Model.antt =====
-- The data of a job (internal/jobs/model.go). Times are instants on the station's clock.
use provisioning_station.Base.{
  Bool, List, Option, Text, all, arith, codes, false, if◌then◌else◌, is_digit, leb, length, ltb,
  take, true, ℕ, ◌&&◌, ◌++◌, ◌==◌, ◌||◌, ◌≡◌,
}
use provisioning_station.Base.Int.{ℤ}
use provisioning_station.Tasks.Plan.{Plan, clone, clone_idem}
use provisioning_station.Tasks.Run.{Outcome}

-- A string type: what a record file holds may be none of the five constants.
pub data State : Type 0 where
  queued running succeeded failed canceled : State
  other_state : Text → State

unfoldable pub terminal : State → Bool
terminal succeeded = true
terminal failed = true
terminal canceled = true
terminal queued = false
terminal running = false
terminal (other_state t) = false

pub record SerialConsoleRequest : Type 0 where
  pub port_id : Text
  pub baud_rate : ℤ
  pub selection : Text

pub record Request : Type 0 where
  pub request_id : Text
  pub deployment_tasks : Option Plan
  pub artifact_id : Text
  pub hw_server_url : Text
  pub tftp_server_ip : Text
  pub board_ip : Text
  pub target_id : Text
  pub target_cable_serial : Text
  pub target_device_index : Text
  pub serial_console : Option SerialConsoleRequest

-- The states that the code gives to a capture: "capturing", "failed", "truncated" and "complete".
pub data CaptureState : Type 0 where
  capturing failed truncated complete : CaptureState

pub record SerialCapture : Type 0 where
  pub state : CaptureState
  pub received_bytes : ℕ
  pub retained_bytes : ℕ
  pub truncated : Bool
  pub started : ℕ
  pub finished : Option ℕ

pub record Job : Type 0 where
  pub artifact_available : Bool
  pub events_truncated : Bool
  pub task_results : List Outcome
  pub deployment_error : Text
  pub deployment_outcome : Text
  pub task_errors : List Text
  pub id : Text
  pub request : Request
  pub state : State
  pub created : ℕ
  pub started : Option ℕ
  pub finished : Option ℕ
  pub error : Text
  pub event_count : ℕ
  pub serial_capture : Option SerialCapture

pub record Event : Type 0 where
  pub sequence : ℕ
  pub time : ℕ
  pub level : Text
  pub message : Text

-- `cloneRequest`; the copy behind the pointer has the same value.
unfoldable pub clone_request : Request → Request
clone_request r = record r { deployment_tasks = clone r.deployment_tasks }

-- `cloneJob`; the copies of slices and pointers have the same values.
unfoldable pub clone_job : Job → Job
clone_job j = record j { request = clone_request j.request }

-- Freezing a frozen request changes nothing, so a replay compares like with like.
pub clone_request_idem : (r : Request) → clone_request (clone_request r) ≡ clone_request r
unfolding clone_request
clone_request_idem r = ground (arith, clone_idem r.deployment_tasks)

-- `randomID` and the pattern `^[0-9a-f]{32}$`.
abbrev pub hex_byte : ℕ → Bool
hex_byte c = is_digit c || leb b'a' c && leb c b'f'

unfoldable pub is_request_id : Text → Bool
is_request_id t = length t == 32 && all hex_byte t

-- `boundedText`: at most `n` bytes of the text, with a mark where it was longer.
abbrev pub truncation_mark : Text
truncation_mark = codes " [truncated]"

unfoldable pub bounded_text : Text → ℕ → Text
bounded_text s n = if ltb n (length s) then take n s ++ truncation_mark else s
