-- ===== src/Tests/Samples.antt =====
-- The station of the tests: an empty manager, a request, and the environment's answers.
use provisioning_station.Base.{Text, [], codes, false, length, none, some, true, ◌++◌}
use provisioning_station.Base.Int.{pos}
use provisioning_station.Jobs.Model.{Request}
use provisioning_station.Jobs.State.{Host, Manager}
use provisioning_station.Jobs.Submit.{Admission}
use provisioning_station.Tasks.Values.{Numbers}

abbrev pub numbers : Numbers
numbers = record { float_of_int = λ i. 0; parse_float = λ t. none; nanoseconds = λ t. pos 1 }

abbrev pub host : Host
host = record {
  numbers = numbers;
  marshal = λ r. r.request_id ++ r.artifact_id;
  indented = λ r. some 100;
  sha256_hex = λ t. t;
  event_length = λ e. length e.message;
  record_length = λ j. 100;
}

abbrev pub empty : Manager
empty = record {
  budget = none;
  expired = [];
  event_bytes = [];
  registry = none;
  console = false;
  max_console_log_bytes = 0;
  stopped = false;
  queue = [];
  admission_error = none;
  submissions = [];
  jobs = [];
  events = [];
  subscribers = [];
  cancellers = [];
  directories = [];
  records = [];
}

abbrev pub request_id : Text
request_id = codes "0123456789abcdef0123456789abcdef"

abbrev pub job_id : Text
job_id = codes "a1"

abbrev pub request : Request
request = record {
  request_id = request_id;
  deployment_tasks = none;
  artifact_id = codes "image";
  hw_server_url = codes "tcp:localhost:3121";
  tftp_server_ip = codes "10.0.0.1";
  board_ip = [];
  target_id = codes "7";
  target_cable_serial = [];
  target_device_index = [];
  serial_console = none;
}

abbrev pub admission : Admission
admission = record {
  now = 5;
  load_error = none;
  verify_error = none;
  runner_error = none;
  random_error = none;
  random_id = job_id;
  mkdir_error = none;
  publish_error = none;
  available = true;
  dropped = false;
}
