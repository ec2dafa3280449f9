-- ===== src/Tests/Runs.antt =====
-- A run of XSDB on a board, and what XSDB says.
use provisioning_station.Base.{
  Bool, List, Text, [], arith, atoi, codes, concat, digits, if◌then◌else◌, itoa, itoa_on, map, none,
  refl, some, split_on, text_eq, true, ◌++◌, ◌∷◌, ◌≡◌,
}
use provisioning_station.Xsdb.Arguments.{
  Network, XsdbRequest, argument_at, argument_at-arguments, arguments, check_run, valid_hostname,
  valid_label, validate_cable_serial, validate_device_index, validate_host_port,
  validate_hw_server_url, validate_ipv4, validate_target_id,
}
use provisioning_station.Xsdb.Found.{IsTarget, parse_targets-print_target}
use provisioning_station.Xsdb.Lines.{
  all_lines, cut_line, emit_buffered, empty_writer, flush, flush-write_all, trim_return, write_all,
  write_chunk_lines, write_lines,
}
use provisioning_station.Xsdb.Targets.{Target, parse_targets, print_target, targets}

abbrev local_network : Network
local_network = record {
  parse_ip = λ s. if text_eq s (codes "10.0.0.1") then some true else none;
  split_host_port = λ s. some (codes "localhost", codes "3121");
}

abbrev board_request : XsdbRequest
board_request = record {
  entrypoint = codes "deploy.tcl";
  hw_server_url = codes "tcp:localhost:3121";
  tftp_server_ip = codes "10.0.0.1";
  board_ip = [];
  target_id = [];
  target_cable_serial = codes "A1";
  target_device_index = codes "0";
  working_folder = [];
}

board_request_fine : check_run local_network board_request ≡ none
unfolding check_run validate_hw_server_url validate_host_port validate_ipv4 validate_target_id
    validate_cable_serial validate_device_index valid_hostname valid_label split_on atoi digits itoa
    itoa_on text_eq
board_request_fine = refl

argument_at-arguments_example :
    (argument_at 3 (arguments (codes "/deploy.tcl") board_request) ≡ [])
    × (argument_at 4 (arguments (codes "/deploy.tcl") board_request) ≡ [])
    × (argument_at 5 (arguments (codes "/deploy.tcl") board_request) ≡ codes "A1")
    × (argument_at 6 (arguments (codes "/deploy.tcl") board_request) ≡ codes "0")
argument_at-arguments_example =
    argument_at-arguments local_network (codes "/deploy.tcl") board_request board_request_fine

abbrev pieces : List Text
pieces = codes "Con" ∷ (codes "nected" ++ 13 ∷ 10 ∷ codes "do") ∷ codes "ne" ∷ []

pieces_emitted :
    (flush (write_all pieces empty_writer)).emitted ≡ codes "Connected" ∷ codes "done" ∷ []
unfolding flush write_all write_chunk_lines write_lines emit_buffered cut_line trim_return
pieces_emitted = refl

flush-write_all_example :
    (flush (write_all pieces empty_writer)).emitted ≡ all_lines (concat pieces)
flush-write_all_example = flush-write_all pieces

abbrev cortex : Target
cortex = record {
  id = codes "7";
  name = codes "A9";
  device_index = codes "0";
  device_name = [];
  cable_name = [];
  cable_serial = codes "A1";
}

abbrev any_bytes : Text → Bool
any_bytes s = true

cortex-IsTarget : IsTarget any_bytes cortex
unfolding validate_target_id atoi digits itoa itoa_on text_eq
cortex-IsTarget = record {
  good_id = refl;
  texts = (
    ((omega arith, tt), refl),
    (
      ((omega arith, (omega arith, tt)), refl),
      (
        ((omega arith, tt), refl),
        ((tt, refl), ((tt, refl), (((omega arith, (omega arith, tt)), refl), tt))),
      ),
    ),
  );
}

parse_targets-print_target_example :
    parse_targets any_bytes (record { lines = map print_target (cortex ∷ []); problem = none })
    ≡ targets (cortex ∷ [])
parse_targets-print_target_example =
    parse_targets-print_target any_bytes (cortex ∷ []) (cortex-IsTarget, tt)
