-- ===== src/Xsdb/Arguments.antt =====
-- What XSDB is called with (`Run` and the checks of internal/xsdb/executor.go).
use provisioning_station.Base.{
  >>-eq_none, Bool, Failure, List, Option, Text, [], all, arith, atoi, codes, drop, fail_if,
  fail_if-eq_none, false, if◌then◌else◌, is_empty, is_some, itoa, leb, length, ltb, none, not, some,
  split_on, starts_with, suc, take, text_eq, true, zero, ℕ, ◌&&◌, ◌++◌, ◌==◌, ◌>>◌, ◌||◌, ◌∷◌, ◌≡◌,
}
use provisioning_station.Base.Int.{pos, ℤ}

pub record XsdbRequest : Type 0 where
  pub entrypoint : Text
  pub hw_server_url : Text
  pub tftp_server_ip : Text
  pub board_ip : Text
  pub target_id : Text
  pub target_cable_serial : Text
  pub target_device_index : Text
  pub working_folder : Text

pub data XsdbError : Type 0 where
  not_resolved : Failure → XsdbError
  bad_url bad_host bad_port bad_tftp_ip bad_board_ip bad_target_id bad_cable_serial : XsdbError
  bad_device_index index_without_cable no_entrypoint not_regular : XsdbError

-- `net.ParseIP` with whether the address has a form of four bytes, and `net.SplitHostPort`.
pub record Network : Type 0 where
  pub parse_ip : Text → Option Bool
  pub split_host_port : Text → Option (Text × Text)

abbrev pub is_above : ℕ → Option ℤ → Text → Bool
is_above low (some (pos n)) value = leb low n && text_eq (itoa n) value
is_above low _ value = false

-- `ValidateTargetID`.
unfoldable pub validate_target_id : Text → Option XsdbError
validate_target_id value =
    if is_empty value then none else fail_if (not (is_above 1 (atoi value) value)) bad_target_id

-- `ValidateTargetDeviceIndex`.
unfoldable pub validate_device_index : Text → Option XsdbError
validate_device_index value =
    if is_empty value then none else fail_if (not (is_above 0 (atoi value) value)) bad_device_index

abbrev pub has_byte : (ℕ → Bool) → Text → Bool
has_byte p [] = false
has_byte p (c ∷ s) = p c || has_byte p s

abbrev pub breaks_line : ℕ → Bool
breaks_line c = c == 13 || c == 10 || c == 0

-- `ValidateTargetCableSerial`.
unfoldable pub validate_cable_serial : Text → Option XsdbError
validate_cable_serial value =
    if is_empty value
    then none
    else fail_if (ltb 256 (length value) || has_byte breaks_line value) bad_cable_serial

abbrev pub ends_with_byte : ℕ → Text → Bool
ends_with_byte b [] = false
ends_with_byte b (c ∷ []) = c == b
ends_with_byte b (c ∷ d ∷ s) = ends_with_byte b (d ∷ s)

abbrev pub host_byte : ℕ → Bool
host_byte c =
    (leb b'a' c && leb c b'z')
    || (leb b'A' c && leb c b'Z')
    || (leb b'0' c && leb c b'9')
    || c == b'-'
    || c == b'_'

unfoldable pub valid_label : Text → Bool
valid_label label =
    not (is_empty label)
    && leb (length label) 63
    && not (starts_with b'-' label)
    && not (ends_with_byte b'-' label)
    && all host_byte label

-- `validHostname`. A rune that is not ASCII has no byte that is allowed.
unfoldable pub valid_hostname : Text → Bool
valid_hostname host =
    leb (length host) 253
    && not (starts_with b'.' host)
    && not (ends_with_byte b'.' host)
    && all valid_label (split_on b'.' host)

abbrev pub is_port : Option ℤ → Bool
is_port (some (pos n)) = leb 1 n && leb n 65535
is_port _ = false

abbrev pub is_space : ℕ → Bool
is_space c = c == 32 || (leb 9 c && leb c 13)

-- `strings.TrimSpace(host) == ""`, for ASCII white space.
abbrev pub is_blank : Text → Bool
is_blank s = all is_space s

unfoldable pub validate_host_port : Network → Text × Text → Option XsdbError
validate_host_port net (host, port) =
    fail_if (is_blank host) bad_url
    >> fail_if (not (is_some (net.parse_ip host)) && not (valid_hostname host)) bad_host
    >> fail_if (not (is_port (atoi port))) bad_port

-- `ValidateHWServerURL`.
unfoldable pub validate_hw_server_url : Network → Text → Option XsdbError
validate_hw_server_url net value =
    if not (text_eq (take 4 value) (codes "tcp:")) || has_byte breaks_line value
    then some bad_url
    else elim (net.split_host_port (drop 4 value)) [
      | none ↦ some bad_url
      | some pair ↦ validate_host_port net pair
    ]

abbrev pub is_four : Option Bool → Bool
is_four (some true) = true
is_four _ = false

-- `ValidateIPv4`.
unfoldable pub validate_ipv4 : Network → XsdbError → Text → (optional : Bool) → Option XsdbError
validate_ipv4 net bad value optional =
    if is_empty value && optional then none else fail_if (not (is_four (net.parse_ip value))) bad

-- The checks of `Run`, in its order.
unfoldable pub check_run : Network → XsdbRequest → Option XsdbError
check_run net r =
    validate_hw_server_url net r.hw_server_url
    >> validate_ipv4 net bad_tftp_ip r.tftp_server_ip false
    >> validate_ipv4 net bad_board_ip r.board_ip true
    >> validate_target_id r.target_id
    >> validate_cable_serial r.target_cable_serial
    >> validate_device_index r.target_device_index
    >> fail_if (not (is_empty r.target_device_index) && is_empty r.target_cable_serial)
        index_without_cable

abbrev pub given : Bool → Text → List Text
given true s = s ∷ []
given false s = []

-- The arguments of the command; `entrypoint` is the absolute path.
unfoldable pub arguments : (entrypoint : Text) → XsdbRequest → List Text
arguments entrypoint r =
    let cable = not (is_empty r.target_cable_serial) in
    let target = not (is_empty r.target_id) || cable in
    let board = not (is_empty r.board_ip) || target in
    entrypoint ∷ r.hw_server_url ∷ r.tftp_server_ip ∷ given board r.board_ip
    ++ given target r.target_id
    ++ given cable r.target_cable_serial
    ++ given (not (is_empty r.target_device_index)) r.target_device_index

-- An argument of the entrypoint by its position, empty where it is not given.
unfoldable pub argument_at : ℕ → List Text → Text
argument_at n [] = []
argument_at zero (a ∷ rest) = a
argument_at (suc n) (a ∷ rest) = argument_at n rest

arguments-given :
    (entrypoint : Text) (r : XsdbRequest)
    → (not (is_empty r.target_device_index) && is_empty r.target_cable_serial) ≡ false
    → (argument_at 3 (arguments entrypoint r) ≡ r.board_ip)
      × (argument_at 4 (arguments entrypoint r) ≡ r.target_id)
      × (argument_at 5 (arguments entrypoint r) ≡ r.target_cable_serial)
      × (argument_at 6 (arguments entrypoint r) ≡ r.target_device_index)
unfolding arguments argument_at
arguments-given entrypoint r h = ground arith

-- In the arguments of a request that passes the checks, the fourth is the address of the board,
-- the fifth the identifier of the target, the sixth the serial of the cable and the seventh the
-- device index, where an argument that is missing stands for an empty value.
pub argument_at-arguments :
    (net : Network) (entrypoint : Text) (r : XsdbRequest)
    → check_run net r ≡ none
    → (argument_at 3 (arguments entrypoint r) ≡ r.board_ip)
      × (argument_at 4 (arguments entrypoint r) ≡ r.target_id)
      × (argument_at 5 (arguments entrypoint r) ≡ r.target_cable_serial)
      × (argument_at 6 (arguments entrypoint r) ≡ r.target_device_index)
unfolding check_run
argument_at-arguments net entrypoint r h =
    let after_url = (>>-eq_none (validate_hw_server_url net r.hw_server_url) _ h).1 in
    let after_tftp =
      (>>-eq_none (validate_ipv4 net bad_tftp_ip r.tftp_server_ip false) _ after_url).1 in
    let after_board =
      (>>-eq_none (validate_ipv4 net bad_board_ip r.board_ip true) _ after_tftp).1 in
    let after_id = (>>-eq_none (validate_target_id r.target_id) _ after_board).1 in
    let after_cable = (>>-eq_none (validate_cable_serial r.target_cable_serial) _ after_id).1 in
    let after_index = (>>-eq_none (validate_device_index r.target_device_index) _ after_cable).1 in
    arguments-given entrypoint r (fail_if-eq_none _ index_without_cable after_index)
