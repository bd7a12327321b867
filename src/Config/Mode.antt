-- ===== src/Config/Mode.antt =====
-- GetMode, SetMode and EnterMode of src/config_api/config_client.cpp: the access modes of the sensor.
pub mod Climb
use afi920_sdk.Prelude.{Bool, true, false, Option, none, some, if◌then◌else◌}
use afi920_sdk.Someip.Methods
use afi920_sdk.Error.{AfiError, success, invalid_param, protocol_error, access_denied}
use afi920_sdk.Config.Json.{Json}
use afi920_sdk.Config.Types.{AccessMode, normal, diagnostic, programming, ModeStatus}
use afi920_sdk.Config.Tables.{parse_mode_status}
use afi920_sdk.Config.Writes.{write_mode}
use afi920_sdk.Config.Exchange.{Link, Client, Answer, send_json_request, send_empty_request}
use afi920_sdk.Config.Calls.{is_success}

-- The default member values of `AfiModeStatus`.
abbrev pub initial_status : ModeStatus
initial_status = record {
  access_mode = normal;
  access_mode_name = "";
  elapsed_ms = 0;
  streams_halted = false;
}

abbrev pub same_mode : AccessMode → AccessMode → Bool
same_mode normal normal = true
same_mode diagnostic diagnostic = true
same_mode programming programming = true
same_mode normal diagnostic = false
same_mode normal programming = false
same_mode diagnostic normal = false
same_mode diagnostic programming = false
same_mode programming normal = false
same_mode programming diagnostic = false

module _ (json : Json) (link : Link) where
  -- A code and the client.
  pub record Coded : Type 0 where
    pub error : AfiError
    pub client : Client json link

  pub record Status : Type 0 where
    pub error : AfiError
    pub out : ModeStatus
    pub client : Client json link

  -- The reading of an accepted answer: what is no mode is kProtocolError.
  unfoldable pub status_or : ModeStatus → Option ModeStatus → Client json link → Status
  status_or out none c = record { error = protocol_error; out = out; client = c }
  status_or out (some status) c = record { error = success; out = status; client = c }

  unfoldable pub read_status : ModeStatus → Answer json link → Status
  read_status out a =
      if is_success a.error
      then status_or out (parse_mode_status json a.content) a.client
      else record { error = a.error; out = out; client = a.client }

  unfoldable pub get_mode : ModeStatus → Client json link → Status
  get_mode out c = read_status out (send_empty_request json link Methods.get_mode c)

  -- `SetMode` with an output, and with none
  unfoldable pub set_mode : AccessMode → ModeStatus → Client json link → Status
  set_mode normal out c = record { error = invalid_param; out = out; client = c }
  set_mode diagnostic out c =
      read_status out (send_json_request json link Methods.set_mode (write_mode json diagnostic) c)
  set_mode programming out c =
      read_status out (send_json_request json link Methods.set_mode (write_mode json programming) c)

  unfoldable pub coded : Answer json link → Coded
  coded a = record { error = a.error; client = a.client }

  unfoldable pub request_mode : AccessMode → Client json link → Coded
  request_mode normal c = record { error = invalid_param; client = c }
  request_mode diagnostic c =
      coded (send_json_request json link Methods.set_mode (write_mode json diagnostic) c)
  request_mode programming c =
      coded (send_json_request json link Methods.set_mode (write_mode json programming) c)

  -- The way up from Normal: Diagnostic, and Programming behind it.
  unfoldable pub climb : AccessMode → Coded → Coded
  climb target r =
      if is_success r.error
      then (if same_mode target diagnostic then r else request_mode programming r.client)
      else r

  unfoldable pub enter_from : AccessMode → AccessMode → Client json link → Coded
  enter_from target programming c = record { error = access_denied; client = c }
  enter_from target normal c = climb target (request_mode diagnostic c)
  enter_from target diagnostic c = request_mode programming c

  unfoldable pub enter_current : AccessMode → Status → Coded
  enter_current target s =
      if is_success s.error
      then (if same_mode s.out.access_mode target
          then record { error = success; client = s.client }
          else enter_from target s.out.access_mode s.client)
      else record { error = s.error; client = s.client }

  unfoldable pub enter_mode : AccessMode → Client json link → Coded
  enter_mode normal c = record { error = invalid_param; client = c }
  enter_mode diagnostic c = enter_current diagnostic (get_mode initial_status c)
  enter_mode programming c = enter_current programming (get_mode initial_status c)
