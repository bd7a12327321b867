-- ===== src/Config/Legacy/Quiet.antt =====
-- What the methods of src/config_api/config_client.cpp return, and what they send, after the probe has
-- answered as v1.0.x.
use afi920_sdk.Prelude.{
  ℕ, ◌≡◌, refl, sym, ap, ap₂, subst, ◌∙◌, List, [], ◌∷◌, Bool, true, false, Option, none, some, ltb,
  length, map, ◌==◌, if◌then◌else◌, if_false,
}
use afi920_sdk.Interface.{InterfaceHeaders}
use afi920_sdk.E2e.{v1_0}
use afi920_sdk.Error.{AfiError, not_supported, invalid_param}
use afi920_sdk.Someip.Methods
use afi920_sdk.Someip.Methods.{MethodId}
use afi920_sdk.Transport.Network.{Network}
use afi920_sdk.Config.Json.{Json}
use afi920_sdk.Config.Types.{
  DetectionThreshold, OtaChunkResult, AccessMode, normal, diagnostic, programming, ModeStatus,
}
use afi920_sdk.Config.Writes.{is_valid_threshold, has_empty}
use afi920_sdk.Config.Exchange
use afi920_sdk.Config.Exchange.{
  Link, Client, Answer, exchange, send_json_request, send_empty_request,
}
use afi920_sdk.Config.Calls.{
  Returned, is_success, read_answer, fetch, submit, refuse, read_threshold, send_raw_request,
  get_device_info, get_sensor_status, get_diagnostic_info, get_command_history_info,
  get_network_config, get_detection_filters, get_ptp_config, get_mounting_position, get_rotation,
  get_sensor_position, firmware_update_status, get_boot_info, get_config_status, get_range_mode,
  restart, reset_all_settings, firmware_update_commit, firmware_update_abort,
  firmware_update_reboot, set_detection_filters, set_mounting_position, set_rotation,
  set_sensor_position, set_network_config, set_stream_destination, set_range_mode,
  get_detection_threshold, set_detection_threshold, set_ptp_config, firmware_update_start,
  firmware_data_chunk, firmware_switch_slot, reset_config_defaults,
}
use afi920_sdk.Config.Mode.{
  Status, initial_status, read_status, get_mode, set_mode, enter_current, enter_mode,
}
use afi920_sdk.Config.Legacy.{tcp_link, exchange_quiet}
use afi920_sdk.Config.Legacy.Calls.{
  chunk_expected, mode_expected, ConfigCall, expected, returned, answered, status, coded, apply,
  run, get_device_info_call, get_sensor_status_call, get_diagnostic_info_call,
  get_command_history_info_call, get_network_config_call, get_detection_filters_call,
  get_ptp_config_call, get_mounting_position_call, get_rotation_call, get_sensor_position_call,
  firmware_update_status_call, get_boot_info_call, get_config_status_call, get_range_mode_call,
  restart_call, reset_all_settings_call, firmware_update_commit_call, firmware_update_abort_call,
  firmware_update_reboot_call, set_detection_filters_call, set_mounting_position_call,
  set_rotation_call, set_sensor_position_call, set_network_config_call, set_stream_destination_call,
  set_range_mode_call, get_detection_threshold_call, set_detection_threshold_call,
  set_ptp_config_call, firmware_update_start_call, firmware_data_chunk_call,
  firmware_switch_slot_call, reset_config_defaults_call, get_mode_call, set_mode_call,
  enter_mode_call,
}

module _ (json : Json) (net : Network) (h : InterfaceHeaders) where
  -- A v1.0.x sensor on a known endpoint, and the world as it was.
  record IsOld (w : net.World) (c : Client json (tcp_link net h)) : Type 0 where
    same : c.tcp.world ≡ w
    old : c.tcp.generation ≡ v1_0
    known : c.tcp.reconnect ≡ true

  -- A call that says `e` and leaves the world.
  record IsQuiet (w : net.World) (e : AfiError) (r : AfiError × Client json (tcp_link net h))
      : Type 0 where
    says : r.0 ≡ e
    still : IsOld w r.1

  exchange-IsQuiet :
      (w : net.World) (method : MethodId) (body : List ℕ) (c : Client json (tcp_link net h))
      → IsOld w c
      → IsQuiet w not_supported (answered (exchange json (tcp_link net h) method body c))
  unfolding Exchange.answered Exchange.finish
  exchange-IsQuiet w method body c i =
      subst (λ a. IsQuiet w not_supported (answered a))
        (sym (exchange_quiet json net h method body c i.old i.known))
        (record { says = refl; still = record { same = i.same; old = i.old; known = i.known } })

  fetch-IsQuiet {ℓ} :
      {Out : Type ℓ} (w : net.World) (method : MethodId) (read : json.Value → Out) (out : Out)
      (c : Client json (tcp_link net h))
      → IsOld w c
      → IsQuiet w not_supported (returned (fetch json (tcp_link net h) method read out c))
  unfolding fetch read_answer send_empty_request send_json_request
  fetch-IsQuiet w method read out c i = exchange-IsQuiet w method _ c i

  submit-IsQuiet {ℓ} :
      {Out : Type ℓ} (w : net.World) (method : MethodId) (request : json.Value)
      (read : json.Value → Out) (out : Out) (c : Client json (tcp_link net h))
      → IsOld w c
      → IsQuiet w not_supported (returned (submit json (tcp_link net h) method request read out c))
  unfolding submit read_answer send_json_request
  submit-IsQuiet w method request read out c i = exchange-IsQuiet w method _ c i

  refuse-IsQuiet {ℓ} :
      {Out : Type ℓ} (w : net.World) (out : Out) (c : Client json (tcp_link net h))
      → IsOld w c
      → IsQuiet w invalid_param (returned (refuse json (tcp_link net h) out c))
  unfolding refuse
  refuse-IsQuiet w out c i = record { says = refl; still = i }

  if-IsQuiet {ℓ} :
      {Out : Type ℓ} (w : net.World) (b : Bool) (x y : Returned json (tcp_link net h) Out)
      {d e : AfiError}
      → IsQuiet w d (returned x)
      → IsQuiet w e (returned y)
      → IsQuiet w (if b then d else e) (returned (if b then x else y))
  if-IsQuiet w true x y p q = p
  if-IsQuiet w false x y p q = q

  -- An answer that failed is handed on.
  threshold-IsQuiet :
      (w : net.World) (out : DetectionThreshold json.Real) (c : Client json (tcp_link net h))
      → IsOld w c
      → IsQuiet w not_supported (returned (get_detection_threshold json (tcp_link net h) out c))
  unfolding get_detection_threshold read_threshold send_empty_request send_json_request
  threshold-IsQuiet w out c i =
      let q = exchange-IsQuiet w Methods.get_detection_threshold _ c i in
      record { says = if_false _ _ _ (ap is_success q.says) ∙ q.says; still = q.still }

  raw-IsQuiet :
      (w : net.World) (method : MethodId) (chunk : Option (List ℕ)) (len : ℕ)
      (c : Client json (tcp_link net h))
      → IsOld w c
      → IsQuiet w
          (chunk_expected chunk len)
          (returned (send_raw_request json (tcp_link net h) method chunk len c))
  unfolding send_raw_request
  raw-IsQuiet w method (some payload) len c i = exchange-IsQuiet w method payload c i
  raw-IsQuiet w method none len c i =
      if-IsQuiet w (ltb 0 len) _ _ (refuse-IsQuiet w _ c i) (exchange-IsQuiet w method [] c i)

  status-IsQuiet :
      (w : net.World) (out : ModeStatus) (a : Answer json (tcp_link net h))
      → IsQuiet w not_supported (answered a)
      → IsQuiet w not_supported (status (read_status json (tcp_link net h) out a))
  unfolding read_status
  status-IsQuiet w out a q =
      subst (λ s. IsQuiet w not_supported (status s))
        (sym (if_false (is_success a.error) _ _ (ap is_success q.says)))
        (record { says = q.says; still = q.still })

  get_mode-IsQuiet :
      (w : net.World) (out : ModeStatus) (c : Client json (tcp_link net h))
      → IsOld w c
      → IsQuiet w not_supported (status (get_mode json (tcp_link net h) out c))
  unfolding get_mode send_empty_request send_json_request
  get_mode-IsQuiet w out c i = status-IsQuiet w out _ (exchange-IsQuiet w Methods.get_mode _ c i)

  set_mode-IsQuiet :
      (w : net.World) (mode : AccessMode) (out : ModeStatus) (c : Client json (tcp_link net h))
      → IsOld w c
      → IsQuiet w (mode_expected mode) (status (set_mode json (tcp_link net h) mode out c))
  unfolding set_mode send_json_request
  set_mode-IsQuiet w normal out c i = record { says = refl; still = i }
  set_mode-IsQuiet w diagnostic out c i =
      status-IsQuiet w out _ (exchange-IsQuiet w Methods.set_mode _ c i)
  set_mode-IsQuiet w programming out c i =
      status-IsQuiet w out _ (exchange-IsQuiet w Methods.set_mode _ c i)

  enter_current-IsQuiet :
      (w : net.World) (target : AccessMode) (s : Status json (tcp_link net h))
      → IsQuiet w not_supported (status s)
      → IsQuiet w not_supported (coded (enter_current json (tcp_link net h) target s))
  unfolding enter_current
  enter_current-IsQuiet w target s q =
      subst (λ r. IsQuiet w not_supported (coded r))
        (sym (if_false (is_success s.error) _ _ (ap is_success q.says)))
        (record { says = q.says; still = q.still })

  enter_mode-IsQuiet :
      (w : net.World) (target : AccessMode) (c : Client json (tcp_link net h))
      → IsOld w c
      → IsQuiet w (mode_expected target) (coded (enter_mode json (tcp_link net h) target c))
  unfolding enter_mode
  enter_mode-IsQuiet w normal c i = record { says = refl; still = i }
  enter_mode-IsQuiet w diagnostic c i =
      enter_current-IsQuiet w diagnostic _ (get_mode-IsQuiet w initial_status c i)
  enter_mode-IsQuiet w programming c i =
      enter_current-IsQuiet w programming _ (get_mode-IsQuiet w initial_status c i)

  chunk-IsQuiet :
      (w : net.World) (chunk : Option (List ℕ)) (len : ℕ) (out : OtaChunkResult)
      (c : Client json (tcp_link net h))
      → IsOld w c
      → IsQuiet w
          (chunk_expected chunk len)
          (returned (firmware_data_chunk json (tcp_link net h) chunk len out c))
  unfolding firmware_data_chunk
  chunk-IsQuiet w chunk len out c i =
      let q = raw-IsQuiet w Methods.firmware_data_chunk chunk len c i in
      record { says = q.says; still = q.still }

  apply-IsQuiet :
      (w : net.World) (call : ConfigCall json) (c : Client json (tcp_link net h))
      → IsOld w c
      → IsQuiet w (expected json call) (apply json net h call c)
  unfolding apply get_device_info get_sensor_status get_diagnostic_info get_command_history_info
      get_network_config get_detection_filters get_ptp_config get_mounting_position get_rotation
      get_sensor_position firmware_update_status get_boot_info get_config_status get_range_mode
      restart reset_all_settings firmware_update_commit firmware_update_abort firmware_update_reboot
      set_detection_filters set_mounting_position set_rotation set_sensor_position
      set_network_config set_stream_destination set_range_mode set_detection_threshold
      set_ptp_config firmware_update_start firmware_switch_slot reset_config_defaults
      send_empty_request send_json_request
  apply-IsQuiet w (get_device_info_call out) c i = fetch-IsQuiet w _ _ out c i
  apply-IsQuiet w (get_sensor_status_call out) c i = fetch-IsQuiet w _ _ out c i
  apply-IsQuiet w (get_diagnostic_info_call out) c i = fetch-IsQuiet w _ _ out c i
  apply-IsQuiet w (get_command_history_info_call out) c i = fetch-IsQuiet w _ _ out c i
  apply-IsQuiet w (get_network_config_call out) c i = fetch-IsQuiet w _ _ out c i
  apply-IsQuiet w (get_detection_filters_call out) c i = fetch-IsQuiet w _ _ out c i
  apply-IsQuiet w (get_ptp_config_call out) c i = fetch-IsQuiet w _ _ out c i
  apply-IsQuiet w (get_mounting_position_call out) c i = fetch-IsQuiet w _ _ out c i
  apply-IsQuiet w (get_rotation_call out) c i = fetch-IsQuiet w _ _ out c i
  apply-IsQuiet w (get_sensor_position_call out) c i = fetch-IsQuiet w _ _ out c i
  apply-IsQuiet w (firmware_update_status_call out) c i = fetch-IsQuiet w _ _ out c i
  apply-IsQuiet w (get_boot_info_call out) c i = fetch-IsQuiet w _ _ out c i
  apply-IsQuiet w (get_config_status_call out) c i = fetch-IsQuiet w _ _ out c i
  apply-IsQuiet w (get_range_mode_call out) c i = fetch-IsQuiet w _ _ out c i
  apply-IsQuiet w restart_call c i = exchange-IsQuiet w _ _ c i
  apply-IsQuiet w reset_all_settings_call c i = exchange-IsQuiet w _ _ c i
  apply-IsQuiet w firmware_update_commit_call c i = exchange-IsQuiet w _ _ c i
  apply-IsQuiet w firmware_update_abort_call c i = exchange-IsQuiet w _ _ c i
  apply-IsQuiet w firmware_update_reboot_call c i = exchange-IsQuiet w _ _ c i
  apply-IsQuiet w (set_detection_filters_call v) c i = exchange-IsQuiet w _ _ c i
  apply-IsQuiet w (set_mounting_position_call v) c i = exchange-IsQuiet w _ _ c i
  apply-IsQuiet w (set_rotation_call v) c i = exchange-IsQuiet w _ _ c i
  apply-IsQuiet w (set_sensor_position_call v) c i = exchange-IsQuiet w _ _ c i
  apply-IsQuiet w (set_network_config_call v out) c i = submit-IsQuiet w _ _ _ out c i
  apply-IsQuiet w (set_stream_destination_call kind dst) c i = exchange-IsQuiet w _ _ c i
  apply-IsQuiet w (set_range_mode_call mode out) c i =
      if-IsQuiet w (ltb 6 mode) _ _ (refuse-IsQuiet w out c i) (submit-IsQuiet w _ _ _ out c i)
  apply-IsQuiet w (get_detection_threshold_call out) c i = threshold-IsQuiet w out c i
  apply-IsQuiet w (set_detection_threshold_call t) c i =
      if-IsQuiet w (is_valid_threshold json t) _ _ (submit-IsQuiet w _ _ _ tt c i)
        (refuse-IsQuiet w tt c i)
  apply-IsQuiet w (set_ptp_config_call profile out) c i =
      if-IsQuiet w (ltb 2 profile) _ _ (refuse-IsQuiet w out c i) (submit-IsQuiet w _ _ _ out c i)
  apply-IsQuiet w (firmware_update_start_call request out) c i = submit-IsQuiet w _ _ _ out c i
  apply-IsQuiet w (firmware_data_chunk_call chunk len out) c i = chunk-IsQuiet w chunk len out c i
  apply-IsQuiet w (firmware_switch_slot_call update_type out) c i = submit-IsQuiet w _ _ _ out c i
  apply-IsQuiet w (reset_config_defaults_call keys out) c i =
      if-IsQuiet w (length keys == 0) _ _ (refuse-IsQuiet w out c i) (
        if-IsQuiet w (has_empty keys) _ _ (refuse-IsQuiet w out c i)
          (submit-IsQuiet w _ _ _ out c i))
  apply-IsQuiet w (get_mode_call out) c i = get_mode-IsQuiet w out c i
  apply-IsQuiet w (set_mode_call mode out) c i = set_mode-IsQuiet w mode out c i
  apply-IsQuiet w (enter_mode_call target) c i = enter_mode-IsQuiet w target c i

  -- After the probe has answered as v1.0.x, whatever configuration methods are called, with whatever
  -- arguments and in whatever order, and Restart and the firmware update among them: each returns
  -- kInvalidParam for the arguments that it refuses by itself and else kNotSupported, and the world is
  -- afterwards as it was, so that no byte reaches the sensor, which would run the handler. The endpoint is
  -- known, as it is from Connect to Disconnect.
  pub run-legacy :
      (calls : List (ConfigCall json)) (c : Client json (tcp_link net h))
      → c.tcp.generation ≡ v1_0
      → c.tcp.reconnect ≡ true
      → ((run json net h calls c).0 ≡ map (expected json) calls)
        × ((run json net h calls c).1.tcp.world ≡ c.tcp.world)
  unfolding run
  run-legacy calls c old known =
      run_quiet c.tcp.world calls c (record { same = refl; old = old; known = known })
    where
      run_quiet :
          (w : net.World) (calls : List (ConfigCall json)) (c : Client json (tcp_link net h))
          → IsOld w c
          → ((run json net h calls c).0 ≡ map (expected json) calls)
            × ((run json net h calls c).1.tcp.world ≡ w)
      run_quiet w [] c i = (refl, i.same)
      run_quiet w (call ∷ calls) c i =
          let q = apply-IsQuiet w call c i in
          let rest = run_quiet w calls (apply json net h call c).1 q.still in
          (ap₂ (λ e es. e ∷ es) q.says rest.0, rest.1)
