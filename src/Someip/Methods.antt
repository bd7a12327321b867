-- ===== src/Someip/Methods.antt =====
-- src/protocol/someip.h: the Config API method registry of interface v1.1.0.
use afi920_sdk.Prelude.{ℕ}

pub data MethodId : Type 0 where
  get_device_info get_sensor_status get_diagnostic_info restart : MethodId
  reset_all_settings get_command_history_info : MethodId
  get_network_config set_network_config get_range_mode set_range_mode : MethodId
  get_detection_threshold set_detection_threshold : MethodId
  get_detection_filters set_detection_filters get_ptp_config set_ptp_config : MethodId
  get_mounting_position set_mounting_position get_rotation set_rotation : MethodId
  get_sensor_position set_sensor_position : MethodId
  firmware_update_start firmware_data_chunk firmware_update_commit : MethodId
  firmware_update_status firmware_update_abort firmware_switch_slot : MethodId
  firmware_update_reboot get_boot_info get_config_status reset_config_defaults : MethodId
  discover_request discover_response get_mode set_mode : MethodId

unfoldable pub method_code : MethodId → ℕ
method_code get_device_info = 0x0010
method_code get_sensor_status = 0x0011
method_code get_diagnostic_info = 0x0012
method_code restart = 0x0014
method_code reset_all_settings = 0x0015
method_code get_command_history_info = 0x0016
method_code get_network_config = 0x0020
method_code set_network_config = 0x0021
method_code get_range_mode = 0x0030
method_code set_range_mode = 0x0031
method_code get_detection_threshold = 0x0040
method_code set_detection_threshold = 0x0041
method_code get_detection_filters = 0x0042
method_code set_detection_filters = 0x0043
method_code get_ptp_config = 0x0050
method_code set_ptp_config = 0x0051
method_code get_mounting_position = 0x0070
method_code set_mounting_position = 0x0071
method_code get_rotation = 0x0072
method_code set_rotation = 0x0073
method_code get_sensor_position = 0x0074
method_code set_sensor_position = 0x0075
method_code firmware_update_start = 0x0080
method_code firmware_data_chunk = 0x0081
method_code firmware_update_commit = 0x0082
method_code firmware_update_status = 0x0083
method_code firmware_update_abort = 0x0084
method_code firmware_switch_slot = 0x0085
method_code firmware_update_reboot = 0x0086
method_code get_boot_info = 0x0087
method_code get_config_status = 0x0091
method_code reset_config_defaults = 0x0092
method_code discover_request = 0x00C0
method_code discover_response = 0x00C1
method_code get_mode = 0x00E0
method_code set_mode = 0x00E1
