-- ===== src/Server/Codes.antt =====
-- The wire constants of protocol/include/rbp/defs.h that the server uses.
use mi_remote_usb_bridge.Base.{ℕ}

abbrev pub kind_request : ℕ
kind_request = 1

abbrev pub kind_response : ℕ
kind_response = 2

abbrev pub kind_event : ℕ
kind_event = 3

abbrev pub kind_audio : ℕ
kind_audio = 4

abbrev pub status_ok : ℕ
status_ok = 0

abbrev pub status_accepted : ℕ
status_accepted = 1

abbrev pub status_invalid_argument : ℕ
status_invalid_argument = 2

abbrev pub status_unsupported : ℕ
status_unsupported = 3

abbrev pub status_bad_state : ℕ
status_bad_state = 4

abbrev pub status_busy : ℕ
status_busy = 5

abbrev pub status_not_found : ℕ
status_not_found = 6

abbrev pub status_timeout : ℕ
status_timeout = 7

abbrev pub status_pairing_failed : ℕ
status_pairing_failed = 8

abbrev pub status_link_lost : ℕ
status_link_lost = 9

abbrev pub status_storage_failed : ℕ
status_storage_failed = 10

abbrev pub status_resource_limit : ℕ
status_resource_limit = 11

abbrev pub status_cancelled : ℕ
status_cancelled = 12

abbrev pub status_duplicate : ℕ
status_duplicate = 13

abbrev pub status_session_mismatch : ℕ
status_session_mismatch = 14

abbrev pub status_device_error : ℕ
status_device_error = 15

abbrev pub status_voice_unavailable : ℕ
status_voice_unavailable = 16

abbrev pub status_version_mismatch : ℕ
status_version_mismatch = 17

abbrev pub op_hello : ℕ
op_hello = 1

abbrev pub op_ping : ℕ
op_ping = 2

abbrev pub op_get_device : ℕ
op_get_device = 3

abbrev pub op_get_peer : ℕ
op_get_peer = 4

abbrev pub op_get_operation : ℕ
op_get_operation = 5

abbrev pub op_get_stats : ℕ
op_get_stats = 6

abbrev pub op_goodbye : ℕ
op_goodbye = 7

abbrev pub op_find_start : ℕ
op_find_start = 256

abbrev pub op_find_list : ℕ
op_find_list = 257

abbrev pub op_find_stop : ℕ
op_find_stop = 258

abbrev pub op_pair_begin : ℕ
op_pair_begin = 272

abbrev pub op_pair_reply : ℕ
op_pair_reply = 273

abbrev pub op_pair_cancel : ℕ
op_pair_cancel = 274

abbrev pub op_forget_peer : ℕ
op_forget_peer = 275

abbrev pub op_set_reconnect : ℕ
op_set_reconnect = 276

abbrev pub op_connect_peer : ℕ
op_connect_peer = 277

abbrev pub op_disconnect : ℕ
op_disconnect = 278

abbrev pub op_key_catalog : ℕ
op_key_catalog = 512

abbrev pub op_keys_snapshot : ℕ
op_keys_snapshot = 513

abbrev pub op_events_enable : ℕ
op_events_enable = 514

abbrev pub op_keys_state_ev : ℕ
op_keys_state_ev = 640

abbrev pub op_voice_enable : ℕ
op_voice_enable = 768

abbrev pub op_voice_stop : ℕ
op_voice_stop = 769

abbrev pub op_voice_start : ℕ
op_voice_start = 771

abbrev pub op_voice_started_ev : ℕ
op_voice_started_ev = 896

abbrev pub op_voice_data : ℕ
op_voice_data = 897

abbrev pub op_voice_ended_ev : ℕ
op_voice_ended_ev = 898

abbrev pub op_voice_format_ev : ℕ
op_voice_format_ev = 899

abbrev pub op_find_done_ev : ℕ
op_find_done_ev = 384

abbrev pub op_pair_prompt_ev : ℕ
op_pair_prompt_ev = 385

abbrev pub op_operation_ev : ℕ
op_operation_ev = 386

abbrev pub op_device_state_ev : ℕ
op_device_state_ev = 387

abbrev pub feat_encoded_voice : ℕ
feat_encoded_voice = 1

abbrev pub feat_interactive_pair : ℕ
feat_interactive_pair = 2

abbrev pub feat_bond_save : ℕ
feat_bond_save = 4

abbrev pub feat_auto_reconnect : ℕ
feat_auto_reconnect = 8

abbrev pub voice_absent : ℕ
voice_absent = 0

abbrev pub voice_initializing : ℕ
voice_initializing = 1

abbrev pub voice_ready : ℕ
voice_ready = 2

abbrev pub voice_unsupported : ℕ
voice_unsupported = 3

abbrev pub voice_failed : ℕ
voice_failed = 4

abbrev pub vi_unavailable : ℕ
vi_unavailable = 0

abbrev pub vi_on_request : ℕ
vi_on_request = 1

abbrev pub vi_ptt : ℕ
vi_ptt = 2

abbrev pub vi_htt : ℕ
vi_htt = 3

abbrev pub prompt_confirm_pair : ℕ
prompt_confirm_pair = 0

abbrev pub prompt_enter_passkey : ℕ
prompt_enter_passkey = 1

abbrev pub prompt_confirm_number : ℕ
prompt_confirm_number = 2

abbrev pub prompt_display_passkey : ℕ
prompt_display_passkey = 3

abbrev pub find_done_expired : ℕ
find_done_expired = 0

abbrev pub find_done_user_stop : ℕ
find_done_user_stop = 1

abbrev pub find_done_pair_takeover : ℕ
find_done_pair_takeover = 2

abbrev pub keys_struct_size : ℕ
keys_struct_size = 24

abbrev pub keys_kind_snapshot : ℕ
keys_kind_snapshot = 0

abbrev pub keys_kind_physical : ℕ
keys_kind_physical = 1

abbrev pub keys_kind_reset : ℕ
keys_kind_reset = 2

abbrev pub keys_reason_none : ℕ
keys_reason_none = 0

abbrev pub keys_reason_link_lost : ℕ
keys_reason_link_lost = 1

abbrev pub keys_reason_overflow : ℕ
keys_reason_overflow = 2

abbrev pub keys_reason_adapter_error : ℕ
keys_reason_adapter_error = 3

abbrev pub end_normal : ℕ
end_normal = 0

abbrev pub end_consumer_disabled : ℕ
end_consumer_disabled = 1

abbrev pub end_link_lost : ℕ
end_link_lost = 2

abbrev pub end_buffer_overrun : ℕ
end_buffer_overrun = 3

abbrev pub end_invalid_encoded_data : ℕ
end_invalid_encoded_data = 4

abbrev pub end_source_data_lost : ℕ
end_source_data_lost = 5

abbrev pub end_device_error : ℕ
end_device_error = 6

abbrev pub end_requested_stop : ℕ
end_requested_stop = 7

abbrev pub end_capture_limit : ℕ
end_capture_limit = 8

abbrev pub opstate_pending : ℕ
opstate_pending = 0

abbrev pub opstate_completed : ℕ
opstate_completed = 1

abbrev pub tag_message : ℕ
tag_message = 1

abbrev pub tag_uncertain : ℕ
tag_uncertain = 2

abbrev pub max_keys : ℕ
max_keys = 64

abbrev pub max_candidates : ℕ
max_candidates = 8

abbrev pub max_operation_results : ℕ
max_operation_results = 4

abbrev pub key_queue_depth : ℕ
key_queue_depth = 8

abbrev pub key_power : ℕ
key_power = 1

abbrev pub key_voice : ℕ
key_voice = 2

abbrev pub key_up : ℕ
key_up = 3

abbrev pub key_down : ℕ
key_down = 4

abbrev pub key_left : ℕ
key_left = 5

abbrev pub key_right : ℕ
key_right = 6

abbrev pub key_ok : ℕ
key_ok = 7

abbrev pub key_back : ℕ
key_back = 8

abbrev pub key_home : ℕ
key_home = 9

abbrev pub key_menu : ℕ
key_menu = 10

abbrev pub key_tv : ℕ
key_tv = 11

abbrev pub key_volume_up : ℕ
key_volume_up = 12

abbrev pub key_volume_down : ℕ
key_volume_down = 13

abbrev pub key_mute : ℕ
key_mute = 14

abbrev pub key_play_pause : ℕ
key_play_pause = 15

abbrev pub key_next : ℕ
key_next = 16

abbrev pub key_previous : ℕ
key_previous = 17

abbrev pub key_stop : ℕ
key_stop = 18

abbrev pub key_settings : ℕ
key_settings = 19

abbrev pub key_local : ℕ
key_local = 20

abbrev pub key_channel_up : ℕ
key_channel_up = 21

abbrev pub key_channel_down : ℕ
key_channel_down = 22

abbrev pub key_digit_0 : ℕ
key_digit_0 = 23

abbrev pub key_digit_1 : ℕ
key_digit_1 = 24

abbrev pub key_digit_2 : ℕ
key_digit_2 = 25

abbrev pub key_digit_3 : ℕ
key_digit_3 = 26

abbrev pub key_digit_4 : ℕ
key_digit_4 = 27

abbrev pub key_digit_5 : ℕ
key_digit_5 = 28

abbrev pub key_digit_6 : ℕ
key_digit_6 = 29

abbrev pub key_digit_7 : ℕ
key_digit_7 = 30

abbrev pub key_digit_8 : ℕ
key_digit_8 = 31

abbrev pub key_digit_9 : ℕ
key_digit_9 = 32

abbrev pub key_star : ℕ
key_star = 33

abbrev pub key_hash : ℕ
key_hash = 34

abbrev pub end_unsupported_format : ℕ
end_unsupported_format = 9

abbrev pub op_get_voice_caps : ℕ
op_get_voice_caps = 770
