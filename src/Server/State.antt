-- ===== src/Server/State.antt =====
-- The server's state and its surroundings: `struct rbp_server` of firmware/product/rbp_server.c and
-- the types of firmware/product/rbp_server.h, firmware/product/device_model.h and
-- protocol/include/rbp/audio.h. Trace calls and debug builds are left out.
use mi_remote_usb_bridge.Base.{ℕ, ◌*◌, List, Bool, ◌==◌, Option}
use mi_remote_usb_bridge.Faults.{Faults}
use mi_remote_usb_bridge.Server.Ring.{Ring}
use mi_remote_usb_bridge.Wire.Frame.{TxSeq}
use mi_remote_usb_bridge.Wire.Receiver.{RxParser, RxContext}

-- `CTL_SLOTS`, `MEDIA_DEPTH` and `RBP_CTL_BYTES` with their defaults; firmware/Makefile sets 6, 8 and
-- 1536 for the board.
abbrev pub ctl_slots : ℕ
ctl_slots = 6

abbrev pub media_depth : ℕ
media_depth = 16

abbrev pub ctl_bytes : ℕ
ctl_bytes = ctl_slots * 512

-- `HEARTBEAT_TIMEOUT_MS` to `VOICE_PROGRESS_MS`, and `CTL_FLUSH_BURST`
abbrev pub heartbeat_timeout_ms : ℕ
heartbeat_timeout_ms = 5000

abbrev pub candidate_ttl_ms : ℕ
candidate_ttl_ms = 60000

abbrev pub pair_deadline_ms : ℕ
pair_deadline_ms = 60000

abbrev pub forget_deadline_ms : ℕ
forget_deadline_ms = 5000

abbrev pub voice_stop_ms : ℕ
voice_stop_ms = 2000

abbrev pub voice_first_audio_ms : ℕ
voice_first_audio_ms = 5000

abbrev pub voice_progress_ms : ℕ
voice_progress_ms = 2000

abbrev pub ctl_flush_burst : ℕ
ctl_flush_burst = 4

-- `OPK_PAIR` and `OPK_FORGET`
abbrev pub opk_pair : ℕ
opk_pair = 1

abbrev pub opk_forget : ℕ
opk_forget = 2

-- `RBP_AUDIO_CONFIG_MAX`, `RBP_AUDIO_UNIT_MAX` and `RBP_AUDIO_DATA_HEADER`
abbrev pub audio_config_max : ℕ
audio_config_max = 256

abbrev pub audio_unit_max : ℕ
audio_unit_max = 65536

abbrev pub audio_data_header : ℕ
audio_data_header = 40

-- `ctl_slot_t`
pub record CtlSlot : Type 0 where
  pub used : Bool
  pub kind : ℕ
  pub status : ℕ
  pub opcode : ℕ
  pub request_id : ℕ
  pub connection_id : ℕ
  pub session : ℕ
  pub len : ℕ
  pub offset : ℕ
  pub order : ℕ

-- `media_marker_t`
pub record MediaMarker : Type 0 where
  pub stream : ℕ
  pub connection : ℕ
  pub order : ℕ
  pub opcode : ℕ
  pub len : ℕ

-- `key_item_t`
pub record KeyItem : Type 0 where
  pub used : Bool
  pub buf : List ℕ
  pub order : ℕ
  pub connection : ℕ

-- `rbp_link_state_t`
pub data LinkState : Type 0 where
  link_unbound link_disconnected link_connecting link_pairing link_initializing link_ready
        link_unsupported link_error :
      LinkState

abbrev pub link_code : LinkState → ℕ
link_code link_unbound = 0
link_code link_disconnected = 1
link_code link_connecting = 2
link_code link_pairing = 3
link_code link_initializing = 4
link_code link_ready = 5
link_code link_unsupported = 6
link_code link_error = 7

-- `a == b` on link states.
abbrev pub is_link : LinkState → LinkState → Bool
is_link a b = link_code a == link_code b

-- `rbp_peer_record_t`: `name` is the array of 48 characters.
pub record Peer : Type 0 where
  pub peer_id : ℕ
  pub name : List ℕ
  pub auto_reconnect : Bool

-- `rbp_candidate_t`
pub record Candidate : Type 0 where
  pub candidate_id : ℕ
  pub support : ℕ
  pub signal : ℕ
  pub name : List ℕ
  pub name_len : ℕ

-- `rbp_key_def_t`
pub record KeyDef : Type 0 where
  pub key_id : ℕ
  pub name : List ℕ

-- `rbp_device_profile_t`; `address` tells profile objects apart.
pub record Profile : Type 0 where
  pub address : ℕ
  pub model_id : List ℕ
  pub display_name : List ℕ
  pub catalog_revision : ℕ
  pub key_count : ℕ
  pub keys : List KeyDef

-- `rbp_codec_t`, `rbp_audio_caps_t` and `rbp_audio_format_t`
pub record Codec : Type 0 where
  pub id : ℕ
  pub revision : ℕ

pub record AudioCaps : Type 0 where
  pub codecs : List Codec
  pub max_unit_bytes : ℕ
  pub count : ℕ

pub record AudioFormat : Type 0 where
  pub codec_id : ℕ
  pub sample_rate : ℕ
  pub max_unit_bytes : ℕ
  pub codec_revision : ℕ
  pub config_len : ℕ
  pub channels : ℕ
  pub config : Option (List ℕ)

-- `rbp_keys_report_t`
pub record KeysReport : Type 0 where
  pub kind : ℕ
  pub reason : ℕ
  pub pressed_bits : ℕ
  pub captured_us : ℕ

-- `rbp_voice_evt_t`
pub record Encoded : Type 0 where
  pub bytes : Option (List ℕ)
  pub len : ℕ
  pub unit_size : ℕ
  pub offset : ℕ
  pub samples : ℕ

pub data VoiceEvent : Type 0 where
  source_begin : VoiceEvent
  voice_start : AudioFormat → VoiceEvent
  voice_format : AudioFormat → VoiceEvent
  voice_encoded : Encoded → VoiceEvent
  voice_fault_event : ℕ → VoiceEvent
  voice_end : ℕ → VoiceEvent

-- The members of `rbp_server_cfg_t` but for the callbacks.
pub record Config : Type 0 where
  pub profile : Option Profile
  pub max_keys : ℕ
  pub max_capture_ms : ℕ
  pub bridge_uid : List ℕ
  pub firmware_version : Option (List ℕ)
  pub reset_reason : ℕ

-- The group `session`.
pub record Session : Type 0 where
  pub active : Bool
  pub id : ℕ
  pub counter : ℕ
  pub connection_counter : ℕ
  pub txseq : TxSeq
  pub last_req_ms : ℕ
  pub req_hwm : ℕ
  pub have_client_seq : Bool
  pub client_tx_hwm : ℕ

-- An entry of `ops_done`, and the group `async ops`.
pub record OpResult : Type 0 where
  pub used : Bool
  pub op_id : ℕ
  pub result : ℕ
  pub peer_id : ℕ
  pub connection_id : ℕ
  pub uncertain : Bool

pub record Ops : Type 0 where
  pub active : Bool
  pub pair_ready_pending : Bool
  pub id : ℕ
  pub kind : ℕ
  pub deadline_ms : ℕ
  pub peer_id : ℕ
  pub connection_id : ℕ
  pub done : List OpResult
  pub done_head : ℕ
  pub done_count : ℕ

-- The groups `find` and `prompt`.
pub record Find : Type 0 where
  pub active : Bool
  pub valid : Bool
  pub search_id : ℕ
  pub end_ms : ℕ
  pub cand : List Candidate
  pub cand_count : ℕ

pub record Prompt : Type 0 where
  pub active : Bool
  pub pair_cancel_requested : Bool
  pub id : ℕ
  pub method : ℕ
  pub number : ℕ
  pub expiry_ms : ℕ

-- The group `device model`.
pub record Device : Type 0 where
  pub link_state : LinkState
  pub connection_id : ℕ
  pub peer : Peer
  pub peer_valid : Bool
  pub battery : ℕ
  pub charging : ℕ
  pub voice_state : ℕ
  pub voice_interaction : ℕ
  pub voice_sample_rate : ℕ
  pub reconnect_paused : Bool
  pub link_msg : List ℕ

-- The group `keys`.
pub record Keys : Type 0 where
  pub events_enabled : Bool
  pub pressed_bits : ℕ
  pub input_seq : ℕ
  pub captured_us : ℕ
  pub q : List KeyItem
  pub head : ℕ
  pub count : ℕ

-- The group `voice`, in four parts: what the host asked for, the stream, the answer put off, and
-- the queue of media; and the group `source tracking` with the stop and capture deadlines.
pub record Voice : Type 0 where
  pub enabled : Bool
  pub denied : Bool
  pub resume_peer : ℕ
  pub waiting_idle : Bool
  pub caps : Option AudioCaps
  pub accepted_max_unit : ℕ
  pub accepted_codecs : List ℕ
  pub accepted_len : ℕ

pub record Stream : Type 0 where
  pub id : ℕ
  pub next_id : ℕ
  pub frame_seq : ℕ
  pub delivered_samples : ℕ
  pub delivered_bytes : ℕ
  pub source_samples : ℕ
  pub source_bytes : ℕ
  pub delivered_units : ℕ
  pub delivered_epoch : ℕ
  pub source_units : ℕ
  pub epoch : ℕ
  pub unit_offset : ℕ
  pub unit_size : ℕ
  pub unit_samples : ℕ
  pub format_max_unit : ℕ
  pub delivering : Bool
  pub ending : Bool
  pub connection : ℕ

pub record Deferred : Type 0 where
  pub pending : Bool
  pub opcode : ℕ
  pub request_id : ℕ
  pub connection_id : ℕ
  pub is_enable : Bool

pub record Media : Type 0 where
  pub pool : Ring
  pub q : List MediaMarker
  pub head : ℕ
  pub count : ℕ

pub record Source : Type 0 where
  pub active : Bool
  pub started_ms : ℕ
  pub stop_requested : Bool
  pub stop_deadline_ms : ℕ
  pub capture_limited : Bool
  pub capture_deadline_ms : ℕ
  pub first_audio_deadline : ℕ
  pub progress_deadline : ℕ
  pub got_audio : Bool

-- The group `stats`.
pub record Stats : Type 0 where
  pub protocol_errors : ℕ
  pub input_resets : ℕ
  pub voice_overruns : ℕ
  pub voice_errors : ℕ

-- `struct rbp_server`. `wire` is no field of it: the bytes that `cfg.out` has accepted so far.
pub record Server : Type 0 where
  pub cfg : Config
  pub now_ms : ℕ
  pub order_counter : ℕ
  pub out : Ring
  pub wire : List ℕ
  pub rx : RxParser
  pub rx_ctx : RxContext
  pub ctl : List CtlSlot
  pub ctl_payload : List ℕ
  pub ctl_used : ℕ
  pub session : Session
  pub ops : Ops
  pub find : Find
  pub prompt : Prompt
  pub device : Device
  pub keys : Keys
  pub voice : Voice
  pub stream : Stream
  pub deferred : Deferred
  pub media : Media
  pub source : Source
  pub stats : Stats

-- The calls of `rbp_radio_backend_t` without a result.
pub data Call : Type 0 where
  stop_find pair_cancel forget_peer connect_peer disconnect voice_request_stop : Call
  pair_begin : ℕ → Call
  pair_reply : Bool → Bool → ℕ → Call

-- The callbacks of `rbp_server_cfg_t`, which are code of each platform, and the fault log. A
-- backend call may report back to the server before it returns: `react` is what it makes of the
-- state. `out` is the number of bytes accepted. A callback that may be null is an `Option`, and
-- `store_load` is null or gives a record or none.
pub record Env : Type 0 where
  pub react : Call → Server → Server
  pub out : Server → List ℕ → ℕ
  pub rng : Option (Server → ℕ)
  pub start_find : ℕ → Server → Server × ℕ
  pub voice_request_start : Option (Server → ℕ)
  pub store_load : Option (Option Peer)
  pub store_save : Option (Peer → Server → Bool)
  pub store_clear : Option (Server → Bool)
  pub faults : Faults
