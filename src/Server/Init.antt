-- ===== src/Server/Init.antt =====
-- The start of the server: `rbp_server_init` of firmware/product/rbp_server.c.
use mi_remote_usb_bridge.Base.{
  [], false, ◌||◌, ltb, ◌==◌, ◌!=◌, if◌then◌else◌, none, some, replicate,
}
use mi_remote_usb_bridge.Server.Codes
use mi_remote_usb_bridge.Server.Control.{no_header}
use mi_remote_usb_bridge.Server.KeyQueue.{no_item}
use mi_remote_usb_bridge.Server.Media.{no_marker}
use mi_remote_usb_bridge.Server.Radio.{no_candidate}
use mi_remote_usb_bridge.Server.Radio.Pairing.{no_peer}
use mi_remote_usb_bridge.Server.Requests.Info.{no_result}
use mi_remote_usb_bridge.Server.Ring.{out_ring_size, audio_pool_size}
use mi_remote_usb_bridge.Server.State.{
  Server, Env, Config, CtlSlot, Peer, link_unbound, link_disconnected, ctl_slots, ctl_bytes,
  media_depth,
}
use mi_remote_usb_bridge.Wire.Receiver.{no_event, rx_reset}

abbrev pub no_slot : CtlSlot
no_slot = record {
  used = false;
  kind = 0;
  status = 0;
  opcode = 0;
  request_id = 0;
  connection_id = 0;
  session = 0;
  len = 0;
  offset = 0;
  order = 0;
}

-- The limits of the configuration.
abbrev pub bounded_config : Config → Config
bounded_config cfg = record cfg {
  max_capture_ms =
      if (cfg.max_capture_ms == 0) || ltb 120000 cfg.max_capture_ms
      then 120000
      else cfg.max_capture_ms;
  max_keys =
      if (cfg.max_keys == 0) || ltb Codes.max_keys cfg.max_keys
      then Codes.max_keys
      else cfg.max_keys;
}

-- The state of `memset(s,0,sizeof *s)` with what `rbp_server_init` sets.
abbrev pub blank_server : Config → Server
blank_server cfg = record {
  cfg = bounded_config cfg;
  now_ms = 0;
  order_counter = 0;
  out = record { buf = replicate out_ring_size 0; head = 0; len = 0 };
  wire = [];
  rx = rx_reset 0;
  rx_ctx = record {
    event = no_event;
    header = no_header;
    payload = [];
    crc_ok = false;
    resume = [];
  };
  ctl = replicate ctl_slots no_slot;
  ctl_payload = replicate ctl_bytes 0;
  ctl_used = 0;
  session = record {
    active = false;
    id = 0;
    counter = 0;
    connection_counter = 0;
    txseq = record { next_tx_seq = 0 };
    last_req_ms = 0;
    req_hwm = 0;
    have_client_seq = false;
    client_tx_hwm = 0;
  };
  ops = record {
    active = false;
    pair_ready_pending = false;
    id = 0;
    kind = 0;
    deadline_ms = 0;
    peer_id = 0;
    connection_id = 0;
    done = replicate Codes.max_operation_results no_result;
    done_head = 0;
    done_count = 0;
  };
  find = record {
    active = false;
    valid = false;
    search_id = 0;
    end_ms = 0;
    cand = replicate Codes.max_candidates no_candidate;
    cand_count = 0;
  };
  prompt = record {
    active = false;
    pair_cancel_requested = false;
    id = 0;
    method = 0;
    number = 0;
    expiry_ms = 0;
  };
  device = record {
    link_state = link_unbound;
    connection_id = 0;
    peer = no_peer;
    peer_valid = false;
    battery = 255;
    charging = 0;
    voice_state = Codes.voice_absent;
    voice_interaction = Codes.vi_unavailable;
    voice_sample_rate = 0;
    reconnect_paused = false;
    link_msg = replicate 48 0;
  };
  keys = record {
    events_enabled = false;
    pressed_bits = 0;
    input_seq = 0;
    captured_us = 0;
    q = replicate Codes.key_queue_depth no_item;
    head = 0;
    count = 0;
  };
  voice = record {
    enabled = false;
    denied = false;
    resume_peer = 0;
    waiting_idle = false;
    caps = none;
    accepted_max_unit = 0;
    accepted_codecs = replicate 96 0;
    accepted_len = 0;
  };
  stream = record {
    id = 0;
    next_id = 0;
    frame_seq = 0;
    delivered_samples = 0;
    delivered_bytes = 0;
    source_samples = 0;
    source_bytes = 0;
    delivered_units = 0;
    delivered_epoch = 0;
    source_units = 0;
    epoch = 0;
    unit_offset = 0;
    unit_size = 0;
    unit_samples = 0;
    format_max_unit = 0;
    delivering = false;
    ending = false;
    connection = 0;
  };
  deferred = record {
    pending = false;
    opcode = 0;
    request_id = 0;
    connection_id = 0;
    is_enable = false;
  };
  media = record {
    pool = record { buf = replicate audio_pool_size 0; head = 0; len = 0 };
    q = replicate media_depth no_marker;
    head = 0;
    count = 0;
  };
  source = record {
    active = false;
    started_ms = 0;
    stop_requested = false;
    stop_deadline_ms = 0;
    capture_limited = false;
    capture_deadline_ms = 0;
    first_audio_deadline = 0;
    progress_deadline = 0;
    got_audio = false;
  };
  stats = record { protocol_errors = 0; input_resets = 0; voice_overruns = 0; voice_errors = 0 };
}

-- The bond that the store holds.
abbrev pub with_peer : Server → Peer → Server
with_peer s peer = record s {
  device = record s.device {
    peer = peer;
    peer_valid = peer.peer_id != 0;
    link_state = if peer.peer_id != 0 then link_disconnected else link_unbound;
  };
}

-- `rbp_server_init`
unfoldable pub server_init : Env → Config → Server
server_init e cfg = elim e.store_load [
  | none ↦ blank_server cfg
  | some none ↦ blank_server cfg
  | some (some peer) ↦ with_peer (blank_server cfg) peer
]
