-- ===== src/Server/Tick.antt =====
-- The timers and the introspection: `rbp_server_on_usb_gone`, `rbp_server_tick` and
-- `rbp_server_get_info` to `rbp_server_voice_capture_session` of firmware/product/rbp_server.c.
use mi_remote_usb_bridge.Base.{ℕ, [], Bool, true, false, not, ◌&&◌, ltb, ◌==◌, ◌!=◌, if◌then◌else◌}
use mi_remote_usb_bridge.Server.Codes
use mi_remote_usb_bridge.Server.Control.{Message, ctl_enqueue}
use mi_remote_usb_bridge.Server.Events.{send_device_state, op_complete}
use mi_remote_usb_bridge.Server.Flush.{flush_output}
use mi_remote_usb_bridge.Server.Output.{
  since, reached, later, up, protocol_error, request_pair_cancel, ctl_clear, session_teardown,
}
use mi_remote_usb_bridge.Server.Put
use mi_remote_usb_bridge.Server.Put.{◌▸◌}
use mi_remote_usb_bridge.Server.Radio.{send_find_done}
use mi_remote_usb_bridge.Server.State.{
  Server, Env, OpResult, LinkState, heartbeat_timeout_ms, candidate_ttl_ms, voice_stop_ms, opk_pair,
  opk_forget, stop_find, disconnect,
}
use mi_remote_usb_bridge.Server.Voice.{voice_finish_stream, request_stop, voice_fault}
use mi_remote_usb_bridge.Tlv.Writer.{writer_init}
use mi_remote_usb_bridge.Wire.Receiver.{RxEvent, timeout, rxparser_feed}

-- `rbp_server_on_usb_gone`
unfoldable pub on_usb_gone : Env → ℕ → Server → Server
unfolding session_teardown ctl_clear
on_usb_gone e now s =
    let t = session_teardown e (record s { now_ms = now }) in
    ctl_clear (record t { out = record t.out { head = 0; len = 0 } })

abbrev pub is_timeout : RxEvent → Bool
is_timeout timeout = true
is_timeout _ = false

-- The steps of `rbp_server_tick`, each under its test: a half frame that is too old,
unfoldable pub tick_receiver : Env → Server → Server
unfolding session_teardown
tick_receiver e s =
    let (p, ctx) = rxparser_feed s.rx [] s.now_ms s.rx_ctx in
    let t = record s { rx = p } in
    if is_timeout ctx.event then session_teardown e (protocol_error t) else t

-- a host that is silent,
unfoldable pub tick_heartbeat : Env → Server → Server
unfolding session_teardown
tick_heartbeat e s =
    if s.session.active && ltb heartbeat_timeout_ms (since s.now_ms s.session.last_req_ms)
    then session_teardown e s
    else s

-- a search that is over,
unfoldable pub tick_find : Env → Server → Server
unfolding send_find_done
tick_find e s =
    if s.find.active && reached s.now_ms s.find.end_ms
    then send_find_done e Codes.find_done_expired
        (e.react stop_find (record s { find = record s.find { active = false; valid = true } }))
    else s

-- candidates that are too old,
unfoldable pub tick_candidates : Server → Server
tick_candidates s =
    if (s.find.valid && not s.find.active) && ltb candidate_ttl_ms (since s.now_ms s.find.end_ms)
    then record s { find = record s.find { valid = false; cand_count = 0 } }
    else s

-- a prompt without an answer,
unfoldable pub tick_prompt : Env → Server → Server
unfolding request_pair_cancel
tick_prompt e s =
    if s.prompt.active && reached s.now_ms s.prompt.expiry_ms
    then request_pair_cancel e (record s { prompt = record s.prompt { active = false } })
    else s

-- an operation that takes too long,
abbrev pub timed_out : Server → ℕ → OpResult
timed_out s result = record {
  used = true;
  op_id = s.ops.id;
  result = result;
  peer_id = s.ops.peer_id;
  connection_id = s.ops.connection_id;
  uncertain = true;
}

unfoldable pub tick_operation : Env → Server → Server
unfolding request_pair_cancel op_complete
tick_operation e s =
    let result =
      if s.ops.kind == opk_forget then Codes.status_storage_failed else Codes.status_timeout in
    let t = record s { ops = record s.ops { active = false } } in
    let u = if t.ops.kind == opk_pair then request_pair_cancel e t else t in
    if s.ops.active && reached s.now_ms s.ops.deadline_ms
    then op_complete e (timed_out u result) u
    else s

-- a source that does not stop,
unfoldable pub stop_failed : Env → Server → Server
unfolding voice_finish_stream send_device_state
stop_failed e s =
    let t = record s {
      source = record s.source { stop_deadline_ms = later s.now_ms voice_stop_ms };
      stats = record s.stats { voice_errors = up s.stats.voice_errors };
      voice = record s.voice { enabled = false };
      device = record s.device { voice_state = Codes.voice_failed };
    } in
    let u = voice_finish_stream e Codes.end_device_error true t in
    e.react disconnect (send_device_state e u.device.connection_id u)

-- one that has sent nothing yet, or nothing for a while,
unfoldable pub tick_progress : Env → Server → Server
unfolding voice_finish_stream request_stop voice_fault
tick_progress e s =
    let counted = record s { stats = record s.stats { voice_errors = up s.stats.voice_errors } } in
    if not s.source.got_audio && reached s.now_ms s.source.first_audio_deadline
    then voice_fault e Codes.end_device_error s
    else if s.source.got_audio && reached s.now_ms s.source.progress_deadline
    then request_stop e (voice_finish_stream e Codes.end_device_error true counted)
    else s

-- the source as a whole,
unfoldable pub tick_source : Env → Server → Server
unfolding stop_failed request_stop tick_progress
tick_source e s =
    if not s.source.active
    then s
    else if s.source.stop_requested && reached s.now_ms s.source.stop_deadline_ms
    then stop_failed e s
    else if not s.source.stop_requested && reached s.now_ms s.source.capture_deadline_ms
    then request_stop e (record s { source = record s.source { capture_limited = true } })
    else if not s.source.stop_requested
    then tick_progress e s
    else s

-- and an answer that waited for the stream's end.
abbrev pub deferred_response : Server → Message
deferred_response s = record {
  kind = Codes.kind_response;
  opcode = s.deferred.opcode;
  status = Codes.status_ok;
  request_id = s.deferred.request_id;
  connection_id = s.deferred.connection_id;
  payload =
      (if s.deferred.is_enable
        then writer_init ▸ Put.bool 1 false ▸ Put.bool 2 false
        else writer_init).buf;
}

unfoldable pub tick_deferred : Env → Server → Server
unfolding ctl_enqueue
tick_deferred e s =
    let t = ctl_enqueue e (deferred_response s) s in
    if (s.deferred.pending && s.session.active) && (not s.stream.delivering && (s.media.count == 0))
    then record t { deferred = record t.deferred { pending = false } }
    else s

-- `rbp_server_tick`
unfoldable pub tick : Env → ℕ → Server → Server
unfolding tick_receiver tick_heartbeat tick_find tick_candidates tick_prompt tick_operation
    tick_source tick_deferred flush_output
tick e now s =
    let received = tick_receiver e (record s { now_ms = now }) in
    let searched = tick_candidates (tick_find e (tick_heartbeat e received)) in
    let operated = tick_operation e (tick_prompt e searched) in
    flush_output e (tick_deferred e (tick_source e operated))

-- `rbp_server_info_t` and `rbp_server_get_info`
pub record ServerInfo : Type 0 where
  pub session_active : Bool
  pub session_id : ℕ
  pub connection_id : ℕ
  pub link_state : LinkState
  pub events_enabled : Bool
  pub voice_enabled : Bool
  pub waiting_idle : Bool
  pub voice_state : ℕ
  pub stream_id : ℕ

abbrev pub get_info : Server → ServerInfo
get_info s = record {
  session_active = s.session.active;
  session_id = s.session.id;
  connection_id = s.device.connection_id;
  link_state = s.device.link_state;
  events_enabled = s.keys.events_enabled;
  voice_enabled = s.voice.enabled;
  waiting_idle = s.voice.waiting_idle;
  voice_state = s.device.voice_state;
  stream_id = s.stream.id;
}

-- `rbp_server_voice_wanted`, `rbp_server_should_reconnect` and `rbp_server_voice_capture_session`
abbrev pub voice_wanted : Server → Bool
voice_wanted s = s.session.active && (s.voice.enabled && not s.voice.waiting_idle)

abbrev pub should_reconnect : Server → Bool
should_reconnect s =
    s.device.peer_valid
    && (s.device.peer.auto_reconnect && (not s.device.reconnect_paused && not s.ops.active))

abbrev pub voice_capture_session : Server → ℕ
voice_capture_session s =
    if s.session.active
      && (s.device.peer_valid
          && (not s.voice.denied
              && (not s.voice.waiting_idle
                  && ((s.device.voice_state != Codes.voice_unsupported)
                      && (s.device.voice_state != Codes.voice_failed)))))
    then s.session.id
    else 0
