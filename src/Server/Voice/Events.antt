-- ===== src/Server/Voice/Events.antt =====
-- What the adapter reports of the voice stream: `rbp_server_on_voice` and
-- `rbp_server_on_voice_state` of firmware/product/rbp_server.c.
use mi_remote_usb_bridge.Base.{
  ℕ, zero, suc, ◌+◌, ◌-◌, ◌%◌, ◌^◌, List, [], ◌++◌, Bool, true, false, not, ◌&&◌, ◌||◌, ltb, leb,
  ◌==◌, ◌!=◌, if◌then◌else◌, none, some, length, take, drop,
}
use mi_remote_usb_bridge.Server.Codes
use mi_remote_usb_bridge.Server.Events.{send_device_state}
use mi_remote_usb_bridge.Server.Media.{audio_put, sample_add}
use mi_remote_usb_bridge.Server.Output.{up, later, session_teardown}
use mi_remote_usb_bridge.Server.State.{
  Server, Env, AudioCaps, AudioFormat, Encoded, VoiceEvent, Voice, source_begin, voice_start,
  voice_format, voice_encoded, voice_fault_event, voice_end, voice_first_audio_ms,
  voice_progress_ms,
}
use mi_remote_usb_bridge.Server.Voice.{
  advertised, codec_id_at, codec_revision_at, codec_accepted, media_enqueue, voice_finish_stream,
  request_stop, voice_fault, queue_format,
}

-- `RBP_VOICE_EVT_SOURCE_BEGIN`
unfoldable pub on_source_begin : Server → Server
on_source_begin s = record s {
  source = record {
    active = true;
    started_ms = s.now_ms;
    stop_requested = false;
    stop_deadline_ms = s.source.stop_deadline_ms;
    capture_limited = false;
    capture_deadline_ms = later s.now_ms s.cfg.max_capture_ms;
    first_audio_deadline = later s.now_ms voice_first_audio_ms;
    progress_deadline = later s.now_ms voice_progress_ms;
    got_audio = false;
  };
}

-- A fresh stream.
abbrev pub begun : Server → Server
begun s = record s {
  stream = record s.stream {
    id = s.stream.next_id + 1;
    next_id = s.stream.next_id + 1;
    connection = s.device.connection_id;
    frame_seq = 0;
    epoch = 0;
    source_units = 0;
    delivered_units = 0;
    unit_offset = 0;
    source_bytes = 0;
    delivered_bytes = 0;
    source_samples = 0;
    delivered_samples = 0;
    delivered_epoch = 1;
    delivering = true;
    ending = false;
  };
}

-- `s->voice_sample_rate=...`
abbrev pub at_rate : AudioFormat → Server → Server
at_rate f s = record s { device = record s.device { voice_sample_rate = f.sample_rate } }

-- A stream that is still delivered gives way to the new one.
unfoldable pub replace_stream : Env → Server → Server
unfolding voice_finish_stream
replace_stream e s =
    if s.stream.delivering
    then voice_finish_stream e Codes.end_buffer_overrun true
        (record s { stats = record s.stats { voice_overruns = up s.stats.voice_overruns } })
    else s

-- The start of a stream in a server that is free for it.
unfoldable pub start_stream : Env → AudioFormat → Server → Server
unfolding codec_accepted voice_fault session_teardown queue_format
start_stream e f s =
    let (t, queued) = queue_format e f true (begun s) in
    let undone = record t { stream = record t.stream { delivering = false; id = 0 } } in
    if not (codec_accepted s.voice f)
    then voice_fault e Codes.end_unsupported_format s
    else if s.stream.next_id == 2 ^ 32 - 1
    then session_teardown e s
    else if queued
    then t
    else voice_fault e Codes.end_buffer_overrun undone

-- `RBP_VOICE_EVT_START`
unfoldable pub on_voice_start : Env → AudioFormat → Server → Server
unfolding voice_fault request_stop replace_stream start_stream
on_voice_start e f s =
    let t = at_rate f s in
    if not t.source.active
    then voice_fault e Codes.end_invalid_encoded_data t
    else if not t.voice.enabled || (not t.session.active || t.voice.waiting_idle)
    then request_stop e t
    else start_stream e f (replace_stream e t)

-- `RBP_VOICE_EVT_FORMAT`
unfoldable pub on_voice_format : Env → AudioFormat → Server → Server
unfolding queue_format voice_fault
on_voice_format e f s =
    let t = at_rate f s in
    let (u, queued) = queue_format e f false t in
    if t.stream.delivering && not t.stream.ending
    then if not queued && u.stream.delivering then voice_fault e Codes.end_buffer_overrun u else u
    else t

-- The 40 bytes before a fragment.
abbrev pub audio_header : Server → ℕ → ℕ → List ℕ
audio_header s size samples =
    audio_put s.stream.id 4
    ++ (audio_put (up s.stream.frame_seq) 4
        ++ (audio_put s.stream.epoch 4
            ++ (audio_put (up s.stream.source_units) 4
                ++ (audio_put size 4
                    ++ (audio_put s.stream.unit_offset 4
                        ++ (audio_put s.stream.source_samples 8
                            ++ (audio_put samples 4 ++ audio_put 0 4)))))))

-- The counters after a fragment of `n` bytes.
unfoldable pub fragment_queued : Server → ℕ → ℕ → ℕ → Server
unfolding sample_add
fragment_queued s n size samples =
    let v = record s.stream {
      frame_seq = s.stream.frame_seq + 1;
      source_bytes = (s.stream.source_bytes + n) % 2 ^ 64;
      unit_offset = (s.stream.unit_offset + n) % 2 ^ 32;
    } in
    let ended = record v {
      unit_offset = 0;
      source_units = up v.source_units;
      source_samples = sample_add v.source_samples samples;
    } in
    record s { stream = if v.unit_offset == size then ended else v }

-- The loop over the fragments of a report, `bytes` being those left.
unfoldable pub fragments : ℕ → Env → List ℕ → ℕ → ℕ → Server → Server
unfolding voice_fault audio_put media_enqueue fragment_queued
fragments zero e bytes size samples s = s
fragments (suc fuel) e bytes size samples s =
    let n = if ltb 256 (length bytes) then 256 else length bytes in
    let (t, queued) =
      media_enqueue e Codes.op_voice_data (audio_header s size samples ++ take n bytes) s in
    let rest = fragments fuel e (drop n bytes) size samples (fragment_queued t n size samples) in
    if (length bytes == 0) || not s.stream.delivering
    then s
    else if s.stream.frame_seq == 2 ^ 32 - 1
    then voice_fault e Codes.end_invalid_encoded_data s
    else if queued
    then rest
    else voice_fault e Codes.end_buffer_overrun t

-- Whether a report does not continue the unit begun.
abbrev pub unit_broken : Server → Encoded → Bool
unit_broken s enc =
    (enc.len == 0)
    || (elim enc.bytes [ none ↦ true | some _ ↦ false ]
        || ((enc.unit_size == 0)
            || ((enc.offset != s.stream.unit_offset)
                || (ltb enc.unit_size enc.offset
                    || (ltb (enc.unit_size - enc.offset) enc.len
                        || (((enc.offset != 0)
                              && ((enc.unit_size != s.stream.unit_size)
                                  || (enc.samples != s.stream.unit_samples)))
                            || (s.stream.source_units == 2 ^ 32 - 1)))))))

abbrev pub report_bytes : Encoded → List ℕ
report_bytes enc = elim enc.bytes [ none ↦ [] | some bytes ↦ take enc.len bytes ]

-- `RBP_VOICE_EVT_ENCODED`; every fragment takes a byte.
unfoldable pub on_voice_encoded : Env → Encoded → Server → Server
unfolding voice_fault fragments
on_voice_encoded e enc s =
    let t = record s {
      source = record s.source {
        got_audio = true;
        progress_deadline = later s.now_ms voice_progress_ms;
      };
    } in
    let u = record t {
      stream = record t.stream { unit_size = enc.unit_size; unit_samples = enc.samples };
    } in
    if not s.source.active
    then s
    else if not t.stream.delivering || t.stream.ending
    then t
    else if ltb t.stream.format_max_unit enc.unit_size
    then voice_fault e Codes.end_unsupported_format t
    else if unit_broken t enc
    then voice_fault e Codes.end_invalid_encoded_data t
    else fragments enc.len e (report_bytes enc) enc.unit_size enc.samples u

-- The reason that the host is given.
unfoldable pub end_reason : Server → ℕ → ℕ
end_reason s reason =
    if (reason == Codes.end_normal) && s.source.capture_limited
    then Codes.end_capture_limit
    else if s.source.stop_requested && (reason == Codes.end_normal)
    then Codes.end_requested_stop
    else reason

abbrev pub drains : ℕ → Bool
drains reason =
    (reason == Codes.end_normal)
    || ((reason == Codes.end_requested_stop) || (reason == Codes.end_capture_limit))

-- `RBP_VOICE_EVT_END`
unfoldable pub on_voice_end : Env → ℕ → Server → Server
unfolding end_reason voice_finish_stream
on_voice_end e reason s =
    let t = record s {
      source = record s.source { active = false };
      voice = record s.voice { waiting_idle = false };
    } in
    let told = end_reason s reason in voice_finish_stream e told (not (drains told)) t

-- `rbp_server_on_voice`
unfoldable pub on_voice : Env → VoiceEvent → ℕ → Server → Server
unfolding on_source_begin on_voice_start on_voice_format on_voice_encoded voice_fault on_voice_end
on_voice e ev now s =
    let t = record s { now_ms = now } in
    elim ev [
      | source_begin ↦ on_source_begin t
      | voice_start f ↦ on_voice_start e f t
      | voice_format f ↦ on_voice_format e f t
      | voice_encoded enc ↦ on_voice_encoded e enc t
      | voice_fault_event reason ↦ voice_fault e reason t
      | voice_end reason ↦ on_voice_end e reason t
    ]

-- The loops of `rbp_server_on_voice_state`: whether an accepted codec is advertised.
unfoldable pub compatible_from : ℕ → AudioCaps → List ℕ → ℕ → ℕ → Bool
compatible_from zero caps codecs len i = false
compatible_from (suc fuel) caps codecs len i =
    let rest = compatible_from fuel caps codecs len (i + 6) in
    ltb i len && (advertised caps (codec_id_at codecs i) (codec_revision_at codecs i) || rest)

unfoldable pub compatible : Voice → Bool
unfolding compatible_from
compatible v = elim v.caps [
  | none ↦ false
  | some caps ↦
      leb caps.max_unit_bytes v.accepted_max_unit
      && compatible_from v.accepted_len caps v.accepted_codecs v.accepted_len 0
]

-- Whether voice comes back on for the host that had asked for it.
abbrev pub resumes : Server → ℕ → Bool
resumes s voice_state =
    (voice_state == Codes.voice_ready)
    && (s.session.active
        && (s.device.peer_valid
            && ((s.voice.resume_peer == s.device.peer.peer_id)
                && (not s.device.reconnect_paused && compatible s.voice))))

-- `rbp_server_on_voice_state`
unfoldable pub on_voice_state : Env → ℕ → ℕ → ℕ → Server → Server
unfolding compatible send_device_state
on_voice_state e voice_state interaction sample_rate s =
    let d = s.device in
    let known = record s {
      device = record d {
        voice_state = voice_state;
        voice_interaction = interaction;
        voice_sample_rate = sample_rate;
      };
      voice = record s.voice { enabled = (voice_state == Codes.voice_ready) && s.voice.enabled };
    } in
    let resumed = record known {
      voice = record known.voice { enabled = true; waiting_idle = known.source.active };
    } in
    let t = if resumes known voice_state then resumed else known in
    if (d.voice_state != voice_state)
      || ((d.voice_sample_rate != sample_rate) || (d.voice_interaction != interaction))
    then send_device_state e t.device.connection_id t
    else s
