-- ===== src/Server/Voice.antt =====
-- The delivery of one voice stream: `codec_accepted` to `queue_format` of
-- firmware/product/rbp_server.c.
pub mod Events
use mi_remote_usb_bridge.Base.{
  ℕ, zero, suc, ◌+◌, ◌-◌, ◌*◌, ◌%◌, ◌^◌, List, [], ◌∷◌, ◌++◌, Bool, true, false, not, ◌&&◌, ◌||◌,
  ltb, leb, ◌==◌, ◌!=◌, if◌then◌else◌, Option, none, some, length, take, set,
}
use mi_remote_usb_bridge.Server.Codes
use mi_remote_usb_bridge.Server.Events.{send_device_state}
use mi_remote_usb_bridge.Server.Flush.{flush_output}
use mi_remote_usb_bridge.Server.Media.{audio_u32, media_discard_current}
use mi_remote_usb_bridge.Server.Output.{up, later, now_us64, next_order, session_teardown}
use mi_remote_usb_bridge.Server.Put
use mi_remote_usb_bridge.Server.Put.{◌▸◌}
use mi_remote_usb_bridge.Server.Ring.{audio_pool_size, ring_write}
use mi_remote_usb_bridge.Server.State.{
  Server, Env, Codec, AudioCaps, AudioFormat, MediaMarker, Voice, media_depth, voice_stop_ms,
  audio_config_max, voice_request_stop,
}
use mi_remote_usb_bridge.Tlv.Writer.{Writer, writer_init}
use mi_remote_usb_bridge.Wire.Header.{get16}

-- Whether one of the codecs has that id and revision.
unfoldable pub has_codec : List Codec → ℕ → ℕ → Bool
has_codec [] id revision = false
has_codec (c ∷ cs) id revision =
    ((c.id == id) && (c.revision == revision)) || has_codec cs id revision

-- Among `caps->codecs[0..count)`.
abbrev pub advertised : AudioCaps → ℕ → ℕ → Bool
unfolding has_codec
advertised caps id revision = has_codec (take caps.count caps.codecs) id revision

-- The codec at `p + i`, six bytes.
abbrev pub codec_id_at : List ℕ → ℕ → ℕ
codec_id_at p i = audio_u32 p i

abbrev pub codec_revision_at : List ℕ → ℕ → ℕ
codec_revision_at p i = get16 p (i + 4)

-- The second loop of `codec_accepted`, from `i` on; `len` rounds are enough.
unfoldable pub accepted_from : ℕ → List ℕ → ℕ → ℕ → ℕ → ℕ → Bool
accepted_from zero codecs len i id revision = false
accepted_from (suc fuel) codecs len i id revision =
    let rest = accepted_from fuel codecs len (i + 6) id revision in
    ltb i len
    && (((codec_id_at codecs i == id) && (codec_revision_at codecs i == revision)) || rest)

-- The tests of `codec_accepted` on the format alone.
unfoldable pub format_refused : AudioFormat → Bool
format_refused f =
    (f.codec_id == 0)
    || (leb 0x80000000 f.codec_id
        || ((f.codec_revision == 0)
            || ((f.sample_rate == 0)
                || (ltb 384000 f.sample_rate
                    || ((f.channels == 0)
                        || (ltb 8 f.channels
                            || (ltb audio_config_max f.config_len
                                || (((f.config_len != 0)
                                      && elim f.config [ none ↦ true | some _ ↦ false ])
                                    || (f.max_unit_bytes == 0)))))))))

-- `codec_accepted`, for a format that is not null.
unfoldable pub codec_accepted : Voice → AudioFormat → Bool
unfolding format_refused accepted_from
codec_accepted v f = elim v.caps [
  | none ↦ false
  | some caps ↦
      not (
        format_refused f
        || (ltb v.accepted_max_unit f.max_unit_bytes || ltb caps.max_unit_bytes f.max_unit_bytes))
      && (advertised caps f.codec_id f.codec_revision
          && accepted_from v.accepted_len v.accepted_codecs v.accepted_len 0 f.codec_id
              f.codec_revision)
]

-- `s->media_count>=MEDIA_DEPTH || AUDIO_POOL_SIZE-s->audio_len<len`
abbrev pub media_full : Server → ℕ → Bool
media_full s len = leb media_depth s.media.count || ltb (audio_pool_size - s.media.pool.len) len

-- `media_enqueue` behind the test.
unfoldable pub media_append : Server → ℕ → List ℕ → Server
unfolding ring_write
media_append s op payload =
    let idx = (s.media.head + s.media.count) % media_depth in
    let t = next_order s in
    let marker : MediaMarker = record {
      stream = s.stream.id;
      connection = s.stream.connection;
      order = t.order_counter;
      opcode = op;
      len = length payload;
    } in
    record t {
      media = record s.media {
        pool = (ring_write audio_pool_size s.media.pool payload).0;
        q = set s.media.q idx marker;
        count = s.media.count + 1;
      };
    }

-- `media_enqueue`
unfoldable pub media_enqueue : Env → ℕ → List ℕ → Server → Server × Bool
unfolding flush_output media_append
media_enqueue e op payload s =
    let t = if media_full s (length payload) then flush_output e s else s in
    if not t.session.active || media_full t (length payload)
    then (t, false)
    else (media_append t op payload, true)

-- The end of the stream as `voice_finish_stream` writes it.
abbrev pub ended_tlv : Server → ℕ → Bool → Writer
ended_tlv s reason clear_pending =
    let v = s.stream in
    writer_init
    ▸ Put.u32 1 v.id
    ▸ Put.u8 2 reason
    ▸ Put.u64 3 (if clear_pending then v.delivered_bytes else v.source_bytes)
    ▸ Put.u64 4 (now_us64 s)
    ▸ Put.u32 5 (if clear_pending then v.delivered_units else v.source_units)
    ▸ Put.u64 6 (if clear_pending then v.delivered_samples else v.source_samples)
    ▸ Put.u32 7 (if clear_pending then v.delivered_epoch else v.epoch)

-- `voice_finish_stream` once it is settled whether what is pending is dropped.
unfoldable pub finish_settled : Env → ℕ → Bool → Server → Server
unfolding media_discard_current media_enqueue
finish_settled e reason clear_pending s =
    let t = if clear_pending then media_discard_current s else s in
    let (u, queued) =
      media_enqueue e Codes.op_voice_ended_ev (ended_tlv t reason clear_pending).buf t in
    let over = record u.stream {
      ending = not clear_pending;
      delivering = if clear_pending then false else u.stream.delivering;
      id = if clear_pending then 0 else u.stream.id;
    } in
    if s.stream.ending && not clear_pending
    then s
    else if queued
    then record u { stream = over }
    else session_teardown e u

-- `voice_finish_stream`
unfoldable pub voice_finish_stream : Env → ℕ → Bool → Server → Server
unfolding finish_settled
voice_finish_stream e reason clear_pending s =
    let torn = not clear_pending && (s.stream.unit_offset != 0) in
    if not s.stream.delivering
    then s
    else finish_settled e (if torn then Codes.end_invalid_encoded_data else reason)
        (clear_pending || torn) s

-- `s->stop_requested=true;s->stop_deadline_ms=s->now_ms+VOICE_STOP_MS;` and the backend call.
unfoldable pub request_stop : Env → Server → Server
request_stop e s = e.react voice_request_stop (record s {
  source = record s.source {
    stop_requested = true;
    stop_deadline_ms = later s.now_ms voice_stop_ms;
  };
})

-- `voice_fault`
abbrev pub count_fault : ℕ → Server → Server
count_fault reason s = record s {
  stats = record s.stats {
    voice_errors = up s.stats.voice_errors;
    voice_overruns =
        if reason == Codes.end_buffer_overrun
        then up s.stats.voice_overruns
        else s.stats.voice_overruns;
  };
}

abbrev pub voice_failed_state : ℕ → Server → Server
voice_failed_state reason s = record s {
  voice = record s.voice { resume_peer = 0; enabled = false };
  device = record s.device {
    voice_state =
        if reason == Codes.end_unsupported_format
        then Codes.voice_unsupported
        else Codes.voice_failed;
  };
}

unfoldable pub voice_fault : Env → ℕ → Server → Server
unfolding voice_finish_stream request_stop send_device_state
voice_fault e reason s =
    let t = voice_finish_stream e reason true (count_fault reason s) in
    let u = if t.source.active && not t.source.stop_requested then request_stop e t else t in
    let failed = voice_failed_state reason u in
    if (reason == Codes.end_unsupported_format) || not s.stream.delivering
    then send_device_state e failed.device.connection_id failed
    else u

-- The description of a format for the host.
abbrev pub config_bytes : AudioFormat → List ℕ
config_bytes f = elim f.config [ none ↦ [] | some bytes ↦ take f.config_len bytes ]

abbrev pub format_tlv : Server → AudioFormat → Bool → ℕ → Writer
format_tlv s f start epoch =
    writer_init
    ▸ Put.u32 1 s.stream.id
    ▸ Put.u32 2 epoch
    ▸ Put.u32 3 f.codec_id
    ▸ Put.u16 4 f.codec_revision
    ▸ Put.u32 5 f.sample_rate
    ▸ Put.u8 6 f.channels
    ▸ Put.bytes 7 (config_bytes f)
    ▸ Put.u32 8 f.max_unit_bytes
    ▸ Put.u64 9 s.stream.source_samples
    ▸ Put.u64 10 (if start then s.source.started_ms * 1000 else now_us64 s)
    ▸ Put.u32 11 (up s.stream.source_units)

-- `queue_format`
unfoldable pub queue_format : Env → AudioFormat → Bool → Server → Server × Bool
unfolding codec_accepted voice_fault media_enqueue
queue_format e f start s =
    let epoch = if start then 1 else s.stream.epoch + 1 in
    let op = if start then Codes.op_voice_started_ev else Codes.op_voice_format_ev in
    let (t, queued) = media_enqueue e op (format_tlv s f start epoch).buf s in
    let noted = record t {
      stream = record t.stream { epoch = epoch; format_max_unit = f.max_unit_bytes };
    } in
    if not (codec_accepted s.voice f)
    then (voice_fault e Codes.end_unsupported_format s, false)
    else if (s.stream.unit_offset != 0) || (s.stream.epoch == 2 ^ 32 - 1)
    then (voice_fault e Codes.end_source_data_lost s, false)
    else if queued
    then (noted, true)
    else (t, false)
