-- ===== src/Server/Media.antt =====
-- The media queue and its audio pool: `audio_u32` to `sample_add`, `media_discard_current` and
-- `media_flush_one` of firmware/product/rbp_server.c.
pub mod Read
pub mod Items
pub mod Rounds
pub mod Compact
use mi_remote_usb_bridge.Base.{
  ℕ, zero, suc, ◌+◌, ◌-◌, ◌/◌, ◌%◌, ◌^◌, List, [], ◌∷◌, Bool, true, false, not, ◌&&◌, ◌||◌, ltb,
  leb, ◌==◌, ◌!=◌, if◌then◌else◌, get_or, set,
}
use mi_remote_usb_bridge.Server.Codes
use mi_remote_usb_bridge.Server.Control.{no_header}
use mi_remote_usb_bridge.Server.Output.{up, out_try_frame}
use mi_remote_usb_bridge.Server.Ring.{Ring, out_ring_size, audio_pool_size, ring_write, audio_read}
use mi_remote_usb_bridge.Server.State.{
  Server, Env, MediaMarker, Stream, media_depth, audio_data_header,
}
use mi_remote_usb_bridge.Wire.Header.{Header, get32}

-- `audio_u32(p + i)`
abbrev pub audio_u32 : List ℕ → ℕ → ℕ
audio_u32 p i = get32 p i

-- `audio_put`: the bytes that it stores.
unfoldable pub audio_put : ℕ → ℕ → List ℕ
audio_put n zero = []
audio_put n (suc len) = n % 256 ∷ audio_put (n / 256) len

-- `sample_add`
unfoldable pub sample_add : ℕ → ℕ → ℕ
sample_add a b =
    if (a == 2 ^ 64 - 1) || ((b == 2 ^ 32 - 1) || leb (2 ^ 64 - 1 - a) b) then 2 ^ 64 - 1 else a + b

abbrev pub no_marker : MediaMarker
no_marker = record { stream = 0; connection = 0; order = 0; opcode = 0; len = 0 }

-- `s->media_q[(s->media_head+i)%MEDIA_DEPTH]`
abbrev pub marker_at : List MediaMarker → ℕ → ℕ → MediaMarker
marker_at q head i = get_or q ((head + i) % media_depth) no_marker

-- The variables of the loop of `media_discard_current`; the length of `pool` is `write`.
pub record Compaction : Type 0 where
  pub pool : Ring
  pub q : List MediaMarker
  pub read : ℕ
  pub kept : ℕ

-- A marker of the current stream leaves, but for its start.
abbrev pub leaves : ℕ → MediaMarker → Bool
leaves stream m = (m.stream == stream) && (m.opcode != Codes.op_voice_started_ev)

-- One round of the loop, on the marker `m`.
unfoldable pub compact_one : ℕ → ℕ → MediaMarker → Compaction → Compaction
unfolding audio_read ring_write
compact_one stream head m c =
    let payload = audio_read c.pool c.read m.len in
    if leaves stream m then record c { read = c.read + m.len } else record {
      pool = (ring_write audio_pool_size c.pool payload).0;
      q = set c.q ((head + c.kept) % media_depth) m;
      read = c.read + m.len;
      kept = c.kept + 1;
    }

unfoldable pub compact_loop : ℕ → ℕ → ℕ → ℕ → Compaction → Compaction
unfolding compact_one
compact_loop stream head i zero c = c
compact_loop stream head i (suc n) c =
    compact_loop stream head (i + 1) n (compact_one stream head (marker_at c.q head i) c)

-- `media_discard_current`
unfoldable pub media_discard_current : Server → Server
unfolding compact_loop
media_discard_current s =
    let m = s.media in
    let start : Compaction = record {
      pool = record m.pool { len = 0 };
      q = m.q;
      read = 0;
      kept = 0;
    } in
    let c = compact_loop s.stream.id m.head 0 m.count start in
    record s { media = record m { pool = c.pool; q = c.q; count = c.kept } }

-- `m.len - RBP_AUDIO_DATA_HEADER` on `uint32_t`
abbrev pub audio_len_of : MediaMarker → ℕ
audio_len_of m = (m.len + 2 ^ 32 - audio_data_header) % 2 ^ 32

-- The counters of what has been delivered, after audio of the current stream.
unfoldable pub delivered_audio : Stream → MediaMarker → List ℕ → Stream
unfolding sample_add
delivered_audio s m payload =
    let t = record s { delivered_bytes = (s.delivered_bytes + audio_len_of m) % 2 ^ 64 } in
    if (audio_u32 payload 20 + audio_len_of m) % 2 ^ 32 == audio_u32 payload 16
    then record t {
      delivered_units = up s.delivered_units;
      delivered_samples = sample_add s.delivered_samples (audio_u32 payload 32);
    }
    else t

-- The same after any marker.
unfoldable pub delivered : Stream → MediaMarker → List ℕ → Stream
unfolding delivered_audio
delivered s m payload =
    if not (m.stream == s.id)
    then s
    else if m.opcode == Codes.op_voice_data
    then delivered_audio s m payload
    else if (m.opcode == Codes.op_voice_started_ev) || (m.opcode == Codes.op_voice_format_ev)
    then record s { delivered_epoch = audio_u32 payload 12 }
    else if m.opcode == Codes.op_voice_ended_ev
    then record s { delivering = false; ending = false; id = 0 }
    else s

-- The front of the media queue leaves.
abbrev pub media_taken : Server → MediaMarker → Server
media_taken s m = record s {
  media = record s.media {
    pool = record s.media.pool {
      head = (s.media.pool.head + m.len) % audio_pool_size;
      len = s.media.pool.len - m.len;
    };
    head = (s.media.head + 1) % media_depth;
    count = s.media.count - 1;
  };
}

abbrev pub media_header : Server → MediaMarker → Header
media_header s m = record no_header {
  kind = if m.opcode == Codes.op_voice_data then Codes.kind_audio else Codes.kind_event;
  opcode = m.opcode;
  session_id = s.session.id;
  connection_id = m.connection;
}

-- `media_flush_one`
unfoldable pub media_flush_one : Env → Server → Server × Bool
unfolding audio_read out_try_frame delivered
media_flush_one e s =
    let m = marker_at s.media.q s.media.head 0 in
    let payload = audio_read s.media.pool 0 m.len in
    let (t, sent) = out_try_frame e s (media_header s m) payload in
    let u = record t { stream = delivered t.stream m payload } in
    if not s.session.active || (s.media.count == 0)
    then (s, false)
    else if ltb (out_ring_size - s.out.len) (32 + m.len + 6)
    then (s, false)
    else if sent
    then (media_taken u m, true)
    else (t, false)
