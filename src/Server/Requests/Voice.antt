-- ===== src/Server/Requests/Voice.antt =====
-- The requests about voice: `RBP_OP_GET_VOICE_CAPS` to `RBP_OP_VOICE_STOP` of `dispatch_request` in
-- firmware/product/rbp_server.c.
use mi_remote_usb_bridge.Base.{
  ℕ, zero, suc, ◌+◌, ◌%◌, List, [], ◌∷◌, ◌++◌, Bool, true, false, not, ◌&&◌, ◌||◌, ltb, leb, ◌==◌,
  ◌!=◌, if◌then◌else◌, Option, none, some, length, take, drop, get_or,
}
use mi_remote_usb_bridge.Server.Codes
use mi_remote_usb_bridge.Server.Put
use mi_remote_usb_bridge.Server.Put.{◌▸◌}
use mi_remote_usb_bridge.Server.Requests.{
  required, optional, respond_ok, respond_with, refuse, refuse_silently, conn_ready_for,
  not_ready_status,
}
use mi_remote_usb_bridge.Tlv.Getters.{get_u32, get_bool, get_bytes}
use mi_remote_usb_bridge.Tlv.Reader.{Reader}
use mi_remote_usb_bridge.Tlv.Writer.{writer_init}
use mi_remote_usb_bridge.Wire.Header.{Header}
use mi_remote_usb_bridge.Server.Media.{audio_put}
use mi_remote_usb_bridge.Server.Ring.{copy_into}
use mi_remote_usb_bridge.Server.State.{
  Server, Env, Codec, AudioCaps, Voice, audio_config_max, audio_unit_max, voice_request_stop,
}
use mi_remote_usb_bridge.Server.Voice.{
  advertised, codec_id_at, codec_revision_at, voice_finish_stream, request_stop,
}

-- `list[0..count*6)`
unfoldable pub codec_list : List Codec → List ℕ
unfolding audio_put
codec_list [] = []
codec_list (c ∷ cs) = audio_put c.id 4 ++ (audio_put c.revision 2 ++ codec_list cs)

abbrev pub no_caps : AudioCaps
no_caps = record { codecs = []; max_unit_bytes = 0; count = 0 }

-- The capabilities that are told, with `count` 0 where none are.
abbrev pub told_caps : Server → AudioCaps
told_caps s = elim s.voice.caps [
  | none ↦ no_caps
  | some c ↦ if (s.device.voice_state == Codes.voice_ready) && leb c.count 16 then c else no_caps
]

unfoldable pub get_voice_caps : Env → Header → Server → Server
unfolding refuse_silently codec_list respond_with
get_voice_caps e h s =
    let c = told_caps s in
    if (h.connection_id == 0) || (h.connection_id != s.device.connection_id)
    then refuse_silently e h Codes.status_link_lost s
    else respond_with e h
        (writer_init
          ▸ Put.bytes 1 (codec_list (take c.count c.codecs))
          ▸ Put.u32 2 (if c.count == 0 then 0 else c.max_unit_bytes)
          ▸ Put.u16 3 audio_config_max)
        s

abbrev pub advertises : Option AudioCaps → ℕ → ℕ → Bool
advertises none id revision = false
advertises (some caps) id revision = advertised caps id revision

-- The loop over the codecs that a host offers, from `i` on: none where they are not strictly
-- ascending, else whether one of them is advertised; `len` rounds are enough.
unfoldable pub offered : ℕ → Option AudioCaps → List ℕ → ℕ → ℕ → ℕ → ℕ → Bool → Option Bool
offered zero caps codecs len i last_id last_rev intersects = some intersects
offered (suc fuel) caps codecs len i last_id last_rev intersects =
    let id = codec_id_at codecs i in
    let rev = codec_revision_at codecs i in
    let rest = offered fuel caps codecs len (i + 6) id rev (intersects || advertises caps id rev) in
    if not (ltb i len)
    then some intersects
    else if (id == 0)
        || (leb 0x80000000 id
            || ((rev == 0) || (ltb id last_id || ((id == last_id) && leb rev last_rev))))
    then none
    else rest

-- `memcmp(a, b, n) == 0`
unfoldable pub same_bytes : ℕ → List ℕ → List ℕ → Bool
same_bytes zero a b = true
same_bytes (suc n) a b = (get_or a 0 0 == get_or b 0 0) && same_bytes n (drop 1 a) (drop 1 b)

-- The limits of an offer.
abbrev pub bad_offer : List ℕ → ℕ → Bool
bad_offer codecs max_unit =
    (length codecs == 0)
    || (ltb 96 (length codecs)
        || ((length codecs % 6 != 0) || ((max_unit == 0) || ltb audio_unit_max max_unit)))

-- `!s->voice_caps || max_unit<s->voice_caps->max_unit_bytes`
abbrev pub too_small : Option AudioCaps → ℕ → Bool
too_small none max_unit = true
too_small (some caps) max_unit = ltb max_unit caps.max_unit_bytes

abbrev pub changes_offer : Voice → List ℕ → ℕ → Bool
changes_offer v codecs max_unit =
    (v.accepted_len != length codecs)
    || ((v.accepted_max_unit != max_unit)
        || not (same_bytes (length codecs) v.accepted_codecs codecs))

-- Voice is switched on.
abbrev pub switched_on : Server → List ℕ → ℕ → Server
switched_on s codecs max_unit = record s {
  voice = record s.voice {
    accepted_codecs = copy_into s.voice.accepted_codecs 0 codecs;
    accepted_len = length codecs;
    accepted_max_unit = max_unit;
    denied = false;
    resume_peer = if s.device.peer_valid then s.device.peer.peer_id else 0;
    enabled = true;
    waiting_idle = if s.voice.enabled then s.voice.waiting_idle else s.source.active;
  };
}

unfoldable pub enable_offered : Env → Header → List ℕ → ℕ → Bool → Server → Server
unfolding refuse_silently respond_with copy_into same_bytes
enable_offered e h codecs max_unit intersects s =
    let t = switched_on s codecs max_unit in
    let ready = s.device.voice_state == Codes.voice_ready in
    if ready && (not intersects || too_small s.voice.caps max_unit)
    then refuse_silently e h Codes.status_unsupported s
    else if (s.stream.delivering || s.voice.waiting_idle) && changes_offer s.voice codecs max_unit
    then refuse_silently e h Codes.status_busy s
    else if not ready
    then refuse_silently e h Codes.status_voice_unavailable s
    else respond_with e h (writer_init ▸ Put.bool 1 true ▸ Put.bool 2 t.voice.waiting_idle) t

unfoldable pub enable_voice : Env → Header → List ℕ → ℕ → Server → Server
unfolding refuse_silently offered enable_offered
enable_voice e h codecs max_unit s =
    let checked : Server =
      elim (offered (length codecs) s.voice.caps codecs (length codecs) 0 0 0 false) [
        | none ↦ refuse_silently e h Codes.status_invalid_argument s
        | some intersects ↦ enable_offered e h codecs max_unit intersects s
      ] in
    if bad_offer codecs max_unit
    then refuse_silently e h Codes.status_invalid_argument s
    else checked

-- Voice is switched off: the answer waits for the end of a stream.
abbrev pub switched_off : Server → Server
switched_off s = record s {
  voice = record s.voice {
    accepted_len = 0;
    accepted_max_unit = 0;
    resume_peer = 0;
    denied = true;
    enabled = false;
    waiting_idle = false;
  };
}

unfoldable pub disable_voice : Env → Header → Server → Server
unfolding voice_finish_stream respond_with
disable_voice e h s =
    let was = s.voice.enabled in
    let off = switched_off s in
    let t =
      if not off.stream.delivering && (off.source.active || was)
      then e.react voice_request_stop off
      else off in
    let u = voice_finish_stream e Codes.end_consumer_disabled true t in
    let deferred = record u {
      deferred = record {
        pending = true;
        opcode = h.opcode;
        request_id = h.request_id;
        connection_id = h.connection_id;
        is_enable = true;
      };
    } in
    if t.stream.delivering
    then if was then e.react voice_request_stop deferred else deferred
    else respond_with e h (writer_init ▸ Put.bool 1 false ▸ Put.bool 2 false) t

-- Where the connection of the request does not allow it.
abbrev pub voice_refused : Server → Header → Bool → Bool
voice_refused s h true = not (conn_ready_for s h)
voice_refused s h false = (h.connection_id != 0) && (h.connection_id != s.device.connection_id)

-- The offer that came with the request.
unfoldable pub set_voice : Env → Header → Bool → Option (List ℕ) → Option ℕ → Server → Server
unfolding refuse_silently enable_voice disable_voice
set_voice e h true (some codecs) (some max_unit) s = enable_voice e h codecs max_unit s
set_voice e h true none max_unit s = refuse_silently e h Codes.status_invalid_argument s
set_voice e h true (some codecs) none s = refuse_silently e h Codes.status_invalid_argument s
set_voice e h false none none s = disable_voice e h s
set_voice e h false (some codecs) max_unit s = refuse_silently e h Codes.status_invalid_argument s
set_voice e h false none (some max_unit) s = refuse_silently e h Codes.status_invalid_argument s

unfoldable pub voice_enable : Env → Header → Reader → Server → Server
unfolding get_bool get_bytes get_u32 refuse refuse_silently conn_ready_for set_voice
voice_enable e h rd s = elim (required (get_bool rd 1)) [
  | none ↦ refuse e h Codes.status_invalid_argument "enabled required" s
  | some enabled ↦
      let parsed : Server = elim (optional (get_bytes rd 2)) [
        | none ↦ refuse_silently e h Codes.status_invalid_argument s
        | some codecs ↦ elim (optional (get_u32 rd 3)) [
          | none ↦ refuse_silently e h Codes.status_invalid_argument s
          | some max_unit ↦ set_voice e h enabled codecs max_unit s
        ]
      ] in
      if voice_refused s h enabled then refuse_silently e h (not_ready_status s) s else parsed
]

unfoldable pub voice_start_request : Env → Header → Server → Server
unfolding conn_ready_for refuse refuse_silently respond_ok
voice_start_request e h s =
    let asked : Server = elim e.voice_request_start [
      | none ↦ refuse_silently e h Codes.status_unsupported s
      | some start ↦
          if start s != Codes.status_ok then refuse_silently e h (start s) s else respond_ok e h s
    ] in
    if not (conn_ready_for s h)
    then refuse_silently e h Codes.status_link_lost s
    else if s.device.voice_state != Codes.voice_ready
    then refuse_silently e h Codes.status_voice_unavailable s
    else if not s.voice.enabled
    then refuse e h Codes.status_bad_state "voice not enabled" s
    else if s.source.active || (s.stream.delivering || (s.stream.ending || s.voice.waiting_idle))
    then refuse e h Codes.status_busy "previous capture not idle" s
    else asked

unfoldable pub stop_stream : Env → Header → ℕ → Server → Server
unfolding refuse request_stop respond_ok
stop_stream e h sid s =
    if not s.stream.delivering || (sid != s.stream.id)
    then refuse e h Codes.status_not_found "stream" s
    else respond_ok e h (if s.source.stop_requested then s else request_stop e s)

unfoldable pub voice_stop_request : Env → Header → Reader → Server → Server
unfolding conn_ready_for refuse refuse_silently get_u32 stop_stream
voice_stop_request e h rd s =
    let found : Server = elim (required (get_u32 rd 1)) [
      | none ↦ refuse e h Codes.status_invalid_argument "stream_id required" s
      | some sid ↦ stop_stream e h sid s
    ] in
    if conn_ready_for s h then found else refuse_silently e h (not_ready_status s) s
