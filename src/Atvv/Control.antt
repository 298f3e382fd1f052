-- ===== src/Atvv/Control.antt =====
-- `rc003_atvv_on_control`: messages on the control characteristic.
use mi_remote_usb_bridge.Base.{
  Option, ℕ, List, [], ◌∷◌, ◌++◌, Bool, true, false, not, ◌&&◌, ◌||◌, ltb, ◌==◌, ◌!=◌,
  if◌then◌else◌, none, some, get_or, length, bit_and, replicate,
}
use mi_remote_usb_bridge.Atvv.Events.{
  Sink, Event, recorded, source_begun, started, formatted, ended, faulted,
}
use mi_remote_usb_bridge.Atvv.Capabilities.{Caps, big16, parse_caps}
use mi_remote_usb_bridge.Atvv.{
  Atvv, notify, request_stop, request_start, fault, end_normal, end_device_error,
  end_source_data_lost, end_invalid_encoded_data,
}

abbrev pub codec_to_rate : ℕ → ℕ
codec_to_rate c = if c == 1 then 8000 else if c == 2 then 16000 else 0

-- `announce_format`; the other fields of the format are constants.
unfoldable pub announce_format : Sink → Atvv → Atvv × List Event
announce_format sink a =
    if a.announced
    then notify sink (formatted a.sample_rate a.codec_config) a
    else notify sink (started a.sample_rate a.codec_config) (record a { announced = true })

-- `case ATVV_CAPS_RESP`, on what `atvv_parse_caps` yields.
abbrev pub take_caps : Atvv → Option Caps → Atvv × List Event × Bool
take_caps a none = (a, [], false)
take_caps a (some caps) = if a.stream_active then (a, [], false) else (
  record a {
    caps = caps;
    caps_valid = true;
    sample_rate = if bit_and caps.codecs 2 != 0 then 16000 else 8000;
  },
  [],
  true,
)

unfoldable pub on_caps : Atvv → List ℕ → Atvv × List Event × Bool
on_caps a d = take_caps a (parse_caps d)

-- The tests of `case ATVV_AUDIO_START` that refuse a message.
abbrev pub is_bad_start : Atvv → List ℕ → Bool
is_bad_start a d =
    let trigger = get_or d 1 0 in
    let codec = get_or d 2 0 in
    let stream = get_or d 3 0 in
    (length d != 4)
    || not a.caps_valid
    || (codec_to_rate codec == 0)
    || (bit_and a.caps.codecs codec == 0)
    || ((trigger != 0) && (trigger != 1) && (trigger != 3))
    || (if trigger == 0 then stream != 0 else (stream == 0) || ltb 0x80 stream)
    || ((trigger != 0) && (trigger != a.caps.interaction))

-- What `case ATVV_AUDIO_START` sets.
abbrev pub begin_stream : Atvv → List ℕ → Atvv
begin_stream a d = record a {
  stream_active = true;
  remote_stream_id = get_or d 3 0;
  frame_no = 0;
  frame_bytes = 0;
  sample_rate = codec_to_rate (get_or d 2 0);
  decoder_ready = false;
  saw_sync = false;
  failed = false;
  closing = false;
  open_pending = false;
  open_queued = false;
  close_queued = false;
  last_audio_ms = a.now_ms;
  last_extend_ms = a.now_ms;
  announced = false;
}

-- `if(a->sink.on_source_begin)`
unfoldable pub begin_source : Sink → Atvv → Atvv × List Event
begin_source sink a = if sink.has_source_begin then notify sink source_begun a else (a, [])

-- `if(a->profile_init_without_sync)`
unfoldable pub seed_decoder : Sink → Atvv → Atvv × List Event
seed_decoder sink a =
    if a.profile_init_without_sync
    then announce_format sink (record a { codec_config = replicate 4 0; decoder_ready = true })
    else (a, [])

-- `case ATVV_AUDIO_START`
unfoldable pub on_start : Sink → Atvv → List ℕ → Atvv × List Event × Bool
on_start sink a d =
    let (lost, lost_events) = fault sink a end_source_data_lost in
    let (a₁, begun) = begin_source sink (begin_stream a d) in
    let (a₂, announced) = seed_decoder sink a₁ in
    let (a₃, stopped, taken) = request_stop sink a₂ in
    if a.stream_active
    then (lost, lost_events, false)
    else if is_bad_start a d
    then (a, [], false)
    else if a.closing && a.open_pending
    then (a₃, begun ++ (announced ++ stopped), true)
    else (a₂, begun ++ announced, true)

-- `case ATVV_AUDIO_SYNC`
abbrev pub is_bad_sync : Atvv → List ℕ → Bool
is_bad_sync a d =
    let codec = get_or d 1 0 in
    (length d != 7)
    || (codec_to_rate codec == 0)
    || (bit_and a.caps.codecs codec == 0)
    || ltb 88 (get_or d 6 0)

unfoldable pub on_sync : Sink → Atvv → List ℕ → Atvv × List Event × Bool
on_sync sink a d =
    let (bad, bad_events) = fault sink a end_invalid_encoded_data in
    let (lost, lost_events) = fault sink a end_source_data_lost in
    let (a', events) = announce_format sink (record a {
      codec_config = get_or d 5 0 ∷ get_or d 4 0 ∷ get_or d 6 0 ∷ 0 ∷ [];
      decoder_ready = true;
      saw_sync = true;
      sample_rate = codec_to_rate (get_or d 1 0);
    }) in
    if not a.stream_active || a.failed
    then (a, [], false)
    else if is_bad_sync a d
    then (bad, bad_events, false)
    else if (big16 d 2 != a.frame_no) || (a.frame_bytes != 0)
    then (lost, lost_events, false)
    else (a', events, true)

-- `case ATVV_AUDIO_STOP`
unfoldable pub on_stop : Atvv → List ℕ → Atvv × List Event × Bool
on_stop a d =
    let why = get_or d 1 0 in
    let is_normal = (why == 0) || (why == 2) || (why == 4) in
    if (length d != 2) || not a.stream_active then (a, [], false) else (
      record a {
        stream_active = false;
        decoder_ready = false;
        closing = false;
        close_queued = false;
      },
      if is_normal
          then ended end_normal ∷ []
          else recorded 0x00 why 0 ∷ ended end_device_error ∷ [],
      true,
    )

-- `ATVV_ERR_BUSY`
abbrev pub error_busy : ℕ
error_busy = 0x0f80

-- `case ATVV_MIC_OPEN_ERROR`
unfoldable pub on_open_error : Sink → Atvv → List ℕ → Atvv × List Event × Bool
on_open_error sink a d =
    let code = big16 d 1 in
    let is_busy = code == error_busy in
    let noted =
      if is_busy then [] else recorded 0x0c code (if a.stream_active then 1 else 0) ∷ [] in
    let told = if sink.has_fault then faulted end_device_error ∷ [] else [] in
    let a' = record a { open_pending = false; open_queued = false; closing = false } in
    let (bad, bad_events) = fault sink a' end_device_error in
    if length d != 3
    then (a, [], false)
    else if a.open_pending && not a.stream_active
    then if is_busy then (record a { open_queued = false }, noted, true) else (
      record a { open_queued = false; open_pending = false; closing = false },
      noted ++ told,
      true,
    )
    else if a.stream_active && not is_busy
    then (bad, noted ++ bad_events, true)
    else (a', noted, true)

-- `case ATVV_START_SEARCH`
unfoldable pub on_search : Sink → Atvv → List ℕ → Atvv × List Event × Bool
on_search sink a d = if length d == 1 then request_start sink a else (a, [], false)

-- `rc003_atvv_on_control`
unfoldable pub on_control : Sink → Atvv → List ℕ → Atvv × List Event × Bool
on_control sink a d =
    let opcode = get_or d 0 0 in
    if length d == 0
    then (a, [], false)
    else if opcode == 0x0b
    then on_caps a d
    else if opcode == 0x04
    then on_start sink a d
    else if opcode == 0x0a
    then on_sync sink a d
    else if opcode == 0x00
    then on_stop a d
    else if opcode == 0x08
    then on_search sink a d
    else if opcode == 0x0c
    then on_open_error sink a d
    else (a, [], false)
