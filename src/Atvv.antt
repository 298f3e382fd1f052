-- ===== src/Atvv.antt =====
-- The voice engine of the remote: firmware/adapters/rc003/rc003_atvv.c and rc003_atvv.h. An
-- operation yields the engine after it, the calls of the sink it made, in order, and its result.
-- Trace output is left out, and a null pointer to data stands as no data.
pub mod Events
pub mod Capabilities
pub mod Control
pub mod Audio
pub mod Phases
pub mod Begin
mod Tests
use mi_remote_usb_bridge.Base.{
  ℕ, ◌+◌, ◌-◌, ◌%◌, ◌^◌, List, [], ◌∷◌, ◌++◌, Bool, true, false, not, ◌&&◌, ◌||◌, ltb,
  if◌then◌else◌, Option, none, some, replicate,
}
use mi_remote_usb_bridge.Server.Codes
use mi_remote_usb_bridge.Atvv.Events.{Sink, Event, recorded, wrote, ended, faulted}
use mi_remote_usb_bridge.Atvv.Capabilities.{Caps, no_caps}

-- `rc003_atvv_t` but for `sink`, which each operation takes.
pub record Atvv : Type 0 where
  pub caps_valid : Bool
  pub caps : Caps
  pub sample_rate : ℕ
  pub announced : Bool
  pub codec_config : List ℕ
  pub stream_active : Bool
  pub remote_stream_id : ℕ
  pub frame_bytes : ℕ
  pub failed : Bool
  pub closing : Bool
  pub open_pending : Bool
  pub open_queued : Bool
  pub close_queued : Bool
  pub last_extend_ms : ℕ
  pub open_deadline_ms : ℕ
  pub frame_no : ℕ
  pub decoder_ready : Bool
  pub saw_sync : Bool
  pub last_audio_ms : ℕ
  pub now_ms : ℕ
  pub profile_init_without_sync : Bool

-- `rc003_atvv_init`
abbrev pub atvv_init : Atvv
atvv_init = record {
  caps_valid = false;
  caps = no_caps;
  sample_rate = 0;
  announced = false;
  codec_config = replicate 4 0;
  stream_active = false;
  remote_stream_id = 0;
  frame_bytes = 0;
  failed = false;
  closing = false;
  open_pending = false;
  open_queued = false;
  close_queued = false;
  last_extend_ms = 0;
  open_deadline_ms = 0;
  frame_no = 0;
  decoder_ready = false;
  saw_sync = false;
  last_audio_ms = 0;
  now_ms = 0;
  profile_init_without_sync = false;
}

-- `ATVV_OPEN_WAIT_MS`
abbrev pub open_wait_ms : ℕ
open_wait_ms = 5000

-- `RBP_END_NORMAL`, `RBP_END_INVALID_ENCODED_DATA`, `RBP_END_SOURCE_DATA_LOST` and
-- `RBP_END_DEVICE_ERROR`
abbrev pub end_normal : ℕ
end_normal = 0

abbrev pub end_invalid_encoded_data : ℕ
end_invalid_encoded_data = 4

abbrev pub end_source_data_lost : ℕ
end_source_data_lost = 5

abbrev pub end_device_error : ℕ
end_device_error = 6

-- `atvv_build_mic_open`, `atvv_build_mic_close`, `atvv_build_mic_extend` and
-- `atvv_build_get_caps`
abbrev pub build_mic_open : List ℕ
build_mic_open = 0x0c ∷ 0x01 ∷ []

abbrev pub build_mic_close : ℕ → List ℕ
build_mic_close stream_id = 0x0d ∷ stream_id ∷ []

abbrev pub build_mic_extend : ℕ → List ℕ
build_mic_extend stream_id = 0x0e ∷ stream_id ∷ []

abbrev pub build_get_caps : List ℕ
build_get_caps = 0x0a ∷ 0x01 ∷ 0x00 ∷ 0x00 ∷ 0x03 ∷ 0x03 ∷ []

-- `(uint32_t)(a - b)`, and `(int32_t)(a - b) >= 0`
abbrev pub minus32 : ℕ → ℕ → ℕ
minus32 a b = (a + 2 ^ 32 - b) % 2 ^ 32

abbrev pub reached : ℕ → ℕ → Bool
reached now deadline = ltb (minus32 now deadline) (2 ^ 31)

-- `rc003_atvv_request_stop` from the writing of the command on.
unfoldable pub send_close : Sink → Atvv → Atvv × List Event × Bool
send_close sink a =
    let cmd = build_mic_close a.remote_stream_id in
    if sink.write_tx cmd
    then (record a { closing = true; close_queued = false }, wrote cmd ∷ [], true)
    else (
      record a {
        open_deadline_ms =
            if a.close_queued then a.open_deadline_ms else (a.now_ms + 1000) % 2 ^ 32;
        close_queued = true;
      },
      wrote cmd ∷ [],
      false,
    )

-- `rc003_atvv_request_stop`
unfoldable pub request_stop : Sink → Atvv → Atvv × List Event × Bool
request_stop sink a =
    if a.open_pending && not a.stream_active
    then if a.open_queued
      then (record a { open_queued = false; open_pending = false }, [], true)
      else (record a { closing = true }, [], true)
    else if not a.stream_active
    then (a, [], false)
    else if a.closing
    then (a, [], true)
    else send_close sink a

-- A call of the sink, with the request to stop that its owner may make before it returns. Where the call
-- is the last step of an operation, the request is an operation of its own, right after it.
abbrev pub notify : Sink → Event → Atvv → Atvv × List Event
notify sink event a =
    let (a', events, taken) = request_stop sink a in
    if sink.stops event then (a', event ∷ events) else (a, event ∷ [])

-- `a->sink.want_voice && a->sink.want_voice(a->sink.user)`
abbrev pub wanted : Option Bool → Bool
wanted none = false
wanted (some b) = b

-- `rc003_atvv_request_start`
unfoldable pub request_start : Sink → Atvv → Atvv × List Event × Bool
request_start sink a =
    if not a.caps_valid || a.stream_active || a.open_pending || not (wanted sink.want_voice)
    then (a, [], false)
    else (
      record a {
        open_queued = not (sink.write_tx build_mic_open);
        open_pending = true;
        closing = false;
        open_deadline_ms = (a.now_ms + open_wait_ms) % 2 ^ 32;
      },
      wrote build_mic_open ∷ [],
      true,
    )

-- `fault`
unfoldable pub fault : Sink → Atvv → ℕ → Atvv × List Event
fault sink a reason =
    let noted = recorded 1 reason a.frame_no in
    let broken = record a { failed = true; decoder_ready = false } in
    let (a₁, told) =
      if sink.has_fault
      then notify sink (faulted reason) broken
      else if sink.has_ended
      then notify sink (ended reason) broken
      else (broken, []) in
    let (a₂, events, taken) = request_stop sink a₁ in
    if a.failed then (a, noted ∷ []) else (a₂, noted ∷ told ++ events)

-- `rc003_atvv_tick` from the test of `close_queued` on.
unfoldable pub tick_stream : Sink → Atvv → ℕ → Atvv × List Event × Bool
tick_stream sink a now_ms =
    let extend = build_mic_extend a.remote_stream_id in
    let (late, late_events) = fault sink (record a { close_queued = false }) end_device_error in
    if a.close_queued
    then if reached now_ms a.open_deadline_ms
      then (late, late_events, false)
      else request_stop sink a
    else if a.failed && a.stream_active && not a.closing
    then request_stop sink a
    else if not a.stream_active || a.closing || a.failed
    then (a, [], false)
    else if ltb (minus32 now_ms a.last_extend_ms) 5000
    then (a, [], false)
    else if sink.write_tx extend
    then (record a { last_extend_ms = now_ms }, wrote extend ∷ [], true)
    else (a, wrote extend ∷ [], false)

-- The two tests of `rc003_atvv_tick` on a request to open.
unfoldable pub tick_deadline : Sink → Atvv → ℕ → Atvv × List Event
tick_deadline sink a now_ms =
    let a' = record a { open_pending = false; open_queued = false; closing = false } in
    if a.open_pending && reached now_ms a.open_deadline_ms
    then if sink.has_fault then notify sink (faulted end_device_error) a' else (a', [])
    else (a, [])

unfoldable pub tick_open : Sink → Atvv → Atvv × List Event
tick_open sink a =
    if a.open_queued
    then (record a { open_queued = not (sink.write_tx build_mic_open) }, wrote build_mic_open ∷ [])
    else (a, [])

-- `rc003_atvv_tick`
unfoldable pub tick : Sink → Atvv → ℕ → Atvv × List Event × Bool
tick sink a now_ms =
    let (a₁, deadline_events) = tick_deadline sink (record a { now_ms = now_ms }) now_ms in
    let (a₂, open_events) = tick_open sink a₁ in
    let (a₃, events, extended) = tick_stream sink a₂ now_ms in
    (a₃, deadline_events ++ (open_events ++ events), extended)

-- `rc003_adapter_mic_start` of rc003_adapter.c, which sets the flags of the engine itself. `selected`
-- is `a->unicom.selected`, `able` the tests of the adapter's own variables, and `wished` what
-- `rbp_server_voice_wanted` answers.
unfoldable pub mic_start : Bool → Bool → Bool → ℕ → Atvv → Atvv × ℕ
mic_start selected able wished now_ms a =
    if selected
    then (a, Codes.status_voice_unavailable)
    else if not able || not a.caps_valid
    then (a, Codes.status_voice_unavailable)
    else if not wished
    then (a, Codes.status_bad_state)
    else if a.stream_active || a.open_pending || a.closing || a.close_queued
    then (a, Codes.status_busy)
    else (
      record a {
        open_pending = true;
        open_queued = true;
        closing = false;
        open_deadline_ms = (now_ms + open_wait_ms) % 2 ^ 32;
      },
      Codes.status_ok,
    )
