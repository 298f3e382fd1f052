-- ===== src/Atvv/Phases/Reach.antt =====
-- Every engine that operations reach.
use mi_remote_usb_bridge.Base.{ℕ, List, Bool, false}
use mi_remote_usb_bridge.Atvv.Events.{Sink}
use mi_remote_usb_bridge.Atvv.{Atvv, mic_start, request_stop, request_start, tick}
use mi_remote_usb_bridge.Atvv.Audio.{on_audio}
use mi_remote_usb_bridge.Atvv.Control.{on_control}
use mi_remote_usb_bridge.Atvv.Phases.{idle, Phase}
use mi_remote_usb_bridge.Atvv.Phases.Requests.{
  mic_start-Keeps, request_stop-Keeps, on_audio-Keeps, request_start-Keeps,
}
use mi_remote_usb_bridge.Atvv.{atvv_init}
use mi_remote_usb_bridge.Atvv.Phases.Tick.{tick-Keeps}
use mi_remote_usb_bridge.Atvv.Phases.Control.{on_control-Keeps}

-- The engine after each sequence of operations, each with the sink's answers at that time, and the
-- requests to stop that its calls make. `mic_started`, `at_time` and `with_profile` are what the adapter
-- does to the engine's fields itself.
pub data Reachable : Atvv → Type 0 where
  init : (b : Bool) → Reachable (record atvv_init { profile_init_without_sync = b })
  control : (sink : Sink) (d : List ℕ) (a : Atvv) → Reachable a → Reachable (on_control sink a d).0
  audio : (sink : Sink) (d : List ℕ) (a : Atvv) → Reachable a → Reachable (on_audio sink a d).0
  ticked : (sink : Sink) (now : ℕ) (a : Atvv) → Reachable a → Reachable (tick sink a now).0
  stop : (sink : Sink) (a : Atvv) → Reachable a → Reachable (request_stop sink a).0
  start : (sink : Sink) (a : Atvv) → Reachable a → Reachable (request_start sink a).0
  mic_started :
      (selected able wished : Bool) (now : ℕ) (a : Atvv)
      → Reachable a
      → Reachable (mic_start selected able wished now a).0
  at_time : (now : ℕ) (a : Atvv) → Reachable a → Reachable (record a { now_ms = now })
  with_profile :
      (b : Bool) (a : Atvv) → Reachable a → Reachable (record a { profile_init_without_sync = b })

-- Whatever operations of the engine and of the adapter on it run, in whatever order, with requests to
-- stop from within the calls of the sink, the flags of the engine are in one of the phases: at
-- most one of waiting for a stream and having one, a queued command only while its request is
-- unsent, a stream only after valid capabilities, and decoding only within a stream that has not
-- failed.
pub Reachable-Phase : (a : Atvv) → Reachable a → Phase a
unfolding Phase
Reachable-Phase a (init b) = idle false false
Reachable-Phase a (control sink d b r) = (on_control-Keeps sink b d (Reachable-Phase b r)).phase
Reachable-Phase a (audio sink d b r) = (on_audio-Keeps sink b d (Reachable-Phase b r)).phase
Reachable-Phase a (ticked sink now b r) = (tick-Keeps sink b now (Reachable-Phase b r)).phase
Reachable-Phase a (stop sink b r) = (request_stop-Keeps sink b (Reachable-Phase b r)).phase
Reachable-Phase a (start sink b r) = (request_start-Keeps sink b (Reachable-Phase b r)).phase
Reachable-Phase a (mic_started selected able wished now b r) =
    (mic_start-Keeps selected able wished now b (Reachable-Phase b r)).phase
Reachable-Phase a (at_time now b r) = Reachable-Phase b r
Reachable-Phase a (with_profile p b r) = Reachable-Phase b r
