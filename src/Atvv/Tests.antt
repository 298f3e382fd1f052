-- ===== src/Atvv/Tests.antt =====
-- A concrete stream.
use mi_remote_usb_bridge.Base.{
  ◌<◌, ◌≤◌, ℕ, ◌≡◌, refl, arith, List, [], ◌∷◌, true, some, map, replicate,
}
use mi_remote_usb_bridge.Atvv.Events.{Sink, encoded}
use mi_remote_usb_bridge.Atvv.Capabilities.{caps_of, parse_caps, max_frame, no_caps}
use mi_remote_usb_bridge.Atvv.{Atvv, atvv_init}
use mi_remote_usb_bridge.Atvv.Control.{on_control}
use mi_remote_usb_bridge.Atvv.Begin.{parse_caps_bounds}
use mi_remote_usb_bridge.Atvv.Phases.{Phase}
use mi_remote_usb_bridge.Atvv.Phases.Reach.{init, control, Reachable-Phase}
use mi_remote_usb_bridge.Atvv.Audio.{on_packets, IsDelivering, on_packets-IsDelivering}

abbrev some_sink : Sink
some_sink = record {
  write_tx = λ d. true;
  want_voice = some true;
  has_source_begin = true;
  has_ended = true;
  has_fault = true;
  stops = λ event. true;
}

abbrev streaming : Atvv
streaming = record atvv_init {
  caps_valid = true;
  caps = record no_caps { frame_size = 128 };
  stream_active = true;
  decoder_ready = true;
}

streaming-IsDelivering : IsDelivering streaming 0
streaming-IsDelivering = record {
  active = refl;
  sound = refl;
  ready = refl;
  valid = refl;
  size = (omega arith, omega arith);
  frames = refl;
  rest = refl;
}

abbrev two_packets : List (List ℕ)
two_packets = replicate 20 7 ∷ replicate 120 8 ∷ []

on_packets-IsDelivering_example :
    IsDelivering (on_packets some_sink streaming two_packets).0 140
    × ((on_packets some_sink streaming two_packets).1 ≡ map encoded two_packets)
on_packets-IsDelivering_example =
    on_packets-IsDelivering some_sink two_packets streaming 0 streaming-IsDelivering
      ((omega arith, omega arith), ((omega arith, omega arith), tt))

abbrev voice_started : Atvv
voice_started =
    (on_control some_sink
      (on_control some_sink (record atvv_init { profile_init_without_sync = true })
        (0x0b ∷ 1 ∷ 0 ∷ 3 ∷ 0 ∷ 0 ∷ 128 ∷ 0 ∷ 0 ∷ [])).0
      (0x04 ∷ 0 ∷ 2 ∷ 0 ∷ [])).0

Reachable-Phase_example : Phase voice_started
Reachable-Phase_example =
    Reachable-Phase voice_started (control some_sink _ _ (control some_sink _ _ (init true)))

abbrev caps_message : List ℕ
caps_message = 0x0b ∷ 1 ∷ 0 ∷ 3 ∷ 0 ∷ 0 ∷ 128 ∷ 0 ∷ 0 ∷ []

parse_caps_bounds_example :
    (0 < (caps_of caps_message).frame_size) × ((caps_of caps_message).frame_size ≤ max_frame)
unfolding parse_caps
parse_caps_bounds_example = parse_caps_bounds caps_message (caps_of caps_message) refl
