-- ===== src/Atvv/Phases/Control.antt =====
-- `rc003_atvv_on_control`.
use mi_remote_usb_bridge.Base.{
  if◌then◌else◌, inl, inr, Bool-cases, or_cases, or_first, ℕ, ◌≡◌, refl, List, [], ◌∷◌, Bool, true,
  false, not, ◌&&◌, ◌||◌, ◌==◌, ◌!=◌, Option, none, some, get_or, replicate, length,
}
use mathlib.Core.Bool.{true≢false}
use mi_remote_usb_bridge.Atvv.Events.{Sink, Event, source_begun}
use mi_remote_usb_bridge.Atvv.Capabilities.{Caps, parse_caps, big16}
use mi_remote_usb_bridge.Atvv.{Atvv, notify, request_stop, send_close, build_mic_close}
use mi_remote_usb_bridge.Atvv.Control.{
  on_control, on_caps, take_caps, on_start, on_sync, on_stop, on_open_error, on_search,
  begin_source, seed_decoder, announce_format, is_bad_start, begin_stream, is_bad_sync, error_busy,
}
use mi_remote_usb_bridge.Atvv.Phases.{
  IsPhase, idle, queued, opening, streaming, stopping, broken, broken_stopping, Phase, Keeps, keep,
  choose, both, after, after_result,
}
use mi_remote_usb_bridge.Atvv.Phases.Requests.{
  notify-Keeps, request_stop-Keeps, fault-Keeps, request_start-Keeps,
}
use mi_remote_usb_bridge.Atvv.Phases.Tick.{give_up-Phase}

module _ (sink : Sink) where
  caps_at : {s p q c cq f r v : Bool} → IsPhase s p q c cq f r v → IsPhase s p q c cq f r true
  caps_at (idle f v) = idle f true
  caps_at (queued f) = queued f
  caps_at (opening c f) = opening c f
  caps_at (streaming c r) = streaming c r
  caps_at (stopping r) = stopping r
  caps_at (broken c) = broken c
  caps_at broken_stopping = broken_stopping

  stop_flags_at :
      {s p q c cq f r v : Bool} → IsPhase s p q c cq f r v → IsPhase false p q false false f false v
  stop_flags_at (idle f v) = idle f v
  stop_flags_at (queued f) = queued f
  stop_flags_at (opening c f) = opening false f
  stop_flags_at (streaming c r) = idle false true
  stop_flags_at (stopping r) = idle false true
  stop_flags_at (broken c) = idle true true
  stop_flags_at broken_stopping = idle true true

  stop_flags-Phase :
      (a : Atvv)
      → Phase a
      → Phase (record a {
        stream_active = false;
        decoder_ready = false;
        closing = false;
        close_queued = false;
      })
  unfolding Phase
  stop_flags-Phase a h = stop_flags_at h

  on_stop-Keeps : (a : Atvv) (d : List ℕ) → Phase a → Keeps after_result (on_stop a d)
  unfolding on_stop
  on_stop-Keeps a d h =
      both ((length d != 2) || not a.stream_active) (keep h) (keep (stop_flags-Phase a h))

  ready_at :
      {s p q c cq f r v : Bool}
      → IsPhase s p q c cq f r v
      → not s || f ≡ false
      → IsPhase s p q c cq f true v
  ready_at (idle f v) e = absurd (true≢false e)
  ready_at (queued f) e = absurd (true≢false e)
  ready_at (opening c f) e = absurd (true≢false e)
  ready_at (streaming c r) e = streaming c true
  ready_at (stopping r) e = stopping true
  ready_at (broken c) e = absurd (true≢false e)
  ready_at broken_stopping e = absurd (true≢false e)

  announced-Phase : (a : Atvv) → Phase a → Phase (record a { announced = true })
  unfolding Phase
  announced-Phase a h = h

  announce_format-Keeps : (a : Atvv) → Phase a → Keeps after (announce_format sink a)
  unfolding announce_format
  announce_format-Keeps a h =
      both a.announced (notify-Keeps sink a _ h) (notify-Keeps sink _ _ (announced-Phase a h))

  sync-Phase :
      (a : Atvv) (d : List ℕ) (rate : ℕ)
      → not a.stream_active || a.failed ≡ false
      → Phase a
      → Phase (record a {
        codec_config = get_or d 5 0 ∷ get_or d 4 0 ∷ get_or d 6 0 ∷ 0 ∷ [];
        decoder_ready = true;
        saw_sync = true;
        sample_rate = rate;
      })
  unfolding Phase
  sync-Phase a d rate e h = ready_at h e

  on_sync-Keeps : (a : Atvv) (d : List ℕ) → Phase a → Keeps after_result (on_sync sink a d)
  unfolding on_sync
  on_sync-Keeps a d h =
      choose (not a.stream_active || a.failed) (λ _. keep h)
        (λ e. both (is_bad_sync a d) (keep (fault-Keeps sink a _ h).phase) (
          both ((big16 d 2 != a.frame_no) || (a.frame_bytes != 0))
            (keep (fault-Keeps sink a _ h).phase)
            (keep (announce_format-Keeps _ (sync-Phase a d _ e h)).phase)))

  -- What follows an error of an attempt to open.
  unqueue_at : {s p q c cq f r v : Bool} → IsPhase s p q c cq f r v → IsPhase s p false c cq f r v
  unqueue_at (idle f v) = idle f v
  unqueue_at (queued f) = opening false f
  unqueue_at (opening c f) = opening c f
  unqueue_at (streaming c r) = streaming c r
  unqueue_at (stopping r) = stopping r
  unqueue_at (broken c) = broken c
  unqueue_at broken_stopping = broken_stopping

  unqueue-Phase : (a : Atvv) → Phase a → Phase (record a { open_queued = false })
  unfolding Phase
  unqueue-Phase a h = unqueue_at h

  on_open_error-Keeps :
      (a : Atvv) (d : List ℕ) → Phase a → Keeps after_result (on_open_error sink a d)
  unfolding on_open_error
  on_open_error-Keeps a d h = both (length d != 3) (keep h) (
      both (a.open_pending && not a.stream_active)
        (both (big16 d 1 == error_busy) (keep (unqueue-Phase a h)) (keep (give_up-Phase a h)))
        (both (a.stream_active && not (big16 d 1 == error_busy))
          (keep (fault-Keeps sink _ _ (give_up-Phase a h)).phase) (keep (give_up-Phase a h))))

  on_search-Keeps : (a : Atvv) (d : List ℕ) → Phase a → Keeps after_result (on_search sink a d)
  unfolding on_search
  on_search-Keeps a d h = both (length d == 1) (request_start-Keeps sink a h) (keep h)

  begun-Phase : (a : Atvv) (d : List ℕ) → a.caps_valid ≡ true → Phase (begin_stream a d)
  unfolding Phase
  begun-Phase a d e = rw e (streaming false false)

  -- A stream that has not failed.
  Sound : Atvv → Type 0
  Sound a = not a.stream_active || a.failed ≡ false

  stopped-Sound : (a : Atvv) (d : List ℕ) → Sound (request_stop sink (begin_stream a d)).0
  unfolding Sound request_stop send_close
  stopped-Sound a d = elim (Bool-cases (sink.write_tx (build_mic_close (get_or d 3 0)))) [
    | inl e ↦ rw e refl
    | inr e ↦ rw e refl
  ]

  either-Sound :
      (b : Bool) (x y : Atvv × List Event) → Sound x.0 → Sound y.0 → Sound (if b then x else y).0
  either-Sound true x y h k = h
  either-Sound false x y h k = k

  begun-Sound : (a : Atvv) (d : List ℕ) → Sound (begin_stream a d)
  unfolding Sound
  begun-Sound a d = refl

  begin_source-Sound : (a : Atvv) (d : List ℕ) → Sound (begin_source sink (begin_stream a d)).0
  unfolding begin_source
  begin_source-Sound a d =
      let begun = begin_stream a d in
      let stopped = request_stop sink begun in
      either-Sound sink.has_source_begin (notify sink source_begun begun) (begun, [])
        (either-Sound (sink.stops source_begun) (stopped.0, source_begun ∷ stopped.1)
          (begun, source_begun ∷ []) (stopped-Sound a d) (begun-Sound a d))
        (begun-Sound a d)

  seeded-Phase :
      (a : Atvv)
      → Sound a
      → Phase a
      → Phase (record a { codec_config = replicate 4 0; decoder_ready = true })
  unfolding Phase Sound
  seeded-Phase a e h = ready_at h e

  seed_decoder-Keeps : (a : Atvv) → Sound a → Phase a → Keeps after (seed_decoder sink a)
  unfolding seed_decoder
  seed_decoder-Keeps a e h =
      both a.profile_init_without_sync (announce_format-Keeps _ (seeded-Phase a e h)) (keep h)

  begin_source-Keeps : (a : Atvv) → Phase a → Keeps after (begin_source sink a)
  unfolding begin_source
  begin_source-Keeps a h = both sink.has_source_begin (notify-Keeps sink a _ h) (keep h)

  not_cases : (x : Bool) → not x ≡ false → x ≡ true
  not_cases true e = refl
  not_cases false e = absurd (true≢false e)

  -- A start is refused without capabilities.
  valid_of : (a : Atvv) (d : List ℕ) → is_bad_start a d ≡ false → a.caps_valid ≡ true
  valid_of a d e =
      not_cases a.caps_valid
        (or_cases _ _
          (or_first _ _ (or_first _ _ (or_first _ _ (or_first _ _ (or_first _ _ e)))))).1

  on_start-Keeps : (a : Atvv) (d : List ℕ) → Phase a → Keeps after_result (on_start sink a d)
  unfolding on_start
  on_start-Keeps a d h = both a.stream_active (keep (fault-Keeps sink a _ h).phase) (
      choose (is_bad_start a d) (λ _. keep h)
        (λ e.
          let begun = begin_source-Keeps (begin_stream a d) (begun-Phase a d (valid_of a d e)) in
          let seeded = (seed_decoder-Keeps _ (begin_source-Sound a d) begun.phase).phase in
          both (a.closing && a.open_pending) (keep (request_stop-Keeps sink _ seeded).phase)
            (keep seeded)))

  caps-Phase :
      (a : Atvv) (caps : Caps) (rate : ℕ)
      → Phase a
      → Phase (record a { caps = caps; caps_valid = true; sample_rate = rate })
  unfolding Phase
  caps-Phase a caps rate h = caps_at h

  take_caps-Keeps : (a : Atvv) (o : Option Caps) → Phase a → Keeps after_result (take_caps a o)
  take_caps-Keeps a none h = keep h
  take_caps-Keeps a (some caps) h = both a.stream_active (keep h) (keep (caps-Phase a caps _ h))

  on_caps-Keeps : (a : Atvv) (d : List ℕ) → Phase a → Keeps after_result (on_caps a d)
  unfolding on_caps
  on_caps-Keeps a d h = take_caps-Keeps a (parse_caps d) h

  pub on_control-Keeps :
      (a : Atvv) (d : List ℕ) → Phase a → Keeps after_result (on_control sink a d)
  unfolding on_control
  on_control-Keeps a d h = both (length d == 0) (keep h) (
      both (get_or d 0 0 == 0x0b) (on_caps-Keeps a d h) (
        both (get_or d 0 0 == 0x04) (on_start-Keeps a d h) (
          both (get_or d 0 0 == 0x0a) (on_sync-Keeps a d h) (
            both (get_or d 0 0 == 0x00) (on_stop-Keeps a d h) (
              both (get_or d 0 0 == 0x08) (on_search-Keeps a d h)
                (both (get_or d 0 0 == 0x0c) (on_open_error-Keeps a d h) (keep h)))))))
