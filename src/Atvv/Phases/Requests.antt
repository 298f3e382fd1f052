-- ===== src/Atvv/Phases/Requests.antt =====
-- The requests to stop and to start, a fault, and audio.
use mi_remote_usb_bridge.Base.{
  ℕ, ◌≡◌, or_cases, List, [], if◌then◌else◌, Bool, true, false, not, ◌||◌, inl, inr, Bool-cases,
}
use mathlib.Core.Bool.{true≢false}
use mi_remote_usb_bridge.Atvv.Events.{Sink, Event, faulted, ended}
use mi_remote_usb_bridge.Atvv.{
  Atvv, notify, mic_start, request_stop, request_start, wanted, send_close, fault, build_mic_open,
  build_mic_close,
}
use mi_remote_usb_bridge.Atvv.Audio.{on_audio, is_bad_audio, count_audio}
use mi_remote_usb_bridge.Atvv.Phases.{
  IsPhase, idle, queued, opening, streaming, stopping, broken, broken_stopping, Phase, Keeps, keep,
  both, choose, with_flags, after, after_status, after_result,
}

module _ (sink : Sink) where
  stop_at :
      (a : Atvv) {s p q c cq f r v : Bool}
      → IsPhase s p q c cq f r v
      → Phase (request_stop sink (with_flags a s p q c cq f r v)).0
  unfolding Phase request_stop send_close
  stop_at a (idle f v) = idle f v
  stop_at a (queued f) = idle f true
  stop_at a (opening c f) = opening true f
  stop_at a (streaming true r) = streaming true r
  stop_at a (streaming false r) =
      elim (Bool-cases (sink.write_tx (build_mic_close a.remote_stream_id))) [
        | inl e ↦ rw e (streaming true r)
        | inr e ↦ rw e (stopping r)
      ]
  stop_at a (stopping r) = elim (Bool-cases (sink.write_tx (build_mic_close a.remote_stream_id))) [
    | inl e ↦ rw e (streaming true r)
    | inr e ↦ rw e (stopping r)
  ]
  stop_at a (broken true) = broken true
  stop_at a (broken false) =
      elim (Bool-cases (sink.write_tx (build_mic_close a.remote_stream_id))) [
        | inl e ↦ rw e (broken true)
        | inr e ↦ rw e broken_stopping
      ]
  stop_at a broken_stopping =
      elim (Bool-cases (sink.write_tx (build_mic_close a.remote_stream_id))) [
        | inl e ↦ rw e (broken true)
        | inr e ↦ rw e broken_stopping
      ]

  pub request_stop-Keeps : (a : Atvv) → Phase a → Keeps after_result (request_stop sink a)
  unfolding Phase
  request_stop-Keeps a h = record { phase = stop_at a h }

  -- A fault breaks a stream.
  break_at : {s p q c cq f r v : Bool} → IsPhase s p q c cq f r v → IsPhase s p q c cq true false v
  break_at (idle f v) = idle true v
  break_at (queued f) = queued true
  break_at (opening c f) = opening c true
  break_at (streaming c r) = broken c
  break_at (stopping r) = broken_stopping
  break_at (broken c) = broken c
  break_at broken_stopping = broken_stopping

  break-Phase : (a : Atvv) → Phase a → Phase (record a { failed = true; decoder_ready = false })
  unfolding Phase
  break-Phase a h = break_at h

  -- A call of the sink, whether it asks for a stop or not.
  pub notify-Keeps : (a : Atvv) (event : Event) → Phase a → Keeps after (notify sink event a)
  notify-Keeps a event h = both (sink.stops event) (keep (request_stop-Keeps a h).phase) (keep h)

  told-Keeps :
      (a : Atvv) (reason : ℕ)
      → Phase a
      → Keeps after (
          if sink.has_fault
          then notify sink (faulted reason) a
          else if sink.has_ended
          then notify sink (ended reason) a
          else (a, []))
  told-Keeps a reason h =
      both sink.has_fault (notify-Keeps a _ h) (both sink.has_ended (notify-Keeps a _ h) (keep h))

  pub fault-Keeps : (a : Atvv) (reason : ℕ) → Phase a → Keeps after (fault sink a reason)
  unfolding fault
  fault-Keeps a reason h =
      both a.failed (keep h)
        (keep (request_stop-Keeps _ (told-Keeps _ reason (break-Phase a h)).phase).phase)

  start_at :
      (a : Atvv) {s p q c cq f r v : Bool}
      → IsPhase s p q c cq f r v
      → Phase (request_start sink (with_flags a s p q c cq f r v)).0
  unfolding Phase request_start
  start_at a (idle f true) = elim (Bool-cases (wanted sink.want_voice)) [
    | inl w ↦ elim (Bool-cases (sink.write_tx build_mic_open)) [
      | inl e ↦ rw (w, e) (opening false f)
      | inr e ↦ rw (w, e) (queued f)
    ]
    | inr w ↦ rw w (idle f true)
  ]
  start_at a (idle f false) = idle f false
  start_at a (queued f) = queued f
  start_at a (opening c f) = opening c f
  start_at a (streaming c r) = streaming c r
  start_at a (stopping r) = stopping r
  start_at a (broken c) = broken c
  start_at a broken_stopping = broken_stopping

  count-Phase : (a : Atvv) (d : List ℕ) → Phase a → Phase (count_audio a d)
  unfolding Phase
  count-Phase a d h = h

  pub on_audio-Keeps : (a : Atvv) (d : List ℕ) → Phase a → Keeps after (on_audio sink a d)
  unfolding on_audio
  on_audio-Keeps a d h = both (not a.stream_active || a.failed) (keep h) (
      both (is_bad_audio a d) (fault-Keeps a _ h)
        (both (not a.decoder_ready) (fault-Keeps a _ h) (keep (count-Phase a d h))))

  pub request_start-Keeps : (a : Atvv) → Phase a → Keeps after_result (request_start sink a)
  unfolding Phase
  request_start-Keeps a h = record { phase = start_at a h }

-- A request that waits, from flags with neither a stream nor another request.
queue_at :
    (able : Bool) {s p q c cq f r v : Bool}
    → IsPhase s p q c cq f r v
    → not able || not v ≡ false
    → s || p || c || cq ≡ false
    → IsPhase s true true false cq f r v
queue_at able (idle f true) e k = queued f
queue_at able (idle f false) e k = absurd (true≢false (or_cases (not able) true e).1)
queue_at able (queued f) e k = absurd (true≢false k)
queue_at able (opening c f) e k = absurd (true≢false k)
queue_at able (streaming c r) e k = absurd (true≢false k)
queue_at able (stopping r) e k = absurd (true≢false k)
queue_at able (broken c) e k = absurd (true≢false k)
queue_at able broken_stopping e k = absurd (true≢false k)

queue-Phase :
    (able : Bool) (deadline : ℕ) (a : Atvv)
    → Phase a
    → not able || not a.caps_valid ≡ false
    → a.stream_active || a.open_pending || a.closing || a.close_queued ≡ false
    → Phase (record a {
      open_pending = true;
      open_queued = true;
      closing = false;
      open_deadline_ms = deadline;
    })
unfolding Phase
queue-Phase able deadline a h e k = queue_at able h e k

pub mic_start-Keeps :
    (selected able wished : Bool) (now : ℕ) (a : Atvv)
    → Phase a
    → Keeps after_status (mic_start selected able wished now a)
unfolding mic_start
mic_start-Keeps selected able wished now a h = both selected (keep h) (
    choose (not able || not a.caps_valid) (λ _. keep h)
      (λ e. both (not wished) (keep h) (
        choose (a.stream_active || a.open_pending || a.closing || a.close_queued) (λ _. keep h)
          (λ k. keep (queue-Phase able _ a h e k)))))
