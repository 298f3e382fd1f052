-- ===== src/Atvv/Phases/Tick.antt =====
-- `rc003_atvv_tick`.
use mi_remote_usb_bridge.Base.{ℕ, Bool, true, false, not, ◌&&◌, ◌||◌, ltb, inl, inr, Bool-cases}
use mi_remote_usb_bridge.Atvv.Events.{Sink}
use mi_remote_usb_bridge.Atvv.{
  Atvv, tick, tick_stream, tick_open, tick_deadline, reached, minus32, build_mic_open,
  build_mic_extend,
}
use mi_remote_usb_bridge.Atvv.Phases.{
  IsPhase, idle, queued, opening, streaming, stopping, broken, broken_stopping, Phase, Keeps, keep,
  both, with_flags, after, after_result,
}
use mi_remote_usb_bridge.Atvv.Phases.Requests.{notify-Keeps, request_stop-Keeps, fault-Keeps}

-- What the end of a wait for a stream does to the flags.
give_up_at :
    {s p q c cq f r v : Bool} → IsPhase s p q c cq f r v → IsPhase s false false false cq f r v
give_up_at (idle f v) = idle f v
give_up_at (queued f) = idle f true
give_up_at (opening c f) = idle f true
give_up_at (streaming c r) = streaming false r
give_up_at (stopping r) = stopping r
give_up_at (broken c) = broken false
give_up_at broken_stopping = broken_stopping

pub give_up-Phase :
    (a : Atvv)
    → Phase a
    → Phase (record a { open_pending = false; open_queued = false; closing = false })
unfolding Phase
give_up-Phase a h = give_up_at h

module _ (sink : Sink) where
  at_now-Phase : (a : Atvv) (now : ℕ) → Phase a → Phase (record a { now_ms = now })
  unfolding Phase
  at_now-Phase a now h = h

  tick_deadline-Keeps : (a : Atvv) (now : ℕ) → Phase a → Keeps after (tick_deadline sink a now)
  unfolding tick_deadline
  tick_deadline-Keeps a now h =
      both (a.open_pending && reached now a.open_deadline_ms)
        (both sink.has_fault (notify-Keeps sink _ _ (give_up-Phase a h)) (keep (give_up-Phase a h)))
        (keep h)

  open_at :
      (a : Atvv) {s p q c cq f r v : Bool}
      → IsPhase s p q c cq f r v
      → Phase (tick_open sink (with_flags a s p q c cq f r v)).0
  unfolding Phase tick_open
  open_at a (idle f v) = idle f v
  open_at a (queued f) = elim (Bool-cases (sink.write_tx build_mic_open)) [
    | inl e ↦ rw e (opening false f)
    | inr e ↦ rw e (queued f)
  ]
  open_at a (opening c f) = opening c f
  open_at a (streaming c r) = streaming c r
  open_at a (stopping r) = stopping r
  open_at a (broken c) = broken c
  open_at a broken_stopping = broken_stopping

  late_at : {s p q c cq f r v : Bool} → IsPhase s p q c cq f r v → IsPhase s p q c false f r v
  late_at (idle f v) = idle f v
  late_at (queued f) = queued f
  late_at (opening c f) = opening c f
  late_at (streaming c r) = streaming c r
  late_at (stopping r) = streaming false r
  late_at (broken c) = broken c
  late_at broken_stopping = broken false

  late-Phase : (a : Atvv) → Phase a → Phase (record a { close_queued = false })
  unfolding Phase
  late-Phase a h = late_at h

  tick_open-Phase : (a : Atvv) → Phase a → Phase (tick_open sink a).0
  unfolding Phase
  tick_open-Phase a h = open_at a h

  extended-Phase : (a : Atvv) (now : ℕ) → Phase a → Phase (record a { last_extend_ms = now })
  unfolding Phase
  extended-Phase a now h = h

  tick_stream-Keeps : (a : Atvv) (now : ℕ) → Phase a → Keeps after_result (tick_stream sink a now)
  unfolding tick_stream
  tick_stream-Keeps a now h =
      both a.close_queued
        (both (reached now a.open_deadline_ms)
          (keep (fault-Keeps sink (record a { close_queued = false }) _ (late-Phase a h)).phase)
          (request_stop-Keeps sink a h))
        (both (a.failed && a.stream_active && not a.closing) (request_stop-Keeps sink a h) (
          both (not a.stream_active || a.closing || a.failed) (keep h) (
            both (ltb (minus32 now a.last_extend_ms) 5000) (keep h) (
              both (sink.write_tx (build_mic_extend a.remote_stream_id))
                (keep (extended-Phase a now h)) (keep h)))))

  pub tick-Keeps : (a : Atvv) (now : ℕ) → Phase a → Keeps after_result (tick sink a now)
  unfolding tick
  tick-Keeps a now h =
      let at_now = record a { now_ms = now } in
      let waited = tick_deadline-Keeps at_now now (at_now-Phase a now h) in
      keep
        (tick_stream-Keeps (tick_open sink (tick_deadline sink at_now now).0).0 now
          (tick_open-Phase (tick_deadline sink at_now now).0 waited.phase)).phase
