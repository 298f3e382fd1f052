-- ===== src/Atvv/Phases.antt =====
-- The phases of the engine, as the flags that may hold together, and that every operation keeps
-- to them.
pub mod Requests
pub mod Tick
pub mod Control
pub mod Reach
use mi_remote_usb_bridge.Base.{
  ℕ, ◌+◌, ◌-◌, ◌%◌, ◌^◌, ◌≡◌, refl, List, [], ◌∷◌, ◌++◌, Bool, true, false, not, ◌&&◌, ◌||◌, ltb,
  ◌==◌, ◌!=◌, if◌then◌else◌, Option, none, some, inl, inr, Bool-cases, Option-cases, get_or, length,
  bit_and,
}
use mathlib.Core.Bool.{true≢false}
use mi_remote_usb_bridge.Atvv.Events.{Sink, Event}
use mi_remote_usb_bridge.Atvv.Capabilities.{parse_caps, big16}
use mi_remote_usb_bridge.Atvv.{
  Atvv, request_stop, request_start, wanted, send_close, fault, tick, tick_stream, tick_open,
  tick_deadline, reached, minus32, build_mic_open, build_mic_close, build_mic_extend,
}
use mi_remote_usb_bridge.Atvv.Audio.{on_audio, is_bad_audio, count_audio}
use mi_remote_usb_bridge.Atvv.Control.{
  on_control, on_caps, on_start, on_sync, on_stop, on_open_error, on_search, seed_decoder,
  announce_format, is_bad_start, is_bad_sync, error_busy,
}

-- `stream_active`, `open_pending`, `open_queued`, `closing`, `close_queued`, `failed`,
-- `decoder_ready` and `caps_valid`
pub data IsPhase : Bool → Bool → Bool → Bool → Bool → Bool → Bool → Bool → Type 0 where
  idle : (f v : Bool) → IsPhase false false false false false f false v
  queued : (f : Bool) → IsPhase false true true false false f false true
  opening : (c f : Bool) → IsPhase false true false c false f false true
  streaming : (c r : Bool) → IsPhase true false false c false false r true
  stopping : (r : Bool) → IsPhase true false false false true false r true
  broken : (c : Bool) → IsPhase true false false c false true false true
  broken_stopping : IsPhase true false false false true true false true

unfoldable pub Phase : Atvv → Type 0
Phase a =
    IsPhase a.stream_active a.open_pending a.open_queued a.closing a.close_queued a.failed
      a.decoder_ready a.caps_valid

-- The engine of an operation's outcome, without a result, with a status and with an answer.
abbrev pub after : Atvv × List Event → Atvv
after q = q.0

abbrev pub after_status : Atvv × ℕ → Atvv
after_status q = q.0

abbrev pub after_result : Atvv × List Event × Bool → Atvv
after_result q = q.0

-- The outcome of an operation is in a phase.
pub record Keeps {Q : Type 0} (engine : Q → Atvv) (q : Q) : Type 0 where
  pub phase : Phase (engine q)

pub keep : {Q : Type 0} {engine : Q → Atvv} {q : Q} → Phase (engine q) → Keeps engine q
keep h = record { phase = h }

-- A test with both outcomes.
pub choose :
    {Q : Type 0} {engine : Q → Atvv} (b : Bool) {x y : Q}
    → (b ≡ true → Keeps engine x)
    → (b ≡ false → Keeps engine y)
    → Keeps engine (if b then x else y)
choose true h k = h refl
choose false h k = k refl

pub both :
    {Q : Type 0} {engine : Q → Atvv} (b : Bool) {x y : Q}
    → Keeps engine x
    → Keeps engine y
    → Keeps engine (if b then x else y)
both b h k = choose b (λ _. h) (λ _. k)

abbrev pub with_flags : Atvv → Bool → Bool → Bool → Bool → Bool → Bool → Bool → Bool → Atvv
with_flags a s p q c cq f r v = record a {
  stream_active = s;
  open_pending = p;
  open_queued = q;
  closing = c;
  close_queued = cq;
  failed = f;
  decoder_ready = r;
  caps_valid = v;
}
