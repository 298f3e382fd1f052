-- ===== src/Atvv/Events.antt =====
-- `rc003_atvv_sink_t`: what the engine's owner supplies, and the calls that the engine makes.
use mi_remote_usb_bridge.Base.{ℕ, List, Bool, Option}

-- A call of the sink, or of `rbp_fault_record` with the domain `RBP_FAULT_ATVV`.
pub data Event : Type 0 where
  wrote : List ℕ → Event
  source_begun : Event
  started formatted : ℕ → List ℕ → Event
  encoded : List ℕ → Event
  ended faulted : ℕ → Event
  recorded : ℕ → ℕ → ℕ → Event

-- The pointers that may be null, and the answers of the two callbacks that have one. `want_voice`
-- is `none` for a null pointer. `stops` tells in which calls the owner calls
-- `rc003_atvv_request_stop` before it returns, as the server does through `rc003_adapter_mic_stop`.
pub record Sink : Type 0 where
  pub write_tx : List ℕ → Bool
  pub want_voice : Option Bool
  pub has_source_begin : Bool
  pub has_ended : Bool
  pub has_fault : Bool
  pub stops : Event → Bool
