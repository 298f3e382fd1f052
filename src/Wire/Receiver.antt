-- ===== src/Wire/Receiver.antt =====
-- The frame receiver: `rbp_rxparser_init` to `rbp_rx_drain` of protocol/src/rbp_frame.c.
-- The unread part of the input stands for the pointer and the length of `resume`.
pub mod Invariant
pub mod Drain
pub mod RoundTrip
pub mod Stream
pub mod Resync
use mi_remote_usb_bridge.Base.{
  ℕ, zero, suc, ◌+◌, ◌-◌, ◌%◌, ◌^◌, List, [], ◌∷◌, ◌++◌, Bool, true, false, not, ◌&&◌, ◌||◌, ◌==◌,
  ltb, leb, length, take, drop, if◌then◌else◌,
}
use mi_remote_usb_bridge.Wire.Cobs.InPlace.{decode_in_place}
use mi_remote_usb_bridge.Wire.Crc.{crc32c}
use mi_remote_usb_bridge.Wire.Header.{Header, header_parse, header_bytes, get32}
use mi_remote_usb_bridge.Wire.Frame.{max_payload, recv_max}

-- `RBP_MAX_FRAME_RAW`
abbrev pub max_frame_raw : ℕ
max_frame_raw = 548

-- `rx_state_t`
pub data RxState : Type 0 where
  idle in_frame discard : RxState

abbrev pub is_in_frame : RxState → Bool
is_in_frame idle = false
is_in_frame in_frame = true
is_in_frame discard = false

-- `rbp_rxparser_t`: `run` is `buf[0..len)`.
pub record RxParser : Type 0 where
  pub state : RxState
  pub run : List ℕ
  pub frame_start_ms : ℕ

-- `rbp_rx_event_t`
pub data RxEvent : Type 0 where
  no_event frame overflow timeout garbage : RxEvent

-- `rbp_rx_event_ctx_t`: `payload` is the borrowed range, `resume` the range still to be fed.
pub record RxContext : Type 0 where
  pub event : RxEvent
  pub header : Header
  pub payload : List ℕ
  pub crc_ok : Bool
  pub resume : List ℕ

-- `(uint32_t)(now_ms - p->frame_start_ms)`
abbrev pub elapsed : ℕ → ℕ → ℕ
elapsed now start = (now + 2 ^ 32 - start) % 2 ^ 32

-- `rbp_rxparser_init`, and `rx_reset`
abbrev pub rx_reset : ℕ → RxParser
rx_reset now = record { state = idle; run = []; frame_start_ms = now }

-- Whether the loop goes on to the next byte, or the call returns with the rest as `resume`.
pub data Fed : Type 0 where
  continues : RxParser → Fed
  returns : RxParser → RxContext → Fed

abbrev pub accept_frame : RxContext → List ℕ → Header → RxContext
accept_frame ctx raw h = record ctx {
  event = frame;
  header = h;
  payload =
      take
        (if ltb max_payload (length raw - header_bytes - 4)
          then max_payload
          else length raw - header_bytes - 4)
        (drop header_bytes raw);
  crc_ok = crc32c (take (length raw - 4) raw) == get32 raw (length raw - 4);
}

-- The context after the record `raw` of a finished run.
unfoldable pub close_context : RxContext → List ℕ → RxContext
close_context ctx raw =
    let (h, good) = header_parse raw in
    if leb (header_bytes + 4) (length raw) && leb (length raw) max_frame_raw
    then if good then accept_frame ctx raw h else record ctx { event = garbage; header = h }
    else record ctx { event = garbage }

abbrev pub has_run : RxParser → Bool
has_run p = is_in_frame p.state && ltb 0 (length p.run)

-- `b == 0x00` outside the discard state.
pub feed_delimiter : RxParser → RxContext → ℕ → Fed
unfolding close_context
feed_delimiter p ctx now =
    if has_run p
    then returns (rx_reset now) (close_context ctx (decode_in_place p.run))
    else continues (rx_reset now)

-- Any other byte outside the discard state.
abbrev pub opened : RxParser → ℕ → RxParser
opened p now = elim p.state [
  | idle ↦ record { state = in_frame; run = []; frame_start_ms = now }
  | _ ↦ p
]

pub feed_data : RxParser → RxContext → ℕ → ℕ → Fed
feed_data p ctx b now =
    let q = opened p now in
    if leb recv_max (length q.run)
    then returns (record q { state = discard }) (record ctx { event = overflow })
    else continues (record q { run = q.run ++ b ∷ [] })

-- One round of the loop of `rbp_rxparser_feed`.
pub feed_byte : RxParser → RxContext → ℕ → ℕ → Fed
unfolding feed_delimiter feed_data
feed_byte p ctx b now = elim p.state [
  | discard ↦ continues (if b == 0 then rx_reset now else p)
  | _ ↦ if b == 0 then feed_delimiter p ctx now else feed_data p ctx b now
]

-- Behind the loop: a half frame that is too old.
pub feed_end : RxParser → RxContext → ℕ → RxParser × RxContext
feed_end p ctx now =
    if is_in_frame p.state && ltb 1000 (elapsed now p.frame_start_ms)
    then (record p { state = discard; run = [] }, record ctx { event = timeout })
    else (p, ctx)

pub feed_loop : RxParser → RxContext → List ℕ → ℕ → RxParser × RxContext
unfolding feed_byte feed_end
feed_loop p ctx [] now = feed_end p ctx now
feed_loop p ctx (b ∷ bs) now = elim (feed_byte p ctx b now) [
  | continues q ↦ feed_loop q ctx bs now
  | returns q c ↦ (q, record c { resume = bs })
]

-- `rbp_rxparser_feed`
pub rxparser_feed : RxParser → List ℕ → ℕ → RxContext → RxParser × RxContext
unfolding feed_loop
rxparser_feed p bytes now ctx =
    let c = record ctx { event = no_event; resume = [] } in
    if is_in_frame p.state && leb 1000 (elapsed now p.frame_start_ms)
    then (record p { state = discard; run = [] }, record c { event = timeout; resume = bytes })
    else feed_loop p c bytes now

-- What `rbp_rx_drain` leaves behind: the parser, the context, the contexts that `on_event` was
-- called with, in order, and whether the loop ended before the fuel did.
pub record Drained : Type 0 where
  pub parser : RxParser
  pub context : RxContext
  pub events : List RxContext
  pub ended : Bool

abbrev pub is_no_event : RxEvent → Bool
is_no_event no_event = true
is_no_event _ = false

-- `rbp_rx_drain`: every round feeds what the last one left.
pub drain_loop : ℕ → RxParser → List ℕ → ℕ → RxContext → Drained
drain_loop fuel p [] now ctx = record { parser = p; context = ctx; events = []; ended = true }
drain_loop zero p (b ∷ bs) now ctx = record {
  parser = p;
  context = ctx;
  events = [];
  ended = false;
}
drain_loop (suc fuel) p (b ∷ bs) now ctx =
    let (q, c) = rxparser_feed p (b ∷ bs) now ctx in
    let rest = drain_loop fuel q c.resume now c in
    if is_no_event c.event || leb (2 ^ 64 - 1) (length c.resume)
    then record { parser = q; context = c; events = c ∷ []; ended = true }
    else record rest { events = c ∷ rest.events }

-- Every round but one that reports a timeout takes a byte, and two timeouts never follow one
-- another.
abbrev pub drain_fuel : List ℕ → ℕ
drain_fuel bytes = length bytes + 1

pub rx_drain : RxParser → List ℕ → ℕ → RxContext → Drained
unfolding drain_loop
rx_drain p bytes now ctx = drain_loop (drain_fuel bytes) p bytes now ctx
