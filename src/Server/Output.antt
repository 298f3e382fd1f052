-- ===== src/Server/Output.antt =====
-- The clock, the sessions and the output ring: `next_order` to `out_drain` of
-- firmware/product/rbp_server.c.
pub mod Drain
pub mod Teardown
pub mod Append
pub mod Delivery
use mi_remote_usb_bridge.Base.{
  ℕ, zero, suc, ◌+◌, ◌-◌, ◌*◌, ◌%◌, ◌^◌, List, [], ◌∷◌, ◌++◌, Bool, true, false, not, ◌&&◌, ◌||◌,
  ltb, ◌==◌, if◌then◌else◌, Option, none, some, length, take, drop, get_or, map,
}
use mi_remote_usb_bridge.Server.Ring.{Ring, out_ring_size, copy_into, at_most, ring_write}
use mi_remote_usb_bridge.Server.State.{
  Server, Env, CtlSlot, Session, pair_cancel, stop_find, voice_request_stop, opk_pair,
  voice_stop_ms,
}
use mi_remote_usb_bridge.Tlv.Writer.{c_string}
use mi_remote_usb_bridge.Wire.Frame.{txseq_init, frame_encode}
use mi_remote_usb_bridge.Wire.Header.{Header}

-- `(uint32_t)(a - b)` and `(int32_t)(now - deadline) >= 0`
abbrev pub since : ℕ → ℕ → ℕ
since a b = (a + 2 ^ 32 - b) % 2 ^ 32

abbrev pub reached : ℕ → ℕ → Bool
reached now deadline = ltb (since now deadline) (2 ^ 31)

-- `t + ms` on `uint32_t`
abbrev pub later : ℕ → ℕ → ℕ
later t ms = (t + ms) % 2 ^ 32

-- `x++` on `uint32_t`
abbrev pub up : ℕ → ℕ
up n = (n + 1) % 2 ^ 32

-- `next_order`, whose result is the counter after it.
abbrev pub next_order : Server → Server
next_order s = record s { order_counter = up s.order_counter }

-- `now_us64`
abbrev pub now_us64 : Server → ℕ
now_us64 s = s.now_ms * 1000 % 2 ^ 64

-- `rng_u32`
unfoldable pub rng_u32 : Env → Server → ℕ
rng_u32 e s = let v : ℕ = elim e.rng [ none ↦ 0 | some rng ↦ rng s ] in if v == 0 then 1 else v

-- `copy_name` into an array of `cap` characters.
unfoldable pub copy_name : List ℕ → ℕ → Option (List ℕ) → List ℕ
copy_name dst cap none = copy_into dst 0 (0 ∷ [])
copy_name dst cap (some src) = copy_into dst 0 (take (cap - 1) (c_string src) ++ 0 ∷ [])

-- `s->stat_protocol_errors++;`
abbrev pub protocol_error : Server → Server
protocol_error s = record s {
  stats = record s.stats { protocol_errors = up s.stats.protocol_errors };
}

-- `session_stop_delivery`
unfoldable pub session_stop_delivery : Server → Server
session_stop_delivery s = record s {
  stream = record s.stream { delivering = false; ending = false; id = 0 };
  media = record s.media { head = 0; count = 0; pool = record s.media.pool { head = 0; len = 0 } };
  voice = record s.voice {
    accepted_len = 0;
    accepted_max_unit = 0;
    resume_peer = 0;
    enabled = false;
    denied = false;
    waiting_idle = false;
  };
  deferred = record s.deferred { pending = false };
  keys = record s.keys { head = 0; count = 0; events_enabled = false };
  source = record s.source { stop_requested = false };
}

-- `request_pair_cancel`
unfoldable pub request_pair_cancel : Env → Server → Server
request_pair_cancel e s =
    if s.prompt.pair_cancel_requested
    then s
    else e.react pair_cancel
        (record s { prompt = record s.prompt { pair_cancel_requested = true; active = false } })

-- `ctl_clear`
abbrev pub unused : CtlSlot → CtlSlot
unused slot = record slot { used = false }

unfoldable pub ctl_clear : Server → Server
ctl_clear s = record s { ctl = map unused s.ctl; ctl_used = 0 }

-- `out_len` after the loop of `session_teardown`, from position `i` on for `n` rounds.
unfoldable pub first_frame_end : Ring → ℕ → ℕ → ℕ
first_frame_end r i zero = i
first_frame_end r i (suc n) =
    let rest = first_frame_end r (i + 1) n in
    if get_or r.buf ((r.head + i) % out_ring_size) 0 == 0 then i + 1 else rest

-- The tests at the top of `session_teardown`.
abbrev pub cancels_pair : Server → Bool
cancels_pair s = (s.ops.active && (s.ops.kind == opk_pair)) || s.prompt.active

abbrev pub stops_source : Server → Bool
stops_source s = (s.source.active || s.voice.enabled) && not s.source.stop_requested

-- The state that `session_teardown` withdraws before its first backend call.
unfoldable pub teardown_state : Server → Server
unfolding session_stop_delivery ctl_clear first_frame_end
teardown_state s =
    let closed = session_stop_delivery (
      ctl_clear (record s {
        ops = record s.ops { active = if s.ops.kind == opk_pair then false else s.ops.active };
        prompt = record s.prompt { active = false };
        find = record s.find { active = false };
        session = record s.session { active = false; id = 0 };
        out = record s.out { len = first_frame_end s.out 0 s.out.len };
      })) in
    let deadline =
      if s.source.stop_requested then s.source.stop_deadline_ms else later s.now_ms voice_stop_ms in
    let source = record closed.source {
      stop_requested = s.source.active;
      stop_deadline_ms = if s.source.active then deadline else s.source.stop_deadline_ms;
    } in
    record closed { source = source; ops = record closed.ops { done_head = 0; done_count = 0 } }

-- `session_teardown`
unfoldable pub session_teardown : Env → Server → Server
unfolding teardown_state request_pair_cancel
session_teardown e s =
    let t = teardown_state s in
    let cancelled = if cancels_pair s then request_pair_cancel e t else t in
    let stopped = if s.find.active then e.react stop_find cancelled else cancelled in
    if stops_source s then e.react voice_request_stop stopped else stopped

-- The session that `session_create` opens.
abbrev pub opened : Session → ℕ → Session
opened session now = record session {
  active = true;
  id = session.counter + 1;
  counter = session.counter + 1;
  txseq = txseq_init;
  req_hwm = 0;
  have_client_seq = false;
  client_tx_hwm = 0;
  last_req_ms = now;
}

-- `session_create`
unfoldable pub session_create : Env → Server → Server
unfolding session_teardown
session_create e s =
    let t = session_teardown e s in
    if t.session.counter == 2 ^ 32 - 1
    then record t { session = record t.session { active = false } }
    else record t { session = opened t.session t.now_ms }

-- `out_try_frame`
unfoldable pub out_try_frame : Env → Server → Header → List ℕ → Server × Bool
unfolding session_teardown ring_write
out_try_frame e s h payload =
    let seq = s.session.txseq.next_tx_seq in
    let (frame, next) = frame_encode h s.session.txseq (some payload) (length payload) in
    if (seq == 0) || (seq == 2 ^ 32 - 1)
    then (session_teardown e s, false)
    else if ltb (out_ring_size - s.out.len) (32 + length payload + 6)
    then (s, false)
    else if length frame == 0
    then (s, false)
    else if ltb (out_ring_size - s.out.len) (length frame)
    then (s, false)
    else (
      record s {
        out = (ring_write out_ring_size s.out frame).0;
        session = record s.session { txseq = next };
      },
      true,
    )

-- What `out_drain` offers next: `chunk` bytes from `out_head` on.
abbrev pub chunk_size : Ring → ℕ
chunk_size r = at_most (out_ring_size - r.head) (if ltb 64 r.len then 64 else r.len)

abbrev pub chunk : Ring → List ℕ
chunk r = take (chunk_size r) (drop r.head r.buf)

-- The state after `sent` bytes of it were accepted.
abbrev pub sent_state : Server → ℕ → Server
sent_state s sent = record s {
  out = record s.out { head = (s.out.head + sent) % out_ring_size; len = s.out.len - sent };
  wire = s.wire ++ take sent (chunk s.out);
}

-- The loop of `out_drain`: the state after it, and whether it ended by itself.
unfoldable pub drain_loop : ℕ → Env → Server → Server × Bool
drain_loop zero e s = (s, false)
drain_loop (suc fuel) e s =
    let sent = e.out s (chunk s.out) in
    let rest = drain_loop fuel e (sent_state s sent) in
    if s.out.len == 0
    then (s, true)
    else if sent == 0
    then (s, true)
    else if ltb sent (chunk_size s.out)
    then (sent_state s sent, true)
    else rest

-- `out_drain`: every round but the last takes a byte from the ring.
unfoldable pub out_drain : Env → Server → Server
unfolding drain_loop
out_drain e s = (drain_loop (suc s.out.len) e s).0
