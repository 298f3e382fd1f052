-- ===== src/Server/KeyQueue.antt =====
-- The key queue: `key_push` to `keys_flush_one` of firmware/product/rbp_server.c.
pub mod Order
use mi_remote_usb_bridge.Base.{
  ℕ, ◌+◌, ◌-◌, ◌%◌, List, [], ◌∷◌, ◌++◌, Bool, true, false, leb, ◌==◌, if◌then◌else◌, get_or, set,
}
use mi_remote_usb_bridge.Server.Codes
use mi_remote_usb_bridge.Server.Output.{next_order, up, out_try_frame}
use mi_remote_usb_bridge.Server.State.{Server, Env, KeyItem, KeysReport}
use mi_remote_usb_bridge.Tlv.Writer.{bytes_from}
use mi_remote_usb_bridge.Server.Control.{no_header}

-- The 24 bytes of a key report.
abbrev pub keys_struct : ℕ → ℕ → ℕ → ℕ → ℕ → List ℕ
keys_struct input_seq captured_us bits kind reason =
    bytes_from 0 4 input_seq
    ++ (bytes_from 0 8 captured_us ++ (bytes_from 0 8 bits ++ (kind ∷ reason ∷ 0 ∷ 0 ∷ [])))

-- The entry of a report, in a state whose counter has moved on.
abbrev pub key_item : Server → ℕ → ℕ → ℕ → ℕ → KeyItem
key_item s kind reason bits captured_us = record {
  used = true;
  buf = keys_struct s.keys.input_seq captured_us bits kind reason;
  order = s.order_counter;
  connection = s.device.connection_id;
}

-- `key_push`
unfoldable pub key_push : Server → ℕ → ℕ → ℕ → ℕ → Server × Bool
key_push s kind reason bits captured_us =
    let idx = (s.keys.head + s.keys.count) % Codes.key_queue_depth in
    let t = next_order s in
    let item = key_item t kind reason bits captured_us in
    if leb Codes.key_queue_depth s.keys.count then (s, false) else (
      record t { keys = record s.keys { q = set s.keys.q idx item; count = s.keys.count + 1 } },
      true,
    )

-- `s->input_seq++;`
abbrev pub next_input : Server → Server
next_input s = record s { keys = record s.keys { input_seq = up s.keys.input_seq } }

-- The recovery from an overflow of the key queue.
unfoldable pub keys_overflow : Server → ℕ → Server
unfolding key_push
keys_overflow s captured_us =
    let cleared = record s {
      keys = record s.keys { head = 0; count = 0 };
      stats = record s.stats { input_resets = up s.stats.input_resets };
    } in
    let (reset, _) =
      key_push (next_input cleared) Codes.keys_kind_reset Codes.keys_reason_overflow 0
        captured_us in
    (key_push (next_input reset) Codes.keys_kind_snapshot Codes.keys_reason_none s.keys.pressed_bits
      captured_us).0

-- `keys_emit`
unfoldable pub keys_emit : Server → ℕ → ℕ → ℕ → ℕ → Server
unfolding key_push keys_overflow
keys_emit s kind reason bits captured_us =
    let (t, pushed) = key_push s kind reason bits captured_us in
    if s.keys.events_enabled then if pushed then t else keys_overflow s captured_us else s

-- `rbp_server_on_keys` on each kind of report.
unfoldable pub on_keys_physical : Server → KeysReport → Server
unfolding keys_emit
on_keys_physical s rep =
    keys_emit
      (record s {
        keys = record s.keys {
          pressed_bits = rep.pressed_bits;
          input_seq = up s.keys.input_seq;
          captured_us = rep.captured_us;
        };
      })
      Codes.keys_kind_physical rep.reason rep.pressed_bits rep.captured_us

unfoldable pub on_keys_reset : Server → KeysReport → Server
unfolding keys_emit
on_keys_reset s rep =
    let counted = record s {
      keys = record s.keys { input_seq = up s.keys.input_seq; captured_us = rep.captured_us };
    } in
    let t = keys_emit counted Codes.keys_kind_reset rep.reason 0 rep.captured_us in
    let pressed = record t {
      keys = record t.keys { pressed_bits = rep.pressed_bits; input_seq = up t.keys.input_seq };
    } in
    if rep.pressed_bits == 0
    then record t { keys = record t.keys { pressed_bits = 0 } }
    else keys_emit pressed Codes.keys_kind_snapshot Codes.keys_reason_none rep.pressed_bits
        rep.captured_us

unfoldable pub on_keys_snapshot : Server → KeysReport → Server
unfolding keys_emit
on_keys_snapshot s rep =
    keys_emit
      (record s {
        keys = record s.keys { pressed_bits = rep.pressed_bits; captured_us = rep.captured_us };
      })
      Codes.keys_kind_snapshot Codes.keys_reason_none rep.pressed_bits rep.captured_us

-- `rbp_server_on_keys`
unfoldable pub on_keys : KeysReport → Server → Server
unfolding on_keys_physical on_keys_reset on_keys_snapshot
on_keys rep s =
    if rep.kind == Codes.keys_kind_physical
    then on_keys_physical s rep
    else if rep.kind == Codes.keys_kind_reset
    then on_keys_reset s rep
    else if rep.kind == Codes.keys_kind_snapshot
    then on_keys_snapshot s rep
    else s

abbrev pub no_item : KeyItem
no_item = record { used = false; buf = []; order = 0; connection = 0 }

-- `s->key_q[s->key_q_head]`
abbrev pub key_front : Server → KeyItem
key_front s = get_or s.keys.q s.keys.head no_item

-- `keys_flush_one`
unfoldable pub keys_flush_one : Env → Server → Server × Bool
unfolding out_try_frame
keys_flush_one e s =
    let it = key_front s in
    let h = record no_header {
      kind = Codes.kind_event;
      session_id = s.session.id;
      opcode = Codes.op_keys_state_ev;
      connection_id = it.connection;
    } in
    let (t, sent) = out_try_frame e s h it.buf in
    let taken = record t.keys {
      q = set t.keys.q t.keys.head (record it { used = false });
      head = (t.keys.head + 1) % Codes.key_queue_depth;
      count = t.keys.count - 1;
    } in
    if s.keys.count == 0
    then (s, false)
    else if sent
    then (record t { keys = taken }, true)
    else (t, false)
