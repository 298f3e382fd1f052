-- ===== src/Server/Control.antt =====
-- The control queue: `ctl_peek_order` to `ctl_clear` and `ctl_enqueue` of
-- firmware/product/rbp_server.c.
pub mod Layout
pub mod Remove
pub mod Fill
use mi_remote_usb_bridge.Base.{
  ℕ, ◌+◌, ◌-◌, List, [], ◌∷◌, Bool, true, false, ◌&&◌, ◌||◌, ltb, leb, ◌==◌, if◌then◌else◌, Option,
  none, some, length, take, drop, set, map,
}
use mi_remote_usb_bridge.Server.Codes
use mi_remote_usb_bridge.Server.Output.{next_order, protocol_error, session_teardown, out_try_frame}
use mi_remote_usb_bridge.Server.Ring.{copy_into}
use mi_remote_usb_bridge.Server.State.{Server, Env, CtlSlot, ctl_bytes}
use mi_remote_usb_bridge.Tlv.Writer.{Writer}
use mi_remote_usb_bridge.Wire.Frame.{max_payload}
use mi_remote_usb_bridge.Wire.Header.{Header}

-- `memset(&h, 0, sizeof(h))`
abbrev pub no_header : Header
no_header = record {
  magic0 = 0;
  magic1 = 0;
  major = 0;
  minor = 0;
  kind = 0;
  flags = 0;
  header_size = 0;
  session_id = 0;
  tx_seq = 0;
  request_id = 0;
  opcode = 0;
  status = 0;
  payload_size = 0;
  reserved = 0;
  connection_id = 0;
}

-- The loop of `ctl_peek_order`: the least order of a slot in use.
unfoldable pub best_order : Option ℕ → List CtlSlot → Option ℕ
best_order best [] = best
best_order none (slot ∷ slots) = best_order (if slot.used then some slot.order else none) slots
best_order (some best) (slot ∷ slots) =
    best_order (some (if slot.used && ltb slot.order best then slot.order else best)) slots

-- `ctl_peek_order`
unfoldable pub ctl_peek_order : Server → Option ℕ
unfolding best_order
ctl_peek_order s = best_order none s.ctl

-- The slot in use with that order, and its index from `i` on.
unfoldable pub find_order : ℕ → ℕ → List CtlSlot → Option (ℕ × CtlSlot)
find_order order i [] = none
find_order order i (slot ∷ slots) =
    let rest = find_order order (i + 1) slots in
    if slot.used && (slot.order == order) then some (i, slot) else rest

-- The frame header of a slot.
abbrev pub slot_header : CtlSlot → Header
slot_header slot = record no_header {
  kind = slot.kind;
  session_id = slot.session;
  opcode = slot.opcode;
  status = slot.status;
  request_id = slot.request_id;
  connection_id = slot.connection_id;
}

-- A slot behind the one that leaves moves its offset down.
abbrev pub moved : ℕ → ℕ → CtlSlot → CtlSlot
moved offset len slot =
    if slot.used && leb (offset + len) slot.offset
    then record slot { offset = slot.offset - len }
    else slot

-- What `ctl_pop` does once the frame of `slot`, at index `i`, is in the ring.
unfoldable pub ctl_remove : Server → ℕ → CtlSlot → Server
ctl_remove s i slot =
    let behind =
      take (s.ctl_used - slot.offset - slot.len) (drop (slot.offset + slot.len) s.ctl_payload) in
    record s {
      ctl = map (moved slot.offset slot.len) (set s.ctl i (record slot { used = false }));
      ctl_payload = copy_into s.ctl_payload slot.offset behind;
      ctl_used = s.ctl_used - slot.len;
    }

-- `ctl_pop` at a slot.
unfoldable pub ctl_send : Env → Server → ℕ → CtlSlot → Server × Bool
unfolding ctl_remove out_try_frame
ctl_send e s i slot =
    let (t, sent) =
      out_try_frame e s (slot_header slot) (take slot.len (drop slot.offset s.ctl_payload)) in
    if sent then (ctl_remove t i slot, true) else (t, false)

-- `ctl_pop`
unfoldable pub ctl_pop : Env → Server → Server × Bool
unfolding ctl_peek_order find_order ctl_send
ctl_pop e s = elim (ctl_peek_order s) [
  | none ↦ (s, false)
  | some order ↦ elim (find_order order 0 s.ctl) [
    | none ↦ (s, false)
    | some (i, slot) ↦ ctl_send e s i slot
  ]
]

-- The first slot that is not in use, from `i` on.
unfoldable pub free_slot : ℕ → List CtlSlot → Option ℕ
free_slot i [] = none
free_slot i (slot ∷ slots) =
    let rest = free_slot (i + 1) slots in if slot.used then rest else some i

-- What `ctl_enqueue` queues.
pub record Message : Type 0 where
  pub kind : ℕ
  pub opcode : ℕ
  pub status : ℕ
  pub request_id : ℕ
  pub connection_id : ℕ
  pub payload : List ℕ

-- The slot that `ctl_enqueue` fills, in a state whose counter has moved on.
abbrev pub filled : Server → Message → CtlSlot
filled s m = record {
  used = true;
  kind = m.kind;
  status = m.status;
  opcode = m.opcode;
  request_id = m.request_id;
  connection_id = m.connection_id;
  session = s.session.id;
  len = length m.payload;
  offset = s.ctl_used;
  order = s.order_counter;
}

unfoldable pub ctl_fill : Server → ℕ → Message → Server
ctl_fill s i m =
    let t = next_order s in
    record t {
      ctl = set t.ctl i (filled t m);
      ctl_payload = copy_into t.ctl_payload t.ctl_used m.payload;
      ctl_used = t.ctl_used + length m.payload;
    }

-- `ctl_enqueue`
unfoldable pub ctl_enqueue : Env → Message → Server → Server
unfolding free_slot ctl_fill session_teardown
ctl_enqueue e m s = elim (free_slot 0 s.ctl) [
  | none ↦ session_teardown e (protocol_error s)
  | some i ↦
      if ltb max_payload (length m.payload) || ltb (ctl_bytes - s.ctl_used) (length m.payload)
      then session_teardown e (protocol_error s)
      else ctl_fill s i m
]

-- An event, whose status and request id are 0, with what a writer holds.
abbrev pub event_message : ℕ → ℕ → Writer → Message
event_message opcode connection_id w = record {
  kind = Codes.kind_event;
  opcode = opcode;
  status = 0;
  request_id = 0;
  connection_id = connection_id;
  payload = w.buf;
}
