-- ===== src/Server/KeyQueue/Order.antt =====
-- The key queue of firmware/product/rbp_server.c keeps reports in order and recovers from an
-- overflow.
use mi_remote_usb_bridge.Base.{
  ℕ, ◌+◌, ◌%◌, ◌≤◌, ◌<◌, ◌≡◌, refl, sym, ◌∙◌, arith, List, [], ◌∷◌, ◌++◌, Bool, true, false, leb,
  ltb, if◌then◌else◌, length, length-set, set, get_or-set_same, get_or-set_other, ltb→lt, ltb→ge,
}
use mathlib.Core.Bool.{true≢false}
use mathlib.Core.Path.{ap₂}
use mi_remote_usb_bridge.Server.Codes
use mi_remote_usb_bridge.Server.KeyQueue.{
  key_item, key_push, next_input, keys_overflow, keys_emit, no_item,
}
use mi_remote_usb_bridge.Server.Output.{next_order}
use mi_remote_usb_bridge.Server.Slots.{entries, entries-push}
use mi_remote_usb_bridge.Server.State.{Server, Keys, KeyItem}

abbrev pub key_at : ℕ → ℕ → ℕ
key_at head i = (head + i) % Codes.key_queue_depth

-- The reports that wait, oldest first.
unfoldable pub pending_keys : Server → List KeyItem
pending_keys s = entries no_item (key_at s.keys.head) s.keys.q 0 s.keys.count

-- The variables of the queue are in range.
pub record IsKeys (k : Keys) : Type 0 where
  pub size : length k.q ≡ Codes.key_queue_depth
  pub head_bound : k.head < Codes.key_queue_depth
  pub count_bound : k.count ≤ Codes.key_queue_depth

-- A report that finds room.
key_push-pending :
    (s : Server) (kind reason bits captured_us : ℕ)
    → IsKeys s.keys
    → s.keys.count < Codes.key_queue_depth
    → let t = (key_push s kind reason bits captured_us).0 in
      (pending_keys t ≡ pending_keys s ++ key_item (next_order s) kind reason bits captured_us ∷ [])
      × IsKeys t.keys
      × (t.keys.pressed_bits ≡ s.keys.pressed_bits)
      × ((key_push s kind reason bits captured_us).1 ≡ true)
unfolding key_push pending_keys
key_push-pending s kind reason bits captured_us w room =
    let hb = w.head_bound in
    let e : leb Codes.key_queue_depth s.keys.count ≡ false = ground (arith, room) in
    let idx = key_at s.keys.head s.keys.count in
    let item = key_item (next_order s) kind reason bits captured_us in
    rw e (
      entries-push no_item (key_at s.keys.head) s.keys.q s.keys.count item (omega (arith, w.size))
          (λ j inside same. omega (arith, hb, room, inside, same)),
      record {
        size = length-set s.keys.q idx item ∙ w.size;
        head_bound = hb;
        count_bound = omega (arith, room);
      },
      refl,
      refl,
    )

key_push_full :
    (s : Server) (kind reason bits captured_us : ℕ)
    → Codes.key_queue_depth ≤ s.keys.count
    → (key_push s kind reason bits captured_us).1 ≡ false
unfolding key_push
key_push_full s kind reason bits captured_us h =
    let e : leb Codes.key_queue_depth s.keys.count ≡ true = ground (arith, h) in rw e refl

-- The queue after the recovery: a reset, and the keys that are down.
abbrev pub recovery : Server → ℕ → List KeyItem
recovery s captured_us =
    let first = next_order (next_input s) in
    let second = next_order (next_input first) in
    key_item first Codes.keys_kind_reset Codes.keys_reason_overflow 0 captured_us
    ∷ key_item second Codes.keys_kind_snapshot Codes.keys_reason_none s.keys.pressed_bits
        captured_us
    ∷ []

-- Two entries written into an empty queue.
two_entries :
    (q : List KeyItem) (a b : KeyItem)
    → 1 < length q
    → entries no_item (key_at 0) (set (set q 0 a) 1 b) 0 2 ≡ a ∷ b ∷ []
two_entries q a b h =
    let l : 1 < length (set q 0 a) = omega (arith, h, length-set q 0 a) in
    ap₂ (λ x y. x ∷ y ∷ [])
      (get_or-set_other (set q 0 a) 1 0 b no_item (λ e. omega (arith, e))
        ∙ get_or-set_same q 0 a no_item (omega (arith, h)))
      (get_or-set_same (set q 0 a) 1 b no_item l)

keys_overflow-recovery :
    (s : Server) (captured_us : ℕ)
    → IsKeys s.keys
    → let t = keys_overflow s captured_us in
      (pending_keys t ≡ recovery s captured_us)
      × IsKeys t.keys
      × (t.keys.pressed_bits ≡ s.keys.pressed_bits)
unfolding keys_overflow pending_keys
keys_overflow-recovery s captured_us w =
    let first = next_order (next_input s) in
    let a = key_item first Codes.keys_kind_reset Codes.keys_reason_overflow 0 captured_us in
    let b =
      key_item (next_order (next_input first)) Codes.keys_kind_snapshot Codes.keys_reason_none
        s.keys.pressed_bits captured_us in
    (
      two_entries s.keys.q a b (omega (arith, w.size)),
      record {
        size = length-set (set s.keys.q 0 a) 1 b ∙ length-set s.keys.q 0 a ∙ w.size;
        head_bound = omega arith;
        count_bound = omega arith;
      },
      refl,
    )

-- The choice that `keys_emit` makes, over what it chooses from.
emitted :
    (enabled room : Bool) (p : Server × Bool) (over s : Server) (grown recovered : List KeyItem)
    → (room ≡ true
        → (pending_keys p.0 ≡ grown)
          × IsKeys p.0.keys
          × (p.0.keys.pressed_bits ≡ s.keys.pressed_bits)
          × (p.1 ≡ true))
    → (room ≡ false → p.1 ≡ false)
    → (pending_keys over ≡ recovered)
      × IsKeys over.keys
      × (over.keys.pressed_bits ≡ s.keys.pressed_bits)
    → let t = if enabled then if p.1 then p.0 else over else s in
      if enabled
      then (pending_keys t ≡ (if room then grown else recovered))
        × IsKeys t.keys
        × (t.keys.pressed_bits ≡ s.keys.pressed_bits)
      else (t ≡ s)
emitted false room p over s grown recovered h k o = refl
emitted true true (t, true) over s grown recovered h k o = let r = h refl in (r.0, r.1, r.2)
emitted true true (t, false) over s grown recovered h k o = absurd (true≢false (sym (h refl).3))
emitted true false (t, true) over s grown recovered h k o = absurd (true≢false (k refl))
emitted true false (t, false) over s grown recovered h k o = o

-- `keys_emit` on a queue in range. While events are enabled a report joins the end of the queue, and
-- one that finds the queue full is replaced, with all that waits, by a reset and a snapshot of the
-- keys that are down; the queue stays in range, and the keys that are down stay the same. While
-- events are disabled the server stays as it was.
pub keys_emit-pending :
    (s : Server) (kind reason bits captured_us : ℕ)
    → IsKeys s.keys
    → let t = keys_emit s kind reason bits captured_us in
      if s.keys.events_enabled
      then (pending_keys t ≡ (
          if ltb s.keys.count Codes.key_queue_depth
          then pending_keys s ++ key_item (next_order s) kind reason bits captured_us ∷ []
          else recovery s captured_us))
        × IsKeys t.keys
        × (t.keys.pressed_bits ≡ s.keys.pressed_bits)
      else (t ≡ s)
unfolding keys_emit
keys_emit-pending s kind reason bits captured_us w =
    emitted s.keys.events_enabled (ltb s.keys.count Codes.key_queue_depth)
      (key_push s kind reason bits captured_us) (keys_overflow s captured_us) s
      (pending_keys s ++ key_item (next_order s) kind reason bits captured_us ∷ [])
      (recovery s captured_us)
      (λ e.
        key_push-pending s kind reason bits captured_us w
          (ltb→lt s.keys.count Codes.key_queue_depth e))
      (λ e.
        key_push_full s kind reason bits captured_us (ltb→ge s.keys.count Codes.key_queue_depth e))
      (keys_overflow-recovery s captured_us w)
