-- ===== src/Server/Flush/Takes.antt =====
-- A round of `rbp_server_flush_output` of firmware/product/rbp_server.c that succeeds takes one entry.
use mi_remote_usb_bridge.Base.{
  ℕ, ◌+◌, ◌-◌, ◌%◌, ◌<◌, ◌≡◌, refl, sym, ap, ◌∙◌, arith, inl, inr, Bool, true, false, not, ◌||◌,
  ltb, ◌==◌, Option, none, some, if◌then◌else◌, take, drop, set, map, Bool-cases, ==→ne, or_cases,
}
use mi_remote_usb_bridge.Server.Codes
use mi_remote_usb_bridge.Server.Control.{
  moved, ctl_remove, ctl_send, ctl_pop, ctl_peek_order, find_order, slot_header, no_header,
}
use mi_remote_usb_bridge.Server.Flush.{Turn, no_turn, ctl_turn, key_turn, media_turn, take_turn}
use mi_remote_usb_bridge.Server.KeyQueue.{key_front, keys_flush_one}
use mi_remote_usb_bridge.Server.Media.{
  marker_at, delivered, media_taken, media_header, media_flush_one,
}
use mi_remote_usb_bridge.Server.Output.{out_try_frame}
use mi_remote_usb_bridge.Server.Ring.{out_ring_size, audio_read}
use mi_remote_usb_bridge.Server.State.{Server, Env, Keys, Media, MediaMarker, Stream, CtlSlot}
use mi_remote_usb_bridge.Wire.Header.{Header}
use mi_remote_usb_bridge.Server.Flush.Waiting.{
  used_count, waiting, SameQueues, out_try_frame-SameQueues, used_count-map, Found,
  find_order-Found,
}

-- A turn that succeeds takes one entry.
abbrev pub Takes : Server → Server × Bool → Type 0
Takes s (t, true) = waiting t < waiting s
Takes s (t, false) = Unit

ctl_remove-waiting :
    (s t : Server) (i : ℕ) (slot : CtlSlot)
    → SameQueues s t
    → Found s.ctl 0 (some (i, slot))
    → waiting (ctl_remove t i slot) < waiting s
unfolding ctl_remove
ctl_remove-waiting s t i slot same (low, h) =
    let gone = record slot { used = false } in
    let at : i - 0 ≡ i = omega arith in
    let freed : used_count (set s.ctl i gone) + 1 ≡ used_count s.ctl =
      ap (λ m. used_count (set s.ctl m gone) + 1) (sym at) ∙ h gone refl in
    let down : used_count (map (moved slot.offset slot.len) (set t.ctl i gone))
        ≡ used_count (set s.ctl i gone) =
      used_count-map slot.offset slot.len (set t.ctl i gone)
      ∙ ap (λ l. used_count (set l i gone)) same.ctl in
    let k : t.keys.count ≡ s.keys.count = ap (λ (x : Keys). x.count) same.keys in
    let m : t.media.count ≡ s.media.count = ap (λ (x : Media). x.count) same.media in
    omega (arith, freed, down, k, m)

-- A result that depends on whether a frame was sent.
when_sent :
    (p : Server × Bool) (s u : Server)
    → (p.1 ≡ true → waiting u < waiting s)
    → Takes s (if p.1 then (u, true) else (p.0, false))
when_sent (t, true) s u h = h refl
when_sent (t, false) s u h = tt

ctl_send-Takes :
    (e : Env) (s : Server) (i : ℕ) (slot : CtlSlot)
    → Found s.ctl 0 (some (i, slot))
    → Takes s (ctl_send e s i slot)
unfolding ctl_send
ctl_send-Takes e s i slot found =
    let payload = take slot.len (drop slot.offset s.ctl_payload) in
    let p = out_try_frame e s (slot_header slot) payload in
    when_sent p s (ctl_remove p.0 i slot) (λ sent.
      ctl_remove-waiting s p.0 i slot (out_try_frame-SameQueues e s (slot_header slot) payload sent)
        found)

Found-Takes :
    (e : Env) (s : Server) (found : Option (ℕ × CtlSlot))
    → Found s.ctl 0 found
    → Takes s (elim found [ none ↦ (s, false) | some (i, slot) ↦ ctl_send e s i slot ])
Found-Takes e s none h = tt
Found-Takes e s (some (i, slot)) h = ctl_send-Takes e s i slot h

ctl_pop-Takes : (e : Env) (s : Server) → Takes s (ctl_pop e s)
unfolding ctl_pop
ctl_pop-Takes e s = ordered (ctl_peek_order s)
  where
    ordered :
        (order : Option ℕ)
        → Takes s (elim order [
          | none ↦ (s, false)
          | some o ↦ elim (find_order o 0 s.ctl) [
            | none ↦ (s, false)
            | some (i, slot) ↦ ctl_send e s i slot
          ]
        ])
    ordered none = tt
    ordered (some o) = Found-Takes e s (find_order o 0 s.ctl) (find_order-Found o 0 s.ctl)

key_taken :
    (s t : Server) (keys : Keys)
    → SameQueues s t
    → (s.keys.count == 0) ≡ false
    → keys.count ≡ t.keys.count - 1
    → waiting (record t { keys = keys }) < waiting s
key_taken s t keys same some_left e =
    let left = ==→ne s.keys.count 0 some_left in
    let c : used_count t.ctl ≡ used_count s.ctl = ap used_count same.ctl in
    let k : t.keys.count ≡ s.keys.count = ap (λ (x : Keys). x.count) same.keys in
    let m : t.media.count ≡ s.media.count = ap (λ (x : Media). x.count) same.media in
    ground (arith, left, c, k, m, e)

keys_flush_one-Takes : (e : Env) (s : Server) → Takes s (keys_flush_one e s)
unfolding keys_flush_one
keys_flush_one-Takes e s = elim (Bool-cases (s.keys.count == 0)) [
  | inl z ↦ rw z tt
  | inr z ↦
      let it = key_front s in
      let h : Header = record no_header {
        kind = Codes.kind_event;
        session_id = s.session.id;
        opcode = Codes.op_keys_state_ev;
        connection_id = it.connection;
      } in
      let p = out_try_frame e s h it.buf in
      let taken = record p.0.keys {
        q = set p.0.keys.q p.0.keys.head (record it { used = false });
        head = (p.0.keys.head + 1) % Codes.key_queue_depth;
        count = p.0.keys.count - 1;
      } in
      rw z (
        when_sent p s (record p.0 { keys = taken })
          (λ sent. key_taken s p.0 taken (out_try_frame-SameQueues e s h it.buf sent) z refl))
]

marker_taken :
    (s t : Server) (m : MediaMarker) (stream : Stream)
    → SameQueues s t
    → (s.media.count == 0) ≡ false
    → waiting (media_taken (record t { stream = stream }) m) < waiting s
marker_taken s t m stream same some_left =
    let left = ==→ne s.media.count 0 some_left in
    let c : used_count t.ctl ≡ used_count s.ctl = ap used_count same.ctl in
    let k : t.keys.count ≡ s.keys.count = ap (λ (x : Keys). x.count) same.keys in
    let n : t.media.count ≡ s.media.count = ap (λ (x : Media). x.count) same.media in
    ground (arith, left, c, k, n)

media_flush_one-Takes : (e : Env) (s : Server) → Takes s (media_flush_one e s)
unfolding media_flush_one
media_flush_one-Takes e s =
    let m = marker_at s.media.q s.media.head 0 in
    elim (Bool-cases (not s.session.active || (s.media.count == 0))) [
      | inl z ↦ rw z tt
      | inr z ↦ elim (Bool-cases (ltb (out_ring_size - s.out.len) (32 + m.len + 6))) [
        | inl y ↦ rw (z, y) tt
        | inr y ↦
            let payload = audio_read s.media.pool 0 m.len in
            let p = out_try_frame e s (media_header s m) payload in
            let u = record p.0 { stream = delivered p.0.stream m payload } in
            rw (z, y)
              (when_sent p s (media_taken u m) (λ sent.
                marker_taken s p.0 m (delivered p.0.stream m payload)
                  (out_try_frame-SameQueues e s (media_header s m) payload sent)
                  (or_cases (not s.session.active) (s.media.count == 0) z).1))
      ]
    ]

pub take_turn-Takes :
    (e : Env) (turn : Turn) (s : Server) (ctl_sent : ℕ)
    → let r = take_turn e turn s ctl_sent in Takes s (r.0, r.1)
unfolding take_turn
take_turn-Takes e no_turn s ctl_sent = tt
take_turn-Takes e ctl_turn s ctl_sent = ctl_pop-Takes e s
take_turn-Takes e key_turn s ctl_sent = keys_flush_one-Takes e s
take_turn-Takes e media_turn s ctl_sent = media_flush_one-Takes e s
