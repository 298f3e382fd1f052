-- ===== src/Server/Output/Teardown.antt =====
-- `session_teardown` of firmware/product/rbp_server.c, before its first call of the backend.
use mi_remote_usb_bridge.Base.{
  ℕ, zero, suc, ◌+◌, ◌-◌, ◌%◌, ◌≤◌, ◌≡◌, refl, ap, ◌∙◌, arith, inl, inr, List, [], ◌∷◌, false, ◌==◌,
  get_or, map, if◌then◌else◌, Bool-cases, All,
}
use mi_remote_usb_bridge.Server.Output.{first_frame_end, unused, teardown_state}
use mi_remote_usb_bridge.Server.Ring.{Ring, out_ring_size}
use mi_remote_usb_bridge.Server.Ring.Contents.{contents_from, contents, IsRing}
use mi_remote_usb_bridge.Server.State.{Server, CtlSlot}

-- The bytes up to the first delimiter and with it, all of them when there is none.
abbrev pub first_frame : List ℕ → List ℕ
first_frame [] = []
first_frame (b ∷ bs) = if b == 0 then b ∷ [] else b ∷ first_frame bs

first_frame_end_bounds :
    (r : Ring) (i n : ℕ) → (i ≤ first_frame_end r i n) × (first_frame_end r i n ≤ i + n)
unfolding first_frame_end
first_frame_end_bounds r i zero = (omega arith, omega arith)
first_frame_end_bounds r i (suc n) =
    let (low, high) = first_frame_end_bounds r (i + 1) n in
    elim (Bool-cases (get_or r.buf ((r.head + i) % out_ring_size) 0 == 0)) [
      | inl e ↦ rw e (omega arith, omega arith)
      | inr e ↦ rw e (omega (arith, low), omega (arith, high))
    ]

first_frame_end-first_frame :
    (r : Ring) (i n : ℕ)
    → contents_from r.buf r.head i (first_frame_end r i n - i)
      ≡ first_frame (contents_from r.buf r.head i n)
unfolding first_frame_end
first_frame_end-first_frame r i zero =
    let none_left : i - i ≡ 0 = omega arith in ap (λ k. contents_from r.buf r.head i k) none_left
first_frame_end-first_frame r i (suc n) =
    let (low, high) = first_frame_end_bounds r (i + 1) n in
    elim (Bool-cases (get_or r.buf ((r.head + i) % out_ring_size) 0 == 0)) [
      | inl e ↦ let one : i + 1 - i ≡ suc 0 = omega arith in rw (e, one) refl
      | inr e ↦
          let more : first_frame_end r (i + 1) n - i ≡ suc (first_frame_end r (i + 1) n - (i + 1)) =
            omega (arith, low) in
          rw (e, more)
            (ap (λ l. get_or r.buf ((r.head + i) % out_ring_size) 0 ∷ l)
              (first_frame_end-first_frame r (i + 1) n))
    ]

-- A slot that is free.
abbrev pub IsFree : CtlSlot → Type 0
IsFree slot = slot.used ≡ false

All-unused : (slots : List CtlSlot) → All IsFree (map unused slots)
All-unused [] = tt
All-unused (slot ∷ slots) = (refl, All-unused slots)

-- A server without a session: nothing is queued or delivered, and no search or prompt is open.
pub record IsTorn (s : Server) : Type 0 where
  pub session : (s.session.active ≡ false) × (s.session.id ≡ 0)
  pub control : All IsFree s.ctl × (s.ctl_used ≡ 0)
  pub queues : (s.keys.count ≡ 0) × (s.media.count ≡ 0) × (s.media.pool.len ≡ 0)
  pub gates :
      (s.keys.events_enabled ≡ false)
      × (s.voice.enabled ≡ false)
      × (s.stream.delivering ≡ false)
      × (s.deferred.pending ≡ false)
  pub waits : (s.find.active ≡ false) × (s.prompt.active ≡ false) × (s.ops.done_count ≡ 0)

-- Before its first call of the backend, `session_teardown` has withdrawn the session, every queue
-- and every open search and prompt; of the output it keeps exactly the bytes up to the first
-- delimiter and with it, which is the rest of the frame on its way, or a whole frame when none is; and
-- a source that runs is being stopped.
pub teardown_state-IsTorn :
    (s : Server)
    → IsRing s.out
    → let t = teardown_state s in
      IsTorn t
      × (contents t.out ≡ first_frame (contents s.out))
      × IsRing t.out
      × (t.source.stop_requested ≡ s.source.active)
unfolding teardown_state contents
teardown_state-IsTorn s w =
    let b = first_frame_end_bounds s.out 0 s.out.len in
    let lb = w.len_bound in
    let k : first_frame_end s.out 0 s.out.len ≡ first_frame_end s.out 0 s.out.len - 0 =
      omega arith in
    (
      record {
        session = (refl, refl);
        control = (All-unused s.ctl, refl);
        queues = (refl, refl, refl);
        gates = (refl, refl, refl, refl);
        waits = (refl, refl, refl);
      },
      ap (λ n. contents_from s.out.buf s.out.head 0 n) k
          ∙ first_frame_end-first_frame s.out 0 s.out.len,
      record { size = w.size; head_bound = w.head_bound; len_bound = omega (arith, b.1, lb) },
      refl,
    )
