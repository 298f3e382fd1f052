-- ===== src/Server/Output/Append.antt =====
-- `out_try_frame` of firmware/product/rbp_server.c puts a whole frame into the output ring, or none.
use mi_remote_usb_bridge.Base.{
  ℕ, ◌+◌, ◌-◌, ◌^◌, ◌≡◌, refl, inl, inr, List, ◌++◌, false, ◌||◌, ltb, ◌==◌, some, length,
  if◌then◌else◌, Bool-cases,
}
use mi_remote_usb_bridge.Server.Output.{out_try_frame}
use mi_remote_usb_bridge.Server.Ring.{out_ring_size}
use mi_remote_usb_bridge.Server.Ring.Contents.{contents, IsRing}
use mi_remote_usb_bridge.Server.Ring.Write.{written-fits}
use mi_remote_usb_bridge.Server.State.{Server, Env}
use mi_remote_usb_bridge.Wire.Frame.{frame_encode}
use mi_remote_usb_bridge.Wire.Header.{Header}

-- While sequence numbers are left, `out_try_frame` either appends to the ring the whole encoded
-- frame, which takes the next sequence number, or reports failure and leaves the server as it was.
pub out_try_frame_whole :
    (e : Env) (s : Server) (h : Header) (payload : List ℕ)
    → IsRing s.out
    → (s.session.txseq.next_tx_seq == 0) || (s.session.txseq.next_tx_seq == 2 ^ 32 - 1) ≡ false
    → let (t, sent) = out_try_frame e s h payload in
      let (frame, next) = frame_encode h s.session.txseq (some payload) (length payload) in
      if sent
      then (contents t.out ≡ contents s.out ++ frame)
        × IsRing t.out
        × ((record t { out = s.out; session = s.session }) ≡ s)
        × (t.session.txseq ≡ next)
      else (t ≡ s)
unfolding out_try_frame
out_try_frame_whole e s h payload w left =
    let f = frame_encode h s.session.txseq (some payload) (length payload) in
    elim (Bool-cases (ltb (out_ring_size - s.out.len) (32 + length payload + 6))) [
      | inl a ↦ rw (left, a) refl
      | inr a ↦ elim (Bool-cases (length f.0 == 0)) [
        | inl b ↦ rw (left, a, b) refl
        | inr b ↦ elim (Bool-cases (ltb (out_ring_size - s.out.len) (length f.0))) [
          | inl c ↦ rw (left, a, b, c) refl
          | inr c ↦
              let written = written-fits s.out f.0 w c in
              rw (left, a, b, c) (written.0, written.1, refl, refl)
        ]
      ]
    ]
