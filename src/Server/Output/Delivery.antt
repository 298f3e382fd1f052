-- ===== src/Server/Output/Delivery.antt =====
-- From `out_try_frame` of firmware/product/rbp_server.c over `out_drain` to the receiver of the other
-- side, `rbp_rx_drain`.
use mi_remote_usb_bridge.Base.{
  ℕ, ◌+◌, ◌-◌, ◌*◌, length-append, ◌^◌, ◌≤◌, ◌<◌, ◌≡◌, refl, sym, ap, ◌∙◌, arith, List, [], ◌∷◌,
  ◌++◌, Bool, true, false, ◌||◌, ◌==◌, some, length, map, append_assoc, append-nil, if◌then◌else◌,
  ==_ne, ltb, ge→ltb,
}
use mathlib.Core.Bool.{true≢false}
use mathlib.Core.Path.{ap₂, subst}
use mi_remote_usb_bridge.Server.Output.{out_try_frame, out_drain}
use mi_remote_usb_bridge.Server.Output.Append.{out_try_frame_whole}
use mi_remote_usb_bridge.Server.Output.Drain.{TakesAll, out_drain-contents}
use mi_remote_usb_bridge.Server.Ring.{out_ring_size}
use mi_remote_usb_bridge.Server.Ring.Contents.{contents, length-contents, IsRing}
use mi_remote_usb_bridge.Server.State.{Server, Env}
use mi_remote_usb_bridge.Wire.Frame.{TxSeq, frame_encode, completed, max_payload}
use mi_remote_usb_bridge.Wire.Cobs.{cobs_encode}
use mi_remote_usb_bridge.Wire.Frame.Encoding.{frame_encode_accepted, length-frame_encode, raw_frame}
use mi_remote_usb_bridge.Wire.Header.{Header}
use mi_remote_usb_bridge.Wire.Receiver.{RxContext, idle, rx_drain}
use mi_remote_usb_bridge.Wire.Receiver.RoundTrip.{parser}
use mi_remote_usb_bridge.Wire.Receiver.Stream.{
  AllSendable, encode_all, deliveries, delivery, rx_drain-encode_all,
}

-- One call of `out_try_frame` for each frame, up to the first that finds no room.
unfoldable pub send_all : Env → Server → List (Header × List ℕ) → Server × Bool
send_all e s [] = (s, true)
send_all e s ((h, payload) ∷ items) =
    let p = out_try_frame e s h payload in
    let rest = send_all e p.0 items in if p.1 then rest else (p.0, false)

-- What the ring holds after a server `t` has taken frames into the ring of `s`.
record Grown (s t : Server) (frames : List ℕ) : Type 0 where
  bytes : contents t.out ≡ contents s.out ++ frames
  ring : IsRing t.out
  wire : t.wire ≡ s.wire

sent_first :
    (e : Env) (s : Server) (p : Server × Bool) (frame : List ℕ) (next : TxSeq)
    (items : List (Header × List ℕ))
    → (if p.1
        then (contents p.0.out ≡ contents s.out ++ frame)
          × IsRing p.0.out
          × ((record p.0 { out = s.out; session = s.session }) ≡ s)
          × (p.0.session.txseq ≡ next)
        else (p.0 ≡ s))
    → p.1 ≡ true
    → Grown s p.0 frame
      × (p.0.session.txseq ≡ next)
      × ((if p.1 then send_all e p.0 items else (p.0, false)) ≡ send_all e p.0 items)
sent_first e s (t, true) frame next items h sent =
    (record { bytes = h.0; ring = h.1; wire = ap (λ (x : Server). x.wire) h.2 }, h.3, refl)
sent_first e s (t, false) frame next items h sent = absurd (true≢false (sym sent))

number_left : (n : ℕ) → 0 < n → n + 1 < 2 ^ 32 → (n == 0) || (n == 2 ^ 32 - 1) ≡ false
number_left n h k = ground arith

-- A frame takes at most 552 bytes.
out_try_frame_fits :
    (e : Env) (s : Server) (h : Header) (payload : List ℕ)
    → 0 < s.session.txseq.next_tx_seq
    → s.session.txseq.next_tx_seq + 1 < 2 ^ 32
    → length payload ≤ max_payload
    → s.out.len + 552 ≤ out_ring_size
    → (out_try_frame e s h payload).1 ≡ true
unfolding out_try_frame
out_try_frame_fits e s h payload low few fits room =
    let f = frame_encode h s.session.txseq (some payload) (length payload) in
    let size = length-frame_encode h s.session.txseq payload fits in
    let a : ltb (out_ring_size - s.out.len) (32 + length payload + 6) ≡ false =
      ge→ltb (out_ring_size - s.out.len) (32 + length payload + 6) (omega (arith, fits, room)) in
    let b : (length f.0 == 0) ≡ false =
      let size' : length f.0
          ≡ length (cobs_encode (raw_frame (completed h s.session.txseq (length payload)) payload))
            + 1 =
        ap (λ (q : List ℕ × TxSeq). length q.0)
          (frame_encode_accepted h s.session.txseq payload fits)
        ∙ length-append
            (cobs_encode (raw_frame (completed h s.session.txseq (length payload)) payload))
            (0 ∷ []) in
      ==_ne (length f.0) 0 (λ e. omega (arith, e, size')) in
    let c : ltb (out_ring_size - s.out.len) (length f.0) ≡ false =
      ge→ltb (out_ring_size - s.out.len) (length f.0) (omega (arith, size, room)) in
    rw (number_left s.session.txseq.next_tx_seq low few, a, b, c) refl

send_all-Grown :
    (items : List (Header × List ℕ)) (e : Env) (s : Server)
    → IsRing s.out
    → AllSendable items
    → 0 < s.session.txseq.next_tx_seq
    → s.session.txseq.next_tx_seq + length items < 2 ^ 32
    → s.out.len + 552 * length items ≤ out_ring_size
    → ((send_all e s items).1 ≡ true)
      × Grown s (send_all e s items).0 (encode_all s.session.txseq items)
unfolding send_all encode_all
send_all-Grown [] e s w ok low few room =
    (refl, record { bytes = sym (append-nil (contents s.out)); ring = w; wire = refl })
send_all-Grown ((h, payload) ∷ items) e s w ok low few room =
    let seq = s.session.txseq in
    let n = seq.next_tx_seq in
    let f = frame_encode h seq (some payload) (length payload) in
    let p = out_try_frame e s h payload in
    let whole = out_try_frame_whole e s h payload w (number_left n low (omega (arith, few))) in
    let sent =
      out_try_frame_fits e s h payload low (omega (arith, few)) ok.1 (omega (arith, room)) in
    let (grown, numbers, same) = sent_first e s p f.0 f.1 items whole sent in
    let next : f.1.next_tx_seq ≡ n + 1 =
      ap (λ (q : List ℕ × TxSeq). q.1.next_tx_seq) (frame_encode_accepted h seq payload ok.1)
      ∙ omega (arith, few) in
    let number : p.0.session.txseq.next_tx_seq ≡ n + 1 =
      ap (λ (q : TxSeq). q.next_tx_seq) numbers ∙ next in
    let longer : p.0.out.len ≡ s.out.len + length f.0 =
      sym (length-contents p.0.out)
      ∙ ap length grown.bytes
      ∙ omega (arith, length-append (contents s.out) f.0, length-contents s.out) in
    let size = length-frame_encode h seq payload ok.1 in
    let (done, rest) =
      send_all-Grown items e p.0 grown.ring ok.2 (omega (arith, number))
        (omega (arith, number, few)) (omega (arith, longer, size, room)) in
    let all : Grown s (send_all e p.0 items).0 (f.0 ++ encode_all f.1 items) = record {
      bytes =
          rest.bytes
          ∙ ap (λ l. l ++ encode_all p.0.session.txseq items) grown.bytes
          ∙ ap (λ q. (contents s.out ++ f.0) ++ encode_all q items) numbers
          ∙ append_assoc (contents s.out) f.0 (encode_all f.1 items);
      ring = rest.ring;
      wire = rest.wire ∙ grown.wire;
    } in
    (
      ap (λ (q : Server × Bool). q.1) same ∙ done,
      subst (λ (q : Server × Bool). Grown s q.0 (f.0 ++ encode_all f.1 items)) (sym same) all,
    )

-- Frames within the limits, with sequence numbers left and room in the output ring for 552 bytes each
-- behind whatever the ring holds: `out_try_frame` takes all of them. A sink that accepts all that it
-- is offered is then handed what the ring held and the frames behind it, and an idle receiver that is
-- fed those frames reports exactly them, in order, with consecutive sequence numbers, their payloads
-- and matching checksums.
pub send_all-rx_drain :
    (items : List (Header × List ℕ)) (e : Env) (s : Server) (t now : ℕ) (ctx : RxContext)
    → TakesAll e
    → IsRing s.out
    → AllSendable items
    → 0 < s.session.txseq.next_tx_seq
    → s.session.txseq.next_tx_seq + length items < 2 ^ 32
    → s.out.len + 552 * length items ≤ out_ring_size
    → let (sent, taken) = send_all e s items in
      let u = out_drain e sent in
      let frames = encode_all s.session.txseq items in
      (taken ≡ true)
      × (u.wire ≡ s.wire ++ (contents s.out ++ frames))
      × (u.out.len ≡ 0)
      × (map delivery (rx_drain (parser idle [] t) frames now ctx).events
          ≡ deliveries s.session.txseq items)
send_all-rx_drain items e s t now ctx takes w ok low few room =
    let (done, grown) = send_all-Grown items e s w ok low few room in
    let drained = out_drain-contents e (send_all e s items).0 takes grown.ring in
    (
      done,
      drained.0 ∙ ap₂ (λ a b. a ++ b) grown.wire grown.bytes,
      drained.1,
      rx_drain-encode_all items s.session.txseq t now ctx ok (omega (arith, few))
          (omega (arith, few)),
    )
