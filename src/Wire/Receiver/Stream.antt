-- ===== src/Wire/Receiver/Stream.antt =====
-- Frames sent one after the other, and a receiver that joins in the middle.
use mi_remote_usb_bridge.Base.{
  ℕ, zero, suc, ◌*◌, ◌+◌, ◌-◌, ◌%◌, ◌^◌, ◌≤◌, ◌<◌, ◌≡◌, refl, ap, ◌∙◌, arith, List, [], ◌∷◌, ◌++◌,
  length, Bool, true, false, gt→leb, length-append, append_assoc, some, map,
}
use mi_remote_usb_bridge.Wire.Cobs.{cobs_encode}
use mi_remote_usb_bridge.Wire.Cobs.Blocks.{cobs_encode_nonzero, length-cobs_encode}
use mi_remote_usb_bridge.Wire.Cobs.RoundTrip.{cobs_decode-cobs_encode}
use mi_remote_usb_bridge.Wire.Cobs.InPlace.Agree.{decode_in_place-cobs_decode}
use mi_remote_usb_bridge.Wire.Frame.{max_payload, TxSeq, completed, frame_encode}
use mi_remote_usb_bridge.Wire.Frame.Encoding.{
  raw_frame, length-raw_frame, frame_encode_accepted, length-frame_encode,
}
use mi_remote_usb_bridge.Wire.Header.{Header, IsHeader, header_ok}
use mi_remote_usb_bridge.Wire.Receiver.{
  idle, RxParser, RxEvent, no_event, frame, RxContext, rx_reset, feed_loop, rxparser_feed,
  close_context, is_no_event, drain_loop, rx_drain,
}
use mi_remote_usb_bridge.Wire.Receiver.RoundTrip.{
  parser, feed_loop_record, received, close_context-raw_frame,
}

-- What a caller must supply: values of the C types, and a payload that is not too long.
pub record Sendable (h : Header) (seq : TxSeq) (bytes : List ℕ) : Type 0 where
  pub header : IsHeader h
  pub number : seq.next_tx_seq < 2 ^ 32
  pub fits : length bytes ≤ max_payload

module _ (h : Header) (seq : TxSeq) (bytes : List ℕ) (ok : Sendable h seq bytes) where
  abbrev pub sent : Header
  sent = completed h seq (length bytes)

  abbrev pub run : List ℕ
  run = cobs_encode (raw_frame sent bytes)

  sent-IsHeader : IsHeader sent
  sent-IsHeader =
      let v : IsHeader h = ok.header in let n : seq.next_tx_seq < 2 ^ 32 = ok.number in ground arith

  -- The loop of the receiver on a frame, from the idle state.
  pub feed_loop_frame :
      (t : ℕ) (ctx : RxContext) (rest : List ℕ) (now : ℕ)
      → feed_loop (parser idle [] t) ctx (run ++ 0 ∷ rest) now
        ≡ (rx_reset now, received ctx sent bytes rest)
  feed_loop_frame t ctx rest now =
      feed_loop_record run t ctx rest now (cobs_encode_nonzero raw)
        (omega (arith, length-cobs_encode raw))
        (omega (arith, length-cobs_encode raw, length-raw_frame sent bytes, ok.fits))
      ∙ ap (λ r. (rx_reset now, record (close_context ctx r) { resume = rest }))
          (decode_in_place-cobs_decode run ∙ cobs_decode-cobs_encode raw)
      ∙ ap (λ (c : RxContext). (rx_reset now, record c { resume = rest }))
          (close_context-raw_frame ctx sent bytes sent-IsHeader (unfold header_ok in refl) ok.fits)
    where
      raw : List ℕ
      raw = raw_frame sent bytes

  -- An idle receiver that is fed what `rbp_frame_encode` wrote reports the frame: the completed
  -- header, the payload, a matching checksum, and what follows the frame as the rest.
  pub rxparser_feed-frame_encode :
      (t : ℕ) (ctx : RxContext) (rest : List ℕ) (now : ℕ)
      → rxparser_feed
          (parser idle [] t)
          ((frame_encode h seq (some bytes) (length bytes)).0 ++ rest)
          now
          ctx
        ≡ (rx_reset now, received ctx sent bytes rest)
  unfolding rxparser_feed
  rxparser_feed-frame_encode t ctx rest now =
      rw (frame_encode_accepted h seq bytes ok.fits, append_assoc run (0 ∷ []) rest)
        (feed_loop_frame t (record ctx { event = no_event; resume = [] }) rest now)

-- One round of the drain that reports an event.
pub drain_loop_step :
    (fuel : ℕ) (p : RxParser) (bs : List ℕ) (now : ℕ) (ctx : RxContext) (q : RxParser)
    (c : RxContext)
    → 1 ≤ length bs
    → rxparser_feed p bs now ctx ≡ (q, c)
    → is_no_event c.event ≡ false
    → length c.resume < 2 ^ 64 - 1
    → let rest = drain_loop fuel q c.resume now c in
      drain_loop (suc fuel) p bs now ctx ≡ record rest { events = c ∷ rest.events }
unfolding drain_loop
drain_loop_step fuel p [] now ctx q c pos e event small = absurd (omega arith)
drain_loop_step fuel p (b ∷ bs) now ctx q c pos e event small =
    rw (e, event, gt→leb (2 ^ 64 - 1) (length c.resume) small)

-- What the consumer sees of a reported frame.
abbrev pub Delivery : Type 0
Delivery = RxEvent × Header × List ℕ × Bool

abbrev pub delivery : RxContext → Delivery
delivery c = (c.event, c.header, c.payload, c.crc_ok)

-- A sender's frames, one after the other, with the numbers that `seq` hands out.
unfoldable pub encode_all : TxSeq → List (Header × List ℕ) → List ℕ
encode_all seq [] = []
encode_all seq ((h, bytes) ∷ items) =
    let (out, seq') = frame_encode h seq (some bytes) (length bytes) in out ++ encode_all seq' items

abbrev pub deliveries : TxSeq → List (Header × List ℕ) → List Delivery
deliveries seq [] = []
deliveries seq ((h, bytes) ∷ items) =
    (frame, completed h seq (length bytes), bytes, true)
    ∷ deliveries (record { next_tx_seq = (seq.next_tx_seq + 1) % 2 ^ 32 }) items

abbrev pub AllSendable : List (Header × List ℕ) → Type 0
AllSendable [] = Unit
AllSendable ((h, bytes) ∷ items) = IsHeader h × (length bytes ≤ max_payload) × AllSendable items

abbrev next_seq : TxSeq → TxSeq
next_seq seq = record { next_tx_seq = (seq.next_tx_seq + 1) % 2 ^ 32 }

encode_all-cons :
    (h : Header) (bytes : List ℕ) (items : List (Header × List ℕ)) (seq : TxSeq)
    → length bytes ≤ max_payload
    → encode_all seq ((h, bytes) ∷ items)
      ≡ (frame_encode h seq (some bytes) (length bytes)).0 ++ encode_all (next_seq seq) items
unfolding encode_all
encode_all-cons h bytes items seq fits =
    ap (λ s. (frame_encode h seq (some bytes) (length bytes)).0 ++ encode_all s items)
      (ap (λ (e : List ℕ × TxSeq). e.1) (frame_encode_accepted h seq bytes fits))

-- Each frame takes at least its delimiter.
length-encode_all-cons :
    (h : Header) (bytes : List ℕ) (items : List (Header × List ℕ)) (seq : TxSeq)
    → length bytes ≤ max_payload
    → length (encode_all (next_seq seq) items) < length (encode_all seq ((h, bytes) ∷ items))
length-encode_all-cons h bytes items seq fits =
    rw (encode_all-cons h bytes items seq fits, frame_encode_accepted h seq bytes fits)
      (omega (
        arith,
        length-append (run_of ++ 0 ∷ []) (encode_all (next_seq seq) items),
        length-append run_of (0 ∷ []),
      ))
  where
    run_of : List ℕ
    run_of = cobs_encode (raw_frame (completed h seq (length bytes)) bytes)

drain_loop-encode_all :
    (items : List (Header × List ℕ)) (seq : TxSeq) (fuel t now : ℕ) (ctx : RxContext)
    → AllSendable items
    → seq.next_tx_seq < 2 ^ 32
    → length (encode_all seq items) < 2 ^ 64 - 1
    → length (encode_all seq items) ≤ fuel
    → map delivery (drain_loop fuel (parser idle [] t) (encode_all seq items) now ctx).events
      ≡ deliveries seq items
drain_loop-encode_all [] seq fuel t now ctx ok n small enough = unfold drain_loop encode_all in refl
drain_loop-encode_all ((h, bytes) ∷ items) seq zero t now ctx ok n small enough =
    absurd (omega (arith, length-encode_all-cons h bytes items seq ok.1))
drain_loop-encode_all ((h, bytes) ∷ items) seq (suc fuel) t now ctx ok n small enough =
    ap (λ d. map delivery d.events)
      (drain_loop_step fuel (parser idle [] t) stream now ctx (rx_reset now) got
        (omega (arith, shorter)) fed refl (omega (arith, shorter)))
    ∙ ap (λ ds. delivery got ∷ ds)
        (drain_loop-encode_all items (next_seq seq) fuel now now got ok.2 (omega arith)
          (omega (arith, shorter)) (omega (arith, shorter)))
  where
    stream : List ℕ
    stream = encode_all seq ((h, bytes) ∷ items)

    sendable : Sendable h seq bytes
    sendable = record { header = ok.0; number = n; fits = ok.1 }

    got : RxContext
    got = received ctx (sent h seq bytes sendable) bytes (encode_all (next_seq seq) items)

    shorter : length (encode_all (next_seq seq) items) < length stream
    shorter = length-encode_all-cons h bytes items seq ok.1

    fed : rxparser_feed (parser idle [] t) stream now ctx ≡ (rx_reset now, got)
    fed =
        ap (λ l. rxparser_feed (parser idle [] t) l now ctx)
          (encode_all-cons h bytes items seq ok.1)
        ∙ rxparser_feed-frame_encode h seq bytes sendable t ctx (encode_all (next_seq seq) items)
            now

-- Every frame takes at most `max_encoded` bytes.
length-encode_all :
    (items : List (Header × List ℕ)) (seq : TxSeq)
    → AllSendable items
    → length (encode_all seq items) ≤ 552 * length items
length-encode_all [] seq ok = unfold encode_all in omega arith
length-encode_all ((h, bytes) ∷ items) seq ok = rw (encode_all-cons h bytes items seq ok.1) (
    omega (
      arith,
      length-append out (encode_all (next_seq seq) items),
      length-frame_encode h seq bytes ok.1,
      length-encode_all items (next_seq seq) ok.2,
    ))
  where
    out : List ℕ
    out = (frame_encode h seq (some bytes) (length bytes)).0

-- `rbp_rx_drain`, fed to an idle receiver in one piece the frames of any sequence of accepted
-- `rbp_frame_encode` calls (fewer than 2 ^ 54), reports exactly those frames, in order, with
-- consecutive sequence numbers (modulo 2 ^ 32), their headers and payloads, and matching checksums.
pub rx_drain-encode_all :
    (items : List (Header × List ℕ)) (seq : TxSeq) (t now : ℕ) (ctx : RxContext)
    → AllSendable items
    → seq.next_tx_seq < 2 ^ 32
    → length items < 2 ^ 54
    → map delivery (rx_drain (parser idle [] t) (encode_all seq items) now ctx).events
      ≡ deliveries seq items
unfolding rx_drain
rx_drain-encode_all items seq t now ctx ok n few =
    drain_loop-encode_all items seq (length (encode_all seq items) + 1) t now ctx ok n
      (omega (arith, length-encode_all items seq ok)) (omega arith)
