-- ===== src/Wire/Receiver/Resync.antt =====
-- Whatever state a receiver is in, one delimiter brings it back to frame boundaries.
use mi_remote_usb_bridge.Base.{
  ℕ, suc, ◌+◌, ◌-◌, ◌≤◌, ◌≡◌, ◌⊎◌, refl, ◌∙◌, arith, List, [], ◌∷◌, ◌++◌, length, true, false, ltb,
  leb, Bool-cases, inl, inr, length-append, some, ◌&&◌,
}
use mi_remote_usb_bridge.Wire.Cobs.Blocks.{length-cobs_encode}
use mi_remote_usb_bridge.Wire.Cobs.InPlace.{decode_in_place}
use mi_remote_usb_bridge.Wire.Frame.{TxSeq, completed, frame_encode}
use mi_remote_usb_bridge.Wire.Frame.Encoding.{raw_frame, length-raw_frame, frame_encode_accepted}
use mi_remote_usb_bridge.Wire.Header.{Header}
use mi_remote_usb_bridge.Wire.Receiver.{
  RxState, idle, in_frame, discard, RxParser, frame, no_event, timeout, RxContext, rx_reset,
  continues, returns, feed_byte, feed_loop, rxparser_feed, elapsed, is_in_frame, close_context,
  Drained, is_no_event, drain_loop, rx_drain,
}
use mi_remote_usb_bridge.Wire.Receiver.Drain.{close_context-event}
use mi_remote_usb_bridge.Wire.Receiver.RoundTrip.{
  parser, feed_loop_continues, feed_loop_returns, received,
}
use mi_remote_usb_bridge.Wire.Receiver.Stream.{
  Sendable, sent, run, feed_loop_frame, drain_loop_step,
}

-- A delimiter resets the receiver; it may close a run, which is then reported.
abbrev Resets : RxParser → RxContext → ℕ → Type 0
Resets p ctx now =
    (feed_byte p ctx 0 now ≡ continues (rx_reset now))
    ⊎ ((c : RxContext) × (feed_byte p ctx 0 now ≡ returns (rx_reset now) c)
        × (is_no_event c.event ≡ false))

delimiter-Resets :
    (s : RxState) (l : List ℕ) (t : ℕ) (ctx : RxContext) (now : ℕ) → Resets (parser s l t) ctx now
unfolding feed_byte
delimiter-Resets idle l t ctx now = inl refl
delimiter-Resets in_frame l t ctx now = elim (Bool-cases (ltb 0 (length l))) [
  | inl e ↦ rw e (
      inr
        (close_context ctx (decode_in_place l), refl, close_context-event ctx (decode_in_place l)))
  | inr e ↦ rw e (inl refl)
]
delimiter-Resets discard l t ctx now = inl refl

rxparser_feed_fresh :
    (p : RxParser) (bs : List ℕ) (now : ℕ) (ctx : RxContext)
    → is_in_frame p.state && leb 1000 (elapsed now p.frame_start_ms) ≡ false
    → rxparser_feed p bs now ctx ≡ feed_loop p (record ctx { event = no_event; resume = [] }) bs now
unfolding rxparser_feed
rxparser_feed_fresh p bs now ctx fresh = rw fresh

rxparser_feed_stale :
    (p : RxParser) (bs : List ℕ) (now : ℕ) (ctx : RxContext)
    → is_in_frame p.state && leb 1000 (elapsed now p.frame_start_ms) ≡ true
    → rxparser_feed p bs now ctx
      ≡ (record p { state = discard; run = [] }, record ctx { event = timeout; resume = bs })
unfolding rxparser_feed
rxparser_feed_stale p bs now ctx stale = rw stale

module _ (h : Header) (seq : TxSeq) (bytes : List ℕ) (ok : Sendable h seq bytes) (now : ℕ) where
  abbrev stream : List ℕ
  stream = run h seq bytes ok ++ 0 ∷ []

  length-stream : (1 ≤ length stream) × (length stream ≤ 552)
  length-stream = omega (
    arith,
    length-append (run h seq bytes ok) (0 ∷ []),
    length-cobs_encode (raw_frame (sent h seq bytes ok) bytes),
    length-raw_frame (sent h seq bytes ok) bytes,
    ok.fits,
  )

  abbrev result : RxContext → RxContext
  result ctx = received ctx (sent h seq bytes ok) bytes []

  -- The drain ends with the receiver reset and the frame as its last event.
  abbrev Delivered : Drained → Type 0
  Delivered d =
      (d.parser ≡ rx_reset now)
      × (d.context.event ≡ frame)
      × (d.context.header ≡ sent h seq bytes ok)
      × (d.context.payload ≡ bytes)
      × (d.context.crc_ok ≡ true)
      × (d.context.resume ≡ [])

  Delivered-end :
      (fuel : ℕ) (p : RxParser) (bs : List ℕ) (ctx ctx' : RxContext)
      → 1 ≤ length bs
      → rxparser_feed p bs now ctx ≡ (rx_reset now, result ctx')
      → Delivered (drain_loop (suc fuel) p bs now ctx)
  Delivered-end fuel p bs ctx ctx' pos e =
      rw (drain_loop_step fuel p bs now ctx (rx_reset now) (result ctx') pos e refl (omega arith))
        (unfold drain_loop in (refl, refl, refl, refl, refl, refl))

  from_idle :
      (fuel t : ℕ) (ctx : RxContext)
      → Delivered (drain_loop (suc fuel) (parser idle [] t) stream now ctx)
  from_idle fuel t ctx =
      Delivered-end fuel (parser idle [] t) stream ctx ctx length-stream.0
        (unfold rxparser_feed in feed_loop_frame h seq bytes ok t _ [] now)

  from_fresh :
      (fuel : ℕ) (p : RxParser) (ctx : RxContext)
      → is_in_frame p.state && leb 1000 (elapsed now p.frame_start_ms) ≡ false
      → Delivered (drain_loop (suc (suc fuel)) p (0 ∷ stream) now ctx)
  from_fresh fuel p ctx fresh = elim (delimiter-Resets p.state p.run p.frame_start_ms start now) [
    | inl e ↦ Delivered-end (suc fuel) p (0 ∷ stream) ctx start (omega arith) (
        rxparser_feed_fresh p (0 ∷ stream) now ctx fresh
        ∙ feed_loop_continues p start 0 stream now e
        ∙ feed_loop_frame h seq bytes ok now start [] now)
    | inr (c, e, event) ↦
        rw
          (drain_loop_step (suc fuel) p (0 ∷ stream) now ctx (rx_reset now)
            (record c { resume = stream }) (omega arith)
            (rxparser_feed_fresh p (0 ∷ stream) now ctx fresh
              ∙ feed_loop_returns p start 0 stream now e)
            event (omega (arith, length-stream)))
          (from_idle fuel now (record c { resume = stream }))
  ]
    where
      start : RxContext
      start = record ctx { event = no_event; resume = [] }

  from_any :
      (fuel : ℕ) (p : RxParser) (ctx : RxContext)
      → Delivered (drain_loop (suc (suc (suc fuel))) p (0 ∷ stream) now ctx)
  from_any fuel p ctx =
      elim (Bool-cases (is_in_frame p.state && leb 1000 (elapsed now p.frame_start_ms))) [
        | inl stale ↦
            rw
              (drain_loop_step (suc (suc fuel)) p (0 ∷ stream) now ctx
                (record p { state = discard; run = [] }) late (omega arith)
                (rxparser_feed_stale p (0 ∷ stream) now ctx stale) refl
                (omega (arith, length-stream)))
              (from_fresh fuel (record p { state = discard; run = [] }) late refl)
        | inr fresh ↦ from_fresh (suc fuel) p ctx fresh
      ]
    where
      late : RxContext
      late = record ctx { event = timeout; resume = 0 ∷ stream }

  -- From every state of the receiver, whatever it had read before and however long ago, a
  -- delimiter and a frame that `rbp_frame_encode` wrote leave it idle, with that frame, its
  -- completed header, its payload and a matching checksum, as the last event.
  pub rx_drain_resync :
      (p : RxParser) (ctx : RxContext)
      → let d = rx_drain p (0 ∷ (frame_encode h seq (some bytes) (length bytes)).0) now ctx in
        (d.parser ≡ rx_reset now)
        × (d.context.event ≡ frame)
        × (d.context.header ≡ completed h seq (length bytes))
        × (d.context.payload ≡ bytes)
        × (d.context.crc_ok ≡ true)
        × (d.context.resume ≡ [])
  unfolding rx_drain
  rx_drain_resync p ctx =
      rw (frame_encode_accepted h seq bytes ok.fits, rounds) (from_any (length stream - 1) p ctx)
    where
      rounds : length (0 ∷ stream) + 1 ≡ suc (suc (suc (length stream - 1)))
      rounds = omega (arith, length-stream)
