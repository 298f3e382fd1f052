-- ===== src/Wire/Receiver/Drain.antt =====
-- `rbp_rx_drain` ends, and consumes its whole input.
use mi_remote_usb_bridge.Base.{
  ℕ, zero, suc, ◌+◌, ◌-◌, ◌^◌, ◌≤◌, ◌<◌, ◌≡◌, ◌⊎◌, refl, ap, arith, List, [], ◌∷◌, length, Bool,
  true, false, ◌&&◌, ◌||◌, ◌==◌, ltb, leb, if◌then◌else◌, gt→leb, Bool-cases, inl, inr,
}
use mi_remote_usb_bridge.Wire.Cobs.InPlace.{decode_in_place}
use mi_remote_usb_bridge.Wire.Frame.{recv_max}
use mi_remote_usb_bridge.Wire.Header.{header_bytes, header_parse}
use mi_remote_usb_bridge.Wire.Receiver.{
  RxState, idle, in_frame, discard, RxParser, no_event, RxContext, Fed, continues, returns,
  feed_byte, feed_end, feed_loop, rxparser_feed, close_context, max_frame_raw, elapsed, is_in_frame,
  Drained, is_no_event, drain_loop, rx_drain,
}

-- A call either reads everything and reports nothing, or reports an event outside a frame, having
-- taken a byte if there is one.
abbrev Progress : List ℕ → RxParser × RxContext → Type 0
Progress bs (q, c) =
    ((c.event ≡ no_event) × (c.resume ≡ []))
    ⊎ ((is_in_frame q.state ≡ false)
        × (is_no_event c.event ≡ false)
        × (length c.resume ≤ length bs - 1))

-- What a round that returns leaves, and what one that goes on leaves.
abbrev Outside : Fed → Type 0
Outside (continues q) = Unit
Outside (returns q c) = (is_in_frame q.state ≡ false) × (is_no_event c.event ≡ false)

pub close_context-event :
    (ctx : RxContext) (raw : List ℕ) → is_no_event (close_context ctx raw).event ≡ false
unfolding close_context
close_context-event ctx raw =
    elim (Bool-cases (leb (header_bytes + 4) (length raw) && leb (length raw) max_frame_raw)) [
      | inl e ↦ elim (Bool-cases (header_parse raw).1) [ inl f ↦ rw (e, f) | inr f ↦ rw (e, f) ]
      | inr e ↦ rw e
    ]

feed_byte-Outside :
    (s : RxState) (run : List ℕ) (t : ℕ) (ctx : RxContext) (b now : ℕ)
    → Outside (feed_byte (record { state = s; run = run; frame_start_ms = t }) ctx b now)
unfolding feed_byte
feed_byte-Outside idle run t ctx b now = elim (Bool-cases (b == 0)) [
  | inl e ↦ rw e tt
  | inr e ↦ rw e tt
]
feed_byte-Outside in_frame run t ctx b now = elim (Bool-cases (b == 0)) [
  | inl e ↦ elim (Bool-cases (ltb 0 (length run))) [
    | inl f ↦ rw (e, f) (refl, close_context-event ctx (decode_in_place run))
    | inr f ↦ rw (e, f) tt
  ]
  | inr e ↦ elim (Bool-cases (leb recv_max (length run))) [
    | inl f ↦ rw (e, f) (refl, refl)
    | inr f ↦ rw (e, f) tt
  ]
]
feed_byte-Outside discard run t ctx b now = tt

feed_end-Progress :
    (s : RxState) (run : List ℕ) (t : ℕ) (ctx : RxContext) (now : ℕ)
    → ctx.event ≡ no_event
    → ctx.resume ≡ []
    → Progress [] (feed_end (record { state = s; run = run; frame_start_ms = t }) ctx now)
unfolding feed_end
feed_end-Progress idle run t ctx now e r = inl (e, r)
feed_end-Progress in_frame run t ctx now e r = elim (Bool-cases (ltb 1000 (elapsed now t))) [
  | inl f ↦ rw f (inr (refl, refl, omega (arith, ap length r)))
  | inr f ↦ rw f (inl (e, r))
]
feed_end-Progress discard run t ctx now e r = inl (e, r)

Progress-cons :
    (b : ℕ) (bs : List ℕ) (r : RxParser × RxContext) → Progress bs r → Progress (b ∷ bs) r
Progress-cons b bs (q, c) (inl h) = inl h
Progress-cons b bs (q, c) (inr h) = inr (h.0, h.1, omega arith)

feed_loop-Progress :
    (bs : List ℕ) (p : RxParser) (ctx : RxContext) (now : ℕ)
    → ctx.event ≡ no_event
    → ctx.resume ≡ []
    → Progress bs (feed_loop p ctx bs now)
unfolding feed_loop
feed_loop-Progress [] p ctx now e r = feed_end-Progress p.state p.run p.frame_start_ms ctx now e r
feed_loop-Progress (b ∷ bs) p ctx now e r =
    go (feed_byte p ctx b now) (feed_byte-Outside p.state p.run p.frame_start_ms ctx b now)
      (λ q. Progress-cons b bs (feed_loop q ctx bs now) (feed_loop-Progress bs q ctx now e r))
  where
    go :
        (f : Fed)
        → Outside f
        → ((q : RxParser) → Progress (b ∷ bs) (feed_loop q ctx bs now))
        → Progress (b ∷ bs) (elim f as (λ _. RxParser × RxContext) [
          | continues q ↦ feed_loop q ctx bs now
          | returns q c ↦ (q, record c { resume = bs })
        ])
    go (continues q) h ih = ih q
    go (returns q c) h ih = inr (h.0, h.1, omega arith)

-- A frame that timed out before the call, which is reported before any byte is taken.
abbrev stale : RxParser → ℕ → Bool
stale p now = is_in_frame p.state && leb 1000 (elapsed now p.frame_start_ms)

abbrev measure : RxParser → List ℕ → ℕ → ℕ
measure p bs now = length bs + (if stale p now then 1 else 0)

measure-le : (p : RxParser) (bs : List ℕ) (now : ℕ) → measure p bs now ≤ length bs + 1
measure-le p bs now = ground arith

-- What a round of the drain leaves: nothing, or less to be done.
abbrev Less : ℕ → ℕ → RxParser × RxContext → Type 0
Less n now (q, c) =
    ((c.event ≡ no_event) × (c.resume ≡ []))
    ⊎ ((is_no_event c.event ≡ false) × (measure q c.resume now < n))

Progress-Less :
    (b : ℕ) (bs : List ℕ) (now : ℕ) (r : RxParser × RxContext)
    → Progress (b ∷ bs) r
    → Less (length (b ∷ bs) + 0) now r
Progress-Less b bs now (q, c) (inl h) = inl h
Progress-Less b bs now (q, c) (inr (out, event, short)) = inr (event, rw out (omega arith))

rxparser_feed-Less :
    (p : RxParser) (b : ℕ) (bs : List ℕ) (now : ℕ) (ctx : RxContext)
    → Less (measure p (b ∷ bs) now) now (rxparser_feed p (b ∷ bs) now ctx)
unfolding rxparser_feed
rxparser_feed-Less p b bs now ctx = elim (Bool-cases (stale p now)) [
  | inl e ↦ rw e (inr (refl, omega arith))
  | inr e ↦ rw e (
      Progress-Less b bs now (feed_loop p start (b ∷ bs) now)
        (feed_loop-Progress (b ∷ bs) p start now refl refl))
]
  where
    start : RxContext
    start = record ctx { event = no_event; resume = [] }

-- The drain has ended by itself, with nothing left of an input that was not empty.
abbrev Complete : Drained → Type 0
Complete d = (d.ended ≡ true) × (d.context.resume ≡ [])

record_round : List ℕ → RxParser × RxContext → Drained → Drained
record_round left (q, c) rest =
    if is_no_event c.event || leb (2 ^ 64 - 1) (length left)
    then record { parser = q; context = c; events = c ∷ []; ended = true }
    else record rest { events = c ∷ rest.events }

-- With what is left to be done bounded, one round leads to the end.
round-Complete :
    (fuel now n : ℕ) (q : RxParser) (c : RxContext) (left : List ℕ)
    → c.resume ≡ left
    → n ≤ suc fuel
    → n < 2 ^ 64
    → Less n now (q, c)
    → ((b : ℕ) (bs : List ℕ)
        → measure q (b ∷ bs) now ≤ fuel
        → measure q (b ∷ bs) now < 2 ^ 64
        → Complete (drain_loop fuel q (b ∷ bs) now c))
    → Complete (record_round left (q, c) (drain_loop fuel q left now c))
unfolding record_round
round-Complete fuel now n q c left at enough small (inl (e, r)) ih = rw e (refl, r)
round-Complete fuel now n q c [] at enough small (inr (event, less)) ih =
    unfold drain_loop in rw event (refl, at)
round-Complete fuel now n q c (b ∷ bs) at enough small (inr (event, less)) ih =
    let m : measure q (b ∷ bs) now < n = rw at at less in
    rw (event, gt→leb (2 ^ 64 - 1) (length (b ∷ bs)) (omega arith))
      (ih b bs (omega arith) (omega arith))

drain_loop-Complete :
    (fuel : ℕ) (p : RxParser) (b : ℕ) (bs : List ℕ) (now : ℕ) (ctx : RxContext)
    → measure p (b ∷ bs) now ≤ fuel
    → measure p (b ∷ bs) now < 2 ^ 64
    → Complete (drain_loop fuel p (b ∷ bs) now ctx)
unfolding drain_loop record_round
drain_loop-Complete zero p b bs now ctx enough small = absurd (omega arith)
drain_loop-Complete (suc fuel) p b bs now ctx enough small =
    let (q, c) = rxparser_feed p (b ∷ bs) now ctx in
    round-Complete fuel now (measure p (b ∷ bs) now) q c c.resume refl enough small
      (rxparser_feed-Less p b bs now ctx) (λ b' bs'. drain_loop-Complete fuel q b' bs' now c)

-- On every input that is not empty `rbp_rx_drain` ends by itself, having consumed all of it.
pub rx_drain-Complete :
    (p : RxParser) (b : ℕ) (bs : List ℕ) (now : ℕ) (ctx : RxContext)
    → length (b ∷ bs) < 2 ^ 64 - 1
    → let d = rx_drain p (b ∷ bs) now ctx in (d.ended ≡ true) × (d.context.resume ≡ [])
unfolding rx_drain
rx_drain-Complete p b bs now ctx fits =
    drain_loop-Complete (length (b ∷ bs) + 1) p b bs now ctx (measure-le p (b ∷ bs) now)
      (omega (arith, measure-le p (b ∷ bs) now))
