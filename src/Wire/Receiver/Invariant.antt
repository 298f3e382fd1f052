-- ===== src/Wire/Receiver/Invariant.antt =====
-- What holds of the receiver's state between calls.
use mi_remote_usb_bridge.Base.{
  ℕ, ◌≤◌, ◌<◌, ◌≡◌, ◌≢◌, refl, arith, List, [], ◌∷◌, ◌++◌, length, All, All-append, length-append,
  ◌&&◌, ◌==◌, ltb, leb, ==→ne, Bool-cases, inl, inr,
}
use mi_remote_usb_bridge.Wire.Cobs.Blocks.{NonZero}
use mi_remote_usb_bridge.Wire.Frame.{recv_max}
use mi_remote_usb_bridge.Wire.Receiver.{
  RxState, idle, in_frame, discard, RxParser, RxContext, rx_reset, Fed, continues, returns,
  feed_byte, feed_end, feed_loop, rxparser_feed, elapsed, is_in_frame,
}

-- The length that a run has in each state.
abbrev pub Fits : RxState → List ℕ → Type 0
Fits idle run = run ≡ []
Fits in_frame run = 1 ≤ length run
Fits discard run = Unit

-- The run fits the buffer and holds no delimiter, is empty while idle, and not in a frame.
pub record IsReceiver (p : RxParser) : Type 0 where
  pub bounded : length p.run ≤ recv_max
  pub nonzero : All NonZero p.run
  pub fits : Fits p.state p.run

pub rx_reset-IsReceiver : (now : ℕ) → IsReceiver (rx_reset now)
rx_reset-IsReceiver now = record { bounded = omega arith; nonzero = tt; fits = refl }

-- The parser that a round leaves.
abbrev after : Fed → RxParser
after (continues q) = q
after (returns q c) = q

abbrev parser : RxState → List ℕ → ℕ → RxParser
parser s run t = record { state = s; run = run; frame_start_ms = t }

dropped-IsReceiver :
    (run : List ℕ) (t : ℕ)
    → length run ≤ recv_max
    → All NonZero run
    → IsReceiver (parser discard run t)
dropped-IsReceiver run t h nz = record { bounded = h; nonzero = nz; fits = tt }

grown-IsReceiver :
    (run : List ℕ) (b t : ℕ)
    → length run < recv_max
    → All NonZero run
    → b ≢ 0
    → IsReceiver (parser in_frame (run ++ b ∷ []) t)
grown-IsReceiver run b t h nz hb = record {
  bounded = omega (arith, length-append run (b ∷ []));
  nonzero = All-append NonZero run (b ∷ []) nz (hb, tt);
  fits = omega (arith, length-append run (b ∷ []));
}

feed_byte-IsReceiver :
    (s : RxState) (run : List ℕ) (t : ℕ) (ctx : RxContext) (b now : ℕ)
    → IsReceiver (parser s run t)
    → IsReceiver (after (feed_byte (parser s run t) ctx b now))
unfolding feed_byte
feed_byte-IsReceiver idle run t ctx b now v = elim (Bool-cases (b == 0)) [
  | inl e ↦ rw e (rx_reset-IsReceiver now)
  | inr e ↦ rw e (grown-IsReceiver [] b now (omega arith) tt (==→ne b 0 e))
]
feed_byte-IsReceiver in_frame run t ctx b now v = elim (Bool-cases (b == 0)) [
  | inl e ↦ elim (Bool-cases (ltb 0 (length run))) [
    | inl f ↦ rw (e, f) (rx_reset-IsReceiver now)
    | inr f ↦ rw (e, f) (rx_reset-IsReceiver now)
  ]
  | inr e ↦ elim (Bool-cases (leb recv_max (length run))) [
    | inl f ↦ rw (e, f) (dropped-IsReceiver run t v.bounded v.nonzero)
    | inr f ↦ rw (e, f) (grown-IsReceiver run b t (ground arith) v.nonzero (==→ne b 0 e))
  ]
]
feed_byte-IsReceiver discard run t ctx b now v = elim (Bool-cases (b == 0)) [
  | inl e ↦ rw e (rx_reset-IsReceiver now)
  | inr e ↦ rw e v
]

feed_end-IsReceiver :
    (s : RxState) (run : List ℕ) (t : ℕ) (ctx : RxContext) (now : ℕ)
    → IsReceiver (parser s run t)
    → IsReceiver (feed_end (parser s run t) ctx now).0
unfolding feed_end
feed_end-IsReceiver idle run t ctx now v = v
feed_end-IsReceiver in_frame run t ctx now v = elim (Bool-cases (ltb 1000 (elapsed now t))) [
  | inl e ↦ rw e (dropped-IsReceiver [] t (omega arith) tt)
  | inr e ↦ rw e v
]
feed_end-IsReceiver discard run t ctx now v = v

feed_loop-IsReceiver :
    (bs : List ℕ) (p : RxParser) (ctx : RxContext) (now : ℕ)
    → IsReceiver p
    → IsReceiver (feed_loop p ctx bs now).0
unfolding feed_loop
feed_loop-IsReceiver [] p ctx now v = feed_end-IsReceiver p.state p.run p.frame_start_ms ctx now v
feed_loop-IsReceiver (b ∷ bs) p ctx now v =
    go (feed_byte p ctx b now) (feed_byte-IsReceiver p.state p.run p.frame_start_ms ctx b now v)
      (λ q. feed_loop-IsReceiver bs q ctx now)
  where
    go :
        (f : Fed)
        → IsReceiver (after f)
        → ((q : RxParser) → IsReceiver q → IsReceiver (feed_loop q ctx bs now).0)
        → IsReceiver (
            (elim f as (λ _. RxParser × RxContext) [
              | continues q ↦ feed_loop q ctx bs now
              | returns q c ↦ (q, record c { resume = bs })
            ]).0)
    go (continues q) h ih = ih q h
    go (returns q c) h ih = h

-- Every call of `rbp_rxparser_feed` keeps the invariant: the buffer is never overrun.
pub rxparser_feed-IsReceiver :
    (p : RxParser) (bytes : List ℕ) (now : ℕ) (ctx : RxContext)
    → IsReceiver p
    → IsReceiver (rxparser_feed p bytes now ctx).0
unfolding rxparser_feed
rxparser_feed-IsReceiver p bytes now ctx v =
    elim (Bool-cases (is_in_frame p.state && leb 1000 (elapsed now p.frame_start_ms))) [
      | inl e ↦ rw e (dropped-IsReceiver [] p.frame_start_ms (omega arith) tt)
      | inr e ↦ rw e (feed_loop-IsReceiver bytes p _ now v)
    ]
