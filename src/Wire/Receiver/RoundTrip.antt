-- ===== src/Wire/Receiver/RoundTrip.antt =====
-- The receiver gives back the frames that the encoder wrote.
use mi_remote_usb_bridge.Base.{
  ℕ, ◌+◌, ◌-◌, ◌≤◌, ◌<◌, ◌≡◌, ◌≢◌, sym, ap, ◌∙◌, arith, List, [], ◌∷◌, ◌++◌, length, true, ◌==◌,
  ltb, if◌then◌else◌, gt→leb, le→leb, lt→ltb, ge→ltb, All, take, drop, take_at, drop_at,
  length-append, append_assoc, append-nil, ==_ne, ==_refl,
}
use mi_remote_usb_bridge.Wire.Cobs.Blocks.{NonZero}
use mi_remote_usb_bridge.Wire.Cobs.InPlace.{decode_in_place}
use mi_remote_usb_bridge.Wire.Crc.{crc32c}
use mi_remote_usb_bridge.Wire.Crc.Serial.{crc32c-bound}
use mi_remote_usb_bridge.Wire.Frame.{recv_max, max_payload}
use mi_remote_usb_bridge.Wire.Frame.Encoding.{raw_frame}
use mi_remote_usb_bridge.Wire.Header.{
  Header, IsHeader, header_pack, header_parse, header_ok, put32, get32, get32-put32,
  header_parse-header_pack, length-header_pack,
}
use mi_remote_usb_bridge.Wire.Receiver.{
  RxState, idle, in_frame, RxParser, frame, RxContext, rx_reset, continues, returns, feed_byte,
  feed_loop, accept_frame, close_context, max_frame_raw,
}

abbrev pub parser : RxState → List ℕ → ℕ → RxParser
parser s run t = record { state = s; run = run; frame_start_ms = t }

-- One round of the loop, by what it does with its byte.
pub feed_loop_continues :
    (p : RxParser) {q : RxParser} (ctx : RxContext) (b : ℕ) (bs : List ℕ) (now : ℕ)
    → feed_byte p ctx b now ≡ continues q
    → feed_loop p ctx (b ∷ bs) now ≡ feed_loop q ctx bs now
unfolding feed_loop
feed_loop_continues p ctx b bs now e = rw (e, feed_loop)

pub feed_loop_returns :
    (p : RxParser) {q : RxParser} (ctx : RxContext) {c : RxContext} (b : ℕ) (bs : List ℕ) (now : ℕ)
    → feed_byte p ctx b now ≡ returns q c
    → feed_loop p ctx (b ∷ bs) now ≡ (q, record c { resume = bs })
unfolding feed_loop
feed_loop_returns p ctx b bs now e = rw (e, feed_loop)

-- Bytes that are not zero extend the run.
feed_byte-data :
    (b : ℕ) (acc : List ℕ) (t : ℕ) (ctx : RxContext) (now : ℕ)
    → b ≢ 0
    → length acc < recv_max
    → feed_byte (parser in_frame acc t) ctx b now ≡ continues (parser in_frame (acc ++ b ∷ []) t)
unfolding feed_byte
feed_byte-data b acc t ctx now nz room = rw (==_ne b 0 nz, gt→leb recv_max (length acc) room)

feed_loop-run :
    (run acc : List ℕ) (t : ℕ) (ctx : RxContext) (bs : List ℕ) (now : ℕ)
    → All NonZero run
    → length acc + length run ≤ recv_max
    → feed_loop (parser in_frame acc t) ctx (run ++ bs) now
      ≡ feed_loop (parser in_frame (acc ++ run) t) ctx bs now
feed_loop-run [] acc t ctx bs now nz room =
    ap (λ l. feed_loop (parser in_frame l t) ctx bs now) (sym (append-nil acc))
feed_loop-run (b ∷ run) acc t ctx bs now nz room =
    feed_loop_continues _ ctx b (run ++ bs) now (feed_byte-data b acc t ctx now nz.0 (omega arith))
    ∙ feed_loop-run run (acc ++ b ∷ []) t ctx bs now nz.1
        (omega (arith, length-append acc (b ∷ [])))
    ∙ ap (λ l. feed_loop (parser in_frame l t) ctx bs now) (append_assoc acc (b ∷ []) run)

feed_byte-delimiter :
    (run : List ℕ) (t : ℕ) (ctx : RxContext) (now : ℕ)
    → 1 ≤ length run
    → feed_byte (parser in_frame run t) ctx 0 now
      ≡ returns (rx_reset now) (close_context ctx (decode_in_place run))
unfolding feed_byte
feed_byte-delimiter run t ctx now h = rw (lt→ltb 0 (length run) h)

feed_byte-first :
    (b t : ℕ) (ctx : RxContext) (now : ℕ)
    → b ≢ 0
    → feed_byte (parser idle [] t) ctx b now ≡ continues (parser in_frame (b ∷ []) now)
unfolding feed_byte
feed_byte-first b t ctx now nz = rw (==_ne b 0 nz)

-- A whole run with its delimiter, from the idle state.
pub feed_loop_record :
    (run : List ℕ) (t : ℕ) (ctx : RxContext) (bs : List ℕ) (now : ℕ)
    → All NonZero run
    → 1 ≤ length run
    → length run ≤ recv_max
    → feed_loop (parser idle [] t) ctx (run ++ 0 ∷ bs) now
      ≡ (rx_reset now, record (close_context ctx (decode_in_place run)) { resume = bs })
feed_loop_record [] t ctx bs now nz some fits = absurd (omega arith)
feed_loop_record (b ∷ run) t ctx bs now nz some fits =
    feed_loop_continues _ ctx b (run ++ 0 ∷ bs) now (feed_byte-first b t ctx now nz.0)
    ∙ feed_loop-run run (b ∷ []) now ctx (0 ∷ bs) now nz.1 (omega arith)
    ∙ feed_loop_returns _ ctx 0 bs now (feed_byte-delimiter (b ∷ run) now ctx now some)

-- The context for a frame with header `h` and payload `bytes`.
abbrev pub received : RxContext → Header → List ℕ → List ℕ → RxContext
received ctx h bytes rest = record ctx {
  event = frame;
  header = h;
  payload = bytes;
  crc_ok = true;
  resume = rest;
}

close_context_parsed :
    (ctx : RxContext) (raw : List ℕ) (h : Header)
    → header_parse raw ≡ (h, true)
    → 36 ≤ length raw
    → length raw ≤ max_frame_raw
    → close_context ctx raw ≡ accept_frame ctx raw h
unfolding close_context
close_context_parsed ctx raw h parsed lo hi =
    rw (le→leb 36 (length raw) lo, le→leb (length raw) max_frame_raw hi, parsed)

-- What `accept_frame` cuts out of a record: all but the header and the checksum, and a match.
module _ (h : Header) (bytes : List ℕ) where
  abbrev body : List ℕ
  body = header_pack h ++ bytes

  abbrev tail : List ℕ
  tail = put32 (crc32c body)

  length-body : length body ≡ length bytes + 32
  length-body = omega (arith, length-append (header_pack h) bytes, length-header_pack h)

  length-record : length (body ++ tail) ≡ length bytes + 36
  length-record = omega (arith, length-append body tail, length-body)

  cut_payload : take (length (body ++ tail) - 32 - 4) (drop 32 (body ++ tail)) ≡ bytes
  cut_payload =
      ap (λ l. take (length (body ++ tail) - 32 - 4) (drop 32 l))
        (append_assoc (header_pack h) bytes tail)
      ∙ ap (take (length (body ++ tail) - 32 - 4))
          (drop_at 32 (header_pack h) (bytes ++ tail) (sym (length-header_pack h)))
      ∙ take_at (length (body ++ tail) - 32 - 4) bytes tail (omega (arith, length-record))

  crc_matches :
      crc32c (take (length (body ++ tail) - 4) (body ++ tail))
      ≡ get32 (body ++ tail) (length (body ++ tail) - 4)
  crc_matches =
      ap crc32c (take_at (length (body ++ tail) - 4) body tail at)
      ∙ sym (get32-put32 body (crc32c body) (crc32c-bound body))
      ∙ ap (get32 (body ++ tail)) (sym at)
    where
      at : length (body ++ tail) - 4 ≡ length body
      at = omega (arith, length-record, length-body)

pub close_context-raw_frame :
    (ctx : RxContext) (h : Header) (bytes : List ℕ)
    → IsHeader h
    → header_ok h ≡ true
    → length bytes ≤ max_payload
    → close_context ctx (raw_frame h bytes)
      ≡ record ctx { event = frame; header = h; payload = bytes; crc_ok = true }
unfolding raw_frame
close_context-raw_frame ctx h bytes v good fits =
    close_context_parsed ctx raw h parsed (omega (arith, length-record h bytes))
      (omega (arith, length-record h bytes))
    ∙ λ i. record ctx { event = frame; header = h; payload = cut i; crc_ok = matched i }
  where
    raw : List ℕ
    raw = body h bytes ++ tail h bytes

    parsed : header_parse raw ≡ (h, true)
    parsed =
        ap header_parse (append_assoc (header_pack h) bytes (tail h bytes))
        ∙ header_parse-header_pack h (bytes ++ tail h bytes) v
        ∙ ap (λ b. (h, b)) good

    cut :
        take
          (if ltb max_payload (length raw - 32 - 4) then max_payload else length raw - 32 - 4)
          (drop 32 raw)
        ≡ bytes
    cut =
        rw (ge→ltb max_payload (length raw - 32 - 4) (omega (arith, length-record h bytes)))
          (cut_payload h bytes)

    matched : (crc32c (take (length raw - 4) raw) == get32 raw (length raw - 4)) ≡ true
    matched = rw (crc_matches h bytes) (==_refl (get32 raw (length raw - 4)))
