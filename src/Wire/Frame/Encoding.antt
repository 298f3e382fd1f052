-- ===== src/Wire/Frame/Encoding.antt =====
-- The streaming encoder against the frame layout: COBS of header, payload and CRC-32C, then a
-- zero.
use mi_remote_usb_bridge.Base.{
  ℕ, ◌+◌, ◌%◌, ◌^◌, ◌≤◌, ◌≡◌, refl, sym, ap, ◌∙◌, arith, List, [], ◌∷◌, ◌++◌, length, All, bit_xor,
  length-append, some, ge→ltb, take_all, false, not, ◌&&◌, ◌==◌,
}
use mathlib.Core.Path.{ap₂}
use mi_remote_usb_bridge.Wire.Cobs.{Encoder, encoder_start, encode_byte, encode_loop, cobs_encode}
use mi_remote_usb_bridge.Wire.Cobs.Blocks.{NonZero, cobs_encode_nonzero, length-cobs_encode}
use mi_remote_usb_bridge.Wire.Crc.{crc_byte, crc_loop, crc32c}
use mi_remote_usb_bridge.Wire.Header.{Header, put32, header_pack, length-header_pack}
use mi_remote_usb_bridge.Wire.Frame.{
  Streamer, stream_data, stream_tail, end_frame, stream_frame, TxSeq, completed, encode_payload,
  frame_encode, max_payload, max_encoded, recv_max,
}

-- The frame before stuffing.
unfoldable pub raw_frame : Header → List ℕ → List ℕ
raw_frame h bytes = (header_pack h ++ bytes) ++ put32 (crc32c (header_pack h ++ bytes))

stream_data-loops :
    (s : Streamer) (bs : List ℕ)
    → stream_data s bs ≡ record { cobs = encode_loop s.cobs bs; crc = crc_loop s.crc bs }
unfolding stream_data encode_loop crc_loop
stream_data-loops s [] = refl
stream_data-loops s (b ∷ bs) =
    stream_data-loops (record { cobs = encode_byte s.cobs b; crc = crc_byte s.crc b }) bs

stream_tail-loop : (e : Encoder) (bs : List ℕ) → stream_tail e bs ≡ encode_loop e bs
unfolding stream_tail encode_loop
stream_tail-loop e [] = refl
stream_tail-loop e (b ∷ bs) = stream_tail-loop (encode_byte e b) bs

encode_loop-append :
    (e : Encoder) (xs ys : List ℕ) → encode_loop e (xs ++ ys) ≡ encode_loop (encode_loop e xs) ys
unfolding encode_loop
encode_loop-append e [] ys = refl
encode_loop-append e (x ∷ xs) ys = encode_loop-append (encode_byte e x) xs ys

crc_loop-append : (c : ℕ) (xs ys : List ℕ) → crc_loop c (xs ++ ys) ≡ crc_loop (crc_loop c xs) ys
unfolding crc_loop
crc_loop-append c [] ys = refl
crc_loop-append c (x ∷ xs) ys = crc_loop-append (crc_byte c x) xs ys

-- The three-part loop writes the stuffed frame and its delimiter, with no copy of the raw frame.
pub stream_frame-cobs_encode :
    (h : Header) (bytes : List ℕ) → stream_frame h bytes ≡ cobs_encode (raw_frame h bytes) ++ 0 ∷ []
unfolding stream_frame raw_frame cobs_encode crc32c
stream_frame-cobs_encode h bytes = ap end_frame (
    stream_tail-loop read.cobs (put32 (bit_xor read.crc 0xffff_ffff))
    ∙ ap₂ (λ c t. encode_loop c (put32 (bit_xor t 0xffff_ffff))) (ap (λ s. s.cobs) body)
        (ap (λ s. s.crc) body)
    ∙ sym (encode_loop-append encoder_start (header_pack h ++ bytes) _))
  where
    start : Streamer
    start = record { cobs = encoder_start; crc = 0xffff_ffff }

    read : Streamer
    read = stream_data (stream_data start (header_pack h)) bytes

    both : Streamer
    both = record {
      cobs = encode_loop encoder_start (header_pack h ++ bytes);
      crc = crc_loop 0xffff_ffff (header_pack h ++ bytes);
    }

    body : read ≡ both
    body =
        ap (λ s. stream_data s bytes) (stream_data-loops start (header_pack h))
        ∙ stream_data-loops _ bytes
        ∙ ap₂ {C = Streamer} (λ e c. record { cobs = e; crc = c })
            (sym (encode_loop-append encoder_start (header_pack h) bytes))
            (sym (crc_loop-append 0xffff_ffff (header_pack h) bytes))

pub length-raw_frame :
    (h : Header) (bytes : List ℕ) → length (raw_frame h bytes) ≡ length bytes + 36
unfolding raw_frame
length-raw_frame h bytes = omega (
  arith,
  length-append (header_pack h ++ bytes) (put32 (crc32c (header_pack h ++ bytes))),
  length-append (header_pack h) bytes,
  length-header_pack h,
)

-- A call with a payload within the limit writes the stuffed frame of the completed header and its delimiter, and takes
-- one sequence number.
encode_payload_accepted :
    (h : Header) (seq : TxSeq) (bytes : List ℕ)
    → length bytes ≤ max_payload
    → let h' = completed h seq (length bytes) in
      encode_payload h seq (some bytes) (length bytes) ≡ record {
        out = cobs_encode (raw_frame h' bytes) ++ 0 ∷ [];
        header = h';
        seq = record { next_tx_seq = (seq.next_tx_seq + 1) % 2 ^ 32 };
      }
unfolding encode_payload
encode_payload_accepted h seq bytes fits =
    rw (ge→ltb max_payload (length bytes) fits, never_null, take_all bytes)
      (λ i. record {
        out = stream_frame-cobs_encode (completed h seq (length bytes)) bytes i;
        header = completed h seq (length bytes);
        seq = record { next_tx_seq = (seq.next_tx_seq + 1) % 2 ^ 32 };
      })
  where
    never_null : not (length bytes == 0) && false ≡ false
    never_null = ground arith

-- A frame on the wire fits `RBP_MAX_ENCODED` bytes, its run fits the receiver's buffer, and its only zero is the
-- delimiter.
pub encode_payload_bounds :
    (h : Header) (seq : TxSeq) (bytes : List ℕ)
    → length bytes ≤ max_payload
    → let out = (encode_payload h seq (some bytes) (length bytes)).out in
      (length out ≤ max_encoded)
      × ((run : List ℕ) × (out ≡ run ++ 0 ∷ []) × All NonZero run × (length run ≤ recv_max))
encode_payload_bounds h seq bytes fits =
    rw (encode_payload_accepted h seq bytes fits) (
      omega (arith, bound, length-append run (0 ∷ [])),
      (run, refl, cobs_encode_nonzero raw, bound),
    )
  where
    raw : List ℕ
    raw = raw_frame (completed h seq (length bytes)) bytes

    run : List ℕ
    run = cobs_encode raw

    bound : length run ≤ recv_max
    bound =
        omega
          (arith, length-cobs_encode raw, length-raw_frame (completed h seq (length bytes)) bytes)

pub frame_encode_accepted :
    (h : Header) (seq : TxSeq) (bytes : List ℕ)
    → length bytes ≤ max_payload
    → frame_encode h seq (some bytes) (length bytes) ≡ (
      cobs_encode (raw_frame (completed h seq (length bytes)) bytes) ++ 0 ∷ [],
      record { next_tx_seq = (seq.next_tx_seq + 1) % 2 ^ 32 },
    )
unfolding frame_encode
frame_encode_accepted h seq bytes fits =
    ap (λ e. (e.out, e.seq)) (encode_payload_accepted h seq bytes fits)

pub length-frame_encode :
    (h : Header) (seq : TxSeq) (bytes : List ℕ)
    → length bytes ≤ max_payload
    → length (frame_encode h seq (some bytes) (length bytes)).0 ≤ max_encoded
unfolding frame_encode
length-frame_encode h seq bytes fits = (encode_payload_bounds h seq bytes fits).0
