-- ===== src/Wire/Frame.antt =====
-- The frame builder and encoder: `rbp_txseq_init` to `rbp_txframe_commit` of
-- protocol/src/rbp_frame.c. What a call writes through `out` is the list of those bytes; it is
-- empty when the call returns 0.
pub mod Encoding
pub mod Builder
use mi_remote_usb_bridge.Base.{
  ℕ, ◌+◌, ◌-◌, ◌%◌, ◌^◌, List, [], ◌∷◌, ◌++◌, Bool, true, false, not, ◌&&◌, ◌||◌, ◌==◌, ltb, Option,
  none, some, length, take, set, bit_xor, if◌then◌else◌,
}
use mi_remote_usb_bridge.Wire.Cobs.{Encoder, encoder_start, encode_byte}
use mi_remote_usb_bridge.Wire.Crc.{crc_byte}
use mi_remote_usb_bridge.Wire.Header.{
  Header, put32, header_pack, header_bytes, first_magic, second_magic, protocol_major,
  protocol_minor,
}

-- `RBP_MAX_PAYLOAD`, `RBP_MAX_ENCODED` and `RBP_COBS_RECV_MAX`
abbrev pub max_payload : ℕ
max_payload = 512

abbrev pub max_encoded : ℕ
max_encoded = 552

abbrev pub recv_max : ℕ
recv_max = 551

-- `rbp_txseq_t`
pub record TxSeq : Type 0 where
  pub next_tx_seq : ℕ

-- `rbp_txseq_init`
pub txseq_init : TxSeq
txseq_init = record { next_tx_seq = 1 }

-- `rbp_txframe_t`: the payload is `payload[0..payload_len)`.
pub record TxFrame : Type 0 where
  pub hdr : Header
  pub payload : List ℕ

-- `rbp_txframe_begin`
abbrev pub txframe_begin : Header → TxFrame
txframe_begin hdr = record { hdr = hdr; payload = [] }

-- `rbp_txframe_payload`
pub txframe_payload : TxFrame → List ℕ → TxFrame × Bool
txframe_payload f bytes =
    if ltb max_payload (length f.payload) || ltb (max_payload - length f.payload) (length bytes)
    then (f, false)
    else (record f { payload = f.payload ++ bytes }, true)

-- The variables of the loops of `encode_payload`.
pub record Streamer : Type 0 where
  pub cobs : Encoder
  pub crc : ℕ

-- One byte of part 0 or 1, which the checksum covers.
pub stream_data : Streamer → List ℕ → Streamer
stream_data s [] = s
stream_data s (b ∷ bs) =
    stream_data (record { cobs = encode_byte s.cobs b; crc = crc_byte s.crc b }) bs

-- The bytes of part 2, the checksum itself.
pub stream_tail : Encoder → List ℕ → Encoder
stream_tail e [] = e
stream_tail e (b ∷ bs) = stream_tail (encode_byte e b) bs

-- `*codep = code; *dst++ = 0;`
abbrev pub end_frame : Encoder → List ℕ
end_frame e = set e.dst e.codep e.code ++ 0 ∷ []

-- The three parts in order.
pub stream_frame : Header → List ℕ → List ℕ
unfolding stream_data stream_tail
stream_frame h bytes =
    let start : Streamer = record { cobs = encoder_start; crc = 0xffff_ffff } in
    let body = stream_data (stream_data start (header_pack h)) bytes in
    end_frame (stream_tail body.cobs (put32 (bit_xor body.crc 0xffff_ffff)))

-- The header as `encode_payload` completes it.
abbrev pub completed : Header → TxSeq → ℕ → Header
completed h seq len = record h {
  magic0 = first_magic;
  magic1 = second_magic;
  major = protocol_major;
  minor = protocol_minor;
  header_size = header_bytes;
  tx_seq = seq.next_tx_seq;
  reserved = 0;
  payload_size = len % 2 ^ 16;
}

-- `p[0..n)` of a payload pointer that may be NULL.
abbrev pub pointed : Option (List ℕ) → ℕ → List ℕ
pointed none n = []
pointed (some bytes) n = take n bytes

abbrev pub is_null : Option (List ℕ) → Bool
is_null none = true
is_null (some bytes) = false

-- What `encode_payload` leaves behind `out`, `h` and `seq`.
pub record Encoded : Type 0 where
  pub out : List ℕ
  pub header : Header
  pub seq : TxSeq

pub encode_payload : Header → TxSeq → Option (List ℕ) → ℕ → Encoded
encode_payload h seq payload len =
    if ltb max_payload len || not (len == 0) && is_null payload
    then record { out = []; header = h; seq = seq }
    else record {
      out = stream_frame (completed h seq len) (pointed payload len);
      header = completed h seq len;
      seq = record { next_tx_seq = (seq.next_tx_seq + 1) % 2 ^ 32 };
    }

-- `rbp_frame_encode` completes a copy of the header.
pub frame_encode : Header → TxSeq → Option (List ℕ) → ℕ → List ℕ × TxSeq
unfolding encode_payload
frame_encode hdr seq payload len = let e = encode_payload hdr seq payload len in (e.out, e.seq)

-- `rbp_txframe_commit` completes the header of the frame.
pub txframe_commit : TxFrame → TxSeq → List ℕ × TxFrame × TxSeq
unfolding encode_payload
txframe_commit f seq =
    let e = encode_payload f.hdr seq (some f.payload) (length f.payload) in
    (e.out, record f { hdr = e.header }, e.seq)
