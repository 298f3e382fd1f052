-- ===== src/Wire/Tests.antt =====
-- The frame layer on concrete inputs: runs, and the theorems at inputs that meet their hypotheses.
use mi_remote_usb_bridge.Base.{
  ℕ, ◌-◌, ◌≤◌, ◌≡◌, refl, arith, List, [], ◌∷◌, ◌++◌, length, All, map, replicate, true, false,
  some, if◌then◌else◌,
}
use mi_remote_usb_bridge.Wire.Cobs.{cobs_encode, cobs_decode}
use mi_remote_usb_bridge.Wire.Cobs.Blocks.{NonZero}
use mi_remote_usb_bridge.Wire.Cobs.Decode.{length-cobs_decode}
use mi_remote_usb_bridge.Wire.Cobs.RoundTrip.{cobs_decode-cobs_encode}
use mi_remote_usb_bridge.Wire.Cobs.InPlace.{decode_in_place}
use mi_remote_usb_bridge.Wire.Cobs.InPlace.Agree.{decode_in_place-cobs_decode}
use mi_remote_usb_bridge.Wire.Crc.{crc32c}
use mi_remote_usb_bridge.Wire.Crc.Serial.{serial, crc32c-serial}
use mi_remote_usb_bridge.Wire.Header.{
  Header, IsHeader, header_pack, header_parse, header_ok, header_parse-header_pack,
}
use mi_remote_usb_bridge.Wire.Frame.{
  TxSeq, completed, stream_frame, encode_payload, frame_encode, max_encoded, recv_max,
  txframe_begin, txframe_payload, txframe_commit, max_payload,
}
use mi_remote_usb_bridge.Wire.Frame.Encoding.{
  raw_frame, stream_frame-cobs_encode, encode_payload_bounds,
}
use mi_remote_usb_bridge.Wire.Frame.Builder.{
  append_pieces, concat, txframe_commit-append_pieces, txframe_payload_bound,
}
use mi_remote_usb_bridge.Wire.Receiver.{
  RxParser, RxContext, idle, in_frame, no_event, frame, rx_reset, rxparser_feed, rx_drain,
}
use mi_remote_usb_bridge.Wire.Receiver.Invariant.{IsReceiver, rxparser_feed-IsReceiver}
use mi_remote_usb_bridge.Wire.Receiver.Drain.{rx_drain-Complete}
use mi_remote_usb_bridge.Wire.Receiver.RoundTrip.{parser, received}
use mi_remote_usb_bridge.Wire.Receiver.Stream.{
  Sendable, AllSendable, delivery, deliveries, encode_all, rxparser_feed-frame_encode,
  rx_drain-encode_all,
}
use mi_remote_usb_bridge.Wire.Receiver.Resync.{rx_drain_resync}

-- A block that runs past its end.
abbrev cut_short : List ℕ
cut_short = 3 ∷ 7 ∷ []

-- A PING request.
abbrev ping : Header
ping = record {
  magic0 = 0;
  magic1 = 0;
  major = 0;
  minor = 0;
  kind = 1;
  flags = 0;
  header_size = 0;
  session_id = 0x0102_0304;
  tx_seq = 0;
  request_id = 7;
  opcode = 2;
  status = 0;
  payload_size = 0;
  reserved = 0;
  connection_id = 0;
}

ping-IsHeader : IsHeader ping
ping-IsHeader = omega arith

abbrev first : TxSeq
first = record { next_tx_seq = 1 }

-- The number after which the sequence wraps.
abbrev last : TxSeq
last = record { next_tx_seq = 0xffff_ffff }

abbrev five : List ℕ
five = 1 ∷ 0 ∷ 0 ∷ 200 ∷ 5 ∷ []

ping-Sendable : Sendable ping first five
ping-Sendable = record { header = ping-IsHeader; number = omega arith; fits = omega arith }

abbrev blank : RxContext
blank = record { event = no_event; header = ping; payload = []; crc_ok = false; resume = [] }

-- In the middle of a run that began 1500 ms before the time 2000.
abbrev half_frame : RxParser
half_frame = parser in_frame (9 ∷ 8 ∷ []) 500

half_frame-IsReceiver : IsReceiver half_frame
half_frame-IsReceiver = omega arith

abbrev two_frames : List (Header × List ℕ)
two_frames = (ping, five) ∷ (ping, []) ∷ []

two_frames-AllSendable : AllSendable two_frames
two_frames-AllSendable = (ping-IsHeader, omega arith, (ping-IsHeader, omega arith, tt))

cobs_five : cobs_encode five ≡ 2 ∷ 1 ∷ 1 ∷ 3 ∷ 200 ∷ 5 ∷ []
unfolding cobs_encode
cobs_five = refl

cobs_full_block : cobs_encode (replicate 254 7) ≡ 255 ∷ (replicate 254 7 ++ 1 ∷ [])
unfolding cobs_encode
cobs_full_block = refl

decode_in_place_run : decode_in_place (2 ∷ 1 ∷ 1 ∷ 3 ∷ 200 ∷ 5 ∷ []) ≡ five
unfolding decode_in_place
decode_in_place_run = refl

rx_drain-encode_all_example :
    map delivery (rx_drain (parser idle [] 0) (encode_all last two_frames) 5 blank).events
    ≡ deliveries last two_frames
rx_drain-encode_all_example =
    rx_drain-encode_all two_frames last 0 5 blank two_frames-AllSendable (omega arith) (omega arith)

rx_drain_resync_example :
    let d = rx_drain half_frame (0 ∷ (frame_encode ping first (some five) 5).0) 2000 blank in
    (d.parser ≡ rx_reset 2000)
    × (d.context.event ≡ frame)
    × (d.context.header ≡ completed ping first 5)
    × (d.context.payload ≡ five)
    × (d.context.crc_ok ≡ true)
    × (d.context.resume ≡ [])
rx_drain_resync_example = rx_drain_resync ping first five ping-Sendable 2000 half_frame blank

rxparser_feed-frame_encode_example :
    rxparser_feed (parser idle [] 0) ((frame_encode ping first (some five) 5).0 ++ 3 ∷ []) 10 blank
    ≡ (rx_reset 10, received blank (completed ping first 5) five (3 ∷ []))
rxparser_feed-frame_encode_example =
    rxparser_feed-frame_encode ping first five ping-Sendable 0 blank (3 ∷ []) 10

stream_frame-cobs_encode_example :
    stream_frame ping five ≡ cobs_encode (raw_frame ping five) ++ 0 ∷ []
stream_frame-cobs_encode_example = stream_frame-cobs_encode ping five

crc32c-serial_example : crc32c five ≡ serial five
crc32c-serial_example = crc32c-serial five (omega arith)

cobs_decode-cobs_encode_example : cobs_decode (cobs_encode five) ≡ five
cobs_decode-cobs_encode_example = cobs_decode-cobs_encode five

decode_in_place-cobs_decode_example : decode_in_place cut_short ≡ cobs_decode cut_short
decode_in_place-cobs_decode_example = decode_in_place-cobs_decode cut_short

rx_drain-Complete_example :
    let d = rx_drain half_frame (1 ∷ 0 ∷ 2 ∷ []) 2000 blank in
    (d.ended ≡ true) × (d.context.resume ≡ [])
rx_drain-Complete_example = rx_drain-Complete half_frame 1 (0 ∷ 2 ∷ []) 2000 blank (omega arith)

rxparser_feed-IsReceiver_example : IsReceiver (rxparser_feed half_frame (4 ∷ 0 ∷ []) 600 blank).0
rxparser_feed-IsReceiver_example =
    rxparser_feed-IsReceiver half_frame (4 ∷ 0 ∷ []) 600 blank half_frame-IsReceiver

encode_payload_bounds_example :
    let out = (encode_payload ping first (some five) 5).out in
    (length out ≤ max_encoded)
    × ((run : List ℕ) × (out ≡ run ++ 0 ∷ []) × All NonZero run × (length run ≤ recv_max))
encode_payload_bounds_example = encode_payload_bounds ping first five (omega arith)

header_parse-header_pack_example : header_parse (header_pack ping ++ five) ≡ (ping, header_ok ping)
header_parse-header_pack_example = header_parse-header_pack ping five ping-IsHeader

length-cobs_decode_example : length (cobs_decode cut_short) ≤ length cut_short - 1
length-cobs_decode_example = length-cobs_decode cut_short

txframe_commit-append_pieces_example :
    let (out, f, seq') =
      txframe_commit (append_pieces (txframe_begin ping) (five ∷ [] ∷ five ∷ [])) last in
    (out, seq')
    ≡ frame_encode ping last
        (some (concat (five ∷ [] ∷ five ∷ [])))
        (length (concat (five ∷ [] ∷ five ∷ [])))
txframe_commit-append_pieces_example =
    txframe_commit-append_pieces ping last (five ∷ [] ∷ five ∷ []) (omega arith)

txframe_payload_bound_example :
    let (f, taken) = txframe_payload (txframe_begin ping) five in
    (length f.payload ≤ max_payload)
    × (f ≡ (
        if taken
        then record (txframe_begin ping) { payload = (txframe_begin ping).payload ++ five }
        else txframe_begin ping))
txframe_payload_bound_example = txframe_payload_bound (txframe_begin ping) five (omega arith)
