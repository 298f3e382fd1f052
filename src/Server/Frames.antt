-- ===== src/Server/Frames.antt =====
-- The frames of the host and the start of the server: `rbp_server_init`, `handle_hello`,
-- `process_frame`, `server_rx_event` and `rbp_server_on_usb_rx` of firmware/product/rbp_server.c.
use mi_remote_usb_bridge.Base.{
  ℕ, ◌+◌, ◌-◌, ◌^◌, List, [], ◌∷◌, Bool, true, not, ◌&&◌, ◌||◌, leb, ◌==◌, ◌!=◌, if◌then◌else◌,
  Option, none, some, length, take,
}
use mi_remote_usb_bridge.Server.Codes
use mi_remote_usb_bridge.Server.Control.{no_header, ctl_enqueue}
use mi_remote_usb_bridge.Server.Dispatch.{dispatch_request}
use mi_remote_usb_bridge.Server.Output.{protocol_error, session_teardown, session_create, out_drain}
use mi_remote_usb_bridge.Server.Put
use mi_remote_usb_bridge.Server.Put.{◌▸◌}
use mi_remote_usb_bridge.Server.Requests.{
  codes, required, response_message, refuse, refuse_silently,
}
use mi_remote_usb_bridge.Server.Ring.{out_ring_size, ring_write}
use mi_remote_usb_bridge.Server.State.{Server, Env, Session}
use mi_remote_usb_bridge.Tlv.Getters.{get_bytes}
use mi_remote_usb_bridge.Tlv.Reader.{reader_init}
use mi_remote_usb_bridge.Tlv.Writer.{Writer, writer_init}
use mi_remote_usb_bridge.Wire.Frame.{max_payload, txseq_init, frame_encode}
use mi_remote_usb_bridge.Wire.Header.{
  Header, header_bytes, first_magic, second_magic, protocol_major, protocol_minor,
}
use mi_remote_usb_bridge.Wire.Receiver.{RxContext, frame, no_event, rx_drain}

-- `header_shape_ok`
unfoldable pub hello_shape_ok : Header → ℕ → Bool
hello_shape_ok h len =
    (h.kind == Codes.kind_request)
    && ((h.flags == 0)
        && ((h.status == 0)
            && ((h.session_id == 0)
                && ((h.connection_id == 0)
                    && ((h.request_id == 1)
                        && ((h.tx_seq == 1)
                            && ((h.payload_size == len)
                                && ((h.magic0 == first_magic)
                                    && ((h.magic1 == second_magic)
                                        && ((h.header_size == header_bytes)
                                            && (h.reserved == 0)))))))))))

-- `h->major != RBP_MAJOR || h->minor != RBP_MINOR`
abbrev pub other_version : Header → Bool
other_version h = (h.major != protocol_major) || (h.minor != protocol_minor)

-- The nonce of 16 bytes, where there is one.
abbrev pub nonce_of : List ℕ → Option (List ℕ)
nonce_of payload = elim (required (get_bytes (reader_init payload) 1)) [
  | none ↦ none
  | some nonce ↦ if length nonce == 16 then some nonce else none
]

-- The answer to a host of another version, a frame of no session.
abbrev pub mismatch_header : Header
mismatch_header = record no_header {
  kind = Codes.kind_response;
  tx_seq = 1;
  request_id = 1;
  opcode = Codes.op_hello;
  status = Codes.status_version_mismatch;
}

unfoldable pub answer_mismatch : Env → Option (List ℕ) → Server → Server
unfolding ring_write out_drain
answer_mismatch e nonce s =
    let w : Writer = elim nonce [ none ↦ writer_init | some n ↦ writer_init ▸ Put.bytes 3 n ] in
    let bytes = (frame_encode mismatch_header txseq_init (some w.buf) (length w.buf)).0 in
    out_drain e (record s { out = (ring_write out_ring_size s.out bytes).0 })

-- The features that the server tells.
abbrev pub features : ℕ
features =
    Codes.feat_encoded_voice + Codes.feat_interactive_pair + Codes.feat_bond_save
    + Codes.feat_auto_reconnect

abbrev pub version_text : Option (List ℕ) → List ℕ
version_text none = codes "0.0"
version_text (some version) = version

abbrev pub hello_tlv : Server → List ℕ → Writer
hello_tlv s nonce =
    writer_init
    ▸ Put.bytes 1 nonce
    ▸ Put.bytes 2 (take 16 s.cfg.bridge_uid)
    ▸ Put.text 3 (version_text s.cfg.firmware_version)
    ▸ Put.u8 4 s.cfg.max_keys
    ▸ Put.u16 5 max_payload
    ▸ Put.u32 6 features

-- The session that a host opens.
abbrev pub greeted : Session → Header → Session
greeted session h = record session {
  req_hwm = h.request_id;
  client_tx_hwm = 1;
  have_client_seq = true;
}

unfoldable pub open_session : Env → Header → List ℕ → Server → Server
unfolding session_create ctl_enqueue out_drain
open_session e h nonce s =
    let created = session_create e s in
    let t = record created { session = greeted created.session h } in
    out_drain e (
      ctl_enqueue e
        (record (response_message h Codes.status_ok (hello_tlv t nonce).buf) {
          opcode = Codes.op_hello;
          connection_id = 0;
        })
        t)

-- `handle_hello`. The source's last test, of a session other than 0, is part of the header's shape.
unfoldable pub handle_hello : Env → Header → List ℕ → Server → Server
unfolding hello_shape_ok get_bytes answer_mismatch refuse out_drain open_session
handle_hello e h payload s =
    let greeting : Server = elim (nonce_of payload) [
      | none ↦ out_drain e (refuse e h Codes.status_invalid_argument "nonce required" s)
      | some nonce ↦ open_session e h nonce s
    ] in
    if not (hello_shape_ok h (length payload))
    then protocol_error s
    else if other_version h
    then answer_mismatch e (nonce_of payload) s
    else greeting

-- `if(s->session_active)session_teardown(s);`
unfoldable pub close_active : Env → Server → Server
unfolding session_teardown
close_active e s = if s.session.active then session_teardown e s else s

-- A request of the session, whose sequence number has been checked.
unfoldable pub accept_request : Env → Header → List ℕ → Server → Server
unfolding refuse refuse_silently dispatch_request
accept_request e h payload s =
    let t = record s {
      session = record s.session { client_tx_hwm = h.tx_seq; last_req_ms = s.now_ms };
    } in
    if h.request_id == 0
    then refuse e h Codes.status_invalid_argument "request_id required" t
    else if leb h.request_id t.session.req_hwm
    then refuse_silently e h Codes.status_duplicate t
    else dispatch_request e h payload
        (record t { session = record t.session { req_hwm = h.request_id } })

-- Whether a request is of another session, or out of sequence in this one.
abbrev pub other_session : Server → Header → Bool
other_session s h = not s.session.active || (h.session_id != s.session.id)

abbrev pub out_of_sequence : Server → Header → Bool
out_of_sequence s h =
    (h.tx_seq == 0)
    || ((s.session.client_tx_hwm == 2 ^ 32 - 1) || (h.tx_seq != s.session.client_tx_hwm + 1))

-- A request that is no greeting.
unfoldable pub process_request : Env → Header → List ℕ → Server → Server
unfolding close_active session_teardown accept_request
process_request e h payload s =
    if other_version h
    then close_active e s
    else if other_session s h
    then s
    else if out_of_sequence s h
    then session_teardown e (protocol_error s)
    else accept_request e h payload s

-- `process_frame`
unfoldable pub process_frame : Env → Header → List ℕ → Bool → Server → Server
unfolding session_teardown close_active handle_hello process_request
process_frame e h payload crc_ok s =
    if not crc_ok
    then if s.session.active then session_teardown e (protocol_error s) else s
    else if (h.payload_size != length payload)
        || ((h.flags != 0) || ((h.reserved != 0) || (h.status != 0)))
    then close_active e (protocol_error s)
    else if h.kind != Codes.kind_request
    then if s.session.active then protocol_error s else s
    else if h.opcode == Codes.op_hello
    then handle_hello e h payload s
    else process_request e h payload s

-- `server_rx_event`
unfoldable pub server_rx_event : Env → RxContext → Server → Server
unfolding process_frame session_teardown
server_rx_event e ctx s = elim ctx.event [
  | frame ↦ process_frame e ctx.header ctx.payload ctx.crc_ok s
  | no_event ↦ s
  | _ ↦ if s.session.active then session_teardown e (protocol_error s) else s
]

-- The events of a call of `rbp_rx_drain`, in order.
unfoldable pub handle_events : Env → List RxContext → Server → Server
unfolding server_rx_event
handle_events e [] s = s
handle_events e (ctx ∷ events) s = handle_events e events (server_rx_event e ctx s)

-- `rbp_server_on_usb_rx`. The receiver does not read the server, so that its events may be told
-- behind its run.
unfoldable pub on_usb_rx : Env → List ℕ → ℕ → Server → Server
unfolding handle_events
on_usb_rx e bytes now s =
    let d = rx_drain s.rx bytes now s.rx_ctx in
    handle_events e d.events (record s { now_ms = now; rx = d.parser; rx_ctx = d.context })
