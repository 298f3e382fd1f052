-- ===== src/Server/Dispatch.antt =====
-- The requests of a session: `dispatch_request` of firmware/product/rbp_server.c.
use mi_remote_usb_bridge.Base.{
  ℕ, zero, suc, List, Bool, true, false, not, ◌&&◌, ltb, ◌==◌, ◌!=◌, if◌then◌else◌, length,
}
use mi_remote_usb_bridge.Server.Codes
use mi_remote_usb_bridge.Server.Requests.{refuse, refuse_silently}
use mi_remote_usb_bridge.Server.Requests.Find.{find_start, find_list, find_stop}
use mi_remote_usb_bridge.Server.Requests.Info.{
  ping, get_device, get_peer, get_operation, get_stats, goodbye,
}
use mi_remote_usb_bridge.Server.Requests.Keys.{key_catalog, keys_snapshot, events_enable}
use mi_remote_usb_bridge.Server.Requests.Pair.{
  request_pair_begin, request_pair_reply, pair_cancel_request, forget_request,
}
use mi_remote_usb_bridge.Server.Requests.Peers.{set_reconnect, connect_request, disconnect_request}
use mi_remote_usb_bridge.Server.Requests.Voice.{
  get_voice_caps, voice_enable, voice_start_request, voice_stop_request,
}
use mi_remote_usb_bridge.Server.State.{Server, Env}
use mi_remote_usb_bridge.Tlv.Reader.{Reader, ok, err, stuck, reader_init, tlv_next}
use mi_remote_usb_bridge.Wire.Header.{Header}

-- The loop that validates the whole envelope; every round takes at least four bytes.
unfoldable pub envelope_ok : ℕ → Reader → Bool
unfolding tlv_next
envelope_ok zero r = not (ltb r.pos (length r.buf))
envelope_ok (suc fuel) r =
    let (r', got) = tlv_next r in
    let rest = envelope_ok fuel r' in
    if not (ltb r.pos (length r.buf))
    then true
    else elim got [ ok _ ↦ rest | err _ ↦ false | stuck ↦ false ]

-- The cases of the `switch`, group by group.
unfoldable pub dispatch_info : Env → Header → Reader → Server → Server
unfolding ping get_device get_peer get_operation get_stats goodbye refuse_silently
dispatch_info e h rd s =
    if h.opcode == Codes.op_ping
    then ping e h rd s
    else if h.opcode == Codes.op_get_device
    then get_device e h s
    else if h.opcode == Codes.op_get_peer
    then get_peer e h s
    else if h.opcode == Codes.op_get_operation
    then get_operation e h rd s
    else if h.opcode == Codes.op_get_stats
    then get_stats e h s
    else if h.opcode == Codes.op_goodbye
    then goodbye e h s
    else refuse_silently e h Codes.status_unsupported s

unfoldable pub dispatch_pairing : Env → Header → Reader → Server → Server
unfolding find_start find_list find_stop request_pair_begin request_pair_reply pair_cancel_request
    forget_request set_reconnect connect_request disconnect_request dispatch_info
dispatch_pairing e h rd s =
    if h.opcode == Codes.op_find_start
    then find_start e h rd s
    else if h.opcode == Codes.op_find_list
    then find_list e h rd s
    else if h.opcode == Codes.op_find_stop
    then find_stop e h rd s
    else if h.opcode == Codes.op_pair_begin
    then request_pair_begin e h rd s
    else if h.opcode == Codes.op_pair_reply
    then request_pair_reply e h rd s
    else if h.opcode == Codes.op_pair_cancel
    then pair_cancel_request e h rd s
    else if h.opcode == Codes.op_forget_peer
    then forget_request e h rd s
    else if h.opcode == Codes.op_set_reconnect
    then set_reconnect e h rd s
    else if h.opcode == Codes.op_connect_peer
    then connect_request e h rd s
    else if h.opcode == Codes.op_disconnect
    then disconnect_request e h s
    else dispatch_info e h rd s

unfoldable pub dispatch_opcode : Env → Header → Reader → Server → Server
unfolding key_catalog keys_snapshot events_enable get_voice_caps voice_enable voice_start_request
    voice_stop_request dispatch_pairing
dispatch_opcode e h rd s =
    if h.opcode == Codes.op_key_catalog
    then key_catalog e h rd s
    else if h.opcode == Codes.op_keys_snapshot
    then keys_snapshot e h s
    else if h.opcode == Codes.op_events_enable
    then events_enable e h rd s
    else if h.opcode == Codes.op_get_voice_caps
    then get_voice_caps e h s
    else if h.opcode == Codes.op_voice_enable
    then voice_enable e h rd s
    else if h.opcode == Codes.op_voice_start
    then voice_start_request e h s
    else if h.opcode == Codes.op_voice_stop
    then voice_stop_request e h rd s
    else dispatch_pairing e h rd s

-- `dispatch_request`
unfoldable pub dispatch_request : Env → Header → List ℕ → Server → Server
unfolding refuse envelope_ok dispatch_opcode
dispatch_request e h payload s =
    if ltb h.opcode 0x200 && (h.connection_id != 0)
    then refuse e h Codes.status_invalid_argument "management connection must be zero" s
    else if not (envelope_ok (length payload) (reader_init payload))
    then refuse e h Codes.status_invalid_argument "malformed TLV" s
    else dispatch_opcode e h (reader_init payload) s
