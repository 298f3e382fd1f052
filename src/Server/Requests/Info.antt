-- ===== src/Server/Requests/Info.antt =====
-- The requests about the bridge itself: `RBP_OP_PING` to `RBP_OP_GOODBYE` of `dispatch_request` in
-- firmware/product/rbp_server.c.
use mi_remote_usb_bridge.Base.{
  ℕ, zero, suc, ◌+◌, ◌*◌, ◌%◌, ◌^◌, List, [], ◌∷◌, ◌++◌, true, false, ◌&&◌, ◌==◌, if◌then◌else◌,
  Option, none, some, get_or, bit_or,
}
use mi_remote_usb_bridge.Server.Codes
use mi_remote_usb_bridge.Server.Put
use mi_remote_usb_bridge.Server.Put.{◌▸◌}
use mi_remote_usb_bridge.Server.Requests.{
  required, respond_ok, respond_with, refuse, refuse_silently,
}
use mi_remote_usb_bridge.Tlv.Getters.{get_u32}
use mi_remote_usb_bridge.Tlv.Reader.{Reader}
use mi_remote_usb_bridge.Tlv.Writer.{writer_init, bytes_from}
use mi_remote_usb_bridge.Wire.Header.{Header}
use mi_remote_usb_bridge.Faults.{Fault, fault_snapshot}
use mi_remote_usb_bridge.Server.Events.{device_info_tlv, operation_tlv}
use mi_remote_usb_bridge.Server.Output.{now_us64, session_teardown}
use mi_remote_usb_bridge.Server.State.{Server, Env, CtlSlot, OpResult}

unfoldable pub ping : Env → Header → Reader → Server → Server
unfolding get_u32 refuse respond_with
ping e h rd s = elim (required (get_u32 rd 1)) [
  | none ↦ refuse e h Codes.status_invalid_argument "cookie required" s
  | some cookie ↦ respond_with e h (writer_init ▸ Put.u32 1 cookie ▸ Put.u64 2 (now_us64 s)) s
]

unfoldable pub get_device : Env → Header → Server → Server
unfolding device_info_tlv respond_with
get_device e h s = respond_with e h (device_info_tlv s) s

unfoldable pub get_peer : Env → Header → Server → Server
unfolding respond_with
get_peer e h s =
    let d = s.device in
    respond_with e h
      (writer_init
        ▸ Put.u32 1 (if d.peer_valid then d.peer.peer_id else 0)
        ▸ Put.text 2 (if d.peer_valid then d.peer.name else [])
        ▸ Put.bool 3 (if d.peer_valid then d.peer.auto_reconnect else false))
      s

abbrev pub no_result : OpResult
no_result = record {
  used = false;
  op_id = 0;
  result = 0;
  peer_id = 0;
  connection_id = 0;
  uncertain = false;
}

-- The first of the `n` results from `i` on with that id.
unfoldable pub find_done_op : List OpResult → ℕ → ℕ → ℕ → ℕ → Option OpResult
find_done_op done head op_id i zero = none
find_done_op done head op_id i (suc n) =
    let r = get_or done ((head + i) % Codes.max_operation_results) no_result in
    let rest = find_done_op done head op_id (i + 1) n in if r.op_id == op_id then some r else rest

-- The operation that runs.
abbrev pub pending_op : Server → OpResult
pending_op s = record {
  used = true;
  op_id = s.ops.id;
  result = Codes.status_accepted;
  peer_id = s.ops.peer_id;
  connection_id = s.ops.connection_id;
  uncertain = false;
}

unfoldable pub report_operation : Env → Header → ℕ → Server → Server
unfolding find_done_op refuse_silently respond_with
report_operation e h op_id s =
    let done : Server = elim (find_done_op s.ops.done s.ops.done_head op_id 0 s.ops.done_count) [
      | none ↦ refuse_silently e h Codes.status_not_found s
      | some r ↦ respond_with e h (operation_tlv r Codes.opstate_completed) s
    ] in
    if s.ops.active && (s.ops.id == op_id)
    then respond_with e h (operation_tlv (pending_op s) Codes.opstate_pending) s
    else done

unfoldable pub get_operation : Env → Header → Reader → Server → Server
unfolding get_u32 refuse report_operation
get_operation e h rd s = elim (required (get_u32 rd 1)) [
  | none ↦ refuse e h Codes.status_invalid_argument "operation_id required" s
  | some op_id ↦ report_operation e h op_id s
]

-- The 24 bytes of each fault.
unfoldable pub fault_bytes : List Fault → List ℕ
fault_bytes [] = []
fault_bytes (f ∷ fs) =
    bytes_from 0 4 f.sequence
    ++ (bytes_from 0 4 (bit_or f.domain (f.stage * 2 ^ 16 % 2 ^ 32))
        ++ (bytes_from 0 4 f.code
            ++ (bytes_from 0 4 f.context
                ++ (bytes_from 0 4 f.count ++ (bytes_from 0 4 f.board_ms ++ fault_bytes fs)))))

unfoldable pub get_stats : Env → Header → Server → Server
unfolding fault_snapshot fault_bytes respond_with
get_stats e h s =
    let (faults, sequence, evicted) = fault_snapshot e.faults in
    respond_with e h
      (writer_init
        ▸ Put.u32 1 s.stats.protocol_errors
        ▸ Put.u32 2 s.stats.input_resets
        ▸ Put.u32 3 s.stats.voice_overruns
        ▸ Put.u32 4 s.stats.voice_errors
        ▸ Put.u16 5 s.cfg.reset_reason
        ▸ Put.u32 6 sequence
        ▸ Put.bytes 7 (fault_bytes faults)
        ▸ Put.u32 8 evicted)
      s

-- `s->ctl[0].session=closing_session;`
abbrev pub in_session : ℕ → List CtlSlot → List CtlSlot
in_session session [] = []
in_session session (slot ∷ slots) = record slot { session = session } ∷ slots

unfoldable pub goodbye : Env → Header → Server → Server
unfolding session_teardown respond_ok
goodbye e h s =
    let t = session_teardown e s in
    let u = respond_ok e h (record t { out = record t.out { len = s.out.len } }) in
    record u { ctl = in_session s.session.id u.ctl }
