-- ===== src/Server/Events.antt =====
-- The device description, its event, and the finished operations: `device_info_tlv`,
-- `send_device_state` and `op_complete` of firmware/product/rbp_server.c.
pub mod Results
use mi_remote_usb_bridge.Base.{
  ℕ, ◌+◌, ◌%◌, List, [], ◌||◌, ltb, ◌==◌, ◌!=◌, if◌then◌else◌, Option, none, some, get_or, set,
}
use mi_remote_usb_bridge.Server.Codes
use mi_remote_usb_bridge.Server.Control.{ctl_enqueue, event_message}
use mi_remote_usb_bridge.Server.Put
use mi_remote_usb_bridge.Server.Put.{◌▸◌}
use mi_remote_usb_bridge.Server.State.{
  Server, Env, OpResult, Profile, is_link, link_code, link_ready, link_error,
}
use mi_remote_usb_bridge.Tlv.Writer.{Writer, writer_init}

-- `s->link_state==RBP_LINK_READY?s->cfg.profile:NULL`
abbrev pub shown_profile : Server → Option Profile
shown_profile s = if is_link s.device.link_state link_ready then s.cfg.profile else none

abbrev pub model_text : Option Profile → List ℕ
model_text none = []
model_text (some p) = p.model_id

abbrev pub display_text : Server → Option Profile → List ℕ
display_text s none = if s.device.peer_valid then s.device.peer.name else []
display_text s (some p) = p.display_name

abbrev pub revision_of : Option Profile → ℕ
revision_of none = 0
revision_of (some p) = p.catalog_revision

abbrev pub key_count_of : Option Profile → ℕ
key_count_of none = 0
key_count_of (some p) = p.key_count

abbrev pub device_status : Server → ℕ
device_status s =
    if is_link s.device.link_state link_error || (s.device.voice_state == Codes.voice_failed)
    then Codes.status_device_error
    else if s.device.voice_state == Codes.voice_unsupported
    then Codes.status_voice_unavailable
    else Codes.status_ok

-- `if(s->link_msg[0])rbp_tlv_put_text(w,17,s->link_msg);`
abbrev pub put_link_msg : Server → Writer → Writer
put_link_msg s w = if get_or s.device.link_msg 0 0 != 0 then Put.text 17 s.device.link_msg w else w

-- `device_info_tlv` on a fresh writer.
unfoldable pub device_info_tlv : Server → Writer
device_info_tlv s =
    let d = s.device in
    let p = shown_profile s in
    writer_init
    ▸ Put.u32 1 d.connection_id
    ▸ Put.u32 2 (if d.peer_valid then d.peer.peer_id else 0)
    ▸ Put.u8 3 (link_code d.link_state)
    ▸ Put.text 4 (model_text p)
    ▸ Put.text 5 (display_text s p)
    ▸ Put.u32 6 (revision_of p)
    ▸ Put.u8 7 (key_count_of p)
    ▸ Put.u8 8 d.voice_state
    ▸ Put.u32 9 (if d.voice_state == Codes.voice_ready then d.voice_sample_rate else 0)
    ▸ Put.u8 10 d.battery
    ▸ Put.u8 11 d.charging
    ▸ Put.bool 12 s.voice.enabled
    ▸ Put.bool 13 s.stream.delivering
    ▸ Put.u32 14 (if s.stream.delivering then s.stream.id else 0)
    ▸ Put.bool 15 s.voice.waiting_idle
    ▸ Put.u16 16 (device_status s)
    ▸ put_link_msg s
    ▸ Put.u8 18 d.voice_interaction
    ▸ Put.u32 19 (if d.voice_state != Codes.voice_absent then s.cfg.max_capture_ms else 0)

-- `send_device_state`
unfoldable pub send_device_state : Env → ℕ → Server → Server
unfolding device_info_tlv ctl_enqueue
send_device_state e conn_ctx s =
    ctl_enqueue e (event_message Codes.op_device_state_ev conn_ctx (device_info_tlv s)) s

-- A finished operation in `ops_done`: the oldest result leaves when there are four.
unfoldable pub op_record : Server → OpResult → Server
op_record s result =
    let o = s.ops in
    let idx = (o.done_head + o.done_count) % Codes.max_operation_results in
    let more = ltb o.done_count Codes.max_operation_results in
    record s {
      ops = record o {
        done = set o.done idx result;
        done_count = if more then o.done_count + 1 else o.done_count;
        done_head = if more then o.done_head else (o.done_head + 1) % Codes.max_operation_results;
      };
    }

-- The fields of an operation's state, in the response and in the event.
abbrev pub operation_tlv : OpResult → ℕ → Writer
operation_tlv r state =
    writer_init
    ▸ Put.u32 1 r.op_id
    ▸ Put.u8 2 state
    ▸ Put.u16 3 r.result
    ▸ Put.u32 4 r.peer_id
    ▸ Put.u32 5 r.connection_id
    ▸ Put.bool 6 r.uncertain

-- `op_complete`
unfoldable pub op_complete : Env → OpResult → Server → Server
unfolding op_record ctl_enqueue
op_complete e result s =
    ctl_enqueue e
      (event_message Codes.op_operation_ev result.connection_id
        (operation_tlv result Codes.opstate_completed))
      (op_record s result)
