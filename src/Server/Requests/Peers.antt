-- ===== src/Server/Requests/Peers.antt =====
-- The requests about the bound peer: `RBP_OP_SET_RECONNECT` to `RBP_OP_DISCONNECT` of
-- `dispatch_request` in firmware/product/rbp_server.c.
use mi_remote_usb_bridge.Base.{ℕ, Bool, true, false, not, ◌||◌, ◌!=◌, if◌then◌else◌, none, some}
use mi_remote_usb_bridge.Server.Codes
use mi_remote_usb_bridge.Server.Requests.{required, respond_ok, refuse, refuse_silently}
use mi_remote_usb_bridge.Tlv.Getters.{get_u32, get_bool}
use mi_remote_usb_bridge.Tlv.Reader.{Reader}
use mi_remote_usb_bridge.Wire.Header.{Header}
use mi_remote_usb_bridge.Server.Requests.Find.{link_busy}
use mi_remote_usb_bridge.Server.State.{Server, Env, link_ready, is_link, connect_peer, disconnect}

-- `a == b` on Booleans.
abbrev pub same_bool : Bool → Bool → Bool
same_bool true b = b
same_bool false b = not b

-- The reconnect intent of the peer is written to the store before it is kept.
unfoldable pub store_reconnect : Env → Header → Bool → Server → Server
unfolding refuse_silently respond_ok
store_reconnect e h enabled s =
    let d = s.device in
    let set_peer = record d.peer { auto_reconnect = enabled } in
    let stored : Bool = elim e.store_save [
      | none ↦ false
      | some save ↦ save set_peer (record s { device = record d { peer = set_peer } })
    ] in
    let kept = record s {
      device = record d {
        peer = set_peer;
        reconnect_paused = if enabled then false else d.reconnect_paused;
      };
    } in
    if stored then respond_ok e h kept else refuse_silently e h Codes.status_storage_failed s

unfoldable pub change_reconnect : Env → Header → ℕ → Bool → Server → Server
unfolding refuse respond_ok store_reconnect
change_reconnect e h pid enabled s =
    let d = s.device in
    let unpaused = record s {
      device = record d { reconnect_paused = if enabled then false else d.reconnect_paused };
    } in
    if not d.peer_valid || (pid != d.peer.peer_id)
    then refuse e h Codes.status_not_found "peer" s
    else if same_bool d.peer.auto_reconnect enabled
    then respond_ok e h unpaused
    else store_reconnect e h enabled s

unfoldable pub set_reconnect : Env → Header → Reader → Server → Server
unfolding get_u32 get_bool refuse change_reconnect
set_reconnect e h rd s = elim (required (get_u32 rd 1)) [
  | none ↦ refuse e h Codes.status_invalid_argument "args" s
  | some pid ↦ elim (required (get_bool rd 2)) [
    | none ↦ refuse e h Codes.status_invalid_argument "args" s
    | some enabled ↦ change_reconnect e h pid enabled s
  ]
]

-- The second test of `peer_valid` in the source is never reached without a peer.
unfoldable pub connect_bound : Env → Header → ℕ → Server → Server
unfolding refuse respond_ok
connect_bound e h pid s =
    let wanted = record s { device = record s.device { reconnect_paused = false } } in
    if not s.device.peer_valid || (s.device.peer.peer_id != pid)
    then refuse e h Codes.status_not_found "peer" s
    else if is_link s.device.link_state link_ready
    then refuse e h Codes.status_bad_state "already connected" s
    else if link_busy s.device.link_state
    then respond_ok e h s
    else respond_ok e h (e.react connect_peer wanted)

unfoldable pub connect_request : Env → Header → Reader → Server → Server
unfolding get_u32 refuse refuse_silently connect_bound
connect_request e h rd s =
    let connected : Server = elim (required (get_u32 rd 1)) [
      | none ↦ refuse e h Codes.status_invalid_argument "peer_id required" s
      | some pid ↦ connect_bound e h pid s
    ] in
    if s.ops.active then refuse_silently e h Codes.status_busy s else connected

unfoldable pub disconnect_request : Env → Header → Server → Server
unfolding respond_ok
disconnect_request e h s =
    let t = record s {
      device = record s.device { reconnect_paused = true };
      voice = record s.voice { resume_peer = 0 };
    } in
    respond_ok e h (if link_busy s.device.link_state then e.react disconnect t else t)
