-- ===== src/Server/Radio/Pairing.antt =====
-- The outcome of pairing and forgetting: `rbp_server_on_pair_prompt` to
-- `rbp_server_on_peer_changed` of firmware/product/rbp_server.c.
use mi_remote_usb_bridge.Base.{
  ℕ, ◌^◌, List, [], ◌∷◌, Bool, true, false, not, ◌&&◌, ◌||◌, ltb, leb, ◌==◌, ◌!=◌, if◌then◌else◌,
  Option, none, some, replicate,
}
use mi_remote_usb_bridge.Server.Codes
use mi_remote_usb_bridge.Server.Control.{event_message, ctl_enqueue}
use mi_remote_usb_bridge.Server.Events.{send_device_state, op_complete}
use mi_remote_usb_bridge.Server.Output.{rng_u32, since, later}
use mi_remote_usb_bridge.Server.Put
use mi_remote_usb_bridge.Server.Put.{◌▸◌}
use mi_remote_usb_bridge.Server.Radio.{on_link, on_link_message}
use mi_remote_usb_bridge.Server.State.{
  Server, Env, OpResult, Peer, link_unbound, link_initializing, link_ready, link_error, is_link,
  opk_pair, opk_forget,
}
use mi_remote_usb_bridge.Tlv.Writer.{Writer, writer_init}

-- The time that the pairing has left, as `int32_t`.
abbrev pub remaining : Server → ℕ
remaining s = since s.ops.deadline_ms s.now_ms

-- The prompt for the host.
abbrev pub prompt_tlv : Server → ℕ → ℕ → ℕ → Writer
prompt_tlv s method number remaining_ms =
    let w = writer_init ▸ Put.u32 1 s.ops.id ▸ Put.u32 2 s.prompt.id ▸ Put.u8 3 method in
    let shown =
      if (method == Codes.prompt_confirm_number) || (method == Codes.prompt_display_passkey)
      then Put.u32 4 number w
      else w in
    shown ▸ Put.u32 5 remaining_ms

-- `rbp_server_on_pair_prompt`. The loop around `rng_u32` ends at once, as that is never 0.
unfoldable pub on_pair_prompt : Env → ℕ → ℕ → ℕ → Server → Server
unfolding rng_u32 ctl_enqueue
on_pair_prompt e method number remaining_ms s =
    let left = if ltb (remaining s) remaining_ms then remaining s else remaining_ms in
    let t = record s {
      prompt = record s.prompt {
        active = true;
        id = rng_u32 e s;
        method = method;
        number = number;
        expiry_ms = later s.now_ms left;
      };
    } in
    if not s.ops.active || (not (s.ops.kind == opk_pair) || s.prompt.pair_cancel_requested)
    then s
    else if (remaining s == 0) || leb (2 ^ 31) (remaining s)
    then s
    else ctl_enqueue e
        (event_message Codes.op_pair_prompt_ev s.ops.connection_id
          (prompt_tlv t method number left))
        t

-- What the commit of a bond leaves behind `s`, `status` and `uncertain`.
pub record Committed : Type 0 where
  pub server : Server
  pub status : ℕ
  pub uncertain : Bool

-- A successful pairing stores the peer.
unfoldable pub commit_peer : Env → Option Peer → Server → Committed
commit_peer e peer s = elim peer [
  | none ↦ record { server = s; status = Codes.status_pairing_failed; uncertain = false }
  | some p ↦
      let committed = record p { auto_reconnect = true } in
      let saved : Bool = elim e.store_save [ none ↦ true | some save ↦ save committed s ] in
      let bound = record s {
        device = record s.device { peer = committed; peer_valid = true; reconnect_paused = false };
      } in
      if p.peer_id == 0
      then record { server = s; status = Codes.status_pairing_failed; uncertain = false }
      else if saved
      then record { server = bound; status = Codes.status_ok; uncertain = false }
      else record { server = s; status = Codes.status_storage_failed; uncertain = true }
]

-- The operation's end, if it is the one that ran.
unfoldable pub end_pairing : Env → Committed → Server
unfolding op_complete
end_pairing e c =
    let s = c.server in
    let pid =
      if (c.status == Codes.status_ok) && s.device.peer_valid then s.device.peer.peer_id else 0 in
    let result : OpResult = record {
      used = true;
      op_id = s.ops.id;
      result = c.status;
      peer_id = pid;
      connection_id = s.device.connection_id;
      uncertain = c.uncertain;
    } in
    if s.ops.active && (s.ops.kind == opk_pair)
    then op_complete e result (record s { ops = record s.ops { active = false } })
    else s

-- `"pairing failed"`
abbrev pub pairing_failed_text : List ℕ
pairing_failed_text =
    112 ∷ 97 ∷ 105 ∷ 114 ∷ 105 ∷ 110 ∷ 103 ∷ 32 ∷ 102 ∷ 97 ∷ 105 ∷ 108 ∷ 101 ∷ 100 ∷ []

-- `rbp_server_on_pair_done`
unfoldable pub on_pair_done : Env → ℕ → Bool → Option Peer → ℕ → Server → Server
unfolding commit_peer end_pairing on_link on_link_message send_device_state
on_pair_done e status peer_committed peer connection_id s =
    let publish_ready = s.ops.pair_ready_pending in
    let first =
      if (status == Codes.status_ok) && not peer_committed
      then Codes.status_storage_failed
      else status in
    let t = record s {
      ops = record s.ops { pair_ready_pending = false };
      prompt = record s.prompt { active = false };
    } in
    let c : Committed =
      if first == Codes.status_ok
      then commit_peer e peer t
      else record { server = t; status = first; uncertain = false } in
    let u = end_pairing e c in
    if c.status == Codes.status_ok
    then if publish_ready
      then on_link e link_ready connection_id u.now_ms u
      else if not (is_link u.device.link_state link_ready)
      then on_link e link_initializing connection_id u.now_ms u
      else send_device_state e u.device.connection_id u
    else let v = on_link_message (some pairing_failed_text) u in on_link e link_error 0 v.now_ms v

-- `memset(&s->peer, 0, sizeof(s->peer))`
abbrev pub no_peer : Peer
no_peer = record { peer_id = 0; name = replicate 48 0; auto_reconnect = false }

-- `rbp_server_on_forget_done`
unfoldable pub on_forget_done : Env → ℕ → Bool → Server → Server
unfolding on_link op_complete send_device_state
on_forget_done e status uncertain s =
    let cleared : Bool = elim e.store_clear [ none ↦ false | some clear ↦ clear s ] in
    let failed = (status == Codes.status_ok) && not cleared in
    let told = if failed then Codes.status_storage_failed else status in
    let unbound = record s { device = record s.device { peer_valid = false; peer = no_peer } } in
    let t =
      if told == Codes.status_ok then on_link e link_unbound 0 unbound.now_ms unbound else s in
    let result : OpResult = record {
      used = true;
      op_id = t.ops.id;
      result = told;
      peer_id = 0;
      connection_id = 0;
      uncertain = failed || uncertain;
    } in
    let u =
      if t.ops.active && (t.ops.kind == opk_forget)
      then op_complete e result (record t { ops = record t.ops { active = false } })
      else t in
    if told == Codes.status_ok then u else send_device_state e 0 u

-- `rbp_server_on_peer_changed`
unfoldable pub on_peer_changed : Peer → Server → Server
on_peer_changed peer s =
    let d = s.device in
    let known = d.peer_valid && (d.peer.peer_id == peer.peer_id) in
    record s {
      voice = record s.voice { resume_peer = if known then s.voice.resume_peer else 0 };
      device = record d { peer = peer; peer_valid = peer.peer_id != 0 };
    }
