-- ===== src/Server/Radio.antt =====
-- The radio's reports: `new_connection_id` to `rbp_server_on_battery` of
-- firmware/product/rbp_server.c, `rbp_server_set_profile` and `rbp_server_adapter_failed`.
pub mod Pairing
use mi_remote_usb_bridge.Base.{
  ℕ, zero, suc, ◌+◌, ◌-◌, ◌%◌, ◌^◌, List, [], ◌∷◌, Bool, true, false, not, ◌&&◌, ◌||◌, ltb, leb,
  ◌==◌, ◌!=◌, if◌then◌else◌, Option, none, some, get_or, set,
}
use mi_remote_usb_bridge.Server.Codes
use mi_remote_usb_bridge.Server.Control.{event_message, ctl_enqueue}
use mi_remote_usb_bridge.Server.Events.{send_device_state}
use mi_remote_usb_bridge.Server.KeyQueue.{on_keys}
use mi_remote_usb_bridge.Server.Output.{now_us64, copy_name}
use mi_remote_usb_bridge.Server.Put
use mi_remote_usb_bridge.Server.Put.{◌▸◌}
use mi_remote_usb_bridge.Server.State.{
  Server, Env, AudioCaps, LinkState, KeysReport, Candidate, Profile, link_unbound,
  link_disconnected, link_connecting, link_pairing, link_initializing, link_ready, link_unsupported,
  link_error, is_link, opk_pair, disconnect,
}
use mi_remote_usb_bridge.Server.Voice.{voice_finish_stream}
use mi_remote_usb_bridge.Tlv.Writer.{Writer, writer_init}

-- `new_connection_id`, whose result is the counter after it, or 0.
unfoldable pub new_connection_id : Server → Server × ℕ
new_connection_id s =
    let n = s.session.connection_counter in
    if n == 2 ^ 32 - 1
    then (s, 0)
    else (record s { session = record s.session { connection_counter = n + 1 } }, n + 1)

-- The states without a link, and those that need a connection id.
abbrev pub is_down : LinkState → Bool
is_down link_unbound = true
is_down link_disconnected = true
is_down link_unsupported = true
is_down link_error = true
is_down _ = false

abbrev pub is_up : LinkState → Bool
is_up state = not (is_down state)

-- A link that becomes ready while a pairing runs waits for the end of it.
abbrev pub holds_ready : Server → LinkState → Bool
holds_ready s state = is_link state link_ready && (s.ops.active && (s.ops.kind == opk_pair))

abbrev pub held : Server → LinkState → LinkState
held s state = if holds_ready s state then link_initializing else state

abbrev pub note_ready : Server → LinkState → Server
note_ready s state = record s {
  ops = record s.ops {
    pair_ready_pending =
        if is_down (held s state)
        then false
        else if holds_ready s state
        then true
        else s.ops.pair_ready_pending;
  };
}

-- The new connection, and the state it is in: an error when the ids are used up.
unfoldable pub connect : Server → LinkState → ℕ → Server × LinkState
unfolding new_connection_id
connect s state connection_id =
    let given : Server × ℕ =
      if connection_id == 0 then new_connection_id s else (s, connection_id) in
    let t = given.0 in
    let u = record t {
      device = record t.device { connection_id = given.1; link_msg = set t.device.link_msg 0 0 };
      keys = record t.keys { input_seq = 0; pressed_bits = 0; captured_us = now_us64 t };
    } in
    if (s.device.connection_id == 0) && is_up state
    then (u, if given.1 == 0 then link_error else state)
    else (s, state)

-- The link is lost: the stream ends and the keys are released.
unfoldable pub lose_link : Env → Server → Server
unfolding voice_finish_stream on_keys
lose_link e s =
    let t = voice_finish_stream e Codes.end_link_lost true s in
    let rep : KeysReport = record {
      kind = Codes.keys_kind_reset;
      reason = Codes.keys_reason_link_lost;
      pressed_bits = 0;
      captured_us = now_us64 t;
    } in
    let u = on_keys rep t in record u { keys = record u.keys { events_enabled = false } }

-- What is forgotten of the device without a link.
unfoldable pub disconnected : Server → Server
disconnected s = record s {
  device = record s.device {
    connection_id = 0;
    voice_state = Codes.voice_absent;
    voice_sample_rate = 0;
    voice_interaction = Codes.vi_unavailable;
    battery = 255;
    charging = 0;
  };
  source = record s.source { active = false; stop_requested = false };
  voice = record s.voice { waiting_idle = false; enabled = false };
}

-- `rbp_server_on_link`
unfoldable pub on_link : Env → LinkState → ℕ → ℕ → Server → Server
unfolding connect lose_link disconnected send_device_state
on_link e state connection_id now s =
    let old = s.device.link_state in
    let noted = note_ready (record s { now_ms = now }) state in
    let (t, state') = connect noted (held s state) connection_id in
    let u = record t { device = record t.device { link_state = state' } } in
    let v =
      if is_link old link_ready && not (is_link state' link_ready) then lose_link e u else u in
    send_device_state e s.device.connection_id (if is_down state' then disconnected v else v)

-- `rbp_server_on_link_message`
unfoldable pub on_link_message : Option (List ℕ) → Server → Server
unfolding copy_name
on_link_message msg s = record s {
  device = record s.device { link_msg = copy_name s.device.link_msg 48 msg };
}

abbrev pub no_candidate : Candidate
no_candidate = record { candidate_id = 0; support = 0; signal = 0; name = []; name_len = 0 }

-- The index of a candidate known already among `n` from `i` on.
unfoldable pub known_candidate : List Candidate → ℕ → ℕ → ℕ → Option ℕ
known_candidate cand id i zero = none
known_candidate cand id i (suc n) =
    let rest = known_candidate cand id (i + 1) n in
    if (get_or cand i no_candidate).candidate_id == id then some i else rest

-- A candidate that is seen again.
unfoldable pub seen_again : Candidate → Candidate → Candidate
unfolding copy_name
seen_again c new = record c {
  signal = new.signal;
  support = if ltb c.support new.support then new.support else c.support;
  name = if new.name_len == 0 then c.name else copy_name c.name 48 (some new.name);
  name_len = if new.name_len == 0 then c.name_len else new.name_len;
}

-- `rbp_server_on_scan_candidate`
unfoldable pub on_scan_candidate : Candidate → Server → Server
unfolding known_candidate seen_again copy_name
on_scan_candidate new s =
    let f = s.find in
    let entry = record new { name = copy_name new.name 48 (some new.name) } in
    let added = if leb Codes.max_candidates f.cand_count then s else record s {
      find = record f { cand = set f.cand f.cand_count entry; cand_count = f.cand_count + 1 };
    } in
    let updated : ℕ → Server = λ i. record s {
      find = record f { cand = set f.cand i (seen_again (get_or f.cand i no_candidate) new) };
    } in
    if f.active
    then elim (known_candidate f.cand new.candidate_id 0 f.cand_count) [
      | none ↦ added
      | some i ↦ updated i
    ]
    else s

-- The end of a search, for the host.
abbrev pub find_done : Server → ℕ → Writer
find_done s reason = writer_init ▸ Put.u32 1 s.find.search_id ▸ Put.u8 2 reason

unfoldable pub send_find_done : Env → ℕ → Server → Server
unfolding ctl_enqueue
send_find_done e reason s =
    ctl_enqueue e (event_message Codes.op_find_done_ev 0 (find_done s reason)) s

-- `rbp_server_on_scan_done`
unfoldable pub on_scan_done : Env → ℕ → ℕ → Server → Server
unfolding send_find_done
on_scan_done e reason now s =
    let t = record s { now_ms = now } in
    let ended = record t { find = record t.find { active = false; end_ms = now; valid = true } } in
    if t.find.active then send_find_done e reason ended else t

-- `rbp_server_on_battery`
unfoldable pub on_battery : Env → ℕ → ℕ → Server → Server
unfolding send_device_state
on_battery e level charging s =
    if (s.device.battery != level) || (s.device.charging != charging)
    then send_device_state e s.device.connection_id
        (record s { device = record s.device { battery = level; charging = charging } })
    else s

-- `rbp_server_set_profile`
abbrev pub address_of : Option Profile → ℕ
address_of none = 0
address_of (some p) = p.address

unfoldable pub set_profile : Env → Option Profile → Server → Server
unfolding send_device_state
set_profile e profile s =
    if address_of s.cfg.profile == address_of profile
    then s
    else send_device_state e s.device.connection_id
        (record s { cfg = record s.cfg { profile = profile } })

-- `rbp_server_adapter_failed`
unfoldable pub adapter_failed : Env → Option (List ℕ) → Server → Server
unfolding on_link_message on_link
adapter_failed e reason s =
    e.react disconnect (on_link e link_error 0 s.now_ms (on_link_message reason s))

-- `rbp_server_set_voice_caps`
abbrev pub set_voice_caps : Option AudioCaps → Server → Server
set_voice_caps caps s = record s { voice = record s.voice { caps = caps } }
