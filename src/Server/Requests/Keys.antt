-- ===== src/Server/Requests/Keys.antt =====
-- The requests about keys: `RBP_OP_KEY_CATALOG` to `RBP_OP_EVENTS_ENABLE` of `dispatch_request` in
-- firmware/product/rbp_server.c.
use mi_remote_usb_bridge.Base.{
  ℕ, zero, suc, ◌+◌, ◌/◌, ◌%◌, ◌^◌, List, [], ◌∷◌, ◌++◌, Bool, true, false, not, ltb, leb,
  if◌then◌else◌, Option, none, some, length, take, get_or,
}
use mi_remote_usb_bridge.Server.Codes
use mi_remote_usb_bridge.Server.Put
use mi_remote_usb_bridge.Server.Put.{◌▸◌}
use mi_remote_usb_bridge.Server.Requests.{
  required, respond, respond_ok, respond_with, refuse, refuse_silently, conn_ready_for,
  not_ready_status,
}
use mi_remote_usb_bridge.Tlv.Getters.{get_u8, get_bool}
use mi_remote_usb_bridge.Tlv.Reader.{Reader, Result, ok, err, malformed, wrong_type, stuck}
use mi_remote_usb_bridge.Tlv.Writer.{writer_init, c_string}
use mi_remote_usb_bridge.Wire.Header.{Header}
use mi_remote_usb_bridge.Server.KeyQueue.{keys_struct, keys_emit}
use mi_remote_usb_bridge.Server.Requests.Find.{Entries, next_cursor}
use mi_remote_usb_bridge.Server.State.{Server, Env, KeyDef, Profile}

abbrev pub no_key : KeyDef
no_key = record { key_id = 0; name = [] }

-- `rec[0..rl)`: a name has 32 characters at most.
abbrev pub key_bytes : ℕ → KeyDef → List ℕ
key_bytes i key =
    let name = take 32 (c_string key.name) in
    i ∷ key.key_id % 256 ∷ key.key_id / 2 ^ 8 % 256 ∷ length name ∷ name

-- The loop of `RBP_OP_KEY_CATALOG`; the fuel is what `count` lacks to 12.
unfoldable pub list_keys : ℕ → List KeyDef → ℕ → Entries → Entries
list_keys zero keys key_count x = x
list_keys (suc fuel) keys key_count x =
    let entry = key_bytes x.next (get_or keys x.next no_key) in
    let rest =
      list_keys fuel keys key_count
        (record { bytes = x.bytes ++ entry; count = x.count + 1; next = x.next + 1 }) in
    if not (ltb x.next key_count)
    then x
    else if ltb 500 (1 + length x.bytes + length entry + 1)
    then x
    else rest

unfoldable pub catalog_from : Env → Header → Profile → ℕ → Server → Server
unfolding refuse list_keys respond_with
catalog_from e h prof cursor s =
    let x =
      list_keys 12 prof.keys prof.key_count (record { bytes = []; count = 0; next = cursor }) in
    if leb prof.key_count cursor
    then refuse e h Codes.status_invalid_argument "cursor" s
    else respond_with e h
        (writer_init
          ▸ Put.u32 1 prof.catalog_revision
          ▸ Put.u8 2 (next_cursor x prof.key_count)
          ▸ Put.bytes 3 (x.count ∷ x.bytes))
        s

-- The cursor, 0 unless there is one: a tag of another type and a malformed payload are refused.
abbrev pub catalog_cursor : Result (Option ℕ) → Option ℕ
catalog_cursor (ok none) = some 0
catalog_cursor (ok (some cursor)) = some cursor
catalog_cursor (err malformed) = none
catalog_cursor (err wrong_type) = none
catalog_cursor (err _) = some 0
catalog_cursor stuck = none

unfoldable pub key_catalog : Env → Header → Reader → Server → Server
unfolding conn_ready_for refuse refuse_silently get_u8 catalog_from
key_catalog e h rd s =
    let found : Server = elim (catalog_cursor (get_u8 rd 1)) [
      | none ↦ refuse e h Codes.status_invalid_argument "tlv" s
      | some cursor ↦ elim s.cfg.profile [
        | none ↦ refuse e h Codes.status_bad_state "catalog" s
        | some prof ↦ catalog_from e h prof cursor s
      ]
    ] in
    if conn_ready_for s h then found else refuse_silently e h (not_ready_status s) s

unfoldable pub keys_snapshot : Env → Header → Server → Server
unfolding conn_ready_for refuse_silently respond
keys_snapshot e h s =
    let k = s.keys in
    if conn_ready_for s h
    then respond e h Codes.status_ok
        (keys_struct k.input_seq k.captured_us k.pressed_bits Codes.keys_kind_snapshot 0) s
    else refuse_silently e h (not_ready_status s) s

unfoldable pub set_events : Env → Header → Bool → Server → Server
unfolding respond_ok keys_emit
set_events e h true s =
    let t = respond_ok e h s in
    keys_emit (record t { keys = record t.keys { events_enabled = true } }) Codes.keys_kind_snapshot
      Codes.keys_reason_none t.keys.pressed_bits t.keys.captured_us
set_events e h false s =
    respond_ok e h
      (record s { keys = record s.keys { events_enabled = false; head = 0; count = 0 } })

unfoldable pub events_enable : Env → Header → Reader → Server → Server
unfolding conn_ready_for refuse refuse_silently get_bool set_events
events_enable e h rd s =
    let found : Server = elim (required (get_bool rd 1)) [
      | none ↦ refuse e h Codes.status_invalid_argument "enabled required" s
      | some enabled ↦ set_events e h enabled s
    ] in
    if conn_ready_for s h then found else refuse_silently e h (not_ready_status s) s
