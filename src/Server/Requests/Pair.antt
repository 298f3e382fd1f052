-- ===== src/Server/Requests/Pair.antt =====
-- The requests of a pairing: `RBP_OP_PAIR_BEGIN` to `RBP_OP_FORGET_PEER` of `dispatch_request` in
-- firmware/product/rbp_server.c.
use mi_remote_usb_bridge.Base.{
  ℕ, Bool, true, false, not, ◌&&◌, ◌||◌, ltb, ◌==◌, ◌!=◌, if◌then◌else◌, Option, none, some,
}
use mi_remote_usb_bridge.Server.Codes
use mi_remote_usb_bridge.Server.Requests.{
  required, optional, respond_ok, refuse, refuse_silently, op_begin, respond_accepted,
}
use mi_remote_usb_bridge.Tlv.Getters.{get_u32, get_bool}
use mi_remote_usb_bridge.Tlv.Reader.{Reader}
use mi_remote_usb_bridge.Wire.Header.{Header}
use mi_remote_usb_bridge.Server.Output.{later, request_pair_cancel}
use mi_remote_usb_bridge.Server.Radio.{known_candidate, send_find_done}
use mi_remote_usb_bridge.Server.State.{
  Server, Env, link_ready, is_link, opk_pair, opk_forget, pair_deadline_ms, forget_deadline_ms,
  stop_find, pair_begin, pair_reply, forget_peer,
}

-- `have_cand`
abbrev pub have_candidate : Server → ℕ → Bool
have_candidate s cid = elim (known_candidate s.find.cand cid 0 s.find.cand_count) [
  | none ↦ false
  | some _ ↦ true
]

-- A pairing takes over from a search.
unfoldable pub take_over : Env → Server → Server
unfolding send_find_done
take_over e s =
    if s.find.active
    then send_find_done e Codes.find_done_pair_takeover
        (e.react stop_find (record s { find = record s.find { active = false } }))
    else s

unfoldable pub begin_pairing : Env → Header → ℕ → Server → Server
unfolding take_over op_begin respond_accepted
begin_pairing e h cid s =
    let t = take_over e s in
    e.react (pair_begin cid)
      (respond_accepted e h (op_begin opk_pair h (later t.now_ms pair_deadline_ms) t))

unfoldable pub pair_candidate : Env → Header → ℕ → ℕ → Server → Server
unfolding refuse refuse_silently known_candidate begin_pairing
pair_candidate e h sid cid s =
    if s.ops.active
    then refuse_silently e h Codes.status_busy s
    else if is_link s.device.link_state link_ready
    then refuse e h Codes.status_bad_state "already connected" s
    else if s.device.peer_valid
    then refuse e h Codes.status_busy "bond slot full" s
    else if (sid != s.find.search_id)
        || (not (have_candidate s cid) || (not s.find.valid && not s.find.active))
    then refuse e h Codes.status_not_found "candidate" s
    else begin_pairing e h cid s

unfoldable pub request_pair_begin : Env → Header → Reader → Server → Server
unfolding get_u32 refuse pair_candidate
request_pair_begin e h rd s = elim (required (get_u32 rd 1)) [
  | none ↦ refuse e h Codes.status_invalid_argument "args" s
  | some sid ↦ elim (required (get_u32 rd 2)) [
    | none ↦ refuse e h Codes.status_invalid_argument "args" s
    | some cid ↦ pair_candidate e h sid cid s
  ]
]

abbrev pub is_some {ℓ} : {A : Type ℓ} → Option A → Bool
is_some none = false
is_some (some a) = true

abbrev pub value_or_zero : Option ℕ → ℕ
value_or_zero none = 0
value_or_zero (some n) = n

unfoldable pub reply_prompt : Env → Header → ℕ → ℕ → Bool → Option ℕ → Server → Server
unfolding refuse respond_ok
reply_prompt e h op_id pid accept passkey s =
    let p = s.prompt in
    let answered = record s { prompt = record s.prompt { active = false } } in
    if is_some passkey && ltb 999999 (value_or_zero passkey)
    then refuse e h Codes.status_invalid_argument "passkey range" s
    else if not s.ops.active
        || (not (s.ops.kind == opk_pair)
            || ((op_id != s.ops.id) || (not p.active || (pid != p.id))))
    then refuse e h Codes.status_not_found "prompt" s
    else if is_some passkey && (p.method != Codes.prompt_enter_passkey)
    then refuse e h Codes.status_invalid_argument "passkey not expected" s
    else if p.method == Codes.prompt_display_passkey
    then refuse e h Codes.status_invalid_argument "display only; cancel operation to reject" s
    else if accept && (not (is_some passkey) && (p.method == Codes.prompt_enter_passkey))
    then refuse e h Codes.status_invalid_argument "passkey required" s
    else e.react (pair_reply accept (is_some passkey) (value_or_zero passkey))
        (respond_ok e h answered)

unfoldable pub request_pair_reply : Env → Header → Reader → Server → Server
unfolding get_u32 get_bool refuse reply_prompt
request_pair_reply e h rd s = elim (required (get_u32 rd 1)) [
  | none ↦ refuse e h Codes.status_invalid_argument "args" s
  | some op_id ↦ elim (required (get_u32 rd 2)) [
    | none ↦ refuse e h Codes.status_invalid_argument "args" s
    | some pid ↦ elim (required (get_bool rd 3)) [
      | none ↦ refuse e h Codes.status_invalid_argument "args" s
      | some accept ↦ elim (optional (get_u32 rd 4)) [
        | none ↦ refuse e h Codes.status_invalid_argument "args" s
        | some passkey ↦ reply_prompt e h op_id pid accept passkey s
      ]
    ]
  ]
]

unfoldable pub cancel_pairing : Env → Header → ℕ → Server → Server
unfolding refuse respond_ok request_pair_cancel
cancel_pairing e h op_id s =
    if not s.ops.active || (not (s.ops.kind == opk_pair) || (op_id != s.ops.id))
    then refuse e h Codes.status_not_found "operation" s
    else request_pair_cancel e
        (respond_ok e h (record s { prompt = record s.prompt { active = false } }))

unfoldable pub pair_cancel_request : Env → Header → Reader → Server → Server
unfolding get_u32 refuse cancel_pairing
pair_cancel_request e h rd s = elim (required (get_u32 rd 1)) [
  | none ↦ refuse e h Codes.status_invalid_argument "operation_id required" s
  | some op_id ↦ cancel_pairing e h op_id s
]

unfoldable pub begin_forget : Env → Header → ℕ → Server → Server
unfolding refuse refuse_silently op_begin respond_accepted
begin_forget e h pid s =
    let begun = op_begin opk_forget h (later s.now_ms forget_deadline_ms) s in
    let paused = record begun { device = record begun.device { reconnect_paused = true } } in
    if s.ops.active
    then refuse_silently e h Codes.status_busy s
    else if not s.device.peer_valid || (pid != s.device.peer.peer_id)
    then refuse e h Codes.status_not_found "peer" s
    else e.react forget_peer (respond_accepted e h paused)

unfoldable pub forget_request : Env → Header → Reader → Server → Server
unfolding get_u32 refuse begin_forget
forget_request e h rd s = elim (required (get_u32 rd 1)) [
  | none ↦ refuse e h Codes.status_invalid_argument "peer_id required" s
  | some pid ↦ begin_forget e h pid s
]
