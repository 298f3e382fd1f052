-- ===== src/Server/Requests/Find.antt =====
-- The requests of a search: `RBP_OP_FIND_START` to `RBP_OP_FIND_STOP` of `dispatch_request` in
-- firmware/product/rbp_server.c.
use mi_remote_usb_bridge.Base.{
  ℕ, zero, suc, ◌+◌, List, [], ◌∷◌, ◌++◌, Bool, true, false, not, ◌&&◌, ◌||◌, ltb, leb, ◌!=◌,
  if◌then◌else◌, none, some, length, take, get_or,
}
use mi_remote_usb_bridge.Server.Codes
use mi_remote_usb_bridge.Server.Put
use mi_remote_usb_bridge.Server.Put.{◌▸◌}
use mi_remote_usb_bridge.Server.Requests.{
  required, respond_ok, respond_with, refuse, refuse_silently,
}
use mi_remote_usb_bridge.Tlv.Getters.{get_u8, get_u16, get_u32}
use mi_remote_usb_bridge.Tlv.Reader.{Reader}
use mi_remote_usb_bridge.Tlv.Writer.{writer_init, bytes_from}
use mi_remote_usb_bridge.Wire.Header.{Header}
use mi_remote_usb_bridge.Server.Output.{rng_u32, later}
use mi_remote_usb_bridge.Server.Radio.{no_candidate, send_find_done}
use mi_remote_usb_bridge.Server.State.{
  Server, Env, Candidate, LinkState, link_connecting, link_pairing, link_initializing, link_ready,
  stop_find,
}

-- `RBP_LINK_CONNECTING`, `RBP_LINK_PAIRING`, `RBP_LINK_READY` or `RBP_LINK_INITIALIZING`
abbrev pub link_busy : LinkState → Bool
link_busy link_connecting = true
link_busy link_pairing = true
link_busy link_initializing = true
link_busy link_ready = true
link_busy _ = false

-- A search that is allowed. The loop around `rng_u32` ends at once, as that is never 0.
unfoldable pub begin_search : Env → Header → ℕ → Server → Server
unfolding rng_u32 refuse respond_with
begin_search e h dur s =
    let begun = record s {
      find = record s.find {
        active = true;
        valid = false;
        cand_count = 0;
        search_id = rng_u32 e s;
        end_ms = later s.now_ms dur;
      };
    } in
    let (t, scan_status) = e.start_find dur begun in
    let undone = record t {
      find = record t.find { active = false; valid = false; cand_count = 0 };
    } in
    if scan_status != Codes.status_ok
    then refuse e h scan_status "discovery did not start" undone
    else respond_with e h (writer_init ▸ Put.u32 1 t.find.search_id) t

unfoldable pub start_search : Env → Header → ℕ → Server → Server
unfolding refuse refuse_silently begin_search
start_search e h dur s =
    if ltb dur 1 || ltb 30000 dur
    then refuse e h Codes.status_invalid_argument "duration 1..30000" s
    else if s.ops.active
    then refuse_silently e h Codes.status_busy s
    else if link_busy s.device.link_state
    then refuse e h Codes.status_bad_state "link active" s
    else begin_search e h dur s

unfoldable pub find_start : Env → Header → Reader → Server → Server
unfolding get_u16 refuse start_search
find_start e h rd s = elim (required (get_u16 rd 1)) [
  | none ↦ refuse e h Codes.status_invalid_argument "duration 1..30000" s
  | some dur ↦ start_search e h dur s
]

-- `rec[0..rl)`
abbrev pub candidate_bytes : Candidate → List ℕ
candidate_bytes c =
    bytes_from 0 4 c.candidate_id ++ (c.support ∷ c.signal ∷ c.name_len ∷ take c.name_len c.name)

-- What a loop over entries leaves behind: `entries[1..elen)`, `count` and `i`.
pub record Entries : Type 0 where
  pub bytes : List ℕ
  pub count : ℕ
  pub next : ℕ

-- The loop of `RBP_OP_FIND_LIST`; the fuel is what `count` lacks to 8.
unfoldable pub list_candidates : ℕ → List Candidate → ℕ → Entries → Entries
list_candidates zero cand cand_count x = x
list_candidates (suc fuel) cand cand_count x =
    let entry = candidate_bytes (get_or cand x.next no_candidate) in
    let rest =
      list_candidates fuel cand cand_count
        (record { bytes = x.bytes ++ entry; count = x.count + 1; next = x.next + 1 }) in
    if not (ltb x.next cand_count)
    then x
    else if ltb 500 (1 + length x.bytes + length entry + 1)
    then x
    else rest

-- The response of a listing: the cursor and `entries[0..elen)`.
abbrev pub next_cursor : Entries → ℕ → ℕ
next_cursor x total = if leb total x.next then 255 else x.next

unfoldable pub list_from : Env → Header → ℕ → ℕ → Server → Server
unfolding refuse list_candidates respond_with
list_from e h sid cursor s =
    let x =
      list_candidates 8 s.find.cand s.find.cand_count
        (record { bytes = []; count = 0; next = cursor }) in
    if (sid != s.find.search_id) || (not s.find.active && not s.find.valid)
    then refuse e h Codes.status_not_found "search" s
    else if leb Codes.max_candidates cursor
    then refuse e h Codes.status_invalid_argument "cursor" s
    else respond_with e h
        (writer_init ▸ Put.u8 1 (next_cursor x s.find.cand_count) ▸ Put.bytes 2 (x.count ∷ x.bytes))
        s

unfoldable pub find_list : Env → Header → Reader → Server → Server
unfolding get_u32 get_u8 refuse list_from
find_list e h rd s = elim (required (get_u32 rd 1)) [
  | none ↦ refuse e h Codes.status_invalid_argument "args" s
  | some sid ↦ elim (required (get_u8 rd 2)) [
    | none ↦ refuse e h Codes.status_invalid_argument "args" s
    | some cursor ↦ list_from e h sid cursor s
  ]
]

unfoldable pub stop_search : Env → Header → ℕ → Server → Server
unfolding refuse respond_ok send_find_done
stop_search e h sid s =
    let stopped = record s {
      find = record s.find { active = false; valid = true; end_ms = s.now_ms };
    } in
    if (sid != s.find.search_id) || not s.find.active
    then refuse e h Codes.status_not_found "search" s
    else send_find_done e Codes.find_done_user_stop (e.react stop_find (respond_ok e h stopped))

unfoldable pub find_stop : Env → Header → Reader → Server → Server
unfolding get_u32 refuse stop_search
find_stop e h rd s = elim (required (get_u32 rd 1)) [
  | none ↦ refuse e h Codes.status_invalid_argument "search_id required" s
  | some sid ↦ stop_search e h sid s
]
