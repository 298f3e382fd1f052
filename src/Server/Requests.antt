-- ===== src/Server/Requests.antt =====
-- What the requests share: `respond_error`, `conn_ready_for`, `op_begin` and `accepted_payload` of
-- firmware/product/rbp_server.c, and the reading of their arguments.
pub mod Info
pub mod Find
pub mod Pair
pub mod Peers
pub mod Keys
pub mod Voice
use Prim.Native.Char.{code}
use Prim.Native.String.{String}
use mi_remote_usb_bridge.Base.{
  ℕ, ◌+◌, List, [], ◌∷◌, ◌++◌, Bool, true, false, not, ◌&&◌, ◌||◌, ltb, leb, ◌==◌, ◌!=◌,
  if◌then◌else◌, Option, none, some, length,
}
use mi_remote_usb_bridge.Server.Codes
use mi_remote_usb_bridge.Server.Control.{Message, ctl_enqueue}
use mi_remote_usb_bridge.Server.Put
use mi_remote_usb_bridge.Server.Put.{◌▸◌}
use mi_remote_usb_bridge.Server.State.{Server, Env, link_ready, is_link}
use mi_remote_usb_bridge.Tlv.Reader.{Result, ok, err, stuck}
use mi_remote_usb_bridge.Tlv.Writer.{Writer, writer_init, type_u32, bytes_from}
use mi_remote_usb_bridge.Wire.Header.{Header}

-- The characters of a literal.
abbrev pub codes : String → List ℕ
codes String.[] = []
codes (String.◌∷◌ c s) = code c ∷ codes s

-- A getter's value where the request is refused without one.
abbrev pub required {ℓ} : {A : Type ℓ} → Result (Option A) → Option A
required (ok found) = found
required (err e) = none
required stuck = none

-- A getter's value where the request may leave it out.
abbrev pub optional {ℓ} : {A : Type ℓ} → Result (Option A) → Option (Option A)
optional (ok found) = some found
optional (err e) = none
optional stuck = none

-- The response to the request `h`.
abbrev pub response_message : Header → ℕ → List ℕ → Message
response_message h status payload = record {
  kind = Codes.kind_response;
  opcode = h.opcode;
  status = status;
  request_id = h.request_id;
  connection_id = h.connection_id;
  payload = payload;
}

unfoldable pub respond : Env → Header → ℕ → List ℕ → Server → Server
unfolding ctl_enqueue
respond e h status payload s = ctl_enqueue e (response_message h status payload) s

-- A response of status OK without and with a payload.
unfoldable pub respond_ok : Env → Header → Server → Server
unfolding respond
respond_ok e h s = respond e h Codes.status_ok [] s

unfoldable pub respond_with : Env → Header → Writer → Server → Server
unfolding respond
respond_with e h w s = respond e h Codes.status_ok w.buf s

-- The fields of an error response.
abbrev pub error_tlv : Option (List ℕ) → Bool → Writer
error_tlv msg uncertain =
    let w : Writer = elim msg [
      | none ↦ writer_init
      | some text ↦ writer_init ▸ Put.text Codes.tag_message text
    ] in
    if uncertain then Put.bool Codes.tag_uncertain true w else w

-- `respond_error`, with a buffer of 144 bytes.
unfoldable pub respond_error : Env → Header → ℕ → Option (List ℕ) → Bool → Server → Server
unfolding respond
respond_error e h status msg uncertain s =
    let w = error_tlv msg uncertain in
    respond e h status (if leb (length w.buf) 144 then w.buf else []) s

-- A refusal with a text and without one.
unfoldable pub refuse : Env → Header → ℕ → String → Server → Server
unfolding respond_error
refuse e h status text s = respond_error e h status (some (codes text)) false s

unfoldable pub refuse_silently : Env → Header → ℕ → Server → Server
unfolding respond_error
refuse_silently e h status s = respond_error e h status none false s

-- `conn_ready_for`
unfoldable pub conn_ready_for : Server → Header → Bool
conn_ready_for s h =
    is_link s.device.link_state link_ready
    && ((h.connection_id != 0) && (h.connection_id == s.device.connection_id))

-- `s->link_state == RBP_LINK_READY ? RBP_STATUS_BAD_STATE : RBP_STATUS_LINK_LOST`
abbrev pub not_ready_status : Server → ℕ
not_ready_status s =
    if is_link s.device.link_state link_ready
    then Codes.status_bad_state
    else Codes.status_link_lost

-- `op_begin`, and the deadline that the caller sets next.
unfoldable pub op_begin : ℕ → Header → ℕ → Server → Server
op_begin kind h deadline s = record s {
  ops = record s.ops {
    active = true;
    kind = kind;
    pair_ready_pending = false;
    id = h.request_id;
    connection_id = 0;
    peer_id = 0;
    deadline_ms = deadline;
  };
  prompt = record s.prompt { pair_cancel_requested = false };
}

-- `accepted_payload`
unfoldable pub accepted_payload : ℕ → List ℕ
accepted_payload op_id = 1 ∷ type_u32 ∷ 4 ∷ 0 ∷ bytes_from 0 4 op_id

-- `RBP_STATUS_ACCEPTED` with the operation's id.
unfoldable pub respond_accepted : Env → Header → Server → Server
unfolding respond accepted_payload
respond_accepted e h s = respond e h Codes.status_accepted (accepted_payload h.request_id) s
