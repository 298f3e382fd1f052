-- ===== src/Server/Tests.antt =====
-- The theorems about the server at concrete states.
mod Queues
use mathlib.Core.Bool.{true≢false}
use mi_remote_usb_bridge.Base.{
  ℕ, List, map, zero, suc, ◌+◌, ◌≤◌, ◌≡◌, ◌≢◌, false, ap, ◌∙◌, refl, sym, arith, [], ◌∷◌, ◌++◌,
  true, none, some, length, replicate, get_or-replicate, min, if◌then◌else◌,
}
use mi_remote_usb_bridge.Faults.{no_faults}
use mi_remote_usb_bridge.Server.Control.{no_header}
use mi_remote_usb_bridge.Server.Events.{op_record}
use mi_remote_usb_bridge.Server.Events.Results.{IsResults, results, op_record-find_done_op}
use mi_remote_usb_bridge.Server.Init.{blank_server, no_slot}
use mi_remote_usb_bridge.Server.Codes
use mi_remote_usb_bridge.Server.Control.{Message, ctl_fill, ctl_remove}
use mi_remote_usb_bridge.Server.Control.Layout.{Apart, IsControl, payloads, slot_at}
use mi_remote_usb_bridge.Server.Control.Remove.{ctl_remove-IsControl}
use mi_remote_usb_bridge.Server.Flush.{flush_fuel, flush_loop}
use mi_remote_usb_bridge.Server.Flush.Ends.{flush_loop_ends}
use mi_remote_usb_bridge.Server.Media.{no_marker, media_discard_current}
use mi_remote_usb_bridge.Server.Media.Compact.{
  IsMedia, media_items, media_discard_current-kept_items,
}
use mi_remote_usb_bridge.Server.KeyQueue.{keys_emit}
use mi_remote_usb_bridge.Server.KeyQueue.Order.{IsKeys, pending_keys, recovery, keys_emit-pending}
use mi_remote_usb_bridge.Server.Output.{teardown_state, out_try_frame, drain_loop, out_drain}
use mi_remote_usb_bridge.Server.Output.Append.{out_try_frame_whole}
use mi_remote_usb_bridge.Server.Output.Drain.{
  OutAccepts, Conserves, TakesAll, out_drain-Conserves, out_drain_ends, out_drain-contents,
}
use mi_remote_usb_bridge.Server.Output.Delivery.{send_all, send_all-rx_drain}
use mi_remote_usb_bridge.Wire.Header.{Header}
use mi_remote_usb_bridge.Wire.Receiver.{RxContext, idle, no_event, rx_drain}
use mi_remote_usb_bridge.Wire.Receiver.RoundTrip.{parser}
use mi_remote_usb_bridge.Wire.Receiver.Stream.{encode_all, deliveries, delivery}
use mi_remote_usb_bridge.Server.Output.Teardown.{IsTorn, teardown_state-IsTorn}
use mi_remote_usb_bridge.Server.Requests.Info.{no_result, find_done_op}
use mi_remote_usb_bridge.Server.Ring.{Ring, out_ring_size, ring_write}
use mi_remote_usb_bridge.Server.Ring.Contents.{contents, IsRing}
use mi_remote_usb_bridge.Server.Ring.Write.{ring_write_appends}
use mi_remote_usb_bridge.Server.State.{Server, Env, Config, CtlSlot, MediaMarker, OpResult}
use mi_remote_usb_bridge.Wire.Frame.{frame_encode}

-- A platform that reports nothing, whose sink accepts ten bytes at a time, and one that accepts
-- everything.
abbrev pub slow : Env
slow = record {
  react = λ c s. s;
  out = λ s bytes. min 10 (length bytes);
  rng = none;
  start_find = λ dur s. (s, 0);
  voice_request_start = none;
  store_load = none;
  store_save = none;
  store_clear = none;
  faults = no_faults;
}

abbrev fast : Env
fast = record slow { out = λ s bytes. length bytes }

abbrev config : Config
config = record {
  profile = none;
  max_keys = 64;
  max_capture_ms = 0;
  bridge_uid = replicate 16 7;
  firmware_version = none;
  reset_reason = 0;
}

-- Three bytes across the end of the buffer.
abbrev pub wrapped : Ring
wrapped = record { buf = 6 ∷ replicate 2045 0 ++ 5 ∷ 0 ∷ []; head = 2046; len = 3 }

wrapped-IsRing : IsRing wrapped
wrapped-IsRing = record { size = refl; head_bound = omega arith; len_bound = omega arith }

-- A server in a session, with output, a source that runs and events enabled.
abbrev pub busy : Server
busy =
    let s = blank_server config in
    record s {
      out = wrapped;
      session = record s.session { active = true; id = 1; txseq = record { next_tx_seq = 1 } };
      source = record s.source { active = true };
      keys = record s.keys { events_enabled = true; pressed_bits = 4; count = 8 };
    }

ring_write_appends_example :
    (contents (ring_write out_ring_size wrapped (7 ∷ 9 ∷ [])).0 ≡ contents wrapped ++ 7 ∷ 9 ∷ [])
    × IsRing (ring_write out_ring_size wrapped (7 ∷ 9 ∷ [])).0
    × ((ring_write out_ring_size wrapped (7 ∷ 9 ∷ [])).1 ≡ true)
ring_write_appends_example = ring_write_appends wrapped (7 ∷ 9 ∷ []) wrapped-IsRing

slow-OutAccepts : OutAccepts slow
slow-OutAccepts s bytes = omega arith

fast-TakesAll : TakesAll fast
fast-TakesAll s bytes = refl

out_drain-Conserves_example : Conserves busy (out_drain slow busy)
out_drain-Conserves_example = out_drain-Conserves slow busy slow-OutAccepts wrapped-IsRing

out_drain_ends_example :
    ((drain_loop 5 slow busy).1 ≡ true) × ((drain_loop 5 slow busy).0 ≡ out_drain slow busy)
out_drain_ends_example = out_drain_ends slow busy 5 slow-OutAccepts wrapped-IsRing (omega arith)

out_drain-contents_example :
    ((out_drain fast busy).wire ≡ 5 ∷ 0 ∷ 6 ∷ []) × ((out_drain fast busy).out.len ≡ 0)
unfolding contents
out_drain-contents_example = out_drain-contents fast busy fast-TakesAll wrapped-IsRing

out_try_frame_whole_example :
    let (t, sent) = out_try_frame slow busy no_header (1 ∷ 0 ∷ []) in
    let (frame, next) = frame_encode no_header busy.session.txseq (some (1 ∷ 0 ∷ [])) 2 in
    if sent
    then (contents t.out ≡ contents busy.out ++ frame)
      × IsRing t.out
      × ((record t { out = busy.out; session = busy.session }) ≡ busy)
      × (t.session.txseq ≡ next)
    else (t ≡ busy)
out_try_frame_whole_example =
    out_try_frame_whole slow busy no_header (1 ∷ 0 ∷ []) wrapped-IsRing refl

-- Two frames behind the three bytes that the ring holds.
abbrev frames : List (Header × List ℕ)
frames = (no_header, 1 ∷ 0 ∷ []) ∷ (no_header, []) ∷ []

abbrev no_context : RxContext
no_context = record {
  event = no_event;
  header = no_header;
  payload = [];
  crc_ok = false;
  resume = [];
}

send_all-rx_drain_example :
    let (sent, taken) = send_all fast busy frames in
    let u = out_drain fast sent in
    let bytes = encode_all (record { next_tx_seq = 1 }) frames in
    (taken ≡ true)
    × (u.wire ≡ [] ++ (contents wrapped ++ bytes))
    × (u.out.len ≡ 0)
    × (map delivery (rx_drain (parser idle [] 0) bytes 5 no_context).events
        ≡ deliveries (record { next_tx_seq = 1 }) frames)
send_all-rx_drain_example =
    send_all-rx_drain frames fast busy 0 5 no_context fast-TakesAll wrapped-IsRing
      (omega arith, omega arith, (omega arith, omega arith, tt)) (omega arith) (omega arith)
      (omega arith)

teardown_state-IsTorn_example :
    IsTorn (teardown_state busy)
    × (contents (teardown_state busy).out ≡ 5 ∷ 0 ∷ [])
    × IsRing (teardown_state busy).out
    × ((teardown_state busy).source.stop_requested ≡ true)
unfolding contents
teardown_state-IsTorn_example = teardown_state-IsTorn busy wrapped-IsRing

busy-IsKeys : IsKeys busy.keys
busy-IsKeys = record { size = refl; head_bound = omega arith; count_bound = omega arith }

keys_emit-pending_example :
    (pending_keys (keys_emit busy 1 0 4 99) ≡ recovery busy 99)
    × IsKeys (keys_emit busy 1 0 4 99).keys
    × ((keys_emit busy 1 0 4 99).keys.pressed_bits ≡ 4)
keys_emit-pending_example = keys_emit-pending busy 1 0 4 99 busy-IsKeys

abbrev result : ℕ → OpResult
result id = record no_result { used = true; op_id = id }

-- Four results, the oldest at index 2.
abbrev finished : Server
finished = record busy {
  ops = record busy.ops {
    done = result 3 ∷ result 4 ∷ result 1 ∷ result 2 ∷ [];
    done_head = 2;
    done_count = 4;
  };
}

finished-IsResults : IsResults finished.ops
finished-IsResults = record { size = refl; head_bound = omega arith; count_bound = omega arith }

op_record-find_done_op_example :
    let t = op_record finished (result 5) in
    (results t.ops ≡ result 2 ∷ result 3 ∷ result 4 ∷ result 5 ∷ [])
    × (find_done_op t.ops.done t.ops.done_head 5 0 t.ops.done_count ≡ some (result 5))
    × IsResults t.ops
unfolding results
op_record-find_done_op_example = op_record-find_done_op finished (result 5) 5 finished-IsResults
