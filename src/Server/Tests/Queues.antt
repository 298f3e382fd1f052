-- ===== src/Server/Tests/Queues.antt =====
-- The theorems about the queues at concrete states.
use mathlib.Core.Bool.{true≢false}
use mi_remote_usb_bridge.Base.{
  ℕ, zero, suc, ◌+◌, ◌≤◌, ◌≡◌, ◌≢◌, ap, ◌∙◌, refl, sym, arith, [], ◌∷◌, ◌++◌, true, none, some,
  replicate, get_or-replicate,
}
use mi_remote_usb_bridge.Server.Init.{no_slot}
use mi_remote_usb_bridge.Server.Codes
use mi_remote_usb_bridge.Server.Control.{Message, ctl_remove}
use mi_remote_usb_bridge.Server.Control.Layout.{Apart, IsControl, payloads, slot_at}
use mi_remote_usb_bridge.Server.Control.Remove.{ctl_remove-IsControl}
use mi_remote_usb_bridge.Server.Flush.{flush_fuel, flush_loop}
use mi_remote_usb_bridge.Server.Flush.Ends.{flush_loop_ends}
use mi_remote_usb_bridge.Server.Media.{no_marker, media_discard_current}
use mi_remote_usb_bridge.Server.Media.Compact.{
  IsMedia, media_items, media_discard_current-kept_items,
}
use mi_remote_usb_bridge.Server.Media.Read.{audio_read-slice}
use mi_remote_usb_bridge.Server.Ring.{audio_read}
use mi_remote_usb_bridge.Server.Ring.Contents.{contents}
use mi_remote_usb_bridge.Server.State.{Server, CtlSlot, MediaMarker}
use mi_remote_usb_bridge.Server.Tests.{slow, busy}

-- Two messages in the control queue, of two bytes and of one.
abbrev queued : Server
queued = record busy {
  ctl =
      record no_slot { used = true; len = 2; offset = 0; order = 1 }
      ∷ record no_slot { used = true; len = 1; offset = 2; order = 2 }
      ∷ replicate 4 no_slot;
  ctl_payload = 8 ∷ 9 ∷ 7 ∷ replicate 3069 0;
  ctl_used = 3;
}

queued_free : (i : ℕ) → (slot_at queued (suc (suc i))).used ≡ true → ⊥
queued_free i u = true≢false (sym u ∙ ap (λ (x : CtlSlot). x.used) (get_or-replicate 4 no_slot i))

queued-inside :
    (i : ℕ)
    → (slot_at queued i).used ≡ true
    → (slot_at queued i).offset + (slot_at queued i).len ≤ 3
queued-inside zero u = omega arith
queued-inside (suc zero) u = omega arith
queued-inside (suc (suc i)) u = absurd (queued_free i u)

queued-Apart :
    (i j : ℕ)
    → i ≢ j
    → (slot_at queued i).used ≡ true
    → (slot_at queued j).used ≡ true
    → Apart (slot_at queued i) (slot_at queued j)
queued-Apart zero zero other u v = absurd (other refl)
queued-Apart zero (suc zero) other u v = refl
queued-Apart (suc zero) zero other u v = refl
queued-Apart (suc zero) (suc zero) other u v = absurd (other refl)
queued-Apart (suc (suc i)) j other u v = absurd (queued_free i u)
queued-Apart zero (suc (suc j)) other u v = absurd (queued_free j v)
queued-Apart (suc zero) (suc (suc j)) other u v = absurd (queued_free j v)

queued-IsControl : IsControl queued
queued-IsControl = record {
  size = refl;
  room = omega arith;
  tight = refl;
  inside = queued-inside;
  separate = queued-Apart;
}

ctl_remove-IsControl_example :
    let t = ctl_remove queued 0 (slot_at queued 0) in
    IsControl t × (payloads t ≡ none ∷ some (7 ∷ []) ∷ replicate 4 none) × (t.ctl_used + 2 ≡ 3)
unfolding payloads
ctl_remove-IsControl_example = ctl_remove-IsControl queued 0 queued-IsControl (omega arith) refl

abbrev message : Message
message = record {
  kind = 2;
  opcode = 2;
  status = 0;
  request_id = 5;
  connection_id = 0;
  payload = 1 ∷ 2 ∷ 3 ∷ [];
}

flush_loop_ends_example :
    ((flush_loop 40 slow queued 0).1 ≡ true)
    × (flush_loop 40 slow queued 0 ≡ flush_loop (flush_fuel queued) slow queued 0)
flush_loop_ends_example = flush_loop_ends slow queued 0 40 refl (omega arith)

abbrev marker : ℕ → ℕ → ℕ → MediaMarker
marker stream opcode len = record {
  stream = stream;
  connection = 1;
  order = 1;
  opcode = opcode;
  len = len;
}

-- The end of stream 1, and the start and audio of stream 2; the pool wraps.
abbrev streaming : Server
streaming = record busy {
  stream = record busy.stream { id = 2 };
  media = record {
    pool = record { buf = 6 ∷ 7 ∷ replicate 2044 0 ++ 4 ∷ 5 ∷ []; head = 2046; len = 4 };
    q =
        marker 1 Codes.op_voice_ended_ev 1
        ∷ marker 2 Codes.op_voice_started_ev 2
        ∷ marker 2 Codes.op_voice_data 1
        ∷ replicate 13 no_marker;
    head = 0;
    count = 3;
  };
}

streaming-IsMedia : IsMedia streaming.media
streaming-IsMedia = record {
  pool = record { size = refl; head_bound = omega arith; len_bound = omega arith };
  size = refl;
  count_bound = omega arith;
  whole = refl;
}

media_discard_current-kept_items_example :
    (media_items (media_discard_current streaming).media
      ≡ (marker 1 Codes.op_voice_ended_ev 1, 4 ∷ [])
        ∷ (marker 2 Codes.op_voice_started_ev 2, 5 ∷ 6 ∷ [])
        ∷ [])
    × IsMedia (media_discard_current streaming).media
unfolding contents
media_discard_current-kept_items_example =
    media_discard_current-kept_items streaming streaming-IsMedia

audio_read-slice_example : audio_read streaming.media.pool 1 2 ≡ 5 ∷ 6 ∷ []
unfolding contents
audio_read-slice_example =
    audio_read-slice streaming.media.pool 1 2 streaming-IsMedia.pool (omega arith)
