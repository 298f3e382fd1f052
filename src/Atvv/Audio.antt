-- ===== src/Atvv/Audio.antt =====
-- `rc003_atvv_on_audio`: encoded audio, and the count of remote frames.
use mi_remote_usb_bridge.Base.{
  ℕ, ◌+◌, ◌*◌, ◌/◌, ◌%◌, ◌^◌, ◌≤◌, ◌<◌, ◌≡◌, refl, sym, ap, ◌∙◌, arith, List, [], ◌∷◌, ◌++◌, Bool,
  true, false, not, ◌||◌, ltb, ◌==◌, ge→ltb, ==_ne, if◌then◌else◌, length, map, All,
}
use mathlib.Core.Path.{ap₂, subst, subst₂}
use native.Mathlib.Nat.{div-add-mod, mod-add-mod, mul-add-div, mod-eq_of_lt, mod-lt}
use mi_remote_usb_bridge.Atvv.Events.{Sink, Event, encoded}
use mi_remote_usb_bridge.Atvv.Capabilities.{max_frame}
use mi_remote_usb_bridge.Atvv.{Atvv, fault, end_invalid_encoded_data}

-- What `rc003_atvv_on_audio` sets for data that it delivers.
abbrev pub count_audio : Atvv → List ℕ → Atvv
count_audio a d =
    let bytes = a.frame_bytes + length d in
    record a {
      last_audio_ms = a.now_ms;
      frame_no = (a.frame_no + bytes / a.caps.frame_size) % 2 ^ 16;
      frame_bytes = bytes % a.caps.frame_size % 2 ^ 16;
    }

abbrev pub is_bad_audio : Atvv → List ℕ → Bool
is_bad_audio a d =
    (length d == 0) || ltb max_frame (length d) || not a.caps_valid || (a.caps.frame_size == 0)

-- `rc003_atvv_on_audio`
unfoldable pub on_audio : Sink → Atvv → List ℕ → Atvv × List Event
on_audio sink a d =
    let bad = fault sink a end_invalid_encoded_data in
    if not a.stream_active || a.failed
    then (a, [])
    else if is_bad_audio a d
    then bad
    else if not a.decoder_ready
    then bad
    else (count_audio a d, encoded d ∷ [])

-- A stream that delivers audio, `total` bytes after its start.
pub record IsDelivering (a : Atvv) (total : ℕ) : Type 0 where
  pub active : a.stream_active ≡ true
  pub sound : a.failed ≡ false
  pub ready : a.decoder_ready ≡ true
  pub valid : a.caps_valid ≡ true
  pub size : (0 < a.caps.frame_size) × (a.caps.frame_size ≤ max_frame)
  pub frames : a.frame_no ≡ total / a.caps.frame_size % 2 ^ 16
  pub rest : a.frame_bytes ≡ total % a.caps.frame_size

-- A packet of audio as the link delivers it.
abbrev pub IsPacket : List ℕ → Type 0
IsPacket d = (0 < length d) × (length d ≤ max_frame)

abbrev pub total_length : List (List ℕ) → ℕ
total_length [] = 0
total_length (d ∷ ds) = length d + total_length ds

-- Packets, one after the other.
abbrev pub on_packets : Sink → Atvv → List (List ℕ) → Atvv × List Event
on_packets sink a [] = (a, [])
on_packets sink a (d ∷ ds) =
    let (a₁, first) = on_audio sink a d in
    let (a₂, others) = on_packets sink a₁ ds in (a₂, first ++ others)

on_audio_packet :
    (sink : Sink) (a : Atvv) (total : ℕ) (d : List ℕ)
    → IsDelivering a total
    → IsPacket d
    → on_audio sink a d ≡ (count_audio a d, encoded d ∷ [])
unfolding on_audio
on_audio_packet sink a total d h (hd, hm) =
    let some_data = ==_ne (length d) 0 (λ e. omega (arith, hd)) in
    let some_size = ==_ne a.caps.frame_size 0 (λ e. omega (arith, h.size.0)) in
    rw (h.active, h.sound, some_data, ge→ltb max_frame (length d) hm, h.valid, some_size, h.ready)
      refl

-- The counters by division.
whole : (n t l : ℕ) → n * (t / n) + (t % n + l) ≡ t + l
whole n t l = omega (arith, div-add-mod t n)

frames_carry :
    (n t l : ℕ) → 0 < n → (t / n % 2 ^ 16 + (t % n + l) / n) % 2 ^ 16 ≡ (t + l) / n % 2 ^ 16
frames_carry n t l h =
    mod-add-mod (t / n) (2 ^ 16) ((t % n + l) / n)
    ∙ ap (λ x. x % 2 ^ 16) (sym (mul-add-div h (t / n) (t % n + l)) ∙ ap (λ x. x / n) (whole n t l))

rest_carry : (n t l : ℕ) → 0 < n → n ≤ max_frame → (t % n + l) % n % 2 ^ 16 ≡ (t + l) % n
rest_carry n t l h k =
    ap (λ x. x % 2 ^ 16) (mod-add-mod t n l) ∙ mod-eq_of_lt (omega (arith, mod-lt (t + l) h, k))

count_audio-IsDelivering :
    (a : Atvv) (total : ℕ) (d : List ℕ)
    → IsDelivering a total
    → IsDelivering (count_audio a d) (total + length d)
count_audio-IsDelivering a total d h = record {
  active = h.active;
  sound = h.sound;
  ready = h.ready;
  valid = h.valid;
  size = h.size;
  frames =
      ap₂ (λ x y. (x + (y + length d) / a.caps.frame_size) % 2 ^ 16) h.frames h.rest
      ∙ frames_carry a.caps.frame_size total (length d) h.size.0;
  rest =
      ap (λ y. (y + length d) % a.caps.frame_size % 2 ^ 16) h.rest
      ∙ rest_carry a.caps.frame_size total (length d) h.size.0 h.size.1;
}

-- While a stream delivers, every packet goes to the sink unchanged and in order, nothing else does,
-- and the counters stay the remote's frame number and the bytes of the frame begun, whatever the
-- sizes of the packets.
pub on_packets-IsDelivering :
    (sink : Sink) (ds : List (List ℕ)) (a : Atvv) (total : ℕ)
    → IsDelivering a total
    → All IsPacket ds
    → let (a', events) = on_packets sink a ds in
      IsDelivering a' (total + total_length ds) × (events ≡ map encoded ds)
on_packets-IsDelivering sink [] a total h hd = (subst (IsDelivering a) (omega arith) h, refl)
on_packets-IsDelivering sink (d ∷ ds) a total h (hd, hds) =
    let first = on_audio_packet sink a total d h hd in
    let (later, events) =
      on_packets-IsDelivering sink ds (count_audio a d) (total + length d)
        (count_audio-IsDelivering a total d h) hds in
    (
      subst₂ IsDelivering (ap (λ q. (on_packets sink q.0 ds).0) (sym first)) (omega arith) later,
      ap (λ q. q.1 ++ (on_packets sink q.0 ds).1) first ∙ ap (λ es. encoded d ∷ es) events,
    )
