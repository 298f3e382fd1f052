-- ===== src/Client/Decoder/Whole.antt =====
-- `rbp_decoder_decode` decodes a whole unit or nothing, as rbp_decoder.h promises.
use mi_remote_usb_bridge.Base.{
  ℕ, ◌*◌, ◌≤◌, ◌≡◌, List, [], Option, none, some, false, if◌then◌else◌, length,
}
use mi_remote_usb_bridge.Client.Ima.Pieces.{IsImaState}
use mi_remote_usb_bridge.Client.Decoder.{Decoder, Decoding, audio_unit_max}
use mi_remote_usb_bridge.Client.Decoder.Units.{is_ok}

-- A decoder whose state is in range and whose units are as short as `rbp_decoder_init` allows.
pub record IsLimited (d : Decoder) : Type 0 where
  pub in_range : IsImaState d.ima
  pub most_bound : d.max_unit_bytes ≤ audio_unit_max

-- The samples of the whole unit, or the decoder as it was and no sample.
abbrev pub Whole : Decoder → Option (List ℕ) → Decoding → Type 0
Whole d none o =
    (is_ok o.status ≡ false) × (o.decoder ≡ some d) × (o.samples ≡ []) × (o.written ≡ 0)
Whole d (some encoded) o =
    if is_ok o.status
    then (length o.samples ≡ 2 * length encoded) × (o.written ≡ 2 * length encoded)
    else (o.decoder ≡ some d) × (o.samples ≡ []) × (o.written ≡ 0)
