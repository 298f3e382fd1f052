-- ===== src/Client/Tests.antt =====
-- A decoder on two units.
use mi_remote_usb_bridge.Base.{
  ◌≡◌, refl, arith, ℕ, ◌*◌, ◌/◌, min, List, [], ◌∷◌, some, none, length, All,
}
use mi_remote_usb_bridge.Server.State.{AudioFormat}
use mi_remote_usb_bridge.Client.Ima.{ima_decode, ima_decode_nibble, ima_state_reset, step_diff}
use mi_remote_usb_bridge.Client.Ima.Pieces.{
  IsSample, IsImaState, ima_decode-IsImaState, ima_state_reset-IsImaState,
}
use mi_remote_usb_bridge.Client.Decoder.Whole.{Whole}
use mi_remote_usb_bridge.Client.Decoder.{Decoder, decoder_init, cleared}
use mi_remote_usb_bridge.Client.Decoder.Units.{
  run_units, run_units-decoder_init, named_state, all_samples, joined,
}

-- A predictor of -1000 and index 20.
abbrev format : AudioFormat
format = record {
  codec_id = 1;
  sample_rate = 16000;
  max_unit_bytes = 4;
  codec_revision = 1;
  config_len = 4;
  channels = 1;
  config = some (0x18 ∷ 0xfc ∷ 20 ∷ 0 ∷ []);
}

abbrev units : List (List ℕ)
units = (0x17 ∷ 0x9f ∷ []) ∷ (0x42 ∷ []) ∷ []

-- 0 + 11, and 11 - 30 at the step eight further on.
two_samples : (ima_decode none (0x7f ∷ []) 3).0 ≡ 32779 ∷ 32749 ∷ []
unfolding ima_decode ima_decode_nibble ima_state_reset step_diff
two_samples = refl

run_units-decoder_init_example :
    run_units 8 (decoder_init (some (cleared 24)) 24 (some format)).0 units
    ≡ some (all_samples (named_state 0x18 0xfc 20) (joined units))
unfolding decoder_init
run_units-decoder_init_example =
    run_units-decoder_init (cleared 24) 24 format 0x18 0xfc 20 (0 ∷ []) units 8 refl refl (
      record { unit_some = omega arith; unit_bound = omega arith; unit_room = omega arith },
      (record { unit_some = omega arith; unit_bound = omega arith; unit_room = omega arith }, tt),
    )

ima_decode-IsImaState_example :
    let result = ima_decode none (0x7f ∷ 0x80 ∷ []) 3 in
    All IsSample result.0 × IsImaState result.1 × (length result.0 ≡ 2 * min 2 (3 / 2))
unfolding ima_decode
ima_decode-IsImaState_example =
    ima_decode-IsImaState none (0x7f ∷ 0x80 ∷ []) 3
      (ima_state_reset-IsImaState 32768 0 (omega arith))

abbrev ready : Decoder
ready = record (cleared 24) {
  ima = record { predictor = 31768; step_index = 20 };
  sample_rate = 16000;
  max_unit_bytes = 4;
  ready = 1;
}
