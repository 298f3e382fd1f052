-- ===== src/Client/Decoder.antt =====
-- The unit decoder: client/c/rbp_decoder.c with rbp_decoder.h, as it is built without the optional
-- codec (RBP_WITH_ICO), whose fields are left out. A null pointer is none.
pub mod Units
pub mod Whole
use mi_remote_usb_bridge.Base.{
  ℕ, ◌+◌, ◌*◌, ◌%◌, ◌^◌, List, [], Option, none, some, Bool, true, false, not, ◌&&◌, ◌||◌, ltb,
  ◌==◌, ◌!=◌, if◌then◌else◌, get_or, length,
}
use mi_remote_usb_bridge.Server.State.{AudioFormat}
use mi_remote_usb_bridge.Client.Ima.{ImaState, ima_state_reset, ima_decode}

-- `RBP_DECODE_OK` and the others
pub data DecodeStatus : Type 0 where
  decode_ok : DecodeStatus
  decode_unsupported : DecodeStatus
  decode_config : DecodeStatus
  decode_capacity : DecodeStatus
  decode_input : DecodeStatus

-- `rbp_decoder_t`; `ready` is 0 or 1.
pub record Decoder : Type 0 where
  pub size : ℕ
  pub abi_version : ℕ
  pub max_unit_bytes : ℕ
  pub sample_rate : ℕ
  pub ima : ImaState
  pub ready : ℕ

-- `sizeof *d`, where a `uint64_t` stands at a multiple of eight, and `LEGACY_SIZE`.
abbrev pub full_size : ℕ
full_size = 1056

abbrev pub legacy_size : ℕ
legacy_size = 24

-- `RBP_CODEC_IMA_HI`
abbrev pub codec_ima_hi : ℕ
codec_ima_hi = 1

-- `RBP_AUDIO_UNIT_MAX`
abbrev pub audio_unit_max : ℕ
audio_unit_max = 65536

-- A size that is neither the full nor the first one.
abbrev pub is_other_size : ℕ → Bool
is_other_size size = (size != full_size) && (size != legacy_size)

-- `memset(d,0,size);d->size=size;d->abi_version=1;` The zero predictor is 32768 here.
abbrev pub cleared : ℕ → Decoder
cleared size = record {
  size = size;
  abi_version = 1;
  max_unit_bytes = 0;
  sample_rate = 0;
  ima = record { predictor = 32768; step_index = 0 };
  ready = 0;
}

-- The bytes at `config`, none of them for a null pointer, which is refused first.
abbrev pub config_of : AudioFormat → List ℕ
config_of f = elim f.config [ none ↦ [] | some bytes ↦ bytes ]

abbrev pub has_config : AudioFormat → Bool
has_config f = elim f.config [ none ↦ false | some bytes ↦ true ]

abbrev pub is_bad_config : AudioFormat → Bool
is_bad_config f =
    (f.channels != 1)
    || ((f.sample_rate != 8000) && (f.sample_rate != 16000))
    || not (has_config f)
    || (f.config_len != 4)
    || ltb 88 (get_or (config_of f) 2 0)
    || (get_or (config_of f) 3 0 != 0)
    || (f.max_unit_bytes == 0)
    || ltb audio_unit_max f.max_unit_bytes

-- `(int16_t)pred`
abbrev pub first_predictor : List ℕ → ℕ
first_predictor bytes = (get_or bytes 0 0 + get_or bytes 1 0 * 256 + 32768) % 2 ^ 16

-- The last lines of `rbp_decoder_init`.
abbrev pub configured : ℕ → AudioFormat → Decoder
configured size f = record (cleared size) {
  ima = ima_state_reset (first_predictor (config_of f)) (get_or (config_of f) 2 0);
  sample_rate = f.sample_rate;
  max_unit_bytes = f.max_unit_bytes;
  ready = 1;
}

-- `rbp_decoder_init` on a decoder that is there, from the test of the format on.
abbrev pub init_format : ℕ → Option AudioFormat → Decoder × DecodeStatus
init_format size none = (cleared size, decode_unsupported)
init_format size (some f) =
    if (f.codec_id != codec_ima_hi) || (f.codec_revision != 1)
    then (cleared size, decode_unsupported)
    else if is_bad_config f
    then (cleared size, decode_config)
    else (configured size f, decode_ok)

-- `rbp_decoder_init`
unfoldable pub decoder_init :
    Option Decoder → ℕ → Option AudioFormat → Option Decoder × DecodeStatus
decoder_init none size f = (none, decode_config)
decoder_init (some d) size f =
    let result = init_format size f in
    if is_other_size size then (some d, decode_config) else (some result.0, result.1)

-- What `rbp_decoder_decode` leaves: the decoder, its status, `*written` and the samples at `pcm`.
pub record Decoding : Type 0 where
  pub decoder : Option Decoder
  pub status : DecodeStatus
  pub written : ℕ
  pub samples : List ℕ

-- A call that decodes nothing: `*written` is 0 then.
abbrev pub declined : Option Decoder → DecodeStatus → Decoding
declined d status = record { decoder = d; status = status; written = 0; samples = [] }

-- `!d->ready || ...`: the state and the unit that are refused.
abbrev pub is_bad_unit : Decoder → ℕ → Bool
is_bad_unit d bytes =
    is_other_size d.size
    || (d.abi_version != 1)
    || (d.ready == 0)
    || (bytes == 0)
    || ltb d.max_unit_bytes bytes

-- The last lines of `rbp_decoder_decode`: the samples, in place of those before them.
abbrev pub decode_unit : Decoder → List ℕ → ℕ → Decoding
decode_unit d encoded capacity =
    let result = ima_decode (some d.ima) encoded capacity in
    record {
      decoder = some (record d { ima = result.1 });
      status = decode_ok;
      written = length result.0;
      samples = result.0;
    }

-- `rbp_decoder_decode`, with the bytes at `encoded`, whether `pcm` and `written` are there, and the
-- room at `pcm`.
unfoldable pub decoder_decode : Option Decoder → Option (List ℕ) → Bool → Bool → ℕ → Decoding
decoder_decode none encoded has_pcm has_written capacity = declined none decode_input
decoder_decode (some d) none has_pcm has_written capacity = declined (some d) decode_input
decoder_decode (some d) (some encoded) has_pcm has_written capacity =
    let bytes = length encoded in
    if is_bad_unit d bytes || not has_written || not has_pcm
    then declined (some d) decode_input
    else if ltb capacity (bytes * 2 % 2 ^ 32)
    then declined (some d) decode_capacity
    else decode_unit d encoded capacity
