-- ===== src/Client/Decoder/Units.antt =====
-- The unit decoder on a sequence of units, from its initialisation on.
use mi_remote_usb_bridge.Base.{
  ℕ, ◌*◌, ◌≤◌, ◌<◌, ◌%◌, ◌^◌, ◌+◌, ltb, get_or, or_cases, or_first, ◌≡◌, ◌≢◌, ◌||◌, ◌!=◌,
  length-append, refl, sym, ap, ◌∙◌, inl, inr, arith, List, [], ◌∷◌, ◌++◌, Option, none, some, Bool,
  true, false, ge→ltb, Bool-cases, if◌then◌else◌, length, All,
}
use mathlib.Core.Bool.{true≢false}
use mathlib.Core.Path.{ap₂}
use mi_remote_usb_bridge.Server.State.{AudioFormat}
use mi_remote_usb_bridge.Client.Ima.{ImaState, ima_loop, ima_decode, ima_state_reset, at_most_last}
use mi_remote_usb_bridge.Client.Ima.Pieces.{
  IsImaState, ima_loop-IsImaState, ima_loop-append, ima_loop_room, ima_state_reset-IsImaState,
}
use mi_remote_usb_bridge.Client.Decoder.{
  DecodeStatus, decode_ok, Decoder, is_other_size, is_bad_unit, is_bad_config, configured,
  init_format, decoder_init, codec_ima_hi, decode_unsupported, decode_config, first_predictor,
  config_of, decode_unit, decoder_decode,
}

-- A unit of at most `most` bytes, with room for its samples.
pub record IsUnit (most capacity : ℕ) (unit : List ℕ) : Type 0 where
  pub unit_some : 0 < length unit
  pub unit_bound : length unit ≤ most
  pub unit_room : 2 * length unit ≤ capacity

-- A decoder that `rbp_decoder_init` has accepted.
pub record IsReady (d : Decoder) : Type 0 where
  pub size_known : is_other_size d.size ≡ false
  pub version : d.abi_version ≡ 1
  pub is_ready : d.ready ≡ 1
  pub in_range : IsImaState d.ima

abbrev pub is_ok : DecodeStatus → Bool
is_ok decode_ok = true
is_ok _ = false

refused≢ok : (status : DecodeStatus) → is_ok status ≡ false → status ≢ decode_ok
refused≢ok status refused ok = true≢false (sym (ap is_ok ok) ∙ refused)

takes_unit :
    (d : Decoder) (unit : List ℕ) (capacity : ℕ)
    → IsReady d
    → IsUnit d.max_unit_bytes capacity unit
    → is_bad_unit d (length unit) ≡ false
takes_unit d unit capacity r u =
    let known = r.size_known in
    let version = r.version in
    let ready = r.is_ready in
    let some_bytes = u.unit_some in let bound = u.unit_bound in rw known ground arith

decoder_decode-decode_unit :
    (d : Decoder) (unit : List ℕ) (capacity : ℕ)
    → IsReady d
    → IsUnit d.max_unit_bytes capacity unit
    → decoder_decode (some d) (some unit) true true capacity ≡ decode_unit d unit capacity
unfolding decoder_decode
decoder_decode-decode_unit d unit capacity r u =
    let room = u.unit_room in
    rw (takes_unit d unit capacity r u, ge→ltb capacity (length unit * 2 % 2 ^ 32) (omega arith))
      refl

-- The bytes of the units, one after the other.
unfoldable pub joined : List (List ℕ) → List ℕ
joined [] = []
joined (unit ∷ units) = unit ++ joined units

abbrev pub prefixed : List ℕ → Option (List ℕ) → Option (List ℕ)
prefixed samples none = none
prefixed samples (some more) = some (samples ++ more)

-- One call of `rbp_decoder_decode` for each unit: the samples, or none when a call fails.
unfoldable pub run_units : ℕ → Option Decoder → List (List ℕ) → Option (List ℕ)
run_units capacity d [] = some []
run_units capacity d (unit ∷ units) =
    let now = decoder_decode d (some unit) true true capacity in
    let rest = run_units capacity now.decoder units in
    if is_ok now.status then prefixed now.samples rest else none

-- The samples of a sequence of bytes, with room for two each.
abbrev pub all_samples : ImaState → List ℕ → List ℕ
all_samples st bytes = (ima_decode (some st) bytes (2 * length bytes)).0

all_samples-append :
    (st : ImaState) (xs ys : List ℕ) (room : ℕ)
    → 2 * length xs ≤ room
    → let first = ima_loop st xs room in
      first.0 ++ all_samples first.1 ys ≡ all_samples st (xs ++ ys)
unfolding ima_decode
all_samples-append st xs ys room h =
    let all = 2 * length (xs ++ ys) in
    let count = length-append xs ys in
    let first = ima_loop st xs all in
    ap (λ p. p.0 ++ all_samples p.1 ys) (ima_loop_room st xs room all h (omega arith))
    ∙ ap (λ r. first.0 ++ (ima_loop first.1 ys r).0) (omega arith)
    ∙ ap (λ p. p.0) (sym (ima_loop-append st xs ys all (omega arith)))

run_units-ready :
    (units : List (List ℕ)) (d : Decoder) (capacity : ℕ)
    → IsReady d
    → All (IsUnit d.max_unit_bytes capacity) units
    → run_units capacity (some d) units ≡ some (all_samples d.ima (joined units))
unfolding run_units joined ima_decode
run_units-ready [] d capacity r u = refl
run_units-ready (unit ∷ units) d capacity r u =
    let d' = record d { ima = (ima_loop d.ima unit capacity).1 } in
    let kept = ima_loop-IsImaState d.ima unit capacity r.in_range in
    let ready : IsReady d' = record {
      size_known = r.size_known;
      version = r.version;
      is_ready = r.is_ready;
      in_range = kept.1;
    } in
    let rest = run_units-ready units d' capacity ready u.1 in
    let room = u.0.unit_room in
    rw (decoder_decode-decode_unit d unit capacity r u.0, rest)
      (ap some (all_samples-append d.ima unit (joined units) capacity room))

init_format-configured :
    (size : ℕ) (f : AudioFormat)
    → (init_format size (some f)).1 ≡ decode_ok
    → ((init_format size (some f)).0 ≡ configured size f) × (is_bad_config f ≡ false)
init_format-configured size f ok =
    elim (Bool-cases ((f.codec_id != codec_ima_hi) || (f.codec_revision != 1))) [
      | inl e ↦ absurd (refused≢ok decode_unsupported refl (rw e at ok))
      | inr e ↦ elim (Bool-cases (is_bad_config f)) [
        | inl b ↦ absurd (refused≢ok decode_config refl (rw (e, b) at ok))
        | inr b ↦ (rw (e, b) refl, b)
      ]
    ]

decoder_init-configured :
    (d : Decoder) (size : ℕ) (f : AudioFormat)
    → (decoder_init (some d) size (some f)).1 ≡ decode_ok
    → (is_other_size size ≡ false)
      × ((decoder_init (some d) size (some f)).0 ≡ some (configured size f))
      × (is_bad_config f ≡ false)
unfolding decoder_init
decoder_init-configured d size f ok = elim (Bool-cases (is_other_size size)) [
  | inl e ↦ absurd (refused≢ok decode_config refl (rw e at ok))
  | inr e ↦
      let accepted = init_format-configured size f (rw e at ok) in
      rw e (refl, ap some accepted.0, accepted.1)
]

configured-IsReady :
    (size : ℕ) (f : AudioFormat) → is_other_size size ≡ false → IsReady (configured size f)
configured-IsReady size f known = record {
  size_known = known;
  version = refl;
  is_ready = refl;
  in_range = ima_state_reset-IsImaState (first_predictor (config_of f)) _ (omega arith);
}

-- The predictor and the index that the first three bytes of a configuration name.
abbrev pub named_state : ℕ → ℕ → ℕ → ImaState
named_state low high index = record {
  predictor = (low + 256 * high + 32768) % 65536;
  step_index = index;
}

configured_start :
    (size : ℕ) (f : AudioFormat) (low high index : ℕ) (rest : List ℕ)
    → f.config ≡ some (low ∷ high ∷ index ∷ rest)
    → is_bad_config f ≡ false
    → (configured size f).ima ≡ named_state low high index
unfolding ima_state_reset
configured_start size f low high index rest e good =
    let bytes : config_of f ≡ low ∷ high ∷ index ∷ rest =
      ap (λ o. elim o as (λ _. List ℕ) [ none ↦ [] | some b ↦ b ]) e in
    let small : ltb 88 (get_or (config_of f) 2 0) ≡ false =
      (or_cases _ _ (or_first _ _ (or_first _ _ (or_first _ _ good)))).1 in
    let third : get_or (config_of f) 2 0 ≡ index = ap (λ l. get_or l 2 0) bytes in
    let kept : at_most_last (get_or (config_of f) 2 0) ≡ index =
      ap (λ b. if b then 88 else get_or (config_of f) 2 0) small ∙ third in
    let sum : first_predictor (config_of f) ≡ (low + 256 * high + 32768) % 65536 =
      ap first_predictor bytes ∙ ap (λ n. n % 65536) (omega arith) in
    ap₂ (λ p i. record { predictor = p; step_index = i }) sum kept

-- Once `rbp_decoder_init` has accepted a format, every unit that has from one byte to the format's
-- most bytes, and room for two samples for each byte, decodes. The units together give the samples of
-- `ima_decode` on all their bytes in one call, from the signed 16-bit predictor in the first two
-- bytes of the configuration, low byte first, and the index in the third.
pub run_units-decoder_init :
    (d : Decoder) (size : ℕ) (f : AudioFormat) (low high index : ℕ) (rest : List ℕ)
    (units : List (List ℕ)) (capacity : ℕ)
    → (decoder_init (some d) size (some f)).1 ≡ decode_ok
    → f.config ≡ some (low ∷ high ∷ index ∷ rest)
    → All (IsUnit f.max_unit_bytes capacity) units
    → run_units capacity (decoder_init (some d) size (some f)).0 units
      ≡ some (all_samples (named_state low high index) (joined units))
run_units-decoder_init d size f low high index rest units capacity ok e u =
    let start = decoder_init-configured d size f ok in
    ap (λ o. run_units capacity o units) start.1
    ∙ run_units-ready units (configured size f) capacity (configured-IsReady size f start.0) u
    ∙ ap (λ st. some (all_samples st (joined units)))
        (configured_start size f low high index rest e start.2)
