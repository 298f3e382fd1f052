-- ===== src/Client/Ima.antt =====
-- The IMA decoder: client/c/ima_decoder.c with ima_decoder.h. An `int16_t` is held as its distance
-- from the smallest one, so that 0 is -32768, 32768 is 0 and 65535 is 32767.
pub mod Pieces
use mi_remote_usb_bridge.Base.{
  ℕ, ◌+◌, ◌-◌, ◌/◌, List, [], ◌∷◌, Option, none, some, ltb, ◌!=◌, if◌then◌else◌, get_or, bit_and,
}

-- `k_step_table`
abbrev pub step_table : List ℕ
step_table =
    7 ∷ 8 ∷ 9 ∷ 10 ∷ 11 ∷ 12 ∷ 13 ∷ 14 ∷ 16 ∷ 17 ∷ 19 ∷ 21 ∷ 23 ∷ 25 ∷ 28 ∷ 31 ∷ 34 ∷ 37 ∷ 41 ∷ 45
    ∷ 50 ∷ 55 ∷ 60 ∷ 66 ∷ 73 ∷ 80 ∷ 88 ∷ 97 ∷ 107 ∷ 118 ∷ 130 ∷ 143 ∷ 157 ∷ 173 ∷ 190 ∷ 209 ∷ 230
    ∷ 253 ∷ 279 ∷ 307 ∷ 337 ∷ 371 ∷ 408 ∷ 449 ∷ 494 ∷ 544 ∷ 598 ∷ 658 ∷ 724 ∷ 796 ∷ 876 ∷ 963 ∷ 1060
    ∷ 1166 ∷ 1282 ∷ 1411 ∷ 1552 ∷ 1707 ∷ 1878 ∷ 2066 ∷ 2272 ∷ 2499 ∷ 2749 ∷ 3024 ∷ 3327 ∷ 3660
    ∷ 4026 ∷ 4428 ∷ 4871 ∷ 5358 ∷ 5894 ∷ 6484 ∷ 7132 ∷ 7845 ∷ 8630 ∷ 9493 ∷ 10442 ∷ 11487 ∷ 12635
    ∷ 13899 ∷ 15289 ∷ 16818 ∷ 18500 ∷ 20350 ∷ 22385 ∷ 24623 ∷ 27086 ∷ 29794 ∷ 32767 ∷ []

-- `k_index_table`, each entry one higher: its smallest is -1.
abbrev pub index_table : List ℕ
index_table = 0 ∷ 0 ∷ 0 ∷ 0 ∷ 3 ∷ 5 ∷ 7 ∷ 9 ∷ 0 ∷ 0 ∷ 0 ∷ 0 ∷ 3 ∷ 5 ∷ 7 ∷ 9 ∷ []

-- `ima_state_t`
pub record ImaState : Type 0 where
  pub predictor : ℕ
  pub step_index : ℕ

-- `if (step_index > 88) step_index = 88;`
abbrev pub at_most_last : ℕ → ℕ
at_most_last index = if ltb 88 index then 88 else index

-- `ima_state_reset`
unfoldable pub ima_state_reset : ℕ → ℕ → ImaState
ima_state_reset predictor step_index = record {
  predictor = predictor;
  step_index = at_most_last step_index;
}

-- `diff`, for a step and the three low bits of a nibble.
unfoldable pub step_diff : ℕ → ℕ → ℕ
step_diff step nibble =
    step / 8
    + (if bit_and nibble 4 != 0 then step else 0)
    + (if bit_and nibble 2 != 0 then step / 2 else 0)
    + (if bit_and nibble 1 != 0 then step / 4 else 0)

-- `pred += diff` and `pred -= diff` with the two clamps.
abbrev pub move_up : ℕ → ℕ → ℕ
move_up pred diff = if ltb 65535 (pred + diff) then 65535 else pred + diff

abbrev pub move_down : ℕ → ℕ → ℕ
move_down pred diff = if ltb pred diff then 0 else pred - diff

-- `idx` with its two clamps: the subtraction stops at 0.
abbrev pub next_index : ℕ → ℕ → ℕ
next_index index nibble = at_most_last (index + get_or index_table (bit_and nibble 7) 0 - 1)

-- `ima_decode_nibble`: the state after it, whose predictor is the sample that it returns.
unfoldable pub ima_decode_nibble : ImaState → ℕ → ImaState
ima_decode_nibble st nibble =
    let diff = step_diff (get_or step_table st.step_index 0) nibble in
    record {
      predictor =
          if bit_and nibble 8 != 0 then move_down st.predictor diff else move_up st.predictor diff;
      step_index = next_index st.step_index nibble;
    }

-- The two nibbles of a byte, high nibble first: the states after the one and after the other.
abbrev pub after_high : ImaState → ℕ → ImaState
after_high st byte = ima_decode_nibble st (byte / 16)

abbrev pub after_low : ImaState → ℕ → ImaState
after_low st byte = ima_decode_nibble (after_high st byte) (bit_and byte 0x0f)

-- The loop of `ima_decode` with room for `room` samples: the samples and the state after them.
abbrev pub ima_loop : ImaState → List ℕ → ℕ → List ℕ × ImaState
ima_loop st [] room = ([], st)
ima_loop st (byte ∷ bytes) room =
    let rest = ima_loop (after_low st byte) bytes (room - 2) in
    if ltb room 2
    then ([], st)
    else ((after_high st byte).predictor ∷ (after_low st byte).predictor ∷ rest.0, rest.1)

-- The state that `ima_decode` starts in, the default one for a null pointer.
abbrev pub local_state : Option ImaState → ImaState
local_state none = ima_state_reset 32768 0
local_state (some st) = st

-- `ima_decode`
unfoldable pub ima_decode : Option ImaState → List ℕ → ℕ → List ℕ × ImaState
ima_decode st bytes out_max = ima_loop (local_state st) bytes out_max
