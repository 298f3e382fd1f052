-- ===== src/Client/Ima/Pieces.antt =====
-- The IMA decoder on a unit in pieces: the state carries over, and stays in range.
use mi_remote_usb_bridge.Base.{
  ℕ, ◌+◌, ◌-◌, ◌*◌, ◌≤◌, ◌<◌, ◌≡◌, refl, ap, ◌∙◌, inl, inr, arith, List, [], ◌∷◌, ◌++◌, Option, ltb,
  ge→ltb, ltb→lt, ltb→ge, Bool-cases, length, All, bit_and, ◌!=◌, get_or, min, ◌/◌,
}
use mi_remote_usb_bridge.Client.Ima.{
  ImaState, ima_state_reset, step_table, index_table, step_diff, at_most_last, move_up, move_down,
  ima_decode_nibble, after_high, after_low, ima_loop, ima_decode, local_state,
}

-- A sample is 16 bits wide.
abbrev pub IsSample : ℕ → Type 0
IsSample x = x < 65536

-- The index lies within the table of steps.
pub record IsImaState (st : ImaState) : Type 0 where
  pub sample_bound : IsSample st.predictor
  pub index_bound : st.step_index < length step_table

at_most_last_bound : (i : ℕ) → at_most_last i < 89
at_most_last_bound i = ground arith

move_up-IsSample : (p d : ℕ) → IsSample (move_up p d)
move_up-IsSample p d = ground arith

move_down-IsSample : (p d : ℕ) → IsSample p → IsSample (move_down p d)
move_down-IsSample p d h = ground arith

ima_decode_nibble-IsImaState :
    (st : ImaState) (nibble : ℕ) → IsImaState st → IsImaState (ima_decode_nibble st nibble)
unfolding ima_decode_nibble
ima_decode_nibble-IsImaState st nibble h =
    let diff = step_diff (get_or step_table st.step_index 0) nibble in
    record {
      sample_bound = elim (Bool-cases (bit_and nibble 8 != 0)) [
        | inl e ↦ rw e (move_down-IsSample st.predictor diff h.sample_bound)
        | inr e ↦ rw e (move_up-IsSample st.predictor diff)
      ];
      index_bound =
          at_most_last_bound (st.step_index + get_or index_table (bit_and nibble 7) 0 - 1);
    }

pub ima_state_reset-IsImaState : (p i : ℕ) → IsSample p → IsImaState (ima_state_reset p i)
unfolding ima_state_reset
ima_state_reset-IsImaState p i h = record { sample_bound = h; index_bound = at_most_last_bound i }

-- What a run of the loop leaves: its samples and its state in range, and two samples for each byte
-- for which there is room.
pub ima_loop-IsImaState :
    (st : ImaState) (bytes : List ℕ) (room : ℕ)
    → IsImaState st
    → let result = ima_loop st bytes room in
      All IsSample result.0
      × IsImaState result.1
      × (length result.0 ≡ 2 * min (length bytes) (room / 2))
ima_loop-IsImaState st [] room h = (tt, h, omega arith)
ima_loop-IsImaState st (x ∷ xs) room h = elim (Bool-cases (ltb room 2)) [
  | inl e ↦ let few = ltb→lt room 2 e in rw e (tt, h, omega arith)
  | inr e ↦
      let many = ltb→ge room 2 e in
      let high = ima_decode_nibble-IsImaState st (x / 16) h in
      let low = ima_decode_nibble-IsImaState (after_high st x) (bit_and x 0x0f) high in
      let rest = ima_loop-IsImaState (after_low st x) xs (room - 2) low in
      let count = rest.2 in
      rw e ((high.sample_bound, (low.sample_bound, rest.0)), rest.1, omega arith)
]

pub ima_loop-append :
    (st : ImaState) (xs ys : List ℕ) (room : ℕ)
    → 2 * length xs ≤ room
    → let first = ima_loop st xs room in
      let second = ima_loop first.1 ys (room - 2 * length xs) in
      ima_loop st (xs ++ ys) room ≡ (first.0 ++ second.0, second.1)
ima_loop-append st [] ys room h = ap (λ r. ima_loop st ys r) (omega arith)
ima_loop-append st (x ∷ xs) ys room h =
    let rest = ima_loop-append (after_low st x) xs ys (room - 2) (omega arith) in
    let first = ima_loop (after_low st x) xs (room - 2) in
    let high = (after_high st x).predictor in
    let low = (after_low st x).predictor in
    rw (ge→ltb room 2 (omega arith)) (
      ap (λ p. (high ∷ low ∷ p.0, p.1)) rest
      ∙ ap
          (λ r.
            let second = ima_loop first.1 ys r in (high ∷ low ∷ (first.0 ++ second.0), second.1))
          (omega arith))

-- Room for more than the samples changes nothing.
pub ima_loop_room :
    (st : ImaState) (xs : List ℕ) (room enough : ℕ)
    → 2 * length xs ≤ room
    → 2 * length xs ≤ enough
    → ima_loop st xs room ≡ ima_loop st xs enough
ima_loop_room st [] room enough h k = refl
ima_loop_room st (x ∷ xs) room enough h k =
    let rest =
      ima_loop_room (after_low st x) xs (room - 2) (enough - 2) (omega arith) (omega arith) in
    let high = (after_high st x).predictor in
    let low = (after_low st x).predictor in
    rw (ge→ltb room 2 (omega arith), ge→ltb enough 2 (omega arith))
      (ap (λ p. (high ∷ low ∷ p.0, p.1)) rest)

-- From a state in range, with an index in the table of steps, `ima_decode` leaves a state in range;
-- its samples are 16 bits wide, two for each byte for which there is room.
pub ima_decode-IsImaState :
    (st : Option ImaState) (bytes : List ℕ) (out_max : ℕ)
    → IsImaState (local_state st)
    → let result = ima_decode st bytes out_max in
      All IsSample result.0
      × IsImaState result.1
      × (length result.0 ≡ 2 * min (length bytes) (out_max / 2))
unfolding ima_decode
ima_decode-IsImaState st bytes out_max h = ima_loop-IsImaState (local_state st) bytes out_max h
