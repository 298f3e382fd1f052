-- ===== src/Wire/Cobs/InPlace/Agree.antt =====
-- Decoding over the source, round by round, against decoding into a buffer of its own.
use mi_remote_usb_bridge.Base.{
  ◌⊎◌, ℕ, zero, suc, ◌+◌, ◌-◌, ◌≤◌, ◌<◌, ◌≡◌, ◌≢◌, refl, sym, ap, ◌∙◌, arith, List, [], ◌∷◌, ◌++◌,
  ◌==◌, ltb, if◌then◌else◌, length, take, drop, length-append, set_prefix, take_prefix, Bool-cases,
  ==→eq, ==→ne, inl, inr, append_assoc, append-nil, ltb→ge, ltb→lt, ge→ltb, ==_ne, lt→ltb, Bool,
  get_or, set, not, ◌&&◌, take-append-drop, ==_refl, length-take, length-drop,
}
use mathlib.Core.Path.{ap₂, subst₂}
use mi_remote_usb_bridge.Wire.Cobs.RoundTrip.{decode_block}
use native.Mathlib.Nat.{add-zero}
use mi_remote_usb_bridge.Wire.Cobs.{
  Decoded, done, block_zero, decode_loop, decoded_bytes, cobs_decode, is_empty,
}
use mi_remote_usb_bridge.Wire.Cobs.InPlace.{
  copy_within, place_loop, decode_in_place, displaced, length-displaced, get_or_prefix,
  copy_within_block,
}

-- The buffer before and after the block `blk` moves over the gap, and the test for the zero.
abbrev before : List ℕ → List ℕ → List ℕ → List ℕ → List ℕ
before out gap blk rest = out ++ (gap ++ (length blk + 1) ∷ (blk ++ rest))

abbrev gap_after : List ℕ → List ℕ → List ℕ
gap_after gap blk = displaced (gap ++ (length blk + 1) ∷ []) blk

abbrev moved : List ℕ → List ℕ → List ℕ → List ℕ → List ℕ
moved out gap blk rest = out ++ (blk ++ (gap_after gap blk ++ rest))

abbrev zero_due : ℕ → List ℕ → ℕ → Bool
zero_due r blk stop = ltb (length blk + 1) 0xff && not (r + 1 + length blk == stop)

-- Both decoders agree on a buffer that holds `out`, then a gap, then the unread source.
abbrev Agree : ℕ → List ℕ → Type 0
Agree fuel src =
    (out gap : List ℕ) (r w stop : ℕ)
    → r ≡ length out + length gap
    → w ≡ length out
    → stop ≡ r + length src
    → place_loop fuel (out ++ (gap ++ src)) r w stop ≡ decode_loop fuel src out

list_split : (l : List ℕ) → 1 ≤ length l → (g : ℕ) × (gs : List ℕ) × (l ≡ g ∷ gs)
list_split [] h = absurd (omega arith)
list_split (g ∷ gs) h = (g, gs, refl)

at_end-is_empty :
    (i stop : ℕ) (rest : List ℕ) → stop ≡ i + length rest → (i == stop) ≡ is_empty rest
at_end-is_empty i stop [] h = ground arith
at_end-is_empty i stop (c ∷ rest) h = ground arith

-- One round on a block `blk` that fits.
module _ (out gap blk rest : List ℕ) (fuel r w stop : ℕ) (at_r : r ≡ length out + length gap)
    (at_w : w ≡ length out) (at_stop : stop ≡ r + 1 + length blk + length rest) where
  reads_code : get_or (before out gap blk rest) r 0 ≡ length blk + 1
  reads_code =
      ap₂ (λ m i. get_or m i 0) (sym (append_assoc out gap _)) (at_r ∙ sym (length-append out gap))
      ∙ get_or_prefix (out ++ gap) (length blk + 1) (blk ++ rest)

  moves_block :
      copy_within (length blk) (before out gap blk rest) (r + 1) w ≡ moved out gap blk rest
  moves_block =
      ap (λ m. copy_within (length blk) (out ++ m) (r + 1) w)
        (sym (append_assoc gap ((length blk + 1) ∷ []) (blk ++ rest)))
      ∙ copy_within_block blk out (gap ++ (length blk + 1) ∷ []) rest (r + 1) w
          (omega (arith, length-append gap ((length blk + 1) ∷ [])))
          (omega (arith, length-append gap ((length blk + 1) ∷ []))) at_w

  abbrev round_result : Decoded
  round_result =
      if zero_due r blk stop
      then place_loop fuel (set (moved out gap blk rest) (w + length blk) 0) (r + 1 + length blk)
          (w + length blk + 1) stop
      else place_loop fuel (moved out gap blk rest) (r + 1 + length blk) (w + length blk) stop

  place_round : place_loop (suc fuel) (before out gap blk rest) r w stop ≡ round_result
  place_round =
      let n : length blk + 1 - 1 ≡ length blk = omega arith in
      unfold place_loop in
      rw (
        reads_code,
        n,
        moves_block,
        ==_ne r stop (omega arith),
        ==_ne (length blk + 1) 0 (omega arith),
        ge→ltb (stop - (r + 1)) (length blk) (omega arith),
      )

  length-gap_after : length (gap_after gap blk) ≡ length gap + 1
  length-gap_after = omega (
    arith,
    length-displaced (gap ++ (length blk + 1) ∷ []) blk,
    length-append gap ((length blk + 1) ∷ []),
  )

  -- The zero takes the first byte of the gap.
  zero_written :
      (g : ℕ) (gs : List ℕ)
      → gap_after gap blk ≡ g ∷ gs
      → set (moved out gap blk rest) (w + length blk) 0 ≡ (out ++ (blk ++ 0 ∷ [])) ++ (gs ++ rest)
  zero_written g gs e =
      ap₂ (λ m i. set m i 0)
        (ap (λ t. out ++ (blk ++ (t ++ rest))) e ∙ sym (append_assoc out blk _))
        (ap (λ t. t + length blk) at_w ∙ sym (length-append out blk))
      ∙ set_prefix (out ++ blk) g 0 (gs ++ rest)
      ∙ simp append_assoc

  module _ (ih : Agree fuel rest) where
    round_plain :
        place_loop fuel (moved out gap blk rest) (r + 1 + length blk) (w + length blk) stop
        ≡ decode_loop fuel rest (out ++ (blk ++ []))
    round_plain =
        ap (λ m. place_loop fuel m (r + 1 + length blk) (w + length blk) stop)
          (sym (append_assoc out blk (gap_after gap blk ++ rest)))
        ∙ ih (out ++ blk) (gap_after gap blk) (r + 1 + length blk) (w + length blk) stop
            (omega (arith, length-append out blk, length-gap_after))
            (omega (arith, length-append out blk)) (omega arith)
        ∙ ap (λ t. decode_loop fuel rest (out ++ t)) (sym (append-nil blk))

    round_zero :
        (g : ℕ) (gs : List ℕ)
        → gap_after gap blk ≡ g ∷ gs
        → place_loop fuel
            (set (moved out gap blk rest) (w + length blk) 0)
            (r + 1 + length blk)
            (w + length blk + 1)
            stop
          ≡ decode_loop fuel rest (out ++ (blk ++ 0 ∷ []))
    round_zero g gs e =
        ap (λ m. place_loop fuel m (r + 1 + length blk) (w + length blk + 1) stop)
          (zero_written g gs e)
        ∙ ih (out ++ (blk ++ 0 ∷ [])) gs (r + 1 + length blk) (w + length blk + 1) stop
            (omega (arith, long, length-gap_after, ap length e)) (omega (arith, long)) (omega arith)
      where
        long : length (out ++ (blk ++ 0 ∷ [])) ≡ length out + length blk + 1
        long = omega (arith, length-append out (blk ++ 0 ∷ []), length-append blk (0 ∷ []))

    result-Agree :
        round_result ≡ decode_loop fuel rest (out ++ (blk ++ block_zero (length blk + 1) rest))
    result-Agree = elim (Bool-cases (ltb (length blk + 1) 0xff && not (is_empty rest))) [
      | inl e ↦
          let (g, gs, split) = list_split (gap_after gap blk) (omega (arith, length-gap_after)) in
          rw (due, e) (round_zero g gs split)
      | inr e ↦ rw (due, e) round_plain
    ]
      where
        due : zero_due r blk stop ≡ ltb (length blk + 1) 0xff && not (is_empty rest)
        due = ap (λ b. ltb (length blk + 1) 0xff && not b) (at_end-is_empty _ stop rest at_stop)

    round-Agree :
        place_loop (suc fuel) (before out gap blk rest) r w stop
        ≡ decode_loop (suc fuel) ((length blk + 1) ∷ (blk ++ rest)) out
    round-Agree = place_round ∙ result-Agree ∙ sym (decode_block fuel blk rest out)

-- A record that is refused: a zero code byte, or a block that runs past the end.
refused-Agree :
    (fuel code r w stop : ℕ) (out gap src : List ℕ)
    → r ≡ length out + length gap
    → stop ≡ r + suc (length src)
    → (code ≡ 0) ⊎ (length src < code - 1)
    → place_loop (suc fuel) (out ++ (gap ++ code ∷ src)) r w stop
      ≡ decode_loop (suc fuel) (code ∷ src) out
refused-Agree fuel code r w stop out gap src hr hs why =
    let read : get_or (out ++ (gap ++ code ∷ src)) r 0 ≡ code =
      ap₂ (λ m i. get_or m i 0) (sym (append_assoc out gap _)) (hr ∙ sym (length-append out gap))
      ∙ get_or_prefix (out ++ gap) code src in
    let left : stop - (r + 1) ≡ length src = omega arith in
    elim why [
      | inl e ↦
          unfold place_loop decode_loop in rw (read, ==_ne r stop (omega arith), ap (λ c. c == 0) e)
      | inr lt ↦
          unfold place_loop decode_loop in
          rw (
            read,
            left,
            ==_ne r stop (omega arith),
            lt→ltb (length src) (code - 1) lt,
            ==_ne code 0 (omega arith),
          )
    ]

accepted-Agree :
    (fuel code r w stop : ℕ) (out gap src : List ℕ)
    → r ≡ length out + length gap
    → w ≡ length out
    → stop ≡ r + suc (length src)
    → code ≢ 0
    → code - 1 ≤ length src
    → Agree fuel (drop (code - 1) src)
    → place_loop (suc fuel) (out ++ (gap ++ code ∷ src)) r w stop
      ≡ decode_loop (suc fuel) (code ∷ src) out
accepted-Agree fuel code r w stop out gap src hr hw hs nz fits ih =
    subst₂
      (λ c s.
        place_loop (suc fuel) (out ++ (gap ++ c ∷ s)) r w stop ≡ decode_loop (suc fuel) (c ∷ s) out)
      block_code (take-append-drop (code - 1) src)
      (round-Agree out gap (take (code - 1) src) (drop (code - 1) src) fuel r w stop hr hw
        (omega (arith, length-take (code - 1) src, length-drop (code - 1) src)) ih)
  where
    block_code : length (take (code - 1) src) + 1 ≡ code
    block_code = omega (arith, length-take (code - 1) src)

-- At the end of the source the front of the buffer is the output.
ended-Agree :
    (fuel r w stop : ℕ) (out gap : List ℕ)
    → w ≡ length out
    → stop ≡ r + 0
    → place_loop fuel (out ++ (gap ++ [])) r w stop ≡ decode_loop fuel [] out
ended-Agree zero r w stop out gap hw hs =
    unfold place_loop decode_loop in
    rw (hs, add-zero, ==_refl r)
      (ap done (ap (λ i. take i (out ++ (gap ++ []))) hw ∙ take_prefix out (gap ++ [])))
ended-Agree (suc fuel) r w stop out gap hw hs =
    unfold place_loop decode_loop in
    rw (hs, add-zero, ==_refl r)
      (ap done (ap (λ i. take i (out ++ (gap ++ []))) hw ∙ take_prefix out (gap ++ [])))

place_loop-Agree : (fuel : ℕ) (src : List ℕ) → length src ≤ fuel → Agree fuel src
place_loop-Agree fuel [] h out gap r w stop hr hw hs = ended-Agree fuel r w stop out gap hw hs
place_loop-Agree zero (code ∷ src) h out gap r w stop hr hw hs = absurd (omega arith)
place_loop-Agree (suc fuel) (code ∷ src) h out gap r w stop hr hw hs =
    elim (Bool-cases (code == 0)) [
      | inl e ↦ refused-Agree fuel code r w stop out gap src hr hs (inl (==→eq code 0 e))
      | inr e ↦ elim (Bool-cases (ltb (length src) (code - 1))) [
        | inl f ↦ refused-Agree fuel code r w stop out gap src hr hs (inr (ltb→lt _ _ f))
        | inr f ↦
            accepted-Agree fuel code r w stop out gap src hr hw hs (==→ne code 0 e) (ltb→ge _ _ f) (
              place_loop-Agree fuel (drop (code - 1) src)
                (omega (arith, length-drop (code - 1) src)))
      ]
    ]

-- A record decoded over itself gives what it gives in a buffer of its own.
pub decode_in_place-cobs_decode : (buf : List ℕ) → decode_in_place buf ≡ cobs_decode buf
unfolding decode_in_place cobs_decode
decode_in_place-cobs_decode buf = ap decoded_bytes (
    place_loop-Agree (length buf) buf (omega arith) [] [] 0 0 (length buf) (omega arith)
      (omega arith) (omega arith))
