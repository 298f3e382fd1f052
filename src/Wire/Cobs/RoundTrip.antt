-- ===== src/Wire/Cobs/RoundTrip.antt =====
-- The decoder undoes the encoder.
use mi_remote_usb_bridge.Base.{
  ℕ, zero, suc, ◌+◌, ◌-◌, ◌≤◌, ◌<◌, ◌≡◌, refl, sym, ap, ◌∙◌, arith, List, [], ◌∷◌, ◌++◌, ◌==◌,
  length, length-append, take_prefix, drop_prefix, Bool-cases, ==→eq, ==→ne, inl, inr, append_assoc,
  append-nil, ge→ltb, ==_ne, false,
}
use mathlib.Core.Path.{ap₂}
use mi_remote_usb_bridge.Wire.Cobs.{
  done, block_zero, decode_loop, decoded_bytes, cobs_encode, cobs_decode, is_empty,
}
use mi_remote_usb_bridge.Wire.Cobs.Blocks.{blocks, cobs_encode-blocks}

-- One round of the decoder on a block `blk` and what follows it.
pub decode_block :
    (fuel : ℕ) (blk rest out : List ℕ)
    → decode_loop (suc fuel) ((length blk + 1) ∷ (blk ++ rest)) out
      ≡ decode_loop fuel rest (out ++ (blk ++ block_zero (length blk + 1) rest))
decode_block fuel blk rest out =
    let n : length blk + 1 - 1 ≡ length blk = omega arith in
    unfold decode_loop in
    rw (
      n,
      ==_ne (length blk + 1) 0 (omega arith),
      take_prefix blk rest,
      drop_prefix blk rest,
      ge→ltb (length (blk ++ rest)) (length blk) (omega (arith, length-append blk rest)),
    )

length-blocks_pos : (xs blk : List ℕ) → 1 ≤ length (blocks blk xs)
unfolding blocks
length-blocks_pos [] blk = omega arith
length-blocks_pos (x ∷ xs) blk = ground (arith, length-blocks_pos xs (blk ++ x ∷ []))

blocks-ne-nil : (blk xs : List ℕ) → is_empty (blocks blk xs) ≡ false
unfolding blocks
blocks-ne-nil blk [] = refl
blocks-ne-nil blk (x ∷ xs) = ground (arith, blocks-ne-nil (blk ++ x ∷ []) xs)

block_zero_last : (code : ℕ) → block_zero code [] ≡ []
block_zero_last code = ground arith

block_zero_full : (rest : List ℕ) → block_zero 255 rest ≡ []
block_zero_full rest = refl

block_zero_inner :
    (code : ℕ) (rest : List ℕ) → code < 255 → is_empty rest ≡ false → block_zero code rest ≡ 0 ∷ []
block_zero_inner code rest h e = ground arith

decode_last :
    (blk out : List ℕ) (fuel : ℕ)
    → decode_loop (suc fuel) ((length blk + 1) ∷ blk) out ≡ done (out ++ (blk ++ []))
decode_last blk out fuel =
    ap (λ t. decode_loop (suc fuel) ((length blk + 1) ∷ t) out) (sym (append-nil blk))
    ∙ decode_block fuel blk [] out
    ∙ unfold decode_loop in ap (λ t. done (out ++ (blk ++ t))) (block_zero_last (length blk + 1))

-- A block that a zero of the input ended, and a full block.
decode_zero :
    (blk rest out : List ℕ) (fuel : ℕ)
    → length blk ≤ 253
    → is_empty rest ≡ false
    → decode_loop (suc fuel) ((length blk + 1) ∷ (blk ++ rest)) out
      ≡ decode_loop fuel rest (out ++ (blk ++ 0 ∷ []))
decode_zero blk rest out fuel h e =
    decode_block fuel blk rest out
    ∙ ap (λ t. decode_loop fuel rest (out ++ (blk ++ t)))
        (block_zero_inner (length blk + 1) rest (omega arith) e)

decode_full :
    (blk rest out : List ℕ) (x fuel : ℕ)
    → length blk ≡ 253
    → decode_loop (suc fuel) (255 ∷ (blk ++ x ∷ rest)) out
      ≡ decode_loop fuel rest (out ++ (blk ++ x ∷ []))
decode_full blk rest out x fuel h =
    ap₂ (λ c t. decode_loop (suc fuel) (c ∷ t) out) code (sym (append_assoc blk (x ∷ []) rest))
    ∙ decode_block fuel (blk ++ x ∷ []) rest out
    ∙ ap (λ t. decode_loop fuel rest (out ++ t))
        (ap (λ c. (blk ++ x ∷ []) ++ block_zero c rest) (sym code) ∙ append-nil (blk ++ x ∷ []))
  where
    code : 255 ≡ length (blk ++ x ∷ []) + 1
    code = omega (arith, length-append blk (x ∷ []))

regroup :
    (out blk : List ℕ) (x : ℕ) (xs : List ℕ)
    → (out ++ (blk ++ x ∷ [])) ++ xs ≡ out ++ (blk ++ x ∷ xs)
regroup out blk x xs = simp append_assoc

decode_loop-blocks :
    (xs blk out : List ℕ) (fuel : ℕ)
    → length blk ≤ 253
    → length (blocks blk xs) ≤ fuel
    → decode_loop fuel (blocks blk xs) out ≡ done (out ++ (blk ++ xs))
unfolding blocks
decode_loop-blocks [] blk out zero h k = absurd (omega arith)
decode_loop-blocks [] blk out (suc fuel) h k = decode_last blk out fuel
decode_loop-blocks (x ∷ xs) blk out zero h k =
    absurd (ground (arith, length-blocks_pos (x ∷ xs) blk))
decode_loop-blocks (x ∷ xs) blk out (suc fuel) h k = elim (Bool-cases (x == 0)) [
  | inl e ↦ rw e (
      decode_zero blk (blocks [] xs) out fuel h (blocks-ne-nil [] xs)
      ∙ decode_loop-blocks xs [] (out ++ (blk ++ 0 ∷ [])) fuel (omega arith)
          (ground (arith, length-append blk (blocks [] xs)))
      ∙ ap done (rw (==→eq x 0 e) (regroup out blk 0 xs)))
  | inr e ↦ elim (Bool-cases (length blk == 253)) [
    | inl f ↦
        rw (e, f)
          (decode_full blk (blocks [] xs) out x fuel (==→eq _ _ f)
            ∙ decode_loop-blocks xs [] (out ++ (blk ++ x ∷ [])) fuel (omega arith)
                (ground (arith, length-append blk (x ∷ blocks [] xs)))
            ∙ ap done (regroup out blk x xs))
    | inr f ↦
        rw (e, f)
          (decode_loop-blocks xs (blk ++ x ∷ []) out (suc fuel)
              (omega (arith, length-append blk (x ∷ []), ==→ne _ _ f)) (ground arith)
            ∙ ap (λ t. done (out ++ t)) (append_assoc blk (x ∷ []) xs))
  ]
]

-- `rbp_cobs_decode` returns every byte string that `rbp_cobs_encode` was given.
pub cobs_decode-cobs_encode : (src : List ℕ) → cobs_decode (cobs_encode src) ≡ src
unfolding cobs_decode
cobs_decode-cobs_encode src = rw cobs_encode-blocks (
    ap decoded_bytes
      (decode_loop-blocks src [] [] (length (blocks [] src)) (omega arith) (omega arith)))
