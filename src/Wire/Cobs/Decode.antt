-- ===== src/Wire/Cobs/Decode.antt =====
-- The decoder's loop ends on every input, and never writes more than it read.
use mi_remote_usb_bridge.Base.{
  ℕ, zero, suc, ◌+◌, ◌-◌, ◌≤◌, ◌≡◌, ◌≢◌, refl, arith, List, [], ◌∷◌, ◌++◌, length, take, drop,
  length-append, length-take, length-drop, min,
}
use mi_remote_usb_bridge.Wire.Cobs.{
  Decoded, done, bad, stuck, block_zero, decode_loop, decoded_bytes, cobs_decode,
}

length-block_zero : (code : ℕ) (rest : List ℕ) → length (block_zero code rest) ≤ min 1 (length rest)
length-block_zero code [] = ground arith
length-block_zero code (x ∷ rest) = ground arith

decode_loop-ne-stuck :
    (fuel : ℕ) (src out : List ℕ) → length src ≤ fuel → decode_loop fuel src out ≢ stuck
unfolding decode_loop
decode_loop-ne-stuck fuel [] out h = λ e. cc
decode_loop-ne-stuck zero (code ∷ src) out h = absurd (omega arith)
decode_loop-ne-stuck (suc fuel) (code ∷ src) out h =
    let rest = drop (code - 1) src in
    ground (
      arith,
      length-drop (code - 1) src,
      decode_loop-ne-stuck fuel rest (out ++ (take (code - 1) src ++ block_zero code rest)),
    )

-- Further fuel changes nothing.
pub decode_loop_fuel :
    (f g : ℕ) (src out : List ℕ)
    → length src ≤ f
    → length src ≤ g
    → decode_loop f src out ≡ decode_loop g src out
unfolding decode_loop
decode_loop_fuel f g [] out p q = refl
decode_loop_fuel zero g (code ∷ src) out p q = absurd (omega arith)
decode_loop_fuel (suc f) zero (code ∷ src) out p q = absurd (omega arith)
decode_loop_fuel (suc f) (suc g) (code ∷ src) out p q =
    let rest = drop (code - 1) src in
    ground (
      arith,
      length-drop (code - 1) src,
      decode_loop_fuel f g rest (out ++ (take (code - 1) src ++ block_zero code rest)),
    )

-- What a successful loop writes is shorter than what it reads: at least a byte for each code.
decode_loop-length :
    (fuel : ℕ) (src out res : List ℕ)
    → decode_loop fuel src out ≡ done res
    → length res + min 1 (length src) ≤ length out + length src
unfolding decode_loop
decode_loop-length fuel [] out res e = ground arith
decode_loop-length zero (code ∷ src) out res e = cc
decode_loop-length (suc fuel) (code ∷ src) out res e =
    let rest = drop (code - 1) src in
    ground (
      arith,
      length-drop (code - 1) src,
      length-take (code - 1) src,
      length-block_zero code rest,
      length-append (take (code - 1) src) (block_zero code rest),
      length-append out (take (code - 1) src ++ block_zero code rest),
      decode_loop-length fuel rest (out ++ (take (code - 1) src ++ block_zero code rest)) res,
    )

-- The loop of the decoder ends on every input.
pub cobs_decode_total : (src : List ℕ) → decode_loop (length src) src [] ≢ stuck
cobs_decode_total src = decode_loop-ne-stuck (length src) src [] (omega arith)

decoded_bytes-length :
    (fuel : ℕ) (src : List ℕ) → length (decoded_bytes (decode_loop fuel src [])) ≤ length src - 1
decoded_bytes-length fuel [] = unfold decode_loop in omega arith
decoded_bytes-length fuel (c ∷ src) = go (decode_loop fuel (c ∷ src) []) refl
  where
    go :
        (d : Decoded)
        → decode_loop fuel (c ∷ src) [] ≡ d
        → length (decoded_bytes d) ≤ length (c ∷ src) - 1
    go (done out) e = omega (arith, decode_loop-length fuel (c ∷ src) [] out e)
    go bad e = omega arith
    go stuck e = omega arith

-- Whatever the input, the decoded record is shorter than it, or both are empty.
pub length-cobs_decode : (src : List ℕ) → length (cobs_decode src) ≤ length src - 1
unfolding cobs_decode
length-cobs_decode src = decoded_bytes-length (length src) src
