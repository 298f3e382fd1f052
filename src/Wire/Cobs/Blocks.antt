-- ===== src/Wire/Cobs/Blocks.antt =====
-- The encoder that goes back to fill in code bytes, against a block-by-block description.
use mi_remote_usb_bridge.Base.{
  ℕ, ◌+◌, ◌/◌, ◌%◌, ◌≤◌, ◌<◌, ◌≡◌, ◌≢◌, ap, ◌∙◌, arith, List, [], ◌∷◌, ◌++◌, ◌==◌, if◌then◌else◌,
  length, set, length-append, set_prefix, append_assoc, All, All-append, Bool-cases, ==→eq, ==→ne,
  inl, inr,
}
use mi_remote_usb_bridge.Wire.Cobs.{Encoder, close_block, encode_byte, encode_loop, cobs_encode}

-- The encoding of `xs` behind the bytes `blk` of an open block: a block ends before a zero of the
-- input, after 254 bytes, and at the end of the input.
unfoldable pub blocks : List ℕ → List ℕ → List ℕ
blocks blk [] = (length blk + 1) ∷ blk
blocks blk (x ∷ xs) =
    let zero_case = (length blk + 1) ∷ (blk ++ blocks [] xs) in
    let full_case = 255 ∷ (blk ++ x ∷ blocks [] xs) in
    let open_case = blocks (blk ++ x ∷ []) xs in
    if x == 0 then zero_case else if length blk == 253 then full_case else open_case

-- The encoder's variables after the finished blocks `out`, inside a block of bytes `blk`.
abbrev within : List ℕ → List ℕ → Encoder
within out blk = record { dst = out ++ 0 ∷ blk; codep = length out; code = length blk + 1 }

close_block-within :
    (out blk : List ℕ) → close_block (within out blk) ≡ within (out ++ (length blk + 1) ∷ blk) []
unfolding close_block
close_block-within out blk = simp (set_prefix, length-append)

encode_byte-within_zero :
    (out blk : List ℕ) → encode_byte (within out blk) 0 ≡ within (out ++ (length blk + 1) ∷ blk) []
unfolding encode_byte
encode_byte-within_zero out blk = close_block-within out blk

encode_byte-within_zero_of :
    (out blk : List ℕ) (x : ℕ)
    → x ≡ 0
    → encode_byte (within out blk) x ≡ within (out ++ (length blk + 1) ∷ blk) []
encode_byte-within_zero_of out blk x e = rw e (encode_byte-within_zero out blk)

-- A byte other than zero is written; `within` again, if the block has room.
grow-within :
    (out blk : List ℕ) (x : ℕ)
    → length blk ≤ 253
    → ◌≡◌ {A = Encoder}
        (record (within out blk) {
          dst = (out ++ 0 ∷ blk) ++ x ∷ [];
          code = (length blk + 1 + 1) % 256;
        })
        (within out (blk ++ x ∷ []))
grow-within out blk x h =
    ground (arith, append_assoc out (0 ∷ blk) (x ∷ []), length-append blk (x ∷ []))

encode_byte-within_full :
    (out blk : List ℕ) (x : ℕ)
    → x ≢ 0
    → length blk ≡ 253
    → encode_byte (within out blk) x ≡ within (out ++ 255 ∷ (blk ++ x ∷ [])) []
unfolding encode_byte
encode_byte-within_full out blk x h e = ground (
  arith,
  grow-within out blk x,
  close_block-within out (blk ++ x ∷ []),
  length-append blk (x ∷ []),
)

encode_byte-within_open :
    (out blk : List ℕ) (x : ℕ)
    → x ≢ 0
    → length blk < 253
    → encode_byte (within out blk) x ≡ within out (blk ++ x ∷ [])
unfolding encode_byte
encode_byte-within_open out blk x h e =
    ground (arith, grow-within out blk x, length-append blk (x ∷ []))

-- Filling in the last code byte.
abbrev finish : Encoder → List ℕ
finish e = set e.dst e.codep e.code

encode_loop-blocks :
    (xs out blk : List ℕ)
    → length blk ≤ 253
    → finish (encode_loop (within out blk) xs) ≡ out ++ blocks blk xs
unfolding encode_loop blocks
encode_loop-blocks [] out blk h = set_prefix out 0 _ blk
encode_loop-blocks (x ∷ xs) out blk h = elim (Bool-cases (x == 0)) [
  | inl e ↦
      ap then_finish (encode_byte-within_zero_of out blk x (==→eq x 0 e))
      ∙ encode_loop-blocks xs (out ++ (length blk + 1) ∷ blk) [] (omega arith)
      ∙ rw e (append_assoc out ((length blk + 1) ∷ blk) (blocks [] xs))
  | inr e ↦ elim (Bool-cases (length blk == 253)) [
    | inl f ↦
        ap then_finish (encode_byte-within_full out blk x (==→ne x 0 e) (==→eq _ _ f))
        ∙ encode_loop-blocks xs (out ++ 255 ∷ (blk ++ x ∷ [])) [] (omega arith)
        ∙ rw (e, f) (simp append_assoc)
    | inr f ↦
        let room : length blk < 253 = omega (arith, ==→ne _ _ f) in
        ap then_finish (encode_byte-within_open out blk x (==→ne x 0 e) room)
        ∙ encode_loop-blocks xs out (blk ++ x ∷ []) (omega (arith, length-append blk (x ∷ [])))
        ∙ rw (e, f)
  ]
]
  where
    then_finish : Encoder → List ℕ
    then_finish s = finish (encode_loop s xs)

-- `rbp_cobs_encode` writes exactly the blocks of its input.
pub cobs_encode-blocks : (src : List ℕ) → cobs_encode src ≡ blocks [] src
unfolding cobs_encode
cobs_encode-blocks src = encode_loop-blocks src [] [] (omega arith)

abbrev pub NonZero : ℕ → Type 0
NonZero b = b ≢ 0

blocks-NonZero :
    (xs blk : List ℕ) → length blk ≤ 253 → All NonZero blk → All NonZero (blocks blk xs)
unfolding blocks
blocks-NonZero [] blk h nz = (omega arith, nz)
blocks-NonZero (x ∷ xs) blk h nz = elim (Bool-cases (x == 0)) [
  | inl e ↦ rw e (omega arith, All-append NonZero blk _ nz (blocks-NonZero xs [] (omega arith) tt))
  | inr e ↦ elim (Bool-cases (length blk == 253)) [
    | inl f ↦
        rw (e, f)
          (
            omega arith,
            All-append NonZero blk _ nz (==→ne x 0 e, blocks-NonZero xs [] (omega arith) tt),
          )
    | inr f ↦
        rw (e, f)
          (blocks-NonZero xs (blk ++ x ∷ [])
            (omega (arith, length-append blk (x ∷ []), ==→ne _ _ f))
            (All-append NonZero blk _ nz (==→ne x 0 e, tt)))
  ]
]

length-blocks :
    (xs blk : List ℕ)
    → length blk ≤ 253
    → (length blk + length xs + 1 ≤ length (blocks blk xs))
      × (length (blocks blk xs) ≤ length blk + length xs + 1 + (length blk + length xs) / 254)
unfolding blocks
length-blocks [] blk h = omega arith
length-blocks (x ∷ xs) blk h = ground (
  arith,
  length-blocks xs [] (omega arith),
  length-blocks xs (blk ++ x ∷ []),
  length-append blk (x ∷ []),
  length-append blk (blocks [] xs),
  length-append blk (x ∷ blocks [] xs),
)

-- The encoding never holds a zero, so a zero on the wire can only be a frame's delimiter.
pub cobs_encode_nonzero : (src : List ℕ) → All NonZero (cobs_encode src)
cobs_encode_nonzero src = rw cobs_encode-blocks (blocks-NonZero src [] (omega arith) tt)

-- The encoding is longer than its input, by at most one byte for each full 254 bytes and one more.
pub length-cobs_encode :
    (src : List ℕ)
    → (length src + 1 ≤ length (cobs_encode src))
      × (length (cobs_encode src) ≤ length src + 1 + length src / 254)
length-cobs_encode src = rw cobs_encode-blocks (ground (arith, length-blocks src [] (omega arith)))
