-- ===== src/Wire/Cobs.antt =====
-- Consistent-overhead byte stuffing, `rbp_cobs_encode` and `rbp_cobs_decode` of
-- protocol/src/rbp_frame.c. A destination buffer is the list of the bytes written so far.
pub mod Blocks
pub mod Decode
pub mod RoundTrip
pub mod InPlace
use mi_remote_usb_bridge.Base.{
  ℕ, zero, suc, ◌+◌, ◌-◌, ◌%◌, List, [], ◌∷◌, ◌++◌, ltb, ◌==◌, if◌then◌else◌, length, set, take,
  drop, Bool, true, false, not, ◌&&◌,
}

-- The encoder's variables: the bytes behind `dst_start`, the index of `*codep`, and `code`.
pub record Encoder : Type 0 where
  pub dst : List ℕ
  pub codep : ℕ
  pub code : ℕ

-- `codep = dst++` leaves the code byte to be filled in; its content until then is taken as 0.
abbrev pub encoder_start : Encoder
encoder_start = record { dst = 0 ∷ []; codep = 0; code = 1 }

-- `*codep = code; code = 1; codep = dst++`
unfoldable pub close_block : Encoder → Encoder
close_block e = record { dst = set e.dst e.codep e.code ++ 0 ∷ []; codep = length e.dst; code = 1 }

-- One round of the loop of `rbp_cobs_encode`.
unfoldable pub encode_byte : Encoder → ℕ → Encoder
unfolding close_block
encode_byte e b =
    let grown : Encoder = record e { dst = e.dst ++ b ∷ []; code = (e.code + 1) % 256 } in
    if b == 0 then close_block e else if grown.code == 0xff then close_block grown else grown

unfoldable pub encode_loop : Encoder → List ℕ → Encoder
unfolding encode_byte
encode_loop e [] = e
encode_loop e (b ∷ bs) = encode_loop (encode_byte e b) bs

-- `rbp_cobs_encode`: the bytes written, as many as the number that it returns.
unfoldable pub cobs_encode : List ℕ → List ℕ
unfolding encode_loop
cobs_encode src = let e = encode_loop encoder_start src in set e.dst e.codep e.code

-- How the loop of `rbp_cobs_decode` ends: by `src == end`, or by `return 0`. `stuck` is no C
-- value: the fuel ran out.
pub data Decoded : Type 0 where
  done : List ℕ → Decoded
  bad : Decoded
  stuck : Decoded

abbrev pub is_empty : List ℕ → Bool
is_empty [] = true
is_empty (x ∷ xs) = false

-- The zero that ended a block on the wire, unless the block was full or the last one.
abbrev pub block_zero : ℕ → List ℕ → List ℕ
block_zero code rest = if ltb code 0xff && not (is_empty rest) then 0 ∷ [] else []

-- One round takes at least the code byte from the source.
unfoldable pub decode_loop : ℕ → List ℕ → List ℕ → Decoded
decode_loop fuel [] out = done out
decode_loop zero (code ∷ src) out = stuck
decode_loop (suc fuel) (code ∷ src) out =
    let block = code - 1 in
    let rest = drop block src in
    let next = decode_loop fuel rest (out ++ (take block src ++ block_zero code rest)) in
    if code == 0 then bad else if ltb (length src) block then bad else next

-- What stands in `dst` up to the length returned; an error returns 0.
abbrev pub decoded_bytes : Decoded → List ℕ
decoded_bytes (done out) = out
decoded_bytes bad = []
decoded_bytes stuck = []

-- `rbp_cobs_decode`
unfoldable pub cobs_decode : List ℕ → List ℕ
unfolding decode_loop
cobs_decode src = decoded_bytes (decode_loop (length src) src [])
