-- ===== src/Wire/Cobs/InPlace.antt =====
-- `rbp_cobs_decode(p->buf, p->len, p->buf)` of `rbp_rxparser_feed`: source and destination are one
-- buffer, so every write is visible to the reads that follow.
pub mod Agree
use mi_remote_usb_bridge.Base.{
  ◌⊎◌, ℕ, zero, suc, ◌+◌, ◌-◌, ◌≤◌, ◌<◌, ◌≡◌, ◌≢◌, refl, sym, ap, ◌∙◌, arith, List, [], ◌∷◌, ◌++◌,
  ◌==◌, ltb, if◌then◌else◌, length, take, drop, length-append, set_prefix, take_prefix, drop_prefix,
  drop_all, take_all, Bool-cases, ==→eq, ==→ne, inl, inr, append_assoc, append-nil, ltb→ge, ltb→lt,
  ge→ltb, ==_ne, lt→ltb, Bool, true, false, get_or, set, not, ◌&&◌, take-append-drop, ==_refl,
  length-take, length-drop, min,
}
use mathlib.Core.Path.{ap₂, subst₂}
use mi_remote_usb_bridge.Wire.Cobs.RoundTrip.{decode_block}
use native.Mathlib.Nat.{add-zero}
use mi_remote_usb_bridge.Wire.Cobs.{
  Decoded, done, bad, stuck, block_zero, decode_loop, decoded_bytes, cobs_encode, cobs_decode,
  is_empty,
}

-- `for (i = 0; i < block; i++) *dst++ = *src++;` with both cursors in one buffer.
copy_within : ℕ → List ℕ → ℕ → ℕ → List ℕ
copy_within zero mem r w = mem
copy_within (suc n) mem r w = copy_within n (set mem w (get_or mem r 0)) (r + 1) (w + 1)

-- The loop of the decoder at `src == mem + r`, `dst == mem + w`, `end == mem + stop`.
place_loop : ℕ → List ℕ → ℕ → ℕ → ℕ → Decoded
unfolding copy_within
place_loop zero mem r w stop = if r == stop then done (take w mem) else stuck
place_loop (suc fuel) mem r w stop =
    let code = get_or mem r 0 in
    let block = code - 1 in
    let mem' = copy_within block mem (r + 1) w in
    let r' = r + 1 + block in
    let w' = w + block in
    let with_zero = place_loop fuel (set mem' w' 0) r' (w' + 1) stop in
    let without = place_loop fuel mem' r' w' stop in
    if r == stop
    then done (take w mem)
    else if code == 0
    then bad
    else if ltb (stop - (r + 1)) block
    then bad
    else if ltb code 0xff && not (r' == stop)
    then with_zero
    else without

-- The record decoded over itself: what stands at the front of the buffer, up to the length returned.
unfoldable pub decode_in_place : List ℕ → List ℕ
unfolding place_loop
decode_in_place buf = decoded_bytes (place_loop (length buf) buf 0 0 (length buf))

-- The bytes between the cursors after `blk` went from behind `gap` to before it.
displaced : List ℕ → List ℕ → List ℕ
displaced gap [] = gap
displaced [] (b ∷ bs) = []
displaced (g ∷ gap) (b ∷ bs) = displaced (gap ++ b ∷ []) bs

length-displaced : (gap blk : List ℕ) → length (displaced gap blk) ≡ length gap
unfolding displaced
length-displaced gap [] = refl
length-displaced [] (b ∷ bs) = refl
length-displaced (g ∷ gap) (b ∷ bs) =
    ground (arith, length-displaced (gap ++ b ∷ []) bs, length-append gap (b ∷ []))

get_or_prefix : (xs : List ℕ) (v : ℕ) (ys : List ℕ) → get_or (xs ++ v ∷ ys) (length xs) 0 ≡ v
get_or_prefix [] v ys = refl
get_or_prefix (x ∷ xs) v ys = get_or_prefix xs v ys

-- One byte of a block, moved from behind the gap to its front.
move_byte :
    (out : List ℕ) (g : ℕ) (gap : List ℕ) (b : ℕ) (rest : List ℕ)
    → let mem = out ++ g ∷ (gap ++ b ∷ rest) in
      set mem (length out) (get_or mem (length out + suc (length gap)) 0)
      ≡ (out ++ b ∷ []) ++ ((gap ++ b ∷ []) ++ rest)
move_byte out g gap b rest =
    ap (set mem (length out)) read ∙ set_prefix out g b (gap ++ b ∷ rest) ∙ simp append_assoc
  where
    mem : List ℕ
    mem = out ++ g ∷ (gap ++ b ∷ rest)

    read : get_or mem (length out + suc (length gap)) 0 ≡ b
    read =
        ap₂ (λ m i. get_or m i 0) (sym (append_assoc out (g ∷ gap) (b ∷ rest)))
          (sym (length-append out (g ∷ gap)))
        ∙ get_or_prefix (out ++ g ∷ gap) b rest

copy_within_block :
    (blk out gap rest : List ℕ) (r w : ℕ)
    → 1 ≤ length gap
    → r ≡ length out + length gap
    → w ≡ length out
    → copy_within (length blk) (out ++ (gap ++ (blk ++ rest))) r w
      ≡ out ++ (blk ++ (displaced gap blk ++ rest))
unfolding copy_within displaced
copy_within_block [] out gap rest r w h hr hw = refl
copy_within_block (b ∷ bs) out [] rest r w h hr hw = absurd (omega arith)
copy_within_block (b ∷ bs) out (g ∷ gap) rest r w h hr hw =
    ap (λ m. copy_within (length bs) m (r + 1) (w + 1))
      (ap₂ (λ i j. set mem i (get_or mem j 0)) hw hr ∙ move_byte out g gap b (bs ++ rest))
    ∙ copy_within_block bs (out ++ b ∷ []) (gap ++ b ∷ []) rest (r + 1) (w + 1)
        (omega (arith, length-append gap (b ∷ [])))
        (omega (arith, length-append gap (b ∷ []), length-append out (b ∷ [])))
        (omega (arith, length-append out (b ∷ [])))
    ∙ append_assoc out (b ∷ []) _
  where
    mem : List ℕ
    mem = out ++ g ∷ (gap ++ b ∷ (bs ++ rest))
