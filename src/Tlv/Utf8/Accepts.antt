-- ===== src/Tlv/Utf8/Accepts.antt =====
-- Texts that `utf8_valid` accepts.
use mi_remote_usb_bridge.Base.{
  ℕ, zero, suc, ◌+◌, ◌-◌, ◌*◌, ◌/◌, ◌%◌, ◌^◌, ◌≤◌, ◌<◌, ◌≡◌, refl, ap, ◌∙◌, arith, List, [], ◌∷◌,
  ◌++◌, Bool, true, false, ltb, le→leb, gt→leb, ◌==◌, ltb→lt, ltb→ge, lt→ltb, ge→ltb, ==_ne,
  if◌then◌else◌, some, length, length-append, drop, bit_and, All, Bool-cases, inl, inr,
}
use mi_remote_usb_bridge.Base.Bits.{agree_below, agree_below→eq, bit_or_fields, bit_or_comm}
use mi_remote_usb_bridge.Tlv.Utf8.{utf8_valid, utf8_loop, continuation, lead, refused}

-- One code point in one to four bytes, with no exception for the surrogates.
abbrev pub encode_point : ℕ → List ℕ
encode_point cp =
    if ltb cp 0x80
    then cp ∷ []
    else if ltb cp 0x800
    then (0xc0 + cp / 64) ∷ (0x80 + cp % 64) ∷ []
    else if ltb cp 0x10000
    then (0xe0 + cp / 4096) ∷ (0x80 + cp / 64 % 64) ∷ (0x80 + cp % 64) ∷ []
    else (0xf0 + cp / 262144)
      ∷ (0x80 + cp / 4096 % 64)
      ∷ (0x80 + cp / 64 % 64)
      ∷ (0x80 + cp % 64)
      ∷ []

abbrev pub utf8_encode : List ℕ → List ℕ
utf8_encode [] = []
utf8_encode (cp ∷ cps) = encode_point cp ++ utf8_encode cps

-- The bytes behind a lead byte.
behind_tag : (r : ℕ) → r < 64 → bit_and (0x80 + r) 0xc0 ≡ 0x80
unfolding agree_below
behind_tag = agree_below→eq (λ r. bit_and (0x80 + r) 0xc0) (λ r. 0x80) 64 refl

behind_bits : (r : ℕ) → r < 64 → bit_and (0x80 + r) 0x3f ≡ r
unfolding agree_below
behind_bits = agree_below→eq (λ r. bit_and (0x80 + r) 0x3f) (λ r. r) 64 refl

continuation_step :
    (n r x : ℕ) (s : List ℕ)
    → r < 64
    → continuation (suc n) ((0x80 + r) ∷ s) x ≡ continuation n s (x * 64 + r)
unfolding continuation
continuation_step n r x s h =
    rw (behind_tag r h, behind_bits r h)
      (ap (continuation n s) (bit_or_comm (x * 2 ^ 6) r ∙ bit_or_fields 6 r x h))

-- The lead bytes of two, three and four bytes.
two : (a : ℕ) → a < 30 → lead (0xc2 + a) ≡ some (2 + a, 1)
unfolding agree_below
two a h =
    rw
      (
        agree_below→eq (λ a. bit_and (0xc2 + a) 0xe0) (λ a. 0xc0) 30 refl a h,
        agree_below→eq (λ a. bit_and (0xc2 + a) 0x1f) (λ a. 2 + a) 30 refl a h,
        le→leb 0xc2 (0xc2 + a) (omega arith),
      )
      refl

three : (a : ℕ) → a < 16 → lead (0xe0 + a) ≡ some (a, 2)
unfolding agree_below
three a h =
    rw
      (
        agree_below→eq (λ a. bit_and (0xe0 + a) 0xe0) (λ a. 0xe0) 16 refl a h,
        agree_below→eq (λ a. bit_and (0xe0 + a) 0xf0) (λ a. 0xe0) 16 refl a h,
        agree_below→eq (λ a. bit_and (0xe0 + a) 0x0f) (λ a. a) 16 refl a h,
      )
      refl

four : (a : ℕ) → a < 5 → lead (0xf0 + a) ≡ some (a, 3)
unfolding agree_below
four a h =
    rw
      (
        agree_below→eq (λ a. bit_and (0xf0 + a) 0xe0) (λ a. 0xe0) 5 refl a h,
        agree_below→eq (λ a. bit_and (0xf0 + a) 0xf0) (λ a. 0xf0) 5 refl a h,
        agree_below→eq (λ a. bit_and (0xf0 + a) 0xf8) (λ a. 0xf0) 5 refl a h,
        agree_below→eq (λ a. bit_and (0xf0 + a) 0x07) (λ a. a) 5 refl a h,
        le→leb (0xf0 + a) 0xf4 (omega arith),
      )
      refl

-- A round at a lead byte.
utf8_round :
    (fuel c x n cp : ℕ) (s : List ℕ)
    → 0x80 ≤ c
    → lead c ≡ some (x, n)
    → n ≤ length s
    → continuation n s x ≡ some cp
    → refused n cp ≡ false
    → utf8_loop (suc fuel) (c ∷ s) ≡ utf8_loop fuel (drop n s)
unfolding utf8_loop
utf8_round fuel c x n cp s hc hl hn he hr =
    let nonzero : (c == 0) ≡ false = ==_ne c 0 (λ e. omega arith) in
    rw (nonzero, ge→ltb c 0x80 hc, hl, ge→ltb (length s) n hn, he, hr) refl

one_byte :
    (fuel cp : ℕ) (s : List ℕ)
    → 0 < cp
    → cp < 0x80
    → utf8_loop (suc fuel) (cp ∷ s) ≡ utf8_loop fuel s
unfolding utf8_loop
one_byte fuel cp s h e =
    let nonzero : (cp == 0) ≡ false = ==_ne cp 0 (λ q. omega arith) in
    rw (nonzero, lt→ltb cp 0x80 e) refl

two_bytes :
    (fuel a r : ℕ) (s : List ℕ)
    → a < 30
    → r < 64
    → utf8_loop (suc fuel) ((0xc2 + a) ∷ (0x80 + r) ∷ s) ≡ utf8_loop fuel s
unfolding continuation
two_bytes fuel a r s ha hr =
    utf8_round fuel (0xc2 + a) (2 + a) 1 ((2 + a) * 64 + r) ((0x80 + r) ∷ s) (omega arith)
      (two a ha) (omega arith) (continuation_step 0 r (2 + a) s hr) refl

three_bytes :
    (fuel a q r : ℕ) (s : List ℕ)
    → a < 16
    → q < 64
    → r < 64
    → 32 ≤ a * 64 + q
    → utf8_loop (suc fuel) ((0xe0 + a) ∷ (0x80 + q) ∷ (0x80 + r) ∷ s) ≡ utf8_loop fuel s
unfolding continuation
three_bytes fuel a q r s ha hq hr h =
    let cp = (a * 64 + q) * 64 + r in
    utf8_round fuel (0xe0 + a) a 2 cp ((0x80 + q) ∷ (0x80 + r) ∷ s) (omega arith) (three a ha)
      (omega arith)
      (continuation_step 1 q a ((0x80 + r) ∷ s) hq ∙ continuation_step 0 r (a * 64 + q) s hr)
      (rw (ge→ltb cp 0x800 (omega arith)) refl)

four_bytes :
    (fuel a p q r : ℕ) (s : List ℕ)
    → p < 64
    → q < 64
    → r < 64
    → 16 ≤ a * 64 + p
    → a * 64 + p < 272
    → utf8_loop (suc fuel) ((0xf0 + a) ∷ (0x80 + p) ∷ (0x80 + q) ∷ (0x80 + r) ∷ s)
      ≡ utf8_loop fuel s
unfolding continuation
four_bytes fuel a p q r s hp hq hr h k =
    let cp = ((a * 64 + p) * 64 + q) * 64 + r in
    utf8_round fuel (0xf0 + a) a 3 cp ((0x80 + p) ∷ (0x80 + q) ∷ (0x80 + r) ∷ s) (omega arith)
      (four a (omega arith)) (omega arith)
      (continuation_step 2 p a ((0x80 + q) ∷ (0x80 + r) ∷ s) hp
        ∙ continuation_step 1 q (a * 64 + p) ((0x80 + r) ∷ s) hq
        ∙ continuation_step 0 r ((a * 64 + p) * 64 + q) s hr)
      (rw
        (
          ge→ltb cp 0x10000 (omega arith),
          le→leb 0xd800 cp (omega arith),
          gt→leb cp 0xdfff (omega arith),
          ge→ltb 0x10ffff cp (omega arith),
        )
        refl)

encode_point_round :
    (fuel cp : ℕ) (s : List ℕ)
    → 0 < cp
    → cp < 0x110000
    → utf8_loop (suc fuel) (encode_point cp ++ s) ≡ utf8_loop fuel s
encode_point_round fuel cp s h k = elim (Bool-cases (ltb cp 0x80)) [
  | inl e ↦ rw e (one_byte fuel cp s h (ltb→lt cp 0x80 e))
  | inr e ↦ elim (Bool-cases (ltb cp 0x800)) [
    | inl f ↦
        rw (e, f)
          (ap (λ c. utf8_loop (suc fuel) (c ∷ (0x80 + cp % 64) ∷ s))
              (from_two cp (ltb→ge cp 0x80 e))
            ∙ two_bytes fuel (cp / 64 - 2) (cp % 64) s (narrow cp (ltb→lt cp 0x800 f))
                (omega arith))
    | inr f ↦ above (ltb→ge cp 0x800 f) e f
  ]
]
  where
    from_two : (cp : ℕ) → 0x80 ≤ cp → 0xc0 + cp / 64 ≡ 0xc2 + (cp / 64 - 2)
    from_two cp b = omega arith

    narrow : (cp : ℕ) → cp < 0x800 → cp / 64 - 2 < 30
    narrow cp b = omega arith

    above :
        0x800 ≤ cp
        → ltb cp 0x80 ≡ false
        → ltb cp 0x800 ≡ false
        → utf8_loop (suc fuel) (encode_point cp ++ s) ≡ utf8_loop fuel s
    above b e f = elim (Bool-cases (ltb cp 0x10000)) [
      | inl g ↦
          let top = ltb→lt cp 0x10000 g in
          rw (e, f, g)
            (three_bytes fuel (cp / 4096) (cp / 64 % 64) (cp % 64) s (omega (arith, top))
              (omega arith) (omega arith) (omega (arith, b)))
      | inr g ↦
          let low = ltb→ge cp 0x10000 g in
          rw (e, f, g)
            (four_bytes fuel (cp / 262144) (cp / 4096 % 64) (cp / 64 % 64) (cp % 64) s (omega arith)
              (omega arith) (omega arith) (omega (arith, low)) (omega (arith, k)))
    ]

unfoldable pub IsPoint : ℕ → Type 0
IsPoint cp = (0 < cp) × (cp < 0x110000)

nothing_left : (fuel : ℕ) → utf8_loop fuel [] ≡ true
unfolding utf8_loop
nothing_left zero = refl
nothing_left (suc fuel) = refl

one_or_more : (b : Bool) (c : ℕ) (s t : List ℕ) → 1 ≤ length t → 1 ≤ length (if b then c ∷ s else t)
one_or_more true c s t h = omega arith
one_or_more false c s t h = h

size : (cp : ℕ) (cps : List ℕ) → 1 + length (utf8_encode cps) ≤ length (utf8_encode (cp ∷ cps))
size cp cps = omega (
  arith,
  length-append (encode_point cp) (utf8_encode cps),
  one_or_more (ltb cp 0x80) cp [] _ (
      one_or_more (ltb cp 0x800) (0xc0 + cp / 64) _ _ (
        one_or_more (ltb cp 0x10000) (0xe0 + cp / 4096) _
          ((0xf0 + cp / 262144)
            ∷ (0x80 + cp / 4096 % 64)
            ∷ (0x80 + cp / 64 % 64)
            ∷ (0x80 + cp % 64)
            ∷ [])
          (omega arith))),
)

utf8_loop-utf8_encode :
    (cps : List ℕ) (fuel : ℕ)
    → All IsPoint cps
    → length (utf8_encode cps) ≤ fuel
    → utf8_loop fuel (utf8_encode cps) ≡ true
unfolding IsPoint
utf8_loop-utf8_encode [] fuel h hf = nothing_left fuel
utf8_loop-utf8_encode (cp ∷ cps) zero h hf = absurd (omega (arith, hf, size cp cps))
utf8_loop-utf8_encode (cp ∷ cps) (suc fuel) ((hp, hq), h) hf =
    encode_point_round fuel cp (utf8_encode cps) hp hq
    ∙ utf8_loop-utf8_encode cps fuel h (omega (arith, hf, size cp cps))

-- Every text of code points from 1 to 0x10ffff is accepted, the surrogates 0xd800 to 0xdfff among
-- them.
pub utf8_valid-utf8_encode : (cps : List ℕ) → All IsPoint cps → utf8_valid (utf8_encode cps) ≡ true
unfolding utf8_valid
utf8_valid-utf8_encode cps h = utf8_loop-utf8_encode cps (length (utf8_encode cps)) h (omega arith)
