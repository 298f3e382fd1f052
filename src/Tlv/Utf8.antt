-- ===== src/Tlv/Utf8.antt =====
-- `utf8_valid` of protocol/src/rbp_tlv.c.
pub mod Accepts
use mi_remote_usb_bridge.Base.{
  ℕ, zero, suc, ◌+◌, ◌-◌, ◌*◌, ◌/◌, ◌%◌, ◌^◌, ◌≤◌, ◌<◌, ◌≡◌, refl, ap, ◌∙◌, arith, List, [], ◌∷◌,
  ◌++◌, Bool, true, false, ◌&&◌, ◌||◌, ltb, leb, ◌==◌, ◌!=◌, if◌then◌else◌, Option, none, some,
  length, get_or, drop, bit_and, bit_or, not,
}

-- The lead byte: the bits of the code point that it carries and the number of bytes behind it.
abbrev pub lead : ℕ → Option (ℕ × ℕ)
lead c =
    if (bit_and c 0xe0 == 0xc0) && leb 0xc2 c
    then some (bit_and c 0x1f, 1)
    else if bit_and c 0xf0 == 0xe0
    then some (bit_and c 0x0f, 2)
    else if (bit_and c 0xf8 == 0xf0) && leb c 0xf4
    then some (bit_and c 0x07, 3)
    else none

-- `for (int k = 1; k <= n; k++)`: the code point, or `none` for a byte that is no continuation.
unfoldable pub continuation : ℕ → List ℕ → ℕ → Option ℕ
continuation zero s cp = some cp
continuation (suc n) [] cp = none
continuation (suc n) (b ∷ s) cp =
    if bit_and b 0xc0 != 0x80 then none else continuation n s (bit_or (cp * 2 ^ 6) (bit_and b 0x3f))

-- The three tests on the code point.
abbrev pub refused : ℕ → ℕ → Bool
refused n cp =
    ((n == 2) && ltb cp 0x800)
    || ((n == 3) && (ltb cp 0x10000 || (leb 0xd800 cp && leb cp 0xdfff)))
    || ((n == 3) && ltb 0x10ffff cp)

-- The loop, on the bytes from `i` on; a round takes at least one byte.
unfoldable pub utf8_loop : ℕ → List ℕ → Bool
utf8_loop fuel [] = true
utf8_loop zero (c ∷ s) = false
utf8_loop (suc fuel) (c ∷ s) =
    let next = utf8_loop fuel s in
    let behind : ℕ → Bool = λ n. utf8_loop fuel (drop n s) in
    if c == 0 then false else if ltb c 0x80 then next else elim (lead c) [
      | none ↦ false
      | some (cp, n) ↦ if ltb (length s) n then false else elim (continuation n s cp) [
        | none ↦ false
        | some cp' ↦ if refused n cp' then false else behind n
      ]
    ]

-- `utf8_valid`
unfoldable pub utf8_valid : List ℕ → Bool
unfolding utf8_loop
utf8_valid s = utf8_loop (length s) s
