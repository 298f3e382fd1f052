-- ===== src/Wire/Crc/Serial.antt =====
-- The table-driven checksum against the bit-serial CRC-32C of the header's comment.
use mi_remote_usb_bridge.Base.{
  ℕ, zero, suc, ◌*◌, ◌/◌, ◌%◌, ◌^◌, ◌<◌, ◌≡◌, ◌⊎◌, refl, sym, ap, ◌∙◌, arith, List, [], ◌∷◌, get_or,
  bit_and, bit_xor, IsByte, if◌then◌else◌, ◌==◌, All, inl, inr,
}
use mathlib.Core.Path.{ap₂}
use native.Mathlib.Nat.{pow-suc}
use mi_remote_usb_bridge.Base.Bits.{
  agree_below, agree_below→eq, bit_xor_half, bit_xor_parity, bit_xor_assoc, bit_xor_comm,
  bit_xor_self, bit_xor_swap, bit_xor_fields, bit_and_byte, bit_xor_bound, bit_xor-zero,
}
use mi_remote_usb_bridge.Wire.Crc.{crc32c_table, crc_byte, crc_loop, crc32c}

-- One shift of the register through the reflected polynomial.
abbrev pub polynomial : ℕ
polynomial = 0x82f6_3b78

unfoldable pub crc_shift : ℕ → ℕ
crc_shift c = if c % 2 == 1 then bit_xor (c / 2) polynomial else c / 2

unfoldable pub crc_shifts : ℕ → ℕ → ℕ
unfolding crc_shift
crc_shifts zero c = c
crc_shifts (suc n) c = crc_shifts n (crc_shift c)

-- The checksum of a byte string, one bit at a time.
unfoldable pub serial_loop : ℕ → List ℕ → ℕ
unfolding crc_shifts
serial_loop c [] = c
serial_loop c (b ∷ bs) = serial_loop (crc_shifts 8 (bit_xor c b)) bs

unfoldable pub serial : List ℕ → ℕ
unfolding serial_loop
serial bytes = bit_xor (serial_loop 0xffff_ffff bytes) 0xffff_ffff

crc_shift_odd : (c : ℕ) → c % 2 ≡ 1 → crc_shift c ≡ bit_xor (c / 2) polynomial
unfolding crc_shift
crc_shift_odd c h = rw h

crc_shift_even : (c : ℕ) → c % 2 ≡ 0 → crc_shift c ≡ c / 2
unfolding crc_shift
crc_shift_even c h = rw h

parity : (c : ℕ) → (c % 2 ≡ 0) ⊎ (c % 2 ≡ 1)
parity c = omega arith

-- A shift distributes over exclusive or.
crc_shift-bit_xor : (a b : ℕ) → crc_shift (bit_xor a b) ≡ bit_xor (crc_shift a) (crc_shift b)
crc_shift-bit_xor a b = elim (parity a) [
  | inl p ↦ elim (parity b) [
    | inl q ↦
        crc_shift_even (bit_xor a b) (omega (arith, bit_xor_parity a b))
        ∙ bit_xor_half a b
        ∙ rw (crc_shift_even a p, crc_shift_even b q)
    | inr q ↦
        crc_shift_odd (bit_xor a b) (omega (arith, bit_xor_parity a b))
        ∙ ap (λ t. bit_xor t polynomial) (bit_xor_half a b)
        ∙ bit_xor_assoc (a / 2) (b / 2) polynomial
        ∙ rw (crc_shift_even a p, crc_shift_odd b q)
  ]
  | inr p ↦ elim (parity b) [
    | inl q ↦
        crc_shift_odd (bit_xor a b) (omega (arith, bit_xor_parity a b))
        ∙ ap (λ t. bit_xor t polynomial) (bit_xor_half a b ∙ bit_xor_comm (a / 2) (b / 2))
        ∙ bit_xor_assoc (b / 2) (a / 2) polynomial
        ∙ bit_xor_comm (b / 2) (bit_xor (a / 2) polynomial)
        ∙ rw (crc_shift_odd a p, crc_shift_even b q)
    | inr q ↦
        crc_shift_even (bit_xor a b) (omega (arith, bit_xor_parity a b))
        ∙ bit_xor_half a b
        ∙ sym (bit_xor-zero _)
        ∙ ap (bit_xor (bit_xor (a / 2) (b / 2))) (sym (bit_xor_self polynomial))
        ∙ bit_xor_swap (a / 2) (b / 2) polynomial polynomial
        ∙ rw (crc_shift_odd a p, crc_shift_odd b q)
  ]
]

crc_shifts-bit_xor :
    (n a b : ℕ) → crc_shifts n (bit_xor a b) ≡ bit_xor (crc_shifts n a) (crc_shifts n b)
unfolding crc_shifts
crc_shifts-bit_xor zero a b = refl
crc_shifts-bit_xor (suc n) a b =
    ap (crc_shifts n) (crc_shift-bit_xor a b) ∙ crc_shifts-bit_xor n (crc_shift a) (crc_shift b)

-- Low zeros are shifted out unchanged.
crc_shifts_field : (n q : ℕ) → crc_shifts n (q * 2 ^ n) ≡ q
unfolding crc_shifts
crc_shifts_field zero q = omega arith
crc_shifts_field (suc n) q =
    ap (crc_shifts n) (crc_shift_even (q * 2 ^ suc n) (omega (arith, even)) ∙ omega (arith, even))
    ∙ crc_shifts_field n q
  where
    even : q * 2 ^ suc n ≡ 2 * (q * 2 ^ n)
    even = omega (arith, ap (λ (t : ℕ). q * t) (pow-suc 2 n))

table_entry : (i : ℕ) → i < 256 → get_or crc32c_table i 0 ≡ crc_shifts 8 i
unfolding agree_below crc_shifts
table_entry = agree_below→eq _ _ 256 refl

-- A byte added to the register does not reach its upper three bytes.
upper_bytes : (c b : ℕ) → b < 256 → bit_xor c b / 256 ≡ c / 256
upper_bytes c b h = omega (
  arith,
  bit_xor_half c b,
  bit_xor_half (c / 2) (b / 2),
  bit_xor_half (c / 2 / 2) (b / 2 / 2),
  bit_xor_half (c / 2 / 2 / 2) (b / 2 / 2 / 2),
  bit_xor_half (c / 2 / 2 / 2 / 2) (b / 2 / 2 / 2 / 2),
  bit_xor_half (c / 2 / 2 / 2 / 2 / 2) (b / 2 / 2 / 2 / 2 / 2),
  bit_xor_half (c / 2 / 2 / 2 / 2 / 2 / 2) (b / 2 / 2 / 2 / 2 / 2 / 2),
  bit_xor_half (c / 2 / 2 / 2 / 2 / 2 / 2 / 2) (b / 2 / 2 / 2 / 2 / 2 / 2 / 2),
  ap (bit_xor (c / 2 / 2 / 2 / 2 / 2 / 2 / 2 / 2)) none_left,
  bit_xor-zero (c / 2 / 2 / 2 / 2 / 2 / 2 / 2 / 2),
)
  where
    none_left : b / 2 / 2 / 2 / 2 / 2 / 2 / 2 / 2 ≡ 0
    none_left = omega arith

eight_shifts : (x : ℕ) → crc_shifts 8 x ≡ bit_xor (crc_shifts 8 (x % 256)) (x / 256)
eight_shifts x =
    ap (crc_shifts 8) split
    ∙ crc_shifts-bit_xor 8 (x / 256 * 2 ^ 8) (x % 256)
    ∙ ap (λ t. bit_xor t (crc_shifts 8 (x % 256))) (crc_shifts_field 8 (x / 256))
    ∙ bit_xor_comm (x / 256) (crc_shifts 8 (x % 256))
  where
    split : x ≡ bit_xor (x / 256 * 2 ^ 8) (x % 256)
    split = omega (arith, bit_xor_fields 8 (x / 256) (x % 256) (omega arith))

crc_byte-crc_shifts : (c b : ℕ) → b < 256 → crc_byte c b ≡ crc_shifts 8 (bit_xor c b)
unfolding crc_byte
crc_byte-crc_shifts c b h =
    ap₂ bit_xor
      (ap (λ i. get_or crc32c_table i 0) (bit_and_byte (bit_xor c b))
        ∙ table_entry (bit_xor c b % 256) (omega arith))
      (sym (upper_bytes c b h))
    ∙ sym (eight_shifts (bit_xor c b))

crc_loop-serial_loop :
    (c : ℕ) (bytes : List ℕ) → All IsByte bytes → crc_loop c bytes ≡ serial_loop c bytes
unfolding crc_loop serial_loop
crc_loop-serial_loop c [] h = refl
crc_loop-serial_loop c (b ∷ bs) h =
    ap (λ t. crc_loop t bs) (crc_byte-crc_shifts c b h.0)
    ∙ crc_loop-serial_loop (crc_shifts 8 (bit_xor c b)) bs h.1

-- `rbp_crc32c` computes the bit-serial CRC-32C with the reflected polynomial 0x82F63B78, on every
-- byte string.
pub crc32c-serial : (bytes : List ℕ) → All IsByte bytes → crc32c bytes ≡ serial bytes
unfolding crc32c serial
crc32c-serial bytes h = ap (λ t. bit_xor t 0xffff_ffff) (crc_loop-serial_loop 0xffff_ffff bytes h)

-- The check value of the header's comment, on "123456789".
crc32c_check :
    crc32c (0x31 ∷ 0x32 ∷ 0x33 ∷ 0x34 ∷ 0x35 ∷ 0x36 ∷ 0x37 ∷ 0x38 ∷ 0x39 ∷ []) ≡ 0xe306_9283
unfolding crc32c
crc32c_check = refl

table_bound : (i : ℕ) → i < 256 → get_or crc32c_table i 0 / 2 ^ 32 ≡ 0
unfolding agree_below
table_bound = agree_below→eq _ (λ i. 0) 256 refl

crc_byte-bound : (c b : ℕ) → c < 2 ^ 32 → crc_byte c b < 2 ^ 32
unfolding crc_byte
crc_byte-bound c b h =
    bit_xor_bound 32 (get_or crc32c_table index 0) (c / 256)
      (omega (arith, table_bound index small)) (omega arith)
  where
    index : ℕ
    index = bit_and (bit_xor c b) 0xff

    small : index < 256
    small = omega (arith, bit_and_byte (bit_xor c b))

crc_loop-bound : (c : ℕ) (bytes : List ℕ) → c < 2 ^ 32 → crc_loop c bytes < 2 ^ 32
unfolding crc_loop
crc_loop-bound c [] h = h
crc_loop-bound c (b ∷ bs) h = crc_loop-bound (crc_byte c b) bs (crc_byte-bound c b h)

pub crc32c-bound : (bytes : List ℕ) → crc32c bytes < 2 ^ 32
unfolding crc32c
crc32c-bound bytes =
    bit_xor_bound 32 (crc_loop 0xffff_ffff bytes) 0xffff_ffff
      (crc_loop-bound 0xffff_ffff bytes (omega arith)) (omega arith)
