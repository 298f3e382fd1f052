-- ===== src/Tlv/Reader/Seen.antt =====
-- The bitset of seen tags as a set of tags.
use mi_remote_usb_bridge.Base.{
  ℕ, ◌+◌, ◌*◌, ◌/◌, ◌%◌, ◌^◌, ◌<◌, ◌≡◌, refl, sym, ap, ◌∙◌, arith, List, Bool, true, false, ◌||◌,
  ◌==◌, ◌!=◌, ltb, ltb→lt, All-set, All-replicate, get_or-replicate, All-get_or, get_or-set_same,
  get_or-set_other, length, get_or, set, All, IsByte, length-set, bit_and, bit_or, inl, inr,
  Bool-cases, ==→eq, ==→ne, ==_ne,
}
use mi_remote_usb_bridge.Base.Bits.{zero-bit_and, agree_below, agree_below→eq}
use mathlib.Core.Path.{ap₂, subst₂, subst₃}
use mi_remote_usb_bridge.Tlv.Reader.{tag_seen, mark_tag, no_tags}

abbrev bit : Bool → ℕ
bit true = 1
bit false = 0

bit_injective : (a b : Bool) → bit a ≡ bit b → a ≡ b
bit_injective true true h = refl
bit_injective true false h = absurd (omega arith)
bit_injective false true h = absurd (omega arith)
bit_injective false false h = refl

abbrev after_or : ℕ → ℕ → ℕ → Bool
after_or b i j = bit_and (bit_or b (2 ^ i % 256)) (2 ^ j) != 0

abbrev expected : ℕ → ℕ → ℕ → Bool
expected b i j = (i == j) || (bit_and b (2 ^ j) != 0)

-- Every byte, bit to set and bit to test.
or_table :
    (n : ℕ)
    → n < 16384
    → bit (after_or (n / 64) (n / 8 % 8) (n % 8)) ≡ bit (expected (n / 64) (n / 8 % 8) (n % 8))
unfolding agree_below
or_table =
    agree_below→eq (λ n. bit (after_or (n / 64) (n / 8 % 8) (n % 8)))
      (λ n. bit (expected (n / 64) (n / 8 % 8) (n % 8))) 16384 refl

or_fields : (b i j : ℕ) → b < 256 → i < 8 → j < 8 → after_or b i j ≡ expected b i j
or_fields b i j hb hi hj =
    let n = 64 * b + (8 * i + j) in
    let eb : n / 64 ≡ b = omega arith in
    let ei : n / 8 % 8 ≡ i = omega arith in
    let ej : n % 8 ≡ j = omega arith in
    subst₃ (λ b i j. after_or b i j ≡ expected b i j) eb ei ej
      (bit_injective _ _ (or_table n (omega arith)))

-- The same table for the size of the result.
or_small : (b i : ℕ) → b < 256 → i < 8 → bit_or b (2 ^ i % 256) < 256
unfolding agree_below
or_small b i hb hi =
    let small : ℕ → ℕ → Bool = λ b i. ltb (bit_or b (2 ^ i % 256)) 256 in
    let n = 8 * b + i in
    let eb : n / 8 ≡ b = omega arith in
    let ei : n % 8 ≡ i = omega arith in
    let e = agree_below→eq (λ n. bit (small (n / 8) (n % 8))) (λ n. 1) 2048 refl n (omega arith) in
    ltb→lt _ 256 (subst₂ (λ b i. small b i ≡ true) eb ei (bit_injective _ true e))

-- The bitset is 32 bytes.
pub IsBitset : List ℕ → Type 0
IsBitset s = (length s ≡ 32) × All IsByte s

pub mark_tag-IsBitset : (s : List ℕ) (t : ℕ) → IsBitset s → IsBitset (mark_tag s t)
unfolding mark_tag IsBitset
mark_tag-IsBitset s t (hl, hb) = (
  length-set s (t / 8) _ ∙ hl,
  All-set IsByte s (t / 8) _
      (or_small _ (t % 8) (All-get_or IsByte s (t / 8) 0 (omega arith) hb) (omega arith)) hb,
)

pub tag_seen-mark_tag :
    (s : List ℕ) (t u : ℕ)
    → IsBitset s
    → t < 256
    → tag_seen (mark_tag s t) u ≡ (t == u) || tag_seen s u
unfolding tag_seen mark_tag IsBitset
tag_seen-mark_tag s t u (hl, hb) ht = elim (Bool-cases (t / 8 == u / 8)) [
  | inl e ↦
      let same = ==→eq (t / 8) (u / 8) e in
      let byte = get_or s (t / 8) 0 in
      let read : get_or (set s (t / 8) (bit_or byte (2 ^ (t % 8) % 256))) (u / 8) 0
          ≡ bit_or byte (2 ^ (t % 8) % 256) =
        ap (λ k. get_or (set s (t / 8) (bit_or byte (2 ^ (t % 8) % 256))) k 0) (sym same)
        ∙ get_or-set_same s (t / 8) _ 0 (omega (arith, hl)) in
      let tags : (t % 8 == u % 8) ≡ (t == u) = ground (arith, same) in
      ap (λ b. bit_and b (2 ^ (u % 8)) != 0) read
      ∙ or_fields byte (t % 8) (u % 8) (All-get_or IsByte s (t / 8) 0 (omega arith) hb)
          (omega arith) (omega arith)
      ∙ ap₂ (λ b x. b || (bit_and (get_or s x 0) (2 ^ (u % 8)) != 0)) tags same
  | inr e ↦
      let differ = ==→ne (t / 8) (u / 8) e in
      let tags : (t == u) ≡ false = ==_ne t u (λ h. differ (ap (λ x. x / 8) h)) in
      rw tags
        (ap (λ b. bit_and b (2 ^ (u % 8)) != 0) (get_or-set_other s (t / 8) (u / 8) _ 0 differ))
]

pub no_tags-IsBitset : IsBitset no_tags
unfolding IsBitset
no_tags-IsBitset = (refl, All-replicate IsByte 32 0 (omega arith))

pub tag_seen-no_tags : (u : ℕ) → tag_seen no_tags u ≡ false
unfolding tag_seen
tag_seen-no_tags u =
    ap (λ b. bit_and b (2 ^ (u % 8)) != 0) (get_or-replicate 32 0 (u / 8))
    ∙ ap (λ b. b != 0) (zero-bit_and (2 ^ (u % 8)))
