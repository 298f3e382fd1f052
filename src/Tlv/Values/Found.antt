-- ===== src/Tlv/Values/Found.antt =====
-- Getters on the item of a value: `rbp_tlv_get_*` on what `rbp_tlv_put_*` wrote.
use mi_remote_usb_bridge.Base.{
  ℕ, ◌+◌, ◌*◌, ◌/◌, ◌%◌, ◌^◌, ◌≤◌, ◌<◌, ◌≡◌, refl, ap, ◌∙◌, arith, List, [], ◌∷◌, true, false, ◌&&◌,
  Bool-cases, inl, inr, ◌!=◌, ltb, ge→ltb, length, bit_or, some,
}
use mi_remote_usb_bridge.Base.Bits.{bit_or_fields, bit_or_comm}
use mi_remote_usb_bridge.Wire.Header.{put16, put32, halves_of, words_of}
use mi_remote_usb_bridge.Tlv.Writer.{
  bytes_from, type_u8, type_u16, type_u32, type_u64, type_bool, type_text, type_bytes, max_text,
  max_bytes,
}
use mi_remote_usb_bridge.Tlv.Reader.{Reader, ok, complete, scan}
use mi_remote_usb_bridge.Tlv.Utf8.{utf8_valid}
use mi_remote_usb_bridge.Tlv.Getters.{
  get_fixed, get_u8, get_u16, get_u32, get_u64, get_bool, get_text, get_bytes, gather, check_text,
  check_bytes, on_found, wrap,
}
use mi_remote_usb_bridge.Tlv.Values.{
  Value, u8, u16, u32, u64, boolean, text, bytes, ReadsBack, InRange, type_of, bytes_of,
}

shift_in : (x b w : ℕ) → x < 2 ^ 56 → b < 256 → w ≡ 256 * x + b → bit_or (x * 2 ^ 8 % 2 ^ 64) b ≡ w
shift_in x b w hx hb hw =
    let room : x * 2 ^ 8 % 2 ^ 64 ≡ x * 2 ^ 8 = omega arith in
    ap (λ t. bit_or t b) room
    ∙ bit_or_comm (x * 2 ^ 8) b
    ∙ bit_or_fields 8 b x hb
    ∙ omega (arith, hw)

gather_bytes : (v : ℕ) → v < 2 ^ 64 → gather 8 (bytes_from 0 8 v) 0 ≡ v
unfolding gather
gather_bytes v h =
    rw
      (
        shift_in 0 (v / 2 ^ 56 % 256) (v / 2 ^ 56) (omega arith) (omega arith) (omega arith),
        shift_in (v / 2 ^ 56) (v / 2 ^ 48 % 256) (v / 2 ^ 48) (omega arith) (omega arith)
            (omega arith),
        shift_in (v / 2 ^ 48) (v / 2 ^ 40 % 256) (v / 2 ^ 40) (omega arith) (omega arith)
            (omega arith),
        shift_in (v / 2 ^ 40) (v / 2 ^ 32 % 256) (v / 2 ^ 32) (omega arith) (omega arith)
            (omega arith),
        shift_in (v / 2 ^ 32) (v / 2 ^ 24 % 256) (v / 2 ^ 24) (omega arith) (omega arith)
            (omega arith),
        shift_in (v / 2 ^ 24) (v / 2 ^ 16 % 256) (v / 2 ^ 16) (omega arith) (omega arith)
            (omega arith),
        shift_in (v / 2 ^ 16) (v / 2 ^ 8 % 256) (v / 2 ^ 8) (omega arith) (omega arith)
            (omega arith),
        shift_in (v / 2 ^ 8) (v / 2 ^ 0 % 256) v (omega arith) (omega arith) (omega arith),
      )
      refl

-- The test that a value passes in `get_fixed`.
fixed_found :
    (r : Reader) (tag type n : ℕ) (v : List ℕ)
    → scan r tag ≡ complete (some (type, v))
    → (n != 0) && (length v != n) ≡ false
    → get_fixed r tag type n ≡ ok (some v)
unfolding get_fixed
fixed_found r tag type n v e h =
    let same : (type != type) ≡ false = ground arith in rw (e, get_fixed, same, h) refl

text_taken : (v : List ℕ) → length v ≤ max_text → utf8_valid v ≡ true → check_text v ≡ ok v
unfolding check_text
text_taken v hl hu = elim (Bool-cases (ltb 0 (length v))) [
  | inl e ↦ rw (ge→ltb max_text (length v) hl, e, hu) refl
  | inr e ↦ rw (ge→ltb max_text (length v) hl, e) refl
]

bytes_taken : (v : List ℕ) → length v ≤ max_bytes → check_bytes v ≡ ok v
unfolding check_bytes
bytes_taken v h = rw (ge→ltb max_bytes (length v) h) refl

-- A scan that finds the item of a value lets its getter yield the value.
pub getter_found :
    (r : Reader) (tag : ℕ) (v : Value)
    → InRange v
    → scan r tag ≡ complete (some ((type_of v), (bytes_of v)))
    → ReadsBack r tag v
unfolding get_u8 get_u16 get_u32 get_u64 get_bool get_text get_bytes InRange ReadsBack
getter_found r tag (u8 v) h e = rw (fixed_found r tag type_u8 1 (v ∷ []) e refl) refl
getter_found r tag (u16 v) h e =
    rw (fixed_found r tag type_u16 2 (put16 v) e refl) (ap (λ n. ok (some n)) (halves_of v h))
getter_found r tag (u32 v) h e =
    rw (fixed_found r tag type_u32 4 (put32 v) e refl) (ap (λ n. ok (some n)) (words_of v h))
getter_found r tag (u64 v) h e =
    rw (fixed_found r tag type_u64 8 (bytes_from 0 8 v) e refl)
      (ap (λ n. ok (some n)) (gather_bytes v h))
getter_found r tag (boolean true) h e = rw (fixed_found r tag type_bool 1 (1 ∷ []) e refl) refl
getter_found r tag (boolean false) h e = rw (fixed_found r tag type_bool 1 (0 ∷ []) e refl) refl
getter_found r tag (text v) (hl, hu, hc) e =
    ap (on_found check_text) (fixed_found r tag type_text 0 v e refl) ∙ ap wrap (text_taken v hl hu)
getter_found r tag (bytes v) h e =
    ap (on_found check_bytes) (fixed_found r tag type_bytes 0 v e refl) ∙ ap wrap (bytes_taken v h)
