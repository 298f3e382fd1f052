-- ===== src/Tlv/Getters.antt =====
-- The typed getters: `get_fixed` to `rbp_tlv_get_bytes`. An error stands alone here: on one,
-- `*found` is read by one caller only, after a wrong type, where it is always set.
use mi_remote_usb_bridge.Base.{
  ℕ, zero, suc, ◌*◌, ◌%◌, ◌^◌, List, Bool, ◌&&◌, ◌||◌, ltb, ◌!=◌, if◌then◌else◌, Option, none, some,
  length, get_or, bit_or, not,
}
use mi_remote_usb_bridge.Wire.Header.{get16, get32}
use mi_remote_usb_bridge.Tlv.Writer.{
  type_u8, type_u16, type_u32, type_u64, type_bool, type_text, type_bytes, max_text, max_bytes,
}
use mi_remote_usb_bridge.Tlv.Reader.{
  Reader, Result, ok, err, stuck, wrong_type, bad_value, complete, rejected, unfinished, scan,
}
use mi_remote_usb_bridge.Tlv.Utf8.{utf8_valid}

-- `get_fixed`: any length for `want_len` 0.
unfoldable pub get_fixed : Reader → ℕ → ℕ → ℕ → Result (Option (List ℕ))
get_fixed r tag want_type want_len = elim (scan r tag) [
  | complete none ↦ ok none
  | complete (some (type, v)) ↦
      if (type != want_type) || ((want_len != 0) && (length v != want_len))
      then err wrong_type
      else ok (some v)
  | rejected e found ↦ err e
  | unfinished ↦ stuck
]

abbrev pub wrap {ℓ} : {A : Type ℓ} → Result A → Result (Option A)
wrap (ok a) = ok (some a)
wrap (err e) = err e
wrap stuck = stuck

-- What a getter does with the value it found.
abbrev pub on_found {ℓ} :
    {A : Type ℓ} → (List ℕ → Result A) → Result (Option (List ℕ)) → Result (Option A)
on_found f (ok none) = ok none
on_found f (ok (some v)) = wrap (f v)
on_found f (err e) = err e
on_found f stuck = stuck

unfoldable pub get_u8 : Reader → ℕ → Result (Option ℕ)
get_u8 r tag = on_found (λ v. ok (get_or v 0 0)) (get_fixed r tag type_u8 1)

unfoldable pub get_u16 : Reader → ℕ → Result (Option ℕ)
get_u16 r tag = on_found (λ v. ok (get16 v 0)) (get_fixed r tag type_u16 2)

unfoldable pub get_u32 : Reader → ℕ → Result (Option ℕ)
get_u32 r tag = on_found (λ v. ok (get32 v 0)) (get_fixed r tag type_u32 4)

-- `for (int i = 7; i >= 0; i--) x = (x << 8) | v[i];`, from `i - 1` on.
unfoldable pub gather : ℕ → List ℕ → ℕ → ℕ
gather zero v x = x
gather (suc i) v x = gather i v (bit_or (x * 2 ^ 8 % 2 ^ 64) (get_or v i 0))

unfoldable pub get_u64 : Reader → ℕ → Result (Option ℕ)
get_u64 r tag = on_found (λ v. ok (gather 8 v 0)) (get_fixed r tag type_u64 8)

unfoldable pub get_bool : Reader → ℕ → Result (Option Bool)
get_bool r tag =
    on_found (λ v. if ltb 1 (get_or v 0 0) then err bad_value else ok (get_or v 0 0 != 0))
      (get_fixed r tag type_bool 1)

-- What `rbp_tlv_get_text` and `rbp_tlv_get_bytes` ask of the bytes they found.
unfoldable pub check_text : List ℕ → Result (List ℕ)
check_text v =
    if ltb max_text (length v)
    then err bad_value
    else if ltb 0 (length v) && not (utf8_valid v)
    then err bad_value
    else ok v

unfoldable pub get_text : Reader → ℕ → Result (Option (List ℕ))
get_text r tag = on_found check_text (get_fixed r tag type_text 0)

unfoldable pub check_bytes : List ℕ → Result (List ℕ)
check_bytes v = if ltb max_bytes (length v) then err bad_value else ok v

unfoldable pub get_bytes : Reader → ℕ → Result (Option (List ℕ))
get_bytes r tag = on_found check_bytes (get_fixed r tag type_bytes 0)
