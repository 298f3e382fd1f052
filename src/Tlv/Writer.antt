-- ===== src/Tlv/Writer.antt =====
-- The writer: `rbp_tlv_writer_init` to `rbp_tlv_put_bytes`.
use mi_remote_usb_bridge.Base.{
  ℕ, zero, suc, ◌+◌, ◌*◌, ◌/◌, ◌%◌, ◌^◌, ◌≤◌, ◌≡◌, refl, arith, List, [], ◌∷◌, ◌++◌, Bool, true,
  false, ltb, leb, ◌==◌, if◌then◌else◌, Option, none, some, length, length-append, Bool-cases, inl,
  inr,
}
use mi_remote_usb_bridge.Wire.Frame.{max_payload}
use mi_remote_usb_bridge.Wire.Header.{put16, put32}

-- `RBP_TLV_T_U8` to `RBP_TLV_T_BYTES`
abbrev pub type_u8 : ℕ
type_u8 = 1

abbrev pub type_u16 : ℕ
type_u16 = 2

abbrev pub type_u32 : ℕ
type_u32 = 3

abbrev pub type_u64 : ℕ
type_u64 = 4

abbrev pub type_bool : ℕ
type_bool = 5

abbrev pub type_text : ℕ
type_text = 6

abbrev pub type_bytes : ℕ
type_bytes = 7

-- `RBP_TLV_MAX_TEXT` and `RBP_TLV_MAX_BYTES`
abbrev pub max_text : ℕ
max_text = 96

abbrev pub max_bytes : ℕ
max_bytes = 480

-- `rbp_tlv_writer_t`: `buf` is `buf[0..len)`, and `last_tag` is `none` for -1.
pub record Writer : Type 0 where
  pub buf : List ℕ
  pub overflow : Bool
  pub last_tag : Option ℕ

-- `rbp_tlv_writer_init`
abbrev pub writer_init : Writer
writer_init = record { buf = []; overflow = false; last_tag = none }

-- `w->last_tag >= (int)tag`
abbrev pub out_of_order : Option ℕ → ℕ → Bool
out_of_order none tag = false
out_of_order (some last) tag = leb tag last

-- The four bytes before a value.
abbrev pub item_header : ℕ → ℕ → ℕ → List ℕ
item_header tag type l = tag ∷ type ∷ l % 256 ∷ l / 2 ^ 8 % 256 ∷ []

-- `w_put`
unfoldable pub w_put : Writer → ℕ → ℕ → List ℕ → Writer × Bool
w_put w tag type v =
    let overflow' = if out_of_order w.last_tag tag then true else w.overflow in
    if ltb max_payload (length w.buf + 4 + length v)
    then (record w { overflow = true; last_tag = some tag }, false)
    else (
      record {
        buf = w.buf ++ (item_header tag type (length v) ++ v);
        overflow = overflow';
        last_tag = some tag;
      },
      true,
    )

-- `rbp_tlv_put_u8`, `rbp_tlv_put_u16` and `rbp_tlv_put_u32`
unfoldable pub put_u8 : Writer → ℕ → ℕ → Writer × Bool
put_u8 w tag v = w_put w tag type_u8 (v ∷ [])

unfoldable pub put_u16 : Writer → ℕ → ℕ → Writer × Bool
put_u16 w tag v = w_put w tag type_u16 (put16 v)

unfoldable pub put_u32 : Writer → ℕ → ℕ → Writer × Bool
put_u32 w tag v = w_put w tag type_u32 (put32 v)

-- `for (int i = 0; i < 8; i++) b[i] = (uint8_t)(v >> (8 * i));`, from `i` on for `n` rounds.
abbrev pub bytes_from : ℕ → ℕ → ℕ → List ℕ
bytes_from i zero v = []
bytes_from i (suc n) v = v / 2 ^ (8 * i) % 256 ∷ bytes_from (i + 1) n v

unfoldable pub put_u64 : Writer → ℕ → ℕ → Writer × Bool
put_u64 w tag v = w_put w tag type_u64 (bytes_from 0 8 v)

unfoldable pub put_bool : Writer → ℕ → Bool → Writer × Bool
put_bool w tag v = w_put w tag type_bool ((if v then 1 else 0) ∷ [])

-- The characters of a C string before its terminator.
abbrev pub c_string : List ℕ → List ℕ
c_string [] = []
c_string (c ∷ s) = if c == 0 then [] else c ∷ c_string s

unfoldable pub put_text : Writer → ℕ → List ℕ → Writer × Bool
put_text w tag s =
    let text = c_string s in
    if ltb max_text (length text)
    then (record w { overflow = true }, false)
    else w_put w tag type_text text

unfoldable pub put_bytes : Writer → ℕ → List ℕ → Writer × Bool
put_bytes w tag v =
    if ltb max_bytes (length v)
    then (record w { overflow = true }, false)
    else w_put w tag type_bytes v

-- A writer's content never exceeds a payload, whatever is put, and a refused put leaves the content
-- alone and marks the overflow.
pub w_put_bound :
    (w : Writer) (tag type : ℕ) (v : List ℕ)
    → length w.buf ≤ max_payload
    → let (w', taken) = w_put w tag type v in
      (length w'.buf ≤ max_payload)
      × (if taken
          then w'.buf ≡ w.buf ++ (item_header tag type (length v) ++ v)
          else (w'.buf ≡ w.buf) × (w'.overflow ≡ true))
unfolding w_put
w_put_bound w tag type v h = elim (Bool-cases (ltb max_payload (length w.buf + 4 + length v))) [
  | inl e ↦ rw e (h, (refl, refl))
  | inr e ↦ rw e (
    ground (
      arith,
      length-append w.buf (item_header tag type (length v) ++ v),
      length-append (item_header tag type (length v)) v,
    ),
    refl,
  )
]
