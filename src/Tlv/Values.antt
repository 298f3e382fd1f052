-- ===== src/Tlv/Values.antt =====
-- Typed values through a message: the functions `rbp_tlv_put_*` against the functions
-- `rbp_tlv_get_*`.
pub mod Found
pub mod ReadBack
use mi_remote_usb_bridge.Base.{
  ℕ, ◌+◌, ◌*◌, ◌/◌, ◌%◌, ◌^◌, ◌≤◌, ◌<◌, ◌≡◌, refl, sym, ap, ◌∙◌, arith, List, [], ◌∷◌, Bool, true,
  false, ◌&&◌, Bool-cases, inl, inr, ◌==◌, ◌!=◌, ltb, ge→ltb, if◌then◌else◌, length, All, bit_or,
  Option, none, some,
}
use mathlib.Core.Path.{subst}
use mathlib.Core.Option.{none-ne-some, some-injective}
use mi_remote_usb_bridge.Base.Bits.{bit_or_fields, bit_or_comm}
use mi_remote_usb_bridge.Wire.Frame.{max_payload}
use mi_remote_usb_bridge.Wire.Header.{put16, put32, halves_of, words_of}
use mi_remote_usb_bridge.Tlv.Writer.{
  Writer, writer_init, w_put, put_u8, put_u16, put_u32, put_u64, put_bool, put_text, put_bytes,
  c_string, bytes_from, type_u8, type_u16, type_u32, type_u64, type_bool, type_text, type_bytes,
  max_text, max_bytes,
}
use mi_remote_usb_bridge.Tlv.Reader.{Reader, Item, ok, reader_init, scan}
use mi_remote_usb_bridge.Tlv.Reader.Items.{IsItem, message}
use mi_remote_usb_bridge.Tlv.Reader.Scan.{lookup}
use mi_remote_usb_bridge.Tlv.Utf8.{utf8_valid}
use mi_remote_usb_bridge.Tlv.Getters.{
  get_fixed, get_u8, get_u16, get_u32, get_u64, get_bool, get_text, get_bytes, gather, check_text,
  check_bytes, on_found, wrap,
}
use mi_remote_usb_bridge.Tlv.RoundTrip.{put_all, rising, scan-put_all}

-- A value of one of the seven types.
pub data Value : Type 0 where
  u8 u16 u32 u64 : ℕ → Value
  boolean : Bool → Value
  text bytes : List ℕ → Value

-- The call that puts a value, and what the getter of its type yields for it.
abbrev pub put_value : Writer → ℕ → Value → Writer × Bool
put_value w tag (u8 v) = put_u8 w tag v
put_value w tag (u16 v) = put_u16 w tag v
put_value w tag (u32 v) = put_u32 w tag v
put_value w tag (u64 v) = put_u64 w tag v
put_value w tag (boolean v) = put_bool w tag v
put_value w tag (text v) = put_text w tag v
put_value w tag (bytes v) = put_bytes w tag v

unfoldable pub ReadsBack : Reader → ℕ → Value → Type 0
ReadsBack r tag (u8 v) = get_u8 r tag ≡ ok (some v)
ReadsBack r tag (u16 v) = get_u16 r tag ≡ ok (some v)
ReadsBack r tag (u32 v) = get_u32 r tag ≡ ok (some v)
ReadsBack r tag (u64 v) = get_u64 r tag ≡ ok (some v)
ReadsBack r tag (boolean v) = get_bool r tag ≡ ok (some v)
ReadsBack r tag (text v) = get_text r tag ≡ ok (some v)
ReadsBack r tag (bytes v) = get_bytes r tag ≡ ok (some v)

-- Numbers of their C type; a text that `utf8_valid` accepts, up to its terminator, of at most 96
-- bytes; at most 480 bytes.
unfoldable pub InRange : Value → Type 0
InRange (u8 v) = v < 256
InRange (u16 v) = v < 2 ^ 16
InRange (u32 v) = v < 2 ^ 32
InRange (u64 v) = v < 2 ^ 64
InRange (boolean v) = Unit
InRange (text v) = (length v ≤ max_text) × (utf8_valid v ≡ true) × (c_string v ≡ v)
InRange (bytes v) = length v ≤ max_bytes

-- The type and the bytes that stand for a value.
abbrev pub type_of : Value → ℕ
type_of (u8 v) = type_u8
type_of (u16 v) = type_u16
type_of (u32 v) = type_u32
type_of (u64 v) = type_u64
type_of (boolean v) = type_bool
type_of (text v) = type_text
type_of (bytes v) = type_bytes

abbrev pub bytes_of : Value → List ℕ
bytes_of (u8 v) = v ∷ []
bytes_of (u16 v) = put16 v
bytes_of (u32 v) = put32 v
bytes_of (u64 v) = bytes_from 0 8 v
bytes_of (boolean v) = (if v then 1 else 0) ∷ []
bytes_of (text v) = v
bytes_of (bytes v) = v

abbrev pub item_of : ℕ → Value → Item
item_of tag v = record { tag = tag; type = type_of v; val = bytes_of v }
