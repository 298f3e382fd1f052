-- ===== src/Tlv/Values/ReadBack.antt =====
-- Messages of typed values, read back.
use mi_remote_usb_bridge.Base.{
  ℕ, ◌≤◌, ◌<◌, ◌≡◌, refl, sym, ap, ◌∙◌, arith, List, [], ◌∷◌, true, false, Bool-cases, inl, inr,
  ◌==◌, ge→ltb, if◌then◌else◌, length, All, Option, none, some,
}
use mathlib.Core.Path.{subst}
use mathlib.Core.Option.{none-ne-some, some-injective}
use mi_remote_usb_bridge.Wire.Frame.{max_payload}
use mi_remote_usb_bridge.Tlv.Writer.{
  Writer, writer_init, w_put, put_u8, put_u16, put_u32, put_u64, put_bool, put_text, put_bytes,
  max_text, max_bytes,
}
use mi_remote_usb_bridge.Tlv.Reader.{Item, complete, reader_init, scan}
use mi_remote_usb_bridge.Tlv.Reader.Items.{IsItem, message}
use mi_remote_usb_bridge.Tlv.Reader.Scan.{lookup}
use mi_remote_usb_bridge.Tlv.RoundTrip.{put_all, rising, scan-put_all}
use mi_remote_usb_bridge.Tlv.Values.{
  Value, u8, u16, u32, u64, boolean, text, bytes, put_value, ReadsBack, InRange, type_of, bytes_of,
  item_of,
}
use mi_remote_usb_bridge.Tlv.Values.Found.{getter_found}

put_value-w_put :
    (w : Writer) (tag : ℕ) (v : Value)
    → InRange v
    → put_value w tag v ≡ w_put w tag (type_of v) (bytes_of v)
unfolding put_u8 put_u16 put_u32 put_u64 put_bool put_text put_bytes InRange
put_value-w_put w tag (u8 v) h = refl
put_value-w_put w tag (u16 v) h = refl
put_value-w_put w tag (u32 v) h = refl
put_value-w_put w tag (u64 v) h = refl
put_value-w_put w tag (boolean v) h = refl
put_value-w_put w tag (text v) (hl, hu, hc) = rw (hc, ge→ltb max_text (length v) hl) refl
put_value-w_put w tag (bytes v) h = rw (ge→ltb max_bytes (length v) h) refl

-- Puts one value after the other.
abbrev pub put_values : Writer → List (ℕ × Value) → Writer
put_values w [] = w
put_values w ((tag, v) ∷ vs) = let (w', taken) = put_value w tag v in put_values w' vs

abbrev pub items_of : List (ℕ × Value) → List Item
items_of [] = []
items_of ((tag, v) ∷ vs) = item_of tag v ∷ items_of vs

unfoldable pub IsEntry : ℕ × Value → Type 0
IsEntry (tag, v) = (tag < 256) × InRange v

put_values-put_all :
    (vs : List (ℕ × Value)) (w : Writer)
    → All IsEntry vs
    → put_values w vs ≡ put_all w (items_of vs)
unfolding IsEntry
put_values-put_all [] w h = refl
put_values-put_all ((tag, v) ∷ vs) w ((ht, hv), h) =
    ap (λ q. put_values q.0 vs) (put_value-w_put w tag v hv) ∙ put_values-put_all vs _ h

item_of-IsItem : (tag : ℕ) (v : Value) → tag < 256 → InRange v → IsItem (item_of tag v)
unfolding IsItem InRange
item_of-IsItem tag (u8 v) ht h = (ht, omega arith, omega arith)
item_of-IsItem tag (u16 v) ht h = (ht, omega arith, omega arith)
item_of-IsItem tag (u32 v) ht h = (ht, omega arith, omega arith)
item_of-IsItem tag (u64 v) ht h = (ht, omega arith, omega arith)
item_of-IsItem tag (boolean v) ht h = (ht, omega arith, omega arith)
item_of-IsItem tag (text v) ht h = (ht, omega arith, omega (arith, h.0))
item_of-IsItem tag (bytes v) ht h = (ht, omega arith, omega (arith, h))

items_of-IsItem : (vs : List (ℕ × Value)) → All IsEntry vs → All IsItem (items_of vs)
unfolding IsEntry
items_of-IsItem [] h = h
items_of-IsItem ((tag, v) ∷ vs) ((ht, hv), h) = (item_of-IsItem tag v ht hv, items_of-IsItem vs h)

-- The value that a list of puts has under a tag.
abbrev pub value_at : List (ℕ × Value) → ℕ → Option Value
value_at [] want = none
value_at ((tag, v) ∷ vs) want = if tag == want then some v else value_at vs want

abbrev encoded : Option Value → Option (ℕ × List ℕ)
encoded none = none
encoded (some v) = some (type_of v, bytes_of v)

lookup-items_of :
    (vs : List (ℕ × Value)) (want : ℕ) → lookup (items_of vs) want ≡ encoded (value_at vs want)
lookup-items_of [] want = refl
lookup-items_of ((tag, v) ∷ vs) want = elim (Bool-cases (tag == want)) [
  | inl e ↦ rw e refl
  | inr e ↦ rw e (lookup-items_of vs want)
]

value_at-InRange :
    (vs : List (ℕ × Value)) (want : ℕ) (v : Value)
    → All IsEntry vs
    → value_at vs want ≡ some v
    → InRange v
unfolding IsEntry
value_at-InRange [] want v h e = absurd (none-ne-some v e)
value_at-InRange ((tag, u) ∷ vs) want v ((ht, hu), h) e = elim (Bool-cases (tag == want)) [
  | inl q ↦
      subst InRange
        (some-injective u v (sym (ap (λ b. if b then some u else value_at vs want) q) ∙ e)) hu
  | inr q ↦
      value_at-InRange vs want v h (sym (ap (λ b. if b then some u else value_at vs want) q) ∙ e)
]

-- Values that are put under rising tags, and that fit a payload together, leave the writer without
-- an overflow, and each getter reads the value of its tag back from the writer's bytes.
pub getters-put_values :
    (vs : List (ℕ × Value)) (tag : ℕ) (v : Value)
    → All IsEntry vs
    → rising none (items_of vs) ≡ true
    → length (message (items_of vs)) ≤ max_payload
    → value_at vs tag ≡ some v
    → ((put_values writer_init vs).overflow ≡ false)
      × ReadsBack (reader_init (put_values writer_init vs).buf) tag v
getters-put_values vs tag v h hr hf hv =
    let w = put_values-put_all vs writer_init h in
    let (whole, found) = scan-put_all (items_of vs) tag (items_of-IsItem vs h) hr hf in
    (
      ap (λ w. w.overflow) w ∙ whole,
      getter_found (reader_init (put_values writer_init vs).buf) tag v
          (value_at-InRange vs tag v h hv)
          (ap (λ w. scan (reader_init w.buf) tag) w
            ∙ found
            ∙ ap complete (lookup-items_of vs tag ∙ ap encoded hv)),
    )
