-- ===== src/Tlv/Tests.antt =====
-- Concrete messages.
use mi_remote_usb_bridge.Base.{
  ℕ, ◌≡◌, refl, arith, List, [], ◌∷◌, true, false, some, length, ◌≤◌, All,
}
use mi_remote_usb_bridge.Wire.Frame.{max_payload}
use mi_remote_usb_bridge.Tlv.Writer.{w_put_bound, w_put, writer_init}
use mi_remote_usb_bridge.Tlv.Reader.{Item, rejected, duplicate, reader_init, scan}
use mi_remote_usb_bridge.Tlv.Reader.Items.{message, IsItem}
use mi_remote_usb_bridge.Tlv.Reader.Scan.{scan-message}
use mi_remote_usb_bridge.Tlv.Values.{Value, u16, text, boolean, ReadsBack, InRange}
use mi_remote_usb_bridge.Tlv.Values.ReadBack.{getters-put_values, put_values, IsEntry}
use mi_remote_usb_bridge.Tlv.Utf8.Accepts.{IsPoint, utf8_encode, utf8_valid-utf8_encode}
use mi_remote_usb_bridge.Tlv.Utf8.{utf8_valid, continuation}

abbrev two_items : List Item
two_items =
    record { tag = 3; type = 1; val = 9 ∷ [] }
    ∷ record { tag = 3; type = 6; val = 65 ∷ 66 ∷ [] }
    ∷ []

two_items-IsItem : All IsItem two_items
unfolding IsItem
two_items-IsItem =
    ((omega arith, omega arith, omega arith), ((omega arith, omega arith, omega arith), tt))

scan-message_example :
    scan (reader_init (message two_items)) 3 ≡ rejected duplicate (some (1, 9 ∷ []))
scan-message_example = scan-message two_items 3 two_items-IsItem

abbrev name_and_flag : List (ℕ × Value)
name_and_flag = (1, u16 500) ∷ (2, text (0x4d ∷ 0xc3 ∷ 0xa9 ∷ [])) ∷ (7, boolean true) ∷ []

name_and_flag-IsEntry : All IsEntry name_and_flag
unfolding IsEntry InRange utf8_valid continuation
name_and_flag-IsEntry = (
  (omega arith, omega arith),
  ((omega arith, (omega arith, refl, refl)), ((omega arith, tt), tt)),
)

getters-put_values_example :
    ((put_values writer_init name_and_flag).overflow ≡ false)
    × ReadsBack
        (reader_init (put_values writer_init name_and_flag).buf)
        2
        (text (0x4d ∷ 0xc3 ∷ 0xa9 ∷ []))
getters-put_values_example =
    getters-put_values name_and_flag 2 (text (0x4d ∷ 0xc3 ∷ 0xa9 ∷ [])) name_and_flag-IsEntry refl
      (omega arith) refl

utf8_valid-utf8_encode_example : utf8_valid (utf8_encode (0x41 ∷ 0xd800 ∷ [])) ≡ true
unfolding IsPoint
utf8_valid-utf8_encode_example =
    utf8_valid-utf8_encode (0x41 ∷ 0xd800 ∷ [])
      ((omega arith, omega arith), ((omega arith, omega arith), tt))

w_put_bound_example :
    (length (w_put writer_init 5 1 (7 ∷ [])).0.buf ≤ max_payload)
    × ((w_put writer_init 5 1 (7 ∷ [])).0.buf ≡ 5 ∷ 1 ∷ 1 ∷ 0 ∷ 7 ∷ [])
unfolding w_put
w_put_bound_example = w_put_bound writer_init 5 1 (7 ∷ []) (omega arith)
