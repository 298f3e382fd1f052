-- ===== src/Atvv/Capabilities.antt =====
-- `atvv_caps_t` and `atvv_parse_caps`.
use mi_remote_usb_bridge.Base.{
  ℕ, ◌+◌, ◌*◌, ◌^◌, List, Bool, ◌&&◌, ◌||◌, ltb, ◌==◌, ◌!=◌, if◌then◌else◌, Option, none, some,
  get_or, length, bit_and, bit_or,
}

pub record Caps : Type 0 where
  pub version_hi : ℕ
  pub version_lo : ℕ
  pub codecs : ℕ
  pub interaction : ℕ
  pub frame_size : ℕ
  pub request_dle : Bool

abbrev pub no_caps : Caps
no_caps = record {
  version_hi = 0;
  version_lo = 0;
  codecs = 0;
  interaction = 0;
  frame_size = 0;
  request_dle = Bool.false;
}

-- `ATVV_MAX_FRAME`
abbrev pub max_frame : ℕ
max_frame = 512

-- `((uint16_t)d[i]<<8)|d[i+1]`
abbrev pub big16 : List ℕ → ℕ → ℕ
big16 d i = bit_or (get_or d i 0 * 2 ^ 8) (get_or d (i + 1) 0)

-- The two tests of `atvv_parse_caps` that refuse a message.
abbrev pub is_not_caps : List ℕ → Bool
is_not_caps d =
    ltb (length d) 9 || (get_or d 0 0 != 0x0b) || (get_or d 1 0 != 1) || (get_or d 2 0 != 0)

abbrev pub is_bad_caps : List ℕ → Bool
is_bad_caps d =
    (get_or d 3 0 == 0)
    || (bit_and (get_or d 3 0) 0xfc != 0)
    || ((get_or d 4 0 != 0) && (get_or d 4 0 != 1) && (get_or d 4 0 != 3))
    || (big16 d 5 == 0)
    || ltb max_frame (big16 d 5)
    || (bit_and (get_or d 7 0) 0xfe != 0)
    || (get_or d 8 0 != 0)

-- What `atvv_parse_caps` fills in.
abbrev pub caps_of : List ℕ → Caps
caps_of d = record {
  version_hi = 1;
  version_lo = 0;
  codecs = get_or d 3 0;
  interaction = get_or d 4 0;
  frame_size = big16 d 5;
  request_dle = bit_and (get_or d 7 0) 1 != 0;
}

-- `atvv_parse_caps`
unfoldable pub parse_caps : List ℕ → Option Caps
parse_caps d = if is_not_caps d || is_bad_caps d then none else some (caps_of d)
