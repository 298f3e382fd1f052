-- ===== src/Wire/Header.antt =====
-- Little-endian fields and the 32-byte frame header: `put16` to `rbp_header_parse` of
-- protocol/src/rbp_frame.c, `rbp_header_t` of protocol/include/rbp/frame.h.
use mi_remote_usb_bridge.Base.{
  ℕ, ◌+◌, ◌*◌, ◌/◌, ◌%◌, ◌^◌, ◌<◌, ◌≡◌, refl, arith, List, [], ◌∷◌, ◌++◌, Bool, ◌&&◌, ◌==◌, get_or,
  bit_or, All, IsByte, length, ap, ◌∙◌, get_or_behind,
}
use mathlib.Core.Path.{ap₂}
use mi_remote_usb_bridge.Base.Bits.{bit_or_fields}

abbrev pub put16 : ℕ → List ℕ
put16 v = v % 256 ∷ v / 2 ^ 8 % 256 ∷ []

abbrev pub put32 : ℕ → List ℕ
put32 v = v % 256 ∷ v / 2 ^ 8 % 256 ∷ v / 2 ^ 16 % 256 ∷ v / 2 ^ 24 % 256 ∷ []

-- `p[0] | (p[1] << 8)` and so on, at `p = in + i`.
abbrev pub get16 : List ℕ → ℕ → ℕ
get16 p i = bit_or (get_or p i 0) (get_or p (i + 1) 0 * 2 ^ 8)

abbrev pub get32 : List ℕ → ℕ → ℕ
get32 p i =
    bit_or
      (bit_or (bit_or (get_or p i 0) (get_or p (i + 1) 0 * 2 ^ 8)) (get_or p (i + 2) 0 * 2 ^ 16))
      (get_or p (i + 3) 0 * 2 ^ 24)

-- `rbp_header_t`
pub record Header : Type 0 where
  pub magic0 : ℕ
  pub magic1 : ℕ
  pub major : ℕ
  pub minor : ℕ
  pub kind : ℕ
  pub flags : ℕ
  pub header_size : ℕ
  pub session_id : ℕ
  pub tx_seq : ℕ
  pub request_id : ℕ
  pub opcode : ℕ
  pub status : ℕ
  pub payload_size : ℕ
  pub reserved : ℕ
  pub connection_id : ℕ

-- Each field holds a value of its C type.
pub record IsHeader (h : Header) : Type 0 where
  pub bytes :
      (h.magic0 < 256)
      × (h.magic1 < 256)
      × (h.major < 256)
      × (h.minor < 256)
      × (h.kind < 256)
      × (h.flags < 256)
  pub halves :
      (h.header_size < 2 ^ 16)
      × (h.opcode < 2 ^ 16)
      × (h.status < 2 ^ 16)
      × (h.payload_size < 2 ^ 16)
      × (h.reserved < 2 ^ 16)
  pub words :
      (h.session_id < 2 ^ 32)
      × (h.tx_seq < 2 ^ 32)
      × (h.request_id < 2 ^ 32)
      × (h.connection_id < 2 ^ 32)

abbrev pub header_bytes : ℕ
header_bytes = 32

-- `RBP_MAGIC0`, `RBP_MAGIC1`, `RBP_MAJOR` and `RBP_MINOR` of protocol/include/rbp/defs.h
abbrev pub first_magic : ℕ
first_magic = 0x52

abbrev pub second_magic : ℕ
second_magic = 0x42

abbrev pub protocol_major : ℕ
protocol_major = 3

abbrev pub protocol_minor : ℕ
protocol_minor = 0

-- `rbp_header_pack`: the fields follow one another without gaps.
unfoldable pub header_pack : Header → List ℕ
header_pack h =
    (h.magic0 ∷ h.magic1 ∷ h.major ∷ h.minor ∷ h.kind ∷ h.flags ∷ [])
    ++ (put16 h.header_size
        ++ (put32 h.session_id
            ++ (put32 h.tx_seq
                ++ (put32 h.request_id
                    ++ (put16 h.opcode
                        ++ (put16 h.status
                            ++ (put16 h.payload_size
                                ++ (put16 h.reserved ++ put32 h.connection_id))))))))

-- The assignments of `rbp_header_parse`.
unfoldable pub header_fields : List ℕ → Header
header_fields p = record {
  magic0 = get_or p 0 0;
  magic1 = get_or p 1 0;
  major = get_or p 2 0;
  minor = get_or p 3 0;
  kind = get_or p 4 0;
  flags = get_or p 5 0;
  header_size = get16 p 6;
  session_id = get32 p 8;
  tx_seq = get32 p 12;
  request_id = get32 p 16;
  opcode = get16 p 20;
  status = get16 p 22;
  payload_size = get16 p 24;
  reserved = get16 p 26;
  connection_id = get32 p 28;
}

-- What its `return` tests.
unfoldable pub header_ok : Header → Bool
header_ok h =
    h.magic0 == first_magic
    && h.magic1 == second_magic
    && h.header_size == header_bytes
    && h.reserved == 0

-- `rbp_header_parse` fills in the header also when it returns false.
unfoldable pub header_parse : List ℕ → Header × Bool
unfolding header_fields header_ok
header_parse p = let h = header_fields p in (h, header_ok h)

pub halves_of : (v : ℕ) → v < 2 ^ 16 → bit_or (v % 256) (v / 2 ^ 8 % 256 * 2 ^ 8) ≡ v
halves_of v h = omega (arith, bit_or_fields 8 (v % 256) (v / 2 ^ 8 % 256) (omega arith))

pub words_of :
    (v : ℕ)
    → v < 2 ^ 32
    → bit_or
        (bit_or (bit_or (v % 256) (v / 2 ^ 8 % 256 * 2 ^ 8)) (v / 2 ^ 16 % 256 * 2 ^ 16))
        (v / 2 ^ 24 % 256 * 2 ^ 24)
      ≡ v
words_of v h =
    ap (λ t. bit_or (bit_or t (v / 2 ^ 16 % 256 * 2 ^ 16)) (v / 2 ^ 24 % 256 * 2 ^ 24))
      (bit_or_fields 8 (v % 256) (v / 2 ^ 8 % 256) (omega arith))
    ∙ ap (λ t. bit_or t (v / 2 ^ 24 % 256 * 2 ^ 24))
        (bit_or_fields 16 (v / 2 ^ 8 % 256 * 2 ^ 8 + v % 256) (v / 2 ^ 16 % 256) (omega arith))
    ∙ bit_or_fields 24 (v / 2 ^ 16 % 256 * 2 ^ 16 + (v / 2 ^ 8 % 256 * 2 ^ 8 + v % 256))
        (v / 2 ^ 24 % 256) (omega arith)
    ∙ omega arith

-- `rbp_header_parse` reads back every header that `rbp_header_pack` wrote, whatever follows it.
pub header_fields-header_pack :
    (h : Header) (rest : List ℕ) → IsHeader h → header_fields (header_pack h ++ rest) ≡ h
unfolding header_fields header_pack
header_fields-header_pack h rest v = λ i. record {
  magic0 = h.magic0;
  magic1 = h.magic1;
  major = h.major;
  minor = h.minor;
  kind = h.kind;
  flags = h.flags;
  header_size = halves_of h.header_size v.halves.0 i;
  session_id = words_of h.session_id v.words.0 i;
  tx_seq = words_of h.tx_seq v.words.1 i;
  request_id = words_of h.request_id v.words.2 i;
  opcode = halves_of h.opcode v.halves.1 i;
  status = halves_of h.status v.halves.2 i;
  payload_size = halves_of h.payload_size v.halves.3 i;
  reserved = halves_of h.reserved v.halves.4 i;
  connection_id = words_of h.connection_id v.words.3 i;
}

pub header_parse-header_pack :
    (h : Header) (rest : List ℕ)
    → IsHeader h
    → header_parse (header_pack h ++ rest) ≡ (h, header_ok h)
unfolding header_parse
header_parse-header_pack h rest v = ap (λ k. (k, header_ok k)) (header_fields-header_pack h rest v)

pub length-header_pack : (h : Header) → length (header_pack h) ≡ header_bytes
unfolding header_pack
length-header_pack h = refl

put32-IsByte : (v : ℕ) → All IsByte (put32 v)
put32-IsByte v = omega arith

pub header_pack-IsByte : (h : Header) → IsHeader h → All IsByte (header_pack h)
unfolding header_pack
header_pack-IsByte h v = omega arith

-- What stands behind `n` bytes of a frame is read as that.
pub get32-put32 : (xs : List ℕ) (v : ℕ) → v < 2 ^ 32 → get32 (xs ++ put32 v) (length xs) ≡ v
get32-put32 xs v h =
    let at_start : length xs ≡ length xs + 0 = omega arith in
    ap₂ bit_or
      (ap₂ bit_or
        (ap₂ bit_or (ap (λ i. get_or (xs ++ put32 v) i 0) at_start ∙ get_or_behind xs (put32 v) 0 0)
          (ap (λ t. t * 2 ^ 8) (get_or_behind xs (put32 v) 1 0)))
        (ap (λ t. t * 2 ^ 16) (get_or_behind xs (put32 v) 2 0)))
      (ap (λ t. t * 2 ^ 24) (get_or_behind xs (put32 v) 3 0))
    ∙ words_of v h
