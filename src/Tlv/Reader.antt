-- ===== src/Tlv/Reader.antt =====
-- The reader: `rbp_tlv_reader_init`, `rbp_tlv_next` and the scan for one tag.
pub mod Seen
pub mod Items
pub mod Scan
use mi_remote_usb_bridge.Base.{
  ℕ, zero, suc, ◌+◌, ◌-◌, ◌*◌, ◌/◌, ◌%◌, ◌^◌, List, [], ◌∷◌, ◌++◌, Bool, true, false, not, ltb,
  ◌==◌, ◌!=◌, if◌then◌else◌, Option, none, some, length, take, drop, get_or, set, replicate,
  bit_and, bit_or,
}
use mi_remote_usb_bridge.Wire.Header.{get16}

-- `rbp_tlv_err_t` but for `RBP_TLV_OK`
pub data TlvError : Type 0 where
  malformed duplicate wrong_type bad_value : TlvError

-- `stuck` is no C value: the fuel of a loop ran out.
pub data Result {ℓ} (A : Type ℓ) : Type ℓ where
  ok : A → Result A
  err : TlvError → Result A
  stuck : Result A

-- `rbp_tlv_reader_t`: `buf` holds `len` bytes.
pub record Reader : Type 0 where
  pub buf : List ℕ
  pub pos : ℕ
  pub seen_tags : List ℕ
  pub valid : Bool

-- What `rbp_tlv_next` fills in.
pub record Item : Type 0 where
  pub tag : ℕ
  pub type : ℕ
  pub val : List ℕ

abbrev pub no_tags : List ℕ
no_tags = replicate 32 0

-- `rbp_tlv_reader_init`
abbrev pub reader_init : List ℕ → Reader
reader_init buf = record { buf = buf; pos = 0; seen_tags = no_tags; valid = true }

-- `seen_tags[t >> 3] & (1u << (t & 7))`
unfoldable pub tag_seen : List ℕ → ℕ → Bool
tag_seen seen t = bit_and (get_or seen (t / 8) 0) (2 ^ (t % 8)) != 0

-- `seen_tags[t >> 3] |= (uint8_t)(1u << (t & 7))`
unfoldable pub mark_tag : List ℕ → ℕ → List ℕ
mark_tag seen t = set seen (t / 8) (bit_or (get_or seen (t / 8) 0) (2 ^ (t % 8) % 256))

abbrev pub fail_with : Reader → TlvError → Reader × Result Item
fail_with r e = (record r { valid = false }, err e)

-- `rbp_tlv_next` from the reading of the header on.
unfoldable pub read_item : Reader → Reader × Result Item
read_item r =
    let t = get_or r.buf r.pos 0 in
    let l = get16 r.buf (r.pos + 2) in
    let item : Item = record {
      tag = t;
      type = get_or r.buf (r.pos + 1) 0;
      val = take l (drop (r.pos + 4) r.buf);
    } in
    if ltb (length r.buf - r.pos - 4) l
    then fail_with r malformed
    else if tag_seen r.seen_tags t
    then fail_with r duplicate
    else (record r { pos = r.pos + (4 + l); seen_tags = mark_tag r.seen_tags t }, ok item)

-- `rbp_tlv_next`
unfoldable pub tlv_next : Reader → Reader × Result Item
unfolding read_item
tlv_next r =
    if not r.valid
    then (r, err malformed)
    else if r.pos == length r.buf
    then (r, err malformed)
    else if ltb (length r.buf - r.pos) 4
    then fail_with r malformed
    else read_item r

-- The loop of `scan`; `found` is what it holds of the tag so far.
abbrev pub note : ℕ → Item → Option (ℕ × List ℕ) → Option (ℕ × List ℕ)
note want item found = if item.tag == want then some (item.type, item.val) else found

-- What `scan` leaves: with `RBP_TLV_OK`, or with an error, the type and the value that it has found by
-- then, none while `*found` is false. `unfinished` is no C value: the fuel of the loop ran out.
pub data Scanned : Type 0 where
  complete : Option (ℕ × List ℕ) → Scanned
  rejected : TlvError → Option (ℕ × List ℕ) → Scanned
  unfinished : Scanned

-- A round of the loop, on what `rbp_tlv_next` yields.
abbrev pub on_item : Option (ℕ × List ℕ) → (Item → Scanned) → Result Item → Scanned
on_item found more (ok item) = more item
on_item found more (err e) = rejected e found
on_item found more stuck = unfinished

unfoldable pub scan_loop : ℕ → Reader → ℕ → Option (ℕ × List ℕ) → Scanned
scan_loop zero r want found = if ltb r.pos (length r.buf) then unfinished else complete found
scan_loop (suc fuel) r want found =
    let (r', got) = tlv_next r in
    let more : Item → Scanned = λ item. scan_loop fuel r' want (note want item found) in
    let round = on_item found more got in if ltb r.pos (length r.buf) then round else complete found

-- `scan`; every round takes at least four bytes.
unfoldable pub scan : Reader → ℕ → Scanned
unfolding scan_loop
scan r want = scan_loop (length r.buf) (record r { pos = 0; seen_tags = no_tags }) want none
