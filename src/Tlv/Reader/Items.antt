-- ===== src/Tlv/Reader/Items.antt =====
-- Whole items in a message, and one round of the scan at such an item.
use mi_remote_usb_bridge.Base.{
  ℕ, zero, suc, ◌+◌, ◌-◌, ◌*◌, ◌^◌, ◌≤◌, ◌<◌, ◌≡◌, refl, sym, ap, ◌∙◌, arith, List, [], ◌∷◌, ◌++◌,
  Bool, true, false, ◌||◌, ◌==◌, ltb, ge→ltb, if◌then◌else◌, length, get_or, take, drop,
  length-append, bit_or, ==_ne, Option, take_prefix, drop_at, get_or_behind, append_assoc,
}
use mathlib.Core.Path.{ap₂}
use mi_remote_usb_bridge.Wire.Header.{get16, halves_of}
use mi_remote_usb_bridge.Tlv.Writer.{item_header}
use mi_remote_usb_bridge.Tlv.Reader.{
  Reader, Item, Result, ok, err, stuck, duplicate, tag_seen, mark_tag, read_item, tlv_next, note,
  scan_loop, Scanned, complete, rejected, unfinished, on_item,
}
use mi_remote_usb_bridge.Tlv.Reader.Seen.{IsBitset, mark_tag-IsBitset, tag_seen-mark_tag}

-- The bytes of one item and of a message.
abbrev pub item_bytes : Item → List ℕ
item_bytes i = item_header i.tag i.type (length i.val) ++ i.val

abbrev pub message : List Item → List ℕ
message [] = []
message (i ∷ is) = item_bytes i ++ message is

-- The fields of an item hold values of their C types.
unfoldable pub IsItem : Item → Type 0
IsItem i = (i.tag < 256) × (i.type < 256) × (length i.val < 2 ^ 16)

abbrev pub member : ℕ → List ℕ → Bool
member u [] = false
member u (t ∷ ts) = (t == u) || member u ts

-- What a scan of whole items yields: the item of the tag, unless a tag comes twice.
abbrev pub resolve : List ℕ → List Item → ℕ → Option (ℕ × List ℕ) → Scanned
resolve tags [] want found = complete found
resolve tags (i ∷ is) want found =
    if member i.tag tags
    then rejected duplicate found
    else resolve (i.tag ∷ tags) is want (note want i found)

-- The bitset holds the tags.
unfoldable pub Holds : List ℕ → List ℕ → Type 0
Holds s tags = IsBitset s × ((u : ℕ) → tag_seen s u ≡ member u tags)

pub Holds-mark_tag :
    (s tags : List ℕ) (t : ℕ) → t < 256 → Holds s tags → Holds (mark_tag s t) (t ∷ tags)
unfolding Holds
Holds-mark_tag s tags t ht (hs, hm) =
    (mark_tag-IsBitset s t hs, λ u. tag_seen-mark_tag s t u hs ht ∙ ap (λ b. (t == u) || b) (hm u))

-- Reading one whole item at a position.
pub tlv_next_at :
    (buf s : List ℕ) (p : ℕ) (i : Item)
    → get_or buf p 0 ≡ i.tag
    → get_or buf (p + 1) 0 ≡ i.type
    → get16 buf (p + 2) ≡ length i.val
    → take (length i.val) (drop (p + 4) buf) ≡ i.val
    → p + (4 + length i.val) ≤ length buf
    → tlv_next (record { buf = buf; pos = p; seen_tags = s; valid = true }) ≡ (
        if tag_seen s i.tag
        then (record { buf = buf; pos = p; seen_tags = s; valid = false }, err duplicate)
        else (
          record {
            buf = buf;
            pos = p + (4 + length i.val);
            seen_tags = mark_tag s i.tag;
            valid = true;
          },
          ok i,
        ))
unfolding tlv_next read_item
tlv_next_at buf s p i et ey el ev hp =
    let open_end : (p == length buf) ≡ false = ==_ne p (length buf) (λ e. omega arith) in
    let head : ltb (length buf - p) 4 ≡ false = ge→ltb (length buf - p) 4 (omega arith) in
    let body : ltb (length buf - p - 4) (length i.val) ≡ false = ge→ltb _ _ (omega arith) in
    rw (open_end, head, et, ey, el, ev, body) refl

abbrev pub reader_at : List ℕ → ℕ → List ℕ → Reader
reader_at buf p s = record { buf = buf; pos = p; seen_tags = s; valid = true }

pub scan_stop :
    (fuel : ℕ) (r : Reader) (want : ℕ) (found : Option (ℕ × List ℕ))
    → ltb r.pos (length r.buf) ≡ false
    → scan_loop fuel r want found ≡ complete found
unfolding scan_loop
scan_stop zero r want found e = rw e refl
scan_stop (suc fuel) r want found e = rw e refl

abbrev pub round : ℕ → ℕ → Option (ℕ × List ℕ) → Reader × Result Item → Scanned
round fuel want found (r', ok item) = scan_loop fuel r' want (note want item found)
round fuel want found (r', err e) = rejected e found
round fuel want found (r', stuck) = unfinished

pub scan_round :
    (fuel : ℕ) (r : Reader) (want : ℕ) (found : Option (ℕ × List ℕ))
    → ltb r.pos (length r.buf) ≡ true
    → scan_loop (suc fuel) r want found ≡ round fuel want found (tlv_next r)
unfolding scan_loop
scan_round fuel r want found e = rw e (go (tlv_next r))
  where
    go :
        (q : Reader × Result Item)
        → on_item found (λ item. scan_loop fuel q.0 want (note want item found)) q.1
          ≡ round fuel want found q
    go (r', ok item) = refl
    go (r', err e) = refl
    go (r', stuck) = refl

-- A whole item behind a prefix.
module _ (pre suf : List ℕ) (i : Item) (hl : length i.val < 2 ^ 16) where
  abbrev pub buf : List ℕ
  buf = pre ++ (item_bytes i ++ suf)

  pub item_at_tag : get_or buf (length pre) 0 ≡ i.tag
  item_at_tag = ap (λ k. get_or buf k 0) (omega arith) ∙ get_or_behind pre (item_bytes i ++ suf) 0 0

  pub item_at_type : get_or buf (length pre + 1) 0 ≡ i.type
  item_at_type = get_or_behind pre (item_bytes i ++ suf) 1 0

  pub item_at_length : get16 buf (length pre + 2) ≡ length i.val
  item_at_length =
      ap₂ (λ a b. bit_or a (b * 2 ^ 8)) (get_or_behind pre (item_bytes i ++ suf) 2 0)
        (ap (λ k. get_or buf k 0) (omega arith) ∙ get_or_behind pre (item_bytes i ++ suf) 3 0)
      ∙ halves_of (length i.val) hl

  pub item_at_value : take (length i.val) (drop (length pre + 4) buf) ≡ i.val
  item_at_value =
      ap (take (length i.val)) (
        ap (drop (length pre + 4))
          (sym (append_assoc pre (item_header i.tag i.type (length i.val)) (i.val ++ suf)))
        ∙ drop_at (length pre + 4) (pre ++ item_header i.tag i.type (length i.val)) (i.val ++ suf)
            (sym (length-append pre (item_header i.tag i.type (length i.val)))))
      ∙ take_prefix i.val suf

  pub item_in_buf : length pre + (4 + length i.val) ≤ length buf
  item_in_buf = omega (arith, length-append pre (item_bytes i ++ suf), length-append i.val suf)
