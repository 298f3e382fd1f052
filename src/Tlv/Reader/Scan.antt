-- ===== src/Tlv/Reader/Scan.antt =====
-- Scanning a message that is a sequence of whole items.
use mi_remote_usb_bridge.Base.{
  and_cases, ℕ, zero, suc, ◌≤◌, ◌≡◌, refl, sym, ap, ◌∙◌, arith, List, [], ◌∷◌, ◌++◌, Bool, true,
  false, ◌&&◌, ◌==◌, lt→ltb, ge→ltb, if◌then◌else◌, length, All, length-append, inl, inr,
  Bool-cases, ==_ne, not, Option, none, some, append_assoc,
}
use mathlib.Core.Path.{ap₂}
use mathlib.Core.Bool.{true≢false}
use mi_remote_usb_bridge.Tlv.Reader.{
  Item, complete, no_tags, mark_tag, reader_init, note, scan, scan_loop,
}
use mi_remote_usb_bridge.Tlv.Reader.Seen.{no_tags-IsBitset, tag_seen-no_tags}
use mi_remote_usb_bridge.Tlv.Reader.Items.{
  item_bytes, message, IsItem, member, resolve, Holds, Holds-mark_tag, tlv_next_at, reader_at,
  scan_stop, round, scan_round, item_at_tag, item_at_type, item_at_length, item_at_value,
  item_in_buf,
}

-- A loop that stands before whole items, with the tags of those behind it marked.
scan_loop-message :
    (is : List Item) (pre s tags : List ℕ) (want fuel : ℕ) (found : Option (ℕ × List ℕ))
    → All IsItem is
    → Holds s tags
    → length (message is) ≤ fuel
    → scan_loop fuel
        (record { buf = pre ++ message is; pos = length pre; seen_tags = s; valid = true })
        want
        found
      ≡ resolve tags is want found
unfolding Holds IsItem
scan_loop-message [] pre s tags want fuel found hi hs hf =
    scan_stop fuel (reader_at (pre ++ []) (length pre) s) want found
      (ge→ltb (length pre) (length (pre ++ [])) (omega (arith, length-append pre [])))
scan_loop-message (i ∷ is) pre s tags want zero found hi hs hf = absurd (omega arith)
scan_loop-message (i ∷ is) pre s tags want (suc fuel) found ((ht, hy, hl), his) hs hf =
    let buf = pre ++ (item_bytes i ++ message is) in
    let fits = item_in_buf pre (message is) i hl in
    let next =
      tlv_next_at buf s (length pre) i (item_at_tag pre (message is) i hl)
        (item_at_type pre (message is) i hl) (item_at_length pre (message is) i hl)
        (item_at_value pre (message is) i hl) fits in
    let step =
      scan_round fuel (reader_at buf (length pre) s) want found
        (lt→ltb (length pre) (length buf) (omega (arith, fits)))
      ∙ ap (round fuel want found) next in
    let seen = hs.1 i.tag in
    elim (Bool-cases (member i.tag tags)) [
      | inl e ↦ rw (step, seen, e) refl
      | inr e ↦
          rw (step, seen, e)
            (ap₂ (λ b p. scan_loop fuel (reader_at b p (mark_tag s i.tag)) want (note want i found))
                (sym (append_assoc pre (item_bytes i) (message is)))
                (omega (arith, length-append pre (item_bytes i)))
              ∙ scan_loop-message is (pre ++ item_bytes i) (mark_tag s i.tag) (i.tag ∷ tags) want
                  fuel (note want i found) his (Holds-mark_tag s tags i.tag ht hs)
                  (omega (arith, hf, length-append i.val (message is))))
    ]

no_tags-Holds : Holds no_tags []
unfolding Holds
no_tags-Holds = (no_tags-IsBitset, tag_seen-no_tags)

-- A scan of a message of whole items ends with the type and the value of the item with the tag, or
-- with none; where some tag comes twice, it stops at the second of them with the duplicate error, and
-- `found` and its fellows hold what it has found by then.
pub scan-message :
    (is : List Item) (want : ℕ)
    → All IsItem is
    → scan (reader_init (message is)) want ≡ resolve [] is want none
unfolding scan
scan-message is want h =
    scan_loop-message is [] no_tags [] want (length (message is)) none h no_tags-Holds (omega arith)

-- The items of a list have different tags.
abbrev pub distinct : List ℕ → List Item → Bool
distinct tags [] = true
distinct tags (i ∷ is) = not (member i.tag tags) && distinct (i.tag ∷ tags) is

abbrev pub lookup : List Item → ℕ → Option (ℕ × List ℕ)
lookup [] want = none
lookup (i ∷ is) want = if i.tag == want then some (i.type, i.val) else lookup is want

resolve_kept :
    (is : List Item) (tags : List ℕ) (want : ℕ) (found : Option (ℕ × List ℕ))
    → distinct tags is ≡ true
    → member want tags ≡ true
    → resolve tags is want found ≡ complete found
resolve_kept [] tags want found hd hm = refl
resolve_kept (i ∷ is) tags want found hd hm =
    let (fresh, rest) = and_cases (member i.tag tags) (distinct (i.tag ∷ tags) is) hd in
    let other : (i.tag == want) ≡ false =
      ==_ne i.tag want (λ e. true≢false (sym hm ∙ ap (λ t. member t tags) (sym e) ∙ fresh)) in
    rw (fresh, other) (resolve_kept is (i.tag ∷ tags) want found rest (rw (other, hm) refl))

-- Of different tags, a scan finds the one item with the tag, or none.
pub resolve-lookup :
    (is : List Item) (tags : List ℕ) (want : ℕ)
    → distinct tags is ≡ true
    → resolve tags is want none ≡ complete (lookup is want)
resolve-lookup [] tags want hd = refl
resolve-lookup (i ∷ is) tags want hd =
    let (fresh, rest) = and_cases (member i.tag tags) (distinct (i.tag ∷ tags) is) hd in
    elim (Bool-cases (i.tag == want))
      as (λ _. resolve tags (i ∷ is) want none ≡ complete (lookup (i ∷ is) want)) [
        | inl q ↦
            rw (fresh, q)
              (resolve_kept is (i.tag ∷ tags) want (some (i.type, i.val)) rest (rw q refl))
        | inr q ↦ rw (fresh, q) (resolve-lookup is (i.tag ∷ tags) want rest)
      ]

pub scan-lookup :
    (is : List Item) (want : ℕ)
    → All IsItem is
    → distinct [] is ≡ true
    → scan (reader_init (message is)) want ≡ complete (lookup is want)
scan-lookup is want h hd = scan-message is want h ∙ resolve-lookup is [] want hd
