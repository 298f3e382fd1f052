-- ===== src/Tlv/RoundTrip.antt =====
-- Messages that the writer builds, read back by the scan and the typed getters.
use mi_remote_usb_bridge.Base.{
  and_cases, ℕ, ◌+◌, ◌≤◌, ◌≡◌, refl, sym, ap, ◌∙◌, arith, List, [], ◌∷◌, ◌++◌, Bool, true, false,
  ◌||◌, ◌&&◌, ◌==◌, ltb, leb, le→leb, ge→ltb, length, All, length-append, inl, inr, Bool-cases,
  ==→eq, not, Option, none, some, append_assoc, append-nil,
}
use mathlib.Core.Bool.{true≢false}
use mi_remote_usb_bridge.Wire.Frame.{max_payload}
use mi_remote_usb_bridge.Tlv.Writer.{Writer, writer_init, w_put, out_of_order}
use mi_remote_usb_bridge.Tlv.Reader.{Item, complete, reader_init, scan}
use mi_remote_usb_bridge.Tlv.Reader.Items.{IsItem, item_bytes, message, member}
use mi_remote_usb_bridge.Tlv.Reader.Scan.{distinct, lookup, scan-lookup}

-- Puts one item after the other.
abbrev pub put_all : Writer → List Item → Writer
put_all w [] = w
put_all w (i ∷ is) = let (w', taken) = w_put w i.tag i.type i.val in put_all w' is

-- Tags that rise, from behind the last one on.
abbrev pub rising : Option ℕ → List Item → Bool
rising last [] = true
rising last (i ∷ is) = not (out_of_order last i.tag) && rising (some i.tag) is

-- A put in order that fits.
w_put_taken :
    (b : List ℕ) (o : Bool) (last : Option ℕ) (i : Item)
    → out_of_order last i.tag ≡ false
    → length b + length (item_bytes i) ≤ max_payload
    → w_put (record { buf = b; overflow = o; last_tag = last }) i.tag i.type i.val
      ≡ (record { buf = b ++ item_bytes i; overflow = o; last_tag = some i.tag }, true)
unfolding w_put
w_put_taken b o last i ho hf =
    let fits : ltb max_payload (length b + 4 + length i.val) ≡ false =
      ge→ltb max_payload (length b + 4 + length i.val) (omega (arith, hf)) in
    rw (fits, ho) refl

put_all_taken :
    (is : List Item) (b : List ℕ) (o : Bool) (last : Option ℕ)
    → rising last is ≡ true
    → length b + length (message is) ≤ max_payload
    → let w = put_all (record { buf = b; overflow = o; last_tag = last }) is in
      (w.buf ≡ b ++ message is) × (w.overflow ≡ o)
put_all_taken [] b o last hr hf = (sym (append-nil b), refl)
put_all_taken (i ∷ is) b o last hr hf =
    let (order, rest) = and_cases (out_of_order last i.tag) (rising (some i.tag) is) hr in
    let put = w_put_taken b o last i order (omega (arith, hf, length-append i.val (message is))) in
    let (eb, eo) =
      put_all_taken is (b ++ item_bytes i) o (some i.tag) rest
        (omega (arith, hf, length-append i.val (message is), length-append b (item_bytes i))) in
    (
      ap (λ q. (put_all q.0 is).buf) put ∙ eb ∙ append_assoc b (item_bytes i) (message is),
      ap (λ q. (put_all q.0 is).overflow) put ∙ eo,
    )

-- Tags at most the last one.
below_rising :
    (last : Option ℕ) (t u : ℕ)
    → out_of_order last t ≡ false
    → out_of_order last u ≡ true
    → leb u t ≡ true
below_rising none t u h k = absurd (true≢false (sym k))
below_rising (some l) t u h k = ground arith

rising-distinct :
    (is : List Item) (tags : List ℕ) (last : Option ℕ)
    → ((u : ℕ) → member u tags ≡ true → out_of_order last u ≡ true)
    → rising last is ≡ true
    → distinct tags is ≡ true
rising-distinct [] tags last ht hr = refl
rising-distinct (i ∷ is) tags last ht hr =
    let (order, rest) = and_cases (out_of_order last i.tag) (rising (some i.tag) is) hr in
    let fresh : member i.tag tags ≡ false =
      elim (Bool-cases (member i.tag tags)) as (λ _. member i.tag tags ≡ false) [
        | inl e ↦ absurd (true≢false (sym (ht i.tag e) ∙ order))
        | inr e ↦ e
      ] in
    rw fresh (rising-distinct is (i.tag ∷ tags) (some i.tag) later rest)
  where
    later : (u : ℕ) → member u (i.tag ∷ tags) ≡ true → leb u i.tag ≡ true
    later u hm = elim (Bool-cases (i.tag == u)) as (λ _. leb u i.tag ≡ true) [
      | inl e ↦ le→leb u i.tag (omega (arith, ==→eq i.tag u e))
      | inr e ↦
          below_rising last i.tag u
            (and_cases (out_of_order last i.tag) (rising (some i.tag) is) hr).0
            (ht u (sym (ap (λ b. b || member u tags) e) ∙ hm))
    ]

-- What a writer was given in rising order, a scan of its bytes finds.
pub scan-put_all :
    (is : List Item) (want : ℕ)
    → All IsItem is
    → rising none is ≡ true
    → length (message is) ≤ max_payload
    → ((put_all writer_init is).overflow ≡ false)
      × (scan (reader_init (put_all writer_init is).buf) want ≡ complete (lookup is want))
scan-put_all is want h hr hf =
    let (eb, eo) = put_all_taken is [] false none hr (omega (arith, hf)) in
    (
      eo,
      ap (λ b. scan (reader_init b) want) eb
          ∙ scan-lookup is want h
              (rising-distinct is [] none (λ u e. absurd (true≢false (sym e))) hr),
    )
