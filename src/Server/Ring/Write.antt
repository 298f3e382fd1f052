-- ===== src/Server/Ring/Write.antt =====
-- `ring_write` of firmware/product/rbp_server.c appends to what a ring holds.
use mi_remote_usb_bridge.Base.{
  ℕ, ◌+◌, ◌-◌, ◌%◌, ◌≤◌, ◌<◌, ◌≡◌, refl, sym, ap, ◌∙◌, arith, inl, inr, List, ◌++◌, true, false,
  ltb, length, take, drop, get_or, if◌then◌else◌, Bool-cases, ltb→lt, ltb→ge, ge→ltb, length-append,
  length-take, length-drop, take_all, take-append-drop,
}
use mi_remote_usb_bridge.Server.Ring.{Ring, out_ring_size, copy_into, tail_of, at_most, ring_write}
use mi_remote_usb_bridge.Server.Ring.Contents.{
  contents_from, contents, IsRing, contents_from_agree, contents_from_list, contents_from_split,
  get_or-append_low, get_or-append_high, get_or-take, get_or-drop,
}
use mathlib.Core.Path.{ap₂, subst}

pub length-copy_into :
    (ring : List ℕ) (at : ℕ) (bytes : List ℕ)
    → at + length bytes ≤ length ring
    → length (copy_into ring at bytes) ≡ length ring
unfolding copy_into
length-copy_into ring at bytes h = omega (
  arith,
  length-append (take at ring) (bytes ++ drop (at + length bytes) ring),
  length-append bytes (drop (at + length bytes) ring),
  length-take at ring,
  length-drop (at + length bytes) ring,
)

-- A position before the copy, in it and behind it.
pub copy_into_low :
    (ring : List ℕ) (at : ℕ) (bytes : List ℕ) (k : ℕ)
    → at + length bytes ≤ length ring
    → k < at
    → get_or (copy_into ring at bytes) k 0 ≡ get_or ring k 0
unfolding copy_into
copy_into_low ring at bytes k h low =
    get_or-append_low (take at ring) (bytes ++ drop (at + length bytes) ring) k 0
      (omega (arith, length-take at ring))
    ∙ get_or-take at ring k 0 low

pub copy_into_in :
    (ring : List ℕ) (at : ℕ) (bytes : List ℕ) (j : ℕ)
    → at + length bytes ≤ length ring
    → j < length bytes
    → get_or (copy_into ring at bytes) (at + j) 0 ≡ get_or bytes j 0
unfolding copy_into
copy_into_in ring at bytes j h inside =
    let l : length (take at ring) ≡ at = omega (arith, length-take at ring) in
    let k : at + j - length (take at ring) ≡ j = omega (arith, l) in
    get_or-append_high (take at ring) (bytes ++ drop (at + length bytes) ring) (at + j) 0
      (omega (arith, l))
    ∙ ap (λ m. get_or (bytes ++ drop (at + length bytes) ring) m 0) k
    ∙ get_or-append_low bytes (drop (at + length bytes) ring) j 0 inside

pub copy_into_high :
    (ring : List ℕ) (at : ℕ) (bytes : List ℕ) (k : ℕ)
    → at + length bytes ≤ length ring
    → at + length bytes ≤ k
    → get_or (copy_into ring at bytes) k 0 ≡ get_or ring k 0
unfolding copy_into
copy_into_high ring at bytes k h high =
    let l : length (take at ring) ≡ at = omega (arith, length-take at ring) in
    let rest = drop (at + length bytes) ring in
    let m : at + length bytes + (k - length (take at ring) - length bytes) ≡ k = omega (arith, l) in
    get_or-append_high (take at ring) (bytes ++ rest) k 0 (omega (arith, l))
    ∙ get_or-append_high bytes rest (k - length (take at ring)) 0 (omega (arith, l))
    ∙ get_or-drop (at + length bytes) ring (k - length (take at ring) - length bytes) 0
    ∙ ap (λ i. get_or ring i 0) m

-- The buffer after a write of `n` bytes behind the contents: the old contents stay, and the bytes
-- follow.
abbrev Appended : List ℕ → Ring → List ℕ → Type 0
Appended buf' r bytes =
    ((j : ℕ)
      → j < r.len
      → get_or buf' ((r.head + j) % out_ring_size) 0
        ≡ get_or r.buf ((r.head + j) % out_ring_size) 0)
    × ((j : ℕ)
        → j < length bytes
        → get_or buf' ((r.head + (r.len + j)) % out_ring_size) 0 ≡ get_or bytes j 0)
    × (length buf' ≡ length r.buf)
    × ((j : ℕ)
        → r.len + length bytes ≤ j
        → j < out_ring_size
        → get_or buf' ((r.head + j) % out_ring_size) 0
          ≡ get_or r.buf ((r.head + j) % out_ring_size) 0)

Appended-contents :
    (buf' : List ℕ) (r : Ring) (bytes : List ℕ)
    → Appended buf' r bytes
    → contents (record r { buf = buf'; len = r.len + length bytes }) ≡ contents r ++ bytes
unfolding contents
Appended-contents buf' r bytes (old, new, size, behind) =
    contents_from_split buf' r.head 0 r.len (length bytes)
    ∙ ap (λ k. contents_from buf' r.head 0 r.len ++ contents_from buf' r.head k (length bytes))
        (omega arith)
    ∙ ap₂ (λ a b. a ++ b)
        (contents_from_agree r.buf buf' r.head 0 r.len (λ j a b. old j (omega (arith, b))))
        (contents_from_list buf' r.head r.len bytes new)

-- A position outside of the copy.
copy_into_other :
    (ring : List ℕ) (at : ℕ) (bytes : List ℕ) (k : ℕ)
    → at + length bytes ≤ length ring
    → (at ≤ k → at + length bytes ≤ k)
    → get_or (copy_into ring at bytes) k 0 ≡ get_or ring k 0
copy_into_other ring at bytes k h out = elim (Bool-cases (ltb k at)) [
  | inl e ↦ copy_into_low ring at bytes k h (ltb→lt k at e)
  | inr e ↦ copy_into_high ring at bytes k h (out (ltb→ge k at e))
]

tail_of-position :
    (r : Ring) → IsRing r → tail_of out_ring_size r ≡ (r.head + r.len) % out_ring_size
tail_of-position r w = let hb = w.head_bound in let lb = w.len_bound in ground arith

-- A write that does not reach the end of the buffer.
near_Appended :
    (r : Ring) (bytes : List ℕ) (tail : ℕ)
    → IsRing r
    → tail ≡ (r.head + r.len) % out_ring_size
    → r.len + length bytes ≤ out_ring_size
    → tail + length bytes ≤ out_ring_size
    → Appended (copy_into r.buf tail bytes) r bytes
near_Appended r bytes tail w t room short =
    let hb = w.head_bound in
    let fits : tail + length bytes ≤ length r.buf = omega (arith, short, w.size) in
    (
      λ j inside.
          copy_into_other r.buf tail bytes ((r.head + j) % out_ring_size) fits
            (λ a. omega (arith, a, t, room, inside, hb)),
      λ j inside.
          let p : (r.head + (r.len + j)) % out_ring_size ≡ tail + j =
            omega (arith, t, room, inside, hb, short) in
          ap (λ k. get_or (copy_into r.buf tail bytes) k 0) p
          ∙ copy_into_in r.buf tail bytes j fits inside,
      length-copy_into r.buf tail bytes fits,
      λ j low high.
          copy_into_other r.buf tail bytes ((r.head + j) % out_ring_size) fits
            (λ a. omega (arith, a, t, room, low, high, hb)),
    )

-- A write that goes on at the start of the buffer.
far_Appended :
    (r : Ring) (a b : List ℕ) (tail : ℕ)
    → IsRing r
    → tail ≡ (r.head + r.len) % out_ring_size
    → r.len + length (a ++ b) ≤ out_ring_size
    → tail + length a ≡ out_ring_size
    → Appended (copy_into (copy_into r.buf tail a) 0 b) r (a ++ b)
far_Appended r a b tail w t room reach =
    let hb = w.head_bound in
    let n = length-append a b in
    let near : tail + length a ≤ length r.buf = omega (arith, reach, w.size) in
    let size : length (copy_into r.buf tail a) ≡ length r.buf =
      length-copy_into r.buf tail a near in
    let far : 0 + length b ≤ length (copy_into r.buf tail a) =
      omega (arith, size, reach, w.size, n, room, t, hb) in
    (
      λ j inside.
          let p = (r.head + j) % out_ring_size in
          copy_into_other (copy_into r.buf tail a) 0 b p far
            (λ z. omega (arith, t, room, inside, hb, n, reach))
          ∙ copy_into_other r.buf tail a p near
              (λ z. omega (arith, z, t, room, inside, hb, n, reach)),
      λ j inside. elim (Bool-cases (ltb j (length a))) [
        | inl e ↦
            let lt = ltb→lt j (length a) e in
            let p : (r.head + (r.len + j)) % out_ring_size ≡ tail + j =
              omega (arith, t, room, hb, reach, n, lt) in
            ap (λ k. get_or (copy_into (copy_into r.buf tail a) 0 b) k 0) p
            ∙ copy_into_high (copy_into r.buf tail a) 0 b (tail + j) far
                (omega (arith, n, room, t, hb, reach))
            ∙ copy_into_in r.buf tail a j near lt
            ∙ sym (get_or-append_low a b j 0 lt)
        | inr e ↦
            let ge = ltb→ge j (length a) e in
            let p : (r.head + (r.len + j)) % out_ring_size ≡ 0 + (j - length a) =
              omega (arith, t, room, hb, reach, n, ge, inside) in
            ap (λ k. get_or (copy_into (copy_into r.buf tail a) 0 b) k 0) p
            ∙ copy_into_in (copy_into r.buf tail a) 0 b (j - length a) far
                (omega (arith, n, inside, ge))
            ∙ sym (get_or-append_high a b j 0 ge)
      ],
      length-copy_into (copy_into r.buf tail a) 0 b far ∙ size,
      λ j low high.
          let p = (r.head + j) % out_ring_size in
          copy_into_other (copy_into r.buf tail a) 0 b p far
            (λ z. omega (arith, t, room, low, high, hb, n, reach))
          ∙ copy_into_other r.buf tail a p near
              (λ z. omega (arith, z, t, room, low, high, hb, n, reach)),
    )

-- Either way.
abbrev pub written : Ring → List ℕ → List ℕ
written r bytes =
    let tail = tail_of out_ring_size r in
    let first = at_most (length bytes) (out_ring_size - tail) in
    let near = copy_into r.buf tail (take first bytes) in
    if ltb first (length bytes) then copy_into near 0 (drop first bytes) else near

take_whole : (bytes : List ℕ) (n : ℕ) → length bytes ≡ n → take n bytes ≡ bytes
take_whole bytes n e = ap (λ k. take k bytes) (sym e) ∙ take_all bytes

written-Appended :
    (r : Ring) (bytes : List ℕ)
    → IsRing r
    → r.len + length bytes ≤ out_ring_size
    → Appended (written r bytes) r bytes
written-Appended r bytes w room =
    let t = tail_of-position r w in
    let tail = tail_of out_ring_size r in
    let hb = w.head_bound in
    elim (Bool-cases (ltb (length bytes) (out_ring_size - tail))) [
      | inl e ↦
          let lt = ltb→lt (length bytes) (out_ring_size - tail) e in
          rw (e, ge→ltb (length bytes) (length bytes) (omega arith), take_all bytes)
            (near_Appended r bytes tail w t room (omega (arith, lt)))
      | inr e ↦ elim (Bool-cases (ltb (out_ring_size - tail) (length bytes))) [
        | inl f ↦
            let more = ltb→lt (out_ring_size - tail) (length bytes) f in
            let split = take-append-drop (out_ring_size - tail) bytes in
            let part : length (take (out_ring_size - tail) bytes) ≡ out_ring_size - tail =
              omega (arith, length-take (out_ring_size - tail) bytes, more) in
            rw (e, f)
              (subst
                (λ l.
                  Appended
                    (copy_into (copy_into r.buf tail (take (out_ring_size - tail) bytes)) 0
                      (drop (out_ring_size - tail) bytes))
                    r l)
                split
                (far_Appended r (take (out_ring_size - tail) bytes)
                  (drop (out_ring_size - tail) bytes) tail w t (rw split room)
                  (omega (arith, part, t, hb))))
        | inr f ↦
            let same : length bytes ≡ out_ring_size - tail = omega (
              arith,
              ltb→ge (length bytes) (out_ring_size - tail) e,
              ltb→ge (out_ring_size - tail) (length bytes) f,
            ) in
            rw (e, f, take_whole bytes (out_ring_size - tail) same)
              (near_Appended r bytes tail w t room (omega (arith, same, t, hb)))
      ]
    ]

pub written-fits :
    (r : Ring) (bytes : List ℕ)
    → IsRing r
    → ltb (out_ring_size - r.len) (length bytes) ≡ false
    → let r' : Ring = record r { buf = written r bytes; len = r.len + length bytes } in
      (contents r' ≡ contents r ++ bytes) × IsRing r'
written-fits r bytes w e =
    let room : r.len + length bytes ≤ out_ring_size =
      omega (arith, ltb→ge (out_ring_size - r.len) (length bytes) e, w.len_bound) in
    let whole = written-Appended r bytes w room in
    (
      Appended-contents (written r bytes) r bytes whole,
      record { size = whole.2 ∙ w.size; head_bound = w.head_bound; len_bound = room },
    )

-- Positions behind what has been written are as they were.
pub written-behind :
    (r : Ring) (bytes : List ℕ) (j : ℕ)
    → IsRing r
    → r.len + length bytes ≤ out_ring_size
    → r.len + length bytes ≤ j
    → j < out_ring_size
    → get_or (written r bytes) ((r.head + j) % out_ring_size) 0
      ≡ get_or r.buf ((r.head + j) % out_ring_size) 0
written-behind r bytes j w room low high = (written-Appended r bytes w room).3 j low high

-- `ring_write` on a ring in range: bytes that fit are taken, and the ring then holds what it held
-- followed by them and is in range; bytes that do not fit are refused and change nothing.
pub ring_write_appends :
    (r : Ring) (bytes : List ℕ)
    → IsRing r
    → let (r', taken) = ring_write out_ring_size r bytes in
      if ltb (out_ring_size - r.len) (length bytes)
      then (r' ≡ r) × (taken ≡ false)
      else (contents r' ≡ contents r ++ bytes) × IsRing r' × (taken ≡ true)
unfolding ring_write
ring_write_appends r bytes w = elim (Bool-cases (ltb (out_ring_size - r.len) (length bytes))) [
  | inl e ↦ rw e (refl, refl)
  | inr e ↦ let (held, whole) = written-fits r bytes w e in rw e (held, whole, refl)
]
