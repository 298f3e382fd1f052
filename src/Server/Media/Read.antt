-- ===== src/Server/Media/Read.antt =====
-- `audio_read` of firmware/product/rbp_server.c against the positions of the pool.
use mi_remote_usb_bridge.Base.{
  ℕ, zero, suc, ◌∷◌, ◌+◌, ◌-◌, ◌%◌, ◌≤◌, ◌<◌, ◌≡◌, refl, sym, ap, ◌∙◌, arith, inl, inr, List, ◌++◌,
  ltb, length, take, drop, get_or, length-append, Bool-cases, ltb→lt, ltb→ge, ge→ltb, length-take,
  length-drop,
}
use mathlib.Core.Path.{ap₂}
use mi_remote_usb_bridge.Server.Ring.{Ring, out_ring_size, audio_read}
use mi_remote_usb_bridge.Server.Ring.Contents.{
  contents_from, contents, IsRing, contents_from_list, get_or-append_low, get_or-append_high,
  get_or-take, get_or-drop,
}

-- A list whose bytes are those from a position on, position by position.
from_list :
    (r : Ring) (offset len : ℕ) (bytes : List ℕ)
    → length bytes ≡ len
    → ((j : ℕ)
        → j < len
        → get_or r.buf ((r.head + (offset + j)) % out_ring_size) 0 ≡ get_or bytes j 0)
    → bytes ≡ contents_from r.buf r.head offset len
from_list r offset len bytes l h = sym (
    ap (λ m. contents_from r.buf r.head offset m) (sym l)
    ∙ contents_from_list r.buf r.head offset bytes (λ j inside. h j (omega (arith, inside, l))))

-- The part up to the end of the buffer, and the part from its start on.
near_bytes :
    (r : Ring) (offset n : ℕ)
    → IsRing r
    → n ≤ out_ring_size - (r.head + offset) % out_ring_size
    → let near = take n (drop ((r.head + offset) % out_ring_size) r.buf) in
      (length near ≡ n)
      × ((j : ℕ)
          → j < n
          → get_or r.buf ((r.head + (offset + j)) % out_ring_size) 0 ≡ get_or near j 0)
near_bytes r offset n w h =
    let pos = (r.head + offset) % out_ring_size in
    let rest : length (drop pos r.buf) ≡ out_ring_size - pos =
      omega (arith, length-drop pos r.buf, w.size) in
    (
      omega (arith, length-take n (drop pos r.buf), rest, h),
      λ j inside.
          let p : (r.head + (offset + j)) % out_ring_size ≡ pos + j = omega (arith, inside, h) in
          ap (λ m. get_or r.buf m 0) p
          ∙ sym (get_or-drop pos r.buf j 0)
          ∙ sym (get_or-take n (drop pos r.buf) j 0 inside),
    )

far_bytes :
    (r : Ring) (offset f len : ℕ) (near : List ℕ)
    → IsRing r
    → f ≡ out_ring_size - (r.head + offset) % out_ring_size
    → length near ≡ f
    → f ≤ len
    → len ≤ out_ring_size
    → ((j : ℕ) → j < f → get_or r.buf ((r.head + (offset + j)) % out_ring_size) 0 ≡ get_or near j 0)
    → near ++ take (len - f) r.buf ≡ contents_from r.buf r.head offset len
far_bytes r offset f len near w g l more h low =
    let far = take (len - f) r.buf in
    let m : length far ≡ len - f = omega (arith, length-take (len - f) r.buf, w.size, h) in
    from_list r offset len (near ++ far) (omega (arith, length-append near far, l, m, more))
      (λ j inside. elim (Bool-cases (ltb j f)) [
        | inl e ↦
            let lt = ltb→lt j f e in
            low j lt ∙ sym (get_or-append_low near far j 0 (omega (arith, lt, l)))
        | inr e ↦
            let ge = ltb→ge j f e in
            let p : (r.head + (offset + j)) % out_ring_size ≡ j - length near =
              omega (arith, ge, g, inside, h, l) in
            ap (λ k. get_or r.buf k 0) p
            ∙ sym (get_or-take (len - f) r.buf (j - length near) 0 (omega (arith, ge, inside, l)))
            ∙ sym (get_or-append_high near far j 0 (omega (arith, ge, l)))
      ])

-- `audio_read` reads the bytes at the positions from `offset` on.
pub audio_read-contents :
    (r : Ring) (offset len : ℕ)
    → IsRing r
    → len ≤ out_ring_size
    → audio_read r offset len ≡ contents_from r.buf r.head offset len
unfolding audio_read
audio_read-contents r offset len w h =
    let f = out_ring_size - (r.head + offset) % out_ring_size in
    elim (Bool-cases (ltb len f)) [
      | inl e ↦
          let b = near_bytes r offset len w (omega (arith, ltb→lt len f e)) in
          rw (e, ge→ltb len len (omega arith))
            (from_list r offset len (take len (drop ((r.head + offset) % out_ring_size) r.buf)) b.0
              b.1)
      | inr e ↦
          let near = take f (drop ((r.head + offset) % out_ring_size) r.buf) in
          let ge = ltb→ge len f e in
          let b = near_bytes r offset f w (omega arith) in
          elim (Bool-cases (ltb f len)) [
            | inl g ↦ rw (e, g) (far_bytes r offset f len near w refl b.0 ge h b.1)
            | inr g ↦
                let same : f ≡ len = omega (arith, ge, ltb→ge f len g) in
                rw (e, g)
                  (from_list r offset len near (b.0 ∙ same)
                    (λ j inside. b.1 j (omega (arith, inside, same))))
          ]
    ]

drop-contents_from :
    (buf : List ℕ) (head i k n : ℕ)
    → drop k (contents_from buf head i n) ≡ contents_from buf head (i + k) (n - k)
drop-contents_from buf head i zero n =
    ap₂ (λ j m. contents_from buf head j m) (omega arith) (omega arith)
drop-contents_from buf head i (suc k) zero =
    let none_left : zero ≡ zero - suc k = omega arith in
    ap (λ m. contents_from buf head (i + suc k) m) none_left
drop-contents_from buf head i (suc k) (suc n) =
    drop-contents_from buf head (i + 1) k n
    ∙ ap₂ (λ j m. contents_from buf head j m) (omega arith) (omega arith)

take-contents_from :
    (buf : List ℕ) (head i k n : ℕ)
    → k ≤ n
    → take k (contents_from buf head i n) ≡ contents_from buf head i k
take-contents_from buf head i zero n h = refl
take-contents_from buf head i (suc k) zero h = absurd (omega (arith, h))
take-contents_from buf head i (suc k) (suc n) h =
    ap (λ l. get_or buf ((head + i) % out_ring_size) 0 ∷ l)
      (take-contents_from buf head (i + 1) k n (omega (arith, h)))

-- From a pool in range, `audio_read` reads, across the end of the buffer too, the bytes that the pool
-- holds from `offset` on, as long as it holds so many.
pub audio_read-slice :
    (r : Ring) (offset len : ℕ)
    → IsRing r
    → offset + len ≤ r.len
    → audio_read r offset len ≡ take len (drop offset (contents r))
unfolding contents
audio_read-slice r offset len w h =
    let lb = w.len_bound in
    audio_read-contents r offset len w (omega (arith, h, lb))
    ∙ sym (take-contents_from r.buf r.head offset len (r.len - offset) (omega (arith, h)))
    ∙ ap (λ i. take len (contents_from r.buf r.head i (r.len - offset))) (omega arith)
    ∙ ap (λ l. take len l) (sym (drop-contents_from r.buf r.head 0 offset r.len))
