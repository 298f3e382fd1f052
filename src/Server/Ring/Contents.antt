-- ===== src/Server/Ring/Contents.antt =====
-- What a ring holds, as a list, under `ring_write` and `audio_read` of
-- firmware/product/rbp_server.c.
use mi_remote_usb_bridge.Base.{
  ℕ, zero, suc, ◌+◌, ◌-◌, ◌%◌, ◌≤◌, ◌<◌, ◌≡◌, refl, sym, ap, ◌∙◌, arith, List, [], ◌∷◌, ◌++◌,
  length, take, drop, get_or,
}
use mi_remote_usb_bridge.Server.Ring.{Ring, out_ring_size}
use mathlib.Core.Path.{ap₂}

-- `ring[(head+i)%OUT_RING_SIZE]` from `i` on for `n` rounds.
abbrev pub contents_from : List ℕ → ℕ → ℕ → ℕ → List ℕ
contents_from buf head i zero = []
contents_from buf head i (suc n) =
    get_or buf ((head + i) % out_ring_size) 0 ∷ contents_from buf head (i + 1) n

-- The bytes that a ring holds, oldest first.
unfoldable pub contents : Ring → List ℕ
contents r = contents_from r.buf r.head 0 r.len

-- The variables of a ring are in range.
pub record IsRing (r : Ring) : Type 0 where
  pub size : length r.buf ≡ out_ring_size
  pub head_bound : r.head < out_ring_size
  pub len_bound : r.len ≤ out_ring_size

pub length-contents_from : (buf : List ℕ) (head i n : ℕ) → length (contents_from buf head i n) ≡ n
length-contents_from buf head i zero = refl
length-contents_from buf head i (suc n) = ap suc (length-contents_from buf head (i + 1) n)

pub length-contents : (r : Ring) → length (contents r) ≡ r.len
unfolding contents
length-contents r = length-contents_from r.buf r.head 0 r.len

-- Contents are equal when they agree position by position.
pub contents_from_agree :
    (buf buf' : List ℕ) (head i n : ℕ)
    → ((j : ℕ)
        → i ≤ j
        → j < i + n
        → get_or buf' ((head + j) % out_ring_size) 0 ≡ get_or buf ((head + j) % out_ring_size) 0)
    → contents_from buf' head i n ≡ contents_from buf head i n
contents_from_agree buf buf' head i zero h = refl
contents_from_agree buf buf' head i (suc n) h =
    ap₂ (λ x xs. x ∷ xs) (h i (omega arith) (omega arith))
      (contents_from_agree buf buf' head (i + 1) n
        (λ j a b. h j (omega (arith, a)) (omega (arith, b))))

-- Contents are a given list when they agree with it position by position.
pub contents_from_list :
    (buf : List ℕ) (head i : ℕ) (bytes : List ℕ)
    → ((j : ℕ)
        → j < length bytes
        → get_or buf ((head + (i + j)) % out_ring_size) 0 ≡ get_or bytes j 0)
    → contents_from buf head i (length bytes) ≡ bytes
contents_from_list buf head i [] h = refl
contents_from_list buf head i (x ∷ bytes) h =
    let e : i + 0 ≡ i = omega arith in
    let first : get_or buf ((head + i) % out_ring_size) 0 ≡ x =
      ap (λ k. get_or buf ((head + k) % out_ring_size) 0) (sym e) ∙ h 0 (omega arith) in
    ap₂ (λ y ys. y ∷ ys) first
      (contents_from_list buf head (i + 1) bytes (λ j a.
        let k : i + 1 + j ≡ i + suc j = omega arith in
        ap (λ m. get_or buf ((head + m) % out_ring_size) 0) k ∙ h (suc j) (omega (arith, a))))

pub contents_from_split :
    (buf : List ℕ) (head i m n : ℕ)
    → contents_from buf head i (m + n)
      ≡ contents_from buf head i m ++ contents_from buf head (i + m) n
contents_from_split buf head i zero n =
    ap₂ (λ j k. contents_from buf head j k) (omega arith) (omega arith)
contents_from_split buf head i (suc m) n =
    let e : suc m + n ≡ suc (m + n) = omega arith in
    let k : i + 1 + m ≡ i + suc m = omega arith in
    rw e (
      ap (λ l. get_or buf ((head + i) % out_ring_size) 0 ∷ l)
        (contents_from_split buf head (i + 1) m n
          ∙ ap (λ j. contents_from buf head (i + 1) m ++ contents_from buf head j n) k))

module _ {ℓ} {A : Type ℓ} where
  pub get_or-append_low :
      (xs ys : List A) (i : ℕ) (d : A) → i < length xs → get_or (xs ++ ys) i d ≡ get_or xs i d
  get_or-append_low [] ys i d h = absurd (omega arith)
  get_or-append_low (x ∷ xs) ys zero d h = refl
  get_or-append_low (x ∷ xs) ys (suc i) d h = get_or-append_low xs ys i d (omega arith)

  pub get_or-append_high :
      (xs ys : List A) (i : ℕ) (d : A)
      → length xs ≤ i
      → get_or (xs ++ ys) i d ≡ get_or ys (i - length xs) d
  get_or-append_high [] ys i d h = ap (λ k. get_or ys k d) (omega arith)
  get_or-append_high (x ∷ xs) ys zero d h = absurd (omega arith)
  get_or-append_high (x ∷ xs) ys (suc i) d h =
      get_or-append_high xs ys i d (omega arith) ∙ ap (λ k. get_or ys k d) (omega arith)

  pub get_or-take :
      (n : ℕ) (xs : List A) (i : ℕ) (d : A) → i < n → get_or (take n xs) i d ≡ get_or xs i d
  get_or-take zero xs i d h = absurd (omega arith)
  get_or-take (suc n) [] i d h = refl
  get_or-take (suc n) (x ∷ xs) zero d h = refl
  get_or-take (suc n) (x ∷ xs) (suc i) d h = get_or-take n xs i d (omega arith)

  pub get_or-drop :
      (n : ℕ) (xs : List A) (i : ℕ) (d : A) → get_or (drop n xs) i d ≡ get_or xs (n + i) d
  get_or-drop zero xs i d = ap (λ k. get_or xs k d) (omega arith)
  get_or-drop (suc n) [] i d = refl
  get_or-drop (suc n) (x ∷ xs) i d =
      let e : suc n + i ≡ suc (n + i) = omega arith in rw e (get_or-drop n xs i d)

-- Contents from a later position are those of a ring whose head has moved on.
pub contents_from_shift :
    (buf : List ℕ) (head i k n : ℕ)
    → contents_from buf head (k + i) n ≡ contents_from buf ((head + k) % out_ring_size) i n
contents_from_shift buf head i k zero = refl
contents_from_shift buf head i k (suc n) =
    let p : (head + (k + i)) % out_ring_size ≡ ((head + k) % out_ring_size + i) % out_ring_size =
      omega arith in
    let q : k + i + 1 ≡ k + (i + 1) = omega arith in
    ap₂ (λ x xs. x ∷ xs) (ap (λ m. get_or buf m 0) p)
      (ap (λ m. contents_from buf head m n) q ∙ contents_from_shift buf head (i + 1) k n)
