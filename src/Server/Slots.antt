-- ===== src/Server/Slots.antt =====
-- Arrays used as rings: the entries at the indices that a ring goes through. They serve the key
-- queue, the media queue and the results of operations.
use mi_remote_usb_bridge.Base.{
  ℕ, zero, suc, ◌+◌, ◌≤◌, ◌<◌, ◌≡◌, refl, sym, ap, ◌∙◌, ◌≢◌, arith, List, [], ◌∷◌, ◌++◌, length,
  get_or, set, get_or-set_same, get_or-set_other,
}
use mathlib.Core.Path.{ap₂}

module _ {A : Type 0} (d : A) where
  -- The entries at `at i`, `at (i + 1)` and so on, `n` of them.
  abbrev pub entries : (ℕ → ℕ) → List A → ℕ → ℕ → List A
  entries at q i zero = []
  entries at q i (suc n) = get_or q (at i) d ∷ entries at q (i + 1) n

  pub length-entries : (at : ℕ → ℕ) (q : List A) (i n : ℕ) → length (entries at q i n) ≡ n
  length-entries at q i zero = refl
  length-entries at q i (suc n) = ap suc (length-entries at q (i + 1) n)

  -- A write elsewhere.
  pub entries-set :
      (at : ℕ → ℕ) (q : List A) (i n k : ℕ) (v : A)
      → ((j : ℕ) → i ≤ j → j < i + n → k ≢ at j)
      → entries at (set q k v) i n ≡ entries at q i n
  entries-set at q i zero k v h = refl
  entries-set at q i (suc n) k v h =
      ap₂ (λ x xs. x ∷ xs) (get_or-set_other q k (at i) v d (h i (omega arith) (omega arith)))
        (entries-set at q (i + 1) n k v (λ j a b. h j (omega (arith, a)) (omega (arith, b))))

  pub entries_snoc :
      (at : ℕ → ℕ) (q : List A) (i n : ℕ)
      → entries at q i (n + 1) ≡ entries at q i n ++ get_or q (at (i + n)) d ∷ []
  entries_snoc at q i zero = let m : i ≡ i + 0 = omega arith in ap (λ x. get_or q (at x) d ∷ []) m
  entries_snoc at q i (suc n) =
      let k : suc n + 1 ≡ suc (n + 1) = omega arith in
      let m : i + 1 + n ≡ i + suc n = omega arith in
      rw k (
        ap (λ l. get_or q (at i) d ∷ l)
          (entries_snoc at q (i + 1) n
            ∙ ap (λ x. entries at q (i + 1) n ++ get_or q (at x) d ∷ []) m))

  -- The same indices, counted from another start.
  pub entries_agree :
      (at at' : ℕ → ℕ) (q : List A) (i i' n : ℕ)
      → ((j : ℕ) → j < n → at (i + j) ≡ at' (i' + j))
      → entries at q i n ≡ entries at' q i' n
  entries_agree at at' q i i' zero h = refl
  entries_agree at at' q i i' (suc n) h =
      let a : i + 0 ≡ i = omega arith in
      let b : i' + 0 ≡ i' = omega arith in
      let first : at i ≡ at' i' = ap at (sym a) ∙ h 0 (omega arith) ∙ ap at' b in
      ap₂ (λ x xs. x ∷ xs) (ap (λ k. get_or q k d) first)
        (entries_agree at at' q (i + 1) (i' + 1) n (λ j inside.
          let x : i + 1 + j ≡ i + suc j = omega arith in
          let y : i' + suc j ≡ i' + 1 + j = omega arith in
          ap at x ∙ h (suc j) (omega (arith, inside)) ∙ ap at' y))

  -- A write behind the last entry appends to them.
  pub entries-push :
      (at : ℕ → ℕ) (q : List A) (n : ℕ) (v : A)
      → at n < length q
      → ((j : ℕ) → j < n → at n ≢ at j)
      → entries at (set q (at n) v) 0 (n + 1) ≡ entries at q 0 n ++ v ∷ []
  entries-push at q n v room apart =
      let k : 0 + n ≡ n = omega arith in
      entries_snoc at (set q (at n) v) 0 n
      ∙ ap₂ (λ l x. l ++ x ∷ [])
          (entries-set at q 0 n (at n) v (λ j a b. apart j (omega (arith, b))))
          (ap (λ m. get_or (set q (at n) v) (at m) d) k ∙ get_or-set_same q (at n) v d room)
