-- ===== src/Server/Control/Layout.antt =====
-- The payloads of the control queue of firmware/product/rbp_server.c share one buffer: where each of
-- them lies.
use mi_remote_usb_bridge.Base.{
  ℕ, suc, ◌+◌, ◌-◌, ◌≤◌, ◌<◌, ◌≡◌, ◌≢◌, refl, sym, ap, ◌∙◌, arith, inl, inr, List, [], ◌∷◌, Bool,
  true, false, ◌||◌, leb, if◌then◌else◌, length, take, drop, get_or, length-take, length-drop,
  Bool-cases, zero, map, set, Option, none, some, ◌==◌, ==→eq, ==→ne, length-set, get_or-set_same,
  get_or-set_other,
}
use mathlib.Core.Path.{ap₂}
use mi_remote_usb_bridge.Server.Init.{no_slot}
use mi_remote_usb_bridge.Server.Ring.{copy_into}
use mi_remote_usb_bridge.Server.Ring.Contents.{get_or-take, get_or-drop}
use mi_remote_usb_bridge.Server.Ring.Write.{copy_into_low, copy_into_in, length-copy_into}
use mi_remote_usb_bridge.Server.State.{Server, CtlSlot, ctl_bytes}

-- Lists of one length that agree position by position.
pub list_agree {ℓ} :
    {A : Type ℓ} (d : A) (xs ys : List A)
    → length xs ≡ length ys
    → ((j : ℕ) → j < length xs → get_or xs j d ≡ get_or ys j d)
    → xs ≡ ys
list_agree d [] [] l h = refl
list_agree d [] (y ∷ ys) l h = absurd (omega (arith, l))
list_agree d (x ∷ xs) [] l h = absurd (omega (arith, l))
list_agree d (x ∷ xs) (y ∷ ys) l h =
    ap₂ (λ a l. a ∷ l) (h 0 (omega arith))
      (list_agree d xs ys (omega (arith, l)) (λ j a. h (suc j) (omega (arith, a))))

pub get_or-map {ℓ κ} :
    {A : Type ℓ} {B : Type κ} (f : A → B) (xs : List A) (i : ℕ) (a : A) (b : B)
    → f a ≡ b
    → get_or (map f xs) i b ≡ f (get_or xs i a)
get_or-map f [] i a b h = sym h
get_or-map f (x ∷ xs) zero a b h = refl
get_or-map f (x ∷ xs) (suc i) a b h = get_or-map f xs i a b h

pub length-map {ℓ κ} :
    {A : Type ℓ} {B : Type κ} (f : A → B) (xs : List A) → length (map f xs) ≡ length xs
length-map f [] = refl
length-map f (x ∷ xs) = omega (arith, length-map f xs)

-- `n` bytes from `o` on.
abbrev pub slice : List ℕ → ℕ → ℕ → List ℕ
slice buf o n = take n (drop o buf)

pub length-slice : (buf : List ℕ) (o n : ℕ) → o + n ≤ length buf → length (slice buf o n) ≡ n
length-slice buf o n h = omega (arith, h, length-take n (drop o buf), length-drop o buf)

pub get_or-slice :
    (buf : List ℕ) (o n j : ℕ) → j < n → get_or (slice buf o n) j 0 ≡ get_or buf (o + j) 0
get_or-slice buf o n j h = get_or-take n (drop o buf) j 0 h ∙ get_or-drop o buf j 0

pub slice_agree :
    (a b : List ℕ) (o o' n : ℕ)
    → o + n ≤ length a
    → o' + n ≤ length b
    → ((j : ℕ) → j < n → get_or a (o + j) 0 ≡ get_or b (o' + j) 0)
    → slice a o n ≡ slice b o' n
slice_agree a b o o' n ha hb h =
    let la = length-slice a o n ha in
    list_agree 0 (slice a o n) (slice b o' n) (la ∙ sym (length-slice b o' n hb)) (λ j inside.
      let lt : j < n = omega (arith, inside, la) in
      get_or-slice a o n j lt ∙ h j lt ∙ sym (get_or-slice b o' n j lt))

-- The offset of a payload after `len` bytes at `offset` have left.
abbrev pub shifted : ℕ → ℕ → ℕ → ℕ
shifted offset len o = if leb (offset + len) o then o - len else o

-- Two ranges without a common byte.
abbrev pub apart : ℕ → ℕ → ℕ → ℕ → Bool
apart o n o' n' = leb (o + n) o' || leb (o' + n') o

pub apart-shifted :
    (offset len o n o' n' : ℕ)
    → apart offset len o n ≡ true
    → apart offset len o' n' ≡ true
    → apart o n o' n' ≡ true
    → apart (shifted offset len o) n (shifted offset len o') n' ≡ true
apart-shifted offset len o n o' n' h k l = ground arith

pub shifted-inside :
    (offset len o n used : ℕ)
    → apart offset len o n ≡ true
    → offset + len ≤ used
    → o + n ≤ used
    → shifted offset len o + n ≤ used - len
shifted-inside offset len o n used h k l = ground arith

apart_low :
    (offset len o n : ℕ)
    → leb (offset + len) o ≡ false
    → apart offset len o n ≡ true
    → o + n ≤ offset
apart_low offset len o n e h = ground (arith, e, h)

leb→le : (a b : ℕ) → leb a b ≡ true → a ≤ b
leb→le a b h = ground arith

-- The buffer after the bytes behind the range have moved down: the same bytes at the new offset.
pub slice-shifted :
    (buf : List ℕ) (offset len used o n : ℕ)
    → apart offset len o n ≡ true
    → offset + len ≤ used
    → o + n ≤ used
    → used ≤ length buf
    → slice
        (copy_into buf offset (slice buf (offset + len) (used - offset - len)))
        (shifted offset len o)
        n
      ≡ slice buf o n
slice-shifted buf offset len used o n h k l room =
    let behind = slice buf (offset + len) (used - offset - len) in
    let size : length behind ≡ used - offset - len =
      length-slice buf (offset + len) (used - offset - len) (omega (arith, k, room)) in
    let fits : offset + length behind ≤ length buf = omega (arith, size, k, room) in
    let whole = length-copy_into buf offset behind fits in
    let small = shifted-inside offset len o n used h k l in
    slice_agree (copy_into buf offset behind) buf (shifted offset len o) o n
      (omega (arith, whole, small, room)) (omega (arith, l, room))
      (λ j inside. elim (Bool-cases (leb (offset + len) o)) [
        | inl e ↦
            let high = leb→le (offset + len) o e in
            let at : o - len + j ≡ offset + (o - len - offset + j) = omega (arith, high) in
            let from : offset + len + (o - len - offset + j) ≡ o + j = omega (arith, high) in
            let short : o - len - offset + j < used - offset - len =
              omega (arith, high, inside, l) in
            rw e (
              ap (λ m. get_or (copy_into buf offset behind) m 0) at
              ∙ copy_into_in buf offset behind (o - len - offset + j) fits
                  (omega (arith, short, size))
              ∙ get_or-slice buf (offset + len) (used - offset - len) (o - len - offset + j) short
              ∙ ap (λ m. get_or buf m 0) from)
        | inr e ↦
            let low = apart_low offset len o n e h in
            rw e (copy_into_low buf offset behind (o + j) fits (omega (arith, low, inside)))
      ])

-- The slots as a function of the index; one that is not there is free.
abbrev pub slot_at : Server → ℕ → CtlSlot
slot_at s i = get_or s.ctl i no_slot

-- The payload of a slot.
abbrev pub payload_of : Server → CtlSlot → List ℕ
payload_of s slot = slice s.ctl_payload slot.offset slot.len

abbrev pub Apart : CtlSlot → CtlSlot → Type 0
Apart a b = apart a.offset a.len b.offset b.len ≡ true

-- The bytes of the slots in use.
abbrev pub weight : CtlSlot → ℕ
weight slot = if slot.used then slot.len else 0

abbrev pub total : List CtlSlot → ℕ
total [] = 0
total (slot ∷ slots) = weight slot + total slots

pub total-set :
    (slots : List CtlSlot) (i : ℕ) (x : CtlSlot)
    → i < length slots
    → total (set slots i x) + weight (get_or slots i no_slot) ≡ total slots + weight x
total-set [] i x h = absurd (omega (arith, h))
total-set (y ∷ ys) zero x h = omega arith
total-set (y ∷ ys) (suc i) x h = omega (arith, total-set ys i x (omega (arith, h)))

-- The payloads of the slots in use lie within the part of the buffer in use, apart from each other,
-- and that part is as long as they are together.
pub record IsControl (s : Server) : Type 0 where
  pub size : length s.ctl_payload ≡ ctl_bytes
  pub room : s.ctl_used ≤ ctl_bytes
  pub tight : s.ctl_used ≡ total s.ctl
  pub inside :
      (i : ℕ) → (slot_at s i).used ≡ true → (slot_at s i).offset + (slot_at s i).len ≤ s.ctl_used
  pub separate :
      (i j : ℕ)
      → i ≢ j
      → (slot_at s i).used ≡ true
      → (slot_at s j).used ≡ true
      → Apart (slot_at s i) (slot_at s j)

-- The payload of each slot, none for a free one.
abbrev pub entry : Server → CtlSlot → Option (List ℕ)
entry s slot = if slot.used then some (payload_of s slot) else none

unfoldable pub payloads : Server → List (Option (List ℕ))
payloads s = map (entry s) s.ctl

pub entry_used :
    (s : Server) (slot : CtlSlot) → slot.used ≡ true → entry s slot ≡ some (payload_of s slot)
entry_used s slot h = ap (λ b. if b then some (payload_of s slot) else none) h

pub entry_free : (s : Server) (slot : CtlSlot) → slot.used ≡ false → entry s slot ≡ none
entry_free s slot h = ap (λ b. if b then some (payload_of s slot) else none) h

-- The payloads after one slot has changed, slot by slot.
pub payloads-set :
    (s t : Server) (i : ℕ) (p : Option (List ℕ))
    → i < length s.ctl
    → length t.ctl ≡ length s.ctl
    → entry t (slot_at t i) ≡ p
    → ((j : ℕ) → i ≢ j → entry t (slot_at t j) ≡ entry s (slot_at s j))
    → payloads t ≡ set (payloads s) i p
unfolding payloads
payloads-set s t i p h size same other =
    let ls = length-map (entry s) s.ctl in
    let lt = length-map (entry t) t.ctl in
    let lset = length-set (map (entry s) s.ctl) i p in
    list_agree none (map (entry t) t.ctl) (set (map (entry s) s.ctl) i p)
      (omega (arith, ls, lt, lset, size))
      (λ j inside. get_or-map (entry t) t.ctl j no_slot none refl ∙ elim (Bool-cases (i == j)) [
        | inl e ↦
            let here = ==→eq i j e in
            ap (λ k. entry t (slot_at t k)) (sym here)
            ∙ same
            ∙ sym (get_or-set_same (map (entry s) s.ctl) i p none (omega (arith, h, ls)))
            ∙ ap (λ k. get_or (set (map (entry s) s.ctl) i p) k none) here
        | inr e ↦
            let apart_from = ==→ne i j e in
            other j apart_from
            ∙ sym (get_or-map (entry s) s.ctl j no_slot none refl)
            ∙ sym (get_or-set_other (map (entry s) s.ctl) i j p none apart_from)
      ])
