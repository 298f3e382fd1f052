-- ===== src/Server/Control/Remove.antt =====
-- A message that leaves the control queue of firmware/product/rbp_server.c moves the payloads behind
-- it, and no message loses its own.
use mi_remote_usb_bridge.Base.{
  ℕ, ◌+◌, ◌-◌, ◌≤◌, ◌<◌, ◌≡◌, ◌≢◌, refl, sym, ap, ◌∙◌, arith, List, [], ◌∷◌, Bool, true, false,
  ◌&&◌, leb, if◌then◌else◌, length, set, map, get_or-set_same, get_or-set_other, none, some, inl,
  inr, Bool-cases, length-set,
}
use mathlib.Core.Bool.{true≢false}
use mathlib.Core.Path.{ap₂, subst}
use mi_remote_usb_bridge.Server.Control.{moved, ctl_remove}
use mi_remote_usb_bridge.Server.Init.{no_slot}
use mi_remote_usb_bridge.Server.Ring.Write.{length-copy_into}
use mi_remote_usb_bridge.Server.State.{Server, CtlSlot}
use mi_remote_usb_bridge.Server.Control.Layout.{
  get_or-map, length-map, weight, total, total-set, entry_used, entry_free, payloads, payloads-set,
  slice, length-slice, shifted, apart, apart-shifted, shifted-inside, slice-shifted, slot_at,
  payload_of, Apart, IsControl,
}

-- A choice of slots, field by field.
if_used : (b : Bool) (x y : CtlSlot) → x.used ≡ y.used → (if b then x else y).used ≡ y.used
if_used true x y h = h
if_used false x y h = refl

if_len : (b : Bool) (x y : CtlSlot) → x.len ≡ y.len → (if b then x else y).len ≡ y.len
if_len true x y h = h
if_len false x y h = refl

if_offset :
    (b : Bool) (x y : CtlSlot) → (if b then x else y).offset ≡ (if b then x.offset else y.offset)
if_offset true x y = refl
if_offset false x y = refl

pub moved-used : (o n : ℕ) (a : CtlSlot) → (moved o n a).used ≡ a.used
moved-used o n a =
    if_used (a.used && leb (o + n) a.offset) (record a { offset = a.offset - n }) a refl

moved-len : (o n : ℕ) (a : CtlSlot) → (moved o n a).len ≡ a.len
moved-len o n a =
    if_len (a.used && leb (o + n) a.offset) (record a { offset = a.offset - n }) a refl

moved-offset : (o n : ℕ) (a : CtlSlot) → a.used ≡ true → (moved o n a).offset ≡ shifted o n a.offset
moved-offset o n a h =
    if_offset (a.used && leb (o + n) a.offset) (record a { offset = a.offset - n }) a
    ∙ ap (λ b. if b && leb (o + n) a.offset then a.offset - n else a.offset) h

-- Index by index, the slots after the slot `i` has been removed.
removed-same :
    (s : Server) (i : ℕ)
    → i < length s.ctl
    → (slot_at (ctl_remove s i (slot_at s i)) i).used ≡ false
unfolding ctl_remove
removed-same s i h =
    let slot = slot_at s i in
    let gone = record slot { used = false } in
    ap (λ (x : CtlSlot). x.used)
      (get_or-map (moved slot.offset slot.len) (set s.ctl i gone) i no_slot no_slot refl
        ∙ ap (moved slot.offset slot.len) (get_or-set_same s.ctl i gone no_slot h))

removed-other :
    (s : Server) (i j : ℕ)
    → i ≢ j
    → slot_at (ctl_remove s i (slot_at s i)) j
      ≡ moved (slot_at s i).offset (slot_at s i).len (slot_at s j)
unfolding ctl_remove
removed-other s i j h =
    let slot = slot_at s i in
    let gone = record slot { used = false } in
    get_or-map (moved slot.offset slot.len) (set s.ctl i gone) j no_slot no_slot refl
    ∙ ap (moved slot.offset slot.len) (get_or-set_other s.ctl i j gone no_slot h)

-- A slot in use after the removal is another one, and was in use.
still_used :
    (s : Server) (i j : ℕ)
    → i < length s.ctl
    → (slot_at (ctl_remove s i (slot_at s i)) j).used ≡ true
    → (i ≢ j) × ((slot_at s j).used ≡ true)
still_used s i j h u =
    let other : i ≢ j = λ e. true≢false (
      sym u
      ∙ ap (λ k. (slot_at (ctl_remove s i (slot_at s i)) k).used) (sym e)
      ∙ removed-same s i h) in
    (
      other,
      sym (moved-used (slot_at s i).offset (slot_at s i).len (slot_at s j))
          ∙ ap (λ (x : CtlSlot). x.used) (sym (removed-other s i j other))
          ∙ u,
    )

-- Where another slot in use lies after the removal.
removed-offset :
    (s : Server) (i j : ℕ)
    → i ≢ j
    → (slot_at s j).used ≡ true
    → (slot_at (ctl_remove s i (slot_at s i)) j).offset
      ≡ shifted (slot_at s i).offset (slot_at s i).len (slot_at s j).offset
removed-offset s i j other v =
    ap (λ (x : CtlSlot). x.offset) (removed-other s i j other)
    ∙ moved-offset (slot_at s i).offset (slot_at s i).len (slot_at s j) v

removed-len :
    (s : Server) (i j : ℕ)
    → i ≢ j
    → (slot_at (ctl_remove s i (slot_at s i)) j).len ≡ (slot_at s j).len
removed-len s i j other =
    ap (λ (x : CtlSlot). x.len) (removed-other s i j other)
    ∙ moved-len (slot_at s i).offset (slot_at s i).len (slot_at s j)

removed-payload :
    (s : Server) (i j : ℕ)
    → IsControl s
    → (slot_at s i).used ≡ true
    → i ≢ j
    → (slot_at s j).used ≡ true
    → let t = ctl_remove s i (slot_at s i) in
      payload_of t (slot_at t j) ≡ payload_of s (slot_at s j)
unfolding ctl_remove
removed-payload s i j w u other v =
    let a = slot_at s i in
    let b = slot_at s j in
    ap₂ (λ o n. slice (ctl_remove s i a).ctl_payload o n) (removed-offset s i j other v)
      (removed-len s i j other)
    ∙ slice-shifted s.ctl_payload a.offset a.len s.ctl_used b.offset b.len
        (w.separate i j other u v) (w.inside i u) (w.inside j v) (omega (arith, w.size, w.room))

removed-Apart :
    (s : Server) (i j k : ℕ)
    → IsControl s
    → (slot_at s i).used ≡ true
    → i ≢ j
    → i ≢ k
    → j ≢ k
    → (slot_at s j).used ≡ true
    → (slot_at s k).used ≡ true
    → let t = ctl_remove s i (slot_at s i) in Apart (slot_at t j) (slot_at t k)
removed-Apart s i j k w u ij ik jk v x =
    let a = slot_at s i in
    let b = slot_at s j in
    let c = slot_at s k in
    let t = ctl_remove s i a in
    ap₂ (λ o n. apart o n (slot_at t k).offset (slot_at t k).len) (removed-offset s i j ij v)
      (removed-len s i j ij)
    ∙ ap₂ (λ o n. apart (shifted a.offset a.len b.offset) b.len o n) (removed-offset s i k ik x)
        (removed-len s i k ik)
    ∙ apart-shifted a.offset a.len b.offset b.len c.offset c.len (w.separate i j ij u v)
        (w.separate i k ik u x) (w.separate j k jk v x)

removed-inside :
    (s : Server) (i j : ℕ)
    → IsControl s
    → (slot_at s i).used ≡ true
    → i ≢ j
    → (slot_at s j).used ≡ true
    → let t = ctl_remove s i (slot_at s i) in
      (slot_at t j).offset + (slot_at t j).len ≤ s.ctl_used - (slot_at s i).len
removed-inside s i j w u other v =
    let a = slot_at s i in
    let b = slot_at s j in
    let small =
      shifted-inside a.offset a.len b.offset b.len s.ctl_used (w.separate i j other u v)
        (w.inside i u) (w.inside j v) in
    subst (λ m. m ≤ s.ctl_used - a.len)
      (sym (ap₂ (λ o n. o + n) (removed-offset s i j other v) (removed-len s i j other))) small

moved-weight : (o n : ℕ) (a : CtlSlot) → weight (moved o n a) ≡ weight a
moved-weight o n a = ap₂ (λ b l. if b then l else 0) (moved-used o n a) (moved-len o n a)

total-moved : (o n : ℕ) (slots : List CtlSlot) → total (map (moved o n) slots) ≡ total slots
total-moved o n [] = refl
total-moved o n (x ∷ xs) = ap₂ (λ a b. a + b) (moved-weight o n x) (total-moved o n xs)

removed-tight :
    (s : Server) (i : ℕ)
    → IsControl s
    → i < length s.ctl
    → (slot_at s i).used ≡ true
    → let t = ctl_remove s i (slot_at s i) in
      (t.ctl_used + (slot_at s i).len ≡ s.ctl_used) × (t.ctl_used ≡ total t.ctl)
unfolding ctl_remove
removed-tight s i w h u =
    let a = slot_at s i in
    let gone = record a { used = false } in
    let within = w.inside i u in
    let same = total-moved a.offset a.len (set s.ctl i gone) in
    let freed = total-set s.ctl i gone h in
    let heavy : weight a ≡ a.len = ap (λ b. if b then a.len else 0) u in
    (omega (arith, within), omega (arith, within, same, freed, heavy, w.tight))

removed-payloads :
    (s : Server) (i : ℕ)
    → IsControl s
    → i < length s.ctl
    → (slot_at s i).used ≡ true
    → payloads (ctl_remove s i (slot_at s i)) ≡ set (payloads s) i none
removed-payloads s i w h u =
    let a = slot_at s i in
    let t = ctl_remove s i a in
    let gone = record a { used = false } in
    let size : length t.ctl ≡ length s.ctl =
      unfold ctl_remove in
      (length-map (moved a.offset a.len) (set s.ctl i gone) ∙ length-set s.ctl i gone) in
    payloads-set s t i none h size (entry_free t (slot_at t i) (removed-same s i h)) (λ j other.
      let kept : (slot_at t j).used ≡ (slot_at s j).used =
        ap (λ (x : CtlSlot). x.used) (removed-other s i j other)
        ∙ moved-used a.offset a.len (slot_at s j) in
      elim (Bool-cases (slot_at s j).used) [
        | inl v ↦
            entry_used t (slot_at t j) (kept ∙ v)
            ∙ ap some (removed-payload s i j w u other v)
            ∙ sym (entry_used s (slot_at s j) v)
        | inr v ↦ entry_free t (slot_at t j) (kept ∙ v) ∙ sym (entry_free s (slot_at s j) v)
      ])

ctl_remove-layout :
    (s : Server) (i : ℕ)
    → IsControl s
    → i < length s.ctl
    → (slot_at s i).used ≡ true
    → IsControl (ctl_remove s i (slot_at s i))
unfolding ctl_remove
ctl_remove-layout s i w h u =
    let a = slot_at s i in
    let within = w.inside i u in
    let rest = s.ctl_used - a.offset - a.len in
    let moved_down : length (slice s.ctl_payload (a.offset + a.len) rest) ≡ rest =
      length-slice s.ctl_payload (a.offset + a.len) rest (omega (arith, within, w.size, w.room)) in
    record {
      size =
          length-copy_into s.ctl_payload a.offset (slice s.ctl_payload (a.offset + a.len) rest)
            (omega (arith, moved_down, within, w.size, w.room))
          ∙ w.size;
      room = omega (arith, w.room);
      tight = (removed-tight s i w h u).1;
      inside = λ j v. let (other, x) = still_used s i j h v in removed-inside s i j w u other x;
      separate = λ j k jk v x.
          let (ij, v') = still_used s i j h v in
          let (ik, x') = still_used s i k h x in removed-Apart s i j k w u ij ik jk v' x';
    }

-- `ctl_pop`, once the frame of a slot in use is in the output ring, frees the slot and takes as many
-- bytes as its payload has from the part in use of the buffer that all slots share: every other slot
-- keeps its payload, and the payloads stay apart and fill the part in use.
pub ctl_remove-IsControl :
    (s : Server) (i : ℕ)
    → IsControl s
    → i < length s.ctl
    → (slot_at s i).used ≡ true
    → let t = ctl_remove s i (slot_at s i) in
      IsControl t
      × (payloads t ≡ set (payloads s) i none)
      × (t.ctl_used + (slot_at s i).len ≡ s.ctl_used)
ctl_remove-IsControl s i w h u =
    (ctl_remove-layout s i w h u, removed-payloads s i w h u, (removed-tight s i w h u).0)
