-- ===== src/Server/Flush/Waiting.antt =====
-- The entries that wait in the three queues of firmware/product/rbp_server.c.
use mi_remote_usb_bridge.Base.{
  ℕ, suc, ◌+◌, ◌-◌, ◌^◌, ◌≤◌, ◌≡◌, refl, sym, ap, ◌∙◌, arith, inl, inr, List, [], ◌∷◌, Bool, true,
  false, ◌&&◌, ◌||◌, ltb, ◌==◌, Option, none, some, if◌then◌else◌, length, set, map, Bool-cases,
}
use mathlib.Core.Bool.{true≢false}
use mathlib.Core.Path.{ap₂, subst}
use mi_remote_usb_bridge.Server.Control.{moved, find_order}
use mi_remote_usb_bridge.Server.Control.Remove.{moved-used}
use mi_remote_usb_bridge.Server.Output.{session_teardown, out_try_frame}
use mi_remote_usb_bridge.Server.Ring.{out_ring_size, ring_write}
use mi_remote_usb_bridge.Server.State.{Server, Env, CtlSlot}
use mi_remote_usb_bridge.Wire.Frame.{frame_encode}
use mi_remote_usb_bridge.Wire.Header.{Header}

abbrev pub one : Bool → ℕ
one true = 1
one false = 0

-- The number of slots in use, and of all entries that wait.
abbrev pub used_count : List CtlSlot → ℕ
used_count [] = 0
used_count (slot ∷ slots) = one slot.used + used_count slots

abbrev pub waiting : Server → ℕ
waiting s = used_count s.ctl + s.keys.count + s.media.count

one_bound : (b : Bool) → one b ≤ 1
one_bound true = omega arith
one_bound false = omega arith

pub used_count-length : (slots : List CtlSlot) → used_count slots ≤ length slots
used_count-length [] = omega arith
used_count-length (slot ∷ slots) = omega (arith, used_count-length slots, one_bound slot.used)

both_left : (a b : Bool) → a && b ≡ true → a ≡ true
both_left true b h = refl
both_left false b h = absurd (true≢false (sym h))

-- The chain of tests of `out_try_frame` ends in success only at its last branch.
sent_last :
    (a b c d : Bool) (x y z : Server)
    → let p : Server × Bool =
        if a
        then (x, false)
        else if b
        then (y, false)
        else if c
        then (y, false)
        else if d
        then (y, false)
        else (z, true) in
      p.1 ≡ true → p.0 ≡ z
sent_last true b c d x y z h = absurd (true≢false (sym h))
sent_last false true c d x y z h = absurd (true≢false (sym h))
sent_last false false true d x y z h = absurd (true≢false (sym h))
sent_last false false false true x y z h = absurd (true≢false (sym h))
sent_last false false false false x y z h = refl

-- The queues are as they were when a frame has entered the output ring.
pub record SameQueues (s t : Server) : Type 0 where
  pub ctl : t.ctl ≡ s.ctl
  pub keys : t.keys ≡ s.keys
  pub media : t.media ≡ s.media

pub out_try_frame-SameQueues :
    (e : Env) (s : Server) (h : Header) (payload : List ℕ)
    → (out_try_frame e s h payload).1 ≡ true
    → SameQueues s (out_try_frame e s h payload).0
unfolding out_try_frame
out_try_frame-SameQueues e s h payload sent =
    let seq = s.session.txseq.next_tx_seq in
    let f = frame_encode h s.session.txseq (some payload) (length payload) in
    let z : Server = record s {
      out = (ring_write out_ring_size s.out f.0).0;
      session = record s.session { txseq = f.1 };
    } in
    let same : SameQueues s z = record { ctl = refl; keys = refl; media = refl } in
    subst (SameQueues s)
      (sym (
        sent_last ((seq == 0) || (seq == 2 ^ 32 - 1))
          (ltb (out_ring_size - s.out.len) (32 + length payload + 6)) (length f.0 == 0)
          (ltb (out_ring_size - s.out.len) (length f.0)) (session_teardown e s) s z sent))
      same

-- A slot in use is freed.
pub used_count-map :
    (o n : ℕ) (slots : List CtlSlot) → used_count (map (moved o n) slots) ≡ used_count slots
used_count-map o n [] = refl
used_count-map o n (slot ∷ slots) =
    ap₂ (λ a b. one a + b) (moved-used o n slot) (used_count-map o n slots)

-- What the search for an order, from index `i` on, finds: a slot in use, at its index.
abbrev pub Found : List CtlSlot → ℕ → Option (ℕ × CtlSlot) → Type 0
Found slots i none = Unit
Found slots i (some (k, slot)) =
    (i ≤ k)
    × ((gone : CtlSlot)
        → gone.used ≡ false
        → used_count (set slots (k - i) gone) + 1 ≡ used_count slots)

Found-here :
    (x : CtlSlot) (xs : List CtlSlot) (i : ℕ) → x.used ≡ true → Found (x ∷ xs) i (some (i, x))
Found-here x xs i u = (
  omega arith,
  λ gone g.
      let at : i - i ≡ 0 = omega arith in
      let a : one gone.used ≡ 0 = ap one g in
      let b : one x.used ≡ 1 = ap one u in
      ap (λ m. used_count (set (x ∷ xs) m gone) + 1) at ∙ omega (arith, a, b),
)

Found-later :
    (x : CtlSlot) (xs : List CtlSlot) (i : ℕ) (found : Option (ℕ × CtlSlot))
    → Found xs (i + 1) found
    → Found (x ∷ xs) i found
Found-later x xs i none h = tt
Found-later x xs i (some (k, slot)) (low, h) = (
  omega (arith, low),
  λ gone g.
      let at : k - i ≡ suc (k - (i + 1)) = omega (arith, low) in
      ap (λ m. used_count (set (x ∷ xs) m gone) + 1) at ∙ omega (arith, h gone g),
)

pub find_order-Found :
    (order i : ℕ) (slots : List CtlSlot) → Found slots i (find_order order i slots)
unfolding find_order
find_order-Found order i [] = tt
find_order-Found order i (x ∷ xs) = elim (Bool-cases (x.used && (x.order == order))) [
  | inl e ↦ rw e (Found-here x xs i (both_left x.used (x.order == order) e))
  | inr e ↦
      rw e (Found-later x xs i (find_order order (i + 1) xs) (find_order-Found order (i + 1) xs))
]
