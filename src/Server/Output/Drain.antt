-- ===== src/Server/Output/Drain.antt =====
-- `out_drain` of firmware/product/rbp_server.c hands over what the output ring holds.
use mi_remote_usb_bridge.Base.{
  ℕ, zero, suc, ◌+◌, ◌-◌, ◌%◌, ◌≤◌, ◌<◌, ◌≡◌, refl, sym, ap, ◌∙◌, arith, inl, inr, List, [], ◌++◌,
  append_assoc, append-nil, true, false, ltb, ◌==◌, length, take, drop, get_or, Bool-cases, ge→ltb,
  ==→eq, ==→ne, length-take, length-drop,
}
use mathlib.Core.Path.{ap₂}
use mi_remote_usb_bridge.Server.Output.{chunk_size, chunk, sent_state, drain_loop, out_drain}
use mi_remote_usb_bridge.Server.Ring.{Ring, out_ring_size}
use mi_remote_usb_bridge.Server.Ring.Contents.{
  contents_from, contents, IsRing, contents_from_list, contents_from_split, contents_from_shift,
  get_or-take, get_or-drop,
}
use mi_remote_usb_bridge.Server.State.{Server, Env}

-- The documented promise of `cfg.out`: it accepts at most what it is offered.
abbrev pub OutAccepts : Env → Type 0
OutAccepts e = (s : Server) (bytes : List ℕ) → e.out s bytes ≤ length bytes

-- A chunk lies within the contents and before the end of the buffer.
chunk_size_bounds :
    (r : Ring) → IsRing r → (chunk_size r ≤ r.len) × (r.head + chunk_size r ≤ out_ring_size)
chunk_size_bounds r w =
    let hb = w.head_bound in let lb = w.len_bound in (ground arith, ground arith)

length-chunk : (r : Ring) → IsRing r → length (chunk r) ≡ chunk_size r
length-chunk r w =
    let b = chunk_size_bounds r w in
    omega
      (arith, length-take (chunk_size r) (drop r.head r.buf), length-drop r.head r.buf, w.size, b.1)

-- The ring after `n` bytes of the chunk have left.
abbrev advanced : Ring → ℕ → Ring
advanced r n = record r { head = (r.head + n) % out_ring_size; len = r.len - n }

contents-advanced :
    (r : Ring) (n : ℕ)
    → IsRing r
    → n ≤ chunk_size r
    → contents r ≡ take n (chunk r) ++ contents (advanced r n)
unfolding contents
contents-advanced r n w h =
    let b = chunk_size_bounds r w in
    let l : length (take n (chunk r)) ≡ n =
      omega (arith, length-take n (chunk r), length-chunk r w, h) in
    let k : r.len ≡ n + (r.len - n) = omega (arith, b.0, h) in
    let front : contents_from r.buf r.head 0 n ≡ take n (chunk r) =
      ap (λ m. contents_from r.buf r.head 0 m) (sym l)
      ∙ contents_from_list r.buf r.head 0 (take n (chunk r)) (λ j inside.
        let p : (r.head + (0 + j)) % out_ring_size ≡ r.head + j =
          omega (arith, inside, l, h, b.1) in
        ap (λ m. get_or r.buf m 0) p
        ∙ sym (get_or-drop r.head r.buf j 0)
        ∙ sym (get_or-take (chunk_size r) (drop r.head r.buf) j 0 (omega (arith, inside, l, h)))
        ∙ sym (get_or-take n (chunk r) j 0 (omega (arith, inside, l)))) in
    let rest : contents_from r.buf r.head (0 + n) (r.len - n)
        ≡ contents_from r.buf ((r.head + n) % out_ring_size) 0 (r.len - n) =
      ap (λ m. contents_from r.buf r.head m (r.len - n)) (omega arith)
      ∙ contents_from_shift r.buf r.head 0 n (r.len - n) in
    ap (λ m. contents_from r.buf r.head 0 m) k
    ∙ contents_from_split r.buf r.head 0 n (r.len - n)
    ∙ ap₂ (λ a c. a ++ c) front rest

advanced-IsRing : (r : Ring) (n : ℕ) → IsRing r → IsRing (advanced r n)
advanced-IsRing r n w =
    let lb = w.len_bound in
    record { size = w.size; head_bound = omega arith; len_bound = omega (arith, lb) }

-- What a run of the pump keeps: every byte is on the wire or in the ring, in order, the ring stays
-- in range, and nothing else of the server changes.
pub record Conserves (s t : Server) : Type 0 where
  pub bytes : t.wire ++ contents t.out ≡ s.wire ++ contents s.out
  pub ring : IsRing t.out
  pub rest : (record t { out = s.out; wire = s.wire }) ≡ s

sent_state-Conserves :
    (s : Server) (n : ℕ) → IsRing s.out → n ≤ chunk_size s.out → Conserves s (sent_state s n)
sent_state-Conserves s n w h = record {
  bytes =
      append_assoc s.wire (take n (chunk s.out)) (contents (advanced s.out n))
      ∙ ap (λ l. s.wire ++ l) (sym (contents-advanced s.out n w h));
  ring = advanced-IsRing s.out n w;
  rest = refl;
}

Conserves-trans : (s t u : Server) → Conserves s t → Conserves t u → Conserves s u
Conserves-trans s t u a b = record {
  bytes = b.bytes ∙ a.bytes;
  ring = b.ring;
  rest = ap (λ (x : Server). record x { out = s.out; wire = s.wire }) b.rest ∙ a.rest;
}

Conserves-refl : (s : Server) → IsRing s.out → Conserves s s
Conserves-refl s w = record { bytes = refl; ring = w; rest = refl }

drain_loop-Conserves :
    (fuel : ℕ) (e : Env) (s : Server)
    → OutAccepts e
    → IsRing s.out
    → Conserves s (drain_loop fuel e s).0
unfolding drain_loop
drain_loop-Conserves zero e s a w = Conserves-refl s w
drain_loop-Conserves (suc fuel) e s a w =
    let n = e.out s (chunk s.out) in
    let h : n ≤ chunk_size s.out = omega (arith, a s (chunk s.out), length-chunk s.out w) in
    let step = sent_state-Conserves s n w h in
    elim (Bool-cases (s.out.len == 0)) [
      | inl f ↦ rw f (Conserves-refl s w)
      | inr f ↦ elim (Bool-cases (n == 0)) [
        | inl g ↦ rw (f, g) (Conserves-refl s w)
        | inr g ↦ elim (Bool-cases (ltb n (chunk_size s.out))) [
          | inl k ↦ rw (f, g, k) step
          | inr k ↦
              rw (f, g, k)
                (Conserves-trans s (sent_state s n) (drain_loop fuel e (sent_state s n)).0 step
                  (drain_loop-Conserves fuel e (sent_state s n) a step.ring))
        ]
      ]
    ]

-- A run of the pump, whose sink accepts at most what it is offered: the bytes handed over and those
-- still in the ring are those of before in the same order, the ring stays in range, and nothing
-- else changes.
pub out_drain-Conserves :
    (e : Env) (s : Server) → OutAccepts e → IsRing s.out → Conserves s (out_drain e s)
unfolding out_drain
out_drain-Conserves e s a w = drain_loop-Conserves (suc s.out.len) e s a w

-- More rounds than there are bytes: the loop ends by itself, and further rounds change nothing.
drain_loop_ends :
    (fuel extra : ℕ) (e : Env) (s : Server)
    → OutAccepts e
    → IsRing s.out
    → s.out.len < fuel
    → ((drain_loop fuel e s).1 ≡ true) × (drain_loop (fuel + extra) e s ≡ drain_loop fuel e s)
unfolding drain_loop
drain_loop_ends zero extra e s a w h = absurd (omega (arith, h))
drain_loop_ends (suc fuel) extra e s a w h =
    let n = e.out s (chunk s.out) in
    let b = chunk_size_bounds s.out w in
    let m : n ≤ chunk_size s.out = omega (arith, a s (chunk s.out), length-chunk s.out w) in
    let k : suc fuel + extra ≡ suc (fuel + extra) = omega arith in
    elim (Bool-cases (s.out.len == 0)) [
      | inl f ↦ rw (k, f) (refl, refl)
      | inr f ↦ elim (Bool-cases (n == 0)) [
        | inl g ↦ rw (k, f, g) (refl, refl)
        | inr g ↦ elim (Bool-cases (ltb n (chunk_size s.out))) [
          | inl j ↦ rw (k, f, g, j) (refl, refl)
          | inr j ↦
              let some_sent = ==→ne n 0 g in
              let fewer : s.out.len - n < fuel = ground (arith, h, b.0, m, some_sent) in
              rw (k, f, g, j)
                (drain_loop_ends fuel extra e (sent_state s n) a (advanced-IsRing s.out n w) fewer)
        ]
      ]
    ]

-- With a sink that accepts at most what it is offered, the loop of the pump reaches one of its exits
-- within one round more than the ring has bytes, and a greater number of rounds gives the same state.
pub out_drain_ends :
    (e : Env) (s : Server) (fuel : ℕ)
    → OutAccepts e
    → IsRing s.out
    → s.out.len < fuel
    → ((drain_loop fuel e s).1 ≡ true) × ((drain_loop fuel e s).0 ≡ out_drain e s)
unfolding out_drain
out_drain_ends e s fuel a w h =
    let k : fuel ≡ suc s.out.len + (fuel - suc s.out.len) = omega (arith, h) in
    let ends = drain_loop_ends (suc s.out.len) (fuel - suc s.out.len) e s a w (omega arith) in
    let same : drain_loop fuel e s ≡ drain_loop (suc s.out.len) e s =
      ap (λ m. drain_loop m e s) k ∙ ends.1 in
    (ap (λ p. p.1) same ∙ ends.0, ap (λ p. p.0) same)

-- A sink that accepts all that it is offered.
abbrev pub TakesAll : Env → Type 0
TakesAll e = (s : Server) (bytes : List ℕ) → e.out s bytes ≡ length bytes

drain_loop-empties :
    (fuel : ℕ) (e : Env) (s : Server)
    → TakesAll e
    → IsRing s.out
    → s.out.len < fuel
    → (drain_loop fuel e s).0.out.len ≡ 0
unfolding drain_loop
drain_loop-empties zero e s a w h = absurd (omega (arith, h))
drain_loop-empties (suc fuel) e s a w h =
    let n = e.out s (chunk s.out) in
    let b = chunk_size_bounds s.out w in
    let whole : n ≡ chunk_size s.out = a s (chunk s.out) ∙ length-chunk s.out w in
    elim (Bool-cases (s.out.len == 0)) [
      | inl f ↦ rw f (==→eq s.out.len 0 f)
      | inr f ↦
          let left = ==→ne s.out.len 0 f in
          let hb = w.head_bound in
          let positive : 0 < chunk_size s.out = ground (arith, left, hb) in
          let g : (n == 0) ≡ false = ground (arith, whole, positive) in
          let j : ltb n (chunk_size s.out) ≡ false =
            ge→ltb n (chunk_size s.out) (omega (arith, whole)) in
          let fewer : s.out.len - n < fuel = omega (arith, h, b.0, whole, positive) in
          rw (f, g, j)
            (drain_loop-empties fuel e (sent_state s n) a (advanced-IsRing s.out n w) fewer)
    ]

no_contents : (r : Ring) → r.len ≡ 0 → contents r ≡ []
unfolding contents
no_contents r h = ap (λ n. contents_from r.buf r.head 0 n) h

-- A sink that accepts all that it is offered is handed, in one run of the pump, all that the ring
-- holds, in order, and the ring is empty then.
pub out_drain-contents :
    (e : Env) (s : Server)
    → TakesAll e
    → IsRing s.out
    → let t = out_drain e s in (t.wire ≡ s.wire ++ contents s.out) × (t.out.len ≡ 0)
unfolding out_drain
out_drain-contents e s a w =
    let t = out_drain e s in
    let accepts : OutAccepts e = λ x bytes. omega (arith, a x bytes) in
    let empty = drain_loop-empties (suc s.out.len) e s a w (omega arith) in
    (
      sym (append-nil t.wire)
          ∙ ap (λ l. t.wire ++ l) (sym (no_contents t.out empty))
          ∙ (drain_loop-Conserves (suc s.out.len) e s accepts w).bytes,
      empty,
    )
