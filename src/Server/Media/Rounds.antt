-- ===== src/Server/Media/Rounds.antt =====
-- One round of the loop of `media_discard_current` of firmware/product/rbp_server.c.
use mi_remote_usb_bridge.Base.{
  ℕ, suc, ◌+◌, ◌-◌, ◌%◌, ◌≤◌, ◌≡◌, refl, sym, ap, ◌∙◌, arith, List, [], ◌∷◌, ◌++◌, true, false, ltb,
  if◌then◌else◌, length, take, drop, set, length-set, take_at, drop_at, ge→ltb,
}
use mathlib.Core.Path.{ap₂}
use mi_remote_usb_bridge.Server.Media.{Compaction, marker_at, no_marker, leaves, compact_one}
use mi_remote_usb_bridge.Server.Ring.{Ring, audio_pool_size, out_ring_size, ring_write, audio_read}
use mi_remote_usb_bridge.Server.Ring.Contents.{
  contents_from, IsRing, contents_from_agree, contents_from_split, length-contents_from,
}
use mi_remote_usb_bridge.Server.Ring.Write.{written, written-fits, written-behind}
use mi_remote_usb_bridge.Server.Slots.{entries, entries-push, entries-set}
use mi_remote_usb_bridge.Server.State.{MediaMarker, media_depth}
use mi_remote_usb_bridge.Server.Media.Read.{audio_read-contents}
use mi_remote_usb_bridge.Server.Media.Items.{items_of, total}

-- The index of the `i`-th marker, and the items that the loop has still to read.
abbrev pub slot_of : ℕ → ℕ → ℕ
slot_of head i = (head + i) % media_depth

abbrev pub markers : List MediaMarker → ℕ → ℕ → ℕ → List MediaMarker
markers q head i n = entries no_marker (slot_of head) q i n

abbrev pub ahead : ℕ → Compaction → ℕ → ℕ → List (MediaMarker × List ℕ)
ahead head c i n =
    items_of (markers c.q head i n)
      (contents_from c.pool.buf c.pool.head c.read (total (markers c.q head i n)))

-- The loop reads behind what it has written, and the variables are in range.
pub record IsCompaction (head i n : ℕ) (c : Compaction) : Type 0 where
  pub ring : IsRing c.pool
  pub behind : c.pool.len ≤ c.read
  pub fits : c.read + total (markers c.q head i n) ≤ out_ring_size
  pub size : length c.q ≡ media_depth
  pub kept_bound : c.kept ≤ i
  pub room : i + n ≤ media_depth

-- The next item, and those behind it.
pub ahead_step :
    (head : ℕ) (c : Compaction) (i n : ℕ)
    → let m = marker_at c.q head i in
      ahead head c i (suc n)
      ≡ (m, contents_from c.pool.buf c.pool.head c.read m.len)
        ∷ items_of (markers c.q head (i + 1) n) (
            contents_from c.pool.buf c.pool.head
              (c.read + m.len)
              (total (markers c.q head (i + 1) n)))
ahead_step head c i n =
    let m = marker_at c.q head i in
    let ms = markers c.q head (i + 1) n in
    let b = c.pool.buf in
    let h = c.pool.head in
    let first = contents_from b h c.read m.len in
    let rest = contents_from b h (c.read + m.len) (total ms) in
    let l : m.len ≡ length first = sym (length-contents_from b h c.read m.len) in
    ap (λ l. (m, take m.len l) ∷ items_of ms (drop m.len l))
      (contents_from_split b h c.read m.len (total ms))
    ∙ ap₂ (λ p l. (m, p) ∷ items_of ms l) (take_at m.len first rest l) (drop_at m.len first rest l)

-- A marker that stays, with its payload.
abbrev pub keep_one : ℕ → MediaMarker → List ℕ → Compaction → Compaction
keep_one head m payload c = record {
  pool = record c.pool { buf = written c.pool payload; len = c.pool.len + length payload };
  q = set c.q (slot_of head c.kept) m;
  read = c.read + m.len;
  kept = c.kept + 1;
}

ring_write-written :
    (r : Ring) (bytes : List ℕ)
    → ltb (out_ring_size - r.len) (length bytes) ≡ false
    → (ring_write audio_pool_size r bytes).0
      ≡ record r { buf = written r bytes; len = r.len + length bytes }
unfolding ring_write
ring_write-written r bytes f = rw f refl

pub compact_one-keeps :
    (stream head : ℕ) (m : MediaMarker) (c : Compaction)
    → leaves stream m ≡ false
    → IsRing c.pool
    → c.pool.len + m.len ≤ out_ring_size
    → compact_one stream head m c
      ≡ keep_one head m (contents_from c.pool.buf c.pool.head c.read m.len) c
unfolding compact_one
compact_one-keeps stream head m c e w fits =
    let payload = contents_from c.pool.buf c.pool.head c.read m.len in
    let l : length payload ≡ m.len = length-contents_from c.pool.buf c.pool.head c.read m.len in
    let f : ltb (out_ring_size - c.pool.len) (length payload) ≡ false =
      ge→ltb (out_ring_size - c.pool.len) (length payload) (omega (arith, l, fits)) in
    let with_pool : Ring → Compaction = λ p. record {
      pool = p;
      q = set c.q (slot_of head c.kept) m;
      read = c.read + m.len;
      kept = c.kept + 1;
    } in
    let skipped = record c { read = c.read + m.len } in
    let read = audio_read c.pool c.read m.len in
    ap (λ b. if b then skipped else with_pool (ring_write audio_pool_size c.pool read).0) e
    ∙ ap (λ p. with_pool (ring_write audio_pool_size c.pool p).0)
        (audio_read-contents c.pool c.read m.len w (omega (arith, fits)))
    ∙ ap with_pool (ring_write-written c.pool payload f)

pub compact_one-skips :
    (stream head : ℕ) (m : MediaMarker) (c : Compaction)
    → leaves stream m ≡ true
    → compact_one stream head m c ≡ record c { read = c.read + m.len }
unfolding compact_one
compact_one-skips stream head m c e = rw e refl

-- The invariant after either round.
pub skip_IsCompaction :
    (head i n : ℕ) (c : Compaction)
    → IsCompaction head i (suc n) c
    → IsCompaction head (i + 1) n (record c { read = c.read + (marker_at c.q head i).len })
skip_IsCompaction head i n c w =
    let b = w.behind in
    let f = w.fits in
    let k = w.kept_bound in
    let r = w.room in
    record {
      ring = w.ring;
      behind = omega (arith, b);
      fits = omega (arith, f);
      size = w.size;
      kept_bound = omega (arith, k);
      room = omega (arith, r);
    }

module _ (head i n : ℕ) (c : Compaction) (w : IsCompaction head i (suc n) c) where
  abbrev pub next : MediaMarker
  next = marker_at c.q head i

  abbrev pub next_payload : List ℕ
  next_payload = contents_from c.pool.buf c.pool.head c.read (marker_at c.q head i).len

  length-next_payload : length next_payload ≡ next.len
  length-next_payload = length-contents_from c.pool.buf c.pool.head c.read next.len

  pub kept_room : c.pool.len + next.len ≤ out_ring_size
  kept_room = let b = w.behind in let f = w.fits in omega (arith, b, f)

  pub keep_room : ltb (out_ring_size - c.pool.len) (length next_payload) ≡ false
  keep_room =
      ge→ltb (out_ring_size - c.pool.len) (length next_payload)
        (omega (arith, length-next_payload, kept_room))

  keep_markers :
      markers (keep_one head next next_payload c).q head (i + 1) n ≡ markers c.q head (i + 1) n
  keep_markers =
      let k = w.kept_bound in
      let r = w.room in
      entries-set no_marker (slot_of head) c.q (i + 1) n (slot_of head c.kept) next
        (λ j low high same. omega (arith, k, r, low, high, same))

  pub kept_markers :
      markers (keep_one head next next_payload c).q head 0 (c.kept + 1)
      ≡ markers c.q head 0 c.kept ++ next ∷ []
  kept_markers =
      let k = w.kept_bound in
      let r = w.room in
      entries-push no_marker (slot_of head) c.q c.kept next (omega (arith, w.size))
        (λ j inside same. omega (arith, k, r, inside, same))

  pub keep_ahead :
      ahead head (keep_one head next next_payload c) (i + 1) n
      ≡ items_of (markers c.q head (i + 1) n) (
          contents_from c.pool.buf c.pool.head
            (c.read + next.len)
            (total (markers c.q head (i + 1) n)))
  keep_ahead =
      let ms = markers c.q head (i + 1) n in
      let b = w.behind in
      let f = w.fits in
      let l = length-next_payload in
      let room = kept_room in
      ap
        (λ q.
          items_of q
            (contents_from (written c.pool next_payload) c.pool.head (c.read + next.len) (total q)))
        keep_markers
      ∙ ap (items_of ms) (
          contents_from_agree c.pool.buf (written c.pool next_payload) c.pool.head
            (c.read + next.len) (total ms)
            (λ j low high.
              written-behind c.pool next_payload j w.ring (omega (arith, l, room))
                (omega (arith, l, low, b)) (omega (arith, high, f))))

  pub keep_IsCompaction : IsCompaction head (i + 1) n (keep_one head next next_payload c)
  keep_IsCompaction =
      let b = w.behind in
      let f = w.fits in
      let k = w.kept_bound in
      let r = w.room in
      let t = ap total keep_markers in
      record {
        ring = (written-fits c.pool next_payload w.ring keep_room).1;
        behind = omega (arith, b, length-next_payload);
        fits = omega (arith, f, t);
        size = length-set c.q (slot_of head c.kept) next ∙ w.size;
        kept_bound = omega (arith, k);
        room = omega (arith, r);
      }
