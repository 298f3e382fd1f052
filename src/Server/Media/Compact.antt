-- ===== src/Server/Media/Compact.antt =====
-- `media_discard_current` of firmware/product/rbp_server.c compacts the markers and the pool in
-- place, reading ahead of what it writes.
use mi_remote_usb_bridge.Base.{
  ℕ, zero, suc, ◌+◌, ◌≤◌, ◌≡◌, refl, sym, ap, ◌∙◌, arith, inl, inr, List, [], ◌∷◌, ◌++◌, append-nil,
  append_assoc, Bool, if◌then◌else◌, length, All, length-append, Bool-cases,
}
use mathlib.Core.Path.{ap₂, subst₂}
use mi_remote_usb_bridge.Server.Media.{
  Compaction, marker_at, leaves, compact_loop, media_discard_current,
}
use mi_remote_usb_bridge.Server.Ring.Contents.{contents_from, contents, IsRing, length-contents}
use mi_remote_usb_bridge.Server.Ring.Write.{written-fits}
use mi_remote_usb_bridge.Server.State.{Server, Media, MediaMarker, media_depth}
use mi_remote_usb_bridge.Server.Media.Items.{
  items_of, total, kept_items, markers_of, bytes_of, Fits, items_of-Fits, kept_items-Fits,
  items_of-bytes_of,
}
use mi_remote_usb_bridge.Server.Media.Rounds.{
  markers, ahead, IsCompaction, ahead_step, keep_one, compact_one-keeps, compact_one-skips,
  skip_IsCompaction, next, next_payload, kept_room, keep_room, kept_markers, keep_ahead,
  keep_IsCompaction,
}

-- What the loop leaves behind: the items `items` joined those kept before.
record Compacted (head : ℕ) (c c' : Compaction) (items : List (MediaMarker × List ℕ)) : Type 0 where
  marks : markers c'.q head 0 c'.kept ≡ markers c.q head 0 c.kept ++ markers_of items
  bytes : contents c'.pool ≡ contents c.pool ++ bytes_of items
  ring : IsRing c'.pool
  size : length c'.q ≡ media_depth
  kept_bound : c'.kept ≤ media_depth

Compacted-keep :
    (head i n : ℕ) (c c' : Compaction) (items : List (MediaMarker × List ℕ))
    → (w : IsCompaction head i (suc n) c)
    → Compacted head (keep_one head (next head i n c w) (next_payload head i n c w) c) c' items
    → Compacted head c c' ((next head i n c w, next_payload head i n c w) ∷ items)
Compacted-keep head i n c c' items w h = record {
  marks =
      h.marks
      ∙ ap (λ l. l ++ markers_of items) (kept_markers head i n c w)
      ∙ append_assoc (markers c.q head 0 c.kept) (next head i n c w ∷ []) (markers_of items);
  bytes =
      h.bytes
      ∙ ap (λ l. l ++ bytes_of items)
          (written-fits c.pool (next_payload head i n c w) w.ring (keep_room head i n c w)).0
      ∙ append_assoc (contents c.pool) (next_payload head i n c w) (bytes_of items);
  ring = h.ring;
  size = h.size;
  kept_bound = h.kept_bound;
}

Compacted-skip :
    (head n : ℕ) (c c' : Compaction) (items : List (MediaMarker × List ℕ))
    → Compacted head (record c { read = c.read + n }) c' items
    → Compacted head c c' items
Compacted-skip head n c c' items h = record {
  marks = h.marks;
  bytes = h.bytes;
  ring = h.ring;
  size = h.size;
  kept_bound = h.kept_bound;
}

compact_loop-Compacted :
    (stream head i n : ℕ) (c : Compaction)
    → IsCompaction head i n c
    → Compacted head c (compact_loop stream head i n c) (kept_items stream (ahead head c i n))
unfolding compact_loop
compact_loop-Compacted stream head i zero c w = record {
  marks = sym (append-nil (markers c.q head 0 c.kept));
  bytes = sym (append-nil (contents c.pool));
  ring = w.ring;
  size = w.size;
  kept_bound = let k = w.kept_bound in let r = w.room in omega (arith, k, r);
}
compact_loop-Compacted stream head i (suc n) c w =
    let m = marker_at c.q head i in
    let p = contents_from c.pool.buf c.pool.head c.read m.len in
    let items = items_of (markers c.q head (i + 1) n) (
      contents_from c.pool.buf c.pool.head (c.read + m.len) (total (markers c.q head (i + 1) n))) in
    let split = ap (kept_items stream) (sym (ahead_step head c i n)) in
    let chosen : Bool → List (MediaMarker × List ℕ) =
      λ b. if b then kept_items stream items else (m, p) ∷ kept_items stream items in
    elim (Bool-cases (leaves stream m)) [
      | inl e ↦
          let d = record c { read = c.read + m.len } in
          subst₂ (Compacted head c)
            (ap (compact_loop stream head (i + 1) n) (sym (compact_one-skips stream head m c e)))
            (ap chosen (sym e) ∙ split)
            (Compacted-skip head m.len c (compact_loop stream head (i + 1) n d)
              (kept_items stream items)
              (compact_loop-Compacted stream head (i + 1) n d (skip_IsCompaction head i n c w)))
      | inr e ↦
          let d = keep_one head m p c in
          subst₂ (Compacted head c)
            (ap (compact_loop stream head (i + 1) n)
              (sym (compact_one-keeps stream head m c e w.ring (kept_room head i n c w))))
            (ap (λ l. (m, p) ∷ kept_items stream l) (keep_ahead head i n c w)
              ∙ ap chosen (sym e)
              ∙ split)
            (Compacted-keep head i n c (compact_loop stream head (i + 1) n d)
              (kept_items stream (ahead head d (i + 1) n)) w
              (compact_loop-Compacted stream head (i + 1) n d (keep_IsCompaction head i n c w)))
    ]

-- The variables of the media queue are in range, and the markers tell the length of the pool.
pub record IsMedia (m : Media) : Type 0 where
  pub pool : IsRing m.pool
  pub size : length m.q ≡ media_depth
  pub count_bound : m.count ≤ media_depth
  pub whole : total (markers m.q m.head 0 m.count) ≡ m.pool.len

-- The media that waits, oldest first: each marker with its payload.
abbrev pub media_items : Media → List (MediaMarker × List ℕ)
media_items m = items_of (markers m.q m.head 0 m.count) (contents m.pool)

total-bytes_of :
    (items : List (MediaMarker × List ℕ))
    → All Fits items
    → total (markers_of items) ≡ length (bytes_of items)
total-bytes_of [] h = refl
total-bytes_of ((m, payload) ∷ items) (f, h) =
    omega (arith, f, total-bytes_of items h, length-append payload (bytes_of items))

-- The loop's variables at its start.
abbrev start_of : Media → Compaction
start_of m = record { pool = record m.pool { len = 0 }; q = m.q; read = 0; kept = 0 }

start_of-IsCompaction : (m : Media) → IsMedia m → IsCompaction m.head 0 m.count (start_of m)
start_of-IsCompaction m w =
    let p = w.pool in
    let lb = p.len_bound in
    let t = w.whole in
    let cb = w.count_bound in
    record {
      ring = record { size = p.size; head_bound = p.head_bound; len_bound = omega arith };
      behind = omega arith;
      fits = omega (arith, t, lb);
      size = w.size;
      kept_bound = omega arith;
      room = omega (arith, cb);
    }

-- What the run of the loop over all that waits leaves behind.
kept_all :
    (m : Media) (stream : ℕ)
    → IsMedia m
    → let c = compact_loop stream m.head 0 m.count (start_of m) in
      let items = kept_items stream (media_items m) in
      (markers c.q m.head 0 c.kept ≡ markers_of items)
      × (contents c.pool ≡ bytes_of items)
      × IsRing c.pool
      × (length c.q ≡ media_depth)
      × (c.kept ≤ media_depth)
unfolding contents
kept_all m stream w =
    let h =
      compact_loop-Compacted stream m.head 0 m.count (start_of m) (start_of-IsCompaction m w) in
    let ms = markers m.q m.head 0 m.count in
    let all : kept_items stream (ahead m.head (start_of m) 0 m.count)
        ≡ kept_items stream (media_items m) =
      ap (λ k. kept_items stream (items_of ms (contents_from m.pool.buf m.pool.head 0 k)))
        w.whole in
    (h.marks ∙ ap markers_of all, h.bytes ∙ ap bytes_of all, h.ring, h.size, h.kept_bound)

media_items-Fits : (m : Media) → IsMedia m → All Fits (media_items m)
media_items-Fits m w =
    let l = length-contents m.pool in
    let t = w.whole in
    items_of-Fits (markers m.q m.head 0 m.count) (contents m.pool) (omega (arith, l, t))

-- The compaction in place drops, of the media that waits, exactly the items of the current stream
-- but for its start; the others keep their order and their payloads, and the queue stays in range.
pub media_discard_current-kept_items :
    (s : Server)
    → IsMedia s.media
    → let t = media_discard_current s in
      (media_items t.media ≡ kept_items s.stream.id (media_items s.media)) × IsMedia t.media
unfolding media_discard_current
media_discard_current-kept_items s w =
    let c = compact_loop s.stream.id s.media.head 0 s.media.count (start_of s.media) in
    let items = kept_items s.stream.id (media_items s.media) in
    let fits = kept_items-Fits s.stream.id (media_items s.media) (media_items-Fits s.media w) in
    let (marks, bytes, ring, size, count) = kept_all s.media s.stream.id w in
    (
      ap₂ (λ ms l. items_of ms l) marks bytes ∙ items_of-bytes_of items fits,
      record {
        pool = ring;
        size = size;
        count_bound = count;
        whole =
            ap total marks
            ∙ total-bytes_of items fits
            ∙ ap length (sym bytes)
            ∙ length-contents c.pool;
      },
    )
