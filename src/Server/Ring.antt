-- ===== src/Server/Ring.antt =====
-- The byte rings: `ring_write` and `audio_read` of firmware/product/rbp_server.c. The output ring
-- and the audio pool have the same size.
pub mod Contents
pub mod Write
use mi_remote_usb_bridge.Base.{
  ℕ, ◌+◌, ◌-◌, ◌%◌, List, [], ◌++◌, Bool, true, false, ltb, leb, length, take, drop, if◌then◌else◌,
}

-- `OUT_RING_SIZE` and `AUDIO_POOL_SIZE` with their defaults; firmware/Makefile sets 768 and 960 for the
-- board.
abbrev pub out_ring_size : ℕ
out_ring_size = 2048

abbrev pub audio_pool_size : ℕ
audio_pool_size = 2048

-- `memcpy(ring + at, bytes, length bytes)`
unfoldable pub copy_into : List ℕ → ℕ → List ℕ → List ℕ
copy_into ring at bytes = take at ring ++ (bytes ++ drop (at + length bytes) ring)

-- A ring's bytes, and its variables `head` and `len`.
pub record Ring : Type 0 where
  pub buf : List ℕ
  pub head : ℕ
  pub len : ℕ

-- `if (tail >= cap) tail -= cap;`
abbrev pub tail_of : ℕ → Ring → ℕ
tail_of cap r = if leb cap (r.head + r.len) then r.head + r.len - cap else r.head + r.len

-- `if (first > n) first = n;`
abbrev pub at_most : ℕ → ℕ → ℕ
at_most n first = if ltb n first then n else first

-- `ring_write`
unfoldable pub ring_write : ℕ → Ring → List ℕ → Ring × Bool
ring_write cap r bytes =
    let tail = tail_of cap r in
    let first = at_most (length bytes) (cap - tail) in
    let near = copy_into r.buf tail (take first bytes) in
    let far = if ltb first (length bytes) then copy_into near 0 (drop first bytes) else near in
    if ltb (cap - r.len) (length bytes)
    then (r, false)
    else (record r { buf = far; len = r.len + length bytes }, true)

-- `audio_read`: `len` bytes from `offset` on.
unfoldable pub audio_read : Ring → ℕ → ℕ → List ℕ
audio_read r offset len =
    let pos = (r.head + offset) % audio_pool_size in
    let first = at_most len (audio_pool_size - pos) in
    let near = take first (drop pos r.buf) in
    if ltb first len then near ++ take (len - first) r.buf else near
