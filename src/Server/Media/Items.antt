-- ===== src/Server/Media/Items.antt =====
-- The media queue of firmware/product/rbp_server.c as a list of markers with their payloads.
use mi_remote_usb_bridge.Base.{
  ℕ, ◌+◌, ◌≤◌, ◌≡◌, refl, sym, ap, ◌∙◌, arith, inl, inr, List, [], ◌∷◌, ◌++◌, if◌then◌else◌, length,
  take, drop, All, take_at, drop_at, Bool-cases, length-take, length-drop,
}
use mathlib.Core.Path.{ap₂}
use mi_remote_usb_bridge.Server.Media.{leaves}
use mi_remote_usb_bridge.Server.State.{MediaMarker}

-- The queue as a list: each marker with its payload.
abbrev pub items_of : List MediaMarker → List ℕ → List (MediaMarker × List ℕ)
items_of [] bytes = []
items_of (m ∷ ms) bytes = (m, take m.len bytes) ∷ items_of ms (drop m.len bytes)

abbrev pub total : List MediaMarker → ℕ
total [] = 0
total (m ∷ ms) = m.len + total ms

-- The items that stay.
abbrev pub kept_items : ℕ → List (MediaMarker × List ℕ) → List (MediaMarker × List ℕ)
kept_items stream [] = []
kept_items stream ((m, payload) ∷ items) =
    if leaves stream m then kept_items stream items else (m, payload) ∷ kept_items stream items

abbrev pub markers_of : List (MediaMarker × List ℕ) → List MediaMarker
markers_of [] = []
markers_of ((m, payload) ∷ items) = m ∷ markers_of items

abbrev pub bytes_of : List (MediaMarker × List ℕ) → List ℕ
bytes_of [] = []
bytes_of ((m, payload) ∷ items) = payload ++ bytes_of items

-- Every payload has the length that its marker tells.
abbrev pub Fits : MediaMarker × List ℕ → Type 0
Fits (m, payload) = length payload ≡ m.len

pub items_of-Fits :
    (ms : List MediaMarker) (bytes : List ℕ)
    → total ms ≤ length bytes
    → All Fits (items_of ms bytes)
items_of-Fits [] bytes h = tt
items_of-Fits (m ∷ ms) bytes h = (
  omega (arith, length-take m.len bytes, h),
  items_of-Fits ms (drop m.len bytes) (omega (arith, length-drop m.len bytes, h)),
)

pub kept_items-Fits :
    (stream : ℕ) (items : List (MediaMarker × List ℕ))
    → All Fits items
    → All Fits (kept_items stream items)
kept_items-Fits stream [] h = tt
kept_items-Fits stream ((m, payload) ∷ items) (f, h) = elim (Bool-cases (leaves stream m)) [
  | inl e ↦ rw e (kept_items-Fits stream items h)
  | inr e ↦ rw e (f, kept_items-Fits stream items h)
]

-- Items whose payloads fit are read back from their markers and bytes.
pub items_of-bytes_of :
    (items : List (MediaMarker × List ℕ))
    → All Fits items
    → items_of (markers_of items) (bytes_of items) ≡ items
items_of-bytes_of [] h = refl
items_of-bytes_of ((m, payload) ∷ items) (f, h) =
    ap₂ (λ p l. (m, p) ∷ l) (take_at m.len payload (bytes_of items) (sym f))
      (ap (items_of (markers_of items)) (drop_at m.len payload (bytes_of items) (sym f))
        ∙ items_of-bytes_of items h)
