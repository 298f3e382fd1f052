-- ===== src/Atvv/Begin.antt =====
-- What `atvv_parse_caps` accepts.
use mi_remote_usb_bridge.Base.{
  or_cases, or_first, ℕ, ◌<◌, ◌≤◌, ◌≡◌, sym, ap, ◌∙◌, arith, List, Bool, false, ◌||◌, ltb, ltb→ge,
  ◌==◌, ==→ne, if◌then◌else◌, Option, none, some, inl, inr, Bool-cases,
}
use mathlib.Core.Path.{subst}
use mathlib.Core.Option.{none-ne-some, some-injective}
use mi_remote_usb_bridge.Atvv.Capabilities.{
  Caps, parse_caps, is_not_caps, is_bad_caps, caps_of, max_frame, big16,
}

-- A frame that the engine can count.
SizeOk : ℕ → Type 0
SizeOk n = (0 < n) × (n ≤ max_frame)

is_bad_caps-SizeOk : (d : List ℕ) → is_bad_caps d ≡ false → SizeOk (big16 d 5)
unfolding SizeOk
is_bad_caps-SizeOk d e =
    let sizes = or_first _ _ (or_first _ _ e) in
    let large : ltb max_frame (big16 d 5) ≡ false = (or_cases _ _ sizes).1 in
    let zero : (big16 d 5 == 0) ≡ false = (or_cases _ _ (or_first _ _ sizes)).1 in
    (omega (arith, ==→ne (big16 d 5) 0 zero), ltb→ge max_frame (big16 d 5) large)

-- Capabilities that are accepted name a frame size from 1 to 512.
pub parse_caps_bounds :
    (d : List ℕ) (c : Caps)
    → parse_caps d ≡ some c
    → (0 < c.frame_size) × (c.frame_size ≤ max_frame)
unfolding parse_caps SizeOk
parse_caps_bounds d c e =
    let outcome : Bool → Option Caps = λ b. if b then none else some (caps_of d) in
    elim (Bool-cases (is_not_caps d || is_bad_caps d)) [
      | inl b ↦ absurd (none-ne-some c (sym (ap outcome b) ∙ e))
      | inr b ↦
          subst (λ c. SizeOk c.frame_size) (some-injective (caps_of d) c (sym (ap outcome b) ∙ e))
            (is_bad_caps-SizeOk d (or_cases (is_not_caps d) (is_bad_caps d) b).1)
    ]
