-- ===== src/Server/Flush.antt =====
-- The output pump: `rbp_server_flush_output` of firmware/product/rbp_server.c.
pub mod Waiting
pub mod Takes
pub mod Ends
use mi_remote_usb_bridge.Base.{
  ℕ, zero, suc, ◌+◌, ◌%◌, Bool, true, false, not, ◌&&◌, ◌||◌, ltb, leb, ◌==◌, if◌then◌else◌, Option,
  none, some,
}
use mi_remote_usb_bridge.Server.Control.{ctl_peek_order, ctl_pop}
use mi_remote_usb_bridge.Server.KeyQueue.{key_front, keys_flush_one}
use mi_remote_usb_bridge.Server.Media.{marker_at, media_flush_one}
use mi_remote_usb_bridge.Server.Output.{out_drain}
use mi_remote_usb_bridge.Server.State.{Server, Env, ctl_slots, ctl_flush_burst}

-- What a round of the loop sends next; `no_turn` is the `break` on empty queues.
pub data Turn : Type 0 where
  no_turn ctl_turn key_turn media_turn : Turn

-- `has_key`, `has_media`, `key_o` and `media_o`
abbrev pub has_key : Server → Bool
has_key s = ltb 0 s.keys.count

abbrev pub has_media : Server → Bool
has_media s = ltb 0 s.media.count

abbrev pub key_order : Server → ℕ
key_order s = if has_key s then (key_front s).order else 0

abbrev pub media_order : Server → ℕ
media_order s = if has_media s then (marker_at s.media.q s.media.head 0).order else 0

-- The head with the least order, with its order: first a key against the control queue, then media
-- against the winner.
abbrev pub first_of : Option ℕ → Turn × ℕ
first_of none = (no_turn, 0)
first_of (some order) = (ctl_turn, order)

abbrev pub beats : Bool → ℕ → ℕ → Bool
beats has order least = has && ((least == 0) || ltb order least)

unfoldable pub least_head : Server → Turn × ℕ
unfolding ctl_peek_order
least_head s =
    let (turn, least) = first_of (ctl_peek_order s) in
    let second : Turn × ℕ =
      if beats (has_key s) (key_order s) least then (key_turn, key_order s) else (turn, least) in
    if beats (has_media s) (media_order s) second.1 then (media_turn, media_order s) else second

abbrev pub is_ctl_turn : Turn → Bool
is_ctl_turn ctl_turn = true
is_ctl_turn _ = false

-- The turn, with the fairness cap on a burst of control frames.
unfoldable pub next_turn : Server → ℕ → Turn
unfolding least_head
next_turn s ctl_sent =
    let turn = (least_head s).0 in
    if is_ctl_turn turn && (leb ctl_flush_burst ctl_sent && (has_key s || has_media s))
    then if has_key s && (not (has_media s) || leb (key_order s) (media_order s))
      then key_turn
      else media_turn
    else turn

-- What the turn does: the state, `ok`, and `ctl_sent`.
unfoldable pub take_turn : Env → Turn → Server → ℕ → Server × Bool × ℕ
unfolding ctl_pop keys_flush_one media_flush_one
take_turn e no_turn s ctl_sent = (s, false, ctl_sent)
take_turn e ctl_turn s ctl_sent = let (t, ok) = ctl_pop e s in (t, ok, (ctl_sent + 1) % 256)
take_turn e key_turn s ctl_sent = let (t, ok) = keys_flush_one e s in (t, ok, ctl_sent)
take_turn e media_turn s ctl_sent = let (t, ok) = media_flush_one e s in (t, ok, ctl_sent)

-- The loop: the state after it, and whether it ended by itself, by a `break`.
unfoldable pub flush_loop : ℕ → Env → Server → ℕ → Server × Bool
unfolding next_turn take_turn
flush_loop zero e s ctl_sent = (s, false)
flush_loop (suc fuel) e s ctl_sent =
    let (t, ok, ctl_sent') = take_turn e (next_turn s ctl_sent) s ctl_sent in
    let rest = flush_loop fuel e t ctl_sent' in if ok then rest else (t, true)

-- Every round but the last takes an entry from a queue.
abbrev pub flush_fuel : Server → ℕ
flush_fuel s = ctl_slots + s.keys.count + s.media.count + 1

-- `rbp_server_flush_output`
unfoldable pub flush_output : Env → Server → Server
unfolding out_drain flush_loop
flush_output e s = let t = out_drain e s in out_drain e (flush_loop (flush_fuel t) e t 0).0
