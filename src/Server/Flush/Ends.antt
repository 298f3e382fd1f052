-- ===== src/Server/Flush/Ends.antt =====
-- The loop of `rbp_server_flush_output` of firmware/product/rbp_server.c ends by itself.
use mi_remote_usb_bridge.Base.{
  ℕ, zero, suc, ◌+◌, ◌-◌, ◌≤◌, ◌<◌, ◌≡◌, refl, ap, ◌∙◌, arith, inl, inr, true, length, Bool-cases,
}
use mathlib.Core.Path.{subst}
use mi_remote_usb_bridge.Server.Flush.{next_turn, take_turn, flush_loop, flush_fuel}
use mi_remote_usb_bridge.Server.State.{Server, Env, ctl_slots}
use mi_remote_usb_bridge.Server.Flush.Waiting.{waiting, used_count-length}
use mi_remote_usb_bridge.Server.Flush.Takes.{Takes, take_turn-Takes}

flush_loop_enough :
    (fuel extra : ℕ) (e : Env) (s : Server) (ctl_sent : ℕ)
    → waiting s < fuel
    → ((flush_loop fuel e s ctl_sent).1 ≡ true)
      × (flush_loop (fuel + extra) e s ctl_sent ≡ flush_loop fuel e s ctl_sent)
unfolding flush_loop
flush_loop_enough zero extra e s ctl_sent h = absurd (omega (arith, h))
flush_loop_enough (suc fuel) extra e s ctl_sent h =
    let r = take_turn e (next_turn s ctl_sent) s ctl_sent in
    let takes = take_turn-Takes e (next_turn s ctl_sent) s ctl_sent in
    let k : suc fuel + extra ≡ suc (fuel + extra) = omega arith in
    elim (Bool-cases r.1) [
      | inl ok ↦
          let fewer : waiting r.0 < waiting s = subst (λ b. Takes s (r.0, b)) ok takes in
          rw (k, ok) (flush_loop_enough fuel extra e r.0 r.2 (omega (arith, fewer, h)))
      | inr stop ↦ rw (k, stop) (refl, refl)
    ]

-- The scheduler's loop, with as many slots as the control queue has, reaches one of its breaks within
-- the fuel, whatever the sink and the backend do, and a greater number of rounds gives the same
-- state.
pub flush_loop_ends :
    (e : Env) (s : Server) (ctl_sent fuel : ℕ)
    → length s.ctl ≡ ctl_slots
    → flush_fuel s ≤ fuel
    → ((flush_loop fuel e s ctl_sent).1 ≡ true)
      × (flush_loop fuel e s ctl_sent ≡ flush_loop (flush_fuel s) e s ctl_sent)
flush_loop_ends e s ctl_sent fuel slots h =
    let k : fuel ≡ flush_fuel s + (fuel - flush_fuel s) = omega (arith, h) in
    let few : waiting s < flush_fuel s = omega (arith, used_count-length s.ctl, slots) in
    let ends = flush_loop_enough (flush_fuel s) (fuel - flush_fuel s) e s ctl_sent few in
    let same = ap (λ m. flush_loop m e s ctl_sent) k ∙ ends.1 in (ap (λ p. p.1) same ∙ ends.0, same)
