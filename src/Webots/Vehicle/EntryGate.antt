-- ===== src/Webots/Vehicle/EntryGate.antt =====
-- The wait of the simulated car at the entry barrier comes to an end.
use mathlib.Core.Path.{subst⁻¹}
use car_pay_in.Base.{
  Bool-cases, List, [], ap, arith, false, inl, inr, length, nat_beq, suc, true, zero, ℕ, ◌∙◌, ◌∷◌,
  ◌≡◌, ◌≤◌,
}
use car_pay_in.Webots.Vehicle.{
  Clock, IsClock, Phase, Round, Vehicle, advance_state, approaching_entry, approaching_exit,
  at_entry_gate, at_exit_gate, at_parking, done, entering, entry_gate, exiting, force_entry,
  in_phase, parking, phase_at, poll_entry, send_entry, step, to_exit, uturn,
}
use car_pay_in.Webots.Vehicle.Order.{
  entry_gate-Waits, exit_gate-Moves, follow-Moves, run, wait_paid-Moves,
}

-- a time after a number of rounds
abbrev pub after_rounds : (K : Clock) → ℕ → K.Time → K.Time
after_rounds K zero t = t
after_rounds K (suc n) t = after_rounds K n (K.add_dt t)

module _ {K : Clock} (C : IsClock K) where
  -- a round that stays at the barrier
  record Stays (v w : Vehicle K) : Type 0 where
    time : w.state_idx ≡ v.state_idx → w.entry_wait_t ≡ K.add_dt v.entry_wait_t
    early : w.state_idx ≡ v.state_idx → K.entry_over w.entry_wait_t ≡ false

  entry_gate-Stays : (r : Round) (v : Vehicle K) → Stays v (entry_gate K r v)
  unfolding entry_gate send_entry poll_entry force_entry advance_state
  entry_gate-Stays r v = record {
    time = ground (arith, C.entry_starts);
    early = ground (arith, C.entry_starts);
  }

  -- no round goes back
  in_phase-least :
      (r : Round) (p : Phase) (v : Vehicle K) → v.state_idx ≤ (in_phase K r p v).state_idx
  unfolding in_phase
  in_phase-least r at_entry_gate v = (entry_gate-Waits C r v).least
  in_phase-least r at_parking v = (wait_paid-Moves r v).least
  in_phase-least r at_exit_gate v = (exit_gate-Moves C r v).least
  in_phase-least r done v = omega arith
  in_phase-least r approaching_entry v = (follow-Moves r 1 v).least
  in_phase-least r entering v = (follow-Moves r 2 v).least
  in_phase-least r parking v = (follow-Moves r 3 v).least
  in_phase-least r uturn v = (follow-Moves r 2 v).least
  in_phase-least r to_exit v = (follow-Moves r 2 v).least
  in_phase-least r approaching_exit v = (follow-Moves r 1 v).least
  in_phase-least r exiting v = (follow-Moves r 2 v).least

  run-least : (rs : List Round) (v : Vehicle K) → v.state_idx ≤ (run K rs v).state_idx
  unfolding run step
  run-least [] v = omega arith
  run-least (r ∷ rs) v = omega (
    arith,
    in_phase-least r (phase_at v.state_idx) v,
    run-least rs (in_phase K r (phase_at v.state_idx) v),
  )

  here-step : (r : Round) (v : Vehicle K) → v.state_idx ≡ 1 → step K r v ≡ entry_gate K r v
  unfolding step in_phase phase_at
  here-step r v at = ap (λ n. in_phase K r (phase_at n) v) at

  waits-leave :
      (rs : List Round) (v : Vehicle K)
      → v.state_idx ≡ 1
      → K.entry_over v.entry_wait_t ≡ false
      → K.entry_over (after_rounds K (length rs) v.entry_wait_t) ≡ true
      → 2 ≤ (run K rs v).state_idx
  unfolding run
  waits-leave [] v at early late = absurd (ground (arith, early, late))
  waits-leave (r ∷ rs) v at early late =
      let w = entry_gate K r v in
      let waits = entry_gate-Waits C r v in
      let stays = entry_gate-Stays r v in
      subst⁻¹ (λ u. 2 ≤ (run K rs u).state_idx) (here-step r v at)
        (elim (Bool-cases (nat_beq w.state_idx 1)) [
          | inl still ↦
              let same : w.state_idx ≡ v.state_idx = ground (arith, still, at) in
              waits-leave rs w (same ∙ at) (stays.early same)
                (ap (λ t. K.entry_over (after_rounds K (length rs) t)) (stays.time same) ∙ late)
          | inr gone ↦ ground (arith, run-least rs w, waits.least, at)
        ])

  -- A car that has come to the phase at the entry barrier has left it after as many rounds of the
  -- loop as it takes the sum of their times to reach the timeout, or before, whether the barrier
  -- ever opens or not.
  pub entry_gate-leaves :
      (rs : List Round) (v : Vehicle K)
      → v.state_idx ≡ 1
      → v.entry_wait_t ≡ K.zero_s
      → K.entry_over (after_rounds K (length rs) K.zero_s) ≡ true
      → 2 ≤ (run K rs v).state_idx
  entry_gate-leaves rs v at start late =
      waits-leave rs v at (ap (λ t. K.entry_over t) start ∙ C.entry_starts)
        (ap (λ t. K.entry_over (after_rounds K (length rs) t)) start ∙ late)
