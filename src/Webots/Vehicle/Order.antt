-- ===== src/Webots/Vehicle/Order.antt =====
-- The order of the phases of the simulated car, and the calls of the camera at the entry.
use car_pay_in.Base.{
  Bool, List, Option, String, [], ap, arith, false, if◌then◌else◌, none, refl, some, suc, sym, true,
  zero, ℕ, ◌+◌, ◌==◌, ◌||◌, ◌∙◌, ◌∷◌, ◌≡◌, ◌≤◌,
}
use car_pay_in.Table.{tally, tally-append}
use car_pay_in.Webots.Vehicle.{
  Clock, IsClock, Round, Sent, Vehicle, advance_state, entry_gate, exit_by, exit_gate, follow,
  force_entry, force_exit, in_phase, initial, lpr_entry, lpr_exit, phase_at, poll_entry, poll_exit,
  retry_exit, send_entry, step, trigger_exit, wait_paid,
}

abbrev pub is_entry : Sent → Bool
is_entry lpr_entry = true
is_entry lpr_exit = false

-- how often the camera at the entry has been triggered by a car that is in a phase
abbrev pub entries_at : ℕ → Bool → ℕ
entries_at zero sent = 0
entries_at (suc zero) sent = if sent then 1 else 0
entries_at (suc (suc n)) sent = 1

module _ {K : Clock} where
  abbrev entries : Vehicle K → ℕ
  entries v = tally is_entry v.sent

  -- a branch that goes on to the next phase at most, and does not trigger the camera at the entry
  pub record Moves (v w : Vehicle K) : Type 0 where
    pub least : v.state_idx ≤ w.state_idx
    pub most : w.state_idx ≤ suc v.state_idx
    pub count : tally is_entry w.sent ≡ tally is_entry v.sent
    pub flag : w.state_idx ≡ v.state_idx → w.entry_lpr_sent ≡ v.entry_lpr_sent
    pub fresh : w.state_idx ≡ suc v.state_idx → w.entry_lpr_sent ≡ false

  pub follow-Moves : (r : Round) (n : ℕ) (v : Vehicle K) → Moves v (follow K r n v)
  unfolding follow advance_state
  follow-Moves r n v = record {
    least = ground arith;
    most = ground arith;
    count = ground arith;
    flag = ground arith;
    fresh = ground arith;
  }

  pub wait_paid-Moves : (r : Round) (v : Vehicle K) → Moves v (wait_paid K r v)
  unfolding wait_paid advance_state
  wait_paid-Moves r v = record {
    least = ground arith;
    most = ground arith;
    count = ground arith;
    flag = ground arith;
    fresh = ground arith;
  }

module _ {K : Clock} (C : IsClock K) (r : Round) where
  trigger_exit-Moves : (v : Vehicle K) → Moves v (trigger_exit K r v)
  unfolding trigger_exit tally
  trigger_exit-Moves v = record {
    least = omega arith;
    most = omega arith;
    count = tally-append is_entry lpr_exit v.sent ∙ omega arith;
    flag = λ _. refl;
    fresh = λ h. absurd (omega (arith, h));
  }

  opened-Moves :
      (v : Vehicle K)
      → Moves v (
          force_exit K r (
            poll_exit K r (record v {
              exit_wait_t = K.add_dt v.exit_wait_t;
              exit_poll_t = K.add_dt v.exit_poll_t;
            })))
  unfolding force_exit poll_exit advance_state
  opened-Moves v = record {
    least = ground (arith, C.exit_starts);
    most = ground (arith, C.exit_starts);
    count = ground (arith, C.exit_starts);
    flag = ground (arith, C.exit_starts);
    fresh = ground (arith, C.exit_starts);
  }

  retry_exit-Moves : (v : Vehicle K) → Moves v (retry_exit K r v)
  unfolding retry_exit trigger_exit tally
  retry_exit-Moves v = record {
    least = ground arith;
    most = ground arith;
    count = ground (arith, tally-append is_entry lpr_exit v.sent);
    flag = ground arith;
    fresh = ground arith;
  }

  still-Moves : (v : Vehicle K) → Moves v v
  still-Moves v = record {
    least = omega arith;
    most = omega arith;
    count = refl;
    flag = λ _. refl;
    fresh = λ h. absurd (omega (arith, h));
  }

  exit_by-Moves : (o : Option String) (v : Vehicle K) → Moves v (exit_by K r o v)
  unfolding exit_by
  exit_by-Moves none v = retry_exit-Moves v
  exit_by-Moves (some t) v = by_text (t == "opened") (t == "not_paid" || t == "not_found")
    where
      by_text :
          (opened unpaid : Bool)
          → Moves v (
              if opened
              then force_exit K r (
                  poll_exit K r (record v {
                    exit_wait_t = K.add_dt v.exit_wait_t;
                    exit_poll_t = K.add_dt v.exit_poll_t;
                  }))
              else if unpaid
              then retry_exit K r v
              else v)
      by_text true unpaid = opened-Moves v
      by_text false true = retry_exit-Moves v
      by_text false false = still-Moves v

  triggered-Moves : (v x : Vehicle K) → Moves (trigger_exit K r v) x → Moves v x
  unfolding trigger_exit tally
  triggered-Moves v x moved = record {
    least = moved.least;
    most = moved.most;
    count = moved.count ∙ tally-append is_entry lpr_exit v.sent ∙ omega arith;
    flag = moved.flag;
    fresh = moved.fresh;
  }

  pub exit_gate-Moves : (v : Vehicle K) → Moves v (exit_gate K r v)
  unfolding exit_gate
  exit_gate-Moves v = by_test v.exit_lpr_sent
    where
      by_test :
          (d : Bool)
          → let w = if d then v else trigger_exit K r v in Moves v (exit_by K r w.exit_status w)
      by_test true = exit_by-Moves v.exit_status v
      by_test false = triggered-Moves v _ (exit_by-Moves _ (trigger_exit K r v))

  -- the phase at the entry barrier: the camera is triggered once
  pub record Waits (v w : Vehicle K) : Type 0 where
    pub least : v.state_idx ≤ w.state_idx
    pub most : w.state_idx ≤ suc v.state_idx
    pub count : tally is_entry w.sent ≡ tally is_entry v.sent + (if v.entry_lpr_sent then 0 else 1)
    pub flag : w.state_idx ≡ v.state_idx → w.entry_lpr_sent ≡ true

  pub entry_gate-Waits : (v : Vehicle K) → Waits v (entry_gate K r v)
  unfolding entry_gate send_entry poll_entry force_entry advance_state tally
  entry_gate-Waits v = record {
    least = ground (arith, C.entry_starts);
    most = ground (arith, C.entry_starts);
    count = ground (arith, C.entry_starts, tally-append is_entry lpr_entry v.sent);
    flag = ground (arith, C.entry_starts);
  }

entries_at-late : (n : ℕ) (b : Bool) → 2 ≤ n → entries_at n b ≡ 1
entries_at-late zero b h = absurd (omega arith)
entries_at-late (suc zero) b h = absurd (omega arith)
entries_at-late (suc (suc n)) b h = refl

-- the rounds of the loop, in order
unfoldable pub run : (K : Clock) → List Round → Vehicle K → Vehicle K
run K [] v = v
run K (r ∷ rs) v = run K rs (step K r v)

module _ {K : Clock} (C : IsClock K) where
  -- a phase of the sequence, with as many calls of the camera as the phase has
  pub record IsOrdered (v : Vehicle K) : Type 0 where
    pub last : v.state_idx ≤ 10
    pub calls : tally is_entry v.sent ≡ entries_at v.state_idx v.entry_lpr_sent

  first-IsOrdered : (v w : Vehicle K) → v.state_idx ≡ 0 → Moves v w → IsOrdered v → IsOrdered w
  first-IsOrdered v w at moved ordered = record {
    last = omega (arith, moved.most, at);
    calls = by_idx w.state_idx refl;
  }
    where
      none_yet : tally is_entry w.sent ≡ 0
      none_yet = moved.count ∙ ordered.calls ∙ ap (λ n. entries_at n v.entry_lpr_sent) at

      by_idx : (n : ℕ) → w.state_idx ≡ n → tally is_entry w.sent ≡ entries_at n w.entry_lpr_sent
      by_idx zero h = none_yet
      by_idx (suc zero) h =
          none_yet ∙ sym (ap (λ b. entries_at 1 b) (moved.fresh (omega (arith, h, at))))
      by_idx (suc (suc n)) h = absurd (omega (arith, moved.most, h, at))

  late-IsOrdered :
      (v w : Vehicle K) → 2 ≤ v.state_idx → v.state_idx ≤ 9 → Moves v w → IsOrdered v → IsOrdered w
  late-IsOrdered v w late early moved ordered = record {
    last = omega (arith, moved.most, early);
    calls =
        moved.count
        ∙ ordered.calls
        ∙ entries_at-late v.state_idx v.entry_lpr_sent late
        ∙ sym (entries_at-late w.state_idx w.entry_lpr_sent (omega (arith, moved.least, late)));
  }

  gate-IsOrdered :
      (r : Round) (v w : Vehicle K) → v.state_idx ≡ 1 → Waits C r v w → IsOrdered v → IsOrdered w
  gate-IsOrdered r v w at waits ordered = record {
    last = omega (arith, waits.most, at);
    calls = waits.count ∙ by_flag v.entry_lpr_sent so_far ∙ sym (by_idx w.state_idx refl);
  }
    where
      so_far : tally is_entry v.sent ≡ entries_at 1 v.entry_lpr_sent
      so_far = ordered.calls ∙ ap (λ n. entries_at n v.entry_lpr_sent) at

      by_flag :
          (b : Bool)
          → tally is_entry v.sent ≡ entries_at 1 b
          → tally is_entry v.sent + (if b then 0 else 1) ≡ 1
      by_flag true h = omega (arith, h)
      by_flag false h = omega (arith, h)

      by_idx : (n : ℕ) → w.state_idx ≡ n → entries_at n w.entry_lpr_sent ≡ 1
      by_idx zero h = absurd (omega (arith, waits.least, h, at))
      by_idx (suc zero) h = ap (λ b. entries_at 1 b) (waits.flag (omega (arith, h, at)))
      by_idx (suc (suc n)) h = refl

  module _ (r : Round) where
    -- between the barriers
    inner-IsOrdered :
        (m : ℕ) (v w : Vehicle K)
        → v.state_idx ≡ suc (suc m)
        → m ≤ 7
        → Moves v w
        → IsOrdered v
        → IsOrdered w
    inner-IsOrdered m v w at few moved h =
        late-IsOrdered v w (omega (arith, at)) (omega (arith, at, few)) moved h

    -- one round in the phase with a number
    in_phase-IsOrdered :
        (n : ℕ) (v : Vehicle K)
        → v.state_idx ≡ n
        → IsOrdered v
        → IsOrdered (in_phase K r (phase_at n) v)
    unfolding in_phase phase_at
    in_phase-IsOrdered zero v at h = first-IsOrdered v _ at (follow-Moves r 1 v) h
    in_phase-IsOrdered (suc zero) v at h = gate-IsOrdered r v _ at (entry_gate-Waits C r v) h
    in_phase-IsOrdered (suc (suc zero)) v at h =
        inner-IsOrdered 0 v _ at (omega arith) (follow-Moves r 2 v) h
    in_phase-IsOrdered (suc (suc (suc zero))) v at h =
        inner-IsOrdered 1 v _ at (omega arith) (follow-Moves r 3 v) h
    in_phase-IsOrdered (suc (suc (suc (suc zero)))) v at h =
        inner-IsOrdered 2 v _ at (omega arith) (wait_paid-Moves r v) h
    in_phase-IsOrdered (suc (suc (suc (suc (suc zero))))) v at h =
        inner-IsOrdered 3 v _ at (omega arith) (follow-Moves r 2 v) h
    in_phase-IsOrdered (suc (suc (suc (suc (suc (suc zero)))))) v at h =
        inner-IsOrdered 4 v _ at (omega arith) (follow-Moves r 2 v) h
    in_phase-IsOrdered (suc (suc (suc (suc (suc (suc (suc zero))))))) v at h =
        inner-IsOrdered 5 v _ at (omega arith) (follow-Moves r 1 v) h
    in_phase-IsOrdered (suc (suc (suc (suc (suc (suc (suc (suc zero)))))))) v at h =
        inner-IsOrdered 6 v _ at (omega arith) (exit_gate-Moves C r v) h
    in_phase-IsOrdered (suc (suc (suc (suc (suc (suc (suc (suc (suc zero))))))))) v at h =
        inner-IsOrdered 7 v _ at (omega arith) (follow-Moves r 2 v) h
    in_phase-IsOrdered (suc (suc (suc (suc (suc (suc (suc (suc (suc (suc zero)))))))))) v at h = h
    in_phase-IsOrdered (suc (suc (suc (suc (suc (suc (suc (suc (suc (suc (suc n))))))))))) v at h =
        h

  runs-IsOrdered : (rs : List Round) (v : Vehicle K) → IsOrdered v → IsOrdered (run K rs v)
  unfolding run step
  runs-IsOrdered [] v h = h
  runs-IsOrdered (r ∷ rs) v h = runs-IsOrdered rs _ (in_phase-IsOrdered r v.state_idx v refl h)

  -- From the start, after any rounds of the loop, whatever the barrier, the parking lot's server and
  -- the distances say: the car is in a phase of the sequence, and the camera at the entry has been
  -- triggered not at all before the phase at the entry barrier, at most once in it, and exactly once
  -- from the next phase on.
  pub run-IsOrdered : (rs : List Round) → IsOrdered (run K rs (initial K))
  unfolding tally
  run-IsOrdered rs = runs-IsOrdered rs (initial K) (record { last = omega arith; calls = refl })
