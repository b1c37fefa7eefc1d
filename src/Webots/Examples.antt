-- ===== src/Webots/Examples.antt =====
-- The theorems on the simulated barriers and the simulated car at short runs.
use car_pay_in.Base.{[], false, leb, none, refl, true, ℕ, ◌+◌, ◌∷◌, ◌≡◌, ◌≤◌}
use car_pay_in.Webots.Barrier.{close_it, initial as closed, open_it}
use car_pay_in.Webots.Barrier.Timer.{happen_all, open-iff_held, request, turn, turns}
use car_pay_in.Webots.Vehicle.{Clock, IsClock, Round, Vehicle, initial}
use car_pay_in.Webots.Vehicle.EntryGate.{entry_gate-leaves}
use car_pay_in.Webots.Vehicle.Order.{IsOrdered, run, run-IsOrdered}

open-iff_held_example :
    (happen_all true 32
      (request open_it ∷ turns 2)
      (happen_all true 32 (request close_it ∷ turn ∷ []) closed)).is_open
    ≡ true
open-iff_held_example = open-iff_held 32 1 (request close_it ∷ turn ∷ [])

-- seconds counted in milliseconds, with a time step of 5 s
abbrev clock : Clock
clock = record {
  Time = ℕ;
  zero_s = 0;
  add_dt = λ t. t + 5000;
  settled = λ t. leb 2000 t;
  polls_barrier = λ t. leb 500 t;
  entry_over = λ t. leb 15000 t;
  exit_over = λ t. leb 15000 t;
  polls_parking = λ t. leb 5000 t;
  retries = λ t. leb 8000 t;
}

clock-IsClock : IsClock clock
clock-IsClock = record { entry_starts = refl; exit_starts = refl }

abbrev arrive : Round
arrive = record { near = λ _. true; barrier = false; pms_status = none; exit_answer = none }

run-IsOrdered_example : IsOrdered clock-IsClock (run clock (arrive ∷ arrive ∷ []) (initial clock))
run-IsOrdered_example = run-IsOrdered clock-IsClock (arrive ∷ arrive ∷ [])

abbrev at_gate : Vehicle clock
at_gate = record (initial clock) { state_idx = 1 }

entry_gate-leaves_example : 2 ≤ (run clock (arrive ∷ arrive ∷ arrive ∷ []) at_gate).state_idx
entry_gate-leaves_example =
    entry_gate-leaves clock-IsClock (arrive ∷ arrive ∷ arrive ∷ []) at_gate refl refl refl
