-- ===== src/Webots/Barrier.antt =====
-- carpayin-webots/controllers/barrier_controller_entry/barrier_controller_entry.py;
-- barrier_controller_exit beside it differs in names only. The lock makes each access of the queue
-- and of the flag one step.
pub mod Timer
use car_pay_in.Base.{Bool, List, [], false, if◌then◌else◌, ltb, nat_beq, true, ℕ, ◌++◌, ◌-◌, ◌∷◌}

-- the texts 'open' and 'close'
pub data Command : Type 0 where
  open_it close_it : Command

pub data Position : Type 0 where
  pos_open pos_close : Position

abbrev pub open_hold_ms : ℕ
open_hold_ms = 8000

-- `timer` is `open_timer`, with 0 for a count below 0, which the loop treats alike
pub record Barrier : Type 0 where
  pub queue : List Command
  pub is_open : Bool
  pub position : Position
  pub timer : ℕ

abbrev pub initial : Barrier
initial = record { queue = []; is_open = false; position = pos_close; timer = 0 }

unfoldable pub enqueue : Command → Barrier → Barrier
enqueue cmd b = record b { queue = b.queue ++ cmd ∷ [] }

unfoldable pub obey : Command → Barrier → Barrier
obey open_it b = record b { position = pos_open; timer = open_hold_ms; is_open = true }
obey close_it b = record b { position = pos_close; timer = 0; is_open = false }

-- the commands in order; without a motor they are dropped
unfoldable pub obey_all : Bool → List Command → Barrier → Barrier
obey_all motor [] b = b
obey_all motor (cmd ∷ cmds) b = obey_all motor cmds (if motor then obey cmd b else b)

unfoldable pub auto_close : Bool → Barrier → Barrier
auto_close motor b = record b {
  position = if motor then pos_close else b.position;
  is_open = false;
}

unfoldable pub expire : Bool → Barrier → Barrier
expire motor b = if nat_beq b.timer 0 then auto_close motor b else b

unfoldable pub count_down : Bool → ℕ → Barrier → Barrier
count_down motor timestep b =
    if ltb 0 b.timer then expire motor (record b { timer = b.timer - timestep }) else b

-- one round of the loop
unfoldable pub round : Bool → ℕ → Barrier → Barrier
round motor timestep b =
    count_down motor timestep (obey_all motor b.queue (record b { queue = [] }))
