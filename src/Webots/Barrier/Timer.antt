-- ===== src/Webots/Barrier/Timer.antt =====
-- When a barrier is open.
use car_pay_in.Base.{
  Bool, List, [], arith, false, if◌then◌else◌, ltb, refl, suc, true, zero, ℕ, ◌&&◌, ◌*◌, ◌++◌, ◌-◌,
  ◌∙◌, ◌∷◌, ◌≡◌, ◌≤◌,
}
use car_pay_in.Webots.Barrier.{
  Barrier, Command, auto_close, close_it, count_down, enqueue, expire, initial, obey, obey_all,
  open_hold_ms, open_it, pos_close, pos_open, round,
}

-- a request or a round of the loop
pub data Event : Type 0 where
  request : Command → Event
  turn : Event

unfoldable pub happen : Bool → ℕ → Event → Barrier → Barrier
happen motor timestep (request cmd) b = enqueue cmd b
happen motor timestep turn b = round motor timestep b

unfoldable pub happen_all : Bool → ℕ → List Event → Barrier → Barrier
happen_all motor timestep [] b = b
happen_all motor timestep (e ∷ es) b = happen_all motor timestep es (happen motor timestep e b)

-- The flag is up while the timer runs, no longer than the hold, and with a motor the arm follows it.
pub record IsTimed (motor : Bool) (b : Barrier) : Type 0 where
  pub flag : b.is_open ≡ ltb 0 b.timer
  pub bound : b.timer ≤ open_hold_ms
  pub arm : b.position ≡ (if motor && b.is_open then pos_open else pos_close)

obey-IsTimed : (cmd : Command) (b : Barrier) → IsTimed true (obey cmd b)
unfolding obey
obey-IsTimed open_it b = record { flag = refl; bound = omega arith; arm = refl }
obey-IsTimed close_it b = record { flag = refl; bound = omega arith; arm = refl }

obey_all-IsTimed :
    (motor : Bool) (cmds : List Command) (b : Barrier)
    → IsTimed motor b
    → IsTimed motor (obey_all motor cmds b)
unfolding obey_all
obey_all-IsTimed motor [] b timed = timed
obey_all-IsTimed true (cmd ∷ cmds) b timed = obey_all-IsTimed true cmds _ (obey-IsTimed cmd b)
obey_all-IsTimed false (cmd ∷ cmds) b timed = obey_all-IsTimed false cmds b timed

count_down-IsTimed :
    (motor : Bool) (timestep : ℕ) (b : Barrier)
    → IsTimed motor b
    → IsTimed motor (count_down motor timestep b)
unfolding count_down expire auto_close
count_down-IsTimed motor timestep b timed = record {
  flag = ground (arith, timed.flag);
  bound = ground (arith, timed.bound);
  arm = ground (arith, timed.arm, timed.flag);
}

queue-IsTimed :
    (motor : Bool) (q : List Command) (b : Barrier)
    → IsTimed motor b
    → IsTimed motor (record b { queue = q })
queue-IsTimed motor q b timed = record { flag = timed.flag; bound = timed.bound; arm = timed.arm }

happen_all-IsTimed :
    (motor : Bool) (timestep : ℕ) (es : List Event) (b : Barrier)
    → IsTimed motor b
    → IsTimed motor (happen_all motor timestep es b)
unfolding happen_all happen enqueue round
happen_all-IsTimed motor timestep [] b timed = timed
happen_all-IsTimed motor timestep (request cmd ∷ es) b timed =
    happen_all-IsTimed motor timestep es _ (queue-IsTimed motor _ b timed)
happen_all-IsTimed motor timestep (turn ∷ es) b timed = happen_all-IsTimed motor timestep es _ (
    count_down-IsTimed motor timestep _
      (obey_all-IsTimed motor b.queue _ (queue-IsTimed motor [] b timed)))

-- rounds without requests
abbrev pub turns : ℕ → List Event
turns zero = []
turns (suc n) = turn ∷ turns n

count_down-timer :
    (timestep : ℕ) (b : Barrier)
    → ((count_down true timestep b).timer ≡ b.timer - timestep)
      × ((count_down true timestep b).queue ≡ b.queue)
unfolding count_down expire auto_close
count_down-timer timestep b = (ground arith, ground arith)

turns-timer :
    (timestep n : ℕ) (b : Barrier)
    → b.queue ≡ []
    → (happen_all true timestep (turns n) b).timer ≡ b.timer - n * timestep
unfolding happen_all happen round obey_all
turns-timer timestep zero b idle = omega arith
turns-timer timestep (suc n) b idle =
    let c = count_down true timestep (record b { queue = [] }) in
    let (less, same) = count_down-timer timestep (record b { queue = [] }) in
    rw idle (turns-timer timestep n c same ∙ omega (arith, less))

obey_all-last :
    (cmds : List Command) (b : Barrier)
    → obey_all true (cmds ++ open_it ∷ []) b ≡ obey open_it (obey_all true cmds b)
unfolding obey_all
obey_all-last [] b = refl
obey_all-last (cmd ∷ cmds) b = obey_all-last cmds (obey cmd b)

obey_all-queue : (cmds : List Command) (b : Barrier) → (obey_all true cmds b).queue ≡ b.queue
unfolding obey_all obey
obey_all-queue [] b = refl
obey_all-queue (open_it ∷ cmds) b = obey_all-queue cmds _
obey_all-queue (close_it ∷ cmds) b = obey_all-queue cmds _

opened-timer :
    (timestep : ℕ) (b : Barrier)
    → ((round true timestep (enqueue open_it b)).timer ≡ open_hold_ms - timestep)
      × ((round true timestep (enqueue open_it b)).queue ≡ [])
unfolding round enqueue
opened-timer timestep b =
    let c = obey open_it (obey_all true b.queue (record b { queue = [] })) in
    let (less, same) = count_down-timer timestep c in
    rw (obey_all-last b.queue (record b { queue = [] }))
      (less ∙ unfold obey in refl, same ∙ unfold obey in obey_all-queue b.queue _)

-- A barrier with a motor, after any requests and rounds of its loop: a request to open it, and then
-- rounds without another request. It is open exactly as long as those rounds have taken less than
-- eight seconds, whatever the time step, and closed for good from then on.
pub open-iff_held :
    (timestep n : ℕ) (es : List Event)
    → (happen_all true timestep
        (request open_it ∷ turns (suc n))
        (happen_all true timestep es initial)).is_open
      ≡ ltb (suc n * timestep) open_hold_ms
unfolding happen_all happen
open-iff_held timestep n es =
    let b = happen_all true timestep es initial in
    let timed : IsTimed true b =
      happen_all-IsTimed true timestep es initial
        (record { flag = refl; bound = omega arith; arm = refl }) in
    let (held, emptied) = opened-timer timestep b in
    let after = happen_all-IsTimed true timestep (request open_it ∷ turns (suc n)) b timed in
    after.flag
    ∙ ground (arith, turns-timer timestep n (round true timestep (enqueue open_it b)) emptied, held)
