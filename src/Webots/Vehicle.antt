-- ===== src/Webots/Vehicle.antt =====
-- carpayin-webots/controllers/vehicle_controller/vehicle_controller.py: the phases of the simulated
-- car, one function per branch of the loop. The steering, which only moves the simulated car, is
-- left out, and whether the next waypoint is near is an argument.
pub mod EntryGate
pub mod Order
use car_pay_in.Base.{
  Bool, List, Option, String, [], false, if◌then◌else◌, leb, nat_beq, none, some, suc, true, zero,
  ℕ, ◌&&◌, ◌++◌, ◌==◌, ◌||◌, ◌∷◌, ◌≡◌,
}

-- `STATE_SEQUENCE`
pub data Phase : Type 0 where
  approaching_entry at_entry_gate entering parking at_parking uturn to_exit : Phase
  approaching_exit at_exit_gate exiting done : Phase

-- `STATE_SEQUENCE[min(state_idx, len(STATE_SEQUENCE) - 1)]`
abbrev pub pick : List Phase → ℕ → Phase
pick [] n = done
pick (p ∷ ps) zero = p
pick (p ∷ ps) (suc n) = pick ps n

unfoldable pub phase_at : ℕ → Phase
phase_at state_idx =
    pick
      (approaching_entry ∷ at_entry_gate ∷ entering ∷ parking ∷ at_parking ∷ uturn ∷ to_exit
        ∷ approaching_exit ∷ at_exit_gate ∷ exiting ∷ done ∷ [])
      state_idx

-- Python's floating-point seconds, as far as the loop uses them: a sum, and `>=` against the named
-- constants.
pub record Clock : Type 1 where
  pub Time : Type 0
  pub zero_s : Time
  -- `+ dt`
  pub add_dt : Time → Time
  -- `>= 2.0`, `>= BARRIER_POLL_INTERVAL`, `>= ENTRY_BARRIER_TIMEOUT`, `>= EXIT_BARRIER_TIMEOUT`,
  -- `>= PARK_POLL_INTERVAL` and `>= EXIT_RETRY_INTERVAL`
  pub settled : Time → Bool
  pub polls_barrier : Time → Bool
  pub entry_over : Time → Bool
  pub exit_over : Time → Bool
  pub polls_parking : Time → Bool
  pub retries : Time → Bool

-- no wait is over at 0.0
pub record IsClock (K : Clock) : Type 0 where
  pub entry_starts : K.entry_over K.zero_s ≡ false
  pub exit_starts : K.exit_over K.zero_s ≡ false

pub data Sent : Type 0 where
  lpr_entry lpr_exit : Sent

pub record Vehicle (K : Clock) : Type 0 where
  pub state_idx : ℕ
  pub wp_idx : ℕ
  pub entry_lpr_sent : Bool
  pub entry_wait_t : K.Time
  pub entry_poll_t : K.Time
  pub park_poll_t : K.Time
  pub exit_lpr_sent : Bool
  -- the status in `exit_lpr_res`, `none` where there is no answer or no status in it
  pub exit_status : Option String
  pub exit_wait_t : K.Time
  pub exit_poll_t : K.Time
  pub exit_retry_t : K.Time
  -- the calls of `trigger_entry` and `trigger_exit`
  pub sent : List Sent

-- what one round of the loop reads: whether the waypoint is within the distance of a last one or of
-- one on the way, the answers of the barrier and of the parking lot's server, if they are asked
pub record Round : Type 0 where
  pub near : Bool → Bool
  pub barrier : Bool
  pub pms_status : Option String
  pub exit_answer : Option String

module _ (K : Clock) where
  abbrev pub initial : Vehicle K
  initial = record {
    state_idx = 0;
    wp_idx = 0;
    entry_lpr_sent = false;
    entry_wait_t = K.zero_s;
    entry_poll_t = K.zero_s;
    park_poll_t = K.zero_s;
    exit_lpr_sent = false;
    exit_status = none;
    exit_wait_t = K.zero_s;
    exit_poll_t = K.zero_s;
    exit_retry_t = K.zero_s;
    sent = [];
  }

  unfoldable pub advance_state : Vehicle K → Vehicle K
  advance_state v = record initial { state_idx = suc v.state_idx; sent = v.sent }

  module _ (r : Round) where
    unfoldable pub follow : ℕ → Vehicle K → Vehicle K
    follow count v =
        if leb count v.wp_idx
        then advance_state v
        else (let is_last = nat_beq (suc v.wp_idx) count in
            if r.near is_last
            then (if is_last then advance_state v else record v { wp_idx = suc v.wp_idx })
            else v)

    unfoldable pub send_entry : Vehicle K → Vehicle K
    send_entry v =
        if v.entry_lpr_sent
        then v
        else record v { sent = v.sent ++ lpr_entry ∷ []; entry_lpr_sent = true }

    unfoldable pub poll_entry : Vehicle K → Vehicle K
    poll_entry v =
        let w = record v { entry_poll_t = K.add_dt v.entry_poll_t } in
        if K.polls_barrier w.entry_poll_t
        then (if r.barrier
            then advance_state (record w { entry_poll_t = K.zero_s })
            else record w { entry_poll_t = K.zero_s })
        else w

    unfoldable pub force_entry : Vehicle K → Vehicle K
    force_entry v = if K.entry_over v.entry_wait_t then advance_state v else v

    unfoldable pub entry_gate : Vehicle K → Vehicle K
    entry_gate v =
        let w = send_entry v in
        let x = record w { entry_wait_t = K.add_dt w.entry_wait_t } in
        force_entry (if K.settled x.entry_wait_t then poll_entry x else x)

    abbrev is_text : String → Option String → Bool
    is_text t none = false
    is_text t (some u) = u == t

    unfoldable pub wait_paid : Vehicle K → Vehicle K
    wait_paid v =
        let w = record v { park_poll_t = K.add_dt v.park_poll_t } in
        if K.polls_parking w.park_poll_t
        then (let x = record w { park_poll_t = K.zero_s } in
            if is_text "paid" r.pms_status then advance_state x else x)
        else w

    unfoldable pub trigger_exit : Vehicle K → Vehicle K
    trigger_exit v = record v {
      sent = v.sent ++ lpr_exit ∷ [];
      exit_status = r.exit_answer;
      exit_lpr_sent = true;
      exit_wait_t = K.zero_s;
      exit_retry_t = K.zero_s;
    }

    unfoldable pub poll_exit : Vehicle K → Vehicle K
    poll_exit v =
        if K.settled v.exit_wait_t && K.polls_barrier v.exit_poll_t
        then (let w = record v { exit_poll_t = K.zero_s } in
            if r.barrier then advance_state w else w)
        else v

    unfoldable pub force_exit : Vehicle K → Vehicle K
    force_exit v = if K.exit_over v.exit_wait_t then advance_state v else v

    unfoldable pub retry_exit : Vehicle K → Vehicle K
    retry_exit v =
        let w = record v { exit_retry_t = K.add_dt v.exit_retry_t } in
        if K.retries w.exit_retry_t then trigger_exit w else w

    -- an answer with another status is waited on for good
    unfoldable pub exit_by : Option String → Vehicle K → Vehicle K
    exit_by none v = retry_exit v
    exit_by (some t) v =
        if t == "opened"
        then force_exit (
            poll_exit (record v {
              exit_wait_t = K.add_dt v.exit_wait_t;
              exit_poll_t = K.add_dt v.exit_poll_t;
            }))
        else if t == "not_paid" || t == "not_found"
        then retry_exit v
        else v

    unfoldable pub exit_gate : Vehicle K → Vehicle K
    exit_gate v = let w = if v.exit_lpr_sent then v else trigger_exit v in exit_by w.exit_status w

    unfoldable pub in_phase : Phase → Vehicle K → Vehicle K
    in_phase at_entry_gate v = entry_gate v
    in_phase at_parking v = wait_paid v
    in_phase at_exit_gate v = exit_gate v
    in_phase done v = v
    in_phase approaching_entry v = follow 1 v
    in_phase entering v = follow 2 v
    in_phase parking v = follow 3 v
    in_phase uturn v = follow 2 v
    in_phase to_exit v = follow 2 v
    in_phase approaching_exit v = follow 1 v
    in_phase exiting v = follow 2 v

    -- one round of the loop
    unfoldable pub step : Vehicle K → Vehicle K
    step v = in_phase (phase_at v.state_idx) v
