-- ===== src/Pms/Exit/Cases.antt =====
-- What the exit camera's request does, by what Redis and the database hold.
use car_pay_in.Base.{
  Bool, Bool-cases, List, Option-cases, String, [], arith, false, inl, inr, none, refl, some, true,
  ℕ, ◌++◌, ◌∷◌, ◌≡◌, ◌⊎◌,
}
use car_pay_in.Exec.{Result, catch, ok, ◌>>=◌}
use car_pay_in.Pms.Exit.{
  exit_cached, exit_paid, handle_lpr_exit, not_found, not_paid, open_and_exit,
}
use car_pay_in.Pms.Models.{
  Call, Env, ParkingPayload, PmsParkingSession, State, is_paid, open_exit, record_call,
}
use car_pay_in.Pms.Payments.{try_open_exit}
use car_pay_in.Pms.Sessions.{
  change_session, get_paid_session_by_lot_and_plate, mark_exited, require_session,
}
use car_pay_in.Pms.Stores.{delete_session, get_session}

-- the exit barrier is asked to open, and nothing else is called
abbrev pub exit_calls : List Call → String → List Call
exit_calls calls i = calls ++ open_exit i ∷ []

module _ (E : Env) (now : ℕ) (lot plate : String) (s : State E) where
  -- The session `i` is paid as far as the camera can see: in Redis, or, where Redis has no entry,
  -- in the database.
  abbrev pub PaidHere : String → Type 0
  PaidHere i =
      ((p : ParkingPayload) × (get_session E now lot plate s ≡ some p)
        × (is_paid p.status ≡ true)
        × (p.pms_session_id ≡ i))
      ⊎ ((get_session E now lot plate s ≡ none)
          × ((r : PmsParkingSession) × (get_paid_session_by_lot_and_plate E lot plate s ≡ some r)
              × (r.pms_session_id ≡ i)))

  module _ (barrier : Result (Unit {0})) where
    run_redis :
        (p : ParkingPayload)
        → get_session E now lot plate s ≡ some p
        → is_paid p.status ≡ true
        → handle_lpr_exit E now barrier lot plate s
          ≡ open_and_exit E now barrier p.pms_session_id lot plate true s
    unfolding handle_lpr_exit exit_cached ◌>>=◌
    run_redis p cached is_so = rw (cached, is_so)

    run_database :
        (r : PmsParkingSession)
        → get_session E now lot plate s ≡ none
        → get_paid_session_by_lot_and_plate E lot plate s ≡ some r
        → handle_lpr_exit E now barrier lot plate s
          ≡ open_and_exit E now barrier r.pms_session_id lot plate false s
    unfolding handle_lpr_exit exit_cached exit_paid ◌>>=◌
    run_database r gone found = rw (gone, found)

    -- An entry in Redis that is not paid: nothing happens.
    pub exit-not_paid :
        (p : ParkingPayload)
        → get_session E now lot plate s ≡ some p
        → is_paid p.status ≡ false
        → handle_lpr_exit E now barrier lot plate s ≡ (ok (not_paid, none), s)
    unfolding handle_lpr_exit exit_cached ◌>>=◌
    exit-not_paid p cached unpaid = rw (cached, unpaid)

    -- No entry in Redis and no paid session in the database: nothing happens.
    pub exit-not_found :
        get_session E now lot plate s ≡ none
        → get_paid_session_by_lot_and_plate E lot plate s ≡ none
        → handle_lpr_exit E now barrier lot plate s ≡ (ok (not_found, none), s)
    unfolding handle_lpr_exit exit_cached exit_paid ◌>>=◌
    exit-not_found gone unpaid = rw (gone, unpaid)

    open_and_exit-calls :
        (i : String) (from_redis : Bool)
        → (open_and_exit E now barrier i lot plate from_redis s).1.calls ≡ exit_calls s.calls i
    unfolding open_and_exit try_open_exit record_call delete_session mark_exited change_session
        require_session ◌>>=◌ catch
    open_and_exit-calls i from_redis = ground arith

    -- Whatever the state and the outcome of the barrier, an exit request either changes nothing and
    -- calls nobody, or its only call is one to open the exit barrier, for a session that is paid as
    -- far as the camera can see: in Redis, or in the database where Redis has no entry.
    pub exit_cases :
        ((handle_lpr_exit E now barrier lot plate s).1 ≡ s)
        ⊎ ((i : String) × PaidHere i
            × ((handle_lpr_exit E now barrier lot plate s).1.calls ≡ exit_calls s.calls i))
    exit_cases = elim (Option-cases (get_session E now lot plate s)) [
      | inr (p, cached) ↦ elim (Bool-cases (is_paid p.status)) [
        | inl is_so ↦ inr (
          p.pms_session_id,
          inl (p, cached, is_so, refl),
          rw (run_redis p cached is_so) (open_and_exit-calls p.pms_session_id true),
        )
        | inr unpaid ↦ inl (rw (exit-not_paid p cached unpaid))
      ]
      | inl gone ↦ elim (Option-cases (get_paid_session_by_lot_and_plate E lot plate s)) [
        | inr (r, found) ↦ inr (
          r.pms_session_id,
          inr (gone, (r, found, refl)),
          rw (run_database r gone found) (open_and_exit-calls r.pms_session_id false),
        )
        | inl unpaid ↦ inl (rw (exit-not_found gone unpaid))
      ]
    ]
