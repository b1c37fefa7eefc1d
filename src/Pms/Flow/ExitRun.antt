-- ===== src/Pms/Flow/ExitRun.antt =====
-- What the exit camera's request leaves behind when Redis shows the vehicle as paid.
use car_pay_in.Base.{String, [], eq_refl, none, refl, some, true, ℕ, ◌++◌, ◌∙◌, ◌∷◌, ◌≡◌}
use car_pay_in.DateTime.{utc_now}
use car_pay_in.Exec.{Result, ok, ◌>>=◌}
use car_pay_in.Exec.Run.{bind-ok, run-modify, run-pure}
use car_pay_in.Pms.Exit.{exit_cached, handle_lpr_exit, open_and_exit, opened}
use car_pay_in.Pms.Flow.PaymentRun.{change_session-run, changed-by_id, try_open_exit-run}
use car_pay_in.Pms.Models.{
  Env, IsLawful, ParkingPayload, PmsParkingSession, State, exited, open_exit, paid,
}
use car_pay_in.Pms.Sessions.{change, get_session_by_id, mark_exited}
use car_pay_in.Pms.Stores.{delete_session, get_session, session_key}

abbrev pub exited_session : ℕ → PmsParkingSession → PmsParkingSession
exited_session now r = record r { status = exited; exit_time = some (utc_now now) }

module _ {E : Env} (L : IsLawful E) (now : ℕ) (barrier : Result (Unit {0}))
    (lot plate : String) where
  module _ (s : State E) (i : String) where
    -- What an exit that opens leaves behind.
    pub record Left (r : PmsParkingSession) (t : State E) : Type 0 where
      pub answer : handle_lpr_exit E now barrier lot plate s ≡ (ok (opened, some i), t)
      pub by_id : get_session_by_id E i t ≡ some (exited_session now r)
      pub uncached : (later : ℕ) → get_session E later lot plate t ≡ none
      pub calls : t.calls ≡ s.calls ++ open_exit i ∷ []

    abbrev gone : State E
    gone = record s {
      calls = s.calls ++ open_exit i ∷ [];
      parking = E.parking.delete (session_key lot plate) s.parking;
    }

    open_and_exit-run :
        (r : PmsParkingSession)
        → get_session_by_id E i s ≡ some r
        → open_and_exit E now barrier i lot plate true s
          ≡ (ok (opened, some i), change E i (exited_session now) gone)
    unfolding open_and_exit delete_session mark_exited get_session_by_id
    open_and_exit-run r found =
        bind-ok _ _ s (try_open_exit-run barrier i s)
        ∙ bind-ok _ _ (record s { calls = s.calls ++ open_exit i ∷ [] }) (run-modify _ _)
        ∙ bind-ok _ _ gone (change_session-run L i (exited_session now) gone found)
        ∙ run-pure _ _

    pub exit-Left :
        (p : ParkingPayload) (r : PmsParkingSession)
        → get_session E now lot plate s ≡ some p
        → p.status ≡ paid
        → p.pms_session_id ≡ i
        → get_session_by_id E i s ≡ some r
        → (t : State E) × Left r t
    unfolding handle_lpr_exit exit_cached get_session_by_id get_session ◌>>=◌
    exit-Left p r cached is_so same found = (
      change E i (exited_session now) gone,
      record {
        answer = rw (cached, is_so, same) (open_and_exit-run r found);
        by_id = changed-by_id L i (exited_session now) gone (λ _. refl) found;
        uncached = λ later. rw (L.parking.get-delete, eq_refl (session_key lot plate));
        calls = refl;
      },
    )
