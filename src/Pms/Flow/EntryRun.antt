-- ===== src/Pms/Flow/EntryRun.antt =====
-- What the entry camera's request leaves behind when it makes a session.
use car_pay_in.Base.{
  Bool, Option, String, [], ap, arith, eq_refl, none, refl, some, true, ℕ, ◌++◌, ◌+◌, ◌<>◌, ◌<◌,
  ◌∙◌, ◌∷◌, ◌≡◌, ◌≤◌,
}
use car_pay_in.DateTime.{DateTime}
use car_pay_in.Exec.{Result, catch, err, ok, ◌>>=◌}
use car_pay_in.Exec.Run.{bind-ok, run-gets-bind, run-pure}
use car_pay_in.Pms.Entry.{
  EntryOutcome, HandleLprEntryCommand, created, enter, existing, handle_lpr_entry, open_session,
  report_entry, try_entry_webhook, try_open_entry,
}
use car_pay_in.Pms.Models.{
  Env, IsLawful, ParkingPayload, PmsParkingSession, State, active, active_plate, entry_webhook,
  has_id, open_entry, record_call, session_fits,
}
use car_pay_in.Pms.Sessions.{
  create_session, get_active_session_by_plate, get_session_by_id, new_session,
}
use car_pay_in.Pms.Stores.{
  consume_pre_registration, get_active_pre_registration, get_session, save_session, session_key,
  session_ttl_seconds,
}
use car_pay_in.Table.{first-append}

-- the row and the payload that an entry writes
abbrev pub entered_id : EntryOutcome → String
entered_id out = "pms-sess-" <> out.hex

abbrev pub entered_payload : EntryOutcome → HandleLprEntryCommand → ParkingPayload
entered_payload out c = record {
  pms_session_id = entered_id out;
  lot_id = c.lot_id;
  plate = c.plate;
  entry_time = c.entry_time;
  status = active;
}

module _ {E : Env} where
  try_open_entry-run :
      (barrier : Result (Unit {0})) (s : State E)
      → try_open_entry E barrier s ≡ (ok tt, record s { calls = s.calls ++ open_entry "" ∷ [] })
  unfolding try_open_entry record_call catch
  try_open_entry-run (ok _) s = refl
  try_open_entry-run (err e) s = refl

  try_entry_webhook-run :
      (webhook : Result (Unit {0})) (i : String) (c : HandleLprEntryCommand) (s : State E)
      → try_entry_webhook E webhook i c s ≡ (
        ok tt,
        record s { calls = s.calls ++ entry_webhook i c.lot_id c.plate c.entry_time ∷ [] },
      )
  unfolding try_entry_webhook record_call catch
  try_entry_webhook-run (ok _) i c s = refl
  try_entry_webhook-run (err e) i c s = refl

  -- the report raises nothing and leaves the sessions and their Redis entries alone
  report_entry-run :
      (out : EntryOutcome) (i : String) (c : HandleLprEntryCommand) (o : Option (String × String))
      (s : State E)
      → (t : State E) × (report_entry E out i c o s ≡ (ok tt, t))
        × (t.sessions ≡ s.sessions)
        × (t.parking ≡ s.parking)
        × (t.payment_requests ≡ s.payment_requests)
  unfolding report_entry consume_pre_registration ◌>>=◌
  report_entry-run out i c none s = (s, refl, refl, refl, refl)
  report_entry-run out i c (some _) s =
      (_, try_entry_webhook-run out.webhook i c _, refl, refl, refl)

module _ {E : Env} (now : ℕ) (out : EntryOutcome) (c : HandleLprEntryCommand) (s : State E) where
  abbrev called : State E
  called = record s { calls = s.calls ++ open_entry "" ∷ [] }

  abbrev entered : DateTime → State E
  entered d = record called {
    sessions = E.sessions.insert (new_session (entered_id out) c.lot_id c.plate d) s.sessions;
    parking =
        E.parking.set now (session_key c.lot_id c.plate) (entered_payload out c)
          (some session_ttl_seconds) s.parking;
  }

  enter-run :
      (d : DateTime)
      → E.iso.fromisoformat c.entry_time ≡ some d
      → session_fits (E.sessions.rows s.sessions) (new_session (entered_id out) c.lot_id c.plate d)
        ≡ true
      → (t : State E) × (open_session E now out c called ≡ (ok (created, entered_id out), t))
        × (t.sessions ≡ (entered d).sessions)
        × (t.parking ≡ (entered d).parking)
        × (t.payment_requests ≡ s.payment_requests)
  unfolding open_session create_session save_session ◌>>=◌
  enter-run d parsed fits =
      let registration = get_active_pre_registration E now c.lot_id c.plate (entered d) in
      let r = report_entry-run out (entered_id out) c registration (entered d) in
      (r.0, rw (parsed, fits, r.1), r.2, r.3, r.4)

  entry-enters :
      get_active_session_by_plate E c.plate s ≡ none
      → handle_lpr_entry E now out c s ≡ open_session E now out c called
  unfolding handle_lpr_entry enter get_active_session_by_plate
  entry-enters none_active =
      bind-ok _ _ s (try_open_entry-run out.barrier s)
      ∙ run-gets-bind _ _ called
      ∙ ap (λ o. enter E now out c o called) none_active

  -- A plate with an active session is answered with that session: the entry barrier is asked to
  -- open, and nothing else changes.
  pub entry-known :
      (r : PmsParkingSession)
      → get_active_session_by_plate E c.plate s ≡ some r
      → handle_lpr_entry E now out c s ≡ (ok (existing, r.pms_session_id), called)
  unfolding handle_lpr_entry enter get_active_session_by_plate
  entry-known r found =
      bind-ok _ _ s (try_open_entry-run out.barrier s)
      ∙ run-gets-bind _ _ called
      ∙ ap (λ o. enter E now out c o called) found
      ∙ run-pure _ called

  module _ (L : IsLawful E) where
    new-fits :
        (d : DateTime)
        → get_active_session_by_plate E c.plate s ≡ none
        → get_session_by_id E (entered_id out) s ≡ none
        → session_fits
            (E.sessions.rows s.sessions)
            (new_session (entered_id out) c.lot_id c.plate d)
          ≡ true
    unfolding session_fits get_active_session_by_plate get_session_by_id
    new-fits d none_active new_id = rw (
      ← L.sessions.scalar-rows (has_id (entered_id out)) s.sessions,
      ← L.sessions.scalar-rows (active_plate c.plate) s.sessions,
      none_active,
      new_id,
    )

    -- What an entry of a plate with no active session leaves behind.
    pub record Entered (d : DateTime) (t : State E) : Type 0 where
      pub answer : handle_lpr_entry E now out c s ≡ (ok (created, entered_id out), t)
      pub by_id :
          get_session_by_id E (entered_id out) t
          ≡ some (new_session (entered_id out) c.lot_id c.plate d)
      pub by_plate :
          get_active_session_by_plate E c.plate t
          ≡ some (new_session (entered_id out) c.lot_id c.plate d)
      pub cached :
          (later : ℕ)
          → now ≤ later
          → later < now + session_ttl_seconds
          → get_session E later c.lot_id c.plate t ≡ some (entered_payload out c)
      pub requests : t.payment_requests ≡ s.payment_requests

    inserted-first :
        (p : PmsParkingSession → Bool) (obj : PmsParkingSession) (t : State E)
        → t.sessions ≡ E.sessions.insert obj s.sessions
        → E.sessions.scalar p s.sessions ≡ none
        → p obj ≡ true
        → E.sessions.scalar p t.sessions ≡ some obj
    inserted-first p obj t e absent passes =
        rw (e, L.sessions.scalar-rows, L.sessions.rows-insert, first-append)
          (rw (← L.sessions.scalar-rows p s.sessions, absent, passes))

    cached-later :
        (d : DateTime) (t : State E) (later : ℕ)
        → t.parking ≡ (entered d).parking
        → now ≤ later
        → later < now + session_ttl_seconds
        → get_session E later c.lot_id c.plate t ≡ some (entered_payload out c)
    unfolding get_session
    cached-later d t later e from until =
        rw (e, L.parking.get-set later now _ _ _ _ _ from, eq_refl (session_key c.lot_id c.plate))
          (ground arith)

    pub entry-Entered :
        (d : DateTime)
        → E.iso.fromisoformat c.entry_time ≡ some d
        → get_active_session_by_plate E c.plate s ≡ none
        → get_session_by_id E (entered_id out) s ≡ none
        → (t : State E) × Entered d t
    unfolding get_active_session_by_plate get_session_by_id
    entry-Entered d parsed none_active new_id =
        let r = enter-run d parsed (new-fits d none_active new_id) in
        let obj = new_session (entered_id out) c.lot_id c.plate d in
        (
          r.0,
          record {
            answer = entry-enters none_active ∙ r.1;
            by_id = inserted-first (has_id _) obj r.0 r.2 new_id (eq_refl (entered_id out));
            by_plate =
                inserted-first (active_plate c.plate) obj r.0 r.2 none_active
                  (rw (eq_refl c.plate));
            cached = λ later. cached-later d r.0 later r.3;
            requests = r.4;
          },
        )
