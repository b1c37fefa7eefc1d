-- ===== src/Backend/Entry/Again.antt =====
-- The webhook of an entry: the session that it opens, and the webhook that comes again.
use car_pay_in.Backend.Entry.{
  HandleEntryWebhookCommand, WebhookOutcome, after_publish_entry, confirmed, create_session,
  delete_pre_notify, enter_car, enter_once, enter_registered, entry_retry_key,
  entry_retry_ttl_seconds, get_active_session_by_car_id, get_pre_notify,
  get_session_by_pms_session_id, handle_entry_webhook, new_session, open_session, pre_notify_key,
}
use car_pay_in.Backend.Env.{Env, IsLawful, State, publish_entry, record_call}
use car_pay_in.Backend.Models.{ParkingSession, PreNotify, has_pms_id, session_fits}
use car_pay_in.Backend.Payment.Runs.{parse_uuid-some}
use car_pay_in.Base.{String, [], ap, eq_refl, none, refl, some, true, ℕ, ◌++◌, ◌∙◌, ◌∷◌, ◌≡◌}
use car_pay_in.DateTime.{DateTime}
use car_pay_in.Exec.{Result, err, ok, ◌>>=◌}
use car_pay_in.Exec.Run.{bind-ok, or_raise-some, run-gets-bind, run-lift, run-modify, run-pure}
use car_pay_in.Table.{first-append}

module _ {E : Env} (L : IsLawful E) (validator : ℕ → String → String → String → Result (Unit {0}))
    (c : HandleEntryWebhookCommand) where
  known-run :
      (now : ℕ) (out : WebhookOutcome) (s : State E) {d : DateTime} {r : ParkingSession}
      → validator now c.signature_timestamp c.pms_token c.raw_body ≡ ok tt
      → E.iso.fromisoformat c.entry_time ≡ some d
      → get_session_by_pms_session_id E c.pms_session_id s ≡ some r
      → handle_entry_webhook E now out c validator s ≡ (ok (confirmed, some r.session_id), s)
  unfolding handle_entry_webhook enter_once ◌>>=◌
  known-run now out s signed_now parsed known = rw (signed_now, parsed, known)

  module _ (now : ℕ) (out : WebhookOutcome) (s : State E) (p : PreNotify) (u : String)
      (d : DateTime) where
    abbrev row : ParkingSession
    row = new_session u c p.car_id d

    -- a session is opened for the pre-notified car
    pub record Opened (z : State E) : Type 0 where
      pub answered :
          handle_entry_webhook E now out c validator s ≡ (ok (confirmed, some out.session_uuid), z)
      pub by_pms_id : get_session_by_pms_session_id E c.pms_session_id z ≡ some row
      pub forgotten : (later : ℕ) → get_pre_notify E later c.lot_id c.plate z ≡ none
      pub called :
          z.calls ≡ s.calls ++ publish_entry out.session_uuid p.car_id c.lot_id c.entry_time ∷ []
      -- the webhook again, at a time when its signature is still accepted
      pub again :
          (later : ℕ) (out' : WebhookOutcome)
          → validator later c.signature_timestamp c.pms_token c.raw_body ≡ ok tt
          → handle_entry_webhook E later out' c validator z ≡ (ok (confirmed, some u), z)

    abbrev after_retry : Result (Unit {0}) → E.entry_retries.State
    after_retry (ok _) = E.entry_retries.delete (entry_retry_key out.session_uuid) s.entry_retries
    after_retry (err _) =
        E.entry_retries.set now (entry_retry_key out.session_uuid)
          (record {
            car_id = p.car_id;
            session_id = out.session_uuid;
            lot_id = c.lot_id;
            entry_time = c.entry_time;
          })
          (some entry_retry_ttl_seconds) s.entry_retries

    abbrev opened_state : State E
    opened_state = record s {
      sessions = E.sessions.insert row s.sessions;
      pre_notifies = E.pre_notifies.delete (pre_notify_key c.lot_id c.plate) s.pre_notifies;
      entry_retries = after_retry out.publisher;
      calls = s.calls ++ publish_entry out.session_uuid p.car_id c.lot_id c.entry_time ∷ [];
    }

    after_publish-run :
        (o : Result (Unit {0})) (t : State E)
        → t.entry_retries ≡ s.entry_retries
        → after_publish_entry E now out c p.car_id o t
          ≡ (ok tt, record t { entry_retries = after_retry o })
    unfolding after_publish_entry ◌>>=◌
    after_publish-run (ok _) t same =
        ap
          (λ q. (
            ok tt,
            record t {
              entry_retries = E.entry_retries.delete (entry_retry_key out.session_uuid) q;
            },
          ))
          same
    after_publish-run (err _) t same =
        ap
          (λ q. (
            ok tt,
            record t {
              entry_retries =
                  E.entry_retries.set now (entry_retry_key out.session_uuid)
                    (record {
                      car_id = p.car_id;
                      session_id = out.session_uuid;
                      lot_id = c.lot_id;
                      entry_time = c.entry_time;
                    })
                    (some entry_retry_ttl_seconds) q;
            },
          ))
          same

    abbrev with_row : State E
    with_row = record s { sessions = E.sessions.insert row s.sessions }

    create-run :
        E.uuid out.session_uuid ≡ some u
        → E.iso.fromisoformat c.entry_time ≡ some d
        → session_fits
            (E.vehicles.rows s.vehicles)
            (E.sessions.rows s.sessions)
            c.pms_session_id
            row
          ≡ true
        → create_session E now out c p.car_id s ≡ (ok tt, with_row)
    unfolding create_session ◌>>=◌
    create-run known parsed fits =
        let uuid_parsed = parse_uuid-some E out.session_uuid known in rw (uuid_parsed, parsed, fits)

    open-run :
        E.uuid out.session_uuid ≡ some u
        → E.iso.fromisoformat c.entry_time ≡ some d
        → session_fits
            (E.vehicles.rows s.vehicles)
            (E.sessions.rows s.sessions)
            c.pms_session_id
            row
          ≡ true
        → open_session E now out c p.car_id s
          ≡ (ok (confirmed, some out.session_uuid), opened_state)
    unfolding open_session delete_pre_notify record_call
    open-run known parsed fits =
        bind-ok _ _ s (create-run known parsed fits)
        ∙ bind-ok _ _ with_row (run-modify _ with_row)
        ∙ bind-ok _ _ _ refl
        ∙ bind-ok _ _ _ (after_publish-run out.publisher _ refl)
        ∙ run-pure _ _

    inserted-found :
        get_session_by_pms_session_id E c.pms_session_id s ≡ none
        → get_session_by_pms_session_id E c.pms_session_id opened_state ≡ some row
    unfolding get_session_by_pms_session_id
    inserted-found new =
        let none_before =
          rw (L.sessions.scalar-rows (has_pms_id c.pms_session_id) s.sessions) at new in
        rw (
          L.sessions.scalar-rows,
          L.sessions.rows-insert,
          first-append,
          none_before,
          eq_refl c.pms_session_id,
        )

    -- A webhook that is accepted, of a session in the lot that is new, for a plate that is
    -- pre-notified by a car without an active session, and with a new id that breaks no constraint
    -- of the table: whether or not the app is reached, it is answered as confirmed with the id of a
    -- session that is opened for the car, the pre-notification is gone, and one notification of the
    -- app was tried. The same webhook again, as long as it is accepted, is answered with that
    -- session and changes nothing.
    pub handle_entry_webhook-Opened :
        validator now c.signature_timestamp c.pms_token c.raw_body ≡ ok tt
        → E.iso.fromisoformat c.entry_time ≡ some d
        → get_session_by_pms_session_id E c.pms_session_id s ≡ none
        → get_pre_notify E now c.lot_id c.plate s ≡ some p
        → get_active_session_by_car_id E p.car_id s ≡ none
        → E.uuid out.session_uuid ≡ some u
        → session_fits
            (E.vehicles.rows s.vehicles)
            (E.sessions.rows s.sessions)
            c.pms_session_id
            row
          ≡ true
        → (z : State E) × Opened z
    unfolding handle_entry_webhook enter_once enter_registered enter_car get_pre_notify
    handle_entry_webhook-Opened signed_now parsed new registered none_active known fits = (
      opened_state,
      record {
        answered =
            bind-ok _ _ s (run-lift _ s signed_now)
            ∙ bind-ok _ _ s (or_raise-some _ s parsed)
            ∙ run-gets-bind _ _ s
            ∙ ap (λ o. enter_once E now out c o s) new
            ∙ run-gets-bind _ _ s
            ∙ ap (λ o. enter_registered E now out c o s) registered
            ∙ run-gets-bind _ _ s
            ∙ ap (λ o. enter_car E now out c p.car_id o s) none_active
            ∙ open-run known parsed fits;
        by_pms_id = inserted-found new;
        forgotten =
            λ later. rw (L.pre_notifies.get-delete, eq_refl (pre_notify_key c.lot_id c.plate));
        called = refl;
        again = λ later out' accepted.
            known-run later out' opened_state accepted parsed (inserted-found new);
      },
    )
