-- ===== src/Pms/Flow/Visit.antt =====
-- A whole visit: entry, an exit that is refused, payment, exit.
use car_pay_in.Base.{ap, arith, none, refl, some, sym, ℕ, ◌+◌, ◌<◌, ◌∙◌, ◌≡◌, ◌≤◌}
use car_pay_in.DateTime.{DateTime}
use car_pay_in.Exec.{Result, ok}
use car_pay_in.Pms.Entry.{EntryOutcome, HandleLprEntryCommand, created, handle_lpr_entry}
use car_pay_in.Pms.Exit.{handle_lpr_exit, not_paid, opened}
use car_pay_in.Pms.Exit.Cases.{exit-not_paid}
use car_pay_in.Pms.Flow.EntryRun.{entered_id, entered_payload, entry-Entered}
use car_pay_in.Pms.Flow.ExitRun.{exit-Left, exited_session}
use car_pay_in.Pms.Flow.PaymentRun.{paid_session, payment-Settled}
use car_pay_in.Pms.Models.{Env, IsLawful, State, has_key, success}
use car_pay_in.Pms.Payments.{
  RecordPaymentCompleteCommand, get_by_idempotency_key, record_payment_complete,
}
use car_pay_in.Pms.Sessions.{get_active_session_by_plate, get_session_by_id, new_session}
use car_pay_in.Pms.Stores.{get_session, session_ttl_seconds}

module _ {E : Env} (L : IsLawful E) (out : EntryOutcome) (c : HandleLprEntryCommand) where
  module _ (barrier : Result (Unit {0})) (pay : RecordPaymentCompleteCommand) (s : State E) where
    -- A visit that enters at `n0`, tries to leave and then pays at `n1`, and leaves at `n2`.
    pub record Visit (n0 n1 n2 : ℕ) (d : DateTime) : Type 0 where
      pub parked : State E
      pub settled : State E
      pub left : State E
      pub enters : handle_lpr_entry E n0 out c s ≡ (ok (created, entered_id out), parked)
      pub refused :
          handle_lpr_exit E n1 barrier c.lot_id c.plate parked ≡ (ok (not_paid, none), parked)
      pub pays : record_payment_complete E n1 barrier pay parked ≡ (ok success, settled)
      pub leaves :
          handle_lpr_exit E n2 barrier c.lot_id c.plate settled
          ≡ (ok (opened, some (entered_id out)), left)
      pub closed :
          get_session_by_id E (entered_id out) left
          ≡ some
              (exited_session n2 (paid_session (new_session (entered_id out) c.lot_id c.plate d)))
      pub forgotten : (later : ℕ) → get_session E later c.lot_id c.plate left ≡ none

    -- A vehicle with no active session that enters, with an entry time that can be read and a
    -- session id that is new, is answered with the new session and refused at the exit until its
    -- payment is notified. The notification, of a key that is new and at a time that is not before
    -- the entry, is answered with success. At any later exit within three days of the entry the
    -- answer is that the barrier opens, the session's row ends as exited, and Redis has no entry
    -- for the vehicle any more.
    pub visit :
        (n0 n1 n2 : ℕ) (d : DateTime)
        → n0 ≤ n1
        → n1 ≤ n2
        → n2 < n0 + session_ttl_seconds
        → E.iso.fromisoformat c.entry_time ≡ some d
        → get_active_session_by_plate E c.plate s ≡ none
        → get_session_by_id E (entered_id out) s ≡ none
        → get_by_idempotency_key E pay.idempotency_key s ≡ none
        → pay.pms_session_id ≡ entered_id out
        → Visit n0 n1 n2 d
    unfolding get_by_idempotency_key
    visit n0 n1 n2 d p q until parsed none_active new_id new_key same =
        let (u, entry) = entry-Entered n0 out c s L d parsed none_active new_id in
        let now_cached = entry.cached n1 p (omega arith) in
        let then_cached = entry.cached n2 (omega arith) until in
        let r = new_session (entered_id out) c.lot_id c.plate d in
        let new_key' =
          ap (E.payment_requests.scalar (has_key pay.idempotency_key)) entry.requests ∙ new_key in
        let found = ap (λ i. get_session_by_id E i u) same ∙ entry.by_id in
        let (v, S) = payment-Settled L n1 barrier pay u r new_key' found in
        let paid_cached =
          S.cached n2 (entered_payload out c) q (omega arith) now_cached then_cached in
        let paid_found = ap (λ i. get_session_by_id E i v) (sym same) ∙ S.by_id in
        let (w, X) =
          exit-Left L n2 barrier c.lot_id c.plate v (entered_id out) _ _ paid_cached refl refl
            paid_found in
        record {
          parked = u;
          settled = v;
          left = w;
          enters = entry.answer;
          refused =
              exit-not_paid E n1 c.lot_id c.plate u barrier (entered_payload out c) now_cached refl;
          pays = S.answer;
          leaves = X.answer;
          closed = X.by_id;
          forgotten = X.uncached;
        }
