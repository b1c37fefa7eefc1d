-- ===== src/Pms/System.antt =====
-- services/pms as a whole: the requests that its routes
-- (services/pms/app/api/routes/pms.py) hand to the services, one after the other, and the
-- invariant that every sequence of them keeps.
use car_pay_in.Exec.Keeps.{Ends}
use car_pay_in.Exec.Keeps.{Ends-bind}
use car_pay_in.Exec.{Exec}
use car_pay_in.Pms.Models.{RequestStatus}
use car_pay_in.Exec.{err}
use car_pay_in.Exec.{ok}
use car_pay_in.Exec.Run.{run-pure}
use car_pay_in.Pms.Payments.{save_payment_request}
use car_pay_in.Pms.Payments.{get_by_idempotency_key}
use car_pay_in.Exec.{pure}
use car_pay_in.Base.{refl}
use car_pay_in.Exec.Run.{run-gets-bind}
use car_pay_in.Pms.Models.{success}
use car_pay_in.Exec.{◌>>◌}
use car_pay_in.Base.{◌≡◌}
use car_pay_in.Base.{Bool, Option, String, false, none, some, ℕ}
use car_pay_in.Exec.{Exception, Result, lookup_error}
use car_pay_in.Exec.Keeps.{Keeps, Keeps-bind, Keeps-modify, Keeps-pure, keeps_rules}
use car_pay_in.Pms.Entry.{
  EntryOutcome, HandleLprEntryCommand, enter, handle_lpr_entry, open_session, register_pre_notify,
  report_entry, try_entry_webhook, try_open_entry,
}
use car_pay_in.Pms.Exit.{exit_cached, exit_paid, handle_lpr_exit, open_and_exit}
use car_pay_in.Pms.Fee.{CalculateFeeCommand, calculate_fee}
use car_pay_in.Pms.Models.{
  Call, Env, IsLawful, ParkingPayload, PaymentRequest, PmsParkingSession, SessionStatus, State,
  paid, record_call,
}
use car_pay_in.Pms.Payments.{
  RecordPaymentCompleteCommand, pass_lookup_error, publish_paid, record_once,
  record_payment_complete, settle_session, try_open_exit,
}
use car_pay_in.Pms.Stores.{
  consume_pre_registration, delete_session, save_pre_registration, save_session, session_key,
  update_status, write_status,
}
use car_pay_in.Pms.Paid.{
  IsPaidFor, IsPayable, create_session-Keeps, mark_exited-Keeps, mark_paid-Keeps,
  save_payment_request-Ends,
}

-- one request, at a time, with the way in which the calls to other processes end
pub data Step {E : Env} : State E → State E → Type 0 where
  pre_register :
      (now : ℕ) (lot plate : String) (s : State E)
      → Step s (register_pre_notify E now lot plate s).1
  lpr_entry :
      (now : ℕ) (out : EntryOutcome) (c : HandleLprEntryCommand) (s : State E)
      → Step s (handle_lpr_entry E now out c s).1
  fee :
      (rate now : ℕ) (c : CalculateFeeCommand) (s : State E)
      → Step s (calculate_fee E rate now c s).1
  payment_complete :
      (now : ℕ) (barrier : Result (Unit {0})) (c : RecordPaymentCompleteCommand) (s : State E)
      → Step s (record_payment_complete E now barrier c s).1
  lpr_exit :
      (now : ℕ) (barrier : Result (Unit {0})) (lot plate : String) (s : State E)
      → Step s (handle_lpr_exit E now barrier lot plate s).1

pub data Reach {E : Env} (s : State E) : State E → Type 0 where
  here : Reach s s
  next : {t u : State E} → Reach s t → Step t u → Reach s u

module _ {E : Env} (L : IsLawful E) where
  record_call-Keeps : (c : Call) → Keeps (IsPaidFor E) (record_call E c)
  unfolding record_call
  record_call-Keeps c = record { at = λ s v. v }

  write_status-Keeps :
      (j : String) (now : ℕ) (key : String) (status : SessionStatus) (o : Option ParkingPayload)
      → Keeps (IsPayable E j) (write_status E now key status o)
  unfolding write_status
  write_status-Keeps j now key status none = record { at = λ s v. v }
  write_status-Keeps j now key status (some p) = record {
    at = λ s v. record { all_paid = v.all_paid; paid_one = v.paid_one };
  }

  update_status-Keeps :
      (j : String) (now : ℕ) (lot plate : String) (status : SessionStatus)
      → Keeps (IsPayable E j) (update_status E now lot plate status)
  unfolding update_status
  update_status-Keeps j now lot plate status = record {
    at = λ s. (write_status-Keeps j now (session_key lot plate) status _).at s;
  }

  publish_paid-Keeps :
      (j : String) (now : ℕ) (o : Option PmsParkingSession)
      → Keeps (IsPayable E j) (publish_paid E now o)
  unfolding publish_paid
  publish_paid-Keeps j now none = search keeps_rules
  publish_paid-Keeps j now (some r) = update_status-Keeps j now r.lot_id r.plate paid

  pass_lookup_error-Keeps :
      (j : String) (e : Exception) → Keeps (IsPayable E j) (pass_lookup_error E e)
  pass_lookup_error-Keeps j (lookup_error _) = search keeps_rules
  pass_lookup_error-Keeps j _ = search keeps_rules

  settle_session-Keeps : (now : ℕ) (i : String) → Keeps (IsPayable E i) (settle_session E now i)
  unfolding settle_session
  settle_session-Keeps now i =
      search (keeps_rules, mark_paid-Keeps L, publish_paid-Keeps, pass_lookup_error-Keeps)

  try_open_exit-Keeps :
      (barrier : Result (Unit {0})) (i : String) → Keeps (IsPaidFor E) (try_open_exit E barrier i)
  unfolding try_open_exit
  try_open_exit-Keeps barrier i = search (keeps_rules, record_call-Keeps)

  paying-record_call : (j : String) (c : Call) → Keeps (IsPayable E j) (record_call E c)
  unfolding record_call
  paying-record_call j c = record {
    at = λ s v. record { all_paid = v.all_paid; paid_one = v.paid_one };
  }

  paying-try_open_exit :
      (j : String) (barrier : Result (Unit {0})) (i : String)
      → Keeps (IsPayable E j) (try_open_exit E barrier i)
  unfolding try_open_exit
  paying-try_open_exit j barrier i = search (keeps_rules, paying-record_call)

  -- what follows once the payment is stored
  abbrev settle_and_open : ℕ → Result (Unit {0}) → String → Exec (State E) RequestStatus
  settle_and_open now barrier i = do settle_session E now i; try_open_exit E barrier i; pure success

  settle_and_open-Keeps :
      (now : ℕ) (barrier : Result (Unit {0})) (i : String)
      → Keeps (IsPayable E i) (settle_and_open now barrier i)
  settle_and_open-Keeps now barrier i =
      search (keeps_rules, settle_session-Keeps, paying-try_open_exit)

  either_way :
      {A : Type 0} (e : Result A × State E) → IsPaidFor E e.1 → Ends (IsPaidFor E) (IsPaidFor E) e
  either_way (ok _, t) v = v
  either_way (err _, t) v = v

  after_all :
      {A : Type 0} (e : Result A × State E) → Ends (IsPaidFor E) (IsPaidFor E) e → IsPaidFor E e.1
  after_all (ok _, t) v = v
  after_all (err _, t) v = v

  record_once-IsPaidFor :
      (now : ℕ) (barrier : Result (Unit {0})) (c : RecordPaymentCompleteCommand)
      (o : Option PaymentRequest) (s : State E)
      → get_by_idempotency_key E c.idempotency_key s ≡ o
      → IsPaidFor E s
      → IsPaidFor E (record_once E now barrier c o s).1
  unfolding record_once
  record_once-IsPaidFor now barrier c (some known) s same v = rw (run-pure known.status s) v
  record_once-IsPaidFor now barrier c none s new v = after_all _ (
      Ends-bind (IsPayable E c.pms_session_id) (IsPaidFor E) (IsPaidFor E)
        (save_payment_request E now c) (λ _. settle_and_open now barrier c.pms_session_id) s
        (save_payment_request-Ends L now c s new v)
        (λ _ t payable.
          either_way _
            ((settle_and_open-Keeps now barrier c.pms_session_id).at t payable).all_paid))

  record_payment_complete-Keeps :
      (now : ℕ) (barrier : Result (Unit {0})) (c : RecordPaymentCompleteCommand)
      → Keeps (IsPaidFor E) (record_payment_complete E now barrier c)
  unfolding record_payment_complete
  record_payment_complete-Keeps now barrier c = record {
    at = λ s v. rw run-gets-bind (record_once-IsPaidFor now barrier c _ s refl v);
  }

  save_session-Keeps :
      (now : ℕ) (lot plate i t : String) → Keeps (IsPaidFor E) (save_session E now lot plate i t)
  unfolding save_session
  save_session-Keeps now lot plate i t = Keeps-modify _ (λ s v. v)

  consume-Keeps : (lot plate : String) → Keeps (IsPaidFor E) (consume_pre_registration E lot plate)
  unfolding consume_pre_registration
  consume-Keeps lot plate = Keeps-modify _ (λ s v. v)

  delete_session-Keeps : (lot plate : String) → Keeps (IsPaidFor E) (delete_session E lot plate)
  unfolding delete_session
  delete_session-Keeps lot plate = Keeps-modify _ (λ s v. v)

  report_entry-Keeps :
      (out : EntryOutcome) (i : String) (c : HandleLprEntryCommand) (o : Option (String × String))
      → Keeps (IsPaidFor E) (report_entry E out i c o)
  unfolding report_entry try_entry_webhook
  report_entry-Keeps out i c none = search keeps_rules
  report_entry-Keeps out i c (some _) = search (keeps_rules, consume-Keeps, record_call-Keeps)

  enter-Keeps :
      (now : ℕ) (out : EntryOutcome) (c : HandleLprEntryCommand) (o : Option PmsParkingSession)
      → Keeps (IsPaidFor E) (enter E now out c o)
  unfolding enter open_session
  enter-Keeps now out c (some r) = search keeps_rules
  enter-Keeps now out c none =
      search (keeps_rules, create_session-Keeps L, save_session-Keeps, report_entry-Keeps)

  handle_lpr_entry-Keeps :
      (now : ℕ) (out : EntryOutcome) (c : HandleLprEntryCommand)
      → Keeps (IsPaidFor E) (handle_lpr_entry E now out c)
  unfolding handle_lpr_entry try_open_entry
  handle_lpr_entry-Keeps now out c = search (keeps_rules, record_call-Keeps, enter-Keeps)

  open_and_exit-Keeps :
      (now : ℕ) (barrier : Result (Unit {0})) (i lot plate : String) (from_redis : Bool)
      → Keeps (IsPaidFor E) (open_and_exit E now barrier i lot plate from_redis)
  unfolding open_and_exit
  open_and_exit-Keeps now barrier i lot plate from_redis =
      search (keeps_rules, try_open_exit-Keeps, delete_session-Keeps, mark_exited-Keeps L)

  exit_paid-Keeps :
      (now : ℕ) (barrier : Result (Unit {0})) (lot plate : String) (o : Option PmsParkingSession)
      → Keeps (IsPaidFor E) (exit_paid E now barrier lot plate o)
  unfolding exit_paid
  exit_paid-Keeps now barrier lot plate (some r) = open_and_exit-Keeps now barrier _ lot plate false
  exit_paid-Keeps now barrier lot plate none = search keeps_rules

  exit_cached-Keeps :
      (now : ℕ) (barrier : Result (Unit {0})) (lot plate : String) (o : Option ParkingPayload)
      → Keeps (IsPaidFor E) (exit_cached E now barrier lot plate o)
  unfolding exit_cached
  exit_cached-Keeps now barrier lot plate (some p) = search (keeps_rules, open_and_exit-Keeps)
  exit_cached-Keeps now barrier lot plate none = search (keeps_rules, exit_paid-Keeps)

  handle_lpr_exit-Keeps :
      (now : ℕ) (barrier : Result (Unit {0})) (lot plate : String)
      → Keeps (IsPaidFor E) (handle_lpr_exit E now barrier lot plate)
  unfolding handle_lpr_exit
  handle_lpr_exit-Keeps now barrier lot plate = search (keeps_rules, exit_cached-Keeps)

  calculate_fee-Keeps :
      (rate now : ℕ) (c : CalculateFeeCommand) → Keeps (IsPaidFor E) (calculate_fee E rate now c)
  unfolding calculate_fee
  calculate_fee-Keeps rate now c = search keeps_rules depth 12

  register_pre_notify-Keeps :
      (now : ℕ) (lot plate : String) → Keeps (IsPaidFor E) (register_pre_notify E now lot plate)
  unfolding register_pre_notify save_pre_registration
  register_pre_notify-Keeps now lot plate =
      Keeps-bind _ _ (Keeps-modify _ (λ s v. v)) (λ _. Keeps-pure _)

  Step-IsPaidFor : {s t : State E} → Step s t → IsPaidFor E s → IsPaidFor E t
  Step-IsPaidFor (pre_register now lot plate s) v = (register_pre_notify-Keeps now lot plate).at s v
  Step-IsPaidFor (lpr_entry now out c s) v = (handle_lpr_entry-Keeps now out c).at s v
  Step-IsPaidFor (fee rate now c s) v = (calculate_fee-Keeps rate now c).at s v
  Step-IsPaidFor (payment_complete now barrier c s) v =
      (record_payment_complete-Keeps now barrier c).at s v
  Step-IsPaidFor (lpr_exit now barrier lot plate s) v =
      (handle_lpr_exit-Keeps now barrier lot plate).at s v

  -- However many requests arrive, in any order and with any outcome of the calls to other
  -- processes: if every session that is marked as paid has a stored payment that succeeded at first,
  -- then so it is afterwards.
  pub Reach-IsPaidFor : {s t : State E} → Reach s t → IsPaidFor E s → IsPaidFor E t
  Reach-IsPaidFor here v = v
  Reach-IsPaidFor (next r st) v = Step-IsPaidFor st (Reach-IsPaidFor r v)
