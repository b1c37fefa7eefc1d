-- ===== src/Pms/Paid.antt =====
-- The invariant of services/pms that a paid session has a payment, and that the repositories keep it.
use mathlib.Core.Path.{subst⁻¹}
use car_pay_in.Base.{All}
use car_pay_in.Table.{All-amend}
use car_pay_in.Table.{All-append}
use car_pay_in.Table.{All-map}
use car_pay_in.Base.{Bool}
use car_pay_in.Base.{Bool-cases}
use car_pay_in.Exec.Keeps.{Ends}
use car_pay_in.Exec.Keeps.{Keeps}
use car_pay_in.Exec.Keeps.{Keeps-bind}
use car_pay_in.Exec.Keeps.{Keeps-modify}
use car_pay_in.Base.{List}
use car_pay_in.Base.{Option-cases}
use car_pay_in.Pms.Models.{PaymentRequest}
use car_pay_in.Pms.Models.{PmsParkingSession}
use car_pay_in.Pms.Payments.{RecordPaymentCompleteCommand}
use car_pay_in.Pms.Models.{RequestStatus}
use car_pay_in.Base.{String}
use car_pay_in.Base.{[]}
use car_pay_in.Pms.Payments.{add_payment_request}
use car_pay_in.Base.{ap}
use car_pay_in.Base.{arith}
use car_pay_in.Pms.Sessions.{change}
use car_pay_in.Pms.Sessions.{change_session}
use car_pay_in.Pms.Payments.{completed_request}
use car_pay_in.Pms.Sessions.{create_session}
use car_pay_in.Base.{eq_iff}
use car_pay_in.Base.{eq_refl}
use car_pay_in.Base.{false}
use car_pay_in.Table.{first}
use car_pay_in.Table.{first-append}
use car_pay_in.Table.{first-append_some}
use car_pay_in.Pms.Payments.{get_by_idempotency_key}
use car_pay_in.Pms.Models.{has_id}
use car_pay_in.Base.{inl}
use car_pay_in.Base.{inr}
use car_pay_in.Pms.Models.{is_paid}
use car_pay_in.Base.{is_some}
use car_pay_in.Exec.Keeps.{keeps_rules}
use car_pay_in.Pms.Sessions.{mark_exited}
use car_pay_in.Pms.Sessions.{mark_paid}
use car_pay_in.Exec.{modify}
use car_pay_in.Pms.Sessions.{new_session}
use car_pay_in.Base.{none}
use car_pay_in.Pms.Models.{paid}
use car_pay_in.Base.{refl}
use car_pay_in.Pms.Models.{request_fits}
use car_pay_in.Pms.Sessions.{require_session}
use car_pay_in.Pms.Payments.{save_payment_request}
use car_pay_in.Pms.Models.{session_fits}
use car_pay_in.Pms.Models.{success}
use car_pay_in.Base.{true}
use car_pay_in.Base.{ℕ}
use car_pay_in.Base.{◌&&◌}
use car_pay_in.Base.{◌++◌}
use car_pay_in.Base.{◌==◌}
use car_pay_in.Exec.{◌>>=◌}
use car_pay_in.Base.{◌∙◌}
use car_pay_in.Base.{◌∷◌}
use car_pay_in.Base.{◌≡◌}
use car_pay_in.Pms.Models.{State, Env, IsLawful}

abbrev pub is_success : RequestStatus → Bool
is_success success = true
is_success _ = false

-- a payment that succeeded, of a session
abbrev pub pays : String → PaymentRequest → Bool
pays i p = p.pms_session_id == i && is_success p.status

abbrev pub has_payment : String → List PaymentRequest → Bool
has_payment i ps = is_some (first (pays i) ps)

abbrev pub IsCovered : List PaymentRequest → PmsParkingSession → Type 0
IsCovered ps r = is_paid r.status ≡ true → has_payment r.pms_session_id ps ≡ true

-- every session that is paid has a payment
abbrev pub IsPaidFor : (E : Env) → State E → Type 0
IsPaidFor E s =
    All (IsCovered (E.payment_requests.rows s.payment_requests)) (E.sessions.rows s.sessions)

-- and one session has a payment, paid or not
pub record IsPayable (E : Env) (i : String) (s : State E) : Type 0 where
  pub all_paid : IsPaidFor E s
  pub paid_one : has_payment i (E.payment_requests.rows s.payment_requests) ≡ true

module _ {E : Env} (L : IsLawful E) where
  abbrev requests : State E → List PaymentRequest
  requests s = E.payment_requests.rows s.payment_requests

  change-IsPaidFor :
      (i : String) (f : PmsParkingSession → PmsParkingSession) (s : State E)
      → ((r : PmsParkingSession) → has_id i r ≡ true → IsCovered (requests s) (f r))
      → IsPaidFor E s
      → IsPaidFor E (change E i f s)
  change-IsPaidFor i f s covers kept =
      subst⁻¹ (λ rows. All (IsCovered (requests s)) rows)
        (L.sessions.rows-update (has_id i) f s.sessions)
        (All-amend (IsCovered (requests s)) (has_id i) f (E.sessions.rows s.sessions)
          (λ r same _. covers r same) kept)

  insert-IsPaidFor :
      (r : PmsParkingSession) (s : State E)
      → is_paid r.status ≡ false
      → IsPaidFor E s
      → IsPaidFor E (record s { sessions = E.sessions.insert r s.sessions })
  insert-IsPaidFor r s unpaid kept =
      subst⁻¹ (λ rows. All (IsCovered (requests s)) rows) (L.sessions.rows-insert r s.sessions)
        (All-append (IsCovered (requests s)) r (E.sessions.rows s.sessions) kept
          (λ clash. ground (arith, clash, unpaid)))

  insert_request-IsPaidFor :
      (x : PaymentRequest) (s : State E)
      → IsPaidFor E s
      → IsPaidFor E (record s { payment_requests = E.payment_requests.insert x s.payment_requests })
  insert_request-IsPaidFor x s kept =
      subst⁻¹ (λ ps. All (IsCovered ps) (E.sessions.rows s.sessions))
        (L.payment_requests.rows-insert x s.payment_requests)
        (All-map (IsCovered (requests s)) (IsCovered (requests s ++ x ∷ []))
          (E.sessions.rows s.sessions)
          (λ r covered is_now.
            first-append_some (pays r.pms_session_id) x (requests s) (covered is_now))
          kept)

  inserted-paid :
      (x : PaymentRequest) (s : State E)
      → x.status ≡ success
      → has_payment x.pms_session_id
          (E.payment_requests.rows (E.payment_requests.insert x s.payment_requests))
        ≡ true
  inserted-paid x s succeeded =
      rw (L.payment_requests.rows-insert, first-append, succeeded, eq_refl x.pms_session_id)
        (ground arith)

  pub create_session-Keeps :
      (i lot plate t : String) → Keeps (IsPaidFor E) (create_session E i lot plate t)
  unfolding create_session ◌>>=◌
  create_session-Keeps i lot plate t = record {
    at = λ s v. elim (Option-cases (E.iso.fromisoformat t)) [
      | inl bad ↦ rw bad v
      | inr (d, good) ↦
          let obj = new_session i lot plate d in
          rw good (elim (Bool-cases (session_fits (E.sessions.rows s.sessions) obj)) [
            | inl fits ↦ rw fits (insert-IsPaidFor obj s refl v)
            | inr clash ↦ rw clash v
          ])
    ];
  }

  change_session-Keeps :
      (P : State E → Type 0) (i : String) (f : PmsParkingSession → PmsParkingSession)
      → ((s : State E) → P s → P (change E i f s))
      → Keeps P (change_session E i f)
  unfolding change_session require_session
  change_session-Keeps P i f keeps =
      Keeps-bind (λ _. modify (change E i f)) (require_session E i) (search keeps_rules)
        (λ _. Keeps-modify _ keeps)

  -- only a session that has a payment is marked as paid
  pub mark_paid-Keeps : (i : String) → Keeps (IsPayable E i) (mark_paid E i)
  unfolding mark_paid
  mark_paid-Keeps i = change_session-Keeps (IsPayable E i) i _ (λ s v. record {
    all_paid =
        change-IsPaidFor i (λ r. record r { status = paid }) s
          (λ r same _.
            ap (λ j. has_payment j (requests s)) ((eq_iff r.pms_session_id i).0 same) ∙ v.paid_one)
          v.all_paid;
    paid_one = v.paid_one;
  })

  pub mark_exited-Keeps : (i : String) (now : ℕ) → Keeps (IsPaidFor E) (mark_exited E i now)
  unfolding mark_exited
  mark_exited-Keeps i now =
      change_session-Keeps (IsPaidFor E) i _
        (λ s v. change-IsPaidFor i _ s (λ r _ clash. ground (arith, clash)) v)

  pub save_payment_request-Ends :
      (now : ℕ) (c : RecordPaymentCompleteCommand) (s : State E)
      → get_by_idempotency_key E c.idempotency_key s ≡ none
      → IsPaidFor E s
      → Ends (IsPayable E c.pms_session_id) (IsPaidFor E) (save_payment_request E now c s)
  unfolding save_payment_request add_payment_request ◌>>=◌
  save_payment_request-Ends now c s new v =
      let x = completed_request now c in
      rw new (elim (Bool-cases (request_fits (E.sessions.rows s.sessions) (requests s) x)) [
        | inl fits ↦ rw fits (record {
          all_paid = insert_request-IsPaidFor x s v;
          paid_one = inserted-paid x s refl;
        })
        | inr clash ↦ rw clash v
      ])
