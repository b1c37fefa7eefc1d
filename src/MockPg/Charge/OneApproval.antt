-- ===== src/MockPg/Charge/OneApproval.antt =====
-- Sequences of charges at the mock PG, and the approvals that it asks the card company for.
use car_pay_in.Base.{
  Bool, String, [], ap, arith, eq_iff, false, if◌then◌else◌, none, refl, ◌++◌, ◌+◌, ◌==◌, ◌∙◌, ◌∷◌,
  ◌≡◌, ◌≤◌,
}
use car_pay_in.Exec.{Result}
use car_pay_in.MockPg.{BillingKey, Call, Env, IsLawful, PgTransaction, State, approve, pending}
use car_pay_in.MockPg.Charge.{ChargeBillingKeyCommand, ChargeBillingKeyResult, charge_billing_key}
use car_pay_in.MockPg.Charge.Ends.{
  Run, answer_at, asked, asked_state, clash, repeated, transaction_of, unknown, unusable,
}
use car_pay_in.MockPg.Charge.Ledger.{appended-found, asked-rows, decided-same}
use car_pay_in.MockPg.Charge.Runs.{charge-Run}
use car_pay_in.MockPg.Repositories.{change_transaction, get_by_idempotency_key}
use car_pay_in.Table.{tally, tally-append}

-- any sequence of charges, with the texts that are drawn
pub data Charges {E : Env} (s : State E) : State E → Type 0 where
  no_charge : Charges s s
  then_charge :
      {t : State E} (tx_hex : String) (c : ChargeBillingKeyCommand)
      → Charges s t
      → Charges s (charge_billing_key E tx_hex c t).1

-- the approvals under an idempotency key
abbrev pub is_approval : String → Call → Bool
is_approval k (approve r) = r.idempotency_key == k
is_approval k _ = false

module _ {E : Env} where
  -- at most one approval has been asked for under a key, and none without a transaction of the key
  pub record AreApprovedOnce (s : State E) : Type 0 where
    pub once : (k : String) → tally (is_approval k) s.calls ≤ 1
    pub none_before :
        (k : String) → get_by_idempotency_key E k s ≡ none → tally (is_approval k) s.calls ≡ 0

module _ {E : Env} (L : IsLawful E) (tx_hex : String) (c : ChargeBillingKeyCommand)
    (s : State E) where
  entered-AreApprovedOnce :
      (x : PgTransaction) (t : State E)
      → get_by_idempotency_key E x.idempotency_key s ≡ none
      → E.transactions.rows t.transactions ≡ E.transactions.rows s.transactions ++ x ∷ []
      → ((k : String)
          → tally (is_approval k) t.calls
            ≤ tally (is_approval k) s.calls + (if x.idempotency_key == k then 1 else 0))
      → AreApprovedOnce s
      → AreApprovedOnce t
  entered-AreApprovedOnce x t new rows more v = record {
    once = λ k. ground (arith, v.once k, v.none_before k, new, more k, eq_iff x.idempotency_key k);
    none_before = λ k missing. ground (
      arith,
      v.none_before k,
      more k,
      appended-found L x s t new rows k,
      missing,
      eq_iff x.idempotency_key k,
    );
  }

  asked-AreApprovedOnce :
      (b : BillingKey)
      → get_by_idempotency_key E c.idempotency_key s ≡ none
      → AreApprovedOnce s
      → AreApprovedOnce (asked_state E tx_hex c b s)
  asked-AreApprovedOnce b new v =
      let same =
        (decided-same E (answer_at E tx_hex c b s) (transaction_of tx_hex c b pending none)).0 in
      entered-AreApprovedOnce _ _ (ap (λ k. get_by_idempotency_key E k s) same ∙ new)
        (asked-rows L tx_hex c b s new)
        (λ k. rw same (unfold change_transaction in rw tally-append (omega arith))) v

  Run-AreApprovedOnce :
      {e : Result ChargeBillingKeyResult × State E}
      → Run E tx_hex c s e
      → AreApprovedOnce s
      → AreApprovedOnce e.1
  Run-AreApprovedOnce (repeated x found) v = v
  Run-AreApprovedOnce (unknown new missing) v = v
  Run-AreApprovedOnce (clash b status reason new fails) v = v
  Run-AreApprovedOnce (unusable b new found idle fits) v =
      entered-AreApprovedOnce _ _ new (L.transactions.rows-insert _ _) (λ k. omega arith) v
  Run-AreApprovedOnce (asked b new found usable fits) v = asked-AreApprovedOnce b new v

module _ {E : Env} (L : IsLawful E) where
  charges-AreApprovedOnce : {s t : State E} → Charges s t → AreApprovedOnce s → AreApprovedOnce t
  charges-AreApprovedOnce no_charge v = v
  charges-AreApprovedOnce (then_charge {t = t} tx_hex c before) v =
      Run-AreApprovedOnce L tx_hex c t (charge-Run L tx_hex c t) (charges-AreApprovedOnce before v)

  -- From a state in which no approval has been asked for: however many charges follow, with
  -- repeated or new idempotency keys and whatever the card company answers, it is asked at most
  -- once for an approval under each key.
  pub charges-one_approval :
      {s t : State E}
      → s.calls ≡ []
      → Charges s t
      → (k : String) → tally (is_approval k) t.calls ≤ 1
  unfolding tally
  charges-one_approval {s = s} fresh charges k =
      (charges-AreApprovedOnce charges
          (record { once = λ j. rw fresh (omega arith); none_before = λ j _. rw fresh refl })).once
        k
