-- ===== src/DateTime.antt =====
-- Python's `datetime`, as far as the services use it. An instant counts microseconds from a fixed
-- epoch: in UTC if it is aware, on an unnamed clock if it is naive. The text format of
-- `fromisoformat` and `isoformat` is a parameter, with the round trip that Python documents.
pub mod Unary
use car_pay_in.Base.{Option, String, some, ℕ, ◌*◌, ◌≡◌}

pub data DateTime : Type 0 where
  naive aware : ℕ → DateTime

abbrev pub micros : DateTime → ℕ
micros (naive t) = t
micros (aware t) = t

-- `datetime.now(timezone.utc)` at a second of Unix time
abbrev pub utc_now : ℕ → DateTime
utc_now now = aware (now * 1000000)

pub record Iso : Type 0 where
  pub fromisoformat : String → Option DateTime
  pub isoformat : DateTime → String

pub record IsIso (I : Iso) : Type 0 where
  pub from-iso : (d : DateTime) → I.fromisoformat (I.isoformat d) ≡ some d
