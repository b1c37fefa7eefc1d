-- ===== src/Redis.antt =====
-- A Redis client at one type of values, over seconds of Unix time. Redis is not code of this
-- repository, so the client is a parameter; `IsRedis` states the documented behaviour of GET, SET
-- with EX, DEL and TTL. The stores write JSON texts; a value stands for what `json.loads` reads
-- back. Each store has key texts of its own prefix, so each has a keyspace of its own.
pub mod Memory
use car_pay_in.Base.{
  Bool, Option, String, if◌then◌else◌, ltb, none, some, true, ℕ, ◌+◌, ◌<◌, ◌==◌, ◌≡◌, ◌≤◌,
}

pub record Redis (V : Type 0) : Type 1 where
  pub State : Type 0
  -- `client.get(key)` at a time
  pub get : ℕ → String → State → Option V
  -- `client.set(key, value, ex=…)` at a time
  pub set : ℕ → String → V → Option ℕ → State → State
  -- `client.delete(key)`
  pub delete : String → State → State
  -- `client.ttl(key)` at a time; 0 for the negative replies (no key, no expiry)
  pub ttl : ℕ → String → State → ℕ

-- whether what was set at `now` is still there at `t`
abbrev pub alive : ℕ → Option ℕ → ℕ → Bool
alive now none t = true
alive now (some ex) t = ltb t (now + ex)

pub record IsRedis {V : Type 0} (R : Redis V) : Type 0 where
  pub get-set :
      (t now : ℕ) (j k : String) (v : V) (ex : Option ℕ) (s : R.State)
      → now ≤ t
      → R.get t j (R.set now k v ex s)
        ≡ (if k == j then (if alive now ex t then some v else none) else R.get t j s)
  pub get-delete :
      (t : ℕ) (j k : String) (s : R.State)
      → R.get t j (R.delete k s) ≡ (if k == j then none else R.get t j s)
  pub get-later :
      (t u : ℕ) (k : String) (s : R.State) → t ≤ u → R.get t k s ≡ none → R.get u k s ≡ none
  pub get-ttl :
      (t u : ℕ) (k : String) (s : R.State)
      → t ≤ u
      → 0 < R.ttl t k s
      → R.get u k s ≡ (if ltb u (t + R.ttl t k s) then R.get t k s else none)
