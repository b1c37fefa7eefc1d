-- ===== src/Redis/Memory.antt =====
-- A Redis keyspace kept as a list of entries. It shows that the laws of a client can hold.
use car_pay_in.Base.{
  List, Option, String, [], arith, eq_iff, if◌then◌else◌, ltb, none, refl, some, ℕ, ◌+◌, ◌-◌, ◌<◌,
  ◌==◌, ◌∷◌, ◌≡◌, ◌≤◌,
}
use car_pay_in.Redis.{IsRedis, Redis, alive}

abbrev Entries : Type 0 → Type 0
Entries V = List (String × V × Option ℕ)

abbrev left : ℕ → Option ℕ → ℕ
left t none = 0
left t (some until) = until - t

abbrev expiry : ℕ → Option ℕ → Option ℕ
expiry now none = none
expiry now (some ex) = some (now + ex)

module _ {V : Type 0} where
  -- an entry with the second at which it expires
  get_entry : ℕ → String → Entries V → Option V
  get_entry t k [] = none
  get_entry t k ((j, v, until) ∷ l) =
      if j == k then (if alive 0 until t then some v else none) else get_entry t k l

  delete_entry : String → Entries V → Entries V
  delete_entry k [] = []
  delete_entry k ((j, v, until) ∷ l) =
      let rest = delete_entry k l in if j == k then rest else (j, v, until) ∷ rest

  ttl_entry : ℕ → String → Entries V → ℕ
  ttl_entry t k [] = 0
  ttl_entry t k ((j, v, until) ∷ l) = if j == k then left t until else ttl_entry t k l

  unfoldable pub memory_redis : Redis V
  unfolding get_entry delete_entry ttl_entry
  memory_redis = record {
    State = Entries V;
    get = get_entry;
    set = λ now k v ex l. (k, v, expiry now ex) ∷ delete_entry k l;
    delete = delete_entry;
    ttl = ttl_entry;
  }

  get_entry-delete :
      (t : ℕ) (j k : String) (l : Entries V)
      → get_entry t j (delete_entry k l) ≡ (if k == j then none else get_entry t j l)
  unfolding get_entry delete_entry
  get_entry-delete t j k [] = ground arith
  get_entry-delete t j k ((i, v, until) ∷ l) =
      ground (arith, get_entry-delete t j k l, eq_iff i k, eq_iff i j, eq_iff k j)

  get_entry-later :
      (t u : ℕ) (k : String) (l : Entries V)
      → t ≤ u
      → get_entry t k l ≡ none
      → get_entry u k l ≡ none
  unfolding get_entry
  get_entry-later t u k [] h e = refl
  get_entry-later t u k ((j, v, until) ∷ l) h e = ground (arith, get_entry-later t u k l h)

  get_entry-ttl :
      (t u : ℕ) (k : String) (l : Entries V)
      → t ≤ u
      → 0 < ttl_entry t k l
      → get_entry u k l ≡ (if ltb u (t + ttl_entry t k l) then get_entry t k l else none)
  unfolding get_entry ttl_entry
  get_entry-ttl t u k [] h p = absurd (omega arith)
  get_entry-ttl t u k ((j, v, until) ∷ l) h p = ground (arith, get_entry-ttl t u k l h)

  memory_redis-set :
      (t now : ℕ) (j k : String) (v : V) (ex : Option ℕ) (l : Entries V)
      → now ≤ t
      → get_entry t j ((k, v, expiry now ex) ∷ delete_entry k l)
        ≡ (if k == j then (if alive now ex t then some v else none) else get_entry t j l)
  unfolding get_entry
  memory_redis-set t now j k v ex l h = ground (arith, get_entry-delete t j k l)

  pub memory_redis-IsRedis : IsRedis memory_redis
  unfolding memory_redis
  memory_redis-IsRedis = record {
    get-set = memory_redis-set;
    get-delete = get_entry-delete;
    get-later = get_entry-later;
    get-ttl = get_entry-ttl;
  }
