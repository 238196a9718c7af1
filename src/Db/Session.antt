-- ===== src/Db/Session.antt =====
-- A session with the server: how a statement runs on the pool or in the open transaction, and the
-- life of a transaction (`BeginTx`, `Commit`, the deferred `Rollback` and `queryRow` of
-- db/store.go). PostgreSQL and the driver are not part of the repository: what they decide is the
-- environment, a parameter.
pub mod Rules
pub mod Keeping
use digital_ocean_assignment.Base.{
  ℕ, suc, String, Bool, Option, none, some, Error, Result, ok, err, unavailable, no_transaction,
  ◌≡◌,
}
use digital_ocean_assignment.Base.Utf8.{Bytes}
use digital_ocean_assignment.Db.Rows.{Database}

-- How a call ends: it takes effect, it does not, or it does and its answer is lost.
pub data Fate : Type 0 where
  done failed lost : Fate

-- What the server and its other clients do, by the number of the call. `peers` is what other
-- sessions have committed when a call begins, and `locked` the rows that they then hold locked.
-- The text forms that the server accepts for a type go to its own spelling of the value.
-- `compact` is what encoding/json makes of the bytes of a `json.RawMessage`.
pub record Env : Type 0 where
  pub fate : ℕ → Fate
  pub peers : ℕ → Database → Database
  pub locked : ℕ → String → Bool
  pub fresh_id : ℕ → String
  pub now : ℕ → ℕ
  pub uuid_in : String → Option String
  pub json_in : Bytes → Option Bytes
  pub text_in : Bytes → Option Bytes
  pub compact : Bytes → Option Bytes

-- Documented behaviour: what the server prints for a UUID is read back as the same UUID.
abbrev pub PrintsUuids : Env → Type 0
PrintsUuids env = (s u : String) → env.uuid_in s ≡ some u → env.uuid_in u ≡ some u

-- The calls made so far, the committed tables, and those that the open transaction sees.
pub record World : Type 0 where
  pub calls : ℕ
  pub db : Database
  pub tx : Option Database

abbrev pub Action : Type 0 → Type 0
Action A = World → Result A × World

abbrev pub pure : {A : Type 0} → A → Action A
pure a w = (ok a, w)

abbrev pub fail : {A : Type 0} → Error → Action A
fail e w = (err e, w)

abbrev pub lift : {A : Type 0} → Result A → Action A
lift r w = (r, w)

infixl 5 ◌>>=◌ ◌>>◌
unfoldable pub ◌>>=◌ : {A B : Type 0} → Action A → (A → Action B) → Action B
◌>>=◌ m f w = let (r, w') = m w in elim r [ ok a ↦ f a w' | err e ↦ (err e, w') ]

abbrev pub ◌>>◌ : {A B : Type 0} → Action A → Action B → Action B
m >> k = m >>= λ _. k

-- A statement, at the number of its call: it answers with the tables it leaves, or refuses and
-- leaves them.
abbrev pub Stmt : Type 0 → Type 0
Stmt A = ℕ → Database → Result (A × Database)

abbrev pub answer : {A : Type 0} → Result (A × Database) → Result A
answer (ok (a, _)) = ok a
answer (err e) = err e

abbrev pub effect : {A : Type 0} → Result (A × Database) → Database → Database
effect (ok (_, d)) before = d
effect (err _) before = before

-- Where a statement runs: on the pool, by itself, or in the open transaction.
pub data Conn : Type 0 where
  pool tx : Conn

module _ (env : Env) where
  unfoldable pub on_pool : {A : Type 0} → Stmt A → Action A
  on_pool stmt w =
      let n = w.calls in
      let before = env.peers n w.db in
      let r = stmt n before in
      elim (env.fate n) [
        | done ↦ (answer r, record w { calls = suc n; db = effect r before })
        | failed ↦ (err unavailable, record w { calls = suc n; db = before })
        | lost ↦ (err unavailable, record w { calls = suc n; db = effect r before })
      ]

  unfoldable pub on_tx : {A : Type 0} → Stmt A → Action A
  on_tx stmt w =
      let n = w.calls in
      elim w.tx [
        | none ↦ (err no_transaction, w)
        | some before ↦
            let r = stmt n before in
            elim (env.fate n) [
              | done ↦ (answer r, record w { calls = suc n; tx = some (effect r before) })
              | failed ↦ (err unavailable, record w { calls = suc n })
              | lost ↦ (err unavailable, record w { calls = suc n })
            ]
      ]

  -- `queryRow`, and the choice between `s.db` and `tx` of the other methods.
  unfoldable pub query_row : {A : Type 0} → Conn → Stmt A → Action A
  query_row pool = on_pool
  query_row tx = on_tx

  unfoldable pub begin_tx : Action (Unit {0})
  begin_tx w =
      let n = w.calls in
      let seen = env.peers n w.db in
      elim (env.fate n) [
        | done ↦ (ok tt, record { calls = suc n; db = seen; tx = some seen })
        | failed ↦ (err unavailable, record w { calls = suc n; db = seen })
        | lost ↦ (err unavailable, record w { calls = suc n; db = seen })
      ]

  unfoldable pub commit : Action (Unit {0})
  commit w =
      let n = w.calls in
      elim w.tx [
        | none ↦ (err no_transaction, w)
        | some d ↦ elim (env.fate n) [
          | done ↦ (ok tt, record { calls = suc n; db = d; tx = none })
          | failed ↦ (err unavailable, record w { calls = suc n; tx = none })
          | lost ↦ (err unavailable, record { calls = suc n; db = d; tx = none })
        ]
      ]

-- `defer tx.Rollback()`: after a commit it does nothing.
unfoldable pub defer_rollback : {A : Type 0} → Action A → Action A
defer_rollback m w = let (r, w') = m w in (r, record w' { tx = none })
