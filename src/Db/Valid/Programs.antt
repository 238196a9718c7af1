-- ===== src/Db/Valid/Programs.antt =====
-- Programs over the session keep the invariant when their statements do, however their calls end.
use digital_ocean_assignment.Base.{ℕ, Result, ok, err}
use digital_ocean_assignment.Db.Rows.{Database}
use digital_ocean_assignment.Db.Session.{
  Env, World, Action, Stmt, on_pool, on_tx, begin_tx, commit, defer_rollback, pure, lift, ◌>>=◌,
}
use digital_ocean_assignment.Db.Session.Keeping.{
  Sound, Ensures, ensured, ensures, Answers, bind-Ensures, lift-Ensures, pure-Ensures,
  defer_rollback-Ensures, on_pool-Ensures, begin_tx-Ensures, on_tx-Ensures, commit-Ensures,
}
use digital_ocean_assignment.Db.Valid.{IsValid}
use digital_ocean_assignment.Db.Valid.Statements.{Keeps}

-- The committed tables are valid, and those of the open transaction are.
abbrev pub IsSound : World → Type 0
IsSound = Sound IsValid

-- Other sessions keep the invariant.
abbrev pub PeersKeep : Env → Type 0
PeersKeep env = (n : ℕ) (db : Database) → IsValid db → IsValid (env.peers n db)

abbrev Any : {A : Type 0} → A → Type 0
Any a = Unit

-- A program that leaves a sound session sound.
abbrev pub Preserves : {A : Type 0} → Action A → Type 0
Preserves m = Ensures IsValid Any m

pub run : {A : Type 0} (m : Action A) → Preserves m → (w : World) → IsSound w → IsSound (m w).1
run m h w sound = (ensured IsValid Any m h w sound).0

Any-answer : {A : Type 0} (r : Result A) → Answers IsValid Any r
Any-answer (ok a) = tt
Any-answer (err e) = tt

pub preserves :
    {A : Type 0} (m : Action A) → ((w : World) → IsSound w → IsSound (m w).1) → Preserves m
preserves m h = ensures IsValid Any m (λ w sound. (h w sound, Any-answer (m w).0))

module _ {A B : Type 0} where
  pub bind-Preserves :
      (m : Action A) (f : A → Action B)
      → Preserves m
      → ((a : A) → Preserves (f a))
      → Preserves (m >>= f)
  bind-Preserves m f first next = bind-Ensures IsValid Any Any m f first (λ a _. next a)

module _ {A : Type 0} where
  pub lift-Preserves : (r : Result A) → Preserves (lift r)
  lift-Preserves r = lift-Ensures IsValid Any r (Any-answer r)

  pub pure-Preserves : (a : A) → Preserves (pure a)
  pure-Preserves a = pure-Ensures IsValid Any a tt

  pub defer_rollback-Preserves : (m : Action A) → Preserves m → Preserves (defer_rollback m)
  defer_rollback-Preserves m h = defer_rollback-Ensures IsValid Any m h

module _ (env : Env) (peers : PeersKeep env) where
  pub on_pool-Preserves : {A : Type 0} (stmt : Stmt A) → Keeps stmt → Preserves (on_pool env stmt)
  on_pool-Preserves stmt keeps =
      on_pool-Ensures IsValid env peers Any stmt (λ n db d a e valid. (keeps n db d a e valid, tt))

  pub begin_tx-Preserves : Preserves (begin_tx env)
  begin_tx-Preserves = begin_tx-Ensures IsValid env peers

module _ (env : Env) where
  pub on_tx-Preserves : {A : Type 0} (stmt : Stmt A) → Keeps stmt → Preserves (on_tx env stmt)
  on_tx-Preserves stmt keeps =
      on_tx-Ensures IsValid env Any stmt (λ n db d a e valid. (keeps n db d a e valid, tt))

  pub commit-Preserves : Preserves (commit env)
  commit-Preserves = commit-Ensures IsValid env
