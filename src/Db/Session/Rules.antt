-- ===== src/Db/Session/Rules.antt =====
-- How the calls of a session can end: the facts by which a proof follows a program call by call.
use mathlib.Core.Path.{subst}
use digital_ocean_assignment.Base.{
  sym, ℕ, suc, ◌≡◌, refl, ◌⊎◌, inl, inr, Option, none, some, Error, Result, ok, err, unavailable,
  arith, Result-cases,
}
use digital_ocean_assignment.Db.Rows.{Database}
use digital_ocean_assignment.Db.Session.{
  Fate, done, failed, lost, Env, World, Stmt, Action, lift, on_pool, on_tx, defer_rollback,
  begin_tx, commit, ◌>>=◌,
}

abbrev pub world : ℕ → Database → Option Database → World
world n db open_tx = record { calls = n; db = db; tx = open_tx }

pub Fate-cases : (f : Fate) → (f ≡ done) ⊎ (f ≡ failed) ⊎ (f ≡ lost)
Fate-cases done = inl refl
Fate-cases failed = inr (inl refl)
Fate-cases lost = inr (inr refl)

module _ (env : Env) {A : Type 0} where
  -- A statement in the open transaction leaves the committed tables alone.
  pub on_tx-cases :
      (stmt : Stmt A) (n : ℕ) (db d : Database)
      → ((a : A) × (d' : Database) × (stmt n d ≡ ok (a, d'))
          × (on_tx env stmt (world n db (some d)) ≡ (ok a, world (suc n) db (some d'))))
        ⊎ ((e : Error) × (on_tx env stmt (world n db (some d)) ≡ (err e, world (suc n) db (some d)))
            × ((e ≡ unavailable) ⊎ (stmt n d ≡ err e)))
  unfolding on_tx
  on_tx-cases stmt n db d = elim (Result-cases (stmt n d)) [
    | inl ((a, d'), r) ↦ elim (Fate-cases (env.fate n)) [
      | inl f ↦ inl (a, d', r, ground arith)
      | inr (inl f) ↦ inr (unavailable, ground arith, inl refl)
      | inr (inr f) ↦ inr (unavailable, ground arith, inl refl)
    ]
    | inr (e, r) ↦ elim (Fate-cases (env.fate n)) [
      | inl f ↦ inr (e, ground arith, inr r)
      | inr (inl f) ↦ inr (unavailable, ground arith, inl refl)
      | inr (inr f) ↦ inr (unavailable, ground arith, inl refl)
    ]
  ]

  abbrev pub Committed : Stmt A → World → A → Database → Type 0
  Committed stmt w a d = stmt w.calls (env.peers w.calls w.db) ≡ ok (a, d)

  -- A statement by itself works on what the other sessions have committed. An error can come after
  -- its effect.
  pub on_pool-cases :
      (stmt : Stmt A) (w : World)
      → ((a : A) × (d : Database) × Committed stmt w a d
          × (on_pool env stmt w ≡ (ok a, world (suc w.calls) d w.tx)))
        ⊎ ((a : A) × (d : Database) × Committed stmt w a d
            × (on_pool env stmt w ≡ (err unavailable, world (suc w.calls) d w.tx)))
        ⊎ ((e : Error) × (on_pool env stmt w
              ≡ (err e, world (suc w.calls) (env.peers w.calls w.db) w.tx))
            × ((e ≡ unavailable) ⊎ (stmt w.calls (env.peers w.calls w.db) ≡ err e)))
  unfolding on_pool
  on_pool-cases stmt w = elim (Result-cases (stmt w.calls (env.peers w.calls w.db))) [
    | inl ((a, d), r) ↦ elim (Fate-cases (env.fate w.calls)) [
      | inl f ↦ inl (a, d, r, ground arith)
      | inr (inl f) ↦ inr (inr (unavailable, ground arith, inl refl))
      | inr (inr f) ↦ inr (inl (a, d, r, ground arith))
    ]
    | inr (e, r) ↦ elim (Fate-cases (env.fate w.calls)) [
      | inl f ↦ inr (inr (e, ground arith, inr r))
      | inr (inl f) ↦ inr (inr (unavailable, ground arith, inl refl))
      | inr (inr f) ↦ inr (inr (unavailable, ground arith, inl refl))
    ]
  ]

module _ (env : Env) where
  -- A transaction begins with what the other sessions have committed.
  pub begin_tx-cases :
      (w : World)
      → (begin_tx env w
          ≡ (ok tt, world (suc w.calls) (env.peers w.calls w.db) (some (env.peers w.calls w.db))))
        ⊎ (begin_tx env w ≡ (err unavailable, world (suc w.calls) (env.peers w.calls w.db) w.tx))
  unfolding begin_tx
  begin_tx-cases w = elim (Fate-cases (env.fate w.calls)) [
    | inl f ↦ inl (ground arith)
    | inr (inl f) ↦ inr (ground arith)
    | inr (inr f) ↦ inr (ground arith)
  ]

  -- A commit that reports an error may have taken effect.
  pub commit-cases :
      (n : ℕ) (db d : Database)
      → (commit env (world n db (some d)) ≡ (ok tt, world (suc n) d none))
        ⊎ (commit env (world n db (some d)) ≡ (err unavailable, world (suc n) db none))
        ⊎ (commit env (world n db (some d)) ≡ (err unavailable, world (suc n) d none))
  unfolding commit
  commit-cases n db d = elim (Fate-cases (env.fate n)) [
    | inl f ↦ inl (ground arith)
    | inr (inl f) ↦ inr (inl (ground arith))
    | inr (inr f) ↦ inr (inr (ground arith))
  ]

-- A claim about how a program ends, kept shut so that the rules below can follow the program.
pub Ends : {R : Type 0} → (R → Type 0) → R → Type 0
Ends P r = P r

pub ends : {R : Type 0} (P : R → Type 0) (r : R) → P r → Ends P r
unfolding Ends
ends P r h = h

pub claim : {R : Type 0} (P : R → Type 0) (r : R) → Ends P r → P r
unfolding Ends
claim P r h = h

-- The rest of a program, after its first call has ended in a known way.
module _ {A B : Type 0} (P : Result B × World → Type 0) (m : Action A) (f : A → Action B)
    {w w' : World} where
  pub bind-Ends_ok : {a : A} → m w ≡ (ok a, w') → Ends P (f a w') → Ends P ((m >>= f) w)
  unfolding Ends ◌>>=◌
  bind-Ends_ok q h = subst (λ r. P (elim r.0 [ ok a ↦ f a r.1 | err e ↦ (err e, r.1) ])) (sym q) h

  pub bind-Ends_err : {e : Error} → m w ≡ (err e, w') → P (err e, w') → Ends P ((m >>= f) w)
  unfolding Ends ◌>>=◌
  bind-Ends_err q h = subst (λ r. P (elim r.0 [ ok a ↦ f a r.1 | err e ↦ (err e, r.1) ])) (sym q) h

pub lift-Ends :
    {A B : Type 0} (P : Result B × World → Type 0) (r : Result A) (f : A → Action B) (w : World)
    → ((e : Error) → P (err e, w))
    → ((a : A) → r ≡ ok a → Ends P (f a w))
    → Ends P ((lift r >>= f) w)
unfolding Ends ◌>>=◌
lift-Ends P (ok a) f w bad good = good a refl
lift-Ends P (err e) f w bad good = bad e

module _ (env : Env) {A B : Type 0} (P : Result B × World → Type 0) (f : A → Action B)
    (stmt : Stmt A) where
  pub on_tx-Ends :
      (n : ℕ) (db d : Database)
      → ((e : Error) → P (err e, world (suc n) db (some d)))
      → ((a : A) (d' : Database)
          → stmt n d ≡ ok (a, d')
          → Ends P (f a (world (suc n) db (some d'))))
      → Ends P ((on_tx env stmt >>= f) (world n db (some d)))
  on_tx-Ends n db d bad good = elim (on_tx-cases env stmt n db d) [
    | inl (a, d', e, q) ↦ bind-Ends_ok P _ f q (good a d' e)
    | inr (e, q, _) ↦ bind-Ends_err P _ f q (bad e)
  ]

  pub on_pool-Ends :
      (w : World)
      → ((a : A) (d : Database)
          → Committed env stmt w a d
          → P (err unavailable, world (suc w.calls) d w.tx))
      → ((e : Error) → P (err e, world (suc w.calls) (env.peers w.calls w.db) w.tx))
      → ((a : A) (d : Database)
          → Committed env stmt w a d
          → Ends P (f a (world (suc w.calls) d w.tx)))
      → Ends P ((on_pool env stmt >>= f) w)
  on_pool-Ends w late bad good = elim (on_pool-cases env stmt w) [
    | inl (a, d, e, q) ↦ bind-Ends_ok P _ f q (good a d e)
    | inr (inl (a, d, e, q)) ↦ bind-Ends_err P _ f q (late a d e)
    | inr (inr (e, q, _)) ↦ bind-Ends_err P _ f q (bad e)
  ]

module _ (env : Env) {B : Type 0} (P : Result B × World → Type 0) (f : Unit {0} → Action B) where
  pub begin_tx-Ends :
      (w : World)
      → P (err unavailable, world (suc w.calls) (env.peers w.calls w.db) w.tx)
      → Ends P (f tt (world (suc w.calls) (env.peers w.calls w.db) (some (env.peers w.calls w.db))))
      → Ends P ((begin_tx env >>= f) w)
  begin_tx-Ends w bad good = elim (begin_tx-cases env w) [
    | inl q ↦ bind-Ends_ok P _ f q good
    | inr q ↦ bind-Ends_err P _ f q bad
  ]

  pub commit-Ends :
      (n : ℕ) (db d : Database)
      → P (err unavailable, world (suc n) db none)
      → P (err unavailable, world (suc n) d none)
      → Ends P (f tt (world (suc n) d none))
      → Ends P ((commit env >>= f) (world n db (some d)))
  commit-Ends n db d bad late good = elim (commit-cases env n db d) [
    | inl q ↦ bind-Ends_ok P _ f q good
    | inr (inl q) ↦ bind-Ends_err P _ f q bad
    | inr (inr q) ↦ bind-Ends_err P _ f q late
  ]

-- A claim that does not speak of the open transaction survives the deferred rollback.
pub defer_rollback-Ends :
    {A : Type 0} (P : Result A × World → Type 0) (m : Action A) (w : World)
    → Ends (λ r. P (r.0, record r.1 { tx = none })) (m w)
    → Ends P (defer_rollback m w)
unfolding Ends defer_rollback
defer_rollback-Ends P m w h = h

-- A statement in the open transaction, where the program goes on after its error.
module _ (env : Env) {A : Type 0} (stmt : Stmt A) (P : Result A × World → Type 0) where
  pub on_tx-Outcome :
      (n : ℕ) (db d : Database)
      → ((a : A) (d' : Database) → stmt n d ≡ ok (a, d') → P (ok a, world (suc n) db (some d')))
      → ((e : Error)
          → (e ≡ unavailable) ⊎ (stmt n d ≡ err e)
          → P (err e, world (suc n) db (some d)))
      → P (on_tx env stmt (world n db (some d)))
  on_tx-Outcome n db d good bad = elim (on_tx-cases env stmt n db d) [
    | inl (a, d', e, q) ↦ subst P (sym q) (good a d' e)
    | inr (e, q, why) ↦ subst P (sym q) (bad e why)
  ]
