-- ===== src/Db/Session/Keeping.antt =====
-- Claims about the tables along a program over the session, with what its calls answer.
use mathlib.Core.Path.{subst}
use digital_ocean_assignment.Base.{
  sym, ℕ, ◌≡◌, refl, Option, none, some, Result, ok, err, arith, inl, inr,
}
use digital_ocean_assignment.Db.Rows.{Database}
use digital_ocean_assignment.Db.Session.{
  Env, World, Action, Stmt, on_pool, on_tx, begin_tx, commit, defer_rollback, pure, lift, ◌>>=◌,
}
use digital_ocean_assignment.Db.Session.Rules.{
  world, on_pool-cases, on_tx-cases, begin_tx-cases, commit-cases,
}

module _ (Q : Database → Type 0) where
  -- The claim holds of the committed tables and of those of the open transaction.
  pub record Sound (w : World) : Type 0 where
    pub committed : Q w.db
    pub open_tx : (d : Database) → w.tx ≡ some d → Q d

  module _ {A : Type 0} (R : A → Type 0) where
    -- What is known of an answer.
    abbrev pub Answers : Result A → Type 0
    Answers (ok a) = R a
    Answers (err e) = Unit

    abbrev pub Ensured : Result A × World → Type 0
    Ensured r = Sound r.1 × Answers r.0

    pub Ensures : Action A → Type 0
    Ensures m = (w : World) → Sound w → Ensured (m w)

    pub ensured : (m : Action A) → Ensures m → (w : World) → Sound w → Ensured (m w)
    unfolding Ensures
    ensured m h = h

    pub ensures : (m : Action A) → ((w : World) → Sound w → Ensured (m w)) → Ensures m
    unfolding Ensures
    ensures m h = h

    -- A statement that keeps the claim whenever it answers.
    abbrev pub StmtEnsures : Stmt A → Type 0
    StmtEnsures stmt = (n : ℕ) (db d : Database) (a : A) → stmt n db ≡ ok (a, d) → Q db → Q d × R a

  module _ {A B : Type 0} (R : A → Type 0) (S : B → Type 0) where
    pub bind-Ensures :
        (m : Action A) (f : A → Action B)
        → Ensures R m
        → ((a : A) → R a → Ensures S (f a))
        → Ensures S (m >>= f)
    unfolding Ensures ◌>>=◌
    bind-Ensures m f first next w sound = go (m w).0 (m w).1 (first w sound)
      where
        go :
            (r : Result A) (w' : World)
            → Ensured R (r, w')
            → Ensured S (elim r as (λ _. Result B × World) [ ok a ↦ f a w' | err e ↦ (err e, w') ])
        go (ok a) w' (h, known) = next a known w' h
        go (err e) w' (h, known) = (h, tt)

  module _ {A : Type 0} (R : A → Type 0) where
    pub lift-Ensures : (r : Result A) → Answers R r → Ensures R (lift r)
    unfolding Ensures
    lift-Ensures r known w sound = (sound, known)

    pub pure-Ensures : (a : A) → R a → Ensures R (pure a)
    unfolding Ensures
    pure-Ensures a known w sound = (sound, known)

    pub defer_rollback-Ensures : (m : Action A) → Ensures R m → Ensures R (defer_rollback m)
    unfolding Ensures defer_rollback
    defer_rollback-Ensures m h w sound =
        let (after, known) = h w sound in
        (record { committed = after.committed; open_tx = λ d e. ground arith }, known)

  -- A session whose transaction sees these tables, and one without.
  in_tx : (n : ℕ) (db d : Database) → Q db → Q d → Sound (world n db (some d))
  in_tx n db d valid valid_tx = record {
    committed = valid;
    open_tx = λ d' e. subst Q (ground arith) valid_tx;
  }

  idle : (n : ℕ) (db : Database) → Q db → Sound (world n db none)
  idle n db valid = record { committed = valid; open_tx = λ d' e. ground arith }

  module _ (env : Env) (peers : (n : ℕ) (db : Database) → Q db → Q (env.peers n db)) where
    pub on_pool-Ensures :
        {A : Type 0} (R : A → Type 0) (stmt : Stmt A)
        → StmtEnsures R stmt
        → Ensures R (on_pool env stmt)
    unfolding Ensures
    on_pool-Ensures R stmt keeps w sound =
        let before = peers w.calls w.db sound.committed in
        elim (on_pool-cases env stmt w) [
          | inl (a, d, e, q) ↦
              let (kept, known) = keeps w.calls (env.peers w.calls w.db) d a e before in
              subst (Ensured R) (sym q)
                (record { committed = kept; open_tx = sound.open_tx }, known)
          | inr (inl (a, d, e, q)) ↦
              let (kept, known) = keeps w.calls (env.peers w.calls w.db) d a e before in
              subst (Ensured R) (sym q) (record { committed = kept; open_tx = sound.open_tx }, tt)
          | inr (inr (e, q, _)) ↦
              subst (Ensured R) (sym q) (record { committed = before; open_tx = sound.open_tx }, tt)
        ]

    pub begin_tx-Ensures : Ensures (λ _. Unit) (begin_tx env)
    unfolding Ensures
    begin_tx-Ensures w sound =
        let before = peers w.calls w.db sound.committed in
        elim (begin_tx-cases env w) [
          | inl q ↦ subst (Ensured (λ _. Unit)) (sym q) (in_tx _ _ _ before before, tt)
          | inr q ↦
              subst (Ensured (λ _. Unit)) (sym q)
                (record { committed = before; open_tx = sound.open_tx }, tt)
        ]

  module _ (env : Env) where
    pub on_tx-Ensures :
        {A : Type 0} (R : A → Type 0) (stmt : Stmt A)
        → StmtEnsures R stmt
        → Ensures R (on_tx env stmt)
    unfolding Ensures on_tx
    on_tx-Ensures {A} R stmt keeps w sound = go w.tx sound
      where
        go :
            (open_tx : Option Database)
            → Sound (world w.calls w.db open_tx)
            → Ensured R (on_tx env stmt (world w.calls w.db open_tx))
        go none h = (h, tt)
        go (some d) h = elim (on_tx-cases env stmt w.calls w.db d) [
          | inl (a, d', e, q) ↦
              let (kept, known) = keeps w.calls d d' a e (h.open_tx d refl) in
              subst (Ensured R) (sym q) (in_tx _ _ _ h.committed kept, known)
          | inr (e, q, _) ↦
              subst (Ensured R) (sym q) (in_tx _ _ _ h.committed (h.open_tx d refl), tt)
        ]

    pub commit-Ensures : Ensures (λ _. Unit) (commit env)
    unfolding Ensures commit
    commit-Ensures w sound = go w.tx sound
      where
        go :
            (open_tx : Option Database)
            → Sound (world w.calls w.db open_tx)
            → Ensured (λ _. Unit) (commit env (world w.calls w.db open_tx))
        go none h = (h, tt)
        go (some d) h = elim (commit-cases env w.calls w.db d) [
          | inl q ↦ subst (Ensured (λ _. Unit)) (sym q) (idle _ _ (h.open_tx d refl), tt)
          | inr (inl q) ↦ subst (Ensured (λ _. Unit)) (sym q) (idle _ _ h.committed, tt)
          | inr (inr q) ↦ subst (Ensured (λ _. Unit)) (sym q) (idle _ _ (h.open_tx d refl), tt)
        ]
