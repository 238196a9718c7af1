-- ===== src/Service/Poller/Interleaved/Counts.antt =====
-- How often the goroutines hold the event of an id.
use mathlib.Core.Path.{subst}
use digital_ocean_assignment.Base.{
  ℕ, zero, suc, ◌+◌, ◌≤◌, ◌≡◌, refl, String, false, Bool-cases, inl, inr, some, List, [], ◌∷◌,
  arith, All, eq_iff,
}
use digital_ocean_assignment.Db.Rows.{StoreOutboxEvent}
use digital_ocean_assignment.Service.Poller.Marks.{names, claimed_in}
use digital_ocean_assignment.Service.Poller.Once.{count}
use digital_ocean_assignment.Service.Poller.Interleaved.{
  Phase, idle, enqueuing, held, is_locked, phase_at, set_phase, all_idle,
}

-- The events that are still to be enqueued.
abbrev pub remaining : Phase → List StoreOutboxEvent
remaining (enqueuing events) = events
remaining _ = []

abbrev pub total : (Phase → ℕ) → List Phase → ℕ
total weight [] = 0
total weight (p ∷ phases) = weight p + total weight phases

-- The weight of the goroutines but one.
pub total-set_phase :
    (weight : Phase → ℕ) (i : ℕ) (p : Phase) (phases : List Phase)
    → phase_at i phases ≡ some p
    → (rest : ℕ) × (total weight phases ≡ weight p + rest)
      × ((next : Phase) → total weight (set_phase i next phases) ≡ weight next + rest)
total-set_phase weight i p [] h = ground (arith, h)
total-set_phase weight zero p (q ∷ phases) h =
    (total weight phases, ground (arith, h), λ next. refl)
total-set_phase weight (suc i) p (q ∷ phases) h =
    let (rest, before, after) = total-set_phase weight i p phases h in
    (weight q + rest, omega (arith, before), λ next. omega (arith, after next))

pub total-all_idle : (weight : Phase → ℕ) (n : ℕ) → weight idle ≡ 0 → total weight (all_idle n) ≡ 0
total-all_idle weight zero h = refl
total-all_idle weight (suc n) h = omega (arith, h, total-all_idle weight n h)

count-none : (id : String) (xs : List StoreOutboxEvent) → claimed_in xs id ≡ false → count id xs ≡ 0
count-none id [] h = refl
count-none id (x ∷ xs) h = elim (Bool-cases (names id x)) [
  | inl this ↦ ground (arith, rw this at h)
  | inr other ↦ rw other (omega (arith, count-none id xs (rw other at h)))
]

pub total-unlocked :
    (id : String) (phases : List Phase)
    → is_locked phases id ≡ false
    → total (λ p. count id (held p)) phases ≡ 0
total-unlocked id [] h = refl
total-unlocked id (p ∷ phases) h = elim (Bool-cases (claimed_in (held p) id)) [
  | inl this ↦ ground (arith, rw this at h)
  | inr other ↦
      omega (arith, count-none id (held p) other, total-unlocked id phases (rw other at h))
]

-- What holds of the ids of some events holds of an id that is among them.
pub All-count :
    (P : String → Type 0) (id : String) (xs : List StoreOutboxEvent)
    → All (λ x. P x.id) xs
    → 1 ≤ count id xs
    → P id
All-count P id [] h k = ground (arith, k)
All-count P id (x ∷ xs) (first, rest) k = elim (Bool-cases (names id x)) [
  | inl this ↦ subst P ((eq_iff x.id id).0 this) first
  | inr other ↦ All-count P id xs rest (omega (arith, rw other at k))
]
