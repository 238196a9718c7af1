-- ===== src/Service/Poller/Loop/Stops.antt =====
-- service/outbox_poller.go: which of the loops of the pollers go on.
use digital_ocean_assignment.Base.{
  ℕ, zero, suc, ◌<◌, ◌≡◌, refl, ◌∙◌, inl, inr, Bool, true, false, Bool-cases, List, [], ◌∷◌, ◌&&◌,
  if◌then◌else◌, not, any, keep, ◌=ᵇ◌, arith,
}
use digital_ocean_assignment.Base.Int.{ℤ}
use digital_ocean_assignment.Db.Session.{Env}
use digital_ocean_assignment.Service.Poller.{Polling}
use digital_ocean_assignment.Service.Poller.Loop.{
  Wake, cancelled, ticked, Turn, Pollers, is_active, returned, numbers, take_turn, take_turns,
  start_outbox_pollers,
}

abbrev pub is_cancelled : Wake → Bool
is_cancelled cancelled = true
is_cancelled ticked = false

-- Whether a poller has a turn that ends with the cancellation.
abbrev pub sees_cancellation : ℕ → List Turn → Bool
sees_cancellation i turns = any (λ t. i =ᵇ t.poller && is_cancelled t.wake) turns

keep_active :
    (i j : ℕ) (active : List ℕ)
    → is_active i (keep (λ k. not (j =ᵇ k)) active) ≡ (is_active i active && not (i =ᵇ j))
keep_active i j [] = refl
keep_active i j (k ∷ active) = ground (arith, keep_active i j active)

-- A poller that has returned takes no turn.
abbrev next_active : Turn → List ℕ → List ℕ
next_active t active = if is_active t.poller active then returned t.wake t.poller active else active

returned_active :
    (i j : ℕ) (wake : Wake) (active : List ℕ)
    → is_active i (returned wake j active)
      ≡ (is_active i active && not (i =ᵇ j && is_cancelled wake))
returned_active i j cancelled active = keep_active i j active ∙ ground arith
returned_active i j ticked active = ground arith

same_number : (i j : ℕ) → (i =ᵇ j) ≡ true → i ≡ j
same_number i j h = ground (arith, h)

next_active_lem :
    (i : ℕ) (t : Turn) (active : List ℕ)
    → is_active i (next_active t active)
      ≡ (is_active i active && not (i =ᵇ t.poller && is_cancelled t.wake))
next_active_lem i t active = elim (Bool-cases (is_active t.poller active)) [
  | inl busy ↦ rw busy (returned_active i t.poller t.wake active)
  | inr idle ↦ rw idle (elim (Bool-cases (i =ᵇ t.poller)) [
    | inl this ↦
        let gone : is_active i active ≡ false = rw (same_number i t.poller this) idle in
        rw gone refl
    | inr other ↦ rw other (ground arith)
  ])
]

module _ (env : Env) (limit : ℤ) where
  take_turn-active :
      (t : Turn) (s : Pollers) → (take_turn env limit t s).active ≡ next_active t s.active
  unfolding take_turn
  take_turn-active t s = elim (Bool-cases (is_active t.poller s.active)) [
    | inl busy ↦ rw busy refl
    | inr idle ↦ rw idle refl
  ]

  take_turns-active :
      (i : ℕ) (turns : List Turn) (s : Pollers)
      → is_active i (take_turns env limit turns s).active
        ≡ (is_active i s.active && not (sees_cancellation i turns))
  unfolding take_turns
  take_turns-active i [] s = ground arith
  take_turns-active i (t ∷ turns) s =
      take_turns-active i turns (take_turn env limit t s)
      ∙ rw (take_turn-active t s) (rw (next_active_lem i t s.active) (ground arith))

pub is_active-numbers : (i count : ℕ) → i < count → is_active i (numbers count) ≡ true
is_active-numbers i zero h = ground (arith, h)
is_active-numbers i (suc count) h = ground (arith, h, is_active-numbers i count)

module _ (env : Env) (limit : ℤ) (count : ℕ) (turns : List Turn) (polling : Polling) where
  abbrev ended : Pollers
  ended = start_outbox_pollers env limit count turns polling

  still_active :
      (i : ℕ)
      → is_active i ended.active ≡ (is_active i (numbers count) && not (sees_cancellation i turns))
  unfolding start_outbox_pollers
  still_active i = take_turns-active env limit i turns _

-- A poller that was started is still looping, whatever errors its rounds end with, unless one of
-- its turns has ended with the cancellation.
pub start_outbox_pollers_loop :
    (env : Env) (limit : ℤ) (count : ℕ) (turns : List Turn) (polling : Polling) (i : ℕ)
    → i < count
    → is_active i (start_outbox_pollers env limit count turns polling).active
      ≡ not (sees_cancellation i turns)
start_outbox_pollers_loop env limit count turns polling i h =
    still_active env limit count turns polling i ∙ rw (is_active-numbers i count h) refl
