-- ===== src/Health/EntityHealth/Bounds.antt =====
-- The history of events keeps to the configured length, newest first.
use cortx_ha.Prelude.{
  ℕ, zero, suc, ◌≤◌, ◌<◌, ◌≡◌, refl, ap, List, [], ◌∷◌, length, take, arith, ltb, Bool-cases,
  length-take, take_all, sym, inl, inr, if◌then◌else◌,
}
use cortx_ha.Prelude.{ok}
use cortx_ha.Health.EntityHealth.{EntityEvent, EntityHealth, drop_last, add_event, get_latest_event}

drop_last-eq-take {ℓ} :
    {A : Type ℓ} (n : ℕ) (xs : List A) → length xs ≡ suc n → drop_last xs ≡ take n xs
unfolding drop_last
drop_last-eq-take zero [] h = refl
drop_last-eq-take (suc n) [] h = refl
drop_last-eq-take zero (x ∷ []) h = refl
drop_last-eq-take (suc n) (x ∷ []) h = absurd (omega arith)
drop_last-eq-take zero (x ∷ y ∷ xs) h = absurd (omega arith)
drop_last-eq-take (suc n) (x ∷ y ∷ xs) h =
    ap (λ l. x ∷ l) (drop_last-eq-take n (y ∷ xs) (omega arith))

drop_last-or-whole {ℓ} :
    {A : Type ℓ} (n : ℕ) (x : A) (xs : List A)
    → length xs ≤ n
    → (if ltb n (length (x ∷ xs)) then drop_last (x ∷ xs) else x ∷ xs) ≡ take n (x ∷ xs)
drop_last-or-whole n x xs h = elim (Bool-cases (ltb n (suc (length xs)))) [
  | inl more ↦ rw more (drop_last-eq-take n (x ∷ xs) (ground arith))
  | inr fits ↦ rw fits (sym (take_all n (x ∷ xs) (ground arith)))
]

-- On a history that fits, `add_event` puts the event in front and keeps the newest `n`.
pub add_event-eq-take :
    (n : ℕ) (e : EntityEvent) (h : EntityHealth)
    → length h.events ≤ n
    → add_event n e h ≡ record h { events = take n (e ∷ h.events) }
unfolding add_event
add_event-eq-take n e h fits =
    ap (λ l. record h { events = l }) (drop_last-or-whole n e h.events fits)

-- A history that fits the configured length, which is not 0, still fits after an event is added, and
-- the added event is the latest one.
add_event_bounds :
    (n : ℕ) (e : EntityEvent) (h : EntityHealth)
    → 0 < n
    → length h.events ≤ n
    → (length (add_event n e h).events ≤ n) × (get_latest_event (add_event n e h) ≡ ok e)
unfolding get_latest_event
add_event_bounds zero e h some_kept fits = absurd (omega arith)
add_event_bounds (suc n) e h some_kept fits =
    rw (add_event-eq-take (suc n) e h fits) (omega (arith, length-take n h.events), refl)
