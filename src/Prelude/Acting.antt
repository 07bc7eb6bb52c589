-- ===== src/Prelude/Acting.antt =====
-- Steps that change a state and may raise: what was written before an exception stays written.
use mathlib.Core.Path.{◌≡◌, refl, ap}
use mathlib.Core.List.{List, [], ◌∷◌}
use cortx_ha.Prelude.Raising.{Exn, Result, ok, raise}

abbrev pub Act {ℓ} : Type ℓ → Type ℓ → Type ℓ
Act S A = S → S × Result A

-- the bind of results, in modules that use that of steps
infixl 5 ◌>=>◌
abbrev pub ◌>=>◌ {ℓ} : {A B : Type ℓ} → Result A → (A → Result B) → Result B
ok a >=> f = f a
raise e >=> f = raise e

module _ {ℓ} {S : Type ℓ} where
  abbrev pub pure : {A : Type ℓ} → A → Act S A
  pure a s = (s, ok a)

  abbrev pub fail : {A : Type ℓ} → Exn → Act S A
  fail e s = (s, raise e)

  -- a value that is returned or raised
  abbrev pub lift : {A : Type ℓ} → Result A → Act S A
  lift r s = (s, r)

  -- a function that changes the state and raises nothing
  abbrev pub call : {A : Type ℓ} → (S → S × A) → Act S A
  call m s = let (s', a) = m s in (s', ok a)

  -- the rest of the steps, after the first
  abbrev pub continue : {A B : Type ℓ} → S × Result A → (A → Act S B) → S × Result B
  continue (s, ok a) f = f a s
  continue (s, raise e) f = (s, raise e)

  infixl 5 ◌>>=◌ ◌>>◌
  abbrev pub ◌>>=◌ : {A B : Type ℓ} → Act S A → (A → Act S B) → Act S B
  (m >>= f) s = continue (m s) f

  abbrev pub ◌>>◌ : {A B : Type ℓ} → Act S A → Act S B → Act S B
  m >> k = m >>= λ _. k

  -- `except Exception: raise x`
  abbrev pub recast : {A : Type ℓ} → Exn → S × Result A → S × Result A
  recast x (s, ok a) = (s, ok a)
  recast x (s, raise e) = (s, raise x)

  abbrev pub attempt : {A : Type ℓ} → Exn → Act S A → Act S A
  attempt x m s = recast x (m s)

  -- `for a in l: f a`
  unfoldable pub for_each : {A : Type ℓ} → List A → (A → Act S (Unit {ℓ})) → Act S (Unit {ℓ})
  for_each [] f = pure _
  for_each (a ∷ l) f = f a >> for_each l f

module _ {ℓ} {S A B : Type ℓ} where
  -- What a chain returns, the rest returns after the first.
  pub continue-eq-ok :
      (p : S × Result A) (f : A → Act S B) {s' : S} {b : B}
      → continue p f ≡ (s', ok b)
      → (s : S) × (a : A) × (p ≡ (s, ok a)) × (f a s ≡ (s', ok b))
  continue-eq-ok (s, ok a) f same = (s, a, refl, same)
  continue-eq-ok (s, raise e) f same = cc

  pub lift-eq-ok :
      (s : S) (r : Result A) (f : A → Act S B) {s' : S} {b : B}
      → continue (s, r) f ≡ (s', ok b)
      → (a : A) × (r ≡ ok a) × (f a s ≡ (s', ok b))
  lift-eq-ok s (ok a) f same = (a, refl, same)
  lift-eq-ok s (raise e) f same = cc

module _ {ℓ} {S A : Type ℓ} where
  pub pure-eq-ok :
      (s s' : S) (a b : A) → ◌≡◌ {A = S × Result A} (s, ok a) (s', ok b) → (s ≡ s') × (a ≡ b)
  pure-eq-ok s s' a b same = (ap (λ (p : S × Result A). p.0) same, cc)

  pub recast-eq-ok :
      (x : Exn) (p : S × Result A) {s : S} {a : A} → recast x p ≡ (s, ok a) → p ≡ (s, ok a)
  recast-eq-ok x (s, ok a) same = same
  recast-eq-ok x (s, raise e) same = cc
