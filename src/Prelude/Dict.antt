-- ===== src/Prelude/Dict.antt =====
-- Python's `dict` with text keys: the entries in the order of insertion. An assignment to a key
-- that is there keeps its place.
use Prim.Native.String.{String}
use mathlib.Core.Path.{◌≡◌, refl, subst}
use mathlib.Core.Logic.{inl, inr}
use mathlib.Core.Bool.{Bool}
use mathlib.Core.Option.{Option, none, some}
use mathlib.Core.List.{List, [], ◌∷◌}
use native.Mathlib.Omega.{arith}
use text.Mathlib.Text.{◌==◌}
use text.Mathlib.TextEquality.{eq_iff}
use cortx_ha.Prelude.Tests.{if◌then◌else◌, is_some, Bool-cases}
use cortx_ha.Prelude.Raising.{Result, ok, raise, key_error}

abbrev pub Dict {ℓ} : Type ℓ → Type ℓ
Dict V = List (String × V)

module _ {ℓ} {V : Type ℓ} where
  -- `d.get(k)`
  unfoldable pub get : Dict V → String → Option V
  get [] k = none
  get ((j, v) ∷ d) k = if j == k then some v else get d k

  -- `d[k] = v`
  unfoldable pub put : Dict V → String → V → Dict V
  put [] k v = (k, v) ∷ []
  put ((j, w) ∷ d) k v = if j == k then (j, v) ∷ d else (j, w) ∷ put d k v

  abbrev or_key_error : Option V → Result V
  or_key_error none = raise key_error
  or_key_error (some v) = ok v

  -- `d[k]`
  abbrev pub subscript : Dict V → String → Result V
  subscript d k = or_key_error (get d k)

  -- `k in d`
  abbrev pub has_key : Dict V → String → Bool
  has_key d k = is_some (get d k)

  abbrev pub values : Dict V → List V
  values [] = []
  values ((k, v) ∷ d) = v ∷ values d

  pub get-put :
      (d : Dict V) (k j : String) (v : V) → get (put d k v) j ≡ (if k == j then some v else get d j)
  unfolding get put
  get-put [] k j v = refl
  get-put ((i, w) ∷ d) k j v = ground (arith, eq_iff i k, eq_iff i j, eq_iff k j, get-put d k j v)

  abbrev pub AllValues {κ} : (V → Type κ) → Dict V → Type κ
  AllValues P [] = Unit
  AllValues P ((k, v) ∷ d) = P v × AllValues P d

module _ {ℓ} {V : Type ℓ} where
  -- What is looked up is one of the values.
  pub get-AllValues {κ} :
      (P : V → Type κ) (d : Dict V) (k : String) {v : V} → AllValues P d → get d k ≡ some v → P v
  unfolding get
  get-AllValues P [] k h e = cc
  get-AllValues P ((j, w) ∷ d) k h e = elim (Bool-cases (j == k)) [
    | inl here ↦ subst P (ground arith) h.0
    | inr there ↦ get-AllValues P d k h.1 (rw there at e)
  ]
