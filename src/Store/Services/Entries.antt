-- ===== src/Store/Services/Entries.antt =====
-- What the entries under a key are, after a change.
use Prim.Native.String.{compare}
use text.Mathlib.Text.{starts_with, is_eq}
use text.Mathlib.TextPositions.{slice_all}
use cortx_ha.Prelude.{
  String, ◌≡◌, refl, sym, ap, ◌∙◌, eq_iff, eq_refl, arith, true, false, [], ◌∷◌, ◌++◌, Option, none,
  some,
}
use cortx_ha.Prelude.Dict
use cortx_ha.Prelude.Dict.{Dict}
use cortx_ha.Store.Services.{Stored, under, without, IsPut, replaced, inserted}

-- What stands under a key that is no beginning of another key.
abbrev pub cell : String → Option Stored → Dict Stored
cell k none = []
cell k (some v) = (k, v) ∷ []

starts_with_refl : (s : String) → starts_with s s ≡ true
starts_with_refl s = ap (λ v. is_eq (compare v s)) (slice_all s) ∙ eq_refl s

under-append : (k : String) (l r : Dict Stored) → under k (l ++ r) ≡ under k l ++ under k r
unfolding under
under-append k [] r = refl
under-append k ((j, v) ∷ l) r = ground (arith, under-append k l r)

-- a key that the entries under `p` do not tell
under-put_other :
    (p k : String) (d : Dict Stored) (v : Stored)
    → starts_with k p ≡ false
    → under p (Dict.put d k v) ≡ under p d
unfolding under Dict.put
under-put_other p k [] v h = ground arith
under-put_other p k ((j, w) ∷ d) v h = ground (arith, eq_iff j k, under-put_other p k d v h)

pub under-IsPut_other :
    (p k : String) (v : Stored) {d d' : Dict Stored}
    → IsPut k v d d'
    → starts_with k p ≡ false
    → under p d' ≡ under p d
unfolding under
under-IsPut_other p k v (replaced d _) h = under-put_other p k d v h
under-IsPut_other p k v (inserted l r _) h =
    ground (arith, under-append p l r, under-append p l ((k, v) ∷ r))

pub under-without_other :
    (p k : String) (d : Dict Stored) → starts_with k p ≡ false → under p (without k d) ≡ under p d
unfolding under without
under-without_other p k [] h = refl
under-without_other p k ((j, w) ∷ d) h = ground (arith, eq_iff j k, under-without_other p k d h)

put_absent : (k : String) (d : Dict Stored) → under k d ≡ [] → Dict.has_key d k ≡ false
unfolding under Dict.get
put_absent k [] h = refl
put_absent k ((j, w) ∷ d) h = ground (arith, eq_iff j k, put_absent k d, starts_with_refl k)

put_present :
    (k : String) (d : Dict Stored) (w : Stored) → under k d ≡ (k, w) ∷ [] → Dict.has_key d k ≡ true
unfolding under Dict.get
put_present k [] w h = cc
put_present k ((j, v) ∷ d) w h = ground (arith, eq_iff j k, put_present k d w, starts_with_refl k)

under-put_cell :
    (k : String) (d : Dict Stored) (w v : Stored)
    → under k d ≡ (k, w) ∷ []
    → under k (Dict.put d k v) ≡ (k, v) ∷ []
unfolding under Dict.put
under-put_cell k [] w v h = cc
under-put_cell k ((j, u) ∷ d) w v h =
    ground (arith, eq_iff j k, under-put_cell k d w v, starts_with_refl k)

pub under-without-cell :
    (k : String) (d : Dict Stored) (o : Option Stored)
    → under k d ≡ cell k o
    → under k (without k d) ≡ []
unfolding under without
under-without-cell k [] o h = refl
under-without-cell k ((j, u) ∷ d) none h =
    ground (arith, eq_iff j k, under-without-cell k d none, starts_with_refl k)
under-without-cell k ((j, u) ∷ d) (some w) h = ground (
  arith,
  eq_iff j k,
  under-without-cell k d (some w),
  under-without-cell k d none,
  starts_with_refl k,
)

around_nothing : (l r : Dict Stored) (e : String × Stored) → l ++ r ≡ [] → l ++ e ∷ r ≡ e ∷ []
around_nothing [] r e h = rw h
around_nothing (x ∷ l) r e h = cc

pub under-IsPut-cell :
    (k : String) (v : Stored) (o : Option Stored) {d d' : Dict Stored}
    → under k d ≡ cell k o
    → IsPut k v d d'
    → under k d' ≡ cell k (some v)
unfolding under
under-IsPut-cell k v none h (replaced d present) = ground (arith, put_absent k d h)
under-IsPut-cell k v (some w) h (replaced d present) = under-put_cell k d w v h
under-IsPut-cell k v (some w) h (inserted l r absent) = ground (arith, put_present k (l ++ r) w h)
under-IsPut-cell k v none h (inserted l r absent) =
    under-append k l ((k, v) ∷ r)
    ∙ (rw (starts_with_refl k)
        (around_nothing (under k l) (under k r) (k, v) (sym (under-append k l r) ∙ h)))
