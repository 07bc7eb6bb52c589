-- ===== src/Health/Evaluators/Below.antt =====
-- Which children the keys below a component name.
use Prim.Native.Char.{Char, code}
use Prim.Native.String.{String, char_at}
use mathlib.Core.List.{◌++◌ as ◌+++◌}
use cortx_ha.Prelude.{
  ◌≡◌, refl, ap, ◌∙◌, ◌==◌, Bool, true, false, not, ◌&&◌, List, [], ◌∷◌, Option, none, some,
  contains, is_start, occurs_in, append, eqb, if◌then◌else◌, arith, eq_refl,
}
use cortx_ha.Prelude.{ok}
use cortx_ha.Prelude.Dict.{Dict}
use cortx_ha.Store.Key.{split}
use cortx_ha.Store.Services.{Stored}
use cortx_ha.Health.Evaluators.{without_health, id_behind, ids_in}

abbrev no_delim : String → Bool
no_delim String.[] = true
no_delim (String.◌∷◌ c s) = not (eqb (code c) b'>') && no_delim s

-- What has no delimiter begins a text exactly where it begins the text before a delimiter.
is_start-before :
    (w s t : String) (d : Char)
    → no_delim w ≡ true
    → eqb (code d) b'>' ≡ true
    → is_start w (append s (String.◌∷◌ d t)) ≡ is_start w s
unfolding is_start
is_start-before String.[] s t d h e = refl
is_start-before (String.◌∷◌ c w) String.[] t d h e =
    let differ : eqb (code c) (code d) ≡ false = ground arith in ap (λ b. b && is_start w t) differ
is_start-before (String.◌∷◌ c w) (String.◌∷◌ x s) t d h e =
    let rest : no_delim w ≡ true = ground arith in
    ap (λ b. eqb (code c) (code x) && b) (is_start-before w s t d rest e)

-- The suffix is taken off a directory that does not have it itself.
pub without_health-suffix :
    (dir : String) → occurs_in ">health" dir ≡ false → without_health 0 (append dir ">health") ≡ dir
unfolding without_health occurs_in is_start
without_health-suffix String.[] h = refl
without_health-suffix (String.◌∷◌ c dir) h =
    let later : occurs_in ">health" dir ≡ false = ground arith in
    let same = is_start-before "health" dir "health" (char_at ">" 0) refl refl in
    let ends : is_start ">health" (String.◌∷◌ c (append dir ">health")) ≡ false =
      ap (λ b. eqb b'>' (code c) && b) same ∙ ground arith in
    rw (ends, without_health-suffix dir later) refl

-- the part behind the first one that is the child's type, or none where no part is
pub data Names (child : String) : List String → Option String → Type 0 where
  here : {id : String} {rest : List String} → Names child (child ∷ id ∷ rest) (some id)
  later :
      {x : String} {xs : List String} {o : Option String}
      → (x == child) ≡ false
      → Names child xs o
      → Names child (x ∷ xs) o
  nowhere : Names child [] none

id_behind-Names :
    (child : String) (parts : List String) (o : Option String)
    → Names child parts o
    → id_behind child parts ≡ ok o
unfolding id_behind
id_behind-Names child (x ∷ y ∷ rest) o here = rw (eq_refl child) refl
id_behind-Names child (x ∷ []) o (later differs nowhere) = rw differs refl
id_behind-Names child (x ∷ y ∷ xs) o (later differs n) =
    rw (differs, id_behind-Names child (y ∷ xs) o n) refl
id_behind-Names child [] o nowhere = refl

-- what the parts of each key name
abbrev pub Named : String → Dict Stored → List (Option String) → Type 0
Named child [] [] = Unit
Named child ((key, v) ∷ kv) (o ∷ os) = Names child (split key) o × Named child kv os
Named child _ _ = ⊥

-- the names in the order of their first occurrence, behind those that are there
abbrev pub firsts : List String → List (Option String) → List String
firsts ids [] = ids
firsts ids (none ∷ os) = firsts ids os
firsts ids (some id ∷ os) = firsts (if contains ids id then ids else ids +++ id ∷ []) os

-- The children are the names in the keys, each once.
pub ids_in-firsts :
    (child : String) (ids : List String) (kv : Dict Stored) (os : List (Option String))
    → Named child kv os
    → ids_in child ids kv ≡ ok (firsts ids os)
unfolding ids_in
ids_in-firsts child ids [] [] h = refl
ids_in-firsts child ids ((key, v) ∷ kv) (none ∷ os) h =
    rw (id_behind-Names child (split key) none h.0, ids_in-firsts child ids kv os h.1) refl
ids_in-firsts child ids ((key, v) ∷ kv) (some id ∷ os) h =
    rw (id_behind-Names child (split key) (some id) h.0)
      (ids_in-firsts child (if contains ids id then ids else ids +++ id ∷ []) kv os h.1)
ids_in-firsts child ids [] (o ∷ os) h = absurd h
ids_in-firsts child ids (e ∷ kv) [] h = absurd h
