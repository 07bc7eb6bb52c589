-- ===== src/Json.antt =====
-- JSON documents (the `json` module). A text that `json.dumps` writes is represented by the document
-- that it denotes, so `json.loads` is the identity. Numbers are naturals, which is all that the
-- program writes.
use cortx_ha.Prelude.{
  ℕ, String, ◌≡◌, ◌↔◌, List, contains, arith, eq_iff, Bool, true, false, not, ◌==◌, if◌then◌else◌,
  eqb, Option, none, some,
}
use cortx_ha.Prelude.{Result, ok, raise, key_error, type_error, index_error, attribute_error, ◌>>=◌}
use cortx_ha.Prelude.Dict
use cortx_ha.Prelude.Dict.{Dict}

mutual
  pub data Json : Type 0 where
    null : Json
    bool : Bool → Json
    num : ℕ → Json
    str : String → Json
    arr : Items → Json
    obj : Fields → Json

  pub data Items : Type 0 where
    nil : Items
    cons : Json → Items → Items

  pub data Fields : Type 0 where
    end : Fields
    field : String → Json → Fields → Fields

-- `fs.get(k)`
unfoldable pub field? : Fields → String → Option Json
field? end k = none
field? (field j v fs) k = if j == k then some v else field? fs k

abbrev or_key_error : Option Json → Result Json
or_key_error none = raise key_error
or_key_error (some v) = ok v

-- `d[k]` for a text `k`
unfoldable pub subscript : Json → String → Result Json
unfolding field?
subscript (obj fs) k = or_key_error (field? fs k)
subscript _ k = raise type_error

-- `d[0]`; a text has a first character, which no caller can subscript further
unfoldable pub first : Json → Result Json
first (arr nil) = raise index_error
first (arr (cons x xs)) = ok x
first (obj fs) = raise key_error
first _ = raise type_error

-- `bool(d)`
unfoldable pub truthy : Json → Bool
truthy null = false
truthy (bool b) = b
truthy (num n) = not (eqb n 0)
truthy (str s) = not (s == "")
truthy (arr nil) = false
truthy (arr (cons x xs)) = true
truthy (obj end) = false
truthy (obj (field k v fs)) = true

-- `d["events"][0][k]`, by which every reader of a stored health value takes its latest event apart
unfoldable pub latest : Json → String → Result Json
unfolding subscript first
latest d k = do events ← subscript d "events"; event ← first events; subscript event k

-- `d == t` for a text `t`
unfoldable pub is_text : Json → String → Bool
is_text (str s) t = s == t
is_text _ t = false

-- `d in l` for a list of texts
unfoldable pub is_in : Json → List String → Bool
is_in (str s) l = contains l s
is_in _ l = false

abbrev pub or_null : Option Json → Json
or_null none = null
or_null (some v) = v

-- `d.get(k)`
unfoldable pub get_of : Json → String → Result Json
unfolding field?
get_of (obj fs) k = ok (or_null (field? fs k))
get_of _ k = raise attribute_error

-- `d is None`
unfoldable pub is_none : Json → Bool
is_none null = true
is_none _ = false

-- `m[d]` for a dictionary `m` of the program; what is no text is no key of it
unfoldable pub lookup_by {ℓ} : {V : Type ℓ} → Dict V → Json → Result V
lookup_by m (str s) = Dict.subscript m s
lookup_by m _ = raise key_error

pub is_text_iff : (d : Json) (t : String) → (is_text d t ≡ true) ↔ (d ≡ str t)
unfolding is_text
is_text_iff (str s) t = (λ h. ground (arith, eq_iff s t), λ h. ground (arith, eq_iff s t))
is_text_iff null t = (λ h. cc, λ h. cc)
is_text_iff _ t = (λ h. cc, λ h. cc)
