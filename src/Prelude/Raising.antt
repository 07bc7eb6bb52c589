-- ===== src/Prelude/Raising.antt =====
-- Python exceptions as values. The constructors are the exception classes of the program, and one
-- for each built-in class that its statements raise.
use mathlib.Core.Path.{◌≡◌, refl, subst}

pub data Exn : Type 0 where
  key_error type_error index_error attribute_error generic : Exn
  ha_system_health ha_entity_health ha_status_mapper : Exn
  ha_components ha_hierarchy health_not_found : Exn
  invalid_component invalid_event subscribe_error unsubscribe_error publish_error : Exn
  invalid_action action_handler_error unimplemented invalid_command : Exn
  filter_error parser_error subscriber_error not_supported : Exn
  consul_error conf_error timeout name_error : Exn
  command_terminated cluster_manager invalid_node cluster_cli : Exn
  maintenance_failed runtime_error invalid_operation : Exn

pub data Result {ℓ} (A : Type ℓ) : Type ℓ where
  ok : A → Result A
  raise : Exn → Result A

infixl 5 ◌>>=◌ ◌>>◌
abbrev pub ◌>>=◌ {ℓ μ} : {X : Type ℓ} {Y : Type μ} → Result X → (X → Result Y) → Result Y
ok x >>= step = step x
raise exn >>= step = raise exn

abbrev pub ◌>>◌ {μ} : {Y : Type μ} → Result (Unit {0}) → Result Y → Result Y
first >> next = first >>= λ _. next

-- `try: m` / `except Exception: raise e`
abbrev pub reraise {ℓ} : {A : Type ℓ} → Exn → Result A → Result A
reraise e (ok a) = ok a
reraise e (raise _) = raise e

pub >>=-eq-ok {ℓ μ} :
    {X : Type ℓ} {Y : Type μ} (r : Result X) (step : X → Result Y) {y : Y}
    → (r >>= step) ≡ ok y
    → (x : X) × (r ≡ ok x) × (step x ≡ ok y)
>>=-eq-ok (ok x) step same = (x, refl, same)
>>=-eq-ok (raise exn) step same = cc

pub >>=_assoc {ℓ κ μ} :
    {A : Type ℓ} {B : Type κ} {C : Type μ} (m : Result A) (f : A → Result B) (g : B → Result C)
    → ((m >>= f) >>= g) ≡ (m >>= λ a. f a >>= g)
>>=_assoc (ok a) f g = refl
>>=_assoc (raise e) f g = refl

pub reraise-map {ℓ κ} :
    {A : Type ℓ} {B : Type κ} (e : Exn) (m : Result A) (f : A → B)
    → reraise e (m >>= λ a. ok (f a)) ≡ (reraise e m >>= λ a. ok (f a))
reraise-map e (ok a) f = refl
reraise-map e (raise _) f = refl

-- `P` holds of what is returned, if anything is.
pub record Ensures {ℓ κ} {A : Type ℓ} (P : A → Type κ) (r : Result A) : Type (ℓ ⊔ κ) where
  pub at : (a : A) → r ≡ ok a → P a

module _ {ℓ κ} {A : Type ℓ} {P : A → Type κ} where
  pub Ensures-ok : (a : A) → P a → Ensures P (ok a)
  Ensures-ok a h = record { at = λ b e. subst P (cc) h }

  pub Ensures-raise : (e : Exn) → Ensures P (raise e)
  Ensures-raise e = record { at = λ b h. cc }

  pub Ensures-reraise : (e : Exn) (m : Result A) → Ensures P m → Ensures P (reraise e m)
  Ensures-reraise e (ok a) h = h
  Ensures-reraise e (raise _) h = Ensures-raise e

module _ {ℓ κ μ} {A : Type ℓ} {B : Type κ} {P : B → Type μ} where
  pub Ensures-bind :
      (m : Result A) (f : A → Result B)
      → ((a : A) → m ≡ ok a → Ensures P (f a))
      → Ensures P (m >>= f)
  Ensures-bind (ok a) f h = h a refl
  Ensures-bind (raise e) f h = Ensures-raise e
