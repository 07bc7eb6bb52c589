-- ===== src/Events/Watcher/Outcomes.antt =====
-- What a message leads to.
use cortx_ha.Prelude.{◌≡◌, refl, ap, ◌∙◌, Bool, true, false, ◌⊎◌, inl, inr}
use cortx_ha.Prelude.{Exn, filter_error, parser_error, Result, ok, raise, reraise}
use cortx_ha.Bus.Consumer.{Status, success, failed}
use cortx_ha.Json.{null}
use cortx_ha.Health.Event.{HealthEvent}
use cortx_ha.Events.Filter.{Message}
use cortx_ha.Events.Parser.{parse_alert}
use cortx_ha.Events.Parser.Sources.{parse-raises}
use cortx_ha.Events.Watcher.{analyze, process_message, answer, notify, parsed_then, filtered_then}

module _ {ℓ κ} {S : Type ℓ} {E : Type κ} where
  -- What becomes of a message: it is passed over and the subscriber left alone, or an event is made of
  -- it that the subscriber takes or refuses.
  pub data Outcome (filter_event : Message → Result Bool) (parse_event : Message → Result E)
      (process_event : S → E → S × Result (Unit {0})) (s : S) (msg : Message)
      : S → Status → Type (ℓ ⊔ κ) where
    no_document :
        (e : Exn) → msg ≡ raise e → Outcome filter_event parse_event process_event s msg s success
    not_wanted :
        (filter_event msg ≡ ok false) ⊎ (filter_event msg ≡ raise filter_error)
        → Outcome filter_event parse_event process_event s msg s success
    no_event :
        filter_event msg ≡ ok true
        → parse_event msg ≡ raise parser_error
        → Outcome filter_event parse_event process_event s msg s success
    taken :
        filter_event msg ≡ ok true
        → (event : E) → parse_event msg ≡ ok event
        → (s' : S) → process_event s event ≡ (s', ok _)
        → Outcome filter_event parse_event process_event s msg s' success
    refused :
        filter_event msg ≡ ok true
        → (event : E) → parse_event msg ≡ ok event
        → (s' : S) → (e : Exn) → process_event s event ≡ (s', raise e)
        → Outcome filter_event parse_event process_event s msg s' failed

-- `f` raises nothing but `x`
abbrev pub OnlyRaises {ℓ} : {A : Type ℓ} → Exn → (Message → Result A) → Type ℓ
OnlyRaises x f = (msg : Message) (e : Exn) → f msg ≡ raise e → e ≡ x

only_reraised {ℓ} : {A : Type ℓ} (x e : Exn) (r : Result A) → reraise x r ≡ raise e → e ≡ x
only_reraised x e (ok a) h = cc
only_reraised x e (raise e') h = cc

pub reraise-OnlyRaises {ℓ} :
    {A : Type ℓ} (x : Exn) (f : Message → Result A) → OnlyRaises x (λ msg. reraise x (f msg))
reraise-OnlyRaises x f msg e h = only_reraised x e (f msg) h

module _ {ℓ κ} {S : Type ℓ} {E : Type κ} (filter_event : Message → Result Bool)
    (parse_event : Message → Result E) (process_event : S → E → S × Result (Unit {0})) where
  abbrev pub Answers : S → Message → S × Status → Type (ℓ ⊔ κ)
  Answers s msg (s', status) = Outcome filter_event parse_event process_event s msg s' status

  -- A watcher whose filter and parser raise only their own exceptions handles every message in one of
  -- five ways: a text that is no document, a message that the filter does not pass and one that the
  -- parser cannot read are acknowledged without the subscriber; an event made of a passed message
  -- goes to the subscriber once, and is answered SUCCESS where the subscriber returns and FAILED where
  -- it raises.
  pub process_message-Outcome :
      OnlyRaises filter_error filter_event
      → OnlyRaises parser_error parse_event
      → (s : S) (msg : Message)
      → Answers s msg (process_message filter_event parse_event process_event s msg)
  unfolding process_message analyze
  process_message-Outcome only_filter only_parser s (raise e) = no_document e refl
  process_message-Outcome only_filter only_parser s (ok document) =
      by_filter (filter_event (ok document)) refl
    where
      msg : Message
      msg = ok document

      by_subscriber :
          filter_event msg ≡ ok true
          → (event : E) → parse_event msg ≡ ok event
          → (r : S × Result (Unit {0})) → process_event s event ≡ r
          → Answers s msg (
              answer filter_event parse_event process_event
                (notify filter_event parse_event process_event r))
      by_subscriber filtered event parsed (s', ok _) done = taken filtered event parsed s' done
      by_subscriber filtered event parsed (s', raise e) done =
          refused filtered event parsed s' e done

      by_parser :
          filter_event msg ≡ ok true
          → (r : Result E) → parse_event msg ≡ r
          → Answers s msg (
              answer filter_event parse_event process_event
                (parsed_then filter_event parse_event process_event s r))
      by_parser filtered (ok event) parsed =
          by_subscriber filtered event parsed (process_event s event) refl
      by_parser filtered (raise e) parsed =
          rw (only_parser msg e parsed)
            (no_event filtered (parsed ∙ ap raise (only_parser msg e parsed)))

      by_filter :
          (r : Result Bool)
          → filter_event msg ≡ r
          → Answers s msg (
              answer filter_event parse_event process_event
                (filtered_then filter_event parse_event process_event s msg r))
      by_filter (ok true) filtered = by_parser filtered (parse_event msg) refl
      by_filter (ok false) filtered = not_wanted (inl filtered)
      by_filter (raise e) filtered =
          rw (only_filter msg e filtered)
            (not_wanted (inr (filtered ∙ ap raise (only_filter msg e filtered))))

-- A watcher with the parser of SSPL alerts never does anything: whatever it receives and whatever its
-- subscriber is, it acknowledges the message and leaves the subscriber alone, if its filter raises
-- only its own exception.
pub process_message-parse_alert {ℓ} :
    {S : Type ℓ} (filter_event : Message → Result Bool)
    (process_event : S → HealthEvent → S × Result (Unit {0}))
    → OnlyRaises filter_error filter_event
    → (s : S) (msg : Message)
    → process_message filter_event parse_alert process_event s msg ≡ (s, success)
unfolding process_message analyze
process_message-parse_alert filter_event process_event only_filter s (raise e) = refl
process_message-parse_alert filter_event process_event only_filter s (ok document) =
    by_filter (filter_event (ok document)) refl
  where
    by_filter :
        (r : Result Bool)
        → filter_event (ok document) ≡ r
        → answer filter_event parse_alert process_event
            (filtered_then filter_event parse_alert process_event s (ok document) r)
          ≡ (s, success)
    by_filter (ok true) filtered = rw ((parse-raises (λ _. ok null) (ok document)).0)
    by_filter (ok false) filtered = refl
    by_filter (raise e) filtered = rw (only_filter (ok document) e filtered)
