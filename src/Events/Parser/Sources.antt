-- ===== src/Events/Parser/Sources.antt =====
-- The parsers of SSPL messages build an event without a source.
use cortx_ha.Prelude.{String, ◌≡◌, refl}
use cortx_ha.Prelude.{Result, ok, raise, Exn, key_error, parser_error, ◌>>=◌, reraise}
use cortx_ha.Json.{Json}
use cortx_ha.Health.Event.{dict_to_object}
use cortx_ha.Events.Filter.{Message}
use cortx_ha.Events.Parser.{SensorParts, sensor_event, parse_alert, parse_iem}

no_source :
    (p : SensorParts) (a b c d e : Json)
    → dict_to_object (sensor_event p a b c d e) ≡ raise key_error
unfolding dict_to_object sensor_event
no_source p a b c d e = refl

raises_no_source :
    (p : SensorParts) (a b c d e : Json)
    → reraise parser_error (dict_to_object (sensor_event p a b c d e)) ≡ raise parser_error
raises_no_source p a b c d e = rw (no_source p a b c d e)

-- a chain whose last step always fails
fails {ℓ κ} :
    {A : Type ℓ} {B : Type κ} (x : Exn) (m : Result A) (f : A → Result B)
    → ((a : A) → reraise x (f a) ≡ raise x)
    → reraise x (m >>= f) ≡ raise x
fails x (ok a) f h = h a
fails x (raise e) f h = refl

-- Neither of the two parsers ever returns an event: whatever the message, `AlertParser.parse_event`
-- and `IEMParser.parse_event` raise `EventParserException`, since the dictionary that they hand to
-- `dict_to_object` has no "source".
pub parse-raises :
    (node_of : String → Result Json) (msg : Message)
    → (parse_alert msg ≡ raise parser_error) × (parse_iem node_of msg ≡ raise parser_error)
unfolding parse_alert parse_iem
parse-raises node_of msg =
    (search (fails, raises_no_source) depth 12, search (fails, raises_no_source) depth 14)
