-- ===== src/Events/Filter/Decisions.antt =====
-- What the filters let through.
use cortx_ha.Prelude.{String, ◌≡◌, true, false, not, List, lower, arith, if◌then◌else◌, ◌⊎◌}
use cortx_ha.Prelude.{ok, ◌>>=◌, >>=_assoc, reraise-map}
use cortx_ha.Prelude.Dict.{Dict}
use cortx_ha.Json.{Json, str, get_of, is_none}
use cortx_ha.Events.Filter.{
  Message, inner, sensor_type, inclusion, alert_filter, iem_test, iem_filter,
}

-- Of a message with no actuator response the exclusion filter says the opposite of the inclusion
-- filter with the same list, and fails where that fails; a message with an actuator response passes
-- neither.
alert_filter-exclusion :
    (l : List String) (msg : Message) (message actuator : Json)
    → inner msg ≡ ok message
    → get_of message "actuator_response_type" ≡ ok actuator
    → (alert_filter "exclusion" l msg ≡ (
        if is_none actuator then alert_filter inclusion l msg >>= (λ b. ok (not b)) else ok false))
      × ((is_none actuator ≡ true) ⊎ (alert_filter inclusion l msg ≡ ok false))
unfolding alert_filter
alert_filter-exclusion l msg message actuator h a =
    (rw (h, a) (ground arith), rw (h, a) (ground arith))

iem_test-exclusion :
    (components : List String) (modules : Dict (List String)) (c m : Json)
    → iem_test "exclusion" components modules c m
      ≡ (iem_test inclusion components modules c m >>= (λ b. ok (not b)))
unfolding iem_test
iem_test-exclusion components modules c m = ground arith

-- Of a message with no actuator response whose resource type is an IEM, the exclusion filter says
-- the opposite of the inclusion filter with the same lists, and fails where that fails.
iem_filter-exclusion :
    (components : List String) (modules : Dict (List String)) (msg : Message)
    (message actuator : Json) (type : String)
    → inner msg ≡ ok message
    → get_of message "actuator_response_type" ≡ ok actuator
    → is_none actuator ≡ true
    → sensor_type message ≡ ok (str type)
    → lower type ≡ "iem"
    → iem_filter "exclusion" components modules msg
      ≡ (iem_filter inclusion components modules msg >>= (λ b. ok (not b)))
unfolding iem_filter
iem_filter-exclusion components modules msg message actuator type h a n t l =
    rw (h, a, n, t, l) (simp (iem_test-exclusion, ← reraise-map, >>=_assoc))
