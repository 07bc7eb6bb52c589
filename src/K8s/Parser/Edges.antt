-- ===== src/K8s/Parser/Edges.antt =====
-- The alerts about a resource mark the changes of its readiness, and nothing else.
use cortx_ha.Prelude.{
  String, ◌≡◌, ◌≢◌, refl, Bool, true, false, ◌&&◌, ◌||◌, List, [], ◌∷◌, Option, none, some, ◌==◌,
  eq_iff, eq_refl, arith, lower, if◌then◌else◌,
}
use cortx_ha.Prelude.Dict
use cortx_ha.Prelude.Dict.{get-put}
use cortx_ha.K8s.Parser.{Cache, is_true, modified_from, on_ready}

-- An alert for a change from not ready to ready, or back.
abbrev pub edge : Bool → Bool → Option String
edge false true = some "online"
edge true false = some "failed"
edge _ _ = none

-- The Boolean that a ready status of an event stands for.
abbrev pub is_ready : String → Bool
is_ready ready_status = lower ready_status == "true"

modified_from-edge :
    (name r : String) (cache : Cache) (cached : Option String)
    → (modified_from name r cache cached).0 ≡ edge (is_true cached) (r == "true")
modified_from-edge name r cache cached = ground arith

-- the entry of the resource after the event
abbrev entry_after : String → Option String → Option String
entry_after r cached =
    if is_true cached && (r == "true")
    then cached
    else if is_true cached || (r == "true")
    then some r
    else cached

is_true-entry_after :
    (r : String) (cached : Option String) → is_true (entry_after r cached) ≡ (r == "true")
is_true-entry_after r cached = ground arith

get-modified_from :
    (name other r : String) (cache : Cache) (cached : Option String)
    → Dict.get cache name ≡ some cached
    → Dict.get (modified_from name r cache cached).1 other
      ≡ (if name == other then some (entry_after r cached) else Dict.get cache other)
get-modified_from name other r cache cached h =
    ground (arith, eq_iff name other, get-put cache name other (some r))

on_ready-modified :
    (name ready_status : String) (cached : Option String) (cache : Cache)
    → Dict.get cache name ≡ some cached
    → on_ready "MODIFIED" name (some ready_status) cache
      ≡ modified_from name (lower ready_status) cache cached
unfolding on_ready
on_ready-modified name ready_status cached cache h = ground arith

-- A MODIFIED event with a ready status, of a resource that is in the cache, gives an alert exactly
-- when the readiness changed; then the cache holds the new readiness, and the entries of the other
-- resources are as they were.
pub modified_edge :
    (name ready_status : String) (cached : Option String) (cache : Cache)
    → Dict.get cache name ≡ some cached
    → ((on_ready "MODIFIED" name (some ready_status) cache).0
        ≡ edge (is_true cached) (is_ready ready_status))
      × ((s : Option String) × (Dict.get (on_ready "MODIFIED" name (some ready_status) cache).1 name
            ≡ some s)
          × (is_true s ≡ is_ready ready_status))
      × ((other : String)
          → name ≢ other
          → Dict.get (on_ready "MODIFIED" name (some ready_status) cache).1 other
            ≡ Dict.get cache other)
modified_edge name ready_status cached cache h =
    let r = lower ready_status in
    rw (on_ready-modified name ready_status cached cache h) (
      modified_from-edge name r cache cached,
      (
        entry_after r cached,
        rw (get-modified_from name name r cache cached h, eq_refl),
        is_true-entry_after r cached,
      ),
      λ other ne. ground (arith, eq_iff name other, get-modified_from name other r cache cached h),
    )

-- An event without a ready status gives no alert, and the resource counts as not ready behind it.
forgotten_edge :
    (name : String) (cache : Cache)
    → ((on_ready "MODIFIED" name none cache).0 ≡ none)
      × (Dict.get (on_ready "MODIFIED" name none cache).1 name ≡ some none)
unfolding on_ready
forgotten_edge name cache = (refl, rw (get-put cache name name none, eq_refl) refl)

-- The alerts of a stream of MODIFIED events of one resource, given by their ready statuses, if any.
abbrev pub observe : String → List (Option String) → Cache → List (Option String)
observe name [] cache = []
observe name (r ∷ rs) cache =
    let change = on_ready "MODIFIED" name r cache in change.0 ∷ observe name rs change.1

-- What a watcher of the readiness would say: where an event does not show it there is no alert, and
-- what was known is taken for not ready.
abbrev pub edges : Bool → List (Option String) → List (Option String)
edges b [] = []
edges b (none ∷ rs) = none ∷ edges false rs
edges b (some r ∷ rs) = edge b (is_ready r) ∷ edges (is_ready r) rs

-- Over a stream of MODIFIED events of a resource in the cache, an event with a ready status gives an
-- alert exactly where the readiness changed, "online" where it becomes ready and "failed" where it
-- stops being ready; an event without one gives none, and the resource counts as not ready behind it.
-- The readiness before the first event is the cached one.
pub observe-edges :
    (name : String) (statuses : List (Option String)) (cached : Option String) (cache : Cache)
    → Dict.get cache name ≡ some cached
    → observe name statuses cache ≡ edges (is_true cached) statuses
observe-edges name [] cached cache h = refl
observe-edges name (none ∷ rs) cached cache h =
    let (now, stored) = forgotten_edge name cache in
    let later = observe-edges name rs none (on_ready "MODIFIED" name none cache).1 stored in
    cc (now, later)
observe-edges name (some r ∷ rs) cached cache h =
    let (now, (s, stored, same), _) = modified_edge name r cached cache h in
    let later = observe-edges name rs s (on_ready "MODIFIED" name (some r) cache).1 stored in
    cc (now, later, same)
