-- ===== src/Actions/Rules/Evaluation.antt =====
-- The rules as a map from kinds of events to lists of actions.
use Prim.Native.String.{len, ◌++◌ as ◌+++◌}
use text.Mathlib.Text.{starts_with}
use text.Mathlib.TextPositions.{len-append}
use cortx_ha.Prelude.{contains-nil, remove_absent}
use cortx_ha.Prelude.{
  String, ◌≡◌, refl, ap, ◌<◌, ◌==◌, eq_iff, arith, true, false, List, [], ◌∷◌, ◌++◌, contains,
  remove, Option, none, some, if◌then◌else◌, Bool-cases, inl, inr,
}
use cortx_ha.Prelude.{ok}
use cortx_ha.Prelude.Acting.{Act}
use cortx_ha.Store.Key.{prepare_key, rule_key}
use cortx_ha.Store.Services.{Stored, names, Consul, IsConsul, under, found}
use cortx_ha.Store.Services.Entries.{cell}
use cortx_ha.Store.KvStore.{update}
use cortx_ha.Store.KvStore.Contract.{
  Holds, Writes, get-Holds, key_exists-Holds, update-Writes, set-Writes, delete-Writes,
}
use cortx_ha.Actions.Rules.{
  health_mon_actions, get_val, evaluate, add_rule, remove_rule, write_actions,
}

-- the stored form of a rule: no key for no actions
abbrev pub rule : List String → Option Stored
rule [] = none
rule (a ∷ l) = some (names (a ∷ l))

-- `l` with `a` at its end, unless it is there
abbrev pub with_action : List String → String → List String
with_action l a = if contains l a then l else l ++ a ∷ []

with_action-nil : (a : String) → with_action [] a ≡ a ∷ []
unfolding contains
with_action-nil a = refl

-- a text that begins with a literal is not empty
pub named_by_length : (s : String) → 0 < len s → (s == "") ≡ false
named_by_length s h = elim (Bool-cases (s == "")) [
  | inl e ↦ absurd (let e' : len s ≡ len "" = ap len ((eq_iff s "").0 e) in omega (arith, e'))
  | inr e ↦ e
]

rule_key_named : (resource event : String) → (rule_key resource event == "") ≡ false
unfolding rule_key
rule_key_named resource event = named_by_length _ (
    omega
      (arith, len-append ("action>" +++ resource) (">" +++ event), len-append "action>" resource))

module _ {S : Type 0} (consul : Consul S) (prefix : String) (laws : IsConsul consul) where
  -- The rule for this kind of event has the actions `l`, and no other key starts with its key.
  abbrev pub HasRule : S → String → String → List String → Type 0
  HasRule s resource event l = Holds consul prefix laws s (rule_key resource event) (rule l)

  get_val-Holds :
      (s : S) (key : String) (o : Option Stored)
      → Holds consul prefix laws s key o
      → get_val consul prefix key s ≡ (s, ok (found (cell (prepare_key prefix key) o)))
  unfolding get_val
  get_val-Holds s key none h = rw (key_exists-Holds consul prefix laws s key none h)
  get_val-Holds s key (some v) h = rw (
    key_exists-Holds consul prefix laws s key (some v) h,
    get-Holds consul prefix laws s key (some v) h,
  )

  -- Where a rule stands alone under its key, `evaluate` gives its actions and changes nothing.
  pub evaluate-HasRule :
      (s : S) (resource event : String) (l : List String)
      → HasRule s resource event l
      → evaluate consul prefix resource event s ≡ (s, ok l)
  unfolding evaluate
  evaluate-HasRule s resource event [] h =
      rw (get_val-Holds s (rule_key resource event) (rule []) h)
  evaluate-HasRule s resource event (a ∷ l) h =
      rw (get_val-Holds s (rule_key resource event) (rule (a ∷ l)) h)

  -- A rule's change: `s'` is the state after it, the rule has the actions `l` then, and a rule whose
  -- key does not start that of this one is as it was.
  pub record Changes (s : S) (resource event : String) (l : List String) (m : Act S (Unit {0}))
      : Type 0 where
    pub after : S
    pub result : m s ≡ (after, ok _)
    pub here : HasRule after resource event l
    pub elsewhere :
        (p : String)
        → starts_with (prepare_key prefix (rule_key resource event)) p ≡ false
        → under p (laws.entries after) ≡ under p (laws.entries s)

  set_rule :
      (s : S) (resource event a : String)
      → HasRule s resource event []
      → contains health_mon_actions a ≡ true
      → Changes s resource event (a ∷ []) (add_rule consul prefix resource event a)
  unfolding add_rule
  set_rule s resource event a h valid =
      let key = rule_key resource event in
      let w =
        set-Writes consul prefix laws s key (names (a ∷ [])) (rule_key_named resource event) h in
      record {
        after = w.after;
        result = rw (valid, get_val-Holds s key none h, w.result);
        here = w.here;
        elsewhere = w.elsewhere;
      }

  update_rule :
      (s : S) (resource event a : String) (l : List String) (o : Option Stored)
      → Holds consul prefix laws s (rule_key resource event) o
      → Writes consul prefix laws s
          (rule_key resource event)
          (some (names l))
          (update consul prefix (rule_key resource event) (names l))
          (names l)
  update_rule s resource event a l o h =
      update-Writes consul prefix laws s (rule_key resource event) o (names l)
        (rule_key_named resource event) h

  -- Adding a valid action to a rule that stands alone under its key puts the action at the end of the
  -- rule's actions unless it is among them, and leaves every rule whose key does not start that of
  -- this one as it was.
  pub add_rule-Changes :
      (s : S) (resource event a : String) (l : List String)
      → HasRule s resource event l
      → contains health_mon_actions a ≡ true
      → Changes s resource event (with_action l a) (add_rule consul prefix resource event a)
  unfolding add_rule
  add_rule-Changes s resource event a [] h valid =
      rw (with_action-nil a) (set_rule s resource event a h valid)
  add_rule-Changes s resource event a (x ∷ l) h valid =
      let key = rule_key resource event in
      let found = get_val-Holds s key (some (names (x ∷ l))) h in
      elim (Bool-cases (contains (x ∷ l) a)) [
        | inl known ↦ record {
          after = s;
          result = rw (valid, found, known);
          here = rw (known, h);
          elsewhere = λ p apart. refl;
        }
        | inr unknown ↦
            let w = update_rule s resource event a (x ∷ l ++ a ∷ []) (some (names (x ∷ l))) h in
            record {
              after = w.after;
              result = rw (valid, found, unknown, w.result);
              here = rw (unknown, w.here);
              elsewhere = w.elsewhere;
            }
      ]

  -- what is left of a rule that had the actions `l`
  write_rule :
      (s : S) (resource event : String) (o : Option Stored) (l : List String)
      → Holds consul prefix laws s (rule_key resource event) o
      → Changes s resource event l (write_actions consul prefix (rule_key resource event) l)
  write_rule s resource event o [] h =
      let w = delete-Writes consul prefix laws s (rule_key resource event) o h in
      record { after = w.after; result = rw w.result; here = w.here; elsewhere = w.elsewhere }
  write_rule s resource event o (x ∷ l) h =
      let w = update_rule s resource event x (x ∷ l) o h in
      record { after = w.after; result = rw w.result; here = w.here; elsewhere = w.elsewhere }

  -- Removing a valid action from a rule that stands alone under its key takes its first occurrence
  -- out, deletes the key where no action is left, does nothing where it is not there, and leaves every
  -- rule whose key does not start that of this one as it was.
  pub remove_rule-Changes :
      (s : S) (resource event a : String) (l : List String)
      → HasRule s resource event l
      → contains health_mon_actions a ≡ true
      → Changes s resource event (remove l a) (remove_rule consul prefix resource event a)
  unfolding remove_rule
  remove_rule-Changes s resource event a [] h valid = record {
    after = s;
    result = rw (valid, get_val-Holds s (rule_key resource event) none h);
    here = rw (remove_absent [] a (contains-nil a), h);
    elsewhere = λ p apart. refl;
  }
  remove_rule-Changes s resource event a (x ∷ l) h valid =
      let found = get_val-Holds s (rule_key resource event) (some (names (x ∷ l))) h in
      elim (Bool-cases (contains (x ∷ l) a)) [
        | inl known ↦
            let w = write_rule s resource event (some (names (x ∷ l))) (remove (x ∷ l) a) h in
            record {
              after = w.after;
              result = rw (valid, found, known, w.result);
              here = w.here;
              elsewhere = w.elsewhere;
            }
        | inr unknown ↦ record {
          after = s;
          result = rw (valid, found, unknown);
          here = rw (remove_absent (x ∷ l) a unknown, h);
          elsewhere = λ p apart. refl;
        }
      ]
