-- ===== src/Health/Rules/Quorum.antt =====
-- What the rules say, in terms of majorities.
use cortx_ha.Prelude.{
  ℕ, ◌+◌, ◌*◌, ◌≤◌, ◌<◌, String, ◌≡◌, ◌≢◌, ◌↔◌, refl, true, false, [], ◌∷◌, ◌==◌, eq_iff, arith,
  length, subst, sym, eqb, leb, if◌then◌else◌, ◌/◌,
}
use cortx_ha.Prelude.Dict
use cortx_ha.Json.{str}
use cortx_ha.Health.Rules.{StatusMap, is_status, count_status, rack_rules, group_rules}

-- no status counts in two ways
count_status_disjoint :
    (m : StatusMap) (a b c : String)
    → (a == b) ≡ false
    → (a == c) ≡ false
    → (b == c) ≡ false
    → count_status m a + count_status m b + count_status m c ≤ length m
unfolding count_status
count_status_disjoint [] a b c p q r = omega arith
count_status_disjoint ((k, str s) ∷ m) a b c p q r = ground (
  arith,
  count_status_disjoint m a b c p q r,
  eq_iff s a,
  eq_iff s b,
  eq_iff s c,
  eq_iff a b,
  eq_iff a c,
  eq_iff b c,
)
count_status_disjoint ((k, _) ∷ m) a b c p q r = omega (arith, count_status_disjoint m a b c p q r)

abbrev AllOnline : StatusMap → Type 0
AllOnline = Dict.AllValues (λ v. is_status v "online" ≡ true)

all_online : (m : StatusMap) → AllOnline m → count_status m "online" ≡ length m
unfolding count_status
all_online [] h = refl
all_online ((k, v) ∷ m) h = ground (arith, all_online m h.1)

count_status-le : (m : StatusMap) (a : String) → count_status m a ≤ length m
unfolding count_status
count_status-le [] a = omega arith
count_status-le ((k, v) ∷ m) a = ground (arith, count_status-le m a)

online_all : (m : StatusMap) → count_status m "online" ≡ length m → AllOnline m
unfolding count_status
online_all [] h = tt
online_all ((k, v) ∷ m) h = ground (arith, count_status-le m "online", online_all m)

abbrev rack_verdict : ℕ → ℕ → ℕ → String
rack_verdict n online failed =
    if eqb online n
    then "fault_resolved"
    else if leb (n / 2 + 1) online
    then "threshold_breached:low"
    else if leb (n / 2 + 1) failed
    then "failed"
    else "threshold_breached:low"

abbrev group_verdict : ℕ → ℕ → ℕ → ℕ → String
group_verdict n online degraded failed =
    if eqb online n
    then "fault_resolved"
    else if leb (n / 2 + 1) online
    then "threshold_breached:low"
    else if leb (n / 2 + 1) degraded
    then "threshold_breached:low"
    else if leb (n / 2 + 1) failed
    then "failed"
    else "threshold_breached:low"

-- the degraded children have no part in a rack's verdict, and in a group's they change nothing
group_verdict-rack_verdict :
    (n online degraded failed : ℕ)
    → online + degraded + failed ≤ n
    → group_verdict n online degraded failed ≡ rack_verdict n online failed
group_verdict-rack_verdict n online degraded failed h = ground arith

rack_verdict-resolved :
    (n online failed : ℕ) → (rack_verdict n online failed ≡ "fault_resolved") ↔ (online ≡ n)
rack_verdict-resolved n online failed = (
  λ h.
      ground
        (arith, eq_iff "threshold_breached:low" "fault_resolved", eq_iff "failed" "fault_resolved"),
  λ h. ground arith,
)

rack_verdict-failed :
    (n online failed : ℕ)
    → 0 < n
    → online + failed ≤ n
    → (rack_verdict n online failed ≡ "failed") ↔ (n < 2 * failed)
rack_verdict-failed n online failed p h = (
  λ e. ground (arith, eq_iff "threshold_breached:low" "failed", eq_iff "fault_resolved" "failed"),
  λ e. ground arith,
)

rack_verdict-degraded :
    (n online failed : ℕ)
    → 0 < n
    → online + failed ≤ n
    → (rack_verdict n online failed ≡ "threshold_breached:low") ↔ ((online ≢ n) × (2 * failed ≤ n))
rack_verdict-degraded n online failed p h = (
  λ e. ground (
    arith,
    eq_iff "failed" "threshold_breached:low",
    eq_iff "fault_resolved" "threshold_breached:low",
  ),
  λ e. ground arith,
)

-- What a verdict says of the children.
abbrev pub Majority : String → StatusMap → Type 0
Majority verdict m =
    ((verdict ≡ "fault_resolved") ↔ AllOnline m)
    × ((verdict ≡ "failed") ↔ (length m < 2 * count_status m "failed"))
    × ((verdict ≡ "threshold_breached:low")
        ↔ ((AllOnline m → ⊥) × (2 * count_status m "failed" ≤ length m)))

abbrev verdict_of : StatusMap → String
verdict_of m = rack_verdict (length m) (count_status m "online") (count_status m "failed")

counts_fit :
    (m : StatusMap)
    → count_status m "online" + count_status m "degraded" + count_status m "failed" ≤ length m
counts_fit m = count_status_disjoint m "online" "degraded" "failed" refl refl refl

Majority-verdict_of : (m : StatusMap) → m ≢ [] → Majority (verdict_of m) m
Majority-verdict_of [] h = absurd (h refl)
Majority-verdict_of (x ∷ xs) h =
    let m = x ∷ xs in
    let n = length m in
    let online = count_status m "online" in
    let failed = count_status m "failed" in
    let (resolved, resolved') = rack_verdict-resolved n online failed in
    let fits : online + failed ≤ n = omega (arith, counts_fit m) in
    let (degraded, degraded') = rack_verdict-degraded n online failed (omega arith) fits in
    (
      (λ e. online_all m (resolved e), λ all. resolved' (all_online m all)),
      rack_verdict-failed n online failed (omega arith) fits,
      (
        λ e. (λ all. (degraded e).0 (all_online m all), (degraded e).1),
        λ (some_not, few). degraded' ((λ e. some_not (online_all m e)), few),
      ),
    )

-- A rack with nodes is reported resolved exactly when every node is online, failed exactly when
-- more than half of its nodes are failed, and degraded exactly in the remaining cases.
pub rack_rules-Majority : (m : StatusMap) → m ≢ [] → Majority (rack_rules m) m
unfolding rack_rules
rack_rules-Majority m h = Majority-verdict_of m h

-- So it is with a site or the cluster: the test on a majority of degraded children, which only
-- their rules have, changes no verdict.
group_rules-Majority : (m : StatusMap) → m ≢ [] → Majority (group_rules m) m
unfolding group_rules
group_rules-Majority m h =
    subst (λ v. Majority v m)
      (sym (
        group_verdict-rack_verdict (length m) (count_status m "online") (count_status m "degraded")
          (count_status m "failed") (counts_fit m)))
      (Majority-verdict_of m h)
