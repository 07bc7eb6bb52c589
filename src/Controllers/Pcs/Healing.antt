-- ===== src/Controllers/Pcs/Healing.antt =====
-- What `heal_resource` has done when it answers.
use cortx_ha.Prelude.{ℕ, zero, suc, ◌<◌, String, ◌≡◌, ap, subst, ◌∙◌, Bool, true, false, arith}
use cortx_ha.Prelude.{ok}
use cortx_ha.Prelude.Acting.{continue-eq-ok, pure-eq-ok}
use cortx_ha.Controllers.Shell.{Shell}
use cortx_ha.Controllers.Pcs.{
  retry_count, check_resource_failcount, clean_failure_count, heal_or, heal, heal_resource,
}

module _ {W : Type 0} (shell : Shell W) (node_id : String) where
  -- From one state to another by looks that find a fail count, each with a cleanup and a pause.
  pub data Cleanups : ℕ → W → W → Type 0 where
    start : (w : W) → Cleanups 0 w w
    again :
        {n : ℕ} {w w1 w2 w3 w4 : W}
        → check_resource_failcount shell node_id w ≡ (w1, ok true)
        → clean_failure_count shell node_id w1 ≡ (w2, ok _)
        → shell.sleep 10 w2 ≡ (w3, ok _)
        → Cleanups n w3 w4
        → Cleanups (suc n) w w4

  -- what an answer says, where so many rounds are left
  pub data Outcome (limit : ℕ) (w w' : W) : Bool → Type 0 where
    healed :
        {n : ℕ} {last : W}
        → n < limit
        → Cleanups n w last
        → check_resource_failcount shell node_id last ≡ (w', ok false)
        → Outcome limit w w' true
    unhealed : Cleanups limit w w' → Outcome limit w w' false

  Outcome-again :
      {n : ℕ} {w w1 w2 w3 w' : W} {answer : Bool}
      → check_resource_failcount shell node_id w ≡ (w1, ok true)
      → clean_failure_count shell node_id w1 ≡ (w2, ok _)
      → shell.sleep 10 w2 ≡ (w3, ok _)
      → Outcome n w3 w' answer
      → Outcome (suc n) w w' answer
  Outcome-again found cleaned slept (healed lt before clean) =
      healed (omega arith) (again found cleaned slept before) clean
  Outcome-again found cleaned slept (unhealed before) = unhealed (again found cleaned slept before)

  heal-Outcome :
      (n : ℕ) (w w' : W) (answer : Bool)
      → heal shell n node_id w ≡ (w', ok answer)
      → Outcome n w w' answer
  unfolding heal
  heal-Outcome zero w w' answer same =
      let (w_eq, b_eq) = pure-eq-ok w w' false answer same in
      subst (λ b. Outcome 0 w w' b) b_eq
        (subst (λ v. Outcome 0 w v false) w_eq (unhealed (start w)))
  heal-Outcome (suc n) w w' answer same =
      let (w1, exists, looked, s1) =
        continue-eq-ok (check_resource_failcount shell node_id w) _ same in
      after_look n w w1 w' exists answer looked s1 (heal-Outcome n)
    where
      after_look :
          (n : ℕ) (w w1 w' : W) (exists answer : Bool)
          → check_resource_failcount shell node_id w ≡ (w1, ok exists)
          → heal_or shell (heal shell n node_id) node_id exists w1 ≡ (w', ok answer)
          → ((v v' : W) (b : Bool) → heal shell n node_id v ≡ (v', ok b) → Outcome n v v' b)
          → Outcome (suc n) w w' answer
      after_look n w w1 w' false answer looked s rec =
          let (w_eq, b_eq) = pure-eq-ok w1 w' true answer s in
          subst (λ b. Outcome (suc n) w w' b) b_eq
            (healed (omega arith) (start w) (looked ∙ ap (λ v. (v, ok false)) w_eq))
      after_look n w w1 w' true answer looked s rec =
          let (w2, _, cleaned, s2) = continue-eq-ok (clean_failure_count shell node_id w1) _ s in
          let (w3, _, slept, s3) =
            continue-eq-ok (shell.sleep 10 w2) (λ _. heal shell n node_id) s2 in
          Outcome-again looked cleaned slept (rec w3 w' answer s3)

  -- Where heal_resource answers True, one of its two looks, after a cleanup and a pause for each before
  -- it, found no fail count for the node, and nothing was run since; where it answers False, both looks
  -- found one, and it ends with the second cleanup and its pause.
  pub heal_resource-Outcome :
      (w w' : W) (answer : Bool)
      → heal_resource shell node_id w ≡ (w', ok answer)
      → Outcome retry_count w w' answer
  unfolding heal_resource
  heal_resource-Outcome w w' answer same = heal-Outcome retry_count w w' answer same
