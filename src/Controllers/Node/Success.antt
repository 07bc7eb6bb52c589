-- ===== src/Controllers/Node/Success.antt =====
-- What the answers of the node controller that say Succeeded mean.
use Prim.Native.String.{◌++◌}
use cortx_ha.Prelude.{
  String, ◌≡◌, ap, true, Option, none, some, arith, eq_iff, inl, inr, Bool-cases,
}
use cortx_ha.Prelude.{Result, ok, raise}
use cortx_ha.Prelude.Acting.{Act, continue-eq-ok}
use cortx_ha.Json.{Json, str, get_of, field?, is_text}
use cortx_ha.Controllers.NodeStatuses
use cortx_ha.Controllers.Shell.{
  Shell, Output, run_cmd, caught, controller_error_handler, answer, succeeded, failed,
}
use cortx_ha.Controllers.Pcs.{base_wait_time, is_node_in_cluster}
use cortx_ha.Controllers.Node.{Site, pcs_node_unstandby}
use cortx_ha.Controllers.Node.Modes.{
  status_of, active_by, active, status_or_null, activated, shown, unstandby_and_look,
}

abbrev pub Succeeds : Json → Type 0
Succeeds d = get_of d "status" ≡ ok (str succeeded)

pub not_succeeded : (output : Json) (error : String) → Succeeds (answer failed output error) → ⊥
unfolding get_of field?
not_succeeded output error h = ground (arith, eq_iff "Failed" "Succeeded")

module _ {W : Type 0} (shell : Shell W) (name : String) where
  caught-Succeeds :
      (p : W × Result Json) {w' : W} {d : Json}
      → caught shell name p ≡ (w', d)
      → Succeeds d
      → p ≡ (w', ok d)
  unfolding caught
  caught-Succeeds (w, ok d) same h = cc
  caught-Succeeds (w, raise e) {w'} {d} same h =
      absurd
        (not_succeeded (str "") (shell.describe name e) (rw (ap (λ (p : W × Json). p.1) same) h))

  -- A success is none of the handler of exceptions.
  pub handled-Succeeds :
      (m : Act W Json) (w : W) {w' : W} {d : Json}
      → controller_error_handler shell name m w ≡ (w', d)
      → Succeeds d
      → m w ≡ (w', ok d)
  unfolding controller_error_handler
  handled-Succeeds m w same h = caught-Succeeds (m w) same h

module _ {W : Type 0} (site : Site W) where
  -- the command that ends the standby of a node, with the pause, and a last look that finds the node
  -- in standby
  pub record StillStandby (nodeid : String) (w' : W) : Type 0 where
    pub before : W
    pub ran : W
    pub waited : W
    pub output : Output
    pub ran_eq : run_cmd site.shell (pcs_node_unstandby nodeid) true before ≡ (ran, ok output)
    pub waited_eq : site.shell.sleep base_wait_time ran ≡ (waited, ok _)
    pub seen_eq : status_of site nodeid waited ≡ (w', ok (some NodeStatuses.standby))

  pub pure-Succeeds :
      {w w' : W} {d : Json} (output : Json) (error : String)
      → ◌≡◌ {A = W × Result Json} (w, ok (answer failed output error)) (w', ok d)
      → Succeeds d
      → ⊥
  pure-Succeeds {w} {w'} {d} output error same h =
      let e : answer failed output error ≡ d = cc in not_succeeded output error (rw e h)

  activated-Succeeds :
      (o : Option String) → Succeeds (activated site o) → o ≡ some NodeStatuses.standby
  unfolding get_of field? is_text
  activated-Succeeds none h = ground (arith, eq_iff "Failed" "Succeeded")
  activated-Succeeds (some status) h =
      ground (arith, eq_iff "Failed" "Succeeded", eq_iff status NodeStatuses.standby)

  unstandby_and_look-StillStandby :
      (nodeid : String) (w : W) {w' : W} {d : Json}
      → unstandby_and_look site nodeid w ≡ (w', ok d)
      → Succeeds d
      → StillStandby nodeid w'
  unfolding unstandby_and_look
  unstandby_and_look-StillStandby nodeid w {w'} {d} same h =
      let (w1, out, ran, s1) =
        continue-eq-ok (run_cmd site.shell (pcs_node_unstandby nodeid) true w) _ same in
      let (w2, _, waited, s2) = continue-eq-ok (site.shell.sleep base_wait_time w1) _ s1 in
      let (w3, o, seen, s3) = continue-eq-ok (status_of site nodeid w2) _ s2 in
      let shown' : activated site o ≡ d = cc in
      let still : o ≡ some NodeStatuses.standby = activated-Succeeds o (rw shown' h) in
      record {
        before = w;
        ran = w1;
        waited = w2;
        output = out;
        ran_eq = ran;
        waited_eq = waited;
        seen_eq = cc;
      }

  active_by-StillStandby :
      (nodeid : String) (o : Option String) (w : W) {w' : W} {d : Json}
      → active_by site nodeid o w ≡ (w', ok d)
      → Succeeds d
      → StillStandby nodeid w'
  unfolding active_by
  active_by-StillStandby nodeid o w {w'} {d} same h =
      elim (Bool-cases (is_text (status_or_null site o) NodeStatuses.standby)) [
        | inl e ↦ unstandby_and_look-StillStandby nodeid w (rw e at same) h
        | inr e ↦ absurd (
            pure-Succeeds (str "Node is not in standby.") ("Current state = " ++ shown site o)
              (rw e at same) h)
      ]

  -- Where `active` says Succeeded, the last look, after the command that ends the standby, found the
  -- node still in standby.
  pub active-StillStandby :
      (nodeid : String) (w : W) {w' : W} {d : Json}
      → active site nodeid w ≡ (w', d)
      → Succeeds d
      → StillStandby nodeid w'
  unfolding active
  active-StillStandby nodeid w {w'} {d} same h =
      let s = handled-Succeeds site.shell "active" _ w same h in
      let (w1, _, _, s1) = continue-eq-ok (is_node_in_cluster site.shell nodeid w) _ s in
      let (w2, o, _, s2) = continue-eq-ok (status_of site nodeid w1) _ s1 in
      active_by-StillStandby nodeid o w2 s2 h
