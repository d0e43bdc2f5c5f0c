-- ===== src/Sandbox/Declared.antt =====
-- scenario.py, parse_disk_full_scenario: what an accepted declaration says of the workspace.
use mathlib.Core.Path.{subst}
use failroom.Prelude.{String, List, nat_beq, ℕ, ◌≤◌, ◌<◌, ◌+◌, ◌≡◌, false, arith, not}
use failroom.Prelude.Answers.{Answer, returns, bind-returns, unless-returns}
use failroom.Sandbox.Scenario.{
  parse_json, DiskFullScenario, ScenarioError, numbers_invalid, parse_fields,
  parse_disk_full_scenario, positive_in, scenario_fields,
}
use failroom.Api.Capability.{Scalar, Json, object, no_object, lookup, has_keys, is_text}

-- what the parser promises of a scenario: the filler and the free space that recovery needs fit the
-- workspace only together, and recovery leaves room for the working set
pub record Exhausts (s : DiskFullScenario) (workspace : ℕ) : Type 0 where
  pub filler_fits : s.filler_bytes < workspace
  pub recovery_fits : s.recovery_free_bytes < workspace
  pub fills : workspace ≤ s.filler_bytes + s.recovery_free_bytes
  pub recovers : s.target_working_set_bytes ≤ s.recovery_free_bytes
  pub working_set : s.target_working_set_bytes ≡ 8000000
  pub timely : s.target_ready_timeout_seconds ≤ 60

numbers_invalid-Exhausts :
    (path : String) (f r w t workspace : ℕ)
    → numbers_invalid f r w t workspace ≡ false
    → Exhausts
        (record {
          filler_path = path;
          filler_bytes = f;
          recovery_free_bytes = r;
          target_working_set_bytes = w;
          target_ready_timeout_seconds = t;
        })
        workspace
unfolding numbers_invalid
numbers_invalid-Exhausts path f r w t workspace h = record {
  filler_fits = ground arith;
  recovery_fits = ground arith;
  fills = ground arith;
  recovers = ground arith;
  working_set = ground arith;
  timely = ground arith;
}

same_scenario :
    (s t : DiskFullScenario)
    → ◌≡◌ {A = Answer ScenarioError DiskFullScenario} (returns s) (returns t)
    → s ≡ t
same_scenario s t h = cc

parse_fields-Exhausts :
    (fs : List (String × Scalar)) (workspace : ℕ) (s : DiskFullScenario)
    → parse_fields fs workspace ≡ returns s
    → Exhausts s workspace
unfolding parse_fields
parse_fields-Exhausts fs workspace s h0 =
    let (_, h1) = unless-returns (not (has_keys scenario_fields fs)) _ _ s h0 in
    let (_, h2) = unless-returns (not (is_text "disk-full-v1" (lookup "version" fs))) _ _ s h1 in
    let (f, _, h3) = bind-returns (positive_in (lookup "filler_bytes" fs)) _ s h2 in
    let (r, _, h4) = bind-returns (positive_in (lookup "recovery_free_bytes" fs)) _ s h3 in
    let (w, _, h5) = bind-returns (positive_in (lookup "target_working_set_bytes" fs)) _ s h4 in
    let (t, _, h6) = bind-returns (positive_in (lookup "target_ready_timeout_seconds" fs)) _ s h5 in
    let (valid, h7) = unless-returns (numbers_invalid f r w t workspace) _ _ s h6 in
    subst (λ x. Exhausts x workspace) (same_scenario _ s h7)
      (numbers_invalid-Exhausts "/workspace/.failroom-disk-full" f r w t workspace valid)

parse_json-Exhausts :
    (j : Json) (workspace : ℕ) (s : DiskFullScenario)
    → parse_json j workspace ≡ returns s
    → Exhausts s workspace
parse_json-Exhausts no_object workspace s h = ground arith
parse_json-Exhausts (object fs) workspace s h = parse_fields-Exhausts fs workspace s h

-- A declaration that the parser accepts for a workspace describes a full disk that can be recovered:
-- the filler and the free space that recovery needs fit the workspace each, but together leave
-- nothing of it, and the working set of eight million bytes fits the space that recovery frees.
pub parse_disk_full_scenario-Exhausts :
    (j : Json) (workspace : ℕ) (s : DiskFullScenario)
    → parse_disk_full_scenario j workspace ≡ returns s
    → Exhausts s workspace
unfolding parse_disk_full_scenario
parse_disk_full_scenario-Exhausts j workspace s h0 =
    let (_, h1) = unless-returns (nat_beq workspace 0) _ _ s h0 in
    parse_json-Exhausts j workspace s h1
