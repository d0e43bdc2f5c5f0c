-- ===== src/Sandbox/Scenario.antt =====
-- scenario.py, parse_disk_full_scenario, and room_scenarios.py, RoomScenarioRegistry.resolve.
use Prim.Native.String.{String}
use failroom.Prelude.{
  ℕ, ◌+◌, Bool, true, false, not, ◌||◌, List, [], ◌∷◌, Option, none, some, leb, ltb, nat_beq,
  text_beq,
}
use failroom.Prelude.Answers.{Answer, returns, raises, ◌>>=◌, ◌>>◌, raise_when}
use failroom.StateStore.Models.{pos, negsuc}
use failroom.Api.Capability.{
  Scalar, text, int, like_int, other, Json, object, no_object, lookup, has_keys, is_text,
}

-- ScenarioError
pub data ScenarioError : Type 0 where
  invalid_scenario : ScenarioError

-- DiskFullScenario
pub record DiskFullScenario : Type 0 where
  pub filler_path : String
  pub filler_bytes : ℕ
  pub recovery_free_bytes : ℕ
  pub target_working_set_bytes : ℕ
  pub target_ready_timeout_seconds : ℕ

-- `_FIELDS`
abbrev pub scenario_fields : List String
scenario_fields =
    "version" ∷ "filler_bytes" ∷ "recovery_free_bytes" ∷ "target_working_set_bytes"
    ∷ "target_ready_timeout_seconds" ∷ []

-- an int above 0, which `_positive` and the tests of types ask for
abbrev pub positive_in : Option Scalar → Answer ScenarioError ℕ
positive_in (some (int (pos n))) = raise_when (nat_beq n 0) invalid_scenario >> returns n
positive_in (some (int (negsuc n))) = raises invalid_scenario
positive_in (some (like_int n)) = raises invalid_scenario
positive_in (some (text s)) = raises invalid_scenario
positive_in (some other) = raises invalid_scenario
positive_in none = raises invalid_scenario

-- the last test of the numbers
unfoldable pub numbers_invalid : ℕ → ℕ → ℕ → ℕ → ℕ → Bool
numbers_invalid filler recovery working_set timeout workspace =
    leb filler 0
    || leb recovery 0
    || leb workspace filler
    || leb workspace recovery
    || leb workspace working_set
    || not (nat_beq working_set 8000000)
    || ltb recovery working_set
    || ltb 60 timeout
    || ltb (filler + recovery) workspace

unfoldable pub parse_fields : List (String × Scalar) → ℕ → Answer ScenarioError DiskFullScenario
parse_fields fs workspace = do
  raise_when (not (has_keys scenario_fields fs)) invalid_scenario
  raise_when (not (is_text "disk-full-v1" (lookup "version" fs))) invalid_scenario
  filler ← positive_in (lookup "filler_bytes" fs)
  recovery ← positive_in (lookup "recovery_free_bytes" fs)
  working_set ← positive_in (lookup "target_working_set_bytes" fs)
  timeout ← positive_in (lookup "target_ready_timeout_seconds" fs)
  raise_when (numbers_invalid filler recovery working_set timeout workspace) invalid_scenario
  returns (record {
    filler_path = "/workspace/.failroom-disk-full";
    filler_bytes = filler;
    recovery_free_bytes = recovery;
    target_working_set_bytes = working_set;
    target_ready_timeout_seconds = timeout;
  })

abbrev pub parse_json : Json → ℕ → Answer ScenarioError DiskFullScenario
parse_json no_object workspace = raises invalid_scenario
parse_json (object fs) workspace = parse_fields fs workspace

-- `parse_disk_full_scenario`
unfoldable pub parse_disk_full_scenario : Json → ℕ → Answer ScenarioError DiskFullScenario
parse_disk_full_scenario declaration workspace = do
  raise_when (nat_beq workspace 0) invalid_scenario
  parse_json declaration workspace

-- `_DISK_FULL_DECLARATION`
abbrev pub disk_full_declaration : Json
disk_full_declaration = object (
    ("version", text "disk-full-v1")
    ∷ ("filler_bytes", int (pos 60000000))
    ∷ ("recovery_free_bytes", int (pos 8000000))
    ∷ ("target_working_set_bytes", int (pos 8000000))
    ∷ ("target_ready_timeout_seconds", int (pos 5))
    ∷ [])

abbrev found :
    Answer ScenarioError DiskFullScenario → Answer ScenarioError (Option DiskFullScenario)
found a = a >>= λ s. returns (some s)

-- `RoomScenarioRegistry.resolve`
unfoldable pub resolve : String → ℕ → Answer ScenarioError (Option DiskFullScenario)
resolve room workspace = elim (text_beq room "disk-full") [
  | false ↦ returns none
  | true ↦ found (parse_disk_full_scenario disk_full_declaration workspace)
]
