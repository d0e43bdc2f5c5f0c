-- ===== src/Rooms/Keys.antt =====
-- orchestrator.py, phase_key, and recovery.py, _phase_key: the keys of the phases of one request.
use Prim.Native.String.{String, ◌++◌}
use failroom.Prelude.{ℕ, Bool, leb, if◌then◌else◌, Option, none, some}
use failroom.Prelude.Text.{codes, all}
use failroom.StateStore.Models.{ResourceRef}
use failroom.StateStore.Libs.{Libs}

-- `payload.encode("ascii")` succeeds
unfoldable pub is_ascii : String → Bool
is_ascii s = all (λ c. leb c 127) (codes s)

module _ ⦃lib : Libs⦄ where
  abbrev pub phase_payload : String → String → ResourceRef → ℕ → String
  phase_payload root phase ref version =
      root
      ++ ":"
      ++ phase
      ++ ":"
      ++ ref.attempt_id
      ++ ":"
      ++ ref.sandbox_id
      ++ ":"
      ++ lib.str ref.generation
      ++ ":"
      ++ lib.str version

  -- `none`: the payload is not ASCII
  unfoldable pub phase_key : String → String → ResourceRef → ℕ → Option String
  unfolding is_ascii
  phase_key root phase ref version =
      let payload = phase_payload root phase ref version in
      if is_ascii payload then some ("control-plane:" ++ lib.sha256 payload) else none
