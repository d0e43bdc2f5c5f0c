-- ===== src/StateStore/Libs.antt =====
-- What the code calls and the repository does not hold: json.dumps, hashlib, uuid and str.
use failroom.Prelude.{ℕ, String, Option, List}
use failroom.StateStore.Models.{ℤ}

-- The JSON values that the fingerprints are made of.
pub data Value : Type 0 where
  text : String → Value
  int : ℤ → Value
  text_or_null : Option String → Value

pub record Libs : Type 0 where
  -- json.dumps([action, values], ensure_ascii=True, separators=(",", ":"))
  pub dumps : String → List Value → String
  -- hashlib.sha256(s.encode("utf-8")).hexdigest()
  pub sha256 : String → String
  -- json.dumps of an object of texts, with sort_keys=True
  pub canonical : List (String × String) → String
  -- str(n)
  pub str : ℕ → String
  -- str(uuid4()) and uuid4().hex of the n-th UUID that is drawn
  pub uuid4 : ℕ → String
  pub uuid4_hex : ℕ → String
