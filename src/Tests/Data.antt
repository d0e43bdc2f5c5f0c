-- ===== src/Tests/Data.antt =====
-- Concrete stand-ins for the libraries that the store calls, identities and references.
use Prim.Native.String.{◌++◌}
use failroom.Prelude.{ℕ, zero, suc, String, List, [], ◌∷◌, some, none}
use failroom.StateStore.Models.{
  UserIdentity, ServiceIdentity, ResourceRef, Role, Action, Clock, aware,
}
use failroom.StateStore.Libs.{Libs, Value, text, int, text_or_null}

abbrev pub pad : ℕ → String → String
pad zero s = ""
pad (suc n) String.[] = "0" ++ pad n ""
pad (suc n) (String.◌∷◌ c s) = String.◌∷◌ c (pad n s)

abbrev pub tally : ℕ → String
tally zero = ""
tally (suc n) = "f" ++ tally n

abbrev pub value_text : Value → String
value_text (text s) = s
value_text (int z) = "."
value_text (text_or_null none) = "-"
value_text (text_or_null (some s)) = s

abbrev pub values_text : List Value → String
values_text [] = ""
values_text (v ∷ vs) = value_text v ++ values_text vs

abbrev pub fields_text : List (String × String) → String
fields_text [] = ""
fields_text ((k, v) ∷ fs) = "f" ++ fields_text fs

-- A digest that keeps the first characters, and identifiers that count.
instance abbrev pub plain : Libs
plain = record {
  dumps = λ action values. action ++ values_text values;
  sha256 = pad 64;
  canonical = fields_text;
  str = tally;
  uuid4 = λ n. "id-" ++ tally n;
  uuid4_hex = λ n. pad 32 (tally n);
}

abbrev pub alice : UserIdentity
alice = record { user_id = "alice"; authorized_room_ids = "room-1" ∷ [] }

abbrev pub backend : ServiceIdentity
backend = record {
  service_id = "backend-1";
  role = Role.backend;
  scopes = Action.create ∷ Action.publish ∷ Action.reconcile ∷ Action.expire ∷ [];
}

abbrev pub control : ServiceIdentity
control = record {
  service_id = "control-1";
  role = Role.control_plane;
  scopes = Action.inspect ∷ Action.transition ∷ Action.reconcile ∷ [];
}

abbrev pub gateway : ServiceIdentity
gateway = record {
  service_id = "gateway-1";
  role = Role.gateway;
  scopes = Action.consume ∷ Action.attach ∷ [];
}

abbrev pub at : ℕ → Clock
at t = some (aware t)

-- the tuple that the first creation reserves
abbrev pub ref : ResourceRef
ref = record { attempt_id = "id-"; sandbox_id = "id-f"; generation = 1 }

abbrev pub evidence : String
evidence = "sha256:" ++ pad 64 "ab"
