-- ===== src/Coordinator/Data.antt =====
-- packages/sdk/src/interlatent/coordinator/state.py: the records that the coordinator keeps.
-- Times are milliseconds, frame rates thousandths of a hertz; both are unbounded numbers.
use interlatent.Base.{ℕ, String, Bool, true, false, Option, none, some, List, ◌≡◌, refl}
use interlatent.Base.Dict.{Dict}
use interlatent.Base.Json.{Fields}

pub data Kind : Type 0 where
  operator node box : Kind

pub record KeyRecord : Type 0 where
  pub kind : Kind
  pub node_id : Option String
  pub box_id : Option String
  pub created : ℕ

pub record Principal : Type 0 where
  pub kind : Kind
  pub node_id : Option String
  pub box_id : Option String

pub record Node : Type 0 where
  pub id : String
  pub name : String
  pub token_hash : String
  pub hardware : Fields
  pub features : Fields

-- A box's record; a key that a writer leaves out of the dict is `none`.
pub record Box : Type 0 where
  pub name : String
  pub box_id : String
  pub url : String
  pub method : String
  pub gpu_model : Option String
  pub gpu_count : Option ℕ
  pub vram_gb : Option ℕ
  pub provider : Option String
  pub warm_policy : String
  pub status : String
  pub registered_at : Option ℕ
  pub environment : Option String
  pub num_inference_steps : Option ℕ
  pub inference_action_mode : Option String

pub record Environment : Type 0 where
  pub id : String
  pub slug : String
  pub display_name : String
  pub robot_type : String
  pub action_dim : Option ℕ
  pub camera_names : List String
  pub num_cameras : Option ℕ
  pub task_description : String

-- A resolved or stored route descriptor.
pub record Route : Type 0 where
  pub method : String
  pub address : String

pub record Session : Type 0 where
  pub id : String
  pub policy_uri : String
  pub policy_backend : String
  pub task : String
  pub task_id : Option String
  pub fps : ℕ
  pub chunk_size : ℕ
  pub action_dim : ℕ
  pub synchronous : Bool
  pub drtc_endpoint : String
  pub route : Route
  pub environment_id : String
  pub env_slug : String
  pub recording : Fields
  pub node_id : String
  pub gpu : String
  pub status : String

pub record Recording : Type 0 where
  pub id : String
  pub status : String
  pub node_id : String
  pub environment_id : String
  pub env_slug : String
  pub task : String
  pub robot_kind : String
  pub recording : Fields

-- What a node is told to do; the two dicts differ in "assignment_type".
pub data Assignment : Type 0 where
  inference : Session → Assignment
  teleop : Recording → Assignment

pub record TeleopToken : Type 0 where
  pub session_id : String
  pub role : String
  pub created : ℕ

pub record State : Type 0 where
  pub keys : Dict String KeyRecord
  pub gpus : Dict String Box
  pub nodes : Dict String Node
  pub sessions : Dict String (Option Assignment)
  pub environments : Dict String Environment
  pub recordings : Dict String Recording
  pub recording : Fields
  pub teleop_tokens : Dict String TeleopToken

-- The state file's document, where each section may be missing.
pub record Document : Type 0 where
  pub keys : Option (Dict String KeyRecord)
  pub gpus : Option (Dict String Box)
  pub nodes : Option (Dict String Node)
  pub sessions : Option (Dict String (Option Assignment))
  pub environments : Option (Dict String Environment)
  pub recordings : Option (Dict String Recording)
  pub recording : Option Fields
  pub teleop_tokens : Option (Dict String TeleopToken)

-- What `_load` finds on disk.
pub data File : Type 0 where
  missing unreadable not_a_dict : File
  document : Document → File

pub record Coordinator : Type 0 where
  pub state : State
  pub file : File
  pub last_seen : Dict String ℕ
  pub telemetry : Dict String Fields
  pub wakes : ℕ

-- The exceptions that the methods raise.
pub data Error : Type 0 where
  unknown_node node_busy unknown_gpu unknown_method : String → Error
  gpu_busy : (gpu serving : String) → Error
  policy_change : (gpu warm requested : String) → Error
  box_id_required slug_required : Error
  unresolved_node bad_role : String → Error

-- What a method answers, or the exception that it raises.
pub data Result {ℓ} (A : Type ℓ) : Type ℓ where
  err : (raised : Error) → Result A
  ok : (answer : A) → Result A

abbrev pub or_raise {ℓ} : {A : Type ℓ} → Option A → Error → Result A
or_raise none e = err e
or_raise (some a) e = ok a

-- `if not test: raise`
abbrev pub ensure : Bool → Error → Result (Unit {0})
ensure Bool.true e = ok tt
ensure Bool.false e = err e

infixl 5 ◌>>=◌
abbrev pub ◌>>=◌ {ℓ κ} :
    {Answer : Type κ} {A : Type ℓ} → Result A → (A → Result Answer) → Result Answer
err raised >>= then = err raised
ok answer >>= then = then answer

infixl 5 ◌>>◌
abbrev pub ◌>>◌ {ℓ} : {Answer : Type ℓ} → Result (Unit {0}) → Result Answer → Result Answer
check >> rest = check >>= λ done. rest

-- Inversion of a step that succeeded.
pub >>=-eq-ok {ℓ κ} :
    {A : Type ℓ} {Answer : Type κ} {r : Answer} (first : Result A) (then : A → Result Answer)
    → (first >>= then) ≡ ok r
    → (a : A) × (first ≡ ok a) × (then a ≡ ok r)
>>=-eq-ok (err raised) then h = cc
>>=-eq-ok (ok answer) then h = (answer, refl, h)

pub ensure-eq-ok {ℓ} :
    {B : Type ℓ} (b : Bool) (e : Error) (k : Result B) {r : B}
    → (ensure b e >> k) ≡ ok r
    → (b ≡ true) × (k ≡ ok r)
ensure-eq-ok true e k h = (refl, h)
ensure-eq-ok false e k h = cc

pub then-eq-ok {ℓ} :
    {B : Type ℓ} (m : Result (Unit {0})) (k : Result B) {r : B}
    → (m >> k) ≡ ok r
    → (m ≡ ok tt) × (k ≡ ok r)
then-eq-ok (ok x) k h = (refl, h)
then-eq-ok (err e) k h = cc

pub or_raise-eq-ok {ℓ} :
    {A B : Type ℓ} (o : Option A) (e : Error) (f : A → Result B) {b : B}
    → (or_raise o e >>= f) ≡ ok b
    → (a : A) × (o ≡ some a) × (f a ≡ ok b)
or_raise-eq-ok none e f h = cc
or_raise-eq-ok (some a) e f h = (a, refl, h)
