-- ===== src/Coordinator/Boxes.antt =====
-- state.py, the box plane: registration, status, warm-up target, removal.
use interlatent.Base.{
  ℕ, zero, suc, String, string_key, string_discrete, Bool, true, false, Option, none, some, List,
  [], if◌then◌else◌, ite, is_some, or_else, strip, is_blank, not,
}
use interlatent.Base.Dict.{Dict, get, put, remove, find_value, update_first, drop_where, values}
use interlatent.Coordinator.Data.{
  box, KeyRecord, Box, Environment, Coordinator, State, Result, ok, box_id_required, unknown_method,
  ensure, ◌>>◌,
}
use interlatent.Coordinator.Routing.{Registry}
use interlatent.Coordinator.Persistence.{persist}
use interlatent.Coordinator.Credentials.{issue_key, with_state}
use interlatent.Coordinator.Environments.{get_environment}

-- The registration payload; an absent key is `none`.
pub record BoxPayload : Type 0 where
  pub box_id : Option String
  pub name : Option String
  pub endpoint : Option String
  pub method : Option String
  pub gpu_model : Option String
  pub gpu_count : Option ℕ
  pub vram_gb : Option ℕ
  pub provider : Option String
  pub warmup_policy : Option String

-- `x or default` of a number: zero is falsy.
abbrev pub or_number : Option ℕ → ℕ → ℕ
or_number none d = d
or_number (some zero) d = d
or_number (some (suc n)) d = suc n

-- `x or None` of a number
abbrev pub nonzero : Option ℕ → Option ℕ
nonzero none = none
nonzero (some zero) = none
nonzero (some (suc n)) = some (suc n)

unfoldable pub has_box_id : String → Box → Bool
has_box_id box_id b = ite (string_discrete b.box_id box_id) true false

unfoldable pub bound_to_box : String → KeyRecord → Bool
bound_to_box box_id r = elim r.box_id [
  | none ↦ false
  | some id ↦ ite (string_discrete id box_id) true false
]

-- `if existing and existing.get("name") != name: gpus.pop(existing["name"])`
unfoldable pub drop_renamed : Option Box → String → Dict String Box → Dict String Box
drop_renamed none name gpus = gpus
drop_renamed (some old) name gpus = ite (string_discrete old.name name) gpus (remove old.name gpus)

abbrev pub warm_policy_of : Option Box → String
warm_policy_of none = ""
warm_policy_of (some b) = b.warm_policy

-- The reply of `register_box`; its "status" is always "ready".
pub record Registered : Type 0 where
  pub name : String
  pub box_id : String
  pub key : String

-- The record that a registration writes.
unfoldable pub box_record : BoxPayload → String → String → Option Box → ℕ → Box
box_record payload box_id name existing now = record {
  name = name;
  box_id = box_id;
  url = strip (or_else payload.endpoint "");
  method = or_else payload.method "direct";
  gpu_model = some (or_else payload.gpu_model "");
  gpu_count = some (or_number payload.gpu_count 1);
  vram_gb = nonzero payload.vram_gb;
  provider = some (or_else payload.provider "byo");
  warm_policy = or_else payload.warmup_policy (warm_policy_of existing);
  status = "ready";
  registered_at = some now;
  environment = none;
  num_inference_steps = none;
  inference_action_mode = none;
}

module _ (sha256 : String → String) where
  -- The locked part of `register_box`, at the stripped id and name.
  unfoldable pub enrol :
      Coordinator → BoxPayload → String → String → String → ℕ → Coordinator × String
  unfolding persist box_record drop_renamed
  enrol c payload box_id name random now =
      let s = c.state in
      let existing = find_value (has_box_id box_id) s.gpus in
      let revoked = record s { keys = drop_where (bound_to_box box_id) s.keys } in
      let (issued, key) = issue_key sha256 revoked box none (some box_id) random now in
      let gpus =
        put name (box_record payload box_id name existing now)
          (drop_renamed existing name s.gpus) in
      (persist (with_state c (record issued { gpus = gpus })), key)

  unfoldable pub register_box :
      Coordinator → BoxPayload → String → ℕ → Result (Coordinator × Registered)
  unfolding enrol
  register_box c payload random now = do
    let box_id = strip (or_else payload.box_id "")
    ensure (not (is_blank box_id)) box_id_required
    let name = strip (or_else payload.name box_id)
    let enrolled = enrol c payload box_id name random now
    ok (enrolled.0, record { name = name; box_id = box_id; key = enrolled.1 })

unfoldable pub find_box : Coordinator → String → Option Box
find_box c box_id = find_value (has_box_id box_id) c.state.gpus

unfoldable pub set_box_status : Coordinator → String → String → String → Coordinator × Bool
unfolding persist
set_box_status c box_id status endpoint =
    let s = c.state in
    let change : Box → Box =
      λ b. record b { status = status; url = if is_blank endpoint then b.url else endpoint } in
    let gpus = update_first (has_box_id box_id) change s.gpus in
    if is_some (find_value (has_box_id box_id) s.gpus)
    then (persist (with_state c (record s { gpus = gpus })), true)
    else (c, false)

pub record WarmupTarget : Type 0 where
  pub policy_uri : String
  pub image_keys : List String
  pub num_inference_steps : Option ℕ
  pub inference_action_mode : String

camera_names : Option Environment → List String
camera_names none = []
camera_names (some env) = env.camera_names

unfoldable pub warmup_target : Coordinator → String → Option WarmupTarget
unfolding camera_names
warmup_target c box_id = elim (find_box c box_id) [
  | none ↦ none
  | some b ↦
      let policy = strip b.warm_policy in
      if is_blank policy
      then none
      else some (record {
        policy_uri = policy;
        image_keys = camera_names (get_environment c (or_else b.environment ""));
        num_inference_steps = b.num_inference_steps;
        inference_action_mode = or_else b.inference_action_mode "continuous";
      })
]

unfoldable pub add_gpu :
    Registry → Coordinator → String → String → String → String → Result Coordinator
unfolding persist
add_gpu registry c name url method warm_policy = do
  ensure (is_some (get method registry)) (unknown_method method)
  ok (persist (with_state c (record s { gpus = put name gpu s.gpus })))
  where
    s : State
    s = c.state

    gpu : Box
    gpu = record {
      name = name;
      box_id = name;
      url = url;
      method = method;
      gpu_model = none;
      gpu_count = none;
      vram_gb = none;
      provider = none;
      warm_policy = warm_policy;
      status = "ready";
      registered_at = none;
      environment = none;
      num_inference_steps = none;
      inference_action_mode = none;
    }

unfoldable pub remove_gpu : Coordinator → String → Coordinator × Bool
unfolding persist
remove_gpu c name =
    let s = c.state in
    if is_some (get name s.gpus)
    then (persist (with_state c (record s { gpus = remove name s.gpus })), true)
    else (c, false)

pub list_gpus : Coordinator → List Box
list_gpus c = values c.state.gpus
