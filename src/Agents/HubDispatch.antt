-- ===== src/Agents/HubDispatch.antt =====
-- Which backend serves an agent: internal/agents/hub_dispatch.go, the two decisions on the execution path of
-- internal/agents/hub_run.go, and the registry of internal/agents/hub_backend.go, by names. Whether an
-- instance can be constructed is an argument.
pub mod Agrees
use matea.Base.{
  String, str_eq, codes, has_prefix, Bool, true, false, not, ◌&&◌, ◌||◌, Option, none, some, List,
  [], ◌∷◌, any, ◌⊎◌, inl, inr, if◌then◌else◌,
}
use matea.Base.Maps.{get}

abbrev pub builtin : String
builtin = "builtin"

abbrev pub hub_opencode : String
hub_opencode = "hub-opencode"

abbrev pub hub_hermes : String
hub_hermes = "hub-hermes"

-- internal/config/schema.go
unfoldable pub normalize_backend : String → String
normalize_backend name =
    if str_eq name "internal"
    then builtin
    else if str_eq name "opencode_http"
    then hub_opencode
    else name

-- what the decisions read: the default, the type of each configured backend, and the names of the registry
pub record RunnerFactory : Type 0 where
  pub default : String
  pub backends : List (String × String)
  pub registered : List String
  pub constructs : String → Bool

pub data HubError : Type 0 where
  unregistered misconfigured unsupported_type not_configured unknown : HubError

module _ (f : RunnerFactory) where
  abbrev pub lookup : String → Option String
  lookup name = if any (λ (n : String). str_eq n name) f.registered then some name else none

  abbrev pub or_unregistered : Option String → HubError ⊎ String
  or_unregistered none = inl unregistered
  or_unregistered (some b) = inr b

  -- the instance of a hub, or why there is none
  abbrev pub instance_or : String → Option String → HubError ⊎ String
  instance_or name (some b) = inr b
  instance_or name none = inl (if f.constructs name then unregistered else misconfigured)

  -- the name of an agent's selection, or the default
  abbrev pub selected : String → String
  selected backend =
      let name = normalize_backend backend in
      if str_eq name "" then normalize_backend f.default else name

  abbrev pub or_builtin : String → String
  or_builtin name = if str_eq name "" then builtin else name

  abbrev pub resolve_typed : String → Option String → HubError ⊎ String
  resolve_typed name none =
      inl (if has_prefix (codes name) (codes "hub-") then not_configured else unknown)
  resolve_typed name (some type) =
      let t = normalize_backend type in
      if str_eq t builtin
      then or_unregistered (lookup builtin)
      else if str_eq t hub_opencode
      then instance_or name (lookup name)
      else if str_eq t hub_hermes
      then instance_or name (lookup name)
      else inl unsupported_type

  abbrev pub resolve_name : String → HubError ⊎ String
  resolve_name name =
      if str_eq name builtin
      then or_unregistered (lookup builtin)
      else resolve_typed name (get str_eq name f.backends)

  unfoldable pub resolve_hub_backend : String → HubError ⊎ String
  unfolding normalize_backend
  resolve_hub_backend backend = resolve_name (or_builtin (selected backend))

  abbrev pub execution_of : String → String → Option String → Option String
  execution_of wanted name none = none
  execution_of wanted name (some type) =
      if not (str_eq (normalize_backend type) wanted) then none else lookup name

  abbrev pub execution_at : String → String → Option String
  execution_at wanted name =
      if str_eq name "" || str_eq name builtin
      then none
      else execution_of wanted name (get str_eq name f.backends)

  unfoldable pub resolve_hub_execution : String → Option String
  unfolding normalize_backend
  resolve_hub_execution backend = execution_at hub_hermes (selected backend)

  unfoldable pub resolve_hub_opencode : String → Option String
  unfolding normalize_backend
  resolve_hub_opencode backend = execution_at hub_opencode (selected backend)
