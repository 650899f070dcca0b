-- ===== src/Tests/OfHub.antt =====
-- Runs through a hub and the choice of the hub: internal/agents/hub_run.go and hub_dispatch.go.
use matea.Agents.HubDispatch.{
  RunnerFactory, builtin, normalize_backend, resolve_hub_backend, resolve_hub_execution,
}
use matea.Agents.HubDispatch.Agrees.{
  Asks, IsBuiltin, resolve_hub_backend-asked, executions-resolved,
}
use matea.Base.{String, ◌⊎◌, inl, inr, true, false, none, some, [], ◌∷◌, ◌≡◌, refl}
use matea.Agents.HubRun.{HubRun, HubState, Poll, poll_all, run_via_hub}
use matea.Store.Handles.{get_hub_handle}
use matea.Agents.HubRun.Settles.{IsSettled, run_via_hub-IsSettled}
use matea.Agents.HubRun.Retries.{retry_submits_nothing}

-- a task whose first answer is that it still runs, and whose second poll fails
abbrev disturbed : HubRun
disturbed = record {
  task_id = 5;
  write_via_git_sync = false;
  lookup_fails = false;
  prepare = none;
  session_last_head = [];
  resolve_base = none;
  submit = some (record { backend = "hermes"; remote_id = "r1"; idempotency_key = "k" });
  save_fails = false;
  mark_fails = false;
  polls = Poll.running ∷ Poll.broken ∷ [];
  approves = true;
}

abbrev recovered : HubRun
recovered = record disturbed { polls = Poll.running ∷ Poll.done ∷ [] }

abbrev no_runs : HubState
no_runs = record { handles = []; submits = 0; cancels = 0; revoked = [] }

run_via_hub-IsSettled_example : IsSettled 3 recovered (run_via_hub 3 recovered no_runs)
run_via_hub-IsSettled_example = run_via_hub-IsSettled 3 recovered refl no_runs

retry_submits_nothing_example :
    (run_via_hub 4 recovered (run_via_hub 3 disturbed no_runs).1).1.submits
    ≡ (run_via_hub 3 disturbed no_runs).1.submits
unfolding run_via_hub poll_all get_hub_handle
retry_submits_nothing_example =
    retry_submits_nothing 3 4 disturbed recovered no_runs refl refl refl refl

-- two hubs beside the builtin backend
abbrev factory : RunnerFactory
factory = record {
  default = "";
  backends = ("local", "opencode_http") ∷ ("h1", "hub-hermes") ∷ [];
  registered = "builtin" ∷ "local" ∷ "h1" ∷ [];
  constructs = λ name. true;
}

runs_hermes : resolve_hub_execution factory "h1" ≡ some "h1"
unfolding resolve_hub_execution normalize_backend
runs_hermes = refl

resolves_opencode : resolve_hub_backend factory "local" ≡ inr "local"
unfolding resolve_hub_backend normalize_backend
resolves_opencode = refl

executions-resolved_example : resolve_hub_backend factory "h1" ≡ inr "h1"
executions-resolved_example = executions-resolved factory "h1" "h1" (inl runs_hermes)

abbrev local : String
local = "local"

resolve_hub_backend-asked_example :
    (name : String) × Asks factory "local" name
    × ((local ≡ name) ⊎ ((local ≡ builtin) × IsBuiltin factory name))
resolve_hub_backend-asked_example =
    resolve_hub_backend-asked factory "local" "local" resolves_opencode
