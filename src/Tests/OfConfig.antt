-- ===== src/Tests/OfConfig.antt =====
-- The settings and their changes: internal/config.
use matea.Base.{
  ℕ, zero, suc, ap, ◌∙◌, Text, codes, true, false, Option, none, some, List, [], ◌∷◌, ◌≡◌, refl,
  arith, if◌then◌else◌, is_empty,
}
use matea.Base.Decimals.{decimal, digits_value}
use matea.Config.Schema.{ℤ, Config}
use matea.Config.Values.{Codecs}
use matea.Config.Keys.{
  key_of, apply_key, apply_config_entry, get_key, get_config_entry, validate_agent_loop_config,
}
use matea.Config.Keys.Bounds.{IsBounded}
use matea.Config.Keys.Reverts.{IsFaithful, IsLoaded}
use matea.Config.Manager.{Rows, ConfigManager, StoreFaults, delete_entry, apply_db_overrides}
use matea.Config.Manager.Batches.{Change, make_all, make_all-IsBounded}
use matea.Config.Manager.Deletes.{
  IsReverted, IsHalfReverted, delete_entry-IsReverted, delete_entry-IsHalfReverted,
}

-- A text is written with each of its characters raised by one, and a zero at its end.
abbrev write_text : Text → Text → Text
write_text [] rest = 0 ∷ rest
write_text (c ∷ t) rest = suc c ∷ write_text t rest

abbrev write_texts : List Text → Text
write_texts [] = []
write_texts (t ∷ ts) = write_text t (write_texts ts)

abbrev add_to_first : ℕ → List Text → List Text
add_to_first c [] = (c ∷ []) ∷ []
add_to_first c (t ∷ ts) = (c ∷ t) ∷ ts

abbrev read_texts : Text → List Text
read_texts [] = []
read_texts (zero ∷ s) = [] ∷ read_texts s
read_texts (suc c ∷ s) = add_to_first c (read_texts s)

abbrev first_of : Text → Option ℕ
first_of [] = none
first_of (x ∷ t) = some x

abbrev codecs : Codecs
codecs = record {
  parse_float = first_of;
  print_float = λ x. x ∷ [];
  parse_strings = λ t. some (read_texts t);
  print_strings = write_texts;
  parse_gates = λ t. if is_empty t then none else some [];
  parse_duration = λ t. some (ℤ.pos 1800000000000);
  to_lower = λ t. t;
}

read-write_text : (t s : Text) → read_texts (write_text t s) ≡ t ∷ read_texts s
read-write_text [] s = refl
read-write_text (c ∷ t) s = ap (add_to_first c) (read-write_text t s)

read-write_texts : (ts : List Text) → read_texts (write_texts ts) ≡ ts
read-write_texts [] = refl
read-write_texts (t ∷ ts) =
    read-write_text t (write_texts ts) ∙ ap (λ r. t ∷ r) (read-write_texts ts)

abbrev file : Config
file = record {
  gitea = record {
    url = codes "http://git";
    admin_token = [];
    webhook_secret = [];
    auto_provision = true;
  };
  server = record { public_url = [] };
  llm = record { provider = codes "openai"; model = codes "m"; rate_limit_retries = ℤ.pos 10 };
  dispatcher = record {
    max_concurrent = ℤ.pos 2;
    task_retry_count = ℤ.pos 1;
    rate_limit_backoff = ℤ.pos 60;
    comment_history_limit = ℤ.negsuc 0;
    agent_concurrency = codes "parallel";
  };
  defaults = record {
    provider = [];
    model = [];
    max_output_tokens = ℤ.pos 4096;
    max_input_tokens = ℤ.pos 8192;
    temperature = 7;
    timeout = codes "5m";
  };
  loop = record {
    max_iterations = ℤ.pos 20;
    total_timeout = codes "30m";
    iteration_interval = ℤ.pos 0;
    no_progress_limit = ℤ.pos 3;
    verify_commands = codes "go vet" ∷ [];
    independent_checker = false;
  };
  conversation_log = record { enabled = false; max_content_chars = ℤ.pos 1000 };
  workflow = record { preset = codes "standard"; gates = (codes "g", codes "soft") ∷ [] };
  deliver = record { webhook_url = []; timeout = codes "10s"; max_retries = ℤ.pos 3 };
}

codecs-IsFaithful : IsFaithful codecs file
codecs-IsFaithful = record {
  float = refl;
  strings = ap some (read-write_texts file.loop.verify_commands);
  lower_true = refl;
  lower_false = refl;
}

file-IsLoaded : IsLoaded file
file-IsLoaded = record {
  bits = (
    omega arith,
    (
      omega arith,
      (
        omega arith,
        (
          omega arith,
          (
            omega arith,
            (
              omega arith,
              (
                omega arith,
                (omega arith, (omega arith, (omega arith, (omega arith, (omega arith, tt))))),
              ),
            ),
          ),
        ),
      ),
    ),
  );
  backoff = λ e. absurd (cc e);
  history = λ e. absurd (cc e);
  retries = λ e. absurd (cc e);
}

file-IsBounded : IsBounded codecs file
file-IsBounded = record { rounds = refl; timeout = refl }

abbrev sound_store : StoreFaults
sound_store = record { list_fails = false; set_fails = λ key. false; delete_fails = λ key. false }

-- the rounds of the loop and the gates are overridden
abbrev overrides : Rows
overrides = ("agents.loop.max_iterations", codes "50") ∷ ("workflow.gates", codes "{}") ∷ []

abbrev manager : ConfigManager
manager = record { base = file; active = file; store = some overrides }

abbrev changes : List Change
changes =
    Change.sets "agents.loop.max_iterations" (codes "500") sound_store
    ∷ Change.batch (("deliver.max_retries", codes "5") ∷ []) sound_store
    ∷ Change.reverts "agents.loop.max_iterations" sound_store
    ∷ []

make_all-IsBounded_example : IsBounded codecs (make_all codecs manager changes).active
make_all-IsBounded_example = make_all-IsBounded codecs manager changes file-IsBounded

reverted : (delete_entry codecs sound_store "agents.loop.max_iterations" manager).0 ≡ true
unfolding delete_entry apply_config_entry get_config_entry key_of apply_key get_key
    validate_agent_loop_config decimal digits_value
reverted = refl

delete_entry-IsReverted_example :
    IsReverted codecs "agents.loop.max_iterations" manager
      (delete_entry codecs sound_store "agents.loop.max_iterations" manager).1
delete_entry-IsReverted_example =
    delete_entry-IsReverted codecs sound_store "agents.loop.max_iterations" manager
      codecs-IsFaithful file-IsLoaded reverted

delete_entry-IsHalfReverted_example :
    IsHalfReverted codecs sound_store manager overrides
      (delete_entry codecs sound_store "workflow.gates" manager)
delete_entry-IsHalfReverted_example =
    delete_entry-IsHalfReverted codecs sound_store manager overrides refl refl refl

-- A number of rounds in the table that is out of bounds is active after the start.
abbrev bad_rows : Rows
bad_rows = ("agents.loop.max_iterations", codes "500") ∷ []

out_of_bounds :
    (apply_db_overrides codecs sound_store
      (record manager { store = some bad_rows })).1.active.loop.max_iterations
    ≡ ℤ.pos 500
unfolding apply_db_overrides apply_config_entry key_of apply_key digits_value
out_of_bounds = refl
