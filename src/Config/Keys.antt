-- ===== src/Config/Keys.antt =====
-- The keys of the configuration: internal/config/keys.go.
pub mod Bounds
pub mod Reverts
use matea.Base.{
  ℕ, zero, suc, ◌+◌, ◌-◌, ◌*◌, ◌^◌, String, Text, codes, text_eq, str_eq, Bool, true, false, not,
  ◌&&◌, ◌||◌, Option, none, some, List, [], ◌∷◌, ◌++◌, ltb, leb, ◌==◌, is_empty, decimal,
  digits_value, trim_space, if◌then◌else◌,
}
use matea.Config.Values.{
  as_pos, as_neg, magnitude, atoi, itoa, format_bool, or_default, is_within, minute,
  parse_bool_value, Codecs,
}
use matea.Config.Schema.{
  ℤ, pos, negsuc, GiteaConfig, ServerConfig, LlmConfig, DispatcherConfig, AgentDefaultsConfig,
  AgentLoopConfig, ConversationLogConfig, WorkflowConfig, DeliverConfig, Config, Key,
}

abbrev pub config_keys : List (String × Key)
config_keys =
    ("gitea.url", Key.gitea_url)
    ∷ ("gitea.admin_token", Key.gitea_admin_token)
    ∷ ("gitea.webhook_secret", Key.gitea_webhook_secret)
    ∷ ("gitea.auto_provision", Key.gitea_auto_provision)
    ∷ ("server.public_url", Key.server_public_url)
    ∷ ("llm.defaults.provider", Key.llm_defaults_provider)
    ∷ ("llm.defaults.model", Key.llm_defaults_model)
    ∷ ("dispatcher.max_concurrent", Key.dispatcher_max_concurrent)
    ∷ ("dispatcher.task_retry_count", Key.dispatcher_task_retry_count)
    ∷ ("dispatcher.rate_limit_backoff", Key.dispatcher_rate_limit_backoff)
    ∷ ("dispatcher.comment_history_limit", Key.dispatcher_comment_history_limit)
    ∷ ("dispatcher.agent_concurrency", Key.dispatcher_agent_concurrency)
    ∷ ("llm.rate_limit_retries", Key.llm_rate_limit_retries)
    ∷ ("agents.defaults.provider", Key.agents_defaults_provider)
    ∷ ("agents.defaults.model", Key.agents_defaults_model)
    ∷ ("agents.defaults.max_output_tokens", Key.agents_defaults_max_output_tokens)
    ∷ ("agents.defaults.max_input_tokens", Key.agents_defaults_max_input_tokens)
    ∷ ("agents.defaults.temperature", Key.agents_defaults_temperature)
    ∷ ("agents.defaults.timeout", Key.agents_defaults_timeout)
    ∷ ("agents.loop.max_iterations", Key.agents_loop_max_iterations)
    ∷ ("agents.loop.total_timeout", Key.agents_loop_total_timeout)
    ∷ ("agents.loop.iteration_interval", Key.agents_loop_iteration_interval)
    ∷ ("agents.loop.no_progress_limit", Key.agents_loop_no_progress_limit)
    ∷ ("agents.loop.verify_commands", Key.agents_loop_verify_commands)
    ∷ ("agents.loop.independent_checker", Key.agents_loop_independent_checker)
    ∷ ("debug.conversation_log.enabled", Key.debug_conversation_log_enabled)
    ∷ ("debug.conversation_log.max_content_chars", Key.debug_conversation_log_max_content_chars)
    ∷ ("workflow.preset", Key.workflow_preset)
    ∷ ("workflow.gates", Key.workflow_gates)
    ∷ ("deliver.webhook_url", Key.deliver_webhook_url)
    ∷ ("deliver.timeout", Key.deliver_timeout)
    ∷ ("deliver.max_retries", Key.deliver_max_retries)
    ∷ []

abbrev pub find_key : String → List (String × Key) → Option Key
find_key name [] = none
find_key name ((n, k) ∷ keys) =
    let rest = find_key name keys in if str_eq n name then some k else rest

unfoldable pub key_of : String → Option Key
key_of name = find_key name config_keys

-- a setter that reads its value; the configuration that it leaves, and whether there is no error
abbrev pub reading {ℓ} : {A : Type ℓ} → Config → Option A → (A → Config × Bool) → Config × Bool
reading c none set = (c, false)
reading c (some a) set = set a

module _ (l : Codecs) where
  abbrev pub is_timeout : Text → Bool
  is_timeout t =
      not (is_empty t)
      && elim (l.parse_duration t) [ none ↦ false | some d ↦ is_within minute (60 * minute) d ]

  -- ValidateAgentLoopConfig (internal/config/config.go)
  unfoldable pub validate_agent_loop_config : AgentLoopConfig → Bool
  validate_agent_loop_config c =
      is_within 1 100 c.max_iterations
      && is_timeout c.total_timeout
      && is_within 0 100 c.no_progress_limit

  -- the new settings of the loop, with the verdict on them
  abbrev pub checked : Config → AgentLoopConfig → Config × Bool
  checked c loop = (record c { loop = loop }, validate_agent_loop_config loop)

  unfoldable pub apply_key : Config → Text → Key → Config × Bool
  unfolding validate_agent_loop_config
  apply_key c value Key.gitea_url = (record c { gitea = record c.gitea { url = value } }, true)
  apply_key c value Key.gitea_admin_token =
      (record c { gitea = record c.gitea { admin_token = value } }, true)
  apply_key c value Key.gitea_webhook_secret =
      (record c { gitea = record c.gitea { webhook_secret = value } }, true)
  apply_key c value Key.gitea_auto_provision =
      reading c (parse_bool_value l value)
        (λ b. (record c { gitea = record c.gitea { auto_provision = b } }, true))
  apply_key c value Key.server_public_url =
      (record c { server = record c.server { public_url = value } }, true)
  apply_key c value Key.llm_defaults_provider =
      (record c { llm = record c.llm { provider = value } }, true)
  apply_key c value Key.llm_defaults_model =
      (record c { llm = record c.llm { model = value } }, true)
  apply_key c value Key.dispatcher_max_concurrent =
      reading c (atoi value)
        (λ n. (record c { dispatcher = record c.dispatcher { max_concurrent = n } }, true))
  apply_key c value Key.dispatcher_task_retry_count =
      reading c (atoi value)
        (λ n. (record c { dispatcher = record c.dispatcher { task_retry_count = n } }, true))
  apply_key c value Key.dispatcher_rate_limit_backoff = reading c (atoi value) (λ n. (
    record c { dispatcher = record c.dispatcher { rate_limit_backoff = or_default 60 n } },
    true,
  ))
  apply_key c value Key.dispatcher_comment_history_limit = reading c (atoi value) (λ n. (
    record c { dispatcher = record c.dispatcher { comment_history_limit = or_default 10 n } },
    true,
  ))
  apply_key c value Key.dispatcher_agent_concurrency =
      if text_eq value (codes "parallel") || text_eq value (codes "serial_queue")
      then (record c { dispatcher = record c.dispatcher { agent_concurrency = value } }, true)
      else (c, false)
  apply_key c value Key.llm_rate_limit_retries =
      reading c (atoi value)
        (λ n. (record c { llm = record c.llm { rate_limit_retries = or_default 10 n } }, true))
  apply_key c value Key.agents_defaults_provider =
      (record c { defaults = record c.defaults { provider = value } }, true)
  apply_key c value Key.agents_defaults_model =
      (record c { defaults = record c.defaults { model = value } }, true)
  apply_key c value Key.agents_defaults_max_output_tokens =
      reading c (atoi value)
        (λ n. (record c { defaults = record c.defaults { max_output_tokens = n } }, true))
  apply_key c value Key.agents_defaults_max_input_tokens =
      reading c (atoi value)
        (λ n. (record c { defaults = record c.defaults { max_input_tokens = n } }, true))
  apply_key c value Key.agents_defaults_temperature =
      reading c (l.parse_float value)
        (λ x. (record c { defaults = record c.defaults { temperature = x } }, true))
  apply_key c value Key.agents_defaults_timeout =
      (record c { defaults = record c.defaults { timeout = value } }, true)
  apply_key c value Key.agents_loop_max_iterations =
      reading c (atoi value) (λ n. checked c (record c.loop { max_iterations = n }))
  apply_key c value Key.agents_loop_total_timeout =
      checked c (record c.loop { total_timeout = value })
  apply_key c value Key.agents_loop_iteration_interval =
      reading c (atoi value)
        (λ n. (record c { loop = record c.loop { iteration_interval = n } }, true))
  apply_key c value Key.agents_loop_no_progress_limit =
      reading c (atoi value)
        (λ n. (record c { loop = record c.loop { no_progress_limit = n } }, true))
  apply_key c value Key.agents_loop_verify_commands =
      reading c (l.parse_strings value)
        (λ x. (record c { loop = record c.loop { verify_commands = x } }, true))
  apply_key c value Key.agents_loop_independent_checker =
      reading c (parse_bool_value l value)
        (λ b. (record c { loop = record c.loop { independent_checker = b } }, true))
  apply_key c value Key.debug_conversation_log_enabled =
      reading c (parse_bool_value l value)
        (λ b. (record c { conversation_log = record c.conversation_log { enabled = b } }, true))
  apply_key c value Key.debug_conversation_log_max_content_chars = reading c (atoi value) (λ n.
      (record c { conversation_log = record c.conversation_log { max_content_chars = n } }, true))
  apply_key c value Key.workflow_preset =
      (record c { workflow = record c.workflow { preset = value } }, true)
  apply_key c value Key.workflow_gates =
      reading c (l.parse_gates value)
        (λ x. (record c { workflow = record c.workflow { gates = x } }, true))
  apply_key c value Key.deliver_webhook_url =
      (record c { deliver = record c.deliver { webhook_url = value } }, true)
  apply_key c value Key.deliver_timeout =
      (record c { deliver = record c.deliver { timeout = value } }, true)
  apply_key c value Key.deliver_max_retries =
      reading c (atoi value)
        (λ n. (record c { deliver = record c.deliver { max_retries = n } }, true))

  abbrev pub apply_at : Config → Text → Option Key → Config × Bool
  apply_at c value none = (c, false)
  apply_at c value (some k) = apply_key c value k

  -- what the configuration is afterwards, and whether there is no error
  unfoldable pub apply_config_entry : Config → String → Text → Config × Bool
  unfolding key_of apply_key
  apply_config_entry c key value = apply_at c value (key_of key)

  -- workflow.preset and workflow.gates have no case of their own
  unfoldable pub get_key : Config → Key → Text
  get_key c Key.gitea_url = c.gitea.url
  get_key c Key.gitea_admin_token = c.gitea.admin_token
  get_key c Key.gitea_webhook_secret = c.gitea.webhook_secret
  get_key c Key.gitea_auto_provision = format_bool c.gitea.auto_provision
  get_key c Key.server_public_url = c.server.public_url
  get_key c Key.llm_defaults_provider = c.llm.provider
  get_key c Key.llm_defaults_model = c.llm.model
  get_key c Key.dispatcher_max_concurrent = itoa c.dispatcher.max_concurrent
  get_key c Key.dispatcher_task_retry_count = itoa c.dispatcher.task_retry_count
  get_key c Key.dispatcher_rate_limit_backoff = itoa c.dispatcher.rate_limit_backoff
  get_key c Key.dispatcher_comment_history_limit = itoa c.dispatcher.comment_history_limit
  get_key c Key.dispatcher_agent_concurrency = c.dispatcher.agent_concurrency
  get_key c Key.llm_rate_limit_retries = itoa c.llm.rate_limit_retries
  get_key c Key.agents_defaults_provider = c.defaults.provider
  get_key c Key.agents_defaults_model = c.defaults.model
  get_key c Key.agents_defaults_max_output_tokens = itoa c.defaults.max_output_tokens
  get_key c Key.agents_defaults_max_input_tokens = itoa c.defaults.max_input_tokens
  get_key c Key.agents_defaults_temperature = l.print_float c.defaults.temperature
  get_key c Key.agents_defaults_timeout = c.defaults.timeout
  get_key c Key.agents_loop_max_iterations = itoa c.loop.max_iterations
  get_key c Key.agents_loop_total_timeout = c.loop.total_timeout
  get_key c Key.agents_loop_iteration_interval = itoa c.loop.iteration_interval
  get_key c Key.agents_loop_no_progress_limit = itoa c.loop.no_progress_limit
  get_key c Key.agents_loop_verify_commands = l.print_strings c.loop.verify_commands
  get_key c Key.agents_loop_independent_checker = format_bool c.loop.independent_checker
  get_key c Key.debug_conversation_log_enabled = format_bool c.conversation_log.enabled
  get_key c Key.debug_conversation_log_max_content_chars = itoa c.conversation_log.max_content_chars
  get_key c Key.deliver_webhook_url = c.deliver.webhook_url
  get_key c Key.deliver_timeout = c.deliver.timeout
  get_key c Key.deliver_max_retries = itoa c.deliver.max_retries
  get_key c _ = []

  abbrev pub get_at : Config → Option Key → Text
  get_at c none = []
  get_at c (some k) = get_key c k

  unfoldable pub get_config_entry : Config → String → Text
  unfolding key_of get_key
  get_config_entry c key = get_at c (key_of key)
