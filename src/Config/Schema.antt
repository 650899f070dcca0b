-- ===== src/Config/Schema.antt =====
-- The settings that have a key: internal/config/schema.go, as far as internal/config/keys.go reads and
-- writes them. The keys llm.providers and agents.backends are left out. An integer is one of 64 bits, a
-- floating-point number its bits, and texts are code points.
use matea.Base.{ℕ, Text, Bool, List}

pub data ℤ : Type 0 where
  pos negsuc : ℕ → ℤ

pub record GiteaConfig : Type 0 where
  pub url : Text
  pub admin_token : Text
  pub webhook_secret : Text
  pub auto_provision : Bool

pub record ServerConfig : Type 0 where
  pub public_url : Text

pub record LlmConfig : Type 0 where
  pub provider : Text
  pub model : Text
  pub rate_limit_retries : ℤ

pub record DispatcherConfig : Type 0 where
  pub max_concurrent : ℤ
  pub task_retry_count : ℤ
  pub rate_limit_backoff : ℤ
  pub comment_history_limit : ℤ
  pub agent_concurrency : Text

pub record AgentDefaultsConfig : Type 0 where
  pub provider : Text
  pub model : Text
  pub max_output_tokens : ℤ
  pub max_input_tokens : ℤ
  pub temperature : ℕ
  pub timeout : Text

pub record AgentLoopConfig : Type 0 where
  pub max_iterations : ℤ
  pub total_timeout : Text
  pub iteration_interval : ℤ
  pub no_progress_limit : ℤ
  pub verify_commands : List Text
  pub independent_checker : Bool

pub record ConversationLogConfig : Type 0 where
  pub enabled : Bool
  pub max_content_chars : ℤ

pub record WorkflowConfig : Type 0 where
  pub preset : Text
  pub gates : List (Text × Text)

pub record DeliverConfig : Type 0 where
  pub webhook_url : Text
  pub timeout : Text
  pub max_retries : ℤ

pub record Config : Type 0 where
  pub gitea : GiteaConfig
  pub server : ServerConfig
  pub llm : LlmConfig
  pub dispatcher : DispatcherConfig
  pub defaults : AgentDefaultsConfig
  pub loop : AgentLoopConfig
  pub conversation_log : ConversationLogConfig
  pub workflow : WorkflowConfig
  pub deliver : DeliverConfig

-- the keys, as configKeys lists them
pub data Key : Type 0 where
  gitea_url gitea_admin_token gitea_webhook_secret gitea_auto_provision server_public_url
        llm_defaults_provider llm_defaults_model dispatcher_max_concurrent
        dispatcher_task_retry_count dispatcher_rate_limit_backoff dispatcher_comment_history_limit
        dispatcher_agent_concurrency llm_rate_limit_retries agents_defaults_provider
        agents_defaults_model agents_defaults_max_output_tokens agents_defaults_max_input_tokens
        agents_defaults_temperature agents_defaults_timeout agents_loop_max_iterations
        agents_loop_total_timeout agents_loop_iteration_interval agents_loop_no_progress_limit
        agents_loop_verify_commands agents_loop_independent_checker debug_conversation_log_enabled
        debug_conversation_log_max_content_chars workflow_preset workflow_gates deliver_webhook_url
        deliver_timeout deliver_max_retries :
      Key
