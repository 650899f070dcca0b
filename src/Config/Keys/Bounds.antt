-- ===== src/Config/Keys/Bounds.antt =====
-- The bounds of the settings of the agent loop (internal/config/keys.go).
use matea.Base.{
  Text, String, Bool, true, ◌||◌, Option, none, some, ◌≡◌, arith, Bool-cases, inl, inr, text_eq,
  codes,
}
use matea.Config.Schema.{AgentLoopConfig, Config, Key}
use matea.Config.Values.{Codecs, is_within, atoi, parse_bool_value}
use matea.Config.Keys.{
  is_timeout, reading, checked, validate_agent_loop_config, apply_key, apply_at, key_of,
  apply_config_entry,
}

module _ (l : Codecs) where
  -- the number of rounds and the timeout of the loop are within their bounds
  pub record IsBounded (c : Config) : Type 0 where
    pub rounds : is_within 1 100 c.loop.max_iterations ≡ true
    pub timeout : is_timeout l c.loop.total_timeout ≡ true

  -- a change of the configuration that has no error keeps the bounds
  abbrev Keeps : Config × Bool → Type 0
  Keeps r = r.1 ≡ true → IsBounded r.0

  reading-Keeps {ℓ} :
      {A : Type ℓ} (c : Config) (o : Option A) (set : A → Config × Bool)
      → ((a : A) → Keeps (set a))
      → Keeps (reading c o set)
  reading-Keeps c none set h e = absurd (cc e)
  reading-Keeps c (some a) set h e = h a e

  checked-Keeps : (c : Config) (loop : AgentLoopConfig) → Keeps (checked l c loop)
  unfolding validate_agent_loop_config
  checked-Keeps c loop e = record { rounds = ground (arith, e); timeout = ground (arith, e) }

  apply_key-IsBounded :
      (c : Config) (value : Text) (k : Key) → IsBounded c → Keeps (apply_key l c value k)
  unfolding apply_key
  apply_key-IsBounded c value Key.gitea_url h =
      λ e. record { rounds = h.rounds; timeout = h.timeout }
  apply_key-IsBounded c value Key.gitea_admin_token h =
      λ e. record { rounds = h.rounds; timeout = h.timeout }
  apply_key-IsBounded c value Key.gitea_webhook_secret h =
      λ e. record { rounds = h.rounds; timeout = h.timeout }
  apply_key-IsBounded c value Key.gitea_auto_provision h =
      reading-Keeps c (parse_bool_value l value) _
        (λ x e. record { rounds = h.rounds; timeout = h.timeout })
  apply_key-IsBounded c value Key.server_public_url h =
      λ e. record { rounds = h.rounds; timeout = h.timeout }
  apply_key-IsBounded c value Key.llm_defaults_provider h =
      λ e. record { rounds = h.rounds; timeout = h.timeout }
  apply_key-IsBounded c value Key.llm_defaults_model h =
      λ e. record { rounds = h.rounds; timeout = h.timeout }
  apply_key-IsBounded c value Key.dispatcher_max_concurrent h =
      reading-Keeps c (atoi value) _ (λ x e. record { rounds = h.rounds; timeout = h.timeout })
  apply_key-IsBounded c value Key.dispatcher_task_retry_count h =
      reading-Keeps c (atoi value) _ (λ x e. record { rounds = h.rounds; timeout = h.timeout })
  apply_key-IsBounded c value Key.dispatcher_rate_limit_backoff h =
      reading-Keeps c (atoi value) _ (λ x e. record { rounds = h.rounds; timeout = h.timeout })
  apply_key-IsBounded c value Key.dispatcher_comment_history_limit h =
      reading-Keeps c (atoi value) _ (λ x e. record { rounds = h.rounds; timeout = h.timeout })
  apply_key-IsBounded c value Key.dispatcher_agent_concurrency h = λ e.
      elim (Bool-cases (text_eq value (codes "parallel") || text_eq value (codes "serial_queue"))) [
        | inl t ↦ rw t (record { rounds = h.rounds; timeout = h.timeout })
        | inr t ↦ absurd (cc (rw t at e))
      ]
  apply_key-IsBounded c value Key.llm_rate_limit_retries h =
      reading-Keeps c (atoi value) _ (λ x e. record { rounds = h.rounds; timeout = h.timeout })
  apply_key-IsBounded c value Key.agents_defaults_provider h =
      λ e. record { rounds = h.rounds; timeout = h.timeout }
  apply_key-IsBounded c value Key.agents_defaults_model h =
      λ e. record { rounds = h.rounds; timeout = h.timeout }
  apply_key-IsBounded c value Key.agents_defaults_max_output_tokens h =
      reading-Keeps c (atoi value) _ (λ x e. record { rounds = h.rounds; timeout = h.timeout })
  apply_key-IsBounded c value Key.agents_defaults_max_input_tokens h =
      reading-Keeps c (atoi value) _ (λ x e. record { rounds = h.rounds; timeout = h.timeout })
  apply_key-IsBounded c value Key.agents_defaults_temperature h =
      reading-Keeps c (l.parse_float value) _
        (λ x e. record { rounds = h.rounds; timeout = h.timeout })
  apply_key-IsBounded c value Key.agents_defaults_timeout h =
      λ e. record { rounds = h.rounds; timeout = h.timeout }
  apply_key-IsBounded c value Key.agents_loop_max_iterations h =
      reading-Keeps c (atoi value) _ (λ n. checked-Keeps c (record c.loop { max_iterations = n }))
  apply_key-IsBounded c value Key.agents_loop_total_timeout h =
      checked-Keeps c (record c.loop { total_timeout = value })
  apply_key-IsBounded c value Key.agents_loop_iteration_interval h =
      reading-Keeps c (atoi value) _ (λ x e. record { rounds = h.rounds; timeout = h.timeout })
  apply_key-IsBounded c value Key.agents_loop_no_progress_limit h =
      reading-Keeps c (atoi value) _ (λ x e. record { rounds = h.rounds; timeout = h.timeout })
  apply_key-IsBounded c value Key.agents_loop_verify_commands h =
      reading-Keeps c (l.parse_strings value) _
        (λ x e. record { rounds = h.rounds; timeout = h.timeout })
  apply_key-IsBounded c value Key.agents_loop_independent_checker h =
      reading-Keeps c (parse_bool_value l value) _
        (λ x e. record { rounds = h.rounds; timeout = h.timeout })
  apply_key-IsBounded c value Key.debug_conversation_log_enabled h =
      reading-Keeps c (parse_bool_value l value) _
        (λ x e. record { rounds = h.rounds; timeout = h.timeout })
  apply_key-IsBounded c value Key.debug_conversation_log_max_content_chars h =
      reading-Keeps c (atoi value) _ (λ x e. record { rounds = h.rounds; timeout = h.timeout })
  apply_key-IsBounded c value Key.workflow_preset h =
      λ e. record { rounds = h.rounds; timeout = h.timeout }
  apply_key-IsBounded c value Key.workflow_gates h =
      reading-Keeps c (l.parse_gates value) _
        (λ x e. record { rounds = h.rounds; timeout = h.timeout })
  apply_key-IsBounded c value Key.deliver_webhook_url h =
      λ e. record { rounds = h.rounds; timeout = h.timeout }
  apply_key-IsBounded c value Key.deliver_timeout h =
      λ e. record { rounds = h.rounds; timeout = h.timeout }
  apply_key-IsBounded c value Key.deliver_max_retries h =
      reading-Keeps c (atoi value) _ (λ x e. record { rounds = h.rounds; timeout = h.timeout })

  apply_at-IsBounded :
      (c : Config) (value : Text) (o : Option Key) → IsBounded c → Keeps (apply_at l c value o)
  apply_at-IsBounded c value none h = λ e. absurd (cc e)
  apply_at-IsBounded c value (some k) h = apply_key-IsBounded c value k h

  pub apply_config_entry-IsBounded :
      (c : Config) (key : String) (value : Text)
      → IsBounded c
      → (apply_config_entry l c key value).1 ≡ true
      → IsBounded (apply_config_entry l c key value).0
  unfolding apply_config_entry
  apply_config_entry-IsBounded c key value h = apply_at-IsBounded c value (key_of key) h
