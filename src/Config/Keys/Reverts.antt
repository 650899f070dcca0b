-- ===== src/Config/Keys/Reverts.antt =====
-- Writing back a setting as it is read (internal/config/keys.go).
use matea.Base.{
  ℕ, zero, suc, ◌^◌, ◌<◌, String, codes, text_eq, Bool, true, false, ◌||◌, Option, none, some, List,
  [], ◌∷◌, ◌≡◌, ◌≢◌, refl, sym, ◌∙◌, ap, arith, All, decimal, decimal-head, digits_value,
  digits_value-decimal, Bool-cases, inl, inr,
}
use matea.Config.Schema.{ℤ, Config, Key}
use matea.Config.Values.{
  Codecs, atoi, itoa, as_neg, magnitude, or_default, format_bool, parse_bool_value,
}
use matea.Config.Keys.{
  reading, apply_key, apply_at, key_of, apply_config_entry, get_key, get_at, get_config_entry,
}

-- an integer of 64 bits
abbrev pub IsInt64 : ℤ → Type 0
IsInt64 (ℤ.pos n) = n < 2 ^ 63
IsInt64 (ℤ.negsuc n) = n < 2 ^ 63

magnitude-decimal : (n : ℕ) → magnitude (decimal n) ≡ some n
magnitude-decimal n =
    let (c, t, same, low) = decimal-head n in
    ap magnitude same ∙ ap (digits_value 0) (sym same) ∙ digits_value-decimal n

atoi-decimal : (n : ℕ) → n < 2 ^ 63 → atoi (decimal n) ≡ some (ℤ.pos n)
atoi-decimal n small =
    let (c, t, same, low) = decimal-head n in
    let value : magnitude (c ∷ t) ≡ some n = ap magnitude (sym same) ∙ magnitude-decimal n in
    ap atoi same ∙ ground (arith, low, value, small)

atoi-itoa : (n : ℤ) → IsInt64 n → atoi (itoa n) ≡ some n
atoi-itoa (ℤ.pos n) small = atoi-decimal n small
atoi-itoa (ℤ.negsuc n) small = ap as_neg (magnitude-decimal (suc n)) ∙ ground (arith, small)

-- not the number that asks for the default
abbrev pub IsNonzero : ℤ → Type 0
IsNonzero n = n ≢ ℤ.pos 0

or_default-IsNonzero : (n : ℕ) (m : ℤ) → IsNonzero m → or_default n m ≡ m
or_default-IsNonzero n (ℤ.pos zero) h = absurd (h refl)
or_default-IsNonzero n (ℤ.pos (suc m)) h = refl
or_default-IsNonzero n (ℤ.negsuc m) h = refl

-- what is read from the texts that the libraries have printed of the values of the file
pub record IsFaithful (l : Codecs) (c : Config) : Type 0 where
  pub float : l.parse_float (l.print_float c.defaults.temperature) ≡ some c.defaults.temperature
  pub strings :
      l.parse_strings (l.print_strings c.loop.verify_commands) ≡ some c.loop.verify_commands
  pub lower_true : l.to_lower (codes "true") ≡ codes "true"
  pub lower_false : l.to_lower (codes "false") ≡ codes "false"

abbrev pub integers : Config → List ℤ
integers c =
    c.dispatcher.max_concurrent ∷ c.dispatcher.task_retry_count ∷ c.dispatcher.rate_limit_backoff
    ∷ c.dispatcher.comment_history_limit ∷ c.llm.rate_limit_retries ∷ c.defaults.max_output_tokens
    ∷ c.defaults.max_input_tokens ∷ c.loop.max_iterations ∷ c.loop.iteration_interval
    ∷ c.loop.no_progress_limit ∷ c.conversation_log.max_content_chars ∷ c.deliver.max_retries ∷ []

-- the integers have 64 bits, and those with a default are set, as they are in a loaded file
pub record IsLoaded (c : Config) : Type 0 where
  pub bits : All IsInt64 (integers c)
  pub backoff : IsNonzero c.dispatcher.rate_limit_backoff
  pub history : IsNonzero c.dispatcher.comment_history_limit
  pub retries : IsNonzero c.llm.rate_limit_retries

module _ (l : Codecs) (base : Config) (f : IsFaithful l base) where
  parse_bool_value-format_bool : (b : Bool) → parse_bool_value l (format_bool b) ≡ some b
  unfolding parse_bool_value
  parse_bool_value-format_bool true = rw f.lower_true refl
  parse_bool_value-format_bool false = rw f.lower_false refl

  -- a value that is set without an error reads as that of the file
  abbrev Restores : Key → Config × Bool → Type 0
  Restores k r = r.1 ≡ true → get_key l r.0 k ≡ get_key l base k

  reading-Restores {ℓ} :
      {A : Type ℓ} (c : Config) (k : Key) (o : Option A) (a : A) (set : A → Config × Bool)
      → o ≡ some a
      → (get_key l (set a).0 k ≡ get_key l base k)
      → Restores k (reading c o set)
  reading-Restores c k o a set e h = rw e (λ t. h)

  apply_key-get_key :
      (c : Config) (k : Key) → IsLoaded base → Restores k (apply_key l c (get_key l base k) k)
  unfolding apply_key get_key
  apply_key-get_key c Key.gitea_url h = λ e. refl
  apply_key-get_key c Key.gitea_admin_token h = λ e. refl
  apply_key-get_key c Key.gitea_webhook_secret h = λ e. refl
  apply_key-get_key c Key.gitea_auto_provision h =
      reading-Restores c Key.gitea_auto_provision
        (parse_bool_value l (format_bool base.gitea.auto_provision)) base.gitea.auto_provision _
        (parse_bool_value-format_bool base.gitea.auto_provision) refl
  apply_key-get_key c Key.server_public_url h = λ e. refl
  apply_key-get_key c Key.llm_defaults_provider h = λ e. refl
  apply_key-get_key c Key.llm_defaults_model h = λ e. refl
  apply_key-get_key c Key.dispatcher_max_concurrent h =
      reading-Restores c Key.dispatcher_max_concurrent (atoi (itoa base.dispatcher.max_concurrent))
        base.dispatcher.max_concurrent _ (atoi-itoa base.dispatcher.max_concurrent h.bits.0) refl
  apply_key-get_key c Key.dispatcher_task_retry_count h =
      reading-Restores c Key.dispatcher_task_retry_count
        (atoi (itoa base.dispatcher.task_retry_count)) base.dispatcher.task_retry_count _
        (atoi-itoa base.dispatcher.task_retry_count h.bits.1.0) refl
  apply_key-get_key c Key.dispatcher_rate_limit_backoff h =
      reading-Restores c Key.dispatcher_rate_limit_backoff
        (atoi (itoa base.dispatcher.rate_limit_backoff)) base.dispatcher.rate_limit_backoff _
        (atoi-itoa base.dispatcher.rate_limit_backoff h.bits.1.1.0)
        (ap itoa (or_default-IsNonzero 60 base.dispatcher.rate_limit_backoff h.backoff))
  apply_key-get_key c Key.dispatcher_comment_history_limit h =
      reading-Restores c Key.dispatcher_comment_history_limit
        (atoi (itoa base.dispatcher.comment_history_limit)) base.dispatcher.comment_history_limit _
        (atoi-itoa base.dispatcher.comment_history_limit h.bits.1.1.1.0)
        (ap itoa (or_default-IsNonzero 10 base.dispatcher.comment_history_limit h.history))
  apply_key-get_key c Key.dispatcher_agent_concurrency h = λ e.
      elim (Bool-cases (
        text_eq base.dispatcher.agent_concurrency (codes "parallel")
        || text_eq base.dispatcher.agent_concurrency (codes "serial_queue"))) [
          | inl t ↦ rw t refl
          | inr t ↦ absurd (cc (rw t at e))
        ]
  apply_key-get_key c Key.llm_rate_limit_retries h =
      reading-Restores c Key.llm_rate_limit_retries (atoi (itoa base.llm.rate_limit_retries))
        base.llm.rate_limit_retries _ (atoi-itoa base.llm.rate_limit_retries h.bits.1.1.1.1.0)
        (ap itoa (or_default-IsNonzero 10 base.llm.rate_limit_retries h.retries))
  apply_key-get_key c Key.agents_defaults_provider h = λ e. refl
  apply_key-get_key c Key.agents_defaults_model h = λ e. refl
  apply_key-get_key c Key.agents_defaults_max_output_tokens h =
      reading-Restores c Key.agents_defaults_max_output_tokens
        (atoi (itoa base.defaults.max_output_tokens)) base.defaults.max_output_tokens _
        (atoi-itoa base.defaults.max_output_tokens h.bits.1.1.1.1.1.0) refl
  apply_key-get_key c Key.agents_defaults_max_input_tokens h =
      reading-Restores c Key.agents_defaults_max_input_tokens
        (atoi (itoa base.defaults.max_input_tokens)) base.defaults.max_input_tokens _
        (atoi-itoa base.defaults.max_input_tokens h.bits.1.1.1.1.1.1.0) refl
  apply_key-get_key c Key.agents_defaults_temperature h =
      reading-Restores c Key.agents_defaults_temperature
        (l.parse_float (l.print_float base.defaults.temperature)) base.defaults.temperature _
        f.float refl
  apply_key-get_key c Key.agents_defaults_timeout h = λ e. refl
  apply_key-get_key c Key.agents_loop_max_iterations h =
      reading-Restores c Key.agents_loop_max_iterations (atoi (itoa base.loop.max_iterations))
        base.loop.max_iterations _ (atoi-itoa base.loop.max_iterations h.bits.1.1.1.1.1.1.1.0) refl
  apply_key-get_key c Key.agents_loop_total_timeout h = λ e. refl
  apply_key-get_key c Key.agents_loop_iteration_interval h =
      reading-Restores c Key.agents_loop_iteration_interval
        (atoi (itoa base.loop.iteration_interval)) base.loop.iteration_interval _
        (atoi-itoa base.loop.iteration_interval h.bits.1.1.1.1.1.1.1.1.0) refl
  apply_key-get_key c Key.agents_loop_no_progress_limit h =
      reading-Restores c Key.agents_loop_no_progress_limit (atoi (itoa base.loop.no_progress_limit))
        base.loop.no_progress_limit _
        (atoi-itoa base.loop.no_progress_limit h.bits.1.1.1.1.1.1.1.1.1.0) refl
  apply_key-get_key c Key.agents_loop_verify_commands h =
      reading-Restores c Key.agents_loop_verify_commands
        (l.parse_strings (l.print_strings base.loop.verify_commands)) base.loop.verify_commands _
        f.strings refl
  apply_key-get_key c Key.agents_loop_independent_checker h =
      reading-Restores c Key.agents_loop_independent_checker
        (parse_bool_value l (format_bool base.loop.independent_checker))
        base.loop.independent_checker _ (parse_bool_value-format_bool base.loop.independent_checker)
        refl
  apply_key-get_key c Key.debug_conversation_log_enabled h =
      reading-Restores c Key.debug_conversation_log_enabled
        (parse_bool_value l (format_bool base.conversation_log.enabled))
        base.conversation_log.enabled _ (parse_bool_value-format_bool base.conversation_log.enabled)
        refl
  apply_key-get_key c Key.debug_conversation_log_max_content_chars h =
      reading-Restores c Key.debug_conversation_log_max_content_chars
        (atoi (itoa base.conversation_log.max_content_chars))
        base.conversation_log.max_content_chars _
        (atoi-itoa base.conversation_log.max_content_chars h.bits.1.1.1.1.1.1.1.1.1.1.0) refl
  apply_key-get_key c Key.workflow_preset h = λ e. refl
  apply_key-get_key c Key.workflow_gates h = λ e. refl
  apply_key-get_key c Key.deliver_webhook_url h = λ e. refl
  apply_key-get_key c Key.deliver_timeout h = λ e. refl
  apply_key-get_key c Key.deliver_max_retries h =
      reading-Restores c Key.deliver_max_retries (atoi (itoa base.deliver.max_retries))
        base.deliver.max_retries _
        (atoi-itoa base.deliver.max_retries h.bits.1.1.1.1.1.1.1.1.1.1.1.0) refl

  apply_at-get_at :
      (c : Config) (o : Option Key)
      → IsLoaded base
      → (apply_at l c (get_at l base o) o).1 ≡ true
      → get_at l (apply_at l c (get_at l base o) o).0 o ≡ get_at l base o
  apply_at-get_at c none h e = absurd (cc e)
  apply_at-get_at c (some k) h e = apply_key-get_key c k h e

  pub apply_config_entry-get_config_entry :
      (c : Config) (key : String)
      → IsLoaded base
      → (apply_config_entry l c key (get_config_entry l base key)).1 ≡ true
      → get_config_entry l (apply_config_entry l c key (get_config_entry l base key)).0 key
        ≡ get_config_entry l base key
  unfolding apply_config_entry get_config_entry
  apply_config_entry-get_config_entry c key h = apply_at-get_at c (key_of key) h
