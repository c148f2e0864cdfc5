-- ===== src/Agent/Provider.antt =====
-- The provider's side of src/repoguard/providers.py, and `_validate_configuration` of
-- src/repoguard/_agent.py.
use repo_guard.Base.{
  ℕ, Bool, true, false, not, ◌&&◌, ◌||◌, Option, List, [], ◌∷◌, ltb, leb, all, any, length,
}
use repo_guard.Base.Outcome.{◌>>◌, require}
use repo_guard.Text.{encodes}
use repo_guard.Agent.Characters.{is_space, is_control}
use repo_guard.Agent.{Agent, AgentReviewError, invalid_configuration, validate, AgentReviewConfig}

pub data ProviderErrorCode : Type 0 where
  authentication_failed rate_limited timeout unavailable : ProviderErrorCode
  request_failed refused invalid_response : ProviderErrorCode

pub data MessageRole : Type 0 where
  system user : MessageRole

pub record LlmMessage : Type 0 where
  pub role : MessageRole
  pub content : List ℕ

pub record LlmRequest : Type 0 where
  pub model : List ℕ
  pub messages : List LlmMessage
  pub max_output_tokens : ℕ
  pub timeout_seconds : ℕ

pub record TokenUsage : Type 0 where
  pub input_tokens : Option ℕ
  pub output_tokens : Option ℕ
  pub total_tokens : Option ℕ

pub record LlmResponse : Type 0 where
  pub output_text : List ℕ
  pub usage : Option TokenUsage

-- How a call of the provider ends: it returns, it raises a ProviderError, or anything else.
pub data Answer : Type 0 where
  responds : LlmResponse → Answer
  fails : ProviderErrorCode → Answer
  crashes : Answer

abbrev pub is_empty : List ℕ → Bool
is_empty [] = true
is_empty (c ∷ s) = false

abbrev pub is_system : MessageRole → Bool
is_system system = true
is_system user = false

abbrev pub is_user : MessageRole → Bool
is_user system = false
is_user user = true

-- One system message followed by one user message.
abbrev pub are_messages : List LlmMessage → Bool
are_messages [] = false
are_messages (a ∷ []) = false
are_messages (a ∷ b ∷ []) = is_system a.role && is_user b.role
are_messages (a ∷ b ∷ c ∷ rest) = false

-- What `LlmRequest.__post_init__` accepts.
abbrev pub is_request : LlmRequest → Bool
is_request r =
    not (is_empty r.model)
    && are_messages r.messages
    && ltb 0 r.max_output_tokens
    && ltb 0 r.timeout_seconds

-- _raise_invalid_configuration
abbrev pub bad_configuration : AgentReviewError
bad_configuration = record { code = invalid_configuration; node = validate; attempt_count = 0 }

-- _validate_identifier
unfoldable pub validate_identifier : List ℕ → ℕ → Agent Unit
validate_identifier value maximum = do
  require (not (all is_space value || ltb maximum (length value))) bad_configuration
  require (encodes value) bad_configuration
  require (not (any is_control value)) bad_configuration

-- 1 <= value <= maximum
abbrev pub within : ℕ → ℕ → Bool
within value maximum = leb 1 value && leb value maximum

-- Every entry of _MAX_CONFIG_VALUES and of _MAX_TIMEOUT_VALUES.
unfoldable pub within_limits : AgentReviewConfig → Bool
within_limits config =
    within config.max_prompt_bytes 131072
    && within config.max_output_tokens 4096
    && within config.max_response_bytes 524288
    && within config.max_model_findings 100
    && within config.max_references_per_finding 8
    && within config.max_title_chars 120
    && within config.max_message_chars 1000
    && within config.max_remediation_chars 1000
    && within config.max_attempts 3
    && within config.per_attempt_timeout 30000000000
    && within config.total_timeout 95000000000

unfoldable pub validate_configuration : AgentReviewConfig → Agent Unit
validate_configuration config = do
  validate_identifier config.model 256
  require (within_limits config) bad_configuration
