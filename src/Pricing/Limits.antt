-- ===== src/Pricing/Limits.antt =====
-- The context ceilings of application/model_pricing.py, with the names of Pricing/Rates.
use nokinc_factory.Prelude.{◌≡◌, ◌≤◌, ℕ, Option, none, some, arith}
use nokinc_factory.Pricing.Rates.{Provider, Model}

pub record ModelContextLimits : Type 0 where
  pub context_window_tokens : ℕ
  pub max_input_tokens : ℕ
  pub max_output_tokens : ℕ

abbrev pub limits : ℕ → ℕ → ℕ → ModelContextLimits
limits window input output = record {
  context_window_tokens = window;
  max_input_tokens = input;
  max_output_tokens = output;
}

-- `_CONTEXT_LIMITS`, and the lookup in it.
unfoldable pub model_context_limits : Provider → Model → Option ModelContextLimits
model_context_limits Provider.openai Model.gpt_6_luna = some (limits 1050000 922000 128000)
model_context_limits Provider.openai Model.gpt_5_6_luna = some (limits 1050000 922000 128000)
model_context_limits Provider.openai Model.gpt_6_astra = some (limits 1050000 922000 128000)
model_context_limits Provider.google Model.gemini_3_8_flash = some (limits 1048576 1048576 65536)
model_context_limits Provider.aws_bedrock Model.nova_pro = some (limits 300000 290000 10000)
model_context_limits _ _ = none

-- When there are limits for a provider and a model, neither the input nor the output limit exceeds
-- the context window.
pub model_context_limits-within :
    (provider : Provider) (model : Model) (l : ModelContextLimits)
    → model_context_limits provider model ≡ some l
    → (l.max_input_tokens ≤ l.context_window_tokens)
      × (l.max_output_tokens ≤ l.context_window_tokens)
unfolding model_context_limits
model_context_limits-within provider model l h = ground arith
