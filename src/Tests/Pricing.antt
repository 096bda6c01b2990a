-- ===== src/Tests/Pricing.antt =====
-- An estimate for a call, and the theorems on the rate card.
use nokinc_factory.Prelude.{◌≡◌, refl, ◌≤◌, some, length, keep, ltb, nat_eq}
use nokinc_factory.Pricing.Rates.{
  Provider, Model, Region, PriceCard, SourceUrl, rates, applies, ModelUsage, ModelCostEstimate,
  is_chosen, half_nanodollars, price, estimate_model_cost, total_input_tokens,
}
use nokinc_factory.Pricing.Limits.{limits, model_context_limits}
use nokinc_factory.Pricing.Estimates.{rates_chosen_once}
use nokinc_factory.Pricing.Prices.{listed, billed, estimate_model_cost-billed}

abbrev usage : ModelUsage
usage = record {
  input_tokens = 1000;
  cached_input_tokens = 0;
  cache_write_input_tokens = 0;
  output_tokens = 100;
}

abbrev estimate : ModelCostEstimate
estimate = record {
  cost_nanodollars = 1125000;
  price_card_id = PriceCard.google_gemini_2026_09;
  source_url = SourceUrl.google_source;
  priced_on = 20261001;
}

estimates :
    estimate_model_cost Provider.google Model.gemini_3_8_flash usage 20261001 Region.us_east_1
    ≡ some estimate
unfolding estimate_model_cost price rates applies half_nanodollars
estimates = refl

rates_chosen_once_example :
    length (keep (is_chosen Provider.google Model.gemini_3_8_flash 20261001 Region.us_east_1) rates)
    ≤ 1
rates_chosen_once_example =
    rates_chosen_once Provider.google Model.gemini_3_8_flash 20261001 Region.us_east_1

-- A long context: 300,000 tokens in, of which a third was cached and a third is written, 10 out.
abbrev long_usage : ModelUsage
long_usage = record {
  input_tokens = 100000;
  cached_input_tokens = 100000;
  cache_write_input_tokens = 100000;
  output_tokens = 10;
}

estimate_model_cost-billed_example :
    estimate_model_cost Provider.openai Model.gpt_6_luna long_usage 20261001 Region.us_east_1
    ≡ billed long_usage 20261001 (
        listed Provider.openai Model.gpt_6_luna 20261001 Region.us_east_1
          (ltb 272000 (total_input_tokens long_usage)))
estimate_model_cost-billed_example =
    estimate_model_cost-billed Provider.openai Model.gpt_6_luna long_usage 20261001 Region.us_east_1

nova_is :
    model_context_limits Provider.aws_bedrock Model.nova_pro ≡ some (limits 300000 290000 10000)
unfolding model_context_limits
nova_is = refl
