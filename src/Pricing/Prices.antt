-- ===== src/Pricing/Prices.antt =====
-- The published price list behind application/model_pricing.py, written out per token in whole
-- nanodollars, long-context prices and all, and what a call costs by it: the counts times the
-- prices, with no multiplier and no rounding.
use nokinc_factory.Prelude.{
  ◌≡◌, ℕ, ◌+◌, ◌*◌, ◌^◌, ◌<◌, Bool, Option, none, some, ltb, leb, nat_eq, arith, if◌then◌else◌,
}
use nokinc_factory.Pricing.Rates.{
  Provider, Model, Region, PriceCard, SourceUrl, rates, applies, ModelUsage, ModelCostEstimate,
  half_nanodollars, price, estimate_model_cost, total_input_tokens,
}

-- Prices of one provider's list: the list, the page it was read from, and a price per token.
pub record Prices : Type 0 where
  pub card : PriceCard
  pub source : SourceUrl
  pub input : ℕ
  pub cached : ℕ
  pub written : Option ℕ
  pub output : ℕ

abbrev pub prices : PriceCard → SourceUrl → ℕ → ℕ → Option ℕ → ℕ → Prices
prices c s i h w o = record { card = c; source = s; input = i; cached = h; written = w; output = o }

abbrev pub from : ℕ → ℕ → Option Prices → Option Prices
from first day p = if ltb day first then none else p

-- The list of a provider for a model on a day in a region, for a short or a long context.
abbrev pub listed : Provider → Model → ℕ → Region → Bool → Option Prices
listed Provider.openai Model.gpt_6_luna day region long =
    let quote = prices PriceCard.openai_gpt_6_luna_2026_09 SourceUrl.openai_gpt6_luna_source in
    from 20260928 day
      (some (if long then quote 200 20 (some 250) 750 else quote 100 10 (some 125) 500))
listed Provider.openai Model.gpt_5_6_luna day region long =
    let quote = prices PriceCard.openai_2026_09 SourceUrl.openai_luna_source in
    from 20260927 day
      (some (if long then quote 400 40 (some 500) 1800 else quote 200 20 (some 250) 1200))
listed Provider.openai Model.gpt_6_astra day region long =
    let quote = prices PriceCard.openai_2026_09 SourceUrl.openai_astra_source in
    from 20260927 day (
      some
        (if long then quote 20000 2000 (some 25000) 75000 else quote 10000 1000 (some 12500) 50000))
listed Provider.google Model.gemini_3_8_flash day region long = from 20260924 day (
    some (
      if ltb day 20270101
      then prices PriceCard.google_gemini_2026_09 SourceUrl.google_source 750 75 none 3750
      else prices PriceCard.google_gemini_2027_01 SourceUrl.google_source 1500 150 none 7500))
listed Provider.aws_bedrock Model.nova_pro day Region.us_east_1 long = from 20260901 day (
    some
      (prices PriceCard.aws_bedrock_us_east_1_2026_09 SourceUrl.aws_source 800 200 (some 0) 3200))
listed _ _ _ _ _ = none

-- What cache writes cost; there is no cost without a price for them.
abbrev pub written_cost : Option ℕ → ℕ → Option ℕ
written_cost (some rate) count = some (count * rate)
written_cost none count = if leb 1 count then none else some 0

abbrev pub total : ModelUsage → ℕ → Prices → Option ℕ → Option ModelCostEstimate
total u day p none = none
total u day p (some written) = some (record {
  cost_nanodollars =
      u.input_tokens * p.input
      + u.cached_input_tokens * p.cached
      + written
      + u.output_tokens * p.output;
  price_card_id = p.card;
  source_url = p.source;
  priced_on = day;
})

abbrev pub billed : ModelUsage → ℕ → Option Prices → Option ModelCostEstimate
billed u day none = none
billed u day (some p) = total u day p (written_cost p.written u.cache_write_input_tokens)

-- For every provider, model, usage, day and region the estimate is what the published list bills,
-- in whole nanodollars per token: each of the four counts times its price, at its long-context
-- prices, where it has them, when more than 272,000 tokens go in, with the list's card, its source
-- and the day; and none when the list has no prices for them or cache writes without a price.
pub estimate_model_cost-billed :
    (provider : Provider) (model : Model) (usage : ModelUsage) (as_of : ℕ) (region : Region)
    → estimate_model_cost provider model usage as_of region
      ≡ billed usage as_of
          (listed provider model as_of region (ltb 272000 (total_input_tokens usage)))
unfolding estimate_model_cost price rates applies half_nanodollars
estimate_model_cost-billed provider model usage as_of region = ground arith

-- For counts below 10 ^ 18 a cost, written with the four decimals that the factors of the source
-- have, has no more than the 28 digits of Python's `Decimal`, so that arithmetic there is exact.
estimate_model_cost-digits :
    (provider : Provider) (model : Model) (usage : ModelUsage) (as_of : ℕ) (region : Region)
    (e : ModelCostEstimate)
    → estimate_model_cost provider model usage as_of region ≡ some e
    → usage.input_tokens < 10 ^ 18
    → usage.cached_input_tokens < 10 ^ 18
    → usage.cache_write_input_tokens < 10 ^ 18
    → usage.output_tokens < 10 ^ 18
    → e.cost_nanodollars * 10 ^ 4 < 10 ^ 28
estimate_model_cost-digits provider model usage as_of region e h i c w o =
    let is = estimate_model_cost-billed provider model usage as_of region in ground arith
