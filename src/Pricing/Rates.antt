-- ===== src/Pricing/Rates.antt =====
-- The rate card and the estimate of application/model_pricing.py. Names are constructors, with `other`
-- for every name that the card does not have; a date is its digits as one number, which orders as
-- the dates do. A rate is a number of thousandths of a dollar per million tokens and a multiplier a
-- number of halves, so that a product is a number of half nanodollars; `Decimal` with its 28 digits is
-- exact here for counts below 10 ^ 18 (Prices).
use nokinc_factory.Prelude.{
  ℕ, ◌+◌, ◌*◌, ◌/◌, Bool, true, false, ◌&&◌, List, [], ◌∷◌, Option, none, some, first?, ltb, leb,
  ◌==◌, nat_eq, if◌then◌else◌,
}

pub data Provider : Type 0 where
  openai google aws_bedrock : Provider
  other : ℕ → Provider

pub data Model : Type 0 where
  gpt_6_luna gpt_5_6_luna gpt_6_astra gemini_3_8_flash nova_pro : Model
  other : ℕ → Model

pub data Region : Type 0 where
  us_east_1 : Region
  other : ℕ → Region

abbrev pub provider_beq : Provider → Provider → Bool
provider_beq Provider.openai Provider.openai = true
provider_beq Provider.google Provider.google = true
provider_beq Provider.aws_bedrock Provider.aws_bedrock = true
provider_beq (Provider.other a) (Provider.other b) = a == b
provider_beq _ _ = false

abbrev pub model_beq : Model → Model → Bool
model_beq Model.gpt_6_luna Model.gpt_6_luna = true
model_beq Model.gpt_5_6_luna Model.gpt_5_6_luna = true
model_beq Model.gpt_6_astra Model.gpt_6_astra = true
model_beq Model.gemini_3_8_flash Model.gemini_3_8_flash = true
model_beq Model.nova_pro Model.nova_pro = true
model_beq (Model.other a) (Model.other b) = a == b
model_beq _ _ = false

abbrev pub region_beq : Region → Region → Bool
region_beq Region.us_east_1 Region.us_east_1 = true
region_beq (Region.other a) (Region.other b) = a == b
region_beq _ _ = false

pub data PriceCard : Type 0 where
  openai_gpt_6_luna_2026_09 openai_2026_09 google_gemini_2026_09 : PriceCard
  google_gemini_2027_01 aws_bedrock_us_east_1_2026_09 : PriceCard

pub data SourceUrl : Type 0 where
  openai_luna_source openai_gpt6_luna_source openai_astra_source google_source : SourceUrl
  aws_source : SourceUrl

pub record TokenRates : Type 0 where
  pub provider : Provider
  pub model : Model
  pub price_card_id : PriceCard
  pub input : ℕ
  pub cached_input : Option ℕ
  pub cache_write : Option ℕ
  pub output : ℕ
  pub known_from : ℕ
  pub known_until : Option ℕ
  pub source_url : SourceUrl
  pub provider_effective_from : Option ℕ
  pub provider_effective_until : Option ℕ
  pub region : Option Region
  pub long_context_threshold : Option ℕ
  pub long_context_input_multiplier : ℕ
  pub long_context_output_multiplier : ℕ

abbrev pub luna6 : TokenRates
luna6 = record {
  provider = Provider.openai;
  model = Model.gpt_6_luna;
  price_card_id = PriceCard.openai_gpt_6_luna_2026_09;
  input = 100;
  cached_input = some 10;
  cache_write = some 125;
  output = 500;
  known_from = 20260928;
  known_until = none;
  source_url = SourceUrl.openai_gpt6_luna_source;
  provider_effective_from = none;
  provider_effective_until = none;
  region = none;
  long_context_threshold = some 272000;
  long_context_input_multiplier = 4;
  long_context_output_multiplier = 3;
}

abbrev pub luna5_6 : TokenRates
luna5_6 = record {
  provider = Provider.openai;
  model = Model.gpt_5_6_luna;
  price_card_id = PriceCard.openai_2026_09;
  input = 200;
  cached_input = some 20;
  cache_write = some 250;
  output = 1200;
  known_from = 20260927;
  known_until = none;
  source_url = SourceUrl.openai_luna_source;
  provider_effective_from = some 20260927;
  provider_effective_until = none;
  region = none;
  long_context_threshold = some 272000;
  long_context_input_multiplier = 4;
  long_context_output_multiplier = 3;
}

abbrev pub astra6 : TokenRates
astra6 = record {
  provider = Provider.openai;
  model = Model.gpt_6_astra;
  price_card_id = PriceCard.openai_2026_09;
  input = 10000;
  cached_input = some 1000;
  cache_write = some 12500;
  output = 50000;
  known_from = 20260927;
  known_until = none;
  source_url = SourceUrl.openai_astra_source;
  provider_effective_from = some 20260927;
  provider_effective_until = none;
  region = none;
  long_context_threshold = some 272000;
  long_context_input_multiplier = 4;
  long_context_output_multiplier = 3;
}

abbrev pub flash_2026 : TokenRates
flash_2026 = record {
  provider = Provider.google;
  model = Model.gemini_3_8_flash;
  price_card_id = PriceCard.google_gemini_2026_09;
  input = 750;
  cached_input = some 75;
  cache_write = none;
  output = 3750;
  known_from = 20260927;
  known_until = none;
  source_url = SourceUrl.google_source;
  provider_effective_from = some 20260924;
  provider_effective_until = some 20270101;
  region = none;
  long_context_threshold = none;
  long_context_input_multiplier = 2;
  long_context_output_multiplier = 2;
}

abbrev pub flash_2027 : TokenRates
flash_2027 = record {
  provider = Provider.google;
  model = Model.gemini_3_8_flash;
  price_card_id = PriceCard.google_gemini_2027_01;
  input = 1500;
  cached_input = some 150;
  cache_write = none;
  output = 7500;
  known_from = 20260927;
  known_until = none;
  source_url = SourceUrl.google_source;
  provider_effective_from = some 20270101;
  provider_effective_until = none;
  region = none;
  long_context_threshold = none;
  long_context_input_multiplier = 2;
  long_context_output_multiplier = 2;
}

abbrev pub nova : TokenRates
nova = record {
  provider = Provider.aws_bedrock;
  model = Model.nova_pro;
  price_card_id = PriceCard.aws_bedrock_us_east_1_2026_09;
  input = 800;
  cached_input = some 200;
  cache_write = some 0;
  output = 3200;
  known_from = 20260927;
  known_until = none;
  source_url = SourceUrl.aws_source;
  provider_effective_from = some 20260901;
  provider_effective_until = none;
  region = some Region.us_east_1;
  long_context_threshold = none;
  long_context_input_multiplier = 2;
  long_context_output_multiplier = 2;
}

unfoldable pub rates : List TokenRates
rates = luna6 ∷ luna5_6 ∷ astra6 ∷ flash_2026 ∷ flash_2027 ∷ nova ∷ []

-- `x if x is not None else y`.
abbrev pub fallback : Option ℕ → ℕ → ℕ
fallback none y = y
fallback (some x) y = x

abbrev pub fallback? : Option ℕ → Option ℕ → Option ℕ
fallback? none y = y
fallback? (some x) y = some x

abbrev pub ends_after : Option ℕ → ℕ → Bool
ends_after none as_of = true
ends_after (some until) as_of = ltb as_of until

abbrev pub in_region : Option Region → Region → Bool
in_region none region = true
in_region (some r) region = region_beq r region

unfoldable pub applies : TokenRates → ℕ → Region → Bool
applies r as_of region =
    leb (fallback r.provider_effective_from r.known_from) as_of
    && ends_after (fallback? r.provider_effective_until r.known_until) as_of
    && in_region r.region region

pub record ModelUsage : Type 0 where
  pub input_tokens : ℕ
  pub cached_input_tokens : ℕ
  pub cache_write_input_tokens : ℕ
  pub output_tokens : ℕ

pub record ModelCostEstimate : Type 0 where
  pub cost_nanodollars : ℕ
  pub price_card_id : PriceCard
  pub source_url : SourceUrl
  pub priced_on : ℕ

abbrev pub is_chosen : Provider → Model → ℕ → Region → TokenRates → Bool
is_chosen provider model as_of region r =
    provider_beq r.provider provider && model_beq r.model model && applies r as_of region

abbrev pub exceeds : Option ℕ → ℕ → Bool
exceeds none total = false
exceeds (some threshold) total = ltb threshold total

abbrev pub total_input_tokens : ModelUsage → ℕ
total_input_tokens u = u.input_tokens + u.cached_input_tokens + u.cache_write_input_tokens

-- The cost before rounding, in half nanodollars.
unfoldable pub half_nanodollars : TokenRates → ModelUsage → ℕ
half_nanodollars r u =
    let is_long = exceeds r.long_context_threshold (total_input_tokens u) in
    let input_multiplier = if is_long then r.long_context_input_multiplier else 2 in
    let output_multiplier = if is_long then r.long_context_output_multiplier else 2 in
    u.input_tokens * r.input * input_multiplier
    + u.cached_input_tokens * fallback r.cached_input 0 * input_multiplier
    + u.cache_write_input_tokens * fallback r.cache_write 0 * input_multiplier
    + u.output_tokens * r.output * output_multiplier

abbrev pub lacks_rate : Option ℕ → ℕ → Bool
lacks_rate none written = ltb 0 written
lacks_rate (some rate) written = false

-- The estimate at the rates that were found; `ROUND_HALF_UP` of a number of halves.
unfoldable pub price : ModelUsage → ℕ → Option TokenRates → Option ModelCostEstimate
unfolding half_nanodollars
price usage as_of none = none
price usage as_of (some r) =
    if lacks_rate r.cache_write usage.cache_write_input_tokens
    then none
    else some (record {
      cost_nanodollars = (half_nanodollars r usage + 1) / 2;
      price_card_id = r.price_card_id;
      source_url = r.source_url;
      priced_on = as_of;
    })

unfoldable pub estimate_model_cost :
    Provider → Model → ModelUsage → ℕ → Region → Option ModelCostEstimate
unfolding price rates applies
estimate_model_cost provider model usage as_of region =
    price usage as_of (first? (is_chosen provider model as_of region) rates)
