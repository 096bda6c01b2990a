-- ===== src/Pricing/Estimates.antt =====
-- The choice of a row from the rate card of application/model_pricing.py.
use nokinc_factory.Prelude.{ℕ, ◌≤◌, length, keep, nat_eq, arith}
use nokinc_factory.Pricing.Rates.{Provider, Model, Region, rates, applies, is_chosen}

-- For any provider, model, date and region at most one row of the rate card is chosen.
pub rates_chosen_once :
    (provider : Provider) (model : Model) (as_of : ℕ) (region : Region)
    → length (keep (is_chosen provider model as_of region) rates) ≤ 1
unfolding rates applies
rates_chosen_once provider model as_of region = ground arith
