-- ===== src/Pricing.antt =====
-- List-price estimates, src/nokinc_factory/application/model_pricing.py: the rate card and the
-- estimate (Rates), the choice of a row (Estimates), the context ceilings (Limits), and the
-- published prices (Prices).
pub mod Rates
pub mod Estimates
pub mod Limits
pub mod Prices
