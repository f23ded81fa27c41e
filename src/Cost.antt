-- ===== src/Cost.antt =====
-- agent/cost.py. Prices are in cents for a million tokens, so amounts are exact, in
-- hundred-millionths of a dollar; the source has floats.
use llopster.Base.{
  ℕ, ◌+◌, ◌-◌, ◌*◌, Option, none, some, List, [], ◌∷◌, if◌then◌else◌, is_empty, Text, lit, strip,
  lower, contains,
}
use llopster.Alerts.{get}

pub record ModelPricing : Type 0 where
  pub input_per_mtok : ℕ
  pub output_per_mtok : ℕ
  pub cache_read_per_mtok : ℕ
  pub cache_write_per_mtok : ℕ

abbrev pub opus : ModelPricing
opus = record {
  input_per_mtok = 1500;
  output_per_mtok = 7500;
  cache_read_per_mtok = 150;
  cache_write_per_mtok = 1875;
}

abbrev pub sonnet : ModelPricing
sonnet = record {
  input_per_mtok = 300;
  output_per_mtok = 1500;
  cache_read_per_mtok = 30;
  cache_write_per_mtok = 375;
}

abbrev pub haiku : ModelPricing
haiku = record {
  input_per_mtok = 100;
  output_per_mtok = 500;
  cache_read_per_mtok = 10;
  cache_write_per_mtok = 125;
}

abbrev pub pricing : List (Text × ModelPricing)
pricing =
    (lit "claude-opus-4-7", opus)
    ∷ (lit "claude-sonnet-4-6", sonnet)
    ∷ (lit "claude-haiku-4-5", haiku)
    ∷ []

-- The scan for a canonical name inside the key.
pricing_inside : Text → List (Text × ModelPricing) → ModelPricing
pricing_inside key [] = opus
pricing_inside key ((canonical, price) ∷ rest) =
    if contains key canonical then price else pricing_inside key rest

abbrev pricing_of_key : Text → ModelPricing
pricing_of_key key = elim (get key pricing) [
  | some price ↦ price
  | none ↦ pricing_inside key pricing
]

unfoldable pub pricing_for : Option Text → ModelPricing
unfolding pricing_inside get
pricing_for none = opus
pricing_for (some model) = if is_empty model then opus else pricing_of_key (lower (strip model))

-- A missing count is 0.
unfoldable pub compute_cost_usd :
    (input_tokens output_tokens cache_read_tokens cache_creation_tokens : ℕ) → Option Text → ℕ
unfolding pricing_for
compute_cost_usd input_tokens output_tokens cache_read_tokens cache_creation_tokens model =
    let p = pricing_for model in
    input_tokens * p.input_per_mtok
    + output_tokens * p.output_per_mtok
    + cache_read_tokens * p.cache_read_per_mtok
    + cache_creation_tokens * p.cache_write_per_mtok

unfoldable pub cache_savings_usd : ℕ → Option Text → ℕ
unfolding pricing_for
cache_savings_usd cache_read_tokens model =
    let p = pricing_for model in cache_read_tokens * (p.input_per_mtok - p.cache_read_per_mtok)
