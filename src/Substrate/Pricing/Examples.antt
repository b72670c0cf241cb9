-- ===== src/Substrate/Pricing/Examples.antt =====
-- One call to a model on the last day of its first rate.
use cite_delta_rag.Prelude.{◌≡◌, refl, true, some}
use cite_delta_rag.Substrate.Pricing.{TokenUsage, Rate, covers, price}

abbrev usage : TokenUsage
usage = record {
  input_tokens = 1_000;
  output_tokens = 33;
  cache_write_tokens = 7;
  cache_read_tokens = 511;
}

abbrev introductory : Rate
introductory = record {
  model = "claude-sonnet-5";
  input_per_mtok = 200;
  output_per_mtok = 1_000;
  effective_from = 739_617;
  effective_to = some 739_860;
}

in_force : covers introductory 739_859 ≡ true
unfolding covers
in_force = refl

priced : price usage "claude-sonnet-5" 739_859 ≡ some 2_450
unfolding price
priced = refl
