-- ===== src/Config/Tests.antt =====
-- Runs of src/config/config.cpp with a small JSON library.
use ips_with_ai.Prelude.{ℕ, ◌≡◌, refl, some}
use ips_with_ai.Json.Small.{braces, small}
use ips_with_ai.Config.{
  default_config, read_nonnegative_integer, is_ai_mistyped, is_out_of_range, is_ai_out_of_range,
  fill, read_numbers, finish, parse_config, load_config,
}
use ips_with_ai.Config.Ranges.{InRange, load_config-InRange}

-- The empty object reads as the defaults.
accepted : parse_config small "{}" ≡ some default_config
unfolding parse_config is_ai_mistyped read_numbers read_nonnegative_integer finish is_out_of_range
    is_ai_out_of_range fill
accepted = refl

loaded : load_config small (some "{}") ≡ some default_config
unfolding load_config
loaded = accepted

abbrev five : ℕ
five = 5

missing_key : read_nonnegative_integer small braces "queue_num" five ≡ some five
unfolding read_nonnegative_integer
missing_key = refl

load_config-InRange_example : InRange default_config
load_config-InRange_example = load_config-InRange small (some "{}") default_config loaded
