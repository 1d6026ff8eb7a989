-- ===== src/Config.antt =====
-- src/config/config.h and config.cpp: the configuration and how it is read. The JSON library is an
-- interface; each of its calls that can throw gives an `Option`, and since every exception and every
-- error end in `std::nullopt`, so does `none` here. Files are read outside of the model.
pub mod Ranges
mod Tests
use Prim.Native.String.{String}
use ips_with_ai.Prelude.{
  ◌>>=◌, ℕ, ◌+◌, ◌≡◌, Bool, true, false, ◌&&◌, ◌||◌, not, Option, none, some, List, [], ltb, ◌==◌,
  if◌then◌else◌, u16, u32,
}
use ips_with_ai.Json.{JsonLibrary, ℤ, pos, negsuc}

pub record AiConfig : Type 0 where
  pub enabled : Bool
  pub artifact_dir : String
  pub queue_capacity : ℕ
  pub startup_timeout_ms : ℕ
  pub response_timeout_ms : ℕ
  pub max_restarts : ℕ
  pub restart_reset_seconds : ℕ

pub record Config : Type 0 where
  pub queue_num : ℕ
  pub block_ttl_seconds : ℕ
  pub whitelist : List String
  pub window_seconds : ℕ
  pub distinct_port_threshold : ℕ
  pub syn_threshold : ℕ
  pub ai : AiConfig

-- The values of the default member initialisers.
abbrev pub default_config : Config
default_config = record {
  queue_num = 0;
  block_ttl_seconds = 600;
  whitelist = [];
  window_seconds = 10;
  distinct_port_threshold = 20;
  syn_threshold = 100;
  ai = record {
    enabled = true;
    artifact_dir = "ml/artifacts";
    queue_capacity = 1024;
    startup_timeout_ms = 10000;
    response_timeout_ms = 2000;
    max_restarts = 3;
    restart_reset_seconds = 60;
  };
}

abbrev pub max_distinct_port_count : ℕ
max_distinct_port_count = 65535 + 1

-- The ten whole numbers, as they are read.
pub record Numbers : Type 0 where
  pub queue_num : ℕ
  pub block_ttl_seconds : ℕ
  pub window_seconds : ℕ
  pub distinct_port_threshold : ℕ
  pub syn_threshold : ℕ
  pub ai_queue_capacity : ℕ
  pub ai_startup_timeout : ℕ
  pub ai_response_timeout : ℕ
  pub ai_max_restarts : ℕ
  pub ai_restart_reset : ℕ

-- The two tests that refuse a value.
unfoldable pub is_out_of_range : Numbers → Bool
is_out_of_range n =
    ltb 65535 n.queue_num
    || n.block_ttl_seconds == 0
    || ltb 2147483647 n.block_ttl_seconds
    || n.window_seconds == 0
    || ltb 2147483647 n.window_seconds
    || n.distinct_port_threshold == 0
    || ltb max_distinct_port_count n.distinct_port_threshold
    || n.syn_threshold == 0
    || ltb 4294967295 n.syn_threshold

unfoldable pub is_ai_out_of_range : Numbers → Bool
is_ai_out_of_range n =
    n.ai_queue_capacity == 0
    || ltb 65536 n.ai_queue_capacity
    || ltb n.ai_startup_timeout 1000
    || ltb 60000 n.ai_startup_timeout
    || ltb n.ai_response_timeout 100
    || ltb 60000 n.ai_response_timeout
    || ltb 10 n.ai_max_restarts
    || n.ai_restart_reset == 0
    || ltb 3600 n.ai_restart_reset

-- The assignments at the end; the casts to `int` and `size_t` keep what the ranges let through.
unfoldable pub fill : Numbers → List String → Bool → String → Config
fill n whitelist enabled artifact_dir = record {
  queue_num = u16 n.queue_num;
  block_ttl_seconds = n.block_ttl_seconds;
  whitelist = whitelist;
  window_seconds = n.window_seconds;
  distinct_port_threshold = n.distinct_port_threshold;
  syn_threshold = u32 n.syn_threshold;
  ai = record {
    enabled = enabled;
    artifact_dir = artifact_dir;
    queue_capacity = n.ai_queue_capacity;
    startup_timeout_ms = n.ai_startup_timeout;
    response_timeout_ms = n.ai_response_timeout;
    max_restarts = n.ai_max_restarts;
    restart_reset_seconds = n.ai_restart_reset;
  };
}

module _ {J : Type 0} (json : JsonLibrary J) where
  abbrev integer_of : J → Option ℕ
  integer_of value =
      if json.is_number_unsigned value
      then some (json.get_unsigned value)
      else if json.is_number_integer value
      then elim (json.get_signed value) [ pos n ↦ some n | negsuc n ↦ none ]
      else none

  unfoldable pub read_nonnegative_integer : J → String → ℕ → Option ℕ
  read_nonnegative_integer object key default_value =
      if not (json.is_object object)
      then none
      else if not (json.contains object key)
      then some default_value
      else (do value ← json.at object key; integer_of value)

  -- `contains(key) && !at(key).is_…()`.
  abbrev is_mistyped : (J → Bool) → J → String → Option Bool
  is_mistyped is_right object key =
      if json.contains object key
      then (do value ← json.at object key; some (not (is_right value)))
      else some false

  unfoldable pub is_ai_mistyped : J → Option Bool
  is_ai_mistyped ai = if not (json.is_object ai) then some true else (do
    enabled ← is_mistyped json.is_boolean ai "enabled"
    artifact_dir ← is_mistyped json.is_string ai "artifact_dir"
    some (enabled || artifact_dir))

  unfoldable pub read_numbers : J → J → J → J → J → Option Numbers
  read_numbers j rules port_scan syn_flood ai = do
    queue_num ← read_nonnegative_integer j "queue_num" 0
    block_ttl_seconds ← read_nonnegative_integer j "block_ttl_seconds" 600
    window_seconds ← read_nonnegative_integer rules "window_seconds" 10
    distinct_port_threshold ← read_nonnegative_integer port_scan "distinct_port_threshold" 20
    syn_threshold ← read_nonnegative_integer syn_flood "syn_threshold" 100
    ai_queue_capacity ← read_nonnegative_integer ai "queue_capacity" 1024
    ai_startup_timeout ← read_nonnegative_integer ai "startup_timeout_ms" 10000
    ai_response_timeout ← read_nonnegative_integer ai "response_timeout_ms" 2000
    ai_max_restarts ← read_nonnegative_integer ai "max_restarts" 3
    ai_restart_reset ← read_nonnegative_integer ai "restart_reset_seconds" 60
    some (record {
      queue_num = queue_num;
      block_ttl_seconds = block_ttl_seconds;
      window_seconds = window_seconds;
      distinct_port_threshold = distinct_port_threshold;
      syn_threshold = syn_threshold;
      ai_queue_capacity = ai_queue_capacity;
      ai_startup_timeout = ai_startup_timeout;
      ai_response_timeout = ai_response_timeout;
      ai_max_restarts = ai_max_restarts;
      ai_restart_reset = ai_restart_reset;
    })

  -- From the tests of the ranges on, with the whitelist that was read.
  unfoldable pub finish : J → List String → Numbers → Option Config
  finish ai whitelist n =
      if is_out_of_range n then none else if is_ai_out_of_range n then none else (do
        enabled ← json.value_bool ai "enabled" true
        artifact_dir ← json.value_string ai "artifact_dir" "ml/artifacts"
        if json.is_empty artifact_dir then none else some (fill n whitelist enabled artifact_dir))

  unfoldable pub parse_config : String → Option Config
  parse_config json_text = do
    j ← json.parse json_text
    rules ← json.value j "rules" json.object
    port_scan ← json.value rules "port_scan" json.object
    syn_flood ← json.value rules "syn_flood" json.object
    ai ← json.value j "ai" json.object
    mistyped ← is_ai_mistyped ai
    if mistyped then none else (do
      n ← read_numbers j rules port_scan syn_flood ai
      whitelist ← json.value_strings j "whitelist" []
      finish ai whitelist n)

  -- `none` is a file that cannot be opened, `some` its text.
  unfoldable pub load_config : Option String → Option Config
  load_config none = some default_config
  load_config (some text) = parse_config text
