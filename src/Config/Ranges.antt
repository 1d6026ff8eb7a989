-- ===== src/Config/Ranges.antt =====
-- src/config/config.cpp: which configurations are accepted, and where their values come from.
use Prim.Native.String.{String}
use ips_with_ai.Prelude.{
  ◌>>=◌, bind-some, guard-some, subst, [], ℕ, ◌≤◌, ◌<◌, ◌≡◌, refl, Bool, true, false, not, Option,
  none, some, List, arith, Bool-cases, inl, inr, ◌⊎◌, u16, u32,
}
use ips_with_ai.Json.{JsonLibrary, ℤ, pos, negsuc}
use ips_with_ai.Config.{
  Config, default_config, Numbers, is_out_of_range, is_ai_out_of_range, fill,
  read_nonnegative_integer, integer_of, is_ai_mistyped, read_numbers, finish, parse_config,
  load_config,
}

-- The ranges that the rest of the program relies on.
pub record InRange (cfg : Config) : Type 0 where
  pub queue_num : cfg.queue_num ≤ 65535
  pub block_ttl_seconds : (0 < cfg.block_ttl_seconds) × (cfg.block_ttl_seconds ≤ 2147483647)
  pub window_seconds : (0 < cfg.window_seconds) × (cfg.window_seconds ≤ 2147483647)
  pub distinct_port_threshold :
      (0 < cfg.distinct_port_threshold) × (cfg.distinct_port_threshold ≤ 65536)
  pub syn_threshold : (0 < cfg.syn_threshold) × (cfg.syn_threshold ≤ 4294967295)
  pub queue_capacity : (0 < cfg.ai.queue_capacity) × (cfg.ai.queue_capacity ≤ 65536)
  pub startup_timeout_ms : (1000 ≤ cfg.ai.startup_timeout_ms) × (cfg.ai.startup_timeout_ms ≤ 60000)
  pub response_timeout_ms :
      (100 ≤ cfg.ai.response_timeout_ms) × (cfg.ai.response_timeout_ms ≤ 60000)
  pub max_restarts : cfg.ai.max_restarts ≤ 10
  pub restart_reset_seconds :
      (0 < cfg.ai.restart_reset_seconds) × (cfg.ai.restart_reset_seconds ≤ 3600)

fill-InRange :
    (n : Numbers) (w : List String) (e : Bool) (d : String)
    → is_out_of_range n ≡ false
    → is_ai_out_of_range n ≡ false
    → InRange (fill n w e d)
unfolding fill is_out_of_range is_ai_out_of_range
fill-InRange n w e d h k = record {
  queue_num = ground arith;
  block_ttl_seconds = ground arith;
  window_seconds = ground arith;
  distinct_port_threshold = ground arith;
  syn_threshold = ground arith;
  queue_capacity = ground arith;
  startup_timeout_ms = ground arith;
  response_timeout_ms = ground arith;
  max_restarts = ground arith;
  restart_reset_seconds = ground arith;
}

default_config-InRange : InRange default_config
default_config-InRange = record {
  queue_num = omega arith;
  block_ttl_seconds = ground arith;
  window_seconds = ground arith;
  distinct_port_threshold = ground arith;
  syn_threshold = ground arith;
  queue_capacity = ground arith;
  startup_timeout_ms = ground arith;
  response_timeout_ms = ground arith;
  max_restarts = omega arith;
  restart_reset_seconds = ground arith;
}

-- The whole numbers of a configuration, as they were read.
abbrev pub numbers_of : Config → Numbers
numbers_of cfg = record {
  queue_num = cfg.queue_num;
  block_ttl_seconds = cfg.block_ttl_seconds;
  window_seconds = cfg.window_seconds;
  distinct_port_threshold = cfg.distinct_port_threshold;
  syn_threshold = cfg.syn_threshold;
  ai_queue_capacity = cfg.ai.queue_capacity;
  ai_startup_timeout = cfg.ai.startup_timeout_ms;
  ai_response_timeout = cfg.ai.response_timeout_ms;
  ai_max_restarts = cfg.ai.max_restarts;
  ai_restart_reset = cfg.ai.restart_reset_seconds;
}

-- No cast narrows a number that passed the tests.
fill-numbers :
    (n : Numbers) (w : List String) (e : Bool) (d : String)
    → is_out_of_range n ≡ false
    → numbers_of (fill n w e d) ≡ n
unfolding fill is_out_of_range
fill-numbers n w e d h =
    let q : u16 n.queue_num ≡ n.queue_num = ground arith in
    let s : u32 n.syn_threshold ≡ n.syn_threshold = ground arith in rw (q, s) refl

ℤ-cases : (z : ℤ) → ((n : ℕ) × (z ≡ pos n)) ⊎ ((n : ℕ) × (z ≡ negsuc n))
ℤ-cases (pos n) = inl (n, refl)
ℤ-cases (negsuc n) = inr (n, refl)

module _ {J : Type 0} (json : JsonLibrary J) where
  finish-some :
      (ai : J) (w : List String) (n : Numbers) (cfg : Config)
      → finish json ai w n ≡ some cfg
      → (is_out_of_range n ≡ false)
        × (is_ai_out_of_range n ≡ false)
        × (e : Bool) × (d : String) × (cfg ≡ fill n w e d)
        × (json.is_empty d ≡ false)
  unfolding finish
  finish-some ai w n cfg h =
      let (out, h1) = guard-some (is_out_of_range n) h in
      let (ai_out, h2) = guard-some (is_ai_out_of_range n) h1 in
      let (e, _, h3) = bind-some (json.value_bool ai "enabled" true) h2 in
      let (d, _, h4) = bind-some (json.value_string ai "artifact_dir" "ml/artifacts") h3 in
      let (full, h5) = guard-some (json.is_empty d) h4 in (out, ai_out, e, d, cc, full)

  -- A text that is accepted: what was read of it, and what it came to.
  record Accepted (text : String) (cfg : Config) : Type 0 where
    j : J
    rules : J
    port_scan : J
    syn_flood : J
    ai : J
    whitelist : List String
    numbers : Numbers
    parsed : json.parse text ≡ some j
    rules_of : json.value j "rules" json.object ≡ some rules
    port_scan_of : json.value rules "port_scan" json.object ≡ some port_scan
    syn_flood_of : json.value rules "syn_flood" json.object ≡ some syn_flood
    ai_of : json.value j "ai" json.object ≡ some ai
    numbers_read : read_numbers json j rules port_scan syn_flood ai ≡ some numbers
    finished : finish json ai whitelist numbers ≡ some cfg

  parse_config-Accepted :
      (text : String) (cfg : Config) → parse_config json text ≡ some cfg → Accepted text cfg
  unfolding parse_config
  parse_config-Accepted text cfg h =
      let (j, p, h1) = bind-some (json.parse text) h in
      let (rules, r, h2) = bind-some (json.value j "rules" json.object) h1 in
      let (scan, s, h3) = bind-some (json.value rules "port_scan" json.object) h2 in
      let (flood, f, h4) = bind-some (json.value rules "syn_flood" json.object) h3 in
      let (ai, i, h5) = bind-some (json.value j "ai" json.object) h4 in
      let (mistyped, _, h6) = bind-some (is_ai_mistyped json ai) h5 in
      let (_, h7) = guard-some mistyped h6 in
      let (n, m, h8) = bind-some (read_numbers json j rules scan flood ai) h7 in
      let (w, _, h9) = bind-some (json.value_strings j "whitelist" []) h8 in
      record {
        j = j;
        rules = rules;
        port_scan = scan;
        syn_flood = flood;
        ai = ai;
        whitelist = w;
        numbers = n;
        parsed = p;
        rules_of = r;
        port_scan_of = s;
        syn_flood_of = f;
        ai_of = i;
        numbers_read = m;
        finished = h9;
      }

  -- An accepted configuration is in its ranges, whether it is read from a file or is the default where
  -- there is no file.
  pub load_config-InRange :
      (file : Option String) (cfg : Config) → load_config json file ≡ some cfg → InRange cfg
  unfolding load_config parse_config
  load_config-InRange none cfg h =
      let e : default_config ≡ cfg = cc in subst InRange e default_config-InRange
  load_config-InRange (some text) cfg h =
      let a = parse_config-Accepted text cfg h in
      let (out, ai_out, e, d, made, _) = finish-some a.ai a.whitelist a.numbers cfg a.finished in
      rw made (fill-InRange a.numbers a.whitelist e d out ai_out)

  -- The ten numbers of an accepted text are those that `read_nonnegative_integer` reads in its objects,
  -- where a key that is missing gives the default: no cast changes one of them.
  pub parse_config-reads :
      (text : String) (cfg : Config)
      → parse_config json text ≡ some cfg
      → (j : J) × (rules : J) × (port_scan : J) × (syn_flood : J) × (ai : J) × (json.parse text
          ≡ some j)
        × (json.value j "rules" json.object ≡ some rules)
        × (json.value rules "port_scan" json.object ≡ some port_scan)
        × (json.value rules "syn_flood" json.object ≡ some syn_flood)
        × (json.value j "ai" json.object ≡ some ai)
        × (read_numbers json j rules port_scan syn_flood ai ≡ some (numbers_of cfg))
  parse_config-reads text cfg h =
      let a = parse_config-Accepted text cfg h in
      let (out, _, e, d, made, _) = finish-some a.ai a.whitelist a.numbers cfg a.finished in
      let same : numbers_of cfg ≡ a.numbers =
        rw made (fill-numbers a.numbers a.whitelist e d out) in
      (
        a.j,
        a.rules,
        a.port_scan,
        a.syn_flood,
        a.ai,
        a.parsed,
        a.rules_of,
        a.port_scan_of,
        a.syn_flood_of,
        a.ai_of,
        rw same a.numbers_read,
      )

  integer_of-some :
      (v : J) (n : ℕ)
      → integer_of json v ≡ some n
      → ((json.is_number_unsigned v ≡ true) × (n ≡ json.get_unsigned v))
        ⊎ ((json.is_number_integer v ≡ true) × (json.get_signed v ≡ pos n))
  integer_of-some v n h = elim (Bool-cases (json.is_number_unsigned v)) [
    | inl e ↦ inl (e, ground arith)
    | inr e ↦ elim (ℤ-cases (json.get_signed v)) [
      | inl (k, s) ↦ inr (ground arith, ground arith)
      | inr (k, s) ↦ ground arith
    ]
  ]

  -- Whatever stands under a key of an object, a number is read only from an object, and it is the
  -- default where the key is missing; a negative number or another kind of value is refused.
  pub read_nonnegative_integer-some :
      (object : J) (key : String) (default_value n : ℕ)
      → read_nonnegative_integer json object key default_value ≡ some n
      → (json.is_object object ≡ true)
        × (((json.contains object key ≡ false) × (n ≡ default_value))
            ⊎ ((v : J) × (json.at object key ≡ some v)
                × (((json.is_number_unsigned v ≡ true) × (n ≡ json.get_unsigned v))
                    ⊎ ((json.is_number_integer v ≡ true) × (json.get_signed v ≡ pos n)))))
  unfolding read_nonnegative_integer
  read_nonnegative_integer-some object key default_value n h =
      let (is, h1) = guard-some (not (json.is_object object)) h in
      let o : json.is_object object ≡ true = ground arith in
      elim (Bool-cases (json.contains object key)) [
        | inr absent ↦ (o, inl (absent, ground arith))
        | inl present ↦
            let h2 : (json.at object key >>= integer_of json) ≡ some n = ground arith in
            let (v, at, h3) = bind-some (json.at object key) h2 in
            (o, inr (v, at, integer_of-some v n h3))
      ]
