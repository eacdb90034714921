-- ===== src/Tests/Configs.antt =====
-- A configuration with Capture disabled.
use agent_global_context.Prelude.{◌≡◌, refl, true, false, none, [], ◌∷◌}
use agent_global_context.Result.{ok, raise_if, ◌>>=◌}
use agent_global_context.Value.{Value, pos, null, bool, int, str, list, dict, nil, cons, fields_of}
use agent_global_context.Value.Strict.{
  strict_mapping, difference, raise_least, string, optional_string, string_list, index,
}
use agent_global_context.Config.{
  Roots, RuntimeConfig, positive_int, boolean, int_list, check_shape, source_roots, runner_from,
  capsule_from, budgets_from, extractor_from, exclude_from, config_from, parse_runtime_config,
}
use agent_global_context.Config.Safe.{IsSafe, parse_runtime_config-IsSafe}

abbrev roots : Roots
roots = record { is_absolute = λ s. true; lexical = λ s. s; physical = λ s. ok s }

abbrev written : Value
written = dict (
    fields_of (
      ("schema_version", int (pos 3))
      ∷ ("sensitive_storage", str "disabled")
      ∷ (
        "recall",
        dict (
            fields_of (
              ("overview_token_budget", int (pos 500))
              ∷ ("compact_card_token_budget", int (pos 50))
              ∷ ("default_lifecycle", str "active")
              ∷ [])),
      )
      ∷ (
        "capture",
        dict (
            fields_of (
              ("schema_version", int (pos 1))
              ∷ ("enabled", bool false)
              ∷ ("mode", str "off")
              ∷ ("paused", bool false)
              ∷ ("include_subagents", bool false)
              ∷ ("sources", list nil)
              ∷ ("hook", dict (fields_of (("enabled", bool false) ∷ [])))
              ∷ (
                "runner",
                dict (
                    fields_of (
                      ("concurrency", int (pos 1))
                      ∷ ("max_attempts", int (pos 3))
                      ∷ ("backoff_seconds", list (cons (int (pos 60)) nil))
                      ∷ [])),
              )
              ∷ (
                "capsule",
                dict (
                    fields_of
                      (("target_tokens", int (pos 1000)) ∷ ("max_tokens", int (pos 2000)) ∷ [])),
              )
              ∷ (
                "budgets",
                dict (
                    fields_of (
                      ("backfill_window_days", int (pos 30))
                      ∷ ("backfill_total_tokens", int (pos 1000))
                      ∷ ("incremental_total_tokens", null)
                      ∷ [])),
              )
              ∷ (
                "extractor",
                dict (
                    fields_of
                      (("kind", str "codex") ∷ ("executable", str "codex") ∷ ("model", null) ∷ [])),
              )
              ∷ (
                "exclude",
                dict (fields_of (("task_ids", list nil) ∷ ("project_ids", list nil) ∷ [])),
              )
              ∷ [])),
      )
      ∷ []))

abbrev read_config : RuntimeConfig
read_config = record {
  config_version = 3;
  sensitive_storage = "disabled";
  recall_config = record {
    overview_token_budget = 500;
    compact_card_token_budget = 50;
    default_lifecycle = "active";
  };
  capture = record {
    capture_schema_version = 1;
    enabled = false;
    capture_mode = "off";
    paused = false;
    include_subagents = false;
    sources = [];
    hook_enabled = false;
    runner = record { concurrency = 1; max_attempts = 3; backoff_seconds = 60 ∷ [] };
    capsule = record { target_tokens = 1000; max_tokens = 2000 };
    budgets = record {
      backfill_window_days = 30;
      backfill_total_tokens = 1000;
      incremental_total_tokens = none;
    };
    extractor = record { extractor_kind = "codex"; executable = "codex"; model = none };
    exclude = record { task_ids = []; project_ids = [] };
  };
}

parsed : parse_runtime_config roots written ≡ ok read_config
unfolding parse_runtime_config config_from strict_mapping difference raise_least string
    optional_string string_list index positive_int boolean int_list check_shape source_roots
    runner_from capsule_from budgets_from extractor_from exclude_from raise_if ◌>>=◌
parsed = refl

parse_runtime_config-IsSafe_example : IsSafe roots read_config
parse_runtime_config-IsSafe_example = parse_runtime_config-IsSafe roots written read_config parsed
