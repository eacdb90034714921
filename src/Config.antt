-- ===== src/Config.antt =====
-- The configuration: _parse_runtime_config of agc_runtime/runtime_config.py, behind the YAML library.
pub mod Safe
use agent_global_context.Prelude.{
  ℕ, Bool, true, false, not, ◌&&◌, ◌==◌, String, Option, none, some, List, [], ◌∷◌, elem, leb, eqb,
  if◌then◌else◌,
}
use agent_global_context.Result.{Result, ok, err, value_error, raise_if, ◌>>=◌, ◌>>◌}
use agent_global_context.Value.{pos, Value, null, bool, int, str, list, Values, nil, cons, Fields}
use agent_global_context.Value.Strict.{strict_mapping, string, optional_string, string_list, index}

pub record RecallConfig : Type 0 where
  pub overview_token_budget : ℕ
  pub compact_card_token_budget : ℕ
  pub default_lifecycle : String

pub record RunnerConfig : Type 0 where
  pub concurrency : ℕ
  pub max_attempts : ℕ
  pub backoff_seconds : List ℕ

pub record CapsuleConfig : Type 0 where
  pub target_tokens : ℕ
  pub max_tokens : ℕ

pub record CaptureBudgetsConfig : Type 0 where
  pub backfill_window_days : ℕ
  pub backfill_total_tokens : ℕ
  pub incremental_total_tokens : Option ℕ

pub record ExtractorConfig : Type 0 where
  pub extractor_kind : String
  pub executable : String
  pub model : Option String

pub record ExcludeConfig : Type 0 where
  pub task_ids : List String
  pub project_ids : List String

-- `hook_enabled` is the one field of HookConfig.
pub record CaptureConfig : Type 0 where
  pub capture_schema_version : ℕ
  pub enabled : Bool
  pub capture_mode : String
  pub paused : Bool
  pub include_subagents : Bool
  pub sources : List String
  pub hook_enabled : Bool
  pub runner : RunnerConfig
  pub capsule : CapsuleConfig
  pub budgets : CaptureBudgetsConfig
  pub extractor : ExtractorConfig
  pub exclude : ExcludeConfig

pub record RuntimeConfig : Type 0 where
  pub config_version : ℕ
  pub sensitive_storage : String
  pub recall_config : RecallConfig
  pub capture : CaptureConfig

-- Paths of Python's library, and `source_root_id_for` behind `canonical_source_root` of
-- agc_runtime/capture_source.py. `lexical` is str(Path(source)) with the ASCII letters in lower case.
pub record Roots : Type 0 where
  pub is_absolute : String → Bool
  pub lexical : String → String
  pub physical : String → Result String

unfoldable pub positive_int : Value → String → Result ℕ
positive_int (int (pos n)) name =
    if leb 1 n then ok n else err (value_error "{} must be a positive integer" (name ∷ []))
positive_int _ name = err (value_error "{} must be a positive integer" (name ∷ []))

unfoldable pub boolean : Value → String → Result Bool
boolean (bool b) name = ok b
boolean _ name = err (value_error "{} must be a boolean" (name ∷ []))

positive_ints : Values → String → Result (List ℕ)
positive_ints nil name = ok []
positive_ints (cons v rest) name = do
  n ← positive_int v name
  ns ← positive_ints rest name
  ok (n ∷ ns)

unfoldable pub int_list : Value → String → Result (List ℕ)
unfolding positive_ints
int_list (list values) name = positive_ints values name
int_list _ name = err (value_error "{} must be a list of positive integers" (name ∷ []))

module _ (roots : Roots) where
  -- The sources that are left, and the identities seen.
  unfoldable pub check_shape : List String → List String → Result (Unit {0})
  check_shape [] seen = ok tt
  check_shape (source ∷ rest) seen = do
    raise_if (not (roots.is_absolute source))
        (value_error "capture.sources entries must be an absolute directory" [])
    raise_if (elem (roots.lexical source) seen)
        (value_error "capture.sources must not contain duplicate roots" [])
    check_shape rest (roots.lexical source ∷ seen)

  identity_of : Result String → Result String
  identity_of (ok identity) = ok identity
  identity_of (err (value_error m xs)) =
      err (value_error "capture.sources entries must be an existing absolute directory" [])
  identity_of (err e) = err e

  unfoldable pub check_physical : List String → List String → Result (Unit {0})
  unfolding identity_of
  check_physical [] seen = ok tt
  check_physical (source ∷ rest) seen = do
    identity ← identity_of (roots.physical source)
    raise_if (elem identity seen)
        (value_error "capture.sources must not contain duplicate physical roots" [])
    check_physical rest (identity ∷ seen)

  unfoldable pub source_roots : Value → Bool → Result (List String)
  source_roots value active = do
    sources ← string_list value "capture.sources"
    check_shape sources []
    if active then check_physical sources [] else ok tt
    ok sources

  optional_positive : Value → String → Result (Option ℕ)
  optional_positive null name = ok none
  optional_positive value name = do n ← positive_int value name; ok (some n)

  no_sources : List String → Bool
  no_sources [] = true
  no_sources (_ ∷ _) = false

  unfoldable pub runner_from : Fields → Result RunnerConfig
  runner_from runner = do
    concurrency ← positive_int (← index runner "concurrency") "capture.runner.concurrency"
    max_attempts ← positive_int (← index runner "max_attempts") "capture.runner.max_attempts"
    backoff_seconds ← int_list (← index runner "backoff_seconds") "capture.runner.backoff_seconds"
    ok (record {
      concurrency = concurrency;
      max_attempts = max_attempts;
      backoff_seconds = backoff_seconds;
    })

  unfoldable pub capsule_from : Fields → Result CapsuleConfig
  capsule_from capsule = do
    target_tokens ← positive_int (← index capsule "target_tokens") "capture.capsule.target_tokens"
    max_tokens ← positive_int (← index capsule "max_tokens") "capture.capsule.max_tokens"
    ok (record { target_tokens = target_tokens; max_tokens = max_tokens })

  unfoldable pub budgets_from : Fields → Option ℕ → Result CaptureBudgetsConfig
  budgets_from budgets incremental = do
    window ←
        positive_int (← index budgets "backfill_window_days") "capture.budgets.backfill_window_days"
    backfill ←
        positive_int (← index budgets "backfill_total_tokens")
          "capture.budgets.backfill_total_tokens"
    ok (record {
      backfill_window_days = window;
      backfill_total_tokens = backfill;
      incremental_total_tokens = incremental;
    })

  unfoldable pub extractor_from : Fields → Result ExtractorConfig
  extractor_from extractor = do
    kind ← string (← index extractor "kind") "capture.extractor.kind"
    executable ← string (← index extractor "executable") "capture.extractor.executable"
    model ← optional_string (← index extractor "model") "capture.extractor.model"
    ok (record { extractor_kind = kind; executable = executable; model = model })

  unfoldable pub exclude_from : Fields → Result ExcludeConfig
  exclude_from exclude = do
    task_ids ← string_list (← index exclude "task_ids") "capture.exclude.task_ids"
    project_ids ← string_list (← index exclude "project_ids") "capture.exclude.project_ids"
    ok (record { task_ids = task_ids; project_ids = project_ids })

  -- The part of `_parse_runtime_config` that reads the fields, once the mappings have the right keys.
  unfoldable pub config_from :
      Fields
      → Fields
      → Fields
      → Fields
      → Fields
      → Fields
      → Fields
      → Fields
      → Fields
      → Result RuntimeConfig
  unfolding optional_positive no_sources
  config_from root recall capture hook runner capsule budgets extractor exclude = do
    version ← positive_int (← index root "schema_version") "schema_version"
    raise_if (not (eqb version 3)) (value_error "schema_version must be 3" [])
    storage ← string (← index root "sensitive_storage") "sensitive_storage"
    raise_if (not (storage == "disabled")) (value_error "sensitive_storage must be disabled" [])
    lifecycle ← string (← index recall "default_lifecycle") "recall.default_lifecycle"
    raise_if (not (lifecycle == "active"))
        (value_error "recall.default_lifecycle must be active" [])
    capture_version ← positive_int (← index capture "schema_version") "capture.schema_version"
    raise_if (not (eqb capture_version 1)) (value_error "capture.schema_version must be 1" [])
    enabled ← boolean (← index capture "enabled") "capture.enabled"
    mode ← string (← index capture "mode") "capture.mode"
    raise_if (not (elem mode ("off" ∷ "scanner_only" ∷ "runner" ∷ [])))
        (value_error "capture.mode must be off, scanner_only, or runner" [])
    raise_if (not enabled && not (mode == "off"))
        (value_error "disabled capture.mode must be off" [])
    raise_if (enabled && not (elem mode ("scanner_only" ∷ "runner" ∷ [])))
        (value_error "enabled capture.mode must be scanner_only or runner" [])
    subagents ← boolean (← index capture "include_subagents") "capture.include_subagents"
    raise_if subagents
        (value_error "capture.include_subagents must be false for schema version 1" [])
    sources ← source_roots (← index capture "sources") enabled
    raise_if (enabled && no_sources sources)
        (value_error "enabled capture requires at least one capture.sources entry" [])
    hook_enabled ← boolean (← index hook "enabled") "capture.hook.enabled"
    raise_if (hook_enabled && not enabled)
        (value_error "capture.hook.enabled requires capture.enabled" [])
    incremental ←
        optional_positive (← index budgets "incremental_total_tokens")
          "capture.budgets.incremental_total_tokens"
    overview ← positive_int (← index recall "overview_token_budget") "recall.overview_token_budget"
    compact ←
        positive_int (← index recall "compact_card_token_budget") "recall.compact_card_token_budget"
    paused ← boolean (← index capture "paused") "capture.paused"
    runner' ← runner_from runner
    capsule' ← capsule_from capsule
    budgets' ← budgets_from budgets incremental
    extractor' ← extractor_from extractor
    exclude' ← exclude_from exclude
    ok (record {
      config_version = version;
      sensitive_storage = storage;
      recall_config = record {
        overview_token_budget = overview;
        compact_card_token_budget = compact;
        default_lifecycle = lifecycle;
      };
      capture = record {
        capture_schema_version = capture_version;
        enabled = enabled;
        capture_mode = mode;
        paused = paused;
        include_subagents = subagents;
        sources = sources;
        hook_enabled = hook_enabled;
        runner = runner';
        capsule = capsule';
        budgets = budgets';
        extractor = extractor';
        exclude = exclude';
      };
    })

  -- _parse_runtime_config
  unfoldable pub parse_runtime_config : Value → Result RuntimeConfig
  parse_runtime_config value = do
    root ←
        strict_mapping value "runtime config"
          ("schema_version" ∷ "sensitive_storage" ∷ "recall" ∷ "capture" ∷ [])
    recall ←
        strict_mapping (← index root "recall") "recall"
          ("overview_token_budget" ∷ "compact_card_token_budget" ∷ "default_lifecycle" ∷ [])
    capture ← strict_mapping (← index root "capture") "capture" (
        "schema_version" ∷ "enabled" ∷ "mode" ∷ "paused" ∷ "include_subagents" ∷ "sources" ∷ "hook"
        ∷ "runner" ∷ "capsule" ∷ "budgets" ∷ "extractor" ∷ "exclude" ∷ [])
    hook ← strict_mapping (← index capture "hook") "capture.hook" ("enabled" ∷ [])
    runner ←
        strict_mapping (← index capture "runner") "capture.runner"
          ("concurrency" ∷ "max_attempts" ∷ "backoff_seconds" ∷ [])
    capsule ←
        strict_mapping (← index capture "capsule") "capture.capsule"
          ("target_tokens" ∷ "max_tokens" ∷ [])
    budgets ←
        strict_mapping (← index capture "budgets") "capture.budgets"
          ("backfill_window_days" ∷ "backfill_total_tokens" ∷ "incremental_total_tokens" ∷ [])
    extractor ←
        strict_mapping (← index capture "extractor") "capture.extractor"
          ("kind" ∷ "executable" ∷ "model" ∷ [])
    exclude ←
        strict_mapping (← index capture "exclude") "capture.exclude"
          ("task_ids" ∷ "project_ids" ∷ [])
    config_from root recall capture hook runner capsule budgets extractor exclude
