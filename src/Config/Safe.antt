-- ===== src/Config/Safe.antt =====
-- What a configuration that is accepted may ask for.
use mathlib.Core.Bool.{false≢true}
use agent_global_context.Prelude.{
  ◌≡◌, sym, subst, Bool, true, false, not, ◌&&◌, ◌==◌, eq_iff, String, List, [], ◌∷◌, elem, arith,
  ◌≢◌,
}
use agent_global_context.Result.{ok, raise_if-false, Ensures, Ensures-ok, Ensures-bind}
use agent_global_context.Value.{Value, Fields}
use agent_global_context.Config.{
  RuntimeConfig, Roots, no_sources, config_from, parse_runtime_config,
}

-- Capture that is not enabled is off, with no hook; capture that is enabled has a mode and a source;
-- nothing sensitive is stored.
pub record IsSafe (roots : Roots) (c : RuntimeConfig) : Type 0 where
  pub storage : c.sensitive_storage ≡ "disabled"
  pub lifecycle : c.recall_config.default_lifecycle ≡ "active"
  pub subagents : c.capture.include_subagents ≡ false
  pub off :
      c.capture.enabled ≡ false
      → (c.capture.capture_mode ≡ "off") × (c.capture.hook_enabled ≡ false)
  pub on : c.capture.enabled ≡ true → (c.capture.capture_mode ≢ "off") × (c.capture.sources ≢ [])

equal_of_not : (s t : String) → not (s == t) ≡ false → s ≡ t
equal_of_not s t h = ground (arith, eq_iff s t)

off_of :
    (enabled hook : Bool) (mode : String)
    → (not enabled && not (mode == "off")) ≡ false
    → (hook && not enabled) ≡ false
    → enabled ≡ false
    → (mode ≡ "off") × (hook ≡ false)
off_of enabled hook mode h k e = ground (arith, eq_iff mode "off")

on_of :
    (roots : Roots) (enabled : Bool) (mode : String) (sources : List String)
    → (enabled && not (elem mode ("scanner_only" ∷ "runner" ∷ []))) ≡ false
    → (enabled && no_sources roots sources) ≡ false
    → enabled ≡ true
    → (mode ≢ "off") × (sources ≢ [])
unfolding no_sources
on_of roots enabled mode sources h k e =
    let wanted : not (elem mode ("scanner_only" ∷ "runner" ∷ [])) ≡ false = rw e at h in
    let given : no_sources roots sources ≡ false = rw e at k in
    (
      λ o.
          false≢true
            (sym (subst (λ m. not (elem m ("scanner_only" ∷ "runner" ∷ [])) ≡ false) o wanted)),
      λ o. false≢true (sym (subst (λ ss. no_sources roots ss ≡ false) o given)),
    )

config_from-Ensures :
    (roots : Roots) (root recall capture hook runner capsule budgets extractor exclude : Fields)
    → Ensures
        (IsSafe roots)
        (config_from roots root recall capture hook runner capsule budgets extractor exclude)
unfolding config_from
config_from-Ensures roots root recall capture hook runner capsule budgets extractor exclude =
    Ensures-bind _ _ λ _ _. Ensures-bind _ _ λ version _. Ensures-bind _ _ λ _ _.
      Ensures-bind _ _ λ _ _. Ensures-bind _ _ λ storage _. Ensures-bind _ _ λ _ stored.
        Ensures-bind _ _ λ _ _. Ensures-bind _ _ λ lifecycle _. Ensures-bind _ _ λ _ living.
          Ensures-bind _ _ λ _ _. Ensures-bind _ _ λ capture_version _. Ensures-bind _ _ λ _ _.
            Ensures-bind _ _ λ _ _. Ensures-bind _ _ λ enabled _. Ensures-bind _ _ λ _ _.
              Ensures-bind _ _ λ mode _. Ensures-bind _ _ λ _ _. Ensures-bind _ _ λ _ disabled.
                Ensures-bind _ _ λ _ running. Ensures-bind _ _ λ _ _.
                  Ensures-bind _ _ λ subagents _. Ensures-bind _ _ λ _ alone.
                    Ensures-bind _ _ λ _ _. Ensures-bind _ _ λ sources _.
                      Ensures-bind _ _ λ _ sourced. Ensures-bind _ _ λ _ _.
                        Ensures-bind _ _ λ hook_enabled _. Ensures-bind _ _ λ _ hooked.
                          Ensures-bind _ _ λ _ _. Ensures-bind _ _ λ incremental _.
                            Ensures-bind _ _ λ _ _. Ensures-bind _ _ λ overview _.
                              Ensures-bind _ _ λ _ _. Ensures-bind _ _ λ compact _.
                                Ensures-bind _ _ λ _ _. Ensures-bind _ _ λ paused _.
                                  Ensures-bind _ _ λ runner' _. Ensures-bind _ _ λ capsule' _.
                                    Ensures-bind _ _ λ budgets' _. Ensures-bind _ _ λ extractor' _.
                                      Ensures-bind _ _ λ exclude' _. Ensures-ok _ (record {
                                        storage =
                                            equal_of_not storage "disabled"
                                              (raise_if-false _ _ _ stored);
                                        lifecycle =
                                            equal_of_not lifecycle "active"
                                              (raise_if-false _ _ _ living);
                                        subagents = raise_if-false _ _ _ alone;
                                        off =
                                            off_of enabled hook_enabled mode
                                              (raise_if-false _ _ _ disabled)
                                              (raise_if-false _ _ _ hooked);
                                        on =
                                            on_of roots enabled mode sources
                                              (raise_if-false _ _ _ running)
                                              (raise_if-false _ _ _ sourced);
                                      })

parse_runtime_config-Ensures :
    (roots : Roots) (v : Value) → Ensures (IsSafe roots) (parse_runtime_config roots v)
unfolding parse_runtime_config
parse_runtime_config-Ensures roots v = Ensures-bind _ _ λ root _. Ensures-bind _ _ λ _ _.
    Ensures-bind _ _ λ recall _. Ensures-bind _ _ λ _ _. Ensures-bind _ _ λ capture _.
      Ensures-bind _ _ λ _ _. Ensures-bind _ _ λ hook _. Ensures-bind _ _ λ _ _.
        Ensures-bind _ _ λ runner _. Ensures-bind _ _ λ _ _. Ensures-bind _ _ λ capsule _.
          Ensures-bind _ _ λ _ _. Ensures-bind _ _ λ budgets _. Ensures-bind _ _ λ _ _.
            Ensures-bind _ _ λ extractor _. Ensures-bind _ _ λ _ _. Ensures-bind _ _ λ exclude _.
              config_from-Ensures roots root recall capture hook runner capsule budgets extractor
                exclude

-- A configuration that is accepted stores nothing sensitive, reads no subagents, and is consistent on
-- Capture: disabled, it is off and has no hook; enabled, it has a mode and at least one source.
pub parse_runtime_config-IsSafe :
    (roots : Roots) (v : Value) (c : RuntimeConfig)
    → parse_runtime_config roots v ≡ ok c
    → IsSafe roots c
parse_runtime_config-IsSafe roots v = (parse_runtime_config-Ensures roots v).at
