-- ===== src/Write.antt =====
-- The write service: agc_runtime/write_service.py. Its state is the formal memory, the candidates and
-- the catalog. The reviews of captured observations are kept by another component, which it calls.
pub mod Candidates
pub mod Handlers
pub mod Observe
pub mod Dispatch
pub mod Service
pub mod Errors
pub mod Guards
pub mod Batch
pub mod Evidence
pub mod Refresh
use agent_global_context.Prelude.{
  ℕ, Bool, true, false, String, Option, none, some, List, [], ◌∷◌, ◌++◌, if◌then◌else◌,
}
use agent_global_context.Result.{Error, Result, ok, err}
use agent_global_context.Effects.{M, pure, gets, fetch, within, modify, ◌>>=◌, ◌>>◌}
use agent_global_context.Files.{Files}
use agent_global_context.Models.{Status, failed, SourceKey}
use agent_global_context.Value.{Value, Values, str, Fields, field}
use agent_global_context.Store.Disk.{Disk}
use agent_global_context.Store.Methods.{Platform, Call}
use agent_global_context.Catalog.{Catalog, build_catalog, render_catalog_markdown}

pub record CandidateSource : Type 0 where
  pub ref : String
  pub revision : String
  pub content_hash : String
  pub observed_at : String

-- One file of candidates/ordinary, named by the digest of its id. `schema_version` has one value.
pub record Candidate : Type 0 where
  pub candidate_id : String
  pub candidate_status : Value
  pub kind : String
  pub scopes : List String
  pub temporal_type : String
  pub sensitivity : String
  pub rationale : String
  pub sources : List CandidateSource

-- `catalog` is catalog.json, `catalog_text` its markdown.
pub record World : Type 0 where
  pub store : Disk
  pub candidates : Files String Candidate
  pub catalog : Option Catalog
  pub catalog_text : Option String

unfoldable pub on_store : {A : Type 0} → M Disk A → M World A
on_store = within (λ w. w.store) (λ d w. record w { store = d })

-- The texts that an error response carries: a fixed text, or the message of an exception.
pub data Message : Type 0 where
  text : String → Message
  message_of : Error → Message

pub record Failure : Type 0 where
  pub code : String
  pub message : Message

-- contracts.ToolResponse; `payload` is its `data`
pub record ToolResponse : Type 0 where
  pub tool : String
  pub action : String
  pub status : Status
  pub payload : Fields
  pub warnings : List String
  pub error : Option Failure

-- `CaptureStore(paths).validate_review_batch` and `record_reviews`: the ids, the outcome and the target.
pub record CaptureReviews : Type 0 where
  pub validate_batch : List String → String → String → M World Unit
  pub record_reviews : List String → String → Option String → M World ℕ

-- What the service asks of Python's library and of its surroundings. `day` is the number of the day of
-- an ISO time, `pairs` what `dict` makes of a list, `describe` the message of an
-- exception, `metrics` whether AGC_METRICS_EVIDENCE_DIR is set.
pub record Surroundings : Type 0 where
  pub platform : Platform
  pub reviews : CaptureReviews
  pub day : String → Result ℕ
  pub pairs : Values → Result Fields
  pub casefold : String → String
  pub decimal : ℕ → String
  pub rstrip : String → String
  pub describe : Error → String
  pub metrics : Bool

unfoldable pub response : String → Status → String → Fields → ToolResponse
response action status code extra = record {
  tool = "agc.write";
  action = action;
  status = status;
  payload = field "code" (str code) extra;
  warnings = [];
  error = none;
}

unfoldable pub failure : String → String → Message → ToolResponse
failure action code message = record {
  tool = "agc.write";
  action = action;
  status = failed;
  payload = Fields.end;
  warnings = [];
  error = some (record { code = code; message = message });
}

module _ (env : Surroundings) where
  -- catalog.rebuild_catalog
  unfoldable pub rebuild_catalog : M World Catalog
  rebuild_catalog = do
    catalog ← on_store (build_catalog env.platform)
    modify (λ w. record w { catalog = some catalog })
    modify (λ w. record w {
      catalog_text = some (render_catalog_markdown env.decimal env.rstrip catalog);
    })
    pure catalog

  unfoldable pub catalog_in : Option Catalog → M World Catalog
  catalog_in none = rebuild_catalog
  catalog_in (some catalog) = do _ ← fetch (λ w. w.catalog); pure catalog

  -- catalog.load_catalog, where catalog.json is typed
  unfoldable pub load_catalog : M World Catalog
  unfolding catalog_in
  load_catalog = do found ← gets (λ w. w.catalog); catalog_in found
