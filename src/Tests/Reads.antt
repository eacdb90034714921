-- ===== src/Tests/Reads.antt =====
-- Requests to the read service.
use agent_global_context.Prelude.{◌≡◌, false, refl, []}
use agent_global_context.Result.{
  is_a, lookup_class, value_class, type_class, os_class, runtime_error,
}
use agent_global_context.Effects.{raised, pure, raise, on_error, ◌>>=◌}
use agent_global_context.Effects.Keeps.{Keeps-pure, Keeps-raise}
use agent_global_context.Value.{Value, str, dict, field, end}
use agent_global_context.Read.{busy, Reading}
use agent_global_context.Read.Service.{
  read_handlers, handle_capture, failure_of, answer_with, read_failed_with, dispatch_among,
  dispatch_read_request, dispatch_read,
}
use agent_global_context.Read.Unchanged.{ReadsOnly, dispatch_read-unchanged}
use agent_global_context.Read.Errors.{dispatch_read-raises}
use agent_global_context.Tests.Memories.{one_memory}
use agent_global_context.Tests.Writes.{env, running}

-- The captured observations are busy, and their overview is broken.
abbrev reading : Reading
reading = record {
  capture_overview = raise (runtime_error "capture store is broken" []);
  capture_search = λ request. pure busy;
  capture_get = λ request. pure busy;
  capture_review_status = pure busy;
  overview_token_budget = pure 1000;
  response_length = λ response. 100;
}

reading-ReadsOnly : ReadsOnly reading
reading-ReadsOnly = record {
  overviewing = λ d cs. Keeps-raise _;
  searching = λ d cs request. Keeps-pure _;
  getting = λ d cs request. Keeps-pure _;
  reviewing = λ d cs. Keeps-pure _;
  configuring = λ d cs. Keeps-pure _;
}

abbrev overview_request : Value
overview_request = dict (field "action" (str "overview") end)

dispatch_read-unchanged_example :
    ((dispatch_read env reading overview_request running).1.disk.store ≡ one_memory)
    × ((dispatch_read env reading overview_request running).1.disk.candidates ≡ [])
dispatch_read-unchanged_example =
    dispatch_read-unchanged env reading overview_request running reading-ReadsOnly

abbrev capture_request : Value
capture_request = dict (field "action" (str "capture_overview") end)

capture_raises :
    (dispatch_read env reading capture_request running).0
    ≡ raised (runtime_error "capture store is broken" [])
unfolding dispatch_read dispatch_read_request dispatch_among read_handlers handle_capture
    read_failed_with answer_with failure_of on_error ◌>>=◌ is_a raise
capture_raises = refl

dispatch_read-raises_example :
    (is_a (runtime_error "capture store is broken" []) lookup_class ≡ false)
    × (is_a (runtime_error "capture store is broken" []) value_class ≡ false)
    × (is_a (runtime_error "capture store is broken" []) type_class ≡ false)
    × (is_a (runtime_error "capture store is broken" []) os_class ≡ false)
dispatch_read-raises_example =
    dispatch_read-raises env reading capture_request running
      (runtime_error "capture store is broken" []) capture_raises
