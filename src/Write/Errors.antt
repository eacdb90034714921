-- ===== src/Write/Errors.antt =====
-- What `dispatch_write` answers when a handler raises.
use agent_global_context.Prelude.{
  ℕ, ◌≡◌, false, arith, String, Option, none, some, Bool-cases, Option-cases, ◌==◌, inl, inr,
}
use agent_global_context.Result.{Error, is_a, value_class, key_class, type_class, os_class}
use agent_global_context.Effects.{Machine, raised}
use agent_global_context.Effects.Raises.{
  Raises, Raises-pure, Raises-raise, Raises-on_error, raised-LetsOut,
}
use agent_global_context.Value.{Value, null, bool, int, str, list, dict, other, Fields, get}
use agent_global_context.Store.Methods.{Call}
use agent_global_context.Write.{World, Surroundings}
use agent_global_context.Write.Dispatch.{code_of, failed_with}
use agent_global_context.Write.Service.{
  Action, Forgetting, action_of, dispatch_action, dispatch_batch, dispatch_named, dispatch_request,
  dispatch_write,
}

-- None of the exceptions that are turned into a response.
abbrev IsUncaught : Error → Type 0
IsUncaught e = code_of e ≡ none

failed_with-Raises : (action : String) (e : Error) → Raises IsUncaught (failed_with action e)
unfolding failed_with
failed_with-Raises action e = elim (Option-cases (code_of e)) [
  | inl uncaught ↦ rw uncaught (Raises-raise e uncaught)
  | inr (code, turned) ↦ rw turned (Raises-pure _)
]

module _ (env : Surroundings) (forgetting : Forgetting) (calls : ℕ → Call) where
  dispatch_named-Raises :
      (name : String) (action : Option Action) (request : Fields)
      → Raises IsUncaught (dispatch_named env forgetting calls name action request)
  unfolding dispatch_named dispatch_action dispatch_batch
  dispatch_named-Raises name (some action) request =
      Raises-on_error _ (failed_with name) (failed_with-Raises name)
  dispatch_named-Raises name none request = elim (Bool-cases (name == "observe_batch")) [
    | inl batch ↦
        rw batch
          (Raises-on_error _ (failed_with "observe_batch") (failed_with-Raises "observe_batch"))
    | inr unknown ↦ rw unknown (Raises-pure _)
  ]

  dispatch_request-Raises :
      (name : Option Value) (request : Fields)
      → Raises IsUncaught (dispatch_request env forgetting calls name request)
  unfolding dispatch_request
  dispatch_request-Raises none request = Raises-pure _
  dispatch_request-Raises (some null) request = Raises-pure _
  dispatch_request-Raises (some (bool b)) request = Raises-pure _
  dispatch_request-Raises (some (int i)) request = Raises-pure _
  dispatch_request-Raises (some (str name)) request =
      dispatch_named-Raises name (action_of name) request
  dispatch_request-Raises (some (list l)) request = Raises-pure _
  dispatch_request-Raises (some (dict d)) request = Raises-pure _
  dispatch_request-Raises (some (other n)) request = Raises-pure _

  dispatch_write-Raises :
      (request : Value) → Raises IsUncaught (dispatch_write env forgetting calls request)
  unfolding dispatch_write
  dispatch_write-Raises null = Raises-pure _
  dispatch_write-Raises (bool b) = Raises-pure _
  dispatch_write-Raises (int i) = Raises-pure _
  dispatch_write-Raises (str t) = Raises-pure _
  dispatch_write-Raises (list l) = Raises-pure _
  dispatch_write-Raises (dict request) = dispatch_request-Raises (get "action" request) request
  dispatch_write-Raises (other n) = Raises-pure _

unlisted :
    (e : Error)
    → code_of e ≡ none
    → (is_a e value_class ≡ false)
      × (is_a e key_class ≡ false)
      × (is_a e type_class ≡ false)
      × (is_a e os_class ≡ false)
unfolding code_of
unlisted e h = ground arith

-- Whatever the request is, and whatever calls fail on its way, what `dispatch_write` raises is neither a
-- ValueError nor a KeyError, a TypeError or an OSError: an exception of these classes becomes a response.
pub dispatch_write-raises :
    (env : Surroundings) (forgetting : Forgetting) (calls : ℕ → Call) (request : Value)
    (s : Machine World) (e : Error)
    → (dispatch_write env forgetting calls request s).0 ≡ raised e
    → (is_a e value_class ≡ false)
      × (is_a e key_class ≡ false)
      × (is_a e type_class ≡ false)
      × (is_a e os_class ≡ false)
dispatch_write-raises env forgetting calls request s e h =
    unlisted e
      (raised-LetsOut IsUncaught _ e h ((dispatch_write-Raises env forgetting calls request).at s))
