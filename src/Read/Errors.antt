-- ===== src/Read/Errors.antt =====
-- What `dispatch_read` raises.
use agent_global_context.Prelude.{
  ◌≡◌, arith, Bool, false, String, Option, none, some, List, [], ◌∷◌, ◌==◌, inl, inr, Bool-cases,
  Option-cases, elem,
}
use agent_global_context.Result.{Error, is_a, lookup_class, value_class, type_class, os_class}
use agent_global_context.Effects.{Machine, raised, M}
use agent_global_context.Effects.Raises.{
  Raises, Raises-pure, Raises-raise, Raises-on_error, raised-LetsOut,
}
use agent_global_context.Value.{Value, null, bool, int, str, list, dict, other, Fields, get}
use agent_global_context.Write.{World, ToolResponse, Surroundings}
use agent_global_context.Read.{Reading}
use agent_global_context.Read.Service.{
  read_handlers, capture_actions, failure_of, answer_with, read_failed_with, dispatch_among,
  dispatch_read_request, dispatch_read,
}

-- None of the classes that the clauses of `dispatch_read` name.
abbrev IsUnlisted : Error → Type 0
IsUnlisted e =
    (is_a e lookup_class ≡ false)
    × (is_a e value_class ≡ false)
    × (is_a e type_class ≡ false)
    × (is_a e os_class ≡ false)

module _ (env : Surroundings) (reading : Reading) where
  unlisted : (capture : Bool) (e : Error) → failure_of env reading capture e ≡ none → IsUnlisted e
  unfolding failure_of
  unlisted capture e h = ground arith

  Raises-answer_with :
      (action : String) (capture : Bool) (e : Error)
      → Raises IsUnlisted (answer_with env reading action e (failure_of env reading capture e))
  unfolding answer_with
  Raises-answer_with action capture e = elim (Option-cases (failure_of env reading capture e)) [
    | inl uncaught ↦ rw uncaught (Raises-raise e (unlisted capture e uncaught))
    | inr (out, turned) ↦ rw turned (Raises-pure _)
  ]

  Raises-failed_with :
      (action : String) (e : Error) → Raises IsUnlisted (read_failed_with env reading action e)
  unfolding read_failed_with
  Raises-failed_with action e =
      Raises-answer_with action (elem action (capture_actions env reading)) e

  Raises-dispatch_among :
      (handlers : List (String × (Fields → M World ToolResponse))) (action : String)
      (request : Fields)
      → Raises IsUnlisted (dispatch_among env reading handlers action request)
  unfolding dispatch_among
  Raises-dispatch_among [] action request = Raises-pure _
  Raises-dispatch_among ((name, handle) ∷ rest) action request =
      elim (Bool-cases (name == action)) [
        | inl this ↦ rw this (Raises-on_error (handle request) _ (Raises-failed_with action))
        | inr other_one ↦ rw other_one (Raises-dispatch_among rest action request)
      ]

  Raises-dispatch_request :
      (name : Option Value) (request : Fields)
      → Raises IsUnlisted (dispatch_read_request env reading name request)
  unfolding dispatch_read_request
  Raises-dispatch_request (some (str action)) request =
      Raises-dispatch_among (read_handlers env reading) action request
  Raises-dispatch_request none request = Raises-pure _
  Raises-dispatch_request (some null) request = Raises-pure _
  Raises-dispatch_request (some (bool b)) request = Raises-pure _
  Raises-dispatch_request (some (int i)) request = Raises-pure _
  Raises-dispatch_request (some (list l)) request = Raises-pure _
  Raises-dispatch_request (some (dict f)) request = Raises-pure _
  Raises-dispatch_request (some (other n)) request = Raises-pure _

  Raises-dispatch_read : (request : Value) → Raises IsUnlisted (dispatch_read env reading request)
  unfolding dispatch_read
  Raises-dispatch_read (dict request) = Raises-dispatch_request (get "action" request) request
  Raises-dispatch_read null = Raises-pure _
  Raises-dispatch_read (bool b) = Raises-pure _
  Raises-dispatch_read (int i) = Raises-pure _
  Raises-dispatch_read (str t) = Raises-pure _
  Raises-dispatch_read (list l) = Raises-pure _
  Raises-dispatch_read (other n) = Raises-pure _

-- Whatever the request is, and whatever calls fail on its way, what `dispatch_read` raises is neither a
-- LookupError nor a ValueError, a TypeError or an OSError: an exception of these classes becomes a
-- response.
pub dispatch_read-raises :
    (env : Surroundings) (reading : Reading) (request : Value) (s : Machine World) (e : Error)
    → (dispatch_read env reading request s).0 ≡ raised e
    → (is_a e lookup_class ≡ false)
      × (is_a e value_class ≡ false)
      × (is_a e type_class ≡ false)
      × (is_a e os_class ≡ false)
dispatch_read-raises env reading request s e h =
    raised-LetsOut IsUnlisted _ e h ((Raises-dispatch_read env reading request).at s)
