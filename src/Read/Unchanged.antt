-- ===== src/Read/Unchanged.antt =====
-- What reading leaves as it was.
use agent_global_context.Prelude.{
  ◌≡◌, refl, String, Option, none, some, List, [], ◌∷◌, ◌==◌, All, elem,
}
use agent_global_context.Result.{Error}
use agent_global_context.Effects.{Machine, M}
use agent_global_context.Effects.Keeps.{
  Keeps, Keeps-pure, Keeps-raise, Keeps-lift, Keeps-fetch, Keeps-bind, Keeps-on_error, Keeps-if,
}
use agent_global_context.Files.{Files}
use agent_global_context.Value.{Value, null, bool, int, str, list, dict, other, Fields, get}
use agent_global_context.Store.Disk.{Disk}
use agent_global_context.Write.{World, Candidate, Message, ToolResponse, Surroundings}
use agent_global_context.Read.Loads.{Holds, Keeps-get_memory, Keeps-on_store, Keeps-load_catalog}
use agent_global_context.Read.{Captured, Reading}
use agent_global_context.Read.Service.{
  handle_overview, handle_search, handle_get, handle_history, handle_evidence, with_id,
  handle_capture, read_handlers, capture_actions, failure_of, answer_with, read_failed_with,
  dispatch_among, dispatch_read_request, dispatch_read,
}

-- The components that are read leave the formal memory and the candidates alone.
pub record ReadsOnly (reading : Reading) : Type 1 where
  pub overviewing :
      (d : Disk) (cs : Files String Candidate) → Keeps (Holds d cs) reading.capture_overview
  pub searching :
      (d : Disk) (cs : Files String Candidate) (request : Fields)
      → Keeps (Holds d cs) (reading.capture_search request)
  pub getting :
      (d : Disk) (cs : Files String Candidate) (request : Fields)
      → Keeps (Holds d cs) (reading.capture_get request)
  pub reviewing :
      (d : Disk) (cs : Files String Candidate) → Keeps (Holds d cs) reading.capture_review_status
  pub configuring :
      (d : Disk) (cs : Files String Candidate) → Keeps (Holds d cs) reading.overview_token_budget

module _ (env : Surroundings) (reading : Reading) (laws : ReadsOnly reading) (d : Disk)
    (cs : Files String Candidate) where
  Keeps-overview : Keeps (Holds d cs) (handle_overview env reading)
  unfolding handle_overview
  Keeps-overview =
      Keeps-bind (laws.configuring d cs)
        (λ _. Keeps-bind (Keeps-load_catalog env d cs) (λ _. Keeps-pure _))

  Keeps-search : (request : Fields) → Keeps (Holds d cs) (handle_search env reading request)
  unfolding handle_search
  Keeps-search request = Keeps-bind (Keeps-lift _) (λ _. Keeps-bind (Keeps-lift _) (λ _.
      Keeps-bind (Keeps-lift _) (λ _. Keeps-bind (Keeps-lift _) (λ _.
        Keeps-bind (laws.configuring d cs) (λ _.
          Keeps-bind (Keeps-load_catalog env d cs)
            (λ _. Keeps-bind (Keeps-lift _) (λ _. Keeps-pure _)))))))

  Keeps-get : (id : String) → Keeps (Holds d cs) (handle_get env reading id)
  unfolding handle_get
  Keeps-get id =
      Keeps-bind (Keeps-on_store d cs (Keeps-get_memory env.platform d id)) (λ _. Keeps-pure _)

  Keeps-history : (id : String) → Keeps (Holds d cs) (handle_history env reading id)
  unfolding handle_history
  Keeps-history id = Keeps-bind (Keeps-fetch _) (λ _. Keeps-pure _)

  Keeps-evidence : (id : String) → Keeps (Holds d cs) (handle_evidence env reading id)
  unfolding handle_evidence
  Keeps-evidence id = Keeps-bind (Keeps-fetch _) (λ _. Keeps-pure _)

  Keeps-with_id :
      (rest : String → M World ToolResponse)
      → ((id : String) → Keeps (Holds d cs) (rest id))
      → (value : Option Value) → Keeps (Holds d cs) (with_id env reading rest value)
  unfolding with_id
  Keeps-with_id rest k value = Keeps-bind (Keeps-lift _) k

  Keeps-capture :
      (action : String) (reader : M World Captured)
      → Keeps (Holds d cs) reader
      → Keeps (Holds d cs) (handle_capture env reading action reader)
  unfolding handle_capture
  Keeps-capture action reader k = Keeps-bind k (λ _. Keeps-pure _)

  Keeps-handlers :
      All
        (λ (h : String × (Fields → M World ToolResponse)).
          (request : Fields) → Keeps (Holds d cs) (h.1 request))
        (read_handlers env reading)
  unfolding read_handlers
  Keeps-handlers = (
    λ request. Keeps-overview,
    (
      Keeps-search,
      (
        λ request. Keeps-with_id _ Keeps-get (get "id" request),
        (
          λ request. Keeps-with_id _ Keeps-history (get "id" request),
          (
            λ request. Keeps-with_id _ Keeps-evidence (get "id" request),
            (
              λ request. Keeps-capture "capture_overview" _ (laws.overviewing d cs),
              (
                λ request. Keeps-capture "capture_search" _ (laws.searching d cs request),
                (
                  λ request. Keeps-capture "capture_get" _ (laws.getting d cs request),
                  (
                    λ request.
                        Keeps-bind (Keeps-lift _)
                          (λ _. Keeps-capture "capture_review_status" _ (laws.reviewing d cs)),
                    tt,
                  ),
                ),
              ),
            ),
          ),
        ),
      ),
    ),
  )

  Keeps-answer_with :
      (action : String) (e : Error) (out : Option (String × Message))
      → Keeps (Holds d cs) (answer_with env reading action e out)
  unfolding answer_with
  Keeps-answer_with action e none = Keeps-raise e
  Keeps-answer_with action e (some out) = Keeps-pure _

  Keeps-failed_with :
      (action : String) (e : Error) → Keeps (Holds d cs) (read_failed_with env reading action e)
  unfolding read_failed_with
  Keeps-failed_with action e =
      Keeps-answer_with action e
        (failure_of env reading (elem action (capture_actions env reading)) e)

  Keeps-dispatch_among :
      (handlers : List (String × (Fields → M World ToolResponse)))
      → All
          (λ (h : String × (Fields → M World ToolResponse)).
            (request : Fields) → Keeps (Holds d cs) (h.1 request))
          handlers
      → (action : String) (request : Fields)
      → Keeps (Holds d cs) (dispatch_among env reading handlers action request)
  unfolding dispatch_among
  Keeps-dispatch_among [] k action request = Keeps-pure _
  Keeps-dispatch_among ((name, handle) ∷ rest) k action request =
      Keeps-if (name == action)
        (λ _. Keeps-on_error (k.0 request) (λ e. Keeps-failed_with action e))
        (λ _. Keeps-dispatch_among rest k.1 action request)

  Keeps-dispatch_request :
      (name : Option Value) (request : Fields)
      → Keeps (Holds d cs) (dispatch_read_request env reading name request)
  unfolding dispatch_read_request
  Keeps-dispatch_request (some (str action)) request =
      Keeps-dispatch_among (read_handlers env reading) Keeps-handlers action request
  Keeps-dispatch_request none request = Keeps-pure _
  Keeps-dispatch_request (some null) request = Keeps-pure _
  Keeps-dispatch_request (some (bool b)) request = Keeps-pure _
  Keeps-dispatch_request (some (int i)) request = Keeps-pure _
  Keeps-dispatch_request (some (list l)) request = Keeps-pure _
  Keeps-dispatch_request (some (dict f)) request = Keeps-pure _
  Keeps-dispatch_request (some (other n)) request = Keeps-pure _

  Keeps-dispatch_read : (request : Value) → Keeps (Holds d cs) (dispatch_read env reading request)
  unfolding dispatch_read
  Keeps-dispatch_read (dict request) = Keeps-dispatch_request (get "action" request) request
  Keeps-dispatch_read null = Keeps-pure _
  Keeps-dispatch_read (bool b) = Keeps-pure _
  Keeps-dispatch_read (int i) = Keeps-pure _
  Keeps-dispatch_read (str t) = Keeps-pure _
  Keeps-dispatch_read (list l) = Keeps-pure _
  Keeps-dispatch_read (other n) = Keeps-pure _

-- No request to the read service changes the formal memory or the candidates, whatever faults are met and
-- however the call ends. The components that read captured observations and the configuration are taken
-- to leave both alone.
pub dispatch_read-unchanged :
    (env : Surroundings) (reading : Reading) (request : Value) (s : Machine World)
    → ReadsOnly reading
    → ((dispatch_read env reading request s).1.disk.store ≡ s.disk.store)
      × ((dispatch_read env reading request s).1.disk.candidates ≡ s.disk.candidates)
dispatch_read-unchanged env reading request s laws =
    (Keeps-dispatch_read env reading laws s.disk.store s.disk.candidates request).at s (refl, refl)
