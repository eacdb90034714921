-- ===== src/Effects.antt =====
-- Code that reads and writes files. Every system call meets a fault chosen by the environment: it
-- is performed, it raises `OSError` and changes nothing, or the process dies before it. Single
-- calls are atomic, as `os.replace` and `unlink` are.
pub mod Runs
pub mod Meets
pub mod Keeps
pub mod Raises
pub mod Inversion
use agent_global_context.Prelude.{List, [], ◌∷◌}
use agent_global_context.Result.{Error, os_error, Result, ok, err}

pub data Fault : Type 0 where
  fine fails dies : Fault

pub record Machine (D : Type 0) : Type 0 where
  pub disk : D
  pub faults : List Fault

pub data Outcome (A : Type 0) : Type 0 where
  done : A → Outcome A
  raised : Error → Outcome A
  died : Outcome A

abbrev pub M : Type 0 → Type 0 → Type 0
M D A = Machine D → Outcome A × Machine D

module _ {D A : Type 0} where
  unfoldable pub pure : A → M D A
  pure a s = (done a, s)

  unfoldable pub raise : Error → M D A
  raise e s = (raised e, s)

  -- What is known of the disk with no system call that could fail: `Path.exists`, a directory listing.
  unfoldable pub gets : (D → A) → M D A
  gets f s = (done (f s.disk), s)

  unfoldable pub lift : Result A → M D A
  lift (ok a) s = (done a, s)
  lift (err e) s = (raised e, s)

  meet : Fault → (D → A × D) → D → List Fault → Outcome A × Machine D
  meet fine call d rest = let (a, d') = call d in (done a, record { disk = d'; faults = rest })
  meet fails call d rest = (raised os_error, record { disk = d; faults = rest })
  meet dies call d rest = (died, record { disk = d; faults = rest })

  next : List Fault → (D → A × D) → D → Outcome A × Machine D
  unfolding meet
  next [] call d = meet fine call d []
  next (f ∷ rest) call d = meet f call d rest

  pub io : (D → A × D) → M D A
  unfolding next
  io call s = next s.faults call s.disk

  -- The content of a file.
  unfoldable pub fetch : (D → A) → M D A
  unfolding io
  fetch f = io (λ d. (f d, d))

unfoldable pub modify : {D : Type 0} → (D → D) → M D (Unit {0})
unfolding io
modify f = io (λ d. (tt, f d))

module _ {D A B : Type 0} where
  continue : Outcome A → (A → M D B) → M D B
  continue (done a) f s = f a s
  continue (raised e) f s = (raised e, s)
  continue died f s = (died, s)

  infixl 10 ◌>>=◌ ◌>>◌
  unfoldable pub ◌>>=◌ : M D A → (A → M D B) → M D B
  unfolding continue pure raise gets lift
  ◌>>=◌ m f s = let (r, s') = m s in continue r f s'

  abbrev pub ◌>>◌ : M D A → M D B → M D B
  m >> n = m >>= λ _. n

after : {A : Type 0} → Error → Outcome (Unit {0}) → Outcome A
after e (done _) = raised e
after e (raised e') = raised e'
after e died = died

module _ {D A : Type 0} where
  rescue : Outcome A → M D (Unit {0}) → M D A
  unfolding after
  rescue (done a) handler s = (done a, s)
  rescue (raised e) handler s = let (r, s') = handler s in (after e r, s')
  rescue died handler s = (died, s)

  -- try: m, except BaseException: handler; raise
  unfoldable pub on_raise : M D A → M D (Unit {0}) → M D A
  unfolding rescue
  on_raise m handler s = let (r, s') = m s in rescue r handler s'

  unfoldable pub caught : Outcome A → (Error → M D A) → M D A
  caught (done a) handler s = (done a, s)
  caught (raised e) handler s = handler e s
  caught died handler s = (died, s)

  -- try: m, except ... as e: handler e, where the handler raises what it does not take
  unfoldable pub on_error : M D A → (Error → M D A) → M D A
  unfolding caught
  on_error m handler s = let (r, s') = m s in caught r handler s'

module _ {D E A : Type 0} (part : E → D) (put_back : D → E → E) where
  -- Code over one part of a larger disk.
  unfoldable pub within : M D A → M E A
  within m s =
      let (r, s') = m (record { disk = part s.disk; faults = s.faults }) in
      (r, record { disk = put_back s'.disk s.disk; faults = s'.faults })
