-- ===== src/Budget/Calls.antt =====
-- Each call of the budget leaves a sound ledger sound, whatever faults it meets.
use agent_global_context.Prelude.{
  ℕ, ◌+◌, ◌≤◌, ◌≡◌, refl, sym, subst, ap, ◌∙◌, Bool, true, false, not, String, Option, none, some,
  ltb, arith, if◌then◌else◌,
}
use agent_global_context.Result.{Result, ok, raise_if, raise_if-false}
use agent_global_context.Files.{Files, read, exists, string_eq, read-write}
use agent_global_context.Effects.{M, gets, lift, ◌>>=◌}
use agent_global_context.Effects.Meets.{
  Meets, Meets-pure, Meets-gets, Meets-lift, Meets-fetch, Meets-modify, Meets-bind,
}
use agent_global_context.Budget.{
  same_pool_iff, pool_eq, CaptureKey, TokenUsage, TokenReservation, BudgetSettlement, PoolFile,
  Ledger, Budget, check_pool, read_pool, write_pool, ensure_pool, of_pool, charged, entries,
  write_reservation, write_settlement,
}
use agent_global_context.Budget.Methods.{
  read_reservation, read_settlement, or_file_not_found, reserve_again, reserve_new, FrozenRun,
  reserve, or_unavailable, prepare_settlement, settle_again, settle_new, persist_settlement, settle,
  snapshot_with, snapshot,
}
use agent_global_context.Budget.Charges.{charged-settled_in}
use agent_global_context.Budget.Ceilings.{
  charged_in, or_zero, ceiling_of, ceiling_at, IsSound, with_pool-IsSound, reserved-IsSound,
  settled-IsSound,
}
use agent_global_context.Budget.Settlements.{agrees_lem, same_reservation-maximum}

-- What every outcome of a call leaves.
abbrev pub Sound : {A : Type 0} → A → Ledger → Type 0
Sound _ = IsSound

true_of_not : (c : Bool) → not c ≡ false → c ≡ true
true_of_not c h = ground arith

room : (ceiling spent wanted : ℕ) → ltb ceiling (spent + wanted) ≡ false → spent + wanted ≤ ceiling
room ceiling spent wanted h = ground arith

exists-false :
    {V : Type 0} (id : String) (files : Files String V)
    → exists id files ≡ false
    → read id files ≡ none
exists-false id files h = ground arith

module _ {A : Type 0} {Q : A → Ledger → Type 0} {x : Ledger} {m n : M Ledger A} where
  Meets-if :
      (c : Bool)
      → (c ≡ true → Meets IsSound Q x m)
      → (c ≡ false → Meets IsSound Q x n)
      → Meets IsSound Q x (if c then m else n)
  Meets-if true t f = t refl
  Meets-if false t f = f refl

module _ {A : Type 0} {Q : A → Ledger → Type 0} {x y : Ledger} {m : M Ledger A} where
  Meets-at : x ≡ y → Meets IsSound Q y m → Meets IsSound Q x m
  Meets-at e h = subst (λ z. Meets IsSound Q z m) (sym e) h

-- The file of the pool is there, with the ceiling of the budget.
abbrev Opened : Budget → Unit {0} → Ledger → Type 0
Opened b _ y = IsSound y × (ceiling_at y b.pool ≡ or_zero b.ceiling)

check_pool-ceiling :
    (ceiling : Option ℕ) (file : Option PoolFile) (u : Unit {0})
    → check_pool ceiling file ≡ ok u
    → ceiling_of file ≡ or_zero ceiling
unfolding check_pool raise_if
check_pool-ceiling ceiling file u h = ground arith

module _ (x : Ledger) (sound : IsSound x) where
  Meets-read_pool : (b : Budget) → Meets IsSound (Opened b) x (read_pool b)
  unfolding read_pool
  Meets-read_pool b =
      Meets-bind
        (Meets-fetch {Q = λ file y. (y ≡ x) × (file ≡ read b.pool x.pools)} _ sound (refl, refl))
        (λ file y (at, e). Meets-at at (
          Meets-lift _ sound
            (λ u h. (sound, ap ceiling_of (sym e) ∙ check_pool-ceiling b.ceiling file u h))))

  Meets-write_pool :
      (b : Budget) (now : String)
      → read b.pool x.pools ≡ none
      → Meets IsSound (Opened b) x (write_pool b now)
  unfolding write_pool
  Meets-write_pool b now h = Meets-modify _ sound (
    with_pool-IsSound x sound b now h,
    (let r =
          read-write b.pool b.pool (record { ceiling_tokens = b.ceiling; created_at = now })
            x.pools in
        ground (arith, same_pool_iff b.pool b.pool)),
  )

  Meets-ensure_pool : (b : Budget) (now : String) → Meets IsSound (Opened b) x (ensure_pool b now)
  unfolding ensure_pool
  Meets-ensure_pool b now =
      Meets-bind
        (Meets-gets {Q = λ there y. (y ≡ x) × (there ≡ exists b.pool x.pools)} _ (refl, refl))
        (λ there y (at, e). Meets-at at (
          Meets-if there (λ _. Meets-read_pool b)
            (λ h. Meets-write_pool b now (ground (arith, e)))))

  Meets-entries :
      (b : Budget)
      → Meets IsSound
          (λ entry y. (y ≡ x) × (charged entry.0 entry.1 ≡ charged_in x b.pool))
          x
          (entries b)
  unfolding entries
  Meets-entries b =
      Meets-bind (Meets-fetch {Q = λ rs y. (y ≡ x) × (rs ≡ x.reservations)} _ sound (refl, refl))
        (λ rs y (at, er). Meets-at at (
          Meets-bind (Meets-lift {Q = λ _ y. y ≡ x} _ sound (λ _ _. refl)) (λ _ y at. Meets-at at (
            Meets-bind
              (Meets-fetch {Q = λ ss y. (y ≡ x) × (ss ≡ x.settlements)} _ sound (refl, refl))
              (λ ss y (at, es). Meets-at at (
                Meets-bind (Meets-lift {Q = λ _ y. y ≡ x} _ sound (λ _ _. refl)) (λ _ y at.
                  Meets-at at (
                    Meets-pure _ (
                      refl,
                      (rw (er, es)
                          (charged-settled_in (of_pool b.pool x.reservations) x.settlements)),
                    )))))))))

  -- A step that changes nothing.
  Meets-step :
      {A B : Type 0} {Q : B → Ledger → Type 0} {f : A → M Ledger B} (r : Result A)
      → ((a : A) → r ≡ ok a → Meets IsSound Q x (f a))
      → Meets IsSound Q x (lift r >>= f)
  Meets-step r k =
      Meets-bind (Meets-lift {Q = λ a y. (y ≡ x) × (r ≡ ok a)} r sound (λ a h. (refl, h)))
        (λ a y (at, h). Meets-at at (k a h))

  Meets-look :
      {A B : Type 0} {Q : B → Ledger → Type 0} {f : A → M Ledger B} (g : Ledger → A)
      → ((a : A) → a ≡ g x → Meets IsSound Q x (f a))
      → Meets IsSound Q x (gets g >>= f)
  Meets-look g k =
      Meets-bind (Meets-gets {Q = λ a y. (y ≡ x) × (a ≡ g x)} g (refl, refl))
        (λ a y (at, h). Meets-at at (k a h))

  Meets-read_reservation :
      {B : Type 0} {Q : B → Ledger → Type 0} {f : TokenReservation → M Ledger B} (id : String)
      → ((r : TokenReservation) → read id x.reservations ≡ some r → Meets IsSound Q x (f r))
      → Meets IsSound Q x (read_reservation id >>= f)
  unfolding read_reservation or_file_not_found
  Meets-read_reservation id k =
      Meets-bind
        (Meets-bind
          (Meets-fetch {Q = λ file y. (y ≡ x) × (file ≡ read id x.reservations)} _ sound
            (refl, refl))
          (λ file y (at, e). Meets-at at (
            Meets-lift {Q = λ r y. (y ≡ x) × (read id x.reservations ≡ some r)} _ sound
              (λ r h. (refl, ground (arith, e))))))
        (λ r y (at, h). Meets-at at (k r h))

  Meets-reserve_again : (r : TokenReservation) → Meets IsSound Sound x (reserve_again r)
  unfolding reserve_again
  Meets-reserve_again r =
      Meets-read_reservation r.reservation_id
        (λ current _. Meets-step _ (λ _ _. Meets-pure _ sound))

  Meets-reserve_new :
      (b : Budget) (ceiling : ℕ) (r : TokenReservation)
      → r.pool ≡ b.pool
      → ceiling_at x b.pool ≡ ceiling
      → read r.reservation_id x.reservations ≡ none
      → Meets IsSound Sound x (reserve_new b ceiling r)
  unfolding reserve_new write_reservation
  Meets-reserve_new b ceiling r mine top new = Meets-bind (Meets-entries b) (λ entry y (at, e).
      Meets-at at (
        Meets-step _ (λ u h.
          Meets-bind
            (Meets-modify {Q = Sound} _ sound (
              reserved-IsSound x sound r.reservation_id r new
                (rw (mine, top, ← e) (room ceiling _ _ (raise_if-false _ _ _ h)))))
            (λ _ y s. Meets-pure _ s))))

or_unavailable-ok : (o : Option ℕ) (c : ℕ) → or_unavailable o ≡ ok c → or_zero o ≡ c
or_unavailable-ok none c h = cc
or_unavailable-ok (some a) c h = ground arith

module _ (x : Ledger) (sound : IsSound x) where
  pub Meets-reserve :
      (run : FrozenRun) (b : Budget) (id : String) (key : CaptureKey) (attempt : ℕ)
      (maximum : TokenUsage) (now : String)
      → Meets IsSound Sound x (reserve run b id key attempt maximum now)
  unfolding reserve
  Meets-reserve run b id key attempt maximum now = Meets-step x sound _ (λ ceiling hc.
      Meets-step x sound _ (λ _ _. Meets-step x sound _ (λ _ _. Meets-step x sound _ (λ _ _.
        Meets-bind (Meets-ensure_pool x sound b now) (λ _ y (ok_y, top).
          Meets-look y ok_y _ (λ there e.
            Meets-if there (λ _. Meets-reserve_again y ok_y _)
              (λ h.
                Meets-reserve_new y ok_y b ceiling _ refl
                  (top ∙ or_unavailable-ok b.ceiling ceiling hc)
                  (exists-false id y.reservations (sym e ∙ h)))))))))

  Meets-settle_again : (s : BudgetSettlement) → Meets IsSound Sound x (settle_again s)
  unfolding settle_again read_settlement
  Meets-settle_again s =
      Meets-bind
        (Meets-bind (Meets-fetch {Q = λ _ y. y ≡ x} _ sound refl)
          (λ file y at. Meets-at at (Meets-lift {Q = λ _ y. y ≡ x} _ sound (λ _ _. refl))))
        (λ current y at. Meets-at at (Meets-step x sound _ (λ _ _. Meets-pure _ sound)))

  Meets-settle_new :
      (r : TokenReservation) (s : BudgetSettlement)
      → read s.reservation_id x.reservations ≡ some r
      → read s.reservation_id x.settlements ≡ none
      → s.charged_usage.total_tokens ≤ r.maximum_usage.total_tokens
      → Meets IsSound Sound x (settle_new s)
  unfolding settle_new write_settlement
  Meets-settle_new r s there new le =
      Meets-bind
        (Meets-modify {Q = Sound} _ sound
          (settled-IsSound x sound s.reservation_id r s there new le))
        (λ _ y k. Meets-pure _ k)

  pub Meets-persist :
      (r : TokenReservation) (s : BudgetSettlement) → Meets IsSound Sound x (persist_settlement r s)
  unfolding persist_settlement
  Meets-persist r s = Meets-step x sound _ (λ _ h.
      let agrees = agrees_lem r s (raise_if-false _ _ _ h) in
      Meets-look x sound _ (λ known _. Meets-step x sound _ (λ _ _.
        Meets-read_reservation x sound r.reservation_id (λ current there.
          Meets-step x sound _ (λ _ same.
            let top =
              same_reservation-maximum current r (true_of_not _ (raise_if-false _ _ _ same)) in
            Meets-look x sound _ (λ settled e.
              Meets-if settled (λ _. Meets-settle_again s)
                (λ n.
                  Meets-settle_new current s (rw agrees.0 there)
                    (rw agrees.0 (exists-false r.reservation_id x.settlements (sym e ∙ n)))
                    (let le = agrees.1 in ground arith))))))))

module _ (x : Ledger) (sound : IsSound x) where
  pub Meets-settle :
      (b : Budget) (r : TokenReservation) (usage : Option TokenUsage) (now : String)
      → Meets IsSound Sound x (settle b r usage now)
  unfolding settle
  Meets-settle b r usage now =
      Meets-bind (Meets-ensure_pool x sound b now)
        (λ _ y k. Meets-persist y k.0 r (prepare_settlement r usage now))

  Meets-snapshot_with :
      (b : Budget) (ceiling : Option ℕ) (now : String)
      → Meets IsSound Sound x (snapshot_with b ceiling now)
  unfolding snapshot_with
  Meets-snapshot_with b none now = Meets-pure _ sound
  Meets-snapshot_with b (some c) now = Meets-bind (Meets-ensure_pool x sound b now) (λ _ y k.
      Meets-bind (Meets-entries y k.0 b) (λ entry z (at, _). Meets-at at (Meets-pure _ k.0)))

  pub Meets-snapshot : (b : Budget) (now : String) → Meets IsSound Sound x (snapshot b now)
  unfolding snapshot
  Meets-snapshot b now = Meets-snapshot_with b b.ceiling now
