-- ===== src/Store/Obeys.antt =====
-- Relations between the world before and the world after an action, with one rule for each way to
-- build an action: a relation that single statements obey holds of whole services, on every error
-- path and for every run of faults.
use etask.Base.{ℕ, ◌≡◌, refl, Bool, true, false, List, [], ◌∷◌, ◌++◌, if◌then◌else◌}
use etask.Errs.{Err, Result, ok, err}
use etask.Store.Rows.{World, Output}
use etask.Store.Action.{
  Action, pure, fail, throw, try, gets, emit, statement, transaction, ◌>>=◌, continue, round_trip,
  settle, as_tenant,
}

-- A way in which the world may change: it can stand still, go on, and it does not see the faults
-- that are consumed nor the messages that are sent.
pub record Evolution (R : World → World → Type 0) : Type 0 where
  pub still : (w : World) (faults : List Bool) → R w (record w { faults = faults })
  pub go_on : (u v w : World) → R u v → R v w → R u w
  pub in_tenant : (w : World) (tenant : ℕ) → R w (record w { tenant = tenant })
  pub sending : (w : World) (o : Output) → R w (record w { outputs = w.outputs ++ (o ∷ []) })

pub record Obeys {A : Type 0} (R : World → World → Type 0) (m : Action A) : Type 0 where
  pub at : (w : World) → R w (m w).1

module _ {R : World → World → Type 0} where
  pub Obeys-pure : {A : Type 0} → Evolution R → (a : A) → Obeys R (pure a)
  unfolding pure
  Obeys-pure e a = record { at = λ w. e.still w w.faults }

  pub Obeys-fail : {A : Type 0} → Evolution R → (x : Err) → Obeys R (fail {A = A} x)
  unfolding fail
  Obeys-fail e x = record { at = λ w. e.still w w.faults }

  pub Obeys-throw : {A : Type 0} → Evolution R → (r : Result A) → Obeys R (throw r)
  unfolding throw
  Obeys-throw e r = record { at = λ w. e.still w w.faults }

  pub Obeys-gets : {A : Type 0} → Evolution R → (f : World → A) → Obeys R (gets f)
  unfolding gets
  Obeys-gets e f = record { at = λ w. e.still w w.faults }

  pub Obeys-emit : Evolution R → (o : Output) → Obeys R (emit o)
  unfolding emit
  Obeys-emit e o = record { at = λ w. e.sending w o }

  pub Obeys-if :
      {A : Type 0} (b : Bool) (m n : Action A)
      → (b ≡ true → Obeys R m)
      → (b ≡ false → Obeys R n)
      → Obeys R (if b then m else n)
  Obeys-if true m n hm hn = hm refl
  Obeys-if false m n hm hn = hn refl

  continue-obeys :
      {A B : Type 0} (e : Evolution R) (r : Result A) (f : A → Action B) (u w : World)
      → R u w
      → ((a : A) → r ≡ ok a → R w (f a w).1)
      → R u (continue r f w).1
  continue-obeys e (ok a) f u w h k = e.go_on u w (f a w).1 h (k a refl)
  continue-obeys e (err x) f u w h k = h

  -- The rest may use what the first part returned, and where it left the world.
  pub Obeys-bind_at :
      {A B : Type 0} (e : Evolution R) (m : Action A) (f : A → Action B) (w : World)
      → R w (m w).1
      → ((a : A) → (m w).0 ≡ ok a → R (m w).1 (f a (m w).1).1)
      → R w ((m >>= f) w).1
  unfolding ◌>>=◌
  Obeys-bind_at e m f w h k = continue-obeys e (m w).0 f w (m w).1 h k

  pub Obeys-bind :
      {A B : Type 0} (e : Evolution R) (m : Action A) (f : A → Action B)
      → Obeys R m
      → ((a : A) → Obeys R (f a))
      → Obeys R (m >>= f)
  Obeys-bind e m f hm hf = record {
    at = λ w. Obeys-bind_at e m f w (hm.at w) (λ a _. (hf a).at (m w).1);
  }

  pub Obeys-try : {A : Type 0} (m : Action A) → Obeys R m → Obeys R (try m)
  unfolding try
  Obeys-try m h = record { at = λ w. h.at w }

  round_trip-obeys :
      {A : Type 0} (e : Evolution R) (act : Action A) (faults : List Bool) (w : World)
      → ((v : World) → R v (act v).1)
      → R w (round_trip faults act w).1
  round_trip-obeys e act [] w h = h w
  round_trip-obeys e act (true ∷ faults) w h = e.still w faults
  round_trip-obeys e act (false ∷ faults) w h =
      e.go_on w (record w { faults = faults }) (act (record w { faults = faults })).1
        (e.still w faults) (h (record w { faults = faults }))

  pub Obeys-statement :
      {A : Type 0} → Evolution R → (m : Action A) → Obeys R m → Obeys R (statement m)
  unfolding statement
  Obeys-statement e m h = record { at = λ w. round_trip-obeys e m w.faults w h.at }

  round_trip-obeys_at :
      {A : Type 0} (e : Evolution R) (act : Action A) (faults : List Bool) (w : World)
      → ((rest : List Bool) → R (record w { faults = rest }) (act (record w { faults = rest })).1)
      → R w (round_trip faults act w).1
  round_trip-obeys_at e act [] w h = h w.faults
  round_trip-obeys_at e act (true ∷ faults) w h = e.still w faults
  round_trip-obeys_at e act (false ∷ faults) w h =
      e.go_on w (record w { faults = faults }) (act (record w { faults = faults })).1
        (e.still w faults) (h faults)

  -- A statement in one world, where the rest of the world is known.
  pub Obeys-statement_at :
      {A : Type 0} (e : Evolution R) (act : Action A) (w : World)
      → ((rest : List Bool) → R (record w { faults = rest }) (act (record w { faults = rest })).1)
      → R w (statement act w).1
  unfolding statement
  Obeys-statement_at e act w h = round_trip-obeys_at e act w.faults w h

  settle-obeys :
      {A : Type 0} (e : Evolution R) (w : World) (r : Result A) (v : World)
      → R w v
      → R w (settle w (r, v)).1
  settle-obeys e w (ok a) v h = h
  settle-obeys e w (err x) v h = e.still w v.faults

  pub Obeys-transaction :
      {A : Type 0} → Evolution R → (m : Action A) → Obeys R m → Obeys R (transaction m)
  unfolding transaction
  Obeys-transaction e m h = record {
    at = λ w.
        let body = m >>= λ a. statement (pure a) in
        settle-obeys e w (body w).0 (body w).1 (
          (Obeys-bind e m (λ a. statement (pure a)) h
              (λ a. Obeys-statement e (pure a) (Obeys-pure e a))).at
            w);
  }

module _ {R : World → World → Type 0} where
  pub Obeys-as_tenant :
      {A : Type 0}
      → Evolution R
      → (tenant : ℕ) (m : Action A) → Obeys R m
      → Obeys R (as_tenant tenant m)
  unfolding as_tenant
  Obeys-as_tenant e tenant m h = record {
    at = λ w.
        let u = record w { tenant = tenant } in
        let v = (m u).1 in
        e.go_on w u (record v { tenant = w.tenant }) (e.in_tenant w tenant)
          (e.go_on u v (record v { tenant = w.tenant }) (h.at u) (e.in_tenant v w.tenant));
  }

pub ruleset obeys_rules = (
  Obeys-pure, Obeys-fail, Obeys-throw, Obeys-gets, Obeys-emit, Obeys-if, Obeys-bind, Obeys-try,
  Obeys-statement, Obeys-transaction, Obeys-as_tenant,
)
