-- ===== src/Store/Quiet.antt =====
-- Actions that leave the world as it was, but for the faults that they met.
use etask.Base.{◌≡◌, refl, ap, ◌∙◌, arith, Bool, true, false, List, [], ◌∷◌}
use etask.Errs.{Err, Result, ok, err}
use etask.Store.Rows.{World}
use etask.Store.Action.{
  Action, pure, fail, throw, gets, statement, transaction, ◌>>=◌, continue, round_trip, settle,
}

-- The action `m` changes nothing in the world `w`.
abbrev pub IsQuiet : {A : Type 0} → Action A → World → Type 0
IsQuiet m w = (rest : List Bool) × ((m w).1 ≡ record w { faults = rest })

pub IsQuiet-pure : {A : Type 0} (a : A) (w : World) → IsQuiet (pure a) w
unfolding pure
IsQuiet-pure a w = (w.faults, refl)

pub IsQuiet-fail : (A : Type 0) (x : Err) (w : World) → IsQuiet (fail {A = A} x) w
unfolding fail
IsQuiet-fail A x w = (w.faults, refl)

pub IsQuiet-throw : {A : Type 0} (r : Result A) (w : World) → IsQuiet (throw r) w
unfolding throw
IsQuiet-throw r w = (w.faults, refl)

pub IsQuiet-gets : {A : Type 0} (f : World → A) (w : World) → IsQuiet (gets f) w
unfolding gets
IsQuiet-gets f w = (w.faults, refl)

continue-IsQuiet :
    {A B : Type 0} (r : Result A) (f : A → Action B) (u w : World) (rest : List Bool)
    → w ≡ record u { faults = rest }
    → ((a : A) → r ≡ ok a → IsQuiet (f a) w)
    → (rest' : List Bool) × ((continue r f w).1 ≡ record u { faults = rest' })
continue-IsQuiet (ok a) f u w rest e h =
    let q = h a refl in (q.0, q.1 ∙ ap (λ (v : World). record v { faults = q.0 }) e)
continue-IsQuiet (err x) f u w rest e h = (rest, e)

pub IsQuiet-bind :
    {A B : Type 0} (m : Action A) (f : A → Action B) (w : World)
    → IsQuiet m w
    → ((a : A) → (m w).0 ≡ ok a → IsQuiet (f a) (m w).1)
    → IsQuiet (m >>= f) w
unfolding ◌>>=◌
IsQuiet-bind m f w q h = continue-IsQuiet (m w).0 f w (m w).1 q.0 q.1 h

round_trip-IsQuiet :
    {A : Type 0} (faults : List Bool) (act : Action A) (w : World)
    → ((rest : List Bool) → IsQuiet act (record w { faults = rest }))
    → IsQuiet (round_trip faults act) w
round_trip-IsQuiet [] act w h = h w.faults
round_trip-IsQuiet (true ∷ faults) act w h = (faults, refl)
round_trip-IsQuiet (false ∷ faults) act w h = h faults

pub IsQuiet-statement :
    {A : Type 0} (act : Action A) (w : World)
    → ((rest : List Bool) → IsQuiet act (record w { faults = rest }))
    → IsQuiet (statement act) w
unfolding statement
IsQuiet-statement act w h = round_trip-IsQuiet w.faults act w h

settle-IsQuiet :
    {A : Type 0} (w : World) (r : Result A) (v : World) (x : Err)
    → (settle w (r, v)).0 ≡ err x
    → (rest : List Bool) × ((settle w (r, v)).1 ≡ record w { faults = rest })
settle-IsQuiet w (ok a) v x h = absurd (ground arith)
settle-IsQuiet w (err y) v x h = (v.faults, refl)

-- A transaction that fails has changed nothing.
pub transaction-atomic :
    {A : Type 0} (m : Action A) (w : World) (x : Err)
    → (transaction m w).0 ≡ err x
    → IsQuiet (transaction m) w
unfolding transaction
transaction-atomic m w x h =
    let whole = m >>= λ a. statement (pure a) in settle-IsQuiet w (whole w).0 (whole w).1 x h
