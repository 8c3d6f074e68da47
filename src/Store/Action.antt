-- ===== src/Store/Action.antt =====
-- Actions: a state-passing monad with errors. What was written before an error stays written,
-- unless a transaction rolls it back.
use etask.Base.{Option, none, some, ℕ, Bool, true, false, List, [], ◌∷◌, ◌++◌}
use etask.Errs.{Err, Result, ok, err, db_failure, record_not_found}
use etask.Store.Rows.{World, Output}

abbrev pub Action : Type 0 → Type 0
Action A = World → Result A × World

unfoldable pub pure : {A : Type 0} → A → Action A
pure a w = (ok a, w)

unfoldable pub fail : {A : Type 0} → Err → Action A
fail e w = (err e, w)

abbrev pub continue : {A B : Type 0} → Result A → (A → Action B) → Action B
continue (ok a) f w = f a w
continue (err e) f w = (err e, w)

infixl 10 ◌>>=◌ ◌>>◌
-- Opening this opens `pure` and `fail` too.
unfoldable pub ◌>>=◌ : {A B : Type 0} → Action A → (A → Action B) → Action B
unfolding pure fail
◌>>=◌ m f w = let (r, w') = m w in continue r f w'

abbrev pub ◌>>◌ : {A B : Type 0} → Action A → Action B → Action B
m >> n = m >>= λ _. n

-- `if err != nil`, with both ways out: the result as a value.
unfoldable pub try : {A : Type 0} → Action A → Action (Result A)
try m w = let (r, w') = m w in (ok r, w')

unfoldable pub throw : {A : Type 0} → Result A → Action A
throw r w = (r, w)

-- One round trip to the database or the broker: it fails and does nothing, or it acts.
abbrev pub round_trip : {A : Type 0} → List Bool → Action A → Action A
round_trip [] act w = act w
round_trip (true ∷ faults) act w = (err db_failure, record w { faults = faults })
round_trip (false ∷ faults) act w = act (record w { faults = faults })

unfoldable pub statement : {A : Type 0} → Action A → Action A
statement act w = round_trip w.faults act w

unfoldable pub emit : Output → Action (Unit {0})
emit o w = (ok tt, record w { outputs = w.outputs ++ (o ∷ []) })

unfoldable pub gets : {A : Type 0} → (World → A) → Action A
gets f w = (ok (f w), w)

abbrev pub roll_back : World → World → World
roll_back w w' = record w { faults = w'.faults }

abbrev pub settle : {A : Type 0} → World → Result A × World → Result A × World
settle w (ok a, w') = (ok a, w')
settle w (err e, w') = (err e, roll_back w w')

-- db.Transaction(func): an error of the body or of the COMMIT undoes every write of the body.
unfoldable pub transaction : {A : Type 0} → Action A → Action A
unfolding ◌>>=◌ statement
transaction body w = settle w ((body >>= λ a. statement (pure a)) w)

abbrev back_to : ℕ → {A : Type 0} → Result A × World → Result A × World
back_to tenant (r, w) = (r, record w { tenant = tenant })

-- a call under `ctxutil.WithTenantID`
unfoldable pub as_tenant : {A : Type 0} → ℕ → Action A → Action A
as_tenant tenant m w = back_to w.tenant (m (record w { tenant = tenant }))

-- a SELECT
unfoldable pub select : {A : Type 0} → (World → A) → Action A
select f = statement (gets f)

-- First, which wants a row
unfoldable pub found : {A : Type 0} → Option A → Result A
found none = err record_not_found
found (some a) = ok a
