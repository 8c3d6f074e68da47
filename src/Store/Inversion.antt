-- ===== src/Store/Inversion.antt =====
-- What the success of an action says of its parts.
use etask.Base.{◌≡◌, refl, sym, ap, ◌∙◌, arith, Bool, true, false, List, [], ◌∷◌}
use etask.Errs.{Result, ok, err}
use etask.Store.Rows.{World}
use etask.Store.Action.{Action, pure, statement, transaction, ◌>>=◌, continue, round_trip, settle}

continue-ok :
    {A B : Type 0} (r : Result A) (f : A → Action B) (w : World) (b : B)
    → (continue r f w).0 ≡ ok b
    → (a : A) × (r ≡ ok a) × (continue r f w ≡ f a w)
continue-ok (ok a) f w b h = (a, refl, refl)
continue-ok (err x) f w b h = absurd (ground arith)

pub bind-ok :
    {A B : Type 0} (m : Action A) (f : A → Action B) (w : World) (b : B)
    → ((m >>= f) w).0 ≡ ok b
    → (a : A) × ((m w).0 ≡ ok a) × ((m >>= f) w ≡ f a (m w).1)
unfolding ◌>>=◌
bind-ok m f w b h = continue-ok (m w).0 f (m w).1 b h

round_trip-ok :
    {A : Type 0} (faults : List Bool) (act : Action A) (w : World) (a : A)
    → w.faults ≡ faults
    → (round_trip faults act w).0 ≡ ok a
    → (rest : List Bool) × (round_trip faults act w ≡ act (record w { faults = rest }))
round_trip-ok [] act w a e h = ([], rw (sym e) refl)
round_trip-ok (true ∷ faults) act w a e h = absurd (ground arith)
round_trip-ok (false ∷ faults) act w a e h = (faults, refl)

pub statement-ok :
    {A : Type 0} (act : Action A) (w : World) (a : A)
    → (statement act w).0 ≡ ok a
    → (rest : List Bool) × (statement act w ≡ act (record w { faults = rest }))
unfolding statement
statement-ok act w a h = round_trip-ok w.faults act w a refl h

settle-ok :
    {A : Type 0} (w : World) (r : Result A) (v : World) (a : A)
    → (settle w (r, v)).0 ≡ ok a
    → (r ≡ ok a) × (settle w (r, v) ≡ (ok a, v))
settle-ok w (ok b) v a h = (h, cc)
settle-ok w (err x) v a h = absurd (ground arith)

-- A transaction that succeeds is its body, and the COMMIT.
pub transaction-ok :
    {A : Type 0} (m : Action A) (w : World) (a : A)
    → (transaction m w).0 ≡ ok a
    → (rest : List Bool) × ((m w).0 ≡ ok a)
      × (transaction m w ≡ (ok a, record (m w).1 { faults = rest }))
unfolding transaction pure
transaction-ok {A = A} m w a h =
    let whole : Action A = m >>= λ b. statement (pure b) in
    let s = settle-ok w (whole w).0 (whole w).1 a h in
    let split = bind-ok m (λ b. statement (pure b)) w a s.0 in
    let reached : (statement (pure split.0) (m w).1).0 ≡ ok a = ap (λ r. r.0) (sym split.2) ∙ s.0 in
    let done = statement-ok (pure split.0) (m w).1 a reached in
    let returned : ok split.0 ≡ ok a = ap (λ r. r.0) (sym done.1) ∙ reached in
    let ends : (whole w).1 ≡ record (m w).1 { faults = done.0 } =
      ap (λ r. r.1) (split.2 ∙ done.1) in
    (done.0, split.1 ∙ returned, s.1 ∙ ap (λ v. (ok a, v)) ends)
