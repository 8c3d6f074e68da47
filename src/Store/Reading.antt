-- ===== src/Store/Reading.antt =====
-- Actions that read, and then go on.
use etask.Base.{◌≡◌, sym, ap, ◌∙◌, Bool, List}
use etask.Errs.{ok}
use etask.Store.Rows.{World}
use etask.Store.Action.{Action, select, gets, ◌>>=◌}
use etask.Store.Inversion.{bind-ok, statement-ok}
use etask.Store.Quiet.{IsQuiet, IsQuiet-statement, IsQuiet-gets}

pub ok-same : {A : Type 0} (a b : A) → ok a ≡ ok b → a ≡ b
ok-same a b e = cc

pub IsQuiet-select : {A : Type 0} (f : World → A) (w : World) → IsQuiet (select f) w
unfolding select
IsQuiet-select f w = IsQuiet-statement (gets f) w (λ rest. IsQuiet-gets f _)

module _ {A B : Type 0} (w : World) (b : B) where
  -- What follows an action that changes nothing runs in the same world, with fewer faults ahead.
  pub quiet-then :
      (m : Action A) (k : A → Action B)
      → IsQuiet m w
      → ((m >>= k) w).0 ≡ ok b
      → (a : A) × (rest : List Bool) × ((m w).0 ≡ ok a)
        × ((m >>= k) w ≡ k a (record w { faults = rest }))
  quiet-then m k q h =
      let (a, first, then_rest) = bind-ok m k w b h in (a, q.0, first, then_rest ∙ ap (k a) q.1)

  -- A SELECT gives what it reads, and its reading does not see the faults.
  pub select-then :
      (f : World → A) (k : A → Action B)
      → ((rest : List Bool) → f (record w { faults = rest }) ≡ f w)
      → ((select f >>= k) w).0 ≡ ok b
      → (rest : List Bool) × ((select f >>= k) w ≡ k (f w) (record w { faults = rest }))
  unfolding select gets
  select-then f k blind h =
      let (a, first, then_rest) = bind-ok (select f) k w b h in
      let (rest, e) = statement-ok (gets f) w a first in
      let read : ok (f (record w { faults = rest })) ≡ ok a = ap (λ r. r.0) (sym e) ∙ first in
      let got : a ≡ f w = sym (ok-same _ _ read) ∙ blind rest in
      (rest, then_rest ∙ (λ i. k (got i) ((e i).1)))
