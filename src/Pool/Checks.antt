-- ===== src/Pool/Checks.antt =====
-- The checks before a binding change nothing.
use etask.Base.{
  String, ◌≡◌, refl, sym, ap, ◌∙◌, arith, Bool, true, false, not, ◌&&◌, List, [], ltb, ◌==◌, str_eq,
  if◌then◌else◌, length, trim_space, Option, none, some,
}
use etask.Errs.{ok, Result, err, record_not_found}
use etask.Domain.Pool.{ExecutionPool}
use etask.Store.{World}
use etask.Store.Pools.{HandlerMetadata}
use etask.Store.Action.{Action, pure, fail, try, found, ◌>>=◌, ◌>>◌, continue}
use etask.Store.Inversion.{bind-ok}
use etask.Store.Quiet.{
  IsQuiet, IsQuiet-bind, IsQuiet-throw, IsQuiet-pure, IsQuiet-fail, IsQuiet-gets,
}
use etask.Store.Reading.{IsQuiet-select}
use etask.Pool.Tables.{
  find_pool, find_mq_by_topic, find_pool_by_name, by_topic_unless_found, list_by_pool,
}
use etask.Pool.Binding.{
  require, contains, binding_names, normalize_binding_handlers, parsed, parse_handler_metadata,
  validate_pool_handlers, ensure_binding_creatable,
}
use etask.Pool.Created.{find_pool_by_name-IsQuiet}

IsQuiet-require : (b : Bool) (w : World) → IsQuiet (require b) w
IsQuiet-require true w = IsQuiet-pure tt w
IsQuiet-require false w = IsQuiet-fail _ _ w

IsQuiet-parsed : (o : Option (List HandlerMetadata)) (w : World) → IsQuiet (parsed o) w
IsQuiet-parsed none w = IsQuiet-fail _ _ w
IsQuiet-parsed (some hs) w = IsQuiet-pure hs w

IsQuiet-if :
    {A : Type 0} (b : Bool) (m n : Action A) (w : World)
    → IsQuiet m w
    → IsQuiet n w
    → IsQuiet (if b then m else n) w
IsQuiet-if true m n w hm hn = hm
IsQuiet-if false m n w hm hn = hn

parse_handler_metadata-IsQuiet :
    (p : ExecutionPool) (w : World) → IsQuiet (parse_handler_metadata p) w
unfolding parse_handler_metadata
parse_handler_metadata-IsQuiet p w =
    IsQuiet-if (str_eq (trim_space p.supported_handlers) "") _ _ w (IsQuiet-pure [] w)
      (IsQuiet-bind _ _ w (IsQuiet-gets _ w) (λ o _. IsQuiet-parsed o _))

pub validate_pool_handlers-IsQuiet :
    (p : ExecutionPool) (names : List String) (w : World)
    → IsQuiet (validate_pool_handlers p names) w
unfolding validate_pool_handlers
validate_pool_handlers-IsQuiet p names w =
    IsQuiet-bind _ _ w (parse_handler_metadata-IsQuiet p w) (λ hs _. IsQuiet-require _ _)

pub ensure_binding_creatable-IsQuiet :
    (pool : String) (names : List String) (w : World)
    → IsQuiet (ensure_binding_creatable pool names) w
unfolding ensure_binding_creatable list_by_pool
ensure_binding_creatable-IsQuiet pool names w =
    IsQuiet-bind _ _ w (IsQuiet-select _ w) (λ bs _. IsQuiet-require _ _)

pub require-then :
    {B : Type 0} (t : Bool) (n : Action B) (w : World) (b : B)
    → ((require t >> n) w).0 ≡ ok b
    → (t ≡ true) × ((require t >> n) w ≡ n w)
unfolding ◌>>=◌ pure fail
require-then true n w b h = (refl, refl)
require-then false n w b h = absurd (ground arith)

named : (t : Bool) → not t ≡ true → t ≡ false
named true h = sym h
named false h = refl

by_topic-IsQuiet :
    (name : String) (r : Result ExecutionPool) (w : World)
    → IsQuiet (by_topic_unless_found name r) w
unfolding find_mq_by_topic
by_topic-IsQuiet name (ok p) w = IsQuiet-pure p w
by_topic-IsQuiet name (err record_not_found) w =
    IsQuiet-bind _ _ w (IsQuiet-select _ w) (λ o _. IsQuiet-throw (found o) _)
by_topic-IsQuiet name (err _) w = IsQuiet-fail _ _ w

normalize-ok :
    (names : List String) (w : World) (a : List String)
    → (normalize_binding_handlers names w).0 ≡ ok a
    → ((length names == 0) ≡ false)
      × (normalize_binding_handlers names w ≡ (ok (binding_names names), w))
unfolding normalize_binding_handlers pure
normalize-ok names w a h =
    let bound = binding_names names in
    let mixed = not (ltb 1 (length bound) && contains "" bound) in
    let (some_name, at) = require-then _ (require mixed >> pure bound) w a h in
    let (unmixed, at2) = require-then mixed (pure bound) w a (ap (λ r. r.0) (sym at) ∙ h) in
    (named (length names == 0) some_name, at ∙ at2)

-- What follows the normalization has names, and has them normalized.
pub normalize-then :
    {B : Type 0} (names : List String) (k : List String → Action B) (w : World) (b : B)
    → ((normalize_binding_handlers names >>= k) w).0 ≡ ok b
    → ((length names == 0) ≡ false)
      × ((normalize_binding_handlers names >>= k) w ≡ k (binding_names names) w)
unfolding ◌>>=◌
normalize-then names k w b h =
    let (a, first, then_rest) = bind-ok (normalize_binding_handlers names) k w b h in
    let (some_name, at) = normalize-ok names w a first in
    (some_name, ap (λ r. continue r.0 k r.1) at)

pub find_pool-IsQuiet : (name : String) (w : World) → IsQuiet (find_pool name) w
unfolding find_pool try
find_pool-IsQuiet name w =
    IsQuiet-bind (try (find_pool_by_name name)) (by_topic_unless_found name) w
      (find_pool_by_name-IsQuiet name w) (λ r _. by_topic-IsQuiet name r _)
