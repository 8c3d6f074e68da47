-- ===== src/Examples/Pools.antt =====
-- Execution pools at concrete inputs.
use etask.Base.{
  Bool, String, str_eq, ◌||◌, ◌&&◌, true, ◌≡◌, refl, sym, subst, inl, inr, List, [], ◌∷◌, some,
  Member, trim_space,
}
use etask.Errs.{ok}
use etask.Domain.Pool.{
  ExecutionPoolBinding, ExecutionPoolIsolation, shared, dedicated, binding_enabled,
  normalize_handler_name,
}
use etask.Store.{World}
use etask.Store.Action.{◌>>=◌, try, select, statement, gets, throw, found, pure, fail, transaction}
use etask.Pool.Tables.{
  find_pool, find_pool_by_name, list_by_pool, create_dedicated_batch, create_unless_occupied,
  insert_bindings,
}
use etask.Pool.Matcher.{allow, new_binding_matcher, add_binding}
use etask.Pool.Binding.{
  BindingManyRequest, bind_many, is_allowed, normalize_binding_handlers, validate_pool_handlers,
  parse_handler_metadata, ensure_binding_creatable, create_for,
}
use etask.Pool.Allowed.{IsBound}
use etask.Pool.Answers.{is_allowed-allow}
use etask.Pool.Created.{rows_of, Alone}
use etask.Pool.Binds.{IsEnabledFor}
use etask.Pool.Bound.{bind_many-binds, bind_many-Alone}
use etask.Examples.Sample.{idle, a_pool}

abbrev job_binding : ExecutionPoolBinding
job_binding = record {
  id = 1;
  tenant_id = 1;
  pool_name = "pool";
  handler_name = "job";
  status = binding_enabled;
  desc = "";
  ctime = 1;
  utime = 1;
}

abbrev with_pool : ExecutionPoolIsolation → List ExecutionPoolBinding → World
with_pool isolation bindings = record idle {
  pool_tables = record {
    parse_handlers = λ s. some [];
    next_pool_id = 2;
    pools = a_pool "pool" isolation ∷ [];
    next_binding_id = 2;
    bindings = bindings;
  };
}

-- a collation that ignores case, on the names here
abbrev ignores_case : String → String → Bool
ignores_case a b =
    str_eq a b || (str_eq a "JOB" && str_eq b "job") || (str_eq a "job" && str_eq b "JOB")

abbrev bound_world : World
bound_world =
    let w = with_pool shared (job_binding ∷ []) in
    record w { library = record w.library { same_name = ignores_case } }

abbrev only_if : (b : ExecutionPoolBinding) → Member b (job_binding ∷ []) → b ≡ job_binding
only_if b (inl e) = e
only_if b (inr m) = elim m [ ]

bound_world-IsBound : IsBound bound_world "pool" "job"
unfolding normalize_handler_name trim_space
bound_world-IsBound = record {
  one_row = refl;
  one_wildcard = refl;
  named = λ b m _.
      subst (λ (c : ExecutionPoolBinding). normalize_handler_name c.handler_name ≡ c.handler_name)
        (sym (only_if b m)) refl;
  pool_text = λ b m _.
      subst
        (λ (c : ExecutionPoolBinding). ignores_case c.pool_name "pool" ≡ str_eq c.pool_name "pool")
        (sym (only_if b m)) refl;
  handler_text = λ b m _.
      subst
        (λ (c : ExecutionPoolBinding).
          ignores_case c.handler_name "job" ≡ str_eq c.handler_name "job")
        (sym (only_if b m)) refl;
  wildcard_text = λ b m _.
      subst
        (λ (c : ExecutionPoolBinding). ignores_case c.handler_name "" ≡ str_eq c.handler_name "")
        (sym (only_if b m)) refl;
}

is_allowed-allow_example : (is_allowed " pool" "job " bound_world).0 ≡ ok true
unfolding trim_space find_pool ◌>>=◌ try find_pool_by_name select statement gets throw found allow
    new_binding_matcher add_binding normalize_handler_name
is_allowed-allow_example =
    is_allowed-allow bound_world refl " pool" "job " (a_pool "pool" shared) bound_world-IsBound refl
      refl

abbrev two_jobs : BindingManyRequest
two_jobs = record { pool_name = "pool"; handler_names = "job " ∷ "sweep" ∷ "job" ∷ []; desc = "" }

abbrev empty_dedicated : World
empty_dedicated = with_pool dedicated []

pool_there : (find_pool "pool" empty_dedicated).0 ≡ ok (a_pool "pool" dedicated)
unfolding trim_space find_pool find_pool_by_name ◌>>=◌ try select statement gets throw found pure
    fail
pool_there = refl

jobs_bound : (bind_many two_jobs empty_dedicated).0 ≡ ok tt
unfolding trim_space find_pool find_pool_by_name ◌>>=◌ try select statement gets throw found pure
    fail bind_many normalize_handler_name normalize_binding_handlers validate_pool_handlers
    parse_handler_metadata ensure_binding_creatable list_by_pool create_for create_dedicated_batch
    create_unless_occupied insert_bindings transaction
jobs_bound = refl

bind_many-binds_example :
    (b : ExecutionPoolBinding) × Member b (rows_of (bind_many two_jobs empty_dedicated).1)
    × IsEnabledFor 1 "pool" "sweep" b
unfolding trim_space normalize_handler_name
bind_many-binds_example =
    bind_many-binds two_jobs empty_dedicated (a_pool "pool" dedicated) "sweep" pool_there jobs_bound
      (inr (inl refl))

bind_many-Alone_example :
    Alone empty_dedicated "pool" 1 (rows_of (bind_many two_jobs empty_dedicated).1)
    × ((b : ExecutionPoolBinding)
        → Member b []
        → Member b (rows_of (bind_many two_jobs empty_dedicated).1))
unfolding trim_space
bind_many-Alone_example =
    bind_many-Alone two_jobs empty_dedicated (a_pool "pool" dedicated) pool_there refl jobs_bound
