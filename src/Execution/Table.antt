-- ===== src/Execution/Table.antt =====
-- internal/repository/dao/task_execution.go: reading and inserting executions. A statement that
-- changes rows returns how many its WHERE clause met.
use etask.Base.{
  ltb, ◌||◌, ℕ, suc, String, Bool, true, false, not, ◌&&◌, [], ◌∷◌, ◌++◌, Option, none, some, ℤ,
  pos, ◌+ℤ◌, wrap_64, mul_64, ◌==◌, str_eq, if◌then◌else◌, first_where, keep_where, update_where,
  count_where, any_where,
}
use etask.Errs.{Result, ok, err, execution_not_found, override_consumed, duplicate_key}
use etask.Domain.Status.{ExecutionSource, source_task, source_codebook_preview, source_workflow}
use etask.Domain.Execution.{TaskExecution}
use etask.Store.{World}
use etask.Store.Action.{Action, pure, fail, throw, gets, statement, transaction, ◌>>=◌}

-- UPDATE task_executions SET … WHERE …
abbrev pub change_rows : (TaskExecution → Bool) → (TaskExecution → TaskExecution) → Action ℕ
change_rows p f w =
    (ok (count_where p w.executions), record w { executions = update_where p f w.executions })

unfoldable pub update_executions :
    (TaskExecution → Bool) → (TaskExecution → TaskExecution) → Action ℕ
update_executions p f = statement (change_rows p f)

-- A SELECT: what it reads, computed from the table and the time.
unfoldable pub select_executions : {A : Type 0} → (World → A) → Action A
select_executions f = statement (gets f)

abbrev pub has_id : ℕ → TaskExecution → Bool
has_id i e = e.id == i

unfoldable pub find_by_id : ℕ → Action (Option TaskExecution)
find_by_id i = select_executions (λ w. first_where (has_id i) w.executions)

unfoldable pub found_or : Result TaskExecution → Option TaskExecution → Result TaskExecution
found_or r none = r
found_or r (some e) = ok e

-- `GetByID`
unfoldable pub get_by_id : ℕ → Action TaskExecution
get_by_id i = do found ← find_by_id i; throw (found_or (err execution_not_found) found)

abbrev pub same_source : ExecutionSource → ExecutionSource → Bool
same_source source_task source_task = true
same_source source_codebook_preview source_codebook_preview = true
same_source source_workflow source_workflow = true
same_source _ _ = false

abbrev pub holds : Option String → String → Bool
holds none s = false
holds (some t) s = str_eq t s

abbrev pub requested : ExecutionSource → String → TaskExecution → Bool
requested source request e = same_source e.source source && holds e.request_id request

-- `FindByRequestID`
unfoldable pub find_by_request_id : ExecutionSource → String → Action (Option TaskExecution)
find_by_request_id source request =
    select_executions (λ w. first_where (requested source request) w.executions)

-- now + seconds * 1000, in int64
abbrev pub deadline_from : ℕ → TaskExecution → ℤ
deadline_from now e = wrap_64 (pos now +ℤ mul_64 e.max_execution_seconds (pos 1000))

-- uk_execution_request: NULL request ids never collide
abbrev pub requested_as : ExecutionSource → Option String → TaskExecution → Bool
requested_as source none e = false
requested_as source (some request) e = requested source request e

abbrev pub collides : TaskExecution → TaskExecution → Bool
collides e other = other.tenant_id == e.tenant_id && requested_as e.source e.request_id other

-- AUTO_INCREMENT, for a record that brings no id of its own
abbrev pub given_id : World → TaskExecution → ℕ
given_id w e = if e.id == 0 then w.next_execution_id else e.id

abbrev pub stamped : World → TaskExecution → TaskExecution
stamped w e = record e {
  snapshot = record e.snapshot { id = given_id w e; ctime = w.now };
  deadline = deadline_from w.now e;
  utime = w.now;
}

abbrev pub clashes : TaskExecution → TaskExecution → Bool
clashes row other = has_id row.id other || collides row other

-- INSERT: the primary key or the unique index may refuse the row; an id of the caller's moves the
-- counter past it.
abbrev pub insert_row : TaskExecution → Action TaskExecution
insert_row e w =
    let row = stamped w e in
    if any_where (clashes row) w.executions then (err duplicate_key, w) else (
      ok row,
      record w {
        executions = w.executions ++ (row ∷ []);
        next_execution_id =
            if ltb row.id w.next_execution_id then w.next_execution_id else suc row.id;
      },
    )

-- `Create`
unfoldable pub create : TaskExecution → Action TaskExecution
create e = statement (insert_row e)

abbrev pub delete_overrides : ℕ → Action ℕ
delete_overrides i w = (
  ok (count_where (λ o. o.0 == i) w.run_overrides),
  record w { run_overrides = keep_where (λ o. not (o.0 == i)) w.run_overrides },
)

-- `CreateAndConsumeOverride`
unfoldable pub create_and_consume_override : TaskExecution → ℕ → Action TaskExecution
create_and_consume_override e i = transaction (do
  row ← create e
  consumed ← statement (delete_overrides i)
  if consumed == 1 then pure row else fail override_consumed)
