-- ===== src/Codebook/Sorting.antt =====
-- internal/repository/dao/codebook.go: moving nodes, with all that lies below them. The set of
-- projects whose revision goes up is a list without repetitions; Go walks over it in any order.
use etask.Base.{
  ℕ, Bool, true, false, not, ◌&&◌, ◌||◌, List, [], ◌∷◌, ◌++◌, ℤ, sub_ℤ, ◌+ℤ◌, ◌==◌, if◌then◌else◌,
  keep_where, any_where, drop, length,
}
use etask.Domain.Codebook.{Codebook, CodebookSortItem, tenant_scope}
use etask.Domain.Codebook.Checks.{is_tenant, is_directory, has_prefix}
use etask.Store.Action.{select, Action, pure, throw, try, gets, transaction, ◌>>=◌, ◌>>◌}
use etask.Codebook.Table.{
  get_node, update_node, require_rows, reads_node, bump_project_source_revision, write_error,
}

abbrev pub same_path : List ℕ → List ℕ → Bool
same_path [] [] = true
same_path (i ∷ is) (j ∷ js) = i == j && same_path is js
same_path _ _ = false

abbrev pub moved : CodebookSortItem → ℕ → Codebook → Codebook
moved item now c = record c {
  parent_id = item.parent_id;
  project_id = item.project_id;
  path_ids = item.path_ids;
  depth = item.depth;
  sort_no = item.sort_no;
  utime = now;
}

-- strings.Replace(path, old, new, 1), of a path that begins with `old`
abbrev pub replace_prefix : List ℕ → List ℕ → List ℕ → List ℕ
replace_prefix old new path = new ++ drop (length old) path

-- the row of a descendant, from what was read of it before
abbrev pub carried : List ℕ → List ℕ → ℤ → ℕ → Codebook → Codebook → Codebook
carried old new delta now d c = record c {
  path_ids = replace_prefix old new d.path_ids;
  depth = d.depth +ℤ delta;
  utime = now;
}

unfoldable pub carry_all : List ℕ → List ℕ → ℤ → ℕ → List Codebook → Action (Unit {0})
carry_all old new delta now [] = pure tt
carry_all old new delta now (d ∷ ds) = do
  update_node d.id (carried old new delta now d)
  carry_all old new delta now ds

abbrev add_project : ℕ → List ℕ → List ℕ
add_project i is = if any_where (λ j. j == i) is then is else i ∷ is

abbrev pub touched : Codebook → CodebookSortItem → List ℕ → List ℕ
touched old item projects =
    if is_tenant old.scope
    then add_project item.project_id (add_project old.project_id projects)
    else projects

unfoldable pub carry_descendants : Codebook → CodebookSortItem → ℕ → Action (Unit {0})
unfolding carry_all
carry_descendants old item now =
    let old_prefix = old.path_ids ++ (old.id ∷ []) in
    let new_prefix = item.path_ids ++ (item.id ∷ []) in
    do
      descendants ← select (λ w.
          keep_where (λ c. reads_node w c && has_prefix c.path_ids old_prefix) w.library.nodes)
      carry_all old_prefix new_prefix (sub_ℤ item.depth old.depth) now descendants

unfoldable pub carry_if_moved : Codebook → CodebookSortItem → ℕ → Action (Unit {0})
unfolding carry_descendants
carry_if_moved old item now =
    if not (is_directory old) || same_path old.path_ids item.path_ids
    then pure tt
    else carry_descendants old item now

-- the writes of `updateSortInTx`
unfoldable pub write_sort : CodebookSortItem → ℕ → Codebook → Action (Unit {0})
unfolding carry_if_moved
write_sort item now old = do
  affected ← update_node item.id (moved item now)
  require_rows affected
  carry_if_moved old item now

-- `updateSortInTx`: the projects that it touches
unfoldable pub update_sort_in_tx : CodebookSortItem → List ℕ → Action (List ℕ)
unfolding write_sort
update_sort_in_tx item projects = do
  now ← gets (λ w. w.now)
  old ← get_node item.id
  write_sort item now old
  pure (touched old item projects)

-- `bumpProjectSourceRevisions`
unfoldable pub bump_project_source_revisions : List ℕ → Action (Unit {0})
bump_project_source_revisions [] = pure tt
bump_project_source_revisions (p ∷ ps) = do
  bump_project_source_revision tenant_scope p
  bump_project_source_revisions ps

-- `UpdateSort`
unfoldable pub update_sort : CodebookSortItem → Action (Unit {0})
unfolding update_sort_in_tx bump_project_source_revisions
update_sort item = do
  r ← try (
      transaction (do projects ← update_sort_in_tx item []; bump_project_source_revisions projects))
  throw (write_error r)

unfoldable pub sort_each : List CodebookSortItem → List ℕ → Action (List ℕ)
unfolding update_sort_in_tx
sort_each [] projects = pure projects
sort_each (item ∷ items) projects = do
  touched ← update_sort_in_tx item projects
  sort_each items touched

-- `BatchUpdateSort`
unfoldable pub batch_update_sort : List CodebookSortItem → Action (Unit {0})
unfolding sort_each bump_project_source_revisions
batch_update_sort [] = pure tt
batch_update_sort (item ∷ items) = do
  r ← try (
      transaction
        (do projects ← sort_each (item ∷ items) []; bump_project_source_revisions projects))
  throw (write_error r)
