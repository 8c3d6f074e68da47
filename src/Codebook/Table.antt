-- ===== src/Codebook/Table.antt =====
-- internal/repository/dao/codebook.go: reading nodes and versions, and the statements that write
-- them. A statement meets the rows that the tenant may read or write; an UPDATE or an INSERT that
-- would give two nodes of one directory the same name is refused.
use etask.Base.{
  order_by, ℕ, suc, Bool, true, false, not, ◌&&◌, ◌||◌, List, [], ◌∷◌, Option, none, some, ℤ, pos,
  ltb, leb_ℤ, ltb_ℤ, ◌==◌, if◌then◌else◌, first_where, keep_where, update_where, count_where,
  any_where,
}
use etask.Errs.{Result, ok, err, record_not_found, duplicate_key, codebook_name_conflict}
use etask.Domain.Codebook.{
  CodebookScope, CodebookKind, directory, Codebook, CodebookVersion, CodebookProject,
}
use etask.Domain.Codebook.Checks.{same_scope, is_tenant, is_file, require}
use etask.Store.{World}
use etask.Store.Action.{select, found, Action, pure, fail, throw, gets, statement, ◌>>=◌, ◌>>◌}

abbrev pub reads_node : World → Codebook → Bool
reads_node w c = w.library.may_read w.tenant c.tenant_id c.scope

abbrev pub writes_node : World → Codebook → Bool
writes_node w c = w.library.may_write w.tenant c.tenant_id c.scope

abbrev pub reads_version : World → CodebookVersion → Bool
reads_version w v = w.library.may_read w.tenant v.tenant_id v.scope

abbrev pub writes_version : World → CodebookVersion → Bool
writes_version w v = w.library.may_write w.tenant v.tenant_id v.scope

abbrev pub readable_node : ℕ → World → Codebook → Bool
readable_node i w c = reads_node w c && c.id == i

abbrev pub writable_node : ℕ → World → Codebook → Bool
writable_node i w c = writes_node w c && c.id == i

-- `GetByID`
unfoldable pub get_node : ℕ → Action Codebook
get_node i = do
  row ← select (λ w. first_where (readable_node i w) w.library.nodes)
  throw (found row)

abbrev kind_rank : CodebookKind → ℕ
kind_rank directory = 0
kind_rank _ = 1

-- sort_no ASC, kind ASC, name ASC, id ASC
abbrev pub child_before : World → Codebook → Codebook → Bool
child_before w a b =
    let by_id = ltb a.id b.id in
    let by_name =
      if w.library.name_before a.name b.name
      then true
      else if w.library.name_before b.name a.name
      then false
      else by_id in
    let by_kind =
      if ltb (kind_rank a.kind) (kind_rank b.kind)
      then true
      else if ltb (kind_rank b.kind) (kind_rank a.kind)
      then false
      else by_name in
    if ltb_ℤ a.sort_no b.sort_no then true else if ltb_ℤ b.sort_no a.sort_no then false else by_kind

abbrev pub is_child : ℕ → ℕ → Codebook → Bool
is_child project parent c = c.project_id == project && c.parent_id == parent

-- `ListChildren`
unfoldable pub list_children : ℕ → ℕ → Action (List Codebook)
list_children project parent = select λ w.
    order_by (child_before w)
      (keep_where (λ c. reads_node w c && is_child project parent c) w.library.nodes)

abbrev pub is_child_in : ℕ → ℕ → CodebookScope → Codebook → Bool
is_child_in project parent scope c = is_child project parent c && same_scope c.scope scope

-- `ListChildrenBySpace`
unfoldable pub list_children_by_space : ℕ → ℕ → CodebookScope → Action (List Codebook)
list_children_by_space project parent scope = select λ w.
    order_by (child_before w)
      (keep_where (λ c. reads_node w c && is_child_in project parent scope c) w.library.nodes)

abbrev pub names_version : Codebook → Bool
names_version c = is_file c && not (c.current_version_id == 0)

-- `fillCurrentVersionNo`: one more SELECT where a file names its version; what it fills in are
-- fields for the pages, which the model leaves out
unfoldable pub fill_current_version_no : List Codebook → Action (List Codebook)
fill_current_version_no cs =
    if any_where names_version cs
    then (select (λ w. w.library.code_versions) >> pure cs)
    else pure cs

abbrev pub in_its_project : CodebookScope → Codebook → Action ℕ
in_its_project scope parent =
    throw (require (same_scope parent.scope scope)) >> pure parent.project_id

unfoldable pub parent_project : ℕ → ℕ → CodebookScope → Action ℕ
parent_project project parent scope =
    if parent == 0 then pure project else (get_node parent >>= in_its_project scope)

-- `ListChildrenByScope` of the repository: below a directory, the project is the directory's
unfoldable pub list_children_by_scope : ℕ → ℕ → CodebookScope → Action (List Codebook)
unfolding parent_project fill_current_version_no
list_children_by_scope project parent scope = do
  its_project ← parent_project project parent scope
  cs ← list_children_by_space its_project parent scope
  fill_current_version_no cs

abbrev max_ℤ : ℤ → ℤ → ℤ
max_ℤ a b = if leb_ℤ a b then b else a

-- MAX(sort_no), from the first row on; COALESCE gives 0 for no rows
abbrev max_sort_from : Option ℤ → List ℤ → Option ℤ
max_sort_from m [] = m
max_sort_from none (k ∷ ks) = max_sort_from (some k) ks
max_sort_from (some m) (k ∷ ks) = max_sort_from (some (max_ℤ m k)) ks

abbrev pub max_sort : List ℤ → ℤ
max_sort ks = elim (max_sort_from none ks) [ none ↦ pos 0 | some m ↦ m ]

abbrev pub sort_nos : List Codebook → List ℤ
sort_nos [] = []
sort_nos (c ∷ cs) = c.sort_no ∷ sort_nos cs

-- `GetMaxSortNo`
unfoldable pub get_max_sort_no : ℕ → ℕ → CodebookScope → Action ℤ
get_max_sort_no project parent scope = select λ w. max_sort (
    sort_nos
      (keep_where (λ c. reads_node w c && is_child_in project parent scope c) w.library.nodes))

-- uniq_codebook_space_parent_name
abbrev pub names_collide : World → Codebook → Codebook → Bool
names_collide w c other =
    other.tenant_id == c.tenant_id
    && is_child_in c.project_id c.parent_id c.scope other
    && w.library.same_name other.name c.name

abbrev pub put_nodes : List Codebook → World → World
put_nodes nodes w = record w { library = record w.library { nodes = nodes } }

-- UPDATE codebook SET … WHERE id = …
abbrev pub change_node : ℕ → (Codebook → Codebook) → Action ℕ
change_node i f w =
    let p = writable_node i w in
    let nodes = w.library.nodes in
    let refused =
      any_where (λ c. p c && any_where (λ o. not (o.id == c.id) && names_collide w (f c) o) nodes)
        nodes in
    if refused
    then (err duplicate_key, w)
    else (ok (count_where p nodes), put_nodes (update_where p f nodes) w)

unfoldable pub update_node : ℕ → (Codebook → Codebook) → Action ℕ
update_node i f = statement (change_node i f)

-- RowsAffected == 0 is ErrRecordNotFound
unfoldable pub require_rows : ℕ → Action (Unit {0})
require_rows n = if n == 0 then fail record_not_found else pure tt

abbrev put_versions : List CodebookVersion → World → World
put_versions versions w = record w { library = record w.library { code_versions = versions } }

abbrev pub change_versions :
    (World → CodebookVersion → Bool) → (CodebookVersion → CodebookVersion) → Action ℕ
change_versions p f w =
    let versions = w.library.code_versions in
    (ok (count_where (p w) versions), put_versions (update_where (p w) f versions) w)

unfoldable pub update_versions :
    (World → CodebookVersion → Bool) → (CodebookVersion → CodebookVersion) → Action ℕ
update_versions p f = statement (change_versions p f)

abbrev bumped_revision : ℕ → CodebookProject → CodebookProject
bumped_revision now p = record p { source_revision = suc p.source_revision; utime = now }

abbrev pub project_is : ℕ → World → CodebookProject → Bool
project_is i w p = w.scope_of w.tenant p.tenant_id && p.id == i

abbrev put_projects : List CodebookProject → World → World
put_projects projects w = record w { library = record w.library { projects = projects } }

abbrev pub change_projects :
    (World → CodebookProject → Bool) → (CodebookProject → CodebookProject) → Action ℕ
change_projects p f w =
    let projects = w.library.projects in
    (ok (count_where (p w) projects), put_projects (update_where (p w) f projects) w)

unfoldable pub update_projects :
    (World → CodebookProject → Bool) → (CodebookProject → CodebookProject) → Action ℕ
update_projects p f = statement (change_projects p f)

-- `bumpProjectSourceRevision`
unfoldable pub bump_project_source_revision : CodebookScope → ℕ → Action (Unit {0})
bump_project_source_revision scope project =
    if not (is_tenant scope) || project == 0 then pure tt else (do
      now ← gets (λ w. w.now)
      update_projects (project_is project) (bumped_revision now)
      pure tt)

-- `codebookWriteError`
unfoldable pub write_error : {A : Type 0} → Result A → Result A
write_error (err duplicate_key) = err codebook_name_conflict
write_error r = r
