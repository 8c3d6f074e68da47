-- ===== src/Codebook/Projects.antt =====
-- Projects: internal/repository/dao/codebook.go, internal/service/codebook/codebook.go. An empty
-- namespace is NULL in the table.
use etask.Base.{
  ℕ, suc, String, Bool, not, ◌&&◌, ◌||◌, List, [], ◌∷◌, ◌++◌, ℤ, pos, ◌+ℤ◌, wrap_64, leb_ℤ, ◌==◌,
  str_eq, if◌then◌else◌, first_where, keep_where, count_where, update_where, any_where,
}
use etask.Errs.{ok, err, duplicate_key, invalid_parameter}
use etask.Domain.Codebook.{CodebookProject, CodebookProjectStatus, normal, archived, tenant_scope}
use etask.Domain.Codebook.Checks.{
  is_empty, is_normal, is_archived, or_tenant, or_normal, require, validate_project,
  validate_writable, merge_project,
}
use etask.Sorter.{default_index_gap}
use etask.Store.{World}
use etask.Store.Action.{select, found, Action, pure, fail, throw, gets, statement, ◌>>=◌, ◌>>◌}
use etask.Codebook.Table.{project_is, update_projects, max_sort}

-- uniq_codebook_project_tenant_name and uniq_codebook_project_tenant_namespace
abbrev pub projects_collide : World → CodebookProject → CodebookProject → Bool
projects_collide w p other =
    other.tenant_id == p.tenant_id
    && (w.library.same_name other.name p.name
        || (not (is_empty p.artifact_namespace)
            && not (is_empty other.artifact_namespace)
            && w.library.same_name other.artifact_namespace p.artifact_namespace))

abbrev stored_project : World → CodebookProject → CodebookProject
stored_project w p = record p {
  id = w.library.next_project_id;
  tenant_id = w.tenant;
  scope = or_tenant p.scope;
  status = or_normal p.status;
  ctime = w.now;
  utime = w.now;
}

abbrev insert_project_row : CodebookProject → Action ℕ
insert_project_row p w =
    let row = stored_project w p in
    let projects = w.library.projects in
    if any_where (projects_collide w row) projects then (err duplicate_key, w) else (
      ok row.id,
      record w {
        library = record w.library {
          projects = projects ++ (row ∷ []);
          next_project_id = suc w.library.next_project_id;
        };
      },
    )

-- `Create`
unfoldable pub insert_project : CodebookProject → Action ℕ
insert_project p = statement (insert_project_row p)

-- `GetByID`
unfoldable pub get_project : ℕ → Action CodebookProject
get_project i = do
  row ← select (λ w. first_where (project_is i w) w.library.projects)
  throw (found row)

abbrev in_scope : World → CodebookProject → Bool
in_scope w p = w.scope_of w.tenant p.tenant_id

-- `ArtifactNamespaceExists`
unfoldable pub artifact_namespace_exists : String → ℕ → Action Bool
artifact_namespace_exists namespace exclude = select λ w. not (
    count_where
      (λ p.
        in_scope w p
        && not (is_empty p.artifact_namespace)
        && w.library.same_name p.artifact_namespace namespace
        && (exclude == 0 || not (p.id == exclude)))
      w.library.projects
    == 0)

abbrev project_sort_nos : List CodebookProject → List ℤ
project_sort_nos [] = []
project_sort_nos (p ∷ ps) = p.sort_no ∷ project_sort_nos ps

-- `GetMaxSortNo`
unfoldable pub get_project_max_sort_no : Action ℤ
get_project_max_sort_no = select λ w.
    max_sort
      (project_sort_nos (keep_where (λ p. in_scope w p && is_normal p.status) w.library.projects))

abbrev rewritten_project : CodebookProject → ℕ → CodebookProject → CodebookProject
rewritten_project p now old = record old {
  name = p.name;
  desc = p.desc;
  sort_no = p.sort_no;
  artifact_enabled = p.artifact_enabled;
  artifact_namespace = p.artifact_namespace;
  utime = now;
}

abbrev change_project : CodebookProject → Action ℕ
change_project p w =
    let hit = project_is p.id w in
    let f = rewritten_project p w.now in
    let projects = w.library.projects in
    let refused =
      any_where
        (λ c. hit c && any_where (λ o. not (o.id == c.id) && projects_collide w (f c) o) projects)
        projects in
    if refused then (err duplicate_key, w) else (
      ok (count_where hit projects),
      record w { library = record w.library { projects = update_where hit f projects } },
    )

-- `Update`
unfoldable pub update_project_row : CodebookProject → Action ℕ
update_project_row p = statement (change_project p)

abbrev pub with_status : CodebookProjectStatus → ℕ → CodebookProject → CodebookProject
with_status status now p = record p { status = status; utime = now }

-- `Archive`
unfoldable pub archive : ℕ → Action ℕ
archive i = do
  now ← gets (λ w. w.now)
  update_projects (λ w p. project_is i w p && is_normal p.status) (with_status archived now)

-- `Restore`
unfoldable pub restore : ℕ → Action ℕ
restore i = do
  now ← gets (λ w. w.now)
  update_projects (λ w p. project_is i w p && is_archived p.status) (with_status normal now)

-- `validateArtifactNamespace`
unfoldable pub validate_artifact_namespace : String → ℕ → Action (Unit {0})
validate_artifact_namespace namespace exclude = if is_empty namespace then pure tt else (do
  exists ← artifact_namespace_exists namespace exclude
  if exists then fail invalid_parameter else pure tt)

abbrev pub sort_no_or_next : ℤ → Action ℤ → Action ℤ
sort_no_or_next sort_no max =
    if leb_ℤ sort_no (pos 0)
    then (do last ← max; pure (wrap_64 (last +ℤ default_index_gap)))
    else pure sort_no

-- `CreateProject`
unfoldable pub create_project : CodebookProject → Action ℕ
create_project req = do
  tenant ← gets (λ w. w.tenant)
  throw (require (not (tenant == 0)))
  p ← throw (validate_project (record req { scope = tenant_scope }))
  validate_artifact_namespace p.artifact_namespace 0
  sort_no ← sort_no_or_next p.sort_no get_project_max_sort_no
  insert_project (record p { sort_no = sort_no })

abbrev kept_namespace : CodebookProject → CodebookProject → CodebookProject
kept_namespace req old = record req {
  artifact_namespace =
      if is_empty req.artifact_namespace then old.artifact_namespace else req.artifact_namespace;
}

-- `UpdateProject`
unfoldable pub update_project : CodebookProject → Action ℕ
update_project req = do
  throw (require (not (req.id == 0)))
  old ← get_project req.id
  throw (validate_writable old)
  throw (
      require (
        is_empty old.artifact_namespace
        || is_empty req.artifact_namespace
        || str_eq req.artifact_namespace old.artifact_namespace))
  p ← throw (validate_project (merge_project (kept_namespace req old) old))
  validate_artifact_namespace p.artifact_namespace p.id
  update_project_row p

-- `ArchiveProject`
unfoldable pub archive_project : ℕ → Action ℕ
archive_project i = do throw (require (not (i == 0))); archive i

-- `RestoreProject`
unfoldable pub restore_project : ℕ → Action ℕ
restore_project i = do throw (require (not (i == 0))); restore i

-- `validateProjectWrite`
unfoldable pub validate_project_write : ℕ → Action (Unit {0})
validate_project_write i = do project ← get_project i; throw (validate_writable project)
