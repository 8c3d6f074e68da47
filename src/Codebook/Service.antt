-- ===== src/Codebook/Service.antt =====
-- internal/service/codebook/codebook.go, with the conversions of internal/repository/codebook.go.
use etask.Base.{
  ℕ, suc, String, Bool, true, not, ◌&&◌, ◌||◌, map, Option, none, some, ℤ, pos, mul_64, ◌==◌,
  str_eq, if◌then◌else◌,
}
use etask.Errs.{ok, nil_dereference}
use etask.Domain.Codebook.{
  CodebookScope, no_scope, CodebookKind, no_kind, Codebook, CodebookSortItem, CodebookVersionCreate,
  CodebookWrite,
}
use etask.Domain.Codebook.Checks.{
  is_tenant, is_file, is_empty, same_scope, require, validate_write_access, validate_node,
  merge_node, apply_root, apply_parent, node_defaults, normalize_name, prepare_for_node,
  resolve_move_target, to_sort_item, is_file_kind, is_directory_kind,
}
use etask.Sorter.{
  Sortable, Sorter, ReorderPlan, move_to, rebalance, default_index_gap, plan_reorder,
}
use etask.Store.Action.{Action, pure, fail, throw, gets, ◌>>=◌, ◌>>◌}
use etask.Codebook.Table.{get_node, get_max_sort_no, list_children_by_scope}
use etask.Codebook.Versions.{get_current_version, create_version, use_version}
use etask.Codebook.Writing.{create_node, update_codebook, rename, delete_node}
use etask.Codebook.Sorting.{update_sort, batch_update_sort}
use etask.Codebook.Projects.{validate_project_write, sort_no_or_next}

-- `validateCodebookWriteScope`
unfoldable pub validate_write_scope : CodebookScope → Action (Unit {0})
validate_write_scope scope = do
  tenant ← gets (λ w. w.tenant)
  system ← gets (λ w. w.library.system_tenant)
  throw (validate_write_access scope tenant system)

-- the check that a project of a tenant is not archived
unfoldable pub validate_owner : Codebook → Action (Unit {0})
validate_owner node =
    if is_tenant node.scope then validate_project_write node.project_id else pure tt

-- `inheritParentContext`
unfoldable pub inherit_parent_context : Codebook → Action Codebook
inherit_parent_context c =
    if c.parent_id == 0
    then pure c
    else (do parent ← get_node c.parent_id; throw (apply_parent c parent))

-- `preparePath`
unfoldable pub prepare_path : Codebook → Action Codebook
prepare_path c =
    if c.parent_id == 0
    then pure (apply_root c)
    else (do parent ← get_node c.parent_id; throw (apply_parent c parent))

unfoldable pub fresh_secret : Action String
fresh_secret w = (
  ok (w.library.uuid w.library.next_uuid),
  record w { library = record w.library { next_uuid = suc w.library.next_uuid } },
)

-- `toEntity`: a file without a secret gets one
unfoldable pub to_entity : Codebook → Action Codebook
unfolding fresh_secret
to_entity req =
    let c = node_defaults req in
    if is_empty c.secret && is_file c
    then (do secret ← fresh_secret; pure (record c { secret = secret }))
    else pure c

-- the repository's `Create`
unfoldable pub save_node : CodebookWrite → Action ℕ
unfolding prepare_path to_entity
save_node req = do
  placed ← prepare_path (node_defaults req.node)
  entity ← to_entity placed
  create_node entity req.code

-- `Create`
unfoldable pub create_codebook : CodebookWrite → Action ℕ
unfolding inherit_parent_context save_node
create_codebook asked = do
  placed ← inherit_parent_context asked.node
  req ← throw (validate_node (record asked { node = placed }))
  validate_write_scope req.node.scope
  validate_owner req.node
  sort_no ←
      sort_no_or_next req.node.sort_no
        (get_max_sort_no req.node.project_id req.node.parent_id req.node.scope)
  save_node (record req { node = record req.node { sort_no = sort_no } })

-- `fillCode`, as far as the code goes
unfoldable pub fill_code : Codebook → Action CodebookWrite
fill_code c =
    if not (is_file c) || c.current_version_id == 0
    then pure (record { node = c; code = "" })
    else (do version ← get_current_version c.id; pure (record { node = c; code = version.code }))

-- the repository's `GetByID`
unfoldable pub get_with_code : ℕ → Action CodebookWrite
unfolding fill_code
get_with_code i = do c ← get_node i; fill_code c

-- the repository's `Update`
unfoldable pub save_update : CodebookWrite → Action ℕ
unfolding to_entity
save_update req = do
  old ← get_node req.node.id
  entity ← to_entity req.node
  update_codebook
      (record entity {
        project_id = old.project_id;
        parent_id = old.parent_id;
        path_ids = old.path_ids;
        depth = old.depth;
        kind = old.kind;
        secret = old.secret;
        current_version_id = old.current_version_id;
      })
      req.code

abbrev keeps_scope : CodebookScope → CodebookScope → Bool
keeps_scope no_scope old = true
keeps_scope s old = same_scope s old

abbrev same_kind : CodebookKind → CodebookKind → Bool
same_kind no_kind old = true
same_kind k old =
    (is_file_kind k && is_file_kind old) || (is_directory_kind k && is_directory_kind old)

abbrev in_place : CodebookWrite → Codebook → CodebookWrite
in_place req old = record req {
  node = record req.node {
    project_id = old.project_id;
    parent_id = old.parent_id;
    path_ids = old.path_ids;
    depth = old.depth;
    kind = old.kind;
  };
}

-- `Update`
unfoldable pub update : CodebookWrite → Action ℕ
unfolding get_with_code save_update
update asked = do
  throw (require (not (asked.node.id == 0)))
  old ← get_with_code asked.node.id
  validate_owner old.node
  throw (require (keeps_scope asked.node.scope old.node.scope))
  throw (require (asked.node.project_id == 0 || asked.node.project_id == old.node.project_id))
  throw (require (same_kind asked.node.kind old.node.kind))
  req ← throw (validate_node (in_place (merge_node asked old) old.node))
  validate_write_scope req.node.scope
  save_update req

-- `Rename`
unfoldable pub rename_node : ℕ → String → Action ℕ
rename_node i asked = do
  throw (require (not (i == 0)))
  name ← throw (normalize_name asked)
  node ← get_node i
  validate_owner node
  validate_write_scope node.scope
  if str_eq node.name name then pure 0 else rename i name

-- `CreateVersion`
unfoldable pub add_version : CodebookVersionCreate → Action ℕ
add_version asked = do
  throw (require (not (asked.node_id == 0)))
  node ← get_node asked.node_id
  req ← throw (prepare_for_node asked node)
  validate_write_scope node.scope
  validate_owner node
  create_version req

-- `UseVersion`
unfoldable pub choose_version : ℕ → ℕ → Action ℕ
choose_version i version = do
  throw (require (not (i == 0)))
  throw (require (not (version == 0)))
  node ← get_node i
  validate_write_scope node.scope
  validate_owner node
  use_version i version

-- `Delete`
unfoldable pub delete : ℕ → Action ℕ
delete i = do
  throw (require (not (i == 0)))
  node ← get_node i
  validate_write_scope node.scope
  validate_owner node
  result ← delete_node i
  pure result.0

-- `resolveTarget`
unfoldable pub resolve_target : Codebook → ℕ → Action CodebookSortItem
resolve_target dragged parent_id =
    if parent_id == 0
    then throw (resolve_move_target dragged none)
    else (do parent ← get_node parent_id; throw (resolve_move_target dragged (some parent)))

instance abbrev pub item_sortable : Sortable CodebookSortItem
item_sortable = record { get_id = λ i. i.id; get_sort_key = λ i. i.sort_no }

-- the sorter of `NewService`
abbrev pub node_sorter : Sorter CodebookSortItem CodebookSortItem
node_sorter = record {
  index_gap = default_index_gap;
  convert = λ item i. record item { sort_no = mul_64 (pos (suc i)) default_index_gap };
}

abbrev pub into_target : Codebook → CodebookSortItem → CodebookSortItem → CodebookSortItem
into_target dragged target item = record item {
  parent_id = target.parent_id;
  project_id = dragged.project_id;
  path_ids = target.path_ids;
  depth = target.depth;
}

abbrev pub apply_plan :
    Codebook → CodebookSortItem → Option (ReorderPlan CodebookSortItem) → Action (Unit {0})
apply_plan dragged target none = fail nil_dereference
apply_plan dragged target (some (rebalance items)) =
    batch_update_sort (map (into_target dragged target) items)
apply_plan dragged target (some (move_to key)) = update_sort (record target { sort_no = key })

-- `Sort`: an index out of range would be a panic
unfoldable pub sort : ℕ → ℕ → ℤ → Action (Unit {0})
unfolding resolve_target update_sort batch_update_sort
sort i parent_id position = do
  throw (require (not (i == 0)))
  dragged ← get_node i
  validate_write_scope dragged.scope
  validate_owner dragged
  target ← resolve_target dragged parent_id
  children ← list_children_by_scope dragged.project_id target.parent_id dragged.scope
  apply_plan dragged target (plan_reorder node_sorter (map to_sort_item children) target position)
