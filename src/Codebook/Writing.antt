-- ===== src/Codebook/Writing.antt =====
-- internal/repository/dao/codebook.go: creating, changing and deleting nodes.
use etask.Base.{
  ℕ, suc, String, Bool, true, false, not, ◌&&◌, ◌||◌, List, [], ◌∷◌, ◌++◌, ◌==◌, str_eq,
  if◌then◌else◌, keep_where, count_where, any_where, trim_space,
}
use etask.Errs.{ok, err, record_not_found, duplicate_key}
use etask.Domain.Codebook.{CodebookContentStorage, inline, blob, Codebook, CodebookVersion}
use etask.Domain.Codebook.Checks.{is_file, is_empty, has_prefix}
use etask.Store.{World}
use etask.Store.Action.{
  select, Action, pure, fail, throw, try, gets, statement, transaction, ◌>>=◌, ◌>>◌,
}
use etask.Codebook.Table.{
  get_node, update_node, require_rows, reads_node, writes_node, writes_version, reads_version,
  names_collide, bump_project_source_revision, write_error,
}
use etask.Codebook.Versions.{first_version, begin_versions, update_current_version_code}

-- the row that an INSERT stores: the table gives the id, the tenant plugin the tenant
abbrev pub stored : World → Codebook → Codebook
stored w c = record c {
  id = w.library.next_node_id;
  tenant_id = w.tenant;
  ctime = w.now;
  utime = w.now;
}

abbrev pub insert_node_row : Codebook → Action Codebook
insert_node_row c w =
    let row = stored w c in
    let nodes = w.library.nodes in
    if any_where (names_collide w row) nodes then (err duplicate_key, w) else (
      ok row,
      record w {
        library = record w.library {
          nodes = nodes ++ (row ∷ []);
          next_node_id = suc w.library.next_node_id;
        };
      },
    )

unfoldable pub insert_node : Codebook → Action Codebook
insert_node c = statement (insert_node_row c)

unfoldable pub insert_first_version : Codebook → String → Action (Unit {0})
insert_first_version c code = do
  v ← gets (λ w. first_version w c code inline)
  begin_versions v c.id

-- `Create`
unfoldable pub create_node : Codebook → String → Action ℕ
unfolding insert_node insert_first_version
create_node c code = do
  r ← try (
      transaction (do
        row ← insert_node c
        if is_file row then insert_first_version row code else pure tt
        bump_project_source_revision row.scope row.project_id
        pure row.id))
  throw (write_error r)

abbrev pub rewritten : Codebook → ℕ → Codebook → Codebook
rewritten c now old = record old {
  name = c.name;
  owner = c.owner;
  secret = c.secret;
  scope = c.scope;
  sort_no = c.sort_no;
  utime = now;
}

-- `Update`
unfoldable pub update_codebook : Codebook → String → Action ℕ
update_codebook c code = do
  r ← try (
      transaction (do
        now ← gets (λ w. w.now)
        affected ← update_node c.id (rewritten c now)
        require_rows affected
        if not (is_file c) || is_empty (trim_space code)
            then pure tt
            else (update_current_version_code c code)
        bump_project_source_revision c.scope c.project_id
        pure affected))
  throw (write_error r)

abbrev pub renamed : String → ℕ → Codebook → Codebook
renamed name now c = record c { name = name; utime = now }

-- `renameCodebookNode`
unfoldable pub rename_codebook_node : ℕ → String → Action (Unit {0})
rename_codebook_node i name = do
  now ← gets (λ w. w.now)
  affected ← update_node i (renamed name now)
  require_rows affected

-- `Rename`: how many rows were changed
unfoldable pub rename : ℕ → String → Action ℕ
unfolding rename_codebook_node
rename i name = do
  r ← try (
      transaction (do
        node ← get_node i
        if str_eq node.name name then pure 0 else (do
          rename_codebook_node i name
          bump_project_source_revision node.scope node.project_id
          pure 1)))
  throw (write_error r)

abbrev pub in_subtree : Codebook → Codebook → Bool
in_subtree top c =
    c.id == top.id
    || (c.project_id == top.project_id && has_prefix c.path_ids (top.path_ids ++ (top.id ∷ [])))

abbrev pub is_one_of : List Codebook → ℕ → Bool
is_one_of cs i = any_where (λ (c : Codebook). c.id == i) cs

abbrev is_blob : CodebookContentStorage → Bool
is_blob blob = true
is_blob _ = false

abbrev add_key : String → List String → List String
add_key key keys = if any_where (λ k. str_eq k key) keys then keys else key ∷ keys

-- DISTINCT object_key
abbrev object_keys_of : List CodebookVersion → List String
object_keys_of [] = []
object_keys_of (v ∷ vs) = add_key v.object_key (object_keys_of vs)

abbrev pub object_keys : List Codebook → World → List String
object_keys doomed w = object_keys_of (
    keep_where
      (λ v.
        reads_version w v
        && is_one_of doomed v.node_id
        && is_blob v.storage_type
        && not (is_empty v.object_key))
      w.library.code_versions)

abbrev pub doomed_version : List Codebook → World → CodebookVersion → Bool
doomed_version doomed w v = writes_version w v && is_one_of doomed v.node_id

abbrev delete_versions : List Codebook → Action (Unit {0})
delete_versions doomed w = (
  ok tt,
  record w {
    library = record w.library {
      code_versions = keep_where (λ v. not (doomed_version doomed w v)) w.library.code_versions;
    };
  },
)

abbrev pub doomed_node : List Codebook → World → Codebook → Bool
doomed_node doomed w c = writes_node w c && is_one_of doomed c.id

abbrev delete_nodes : List Codebook → Action ℕ
delete_nodes doomed w = (
  ok (count_where (doomed_node doomed w) w.library.nodes),
  record w {
    library = record w.library {
      nodes = keep_where (λ c. not (doomed_node doomed w c)) w.library.nodes;
    };
  },
)

abbrev finds_none : List Codebook → Bool
finds_none [] = true
finds_none (c ∷ cs) = false

-- `Delete`: the number of nodes, and the contents that are left in the blob store
unfoldable pub delete_node : ℕ → Action (ℕ × List String)
delete_node i = transaction (do
  node ← get_node i
  doomed ← select (λ w. keep_where (λ c. reads_node w c && in_subtree node c) w.library.nodes)
  if finds_none doomed then fail record_not_found else pure tt
  keys ← select (object_keys doomed)
  statement (delete_versions doomed)
  count ← statement (delete_nodes doomed)
  bump_project_source_revision node.scope node.project_id
  pure (count, keys))
