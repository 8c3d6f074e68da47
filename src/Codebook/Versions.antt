-- ===== src/Codebook/Versions.antt =====
-- internal/repository/dao/codebook.go: the versions of a file.
use etask.Base.{
  ℕ, suc, ◌+◌, String, Bool, true, false, not, ◌&&◌, ◌||◌, List, [], ◌∷◌, ◌++◌, Option, none, some,
  pos, ltb, ltb_ℤ, pos_part, ◌==◌, str_eq, if◌then◌else◌, first_where, keep_where, any_where,
  byte_count,
}
use etask.Errs.{ok, err, duplicate_key, codebook_version_conflict}
use etask.Domain.Codebook.{
  CodebookContentStorage, inline, Codebook, CodebookVersion, CodebookVersionCreate,
}
use etask.Domain.Codebook.Checks.{is_file, is_empty}
use etask.Store.{World}
use etask.Store.Action.{
  select, found, Action, pure, fail, throw, gets, statement, transaction, ◌>>=◌, ◌>>◌,
}
use etask.Codebook.Table.{
  get_node, update_node, update_versions, require_rows, readable_node, reads_version,
  writes_version, bump_project_source_revision,
}

-- `codebookAuthorUserID`
abbrev pub author_user_id : World → ℕ
author_user_id w = if ltb 0 w.library.user then w.library.user else 1

abbrev pub same_source_key : Option String → Option String → Bool
same_source_key (some a) (some b) = str_eq a b
same_source_key _ _ = false

-- uniq_codebook_version_no and uniq_codebook_version_source
abbrev versions_collide : CodebookVersion → CodebookVersion → Bool
versions_collide v other =
    (other.node_id == v.node_id && other.version_no == v.version_no)
    || (other.tenant_id == v.tenant_id && same_source_key other.source_key v.source_key)

abbrev pub insert_version_row : CodebookVersion → Action ℕ
insert_version_row v w =
    let i = w.library.next_code_version_id in
    let row = record v { id = i; tenant_id = w.tenant } in
    let versions = w.library.code_versions in
    if any_where (versions_collide row) versions then (err duplicate_key, w) else (
      ok i,
      record w {
        library = record w.library {
          code_versions = versions ++ (row ∷ []);
          next_code_version_id = suc i;
        };
      },
    )

-- tx.Create(&version)
unfoldable pub insert_version : CodebookVersion → Action ℕ
insert_version v = statement (insert_version_row v)

-- `version_no DESC, id DESC`
abbrev later_version : CodebookVersion → CodebookVersion → Bool
later_version a b =
    if ltb b.version_no a.version_no then true else b.version_no == a.version_no && ltb b.id a.id

abbrev latest_of : Option CodebookVersion → List CodebookVersion → Option CodebookVersion
latest_of best [] = best
latest_of none (v ∷ vs) = latest_of (some v) vs
latest_of (some best) (v ∷ vs) = latest_of (some (if later_version v best then v else best)) vs

abbrev pub version_of : ℕ → World → CodebookVersion → Bool
version_of node w v = reads_version w v && v.node_id == node

unfoldable pub latest_version : ℕ → Action (Option CodebookVersion)
latest_version node =
    select (λ w. latest_of none (keep_where (version_of node w) w.library.code_versions))

-- a version by its own id and that of its node
unfoldable pub find_version : ℕ → ℕ → Action (Option CodebookVersion)
find_version node version =
    select (λ w. first_where (λ v. version_of node w v && v.id == version) w.library.code_versions)

-- `GetVersionByID`
unfoldable pub get_version : ℕ → Action CodebookVersion
get_version i = do
  row ← select (λ w. first_where (λ v. reads_version w v && v.id == i) w.library.code_versions)
  throw (found row)

-- `GetCurrentVersion`
unfoldable pub get_current_version : ℕ → Action CodebookVersion
unfolding find_version latest_version
get_current_version i = do
  node ← get_node i
  row ←
      if ltb 0 node.current_version_id
      then find_version i node.current_version_id
      else latest_version i
  throw (found row)

abbrev pub text_plain : String
text_plain = "text/plain; charset=utf-8"

abbrev with_code : String → String → CodebookVersion → CodebookVersion
with_code hash code v = record v {
  code = code;
  storage_type = inline;
  object_key = "";
  size = byte_count code;
  content_type = text_plain;
  hash = hash;
}

-- `updateVersionCode`
unfoldable pub update_version_code : ℕ → ℕ → String → Action (Unit {0})
update_version_code version node code = do
  hash ← gets (λ w. w.library.hash_code code)
  update_versions (λ w v. writes_version w v && v.id == version && v.node_id == node)
      (with_code hash code)
  pure tt

-- the version that a new file begins with; one that is written later has no storage type yet
abbrev pub first_version : World → Codebook → String → CodebookContentStorage → CodebookVersion
first_version w c code storage = record {
  id = 0;
  node_id = c.id;
  tenant_id = w.tenant;
  scope = c.scope;
  version_no = 1;
  code = code;
  storage_type = storage;
  object_key = "";
  size = byte_count code;
  content_type = text_plain;
  hash = w.library.hash_code code;
  message = "";
  source_key = none;
  author_user_id = author_user_id w;
  ctime = w.now;
}

unfoldable pub begin_versions : CodebookVersion → ℕ → Action (Unit {0})
unfolding insert_version
begin_versions v node = do
  now ← gets (λ w. w.now)
  i ← insert_version v
  update_node node (λ c. record c { current_version_id = i; utime = now })
  pure tt

-- the insertion in `updateCurrentVersionCode` leaves the columns of the content to their defaults
abbrev defaulted : CodebookVersion → CodebookVersion
defaulted v = record v { storage_type = inline; size = 0; content_type = "text/plain" }

abbrev write_latest : Codebook → String → Option CodebookVersion → Action (Unit {0})
write_latest c code (some v) = update_version_code v.id c.id code
write_latest c code none = do
  v ← gets (λ w. defaulted (first_version w c code inline))
  begin_versions v c.id

unfoldable pub write_newest : Codebook → String → Action (Unit {0})
unfolding latest_version update_version_code begin_versions
write_newest c code = do newest ← latest_version c.id; write_latest c code newest

abbrev write_current : Codebook → String → Option CodebookVersion → Action (Unit {0})
write_current c code (some v) = update_version_code v.id c.id code
write_current c code none = write_newest c code

-- `updateCurrentVersionCode`
unfoldable pub update_current_version_code : Codebook → String → Action (Unit {0})
unfolding write_newest find_version update_version_code
update_current_version_code c code =
    if ltb 0 c.current_version_id
    then (do current ← find_version c.id c.current_version_id; write_current c code current)
    else write_newest c code

abbrev max_of : List CodebookVersion → ℕ
max_of [] = 0
max_of (v ∷ vs) = let m = max_of vs in if ltb m v.version_no then v.version_no else m

abbrev pub max_version_no : ℕ → World → ℕ
max_version_no node w = max_of (keep_where (version_of node w) w.library.code_versions)

-- `optionalString`
abbrev pub optional_string : String → Option String
optional_string s = if is_empty s then none else some s

abbrev next_version : World → Codebook → CodebookVersionCreate → ℕ → CodebookVersion
next_version w node v last = record (first_version w node v.code inline) {
  version_no = last + 1;
  message = v.message;
  source_key = optional_string v.source_key;
}

unfoldable pub find_by_source : ℕ → Option String → Action (Option CodebookVersion)
find_by_source node none = pure none
find_by_source node (some key) = select λ w.
    first_where (λ v. version_of node w v && same_source_key v.source_key (some key))
      w.library.code_versions

abbrev create_or_existing : CodebookVersionCreate → Codebook → Option CodebookVersion → Action ℕ
create_or_existing v node (some existing) = pure existing.id
create_or_existing v node none =
    if ltb_ℤ (pos 0) v.expected_current_version_id
      && not (node.current_version_id == pos_part v.expected_current_version_id)
    then fail codebook_version_conflict
    else (do
      last ← select (max_version_no v.node_id)
      row ← gets (λ w. next_version w node v last)
      insert_version row)

-- `CreateVersion`, with the conversion of internal/repository/codebook.go
unfoldable pub create_version : CodebookVersionCreate → Action ℕ
unfolding insert_version find_by_source
create_version v = transaction (do
  row ← select (λ w. first_where (λ c. readable_node v.node_id w c && is_file c) w.library.nodes)
  node ← throw (found row)
  existing ← find_by_source v.node_id (optional_string v.source_key)
  create_or_existing v node existing)

-- `UseVersion`
unfoldable pub use_version : ℕ → ℕ → Action ℕ
unfolding find_version
use_version i version = transaction (do
  node ← get_node i
  row ← find_version i version
  throw (found row)
  now ← gets (λ w. w.now)
  affected ← update_node i (λ c. record c { current_version_id = version; utime = now })
  require_rows affected
  bump_project_source_revision node.scope node.project_id
  pure affected)
