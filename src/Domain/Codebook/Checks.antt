-- ===== src/Domain/Codebook/Checks.antt =====
-- internal/domain/codebook.go: defaults, checks, and the place of a node below its parent.
use Prim.Native.Char.{code}
use etask.Base.{
  ℕ, zero, String, Bool, true, false, not, ◌&&◌, ◌||◌, List, [], ◌∷◌, ◌++◌, Option, none, some, ℤ,
  pos, ◌+ℤ◌, leb, ltb, ltb_ℤ, ◌==◌, str_eq, if◌then◌else◌, trim_space, rune_count, byte_count,
}
use etask.Errs.{Result, ok, err, invalid_parameter}
use etask.Domain.Codebook.{
  CodebookScope, no_scope, system_scope, tenant_scope, unknown_scope, CodebookKind, no_kind,
  directory, file, CodebookProjectStatus, no_status, normal, archived, CodebookProject, Codebook,
  CodebookVersionCreate, CodebookSortItem, CodebookWrite,
}

-- a check that fails ends the function
infixl 10 ◌>>=◌ ◌>>◌
abbrev pub ◌>>=◌ : {A B : Type 0} → Result A → (A → Result B) → Result B
r >>= next = elim r [ err e ↦ err e | ok a ↦ next a ]

abbrev pub ◌>>◌ : {B : Type 0} → Result (Unit {0}) → Result B → Result B
check >> next = elim check [ err e ↦ err e | ok _ ↦ next ]

abbrev pub require : Bool → Result (Unit {0})
require true = ok tt
require false = err invalid_parameter

abbrev pub is_system : CodebookScope → Bool
is_system system_scope = true
is_system _ = false

abbrev pub is_tenant : CodebookScope → Bool
is_tenant tenant_scope = true
is_tenant _ = false

-- `CodebookScope.Valid`
abbrev pub scope_valid : CodebookScope → Bool
scope_valid s = is_system s || is_tenant s

abbrev pub same_scope : CodebookScope → CodebookScope → Bool
same_scope no_scope no_scope = true
same_scope system_scope system_scope = true
same_scope tenant_scope tenant_scope = true
same_scope (unknown_scope s) (unknown_scope t) = str_eq s t
same_scope _ _ = false

-- `ValidateWriteAccess`
unfoldable pub validate_write_access : CodebookScope → ℕ → ℕ → Result (Unit {0})
validate_write_access s tenant system_tenant = do
  require (scope_valid s)
  require (not (tenant == 0))
  require (not (is_system s && not (tenant == system_tenant)))

abbrev pub is_directory_kind : CodebookKind → Bool
is_directory_kind directory = true
is_directory_kind _ = false

abbrev pub is_file_kind : CodebookKind → Bool
is_file_kind file = true
is_file_kind _ = false

-- `IsDirectory`
abbrev pub is_directory : Codebook → Bool
is_directory c = is_directory_kind c.kind

-- `IsFile`
abbrev pub is_file : Codebook → Bool
is_file c = is_file_kind c.kind

-- `CodebookKind.Valid`
abbrev pub kind_valid : CodebookKind → Bool
kind_valid k = is_directory_kind k || is_file_kind k

abbrev pub or_tenant : CodebookScope → CodebookScope
or_tenant no_scope = tenant_scope
or_tenant s = s

abbrev pub or_normal : CodebookProjectStatus → CodebookProjectStatus
or_normal no_status = normal
or_normal s = s

abbrev pub or_file : CodebookKind → CodebookKind
or_file no_kind = file
or_file k = k

-- `CodebookProject.FillDefaults`
unfoldable pub project_defaults : CodebookProject → CodebookProject
project_defaults p = record p {
  scope = or_tenant p.scope;
  status = or_normal p.status;
  name = trim_space p.name;
  desc = trim_space p.desc;
  artifact_namespace = trim_space p.artifact_namespace;
}

abbrev pub is_empty : String → Bool
is_empty s = str_eq s ""

abbrev lower_letter : ℕ → Bool
lower_letter c = leb b'a' c && leb c b'z'

abbrev namespace_rest : String → Bool
namespace_rest String.[] = true
namespace_rest (String.◌∷◌ c s) =
    let n = code c in
    (lower_letter n || (leb b'0' n && leb n b'9') || n == b'_') && namespace_rest s

-- artifactNamespacePattern, ^[a-z][a-z0-9_]*$
unfoldable pub namespace_matches : String → Bool
namespace_matches String.[] = false
namespace_matches (String.◌∷◌ c s) = lower_letter (code c) && namespace_rest s

-- `CodebookProject.Validate`: the project with its defaults
unfoldable pub validate_project : CodebookProject → Result CodebookProject
validate_project q = do
  let p = project_defaults q
  require (scope_valid p.scope)
  require (not (is_system p.scope))
  require (not (is_empty p.name))
  require (not (p.artifact_enabled && is_empty p.artifact_namespace))
  require (is_empty p.artifact_namespace || namespace_matches p.artifact_namespace)
  require (not (str_eq p.artifact_namespace "etask"))
  ok p

abbrev pub is_archived : CodebookProjectStatus → Bool
is_archived archived = true
is_archived _ = false

abbrev pub is_normal : CodebookProjectStatus → Bool
is_normal normal = true
is_normal _ = false

-- `ValidateWritable`
unfoldable pub validate_writable : CodebookProject → Result (Unit {0})
validate_writable p = require (not (is_archived p.status))

abbrev or_old_sort : ℤ → ℤ → ℤ
or_old_sort (pos zero) old = old
or_old_sort z old = z

-- `CodebookProject.MergeForUpdate`
unfoldable pub merge_project : CodebookProject → CodebookProject → CodebookProject
merge_project p old = record p {
  tenant_id = old.tenant_id;
  scope = old.scope;
  status = old.status;
  sort_no = or_old_sort p.sort_no old.sort_no;
}

-- `Codebook.FillDefaults`
unfoldable pub node_defaults : Codebook → Codebook
node_defaults c = record c {
  scope = or_tenant c.scope;
  kind = or_file c.kind;
  name = trim_space c.name;
  owner = trim_space c.owner;
}

abbrev bad_rune : ℕ → Bool
bad_rune c = c == b'/' || c == 92 || c == 0

abbrev has_bad_rune : String → Bool
has_bad_rune String.[] = false
has_bad_rune (String.◌∷◌ c s) = bad_rune (code c) || has_bad_rune s

-- `NormalizeCodebookName`
unfoldable pub normalize_name : String → Result String
normalize_name value = do
  let name = trim_space value
  require (not (is_empty name))
  require
      (not (str_eq name "." || str_eq name ".." || ltb 128 (rune_count name) || has_bad_rune name))
  ok name

-- `Codebook.Validate`: the node with its defaults
unfoldable pub validate_node : CodebookWrite → Result CodebookWrite
validate_node req = do
  let c = node_defaults req.node
  require (scope_valid c.scope)
  require (not (is_system c.scope && not (c.project_id == 0)))
  require (not (is_tenant c.scope && c.project_id == 0))
  require (kind_valid c.kind)
  name ← normalize_name c.name
  require (not (is_directory c && not (is_empty req.code)))
  require (not (is_directory c && not (is_empty c.secret)))
  ok (record req { node = record c { name = name } })

abbrev or_old : String → String → String
or_old s old = if is_empty s then old else s

abbrev or_zero : ℕ → ℕ → ℕ
or_zero n old = if n == 0 then old else n

abbrev pub or_old_scope : CodebookScope → CodebookScope → CodebookScope
or_old_scope no_scope old = old
or_old_scope s old = s

abbrev or_old_kind : CodebookKind → CodebookKind → CodebookKind
or_old_kind no_kind old = old
or_old_kind k old = k

-- `Codebook.MergeForUpdate`: what the request leaves empty stays
unfoldable pub merge_node : CodebookWrite → CodebookWrite → CodebookWrite
merge_node req old =
    let c = req.node in
    let o = old.node in
    record {
      node = record c {
        tenant_id = or_zero c.tenant_id o.tenant_id;
        scope = or_old_scope c.scope o.scope;
        kind = or_old_kind c.kind o.kind;
        name = or_old c.name o.name;
        owner = or_old c.owner o.owner;
        secret = or_old c.secret o.secret;
        sort_no = or_old_sort c.sort_no o.sort_no;
        project_id = or_zero c.project_id o.project_id;
      };
      code = or_old req.code old.code;
    }

-- `ApplyRoot`
unfoldable pub apply_root : Codebook → Codebook
apply_root c = record c { parent_id = 0; path_ids = []; depth = pos 0 }

-- `ChildPathIDs`
unfoldable pub child_path_ids : Codebook → List ℕ
child_path_ids c = c.path_ids ++ (c.id ∷ [])

-- what a node inherits where it says nothing itself
abbrev pub inherited : Codebook → Codebook → Codebook
inherited c parent = record c {
  scope = or_old_scope c.scope parent.scope;
  project_id = or_zero c.project_id parent.project_id;
  tenant_id = or_zero c.tenant_id parent.tenant_id;
}

-- `ApplyParent`
unfoldable pub apply_parent : Codebook → Codebook → Result Codebook
apply_parent node parent = do
  let c = inherited node parent
  require (is_directory parent)
  require (same_scope c.scope parent.scope)
  require (c.project_id == parent.project_id)
  require (c.tenant_id == parent.tenant_id)
  ok (record c {
    parent_id = parent.id;
    path_ids = child_path_ids parent;
    depth = parent.depth +ℤ pos 1;
  })

-- strings.HasPrefix, on paths
unfoldable pub has_prefix : List ℕ → List ℕ → Bool
has_prefix path [] = true
has_prefix [] (i ∷ prefix) = false
has_prefix (j ∷ path) (i ∷ prefix) = j == i && has_prefix path prefix

-- `ToSortItem`
unfoldable pub to_sort_item : Codebook → CodebookSortItem
to_sort_item c = record {
  id = c.id;
  project_id = c.project_id;
  parent_id = c.parent_id;
  path_ids = c.path_ids;
  depth = c.depth;
  sort_no = c.sort_no;
}

abbrev pub at_root : Codebook → CodebookSortItem
at_root c = record (to_sort_item c) { parent_id = 0; path_ids = []; depth = pos 0 }

abbrev pub below : Codebook → Codebook → CodebookSortItem
below c parent = record (to_sort_item c) {
  parent_id = parent.id;
  path_ids = child_path_ids parent;
  depth = parent.depth +ℤ pos 1;
}

-- `ResolveMoveTarget`
unfoldable pub resolve_move_target : Codebook → Option Codebook → Result CodebookSortItem
unfolding to_sort_item
resolve_move_target c none = ok (at_root c)
resolve_move_target c (some parent) = do
  require (not (parent.id == c.id))
  require (is_directory parent)
  require (same_scope parent.scope c.scope)
  require (parent.project_id == c.project_id)
  require (parent.tenant_id == c.tenant_id)
  require (not (has_prefix parent.path_ids (child_path_ids c)))
  ok (below c parent)

-- `PrepareForNode`
unfoldable pub prepare_for_node : CodebookVersionCreate → Codebook → Result CodebookVersionCreate
prepare_for_node v node = do
  require (not (v.node_id == 0))
  require (is_file node)
  require (not (ltb_ℤ v.expected_current_version_id (pos 0)))
  let source_key = trim_space v.source_key
  require (not (ltb 128 (byte_count source_key)))
  ok (record v { message = trim_space v.message; source_key = source_key })
