-- ===== src/Examples/Code.antt =====
-- Source code at concrete inputs: a project with a directory, a directory in it, and a file in that.
use etask.Base.{
  ℕ, String, subst, sym, ap, ◌∙◌, length, Member, false, ◌≡◌, refl, inl, inr, arith, List, [], ◌∷◌,
  map, ℤ, pos,
}
use etask.Domain.Codebook.{
  Codebook, CodebookKind, CodebookProject, CodebookSortItem, directory, file, tenant_scope, normal,
}
use etask.Domain.Codebook.Checks.{to_sort_item}
use etask.Store.{World}
use etask.Codebook.Service.{sort, item_sortable}
use etask.Codebook.Tree.{IsTree, Placed}
use etask.Codebook.Tree.Sorts.{sort-IsTree}
use etask.Examples.Sample.{idle, no_code}

abbrev a_node : ℕ → CodebookKind → String → ℕ → List ℕ → ℤ → ℤ → Codebook
a_node i kind name parent path depth sort_no = record {
  id = i;
  tenant_id = 1;
  scope = tenant_scope;
  project_id = 4;
  parent_id = parent;
  path_ids = path;
  depth = depth;
  name = name;
  owner = "";
  kind = kind;
  sort_no = sort_no;
  secret = "";
  current_version_id = 0;
  ctime = 1;
  utime = 1;
}

abbrev lib_directory : Codebook
lib_directory = a_node 1 directory "lib" 0 [] (pos 0) (pos 1000)

abbrev util_directory : Codebook
util_directory = a_node 2 directory "util" 1 (1 ∷ []) (pos 1) (pos 1000)

abbrev main_file : Codebook
main_file = a_node 3 file "main.py" 2 (1 ∷ 2 ∷ []) (pos 2) (pos 1000)

abbrev a_project : CodebookProject
a_project = record {
  id = 4;
  tenant_id = 1;
  scope = tenant_scope;
  name = "tools";
  desc = "";
  sort_no = pos 1000;
  status = normal;
  artifact_enabled = false;
  artifact_namespace = "";
  source_revision = 0;
  ctime = 1;
  utime = 1;
}

abbrev coded : World
coded = record idle {
  library = record no_code {
    nodes = lib_directory ∷ util_directory ∷ main_file ∷ [];
    next_node_id = 5;
    projects = a_project ∷ [];
    next_project_id = 5;
  };
}

coded-Placed : (n : Codebook) → Member n coded.library.nodes → Placed coded.library.nodes n
coded-Placed n (inl e) = subst (Placed coded.library.nodes) (sym e) (inl (refl, refl))
coded-Placed n (inr (inl e)) = subst (Placed coded.library.nodes) (sym e) (
    inr (
      lib_directory,
      inl refl,
      record {
        holds_nodes = refl;
        named = refl;
        path = refl;
        scope = refl;
        project = refl;
        tenant = refl;
      },
    ))
coded-Placed n (inr (inr (inl e))) = subst (Placed coded.library.nodes) (sym e) (
    inr (
      util_directory,
      inr (inl refl),
      record {
        holds_nodes = refl;
        named = refl;
        path = refl;
        scope = refl;
        project = refl;
        tenant = refl;
      },
    ))
coded-Placed n (inr (inr (inr m))) = elim m [ ]

coded_unique :
    (a b : Codebook)
    → Member a coded.library.nodes
    → Member b coded.library.nodes
    → a.id ≡ b.id
    → a ≡ b
coded_unique a b (inl p) (inl q) e = p ∙ sym q
coded_unique a b (inl p) (inr (inl q)) e = absurd (
    let z = sym (ap (λ (n : Codebook). n.id) p) ∙ e ∙ ap (λ (n : Codebook). n.id) q in ground arith)
coded_unique a b (inl p) (inr (inr (inl q))) e = absurd (
    let z = sym (ap (λ (n : Codebook). n.id) p) ∙ e ∙ ap (λ (n : Codebook). n.id) q in ground arith)
coded_unique a b (inl p) (inr (inr (inr m))) e = elim m [ ]
coded_unique a b (inr (inl p)) (inl q) e = absurd (
    let z = sym (ap (λ (n : Codebook). n.id) p) ∙ e ∙ ap (λ (n : Codebook). n.id) q in ground arith)
coded_unique a b (inr (inl p)) (inr (inl q)) e = p ∙ sym q
coded_unique a b (inr (inl p)) (inr (inr (inl q))) e = absurd (
    let z = sym (ap (λ (n : Codebook). n.id) p) ∙ e ∙ ap (λ (n : Codebook). n.id) q in ground arith)
coded_unique a b (inr (inl p)) (inr (inr (inr m))) e = elim m [ ]
coded_unique a b (inr (inr (inl p))) (inl q) e = absurd (
    let z = sym (ap (λ (n : Codebook). n.id) p) ∙ e ∙ ap (λ (n : Codebook). n.id) q in ground arith)
coded_unique a b (inr (inr (inl p))) (inr (inl q)) e = absurd (
    let z = sym (ap (λ (n : Codebook). n.id) p) ∙ e ∙ ap (λ (n : Codebook). n.id) q in ground arith)
coded_unique a b (inr (inr (inl p))) (inr (inr (inl q))) e = p ∙ sym q
coded_unique a b (inr (inr (inl p))) (inr (inr (inr m))) e = elim m [ ]
coded_unique a b (inr (inr (inr m))) mb e = elim m [ ]

coded_depths : (n : Codebook) → Member n coded.library.nodes → n.depth ≡ pos (length n.path_ids)
coded_depths n (inl e) = rw e refl
coded_depths n (inr (inl e)) = rw e refl
coded_depths n (inr (inr (inl e))) = rw e refl
coded_depths n (inr (inr (inr m))) = elim m [ ]

coded-IsTree : IsTree coded.library.nodes
coded-IsTree = record { placed = coded-Placed; depths = coded_depths; unique = coded_unique }

sort-IsTree_example : IsTree (sort 2 0 (pos 0) coded).1.library.nodes
sort-IsTree_example = sort-IsTree 2 0 (pos 0) coded coded-IsTree

abbrev three_rows : List CodebookSortItem
three_rows = map to_sort_item (
    a_node 1 file "a" 0 [] (pos 0) (pos 1)
    ∷ a_node 2 file "b" 0 [] (pos 0) (pos 2)
    ∷ a_node 3 file "c" 0 [] (pos 0) (pos 3)
    ∷ [])

abbrev third_row : CodebookSortItem
third_row = to_sort_item (a_node 3 file "c" 0 [] (pos 0) (pos 3))
