-- ===== src/Codebook/Tree/Reading.antt =====
-- What leaves the table of nodes alone.
use etask.Base.{ℕ, ◌≡◌, refl, sym, ◌∙◌, subst, Bool, not, ◌||◌, List, [], ◌∷◌, ◌==◌}
use etask.Domain.Codebook.{Codebook, CodebookProject, CodebookScope}
use etask.Domain.Codebook.Checks.{is_tenant}
use etask.Store.{World}
use etask.Store.Action.{select, Action, gets}
use etask.Store.Obeys.{
  Evolution, Obeys, Obeys-bind, Obeys-statement, Obeys-gets, Obeys-pure, Obeys-throw, Obeys-if,
}
use etask.Codebook.Table.{get_node, change_projects, update_projects, bump_project_source_revision}
use etask.Codebook.Projects.{get_project, validate_project_write}
use etask.Codebook.Sorting.{bump_project_source_revisions}
use etask.Codebook.Service.{validate_write_scope, validate_owner}
use etask.Codebook.Tree.{IsTree}

abbrev pub SameNodes : World → World → Type 0
SameNodes u v = v.library.nodes ≡ u.library.nodes

pub SameNodes-Evolution : Evolution SameNodes
SameNodes-Evolution = record {
  still = λ w faults. refl;
  go_on = λ u v w h k. k ∙ h;
  in_tenant = λ w tenant. refl;
  sending = λ w o. refl;
}

pub select-SameNodes : {A : Type 0} (f : World → A) → Obeys SameNodes (select f)
unfolding select
select-SameNodes f = Obeys-statement SameNodes-Evolution (gets f) (Obeys-gets SameNodes-Evolution f)

pub get_node-SameNodes : (i : ℕ) → Obeys SameNodes (get_node i)
unfolding get_node
get_node-SameNodes i =
    Obeys-bind SameNodes-Evolution _ _ (select-SameNodes _) (λ r. Obeys-throw SameNodes-Evolution _)

get_project-SameNodes : (i : ℕ) → Obeys SameNodes (get_project i)
unfolding get_project
get_project-SameNodes i =
    Obeys-bind SameNodes-Evolution _ _ (select-SameNodes _) (λ r. Obeys-throw SameNodes-Evolution _)

pub validate_owner-SameNodes : (c : Codebook) → Obeys SameNodes (validate_owner c)
unfolding validate_owner validate_project_write
validate_owner-SameNodes c =
    Obeys-if (is_tenant c.scope) _ _
      (λ _.
        Obeys-bind SameNodes-Evolution _ _ (get_project-SameNodes c.project_id)
          (λ p. Obeys-throw SameNodes-Evolution _))
      (λ _. Obeys-pure SameNodes-Evolution tt)

pub validate_write_scope-SameNodes : (s : CodebookScope) → Obeys SameNodes (validate_write_scope s)
unfolding validate_write_scope
validate_write_scope-SameNodes s =
    Obeys-bind SameNodes-Evolution _ _ (Obeys-gets SameNodes-Evolution _) (λ t.
      Obeys-bind SameNodes-Evolution _ _ (Obeys-gets SameNodes-Evolution _)
        (λ u. Obeys-throw SameNodes-Evolution _))

update_projects-SameNodes :
    (p : World → CodebookProject → Bool) (f : CodebookProject → CodebookProject)
    → Obeys SameNodes (update_projects p f)
unfolding update_projects
update_projects-SameNodes p f =
    Obeys-statement SameNodes-Evolution (change_projects p f) (record { at = λ w. refl })

pub bump-SameNodes :
    (s : CodebookScope) (i : ℕ) → Obeys SameNodes (bump_project_source_revision s i)
unfolding bump_project_source_revision
bump-SameNodes s i =
    Obeys-if (not (is_tenant s) || i == 0) _ _ (λ _. Obeys-pure SameNodes-Evolution tt)
      (λ _. Obeys-bind SameNodes-Evolution _ _ (Obeys-gets SameNodes-Evolution _) (λ now.
        Obeys-bind SameNodes-Evolution _ _ (update_projects-SameNodes _ _)
          (λ n. Obeys-pure SameNodes-Evolution tt)))

pub bumps-SameNodes : (ps : List ℕ) → Obeys SameNodes (bump_project_source_revisions ps)
unfolding bump_project_source_revisions
bumps-SameNodes [] = Obeys-pure SameNodes-Evolution tt
bumps-SameNodes (p ∷ ps) =
    Obeys-bind SameNodes-Evolution _ _ (bump-SameNodes _ p) (λ _. bumps-SameNodes ps)

-- The nodes form trees, in the table after an action as in the one before.
abbrev pub KeepsTree : World → World → Type 0
KeepsTree u v = IsTree u.library.nodes → IsTree v.library.nodes

pub KeepsTree-Evolution : Evolution KeepsTree
KeepsTree-Evolution = record {
  still = λ w faults t. t;
  go_on = λ u v w h k t. k (h t);
  in_tenant = λ w tenant t. t;
  sending = λ w o t. t;
}

pub SameNodes-KeepsTree : {A : Type 0} (m : Action A) → Obeys SameNodes m → Obeys KeepsTree m
SameNodes-KeepsTree m h = record { at = λ w t. subst IsTree (sym (h.at w)) t }
