-- ===== src/App/SidebarMenu/Groups.antt =====
-- crates/octty-app/src/sidebar.rs: the groups of the sidebar leave no workspace out.
use octty.Base.{
  ℕ, ◌<◌, none, false, not, text_eq, All, All-append, refl, ◌+◌, zero, suc, Bool, true, ◌||◌, ◌==◌,
  some, Bool-cases, inl, inr,
}
use octty.Base.{List, [], ◌∷◌, ◌++◌, map, any, get_elem?, ◌≡◌, ap, ◌∙◌, arith}
use octty.Core.Types.{ProjectRootRecord, WorkspaceSummary}
use octty.App.SidebarMenu.{
  SidebarWorkspaceGroup, indices_where, of_root, is_orphan, group_of, orphans,
  sidebar_workspace_groups,
}

abbrev pub lists : ℕ → SidebarWorkspaceGroup → Bool
lists index g = any (λ i. i == index) g.workspace_indices

indices_where-at :
    (p : WorkspaceSummary → Bool) (ws : List WorkspaceSummary) (from index : ℕ)
    (w : WorkspaceSummary)
    → get_elem? ws index ≡ some w
    → p w ≡ true
    → any (λ i. i == from + index) (indices_where p from ws) ≡ true
indices_where-at p [] from index w e h = ground arith
indices_where-at p (v ∷ ws) from zero w e h = ground (arith, at_from)
  where
    at_from : from == from + 0 ≡ true
    at_from = ground arith
indices_where-at p (v ∷ ws) from (suc index) w e h =
    ground (arith, indices_where-at p ws (suc from) index w e h)

at_zero :
    (p : WorkspaceSummary → Bool) (ws : List WorkspaceSummary) (index : ℕ) (w : WorkspaceSummary)
    → get_elem? ws index ≡ some w
    → p w ≡ true
    → any (λ i. i == index) (indices_where p 0 ws) ≡ true
at_zero p ws index w e h =
    ap (λ n. any (λ i. i == n) (indices_where p 0 ws)) (zero_plus index)
    ∙ indices_where-at p ws 0 index w e h
  where
    zero_plus : (n : ℕ) → n ≡ 0 + n
    zero_plus n = omega arith

known_root :
    (roots : List ProjectRootRecord) (workspaces : List WorkspaceSummary) (index : ℕ)
    (w : WorkspaceSummary)
    → get_elem? workspaces index ≡ some w
    → any (λ root. of_root root w) roots ≡ true
    → any (lists index) (map (group_of workspaces) roots) ≡ true
known_root [] workspaces index w e h = ground arith
known_root (r ∷ rs) workspaces index w e h = elim (Bool-cases (of_root r w)) [
  | inl o ↦ ground (arith, at_zero (of_root r) workspaces index w e o)
  | inr o ↦ ground (arith, known_root rs workspaces index w e)
]

orphan_listed :
    (is : List ℕ) (index : ℕ)
    → any (λ i. i == index) is ≡ true
    → any (lists index) (orphans is) ≡ true
orphan_listed [] index h = h
orphan_listed (i ∷ is) index h = ground arith

any-append {ℓ} :
    {A : Type ℓ} (p : A → Bool) (xs ys : List A)
    → (any p xs || any p ys) ≡ true
    → any p (xs ++ ys) ≡ true
any-append p [] ys h = h
any-append p (x ∷ xs) ys h = ground (arith, any-append p xs ys)

some_group :
    (project_roots : List ProjectRootRecord) (workspaces : List WorkspaceSummary) (index : ℕ)
    (w : WorkspaceSummary)
    → get_elem? workspaces index ≡ some w
    → any (lists index) (sidebar_workspace_groups project_roots workspaces) ≡ true
unfolding sidebar_workspace_groups
some_group project_roots workspaces index w e =
    elim (Bool-cases (any (λ root. of_root root w) project_roots)) [
      | inl k ↦
          any-append (lists index) (map (group_of workspaces) project_roots) _
            (ground (arith, known_root project_roots workspaces index w e k))
      | inr k ↦ any-append (lists index) (map (group_of workspaces) project_roots) _ (
          ground (
            arith,
            orphan_listed (indices_where (is_orphan project_roots) 0 workspaces) index
                (at_zero (is_orphan project_roots) workspaces index w e (ground arith)),
          ))
    ]

-- The group that a workspace belongs to: that of its project, or the orphans if no project has the id.
abbrev pub belongs : List ProjectRootRecord → WorkspaceSummary → SidebarWorkspaceGroup → Bool
belongs project_roots w g = elim g.root [
  | some root ↦ text_eq w.root_id root.id
  | none ↦ not (any (λ root. text_eq w.root_id root.id) project_roots)
]

below :
    (p : WorkspaceSummary → Bool) (ws : List WorkspaceSummary) (from n : ℕ)
    → n < from
    → any (λ i. i == n) (indices_where p from ws) ≡ false
below p [] from n h = refl
below p (v ∷ ws) from n h = ground (arith, below p ws (suc from) n (omega (arith, h)))

indices_where-exactly :
    (p : WorkspaceSummary → Bool) (ws : List WorkspaceSummary) (from index : ℕ)
    (w : WorkspaceSummary)
    → get_elem? ws index ≡ some w
    → any (λ i. i == from + index) (indices_where p from ws) ≡ p w
indices_where-exactly p [] from index w e = ground arith
indices_where-exactly p (v ∷ ws) from zero w e =
    ground (arith, below p ws (suc from) (from + 0) (omega arith))
indices_where-exactly p (v ∷ ws) from (suc index) w e =
    ground (arith, indices_where-exactly p ws (suc from) index w e)

exactly :
    (p : WorkspaceSummary → Bool) (ws : List WorkspaceSummary) (index : ℕ) (w : WorkspaceSummary)
    → get_elem? ws index ≡ some w
    → any (λ i. i == index) (indices_where p 0 ws) ≡ p w
exactly p ws index w e =
    ap (λ n. any (λ i. i == n) (indices_where p 0 ws))
      (let z : index ≡ 0 + index = omega arith in z)
    ∙ indices_where-exactly p ws 0 index w e

roots_exactly :
    (all_roots roots : List ProjectRootRecord) (ws : List WorkspaceSummary) (index : ℕ)
    (w : WorkspaceSummary)
    → get_elem? ws index ≡ some w
    → All (λ g. lists index g ≡ belongs all_roots w g) (map (group_of ws) roots)
roots_exactly all_roots [] ws index w e = tt
roots_exactly all_roots (r ∷ rs) ws index w e =
    (exactly (of_root r) ws index w e, roots_exactly all_roots rs ws index w e)

orphans_exactly :
    (roots : List ProjectRootRecord) (is : List ℕ) (index : ℕ) (w : WorkspaceSummary)
    → any (λ i. i == index) is ≡ is_orphan roots w
    → All (λ g. lists index g ≡ belongs roots w g) (orphans is)
orphans_exactly roots [] index w e = tt
orphans_exactly roots (i ∷ is) index w e = (e, tt)

-- Every workspace is listed in some group of the sidebar, and each group lists it exactly if it is
-- that of the project with the id of the workspace's root, or if it is that of the orphans and no
-- project has that id.
pub sidebar_workspace_groups-lists :
    (project_roots : List ProjectRootRecord) (workspaces : List WorkspaceSummary) (index : ℕ)
    (w : WorkspaceSummary)
    → get_elem? workspaces index ≡ some w
    → (any (lists index) (sidebar_workspace_groups project_roots workspaces) ≡ true)
      × All
          (λ g. lists index g ≡ belongs project_roots w g)
          (sidebar_workspace_groups project_roots workspaces)
unfolding sidebar_workspace_groups
sidebar_workspace_groups-lists project_roots workspaces index w e = (
  some_group project_roots workspaces index w e,
  All-append _ (map (group_of workspaces) project_roots) _
      (roots_exactly project_roots project_roots workspaces index w e)
      (orphans_exactly project_roots (indices_where (is_orphan project_roots) 0 workspaces) index w
        (exactly (is_orphan project_roots) workspaces index w e)),
)
