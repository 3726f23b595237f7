-- ===== src/App/Bootstrap/Directories.antt =====
-- crates/octty-app/src/bootstrap.rs: the name and the directory of a new workspace. A `bail!` is the `io`
-- of its text.
use mathlib.Core.Path.{subst}
use octty.Base.{
  is_empty, ◌||◌, ℕ, zero, suc, ◌+◌, ◌≤◌, ◌<◌, if◌then◌else◌, Bool, true, false, unwrap_or, Text,
  codes, text_eq, one_of, ends_with, List, ◌∷◌, ◌++◌, keep, map, ◌≡◌, refl, arith,
}
use octty.Base.Decimal.{show}
use octty.Core.Types.{ProjectRootRecord, WorkspaceSummary}
use octty.Jj.World.{io, ok, Outside, M, ◌>>=◌, ◌>>◌, return, fail}
use octty.App.Bootstrap.{Services, file_name}
use octty.App.Bootstrap.Loaded.{after-eq-ok}

-- `PathBuf::join`
abbrev pub join_path : Text → Text → Text
join_path dir name =
    if is_empty dir || ends_with dir (codes "/") then dir ++ name else dir ++ (b'/' ∷ name)

abbrev pub workspace_name_of : ℕ → Text
workspace_name_of number = codes "workspace-" ++ show number

abbrev pub bail : {World A : Type 0} → Text → M World A
bail message = fail (io message)

module _ (outside : Outside) {F : Type 0} (services : Services outside.World F) where
  open outside use {World}
  open services use {
    upsert_project_root, delete_project_root, list_workspaces, delete_workspace, home,
    create_dir_all, try_exists, canonicalize, remove_dir_all,
  }

  unfoldable pub default_workspace_directory : ProjectRootRecord → Text
  unfolding file_name
  default_workspace_directory root =
      join_path (join_path (unwrap_or home (codes ".")) (codes "workspaces"))
        (unwrap_or (file_name root.root_path) (codes "repo"))

  abbrev pub unless_taken : M World (Text × Text) → Text × Text → Bool → M World (Text × Text)
  unless_taken next made true = next
  unless_taken next made false = return made

  -- `for attempt in 1..=200`, with the rounds that are left.
  unfoldable pub try_names : ℕ → ℕ → Text → List Text → M World (Text × Text)
  try_names zero number base existing =
      bail (codes "could not find an unused workspace name under " ++ base)
  try_names (suc rounds) number base existing =
      let next = try_names rounds (suc number) base existing in
      let name = workspace_name_of number in
      if one_of name existing then next else (do
        exists ← try_exists (join_path base name)
        unless_taken next (name, join_path base name) exists)

  abbrev pub names_of : ProjectRootRecord → List WorkspaceSummary → List Text
  names_of root workspaces =
      map (λ workspace. workspace.workspace_name)
        (keep (λ workspace. text_eq workspace.root_id root.id) workspaces)

  unfoldable pub next_workspace_defaults : ProjectRootRecord → M World (Text × Text)
  unfolding default_workspace_directory try_names
  next_workspace_defaults root = do
    create_dir_all (default_workspace_directory root)
    workspaces ← list_workspaces
    try_names 200 1 (default_workspace_directory root) (names_of root workspaces)

  -- A name that was tried and is free.
  pub record IsFree (base : Text) (existing : List Text) (from to : ℕ) (made : Text × Text)
      : Type 0 where
    pub number : ℕ
    pub above : from ≤ number
    pub below : number < to
    pub name : made.0 ≡ workspace_name_of number
    pub path : made.1 ≡ join_path base made.0
    pub unknown : one_of made.0 existing ≡ false
    pub looked : World
    pub after_looking : World
    pub absent : try_exists made.1 looked ≡ (ok false, after_looking)

  later-IsFree :
      {base : Text} {existing : List Text} {from to : ℕ} {made : Text × Text}
      → IsFree base existing (suc from) to made
      → IsFree base existing from to made
  later-IsFree f = record {
    number = f.number;
    above = omega (arith, f.above);
    below = f.below;
    name = f.name;
    path = f.path;
    unknown = f.unknown;
    looked = f.looked;
    after_looking = f.after_looking;
    absent = f.absent;
  }

  looked-IsFree :
      (next : M World (Text × Text)) (number to : ℕ) (base : Text) (existing : List Text)
      (exists : Bool) (looked v : World) {made : Text × Text} {w' : World}
      → number < to
      → one_of (workspace_name_of number) existing ≡ false
      → try_exists (join_path base (workspace_name_of number)) looked ≡ (ok exists, v)
      → (next v ≡ (ok made, w') → IsFree base existing (suc number) to made)
      → unless_taken next
          (workspace_name_of number, join_path base (workspace_name_of number))
          exists
          v
        ≡ (ok made, w')
      → IsFree base existing number to made
  looked-IsFree next number to base existing true looked v below fresh saw rest h =
      later-IsFree (rest h)
  looked-IsFree next number to base existing false looked v {made} below fresh saw rest h =
      let e : (workspace_name_of number, join_path base (workspace_name_of number)) ≡ made =
        cc (h) in
      subst (IsFree base existing number to) e (record {
        number = number;
        above = omega arith;
        below = below;
        name = refl;
        path = refl;
        unknown = fresh;
        looked = looked;
        after_looking = v;
        absent = saw;
      })

  tried-IsFree :
      (next : M World (Text × Text)) (number to : ℕ) (base : Text) (existing : List Text)
      (taken : Bool) (w : World) {made : Text × Text} {w' : World}
      → number < to
      → one_of (workspace_name_of number) existing ≡ taken
      → ((v : World) → next v ≡ (ok made, w') → IsFree base existing (suc number) to made)
      → (if taken then next else (do
        exists ← try_exists (join_path base (workspace_name_of number))
        unless_taken next
            (workspace_name_of number, join_path base (workspace_name_of number))
            exists))
          w
        ≡ (ok made, w')
      → IsFree base existing number to made
  tried-IsFree next number to base existing true w below known rest h = later-IsFree (rest w h)
  tried-IsFree next number to base existing false w below fresh rest h =
      let (exists, v, saw, rest') =
        after-eq-ok _ (try_exists (join_path base (workspace_name_of number)) w) h in
      looked-IsFree next number to base existing exists w v below fresh saw (rest v) rest'

  try_names-IsFree :
      (rounds number to : ℕ) (base : Text) (existing : List Text) (w : World) {made : Text × Text}
      {w' : World}
      → number + rounds ≡ to
      → try_names rounds number base existing w ≡ (ok made, w')
      → IsFree base existing number to made
  unfolding try_names
  try_names-IsFree zero number to base existing w e h = absurd (cc (h))
  try_names-IsFree (suc rounds) number to base existing w e h =
      tried-IsFree (try_names rounds (suc number) base existing) number to base existing
        (one_of (workspace_name_of number) existing) w (omega arith) refl
        (λ v k. try_names-IsFree rounds (suc number) to base existing v (omega arith) k) h

  -- A new workspace gets one of two hundred names. It is none of those that the store has for the
  -- workspaces of the root, and its directory, which is that name below the directory of the root, was
  -- seen not to exist.
  pub next_workspace_defaults-IsFree :
      (root : ProjectRootRecord) (w : World) (made : Text × Text) (w' : World)
      → next_workspace_defaults root w ≡ (ok made, w')
      → (workspaces : List WorkspaceSummary) × (v : World) × (v' : World) × (list_workspaces v
          ≡ (ok workspaces, v'))
        × IsFree (default_workspace_directory root) (names_of root workspaces) 1 201 made
  unfolding next_workspace_defaults
  next_workspace_defaults-IsFree root w made w' h =
      let (done, v, dirs, rest) =
        after-eq-ok _ (create_dir_all (default_workspace_directory root) w) h in
      let (workspaces, v', listed, rest') = after-eq-ok _ (list_workspaces v) rest in
      (
        workspaces,
        v,
        v',
        listed,
        try_names-IsFree 200 1 201 (default_workspace_directory root) (names_of root workspaces) v'
            (omega arith) rest',
      )
