-- ===== src/Jj/Tests.antt =====
-- Runs of crates/octty-jj/src/lib.rs on printed output, with a world that is a list of answers.
use octty.Base.{
  pos, ◌≡◌, refl, Text, codes, true, false, Option, none, some, List, [], ◌∷◌, ◌++◌, arith,
}
use octty.Base.{◌⊎◌, inr, inl, inl, strip_prefix, starts_with, is_whitespace, All}
use octty.Base.Bytes.{from_utf8_lossy}
use octty.Base.Decimal.{parse_i64}
use octty.Core.Types.{default_workspace_status, WorkspaceState, WorkspaceStatus}
use octty.Jj.World.{Result, ok, err, Output, Outside, str_path, after}
use octty.Jj.Parse.{
  DiscoveredWorkspace, parse_workspace_list_output, parse_bookmarks, revset_string_literal,
  is_stale_workspace_error,
}
use octty.Jj.Parse.Literal.{read_literal, read_literal-revset_string_literal}
use octty.Jj.Parse.Output.{render, IsPlain, IsName, parse_workspace_list_output-render}
use octty.Jj.Command.{with_stale_retry, read_workspace_status}
use octty.Jj.Status.{IsCoherent, read_workspace_status-IsCoherent}
use octty.Jj.Command.Retry.{Runs, with_stale_retry-Runs}

abbrev printed : Text → Output
printed t = record { success = true; stdout = t; stderr = [] }

abbrev failed : Text → Output
failed t = record { success = false; stdout = []; stderr = t }

abbrev answer : List Output → (Text × List Output) ⊎ (Output × List Output)
answer [] = inl (codes "no more answers", [])
answer (out ∷ outs) = inr (out, outs)

abbrev scripted : Outside
scripted = record {
  World = List Output;
  spawn = λ cwd args w. answer w;
  canonicalize = λ path w. inr (str_path path, w);
  now_ms = λ w. (pos 5, w);
}

-- Two exact bookmarks, no conflict, a local relation and the remote one of the second bookmark.
abbrev answers : List Output
answers =
    printed (codes "one,two\n")
    ∷ printed (codes "base\n")
    ∷ printed (codes "diff --git a/a b/a\n")
    ∷ printed (codes "0\n")
    ∷ printed (codes "1\n")
    ∷ printed (codes "2\n")
    ∷ printed (codes "0\n")
    ∷ printed (codes "0\n")
    ∷ printed (codes "1\n")
    ∷ printed (codes "two\torigin\n")
    ∷ printed (codes "0\n")
    ∷ printed (codes "0\n")
    ∷ []

abbrev status_of : Result WorkspaceStatus × List Output → Option (WorkspaceState × List Text)
status_of (ok s, w) = some (s.workspace_state, s.bookmarks)
status_of (err e, w) = none

default_is_published :
    status_of (read_workspace_status scripted (str_path (codes "/ws")) (codes "default") answers)
    ≡ some (WorkspaceState.published, codes "one" ∷ codes "two" ∷ [])
unfolding read_workspace_status after from_utf8_lossy parse_i64
default_is_published = refl

other_is_draft :
    status_of (read_workspace_status scripted (str_path (codes "/ws")) (codes "feature") answers)
    ≡ some (WorkspaceState.draft, codes "one" ∷ codes "two" ∷ [])
unfolding read_workspace_status after from_utf8_lossy parse_i64
other_is_draft = refl

abbrev stale : Text
stale = codes "The working copy is stale. Hint: Run `jj workspace update-stale` to update it."

retried_run :
    with_stale_retry scripted
      (str_path (codes "/ws"))
      (codes "root" ∷ [])
      (failed stale ∷ (printed [] ∷ (printed (codes "/r") ∷ [])))
    ≡ (ok (codes "/r"), [])
unfolding with_stale_retry after from_utf8_lossy is_stale_workspace_error starts_with strip_prefix
retried_run = refl

with_stale_retry-Runs_example :
    Runs scripted
      (str_path (codes "/ws"))
      (codes "root" ∷ [])
      (failed stale ∷ [])
      (with_stale_retry scripted (str_path (codes "/ws")) (codes "root" ∷ []) (failed stale ∷ []))
with_stale_retry-Runs_example =
    with_stale_retry-Runs scripted (str_path (codes "/ws")) (codes "root" ∷ []) (failed stale ∷ [])

abbrev read_back : Result WorkspaceStatus × List Output → WorkspaceStatus → WorkspaceStatus
read_back (ok s, w) d = s
read_back (err e, w) d = d

abbrev listed : List DiscoveredWorkspace
listed =
    record { workspace_name = codes "default"; target_change_id = codes "abc" }
    ∷ record { workspace_name = codes "feature"; target_change_id = codes "def" }
    ∷ []

listed-IsPlain : All IsPlain listed
unfolding is_whitespace
listed-IsPlain = ground arith

parse_workspace_list_output-render_example : parse_workspace_list_output (render listed) ≡ listed
parse_workspace_list_output-render_example =
    parse_workspace_list_output-render listed listed-IsPlain

names-IsName : All IsName (codes "main" ∷ codes "review" ∷ [])
unfolding is_whitespace
names-IsName = ground arith

spaced_bookmarks : parse_bookmarks (codes "main, review ,\n") ≡ codes "main" ∷ codes "review" ∷ []
unfolding parse_bookmarks
spaced_bookmarks = refl

quoted : revset_string_literal (codes "team/\"x\"") ≡ codes "\"team/\\\"x\\\"\""
unfolding revset_string_literal
quoted = refl

read_literal-revset_string_literal_example :
    read_literal (revset_string_literal (codes "a\\\"b") ++ codes ")")
    ≡ some (codes "a\\\"b", codes ")")
read_literal-revset_string_literal_example =
    read_literal-revset_string_literal (codes "a\\\"b") (codes ")")

default_status : Result WorkspaceStatus × List Output
unfolding read_workspace_status after from_utf8_lossy parse_i64
default_status = read_workspace_status scripted (str_path (codes "/ws")) (codes "default") answers

read_workspace_status-IsCoherent_example :
    IsCoherent (read_back default_status default_workspace_status)
unfolding default_status
read_workspace_status-IsCoherent_example =
    read_workspace_status-IsCoherent scripted (str_path (codes "/ws")) (codes "default") answers []
      (read_back default_status default_workspace_status) refl
