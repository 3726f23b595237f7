-- ===== src/Jj/Parse.antt =====
-- crates/octty-jj/src/lib.rs: the texts that `jj` prints, and the texts that are passed to it.
pub mod Literal
pub mod Output
use package.octty.Base.{
  ℕ, zero, suc, ◌+◌, ℤ, pos, Text, codes, text_eq, trim, lines, split, split_once, starts_with,
  strip_prefix,
}
use package.octty.Base.{
  contains, replace_char, Bool, true, false, not, ◌&&◌, ◌||◌, Option, none, some, unwrap_or, List,
  [], ◌∷◌, ◌++◌,
}
use package.octty.Base.{map, keep, choose, is_empty, if◌then◌else◌}
use package.octty.Base.Decimal.{parse_i64}

pub record DiscoveredWorkspace : Type 0 where
  pub workspace_name : Text
  pub target_change_id : Text

abbrev workspace_entry : Option (Text × Text) → Option DiscoveredWorkspace
workspace_entry none = none
workspace_entry (some (name, target)) =
    if is_empty (trim name)
    then none
    else some (record { workspace_name = trim name; target_change_id = trim target })

unfoldable pub parse_workspace_list_output : Text → List DiscoveredWorkspace
unfolding split_once lines trim
parse_workspace_list_output output =
    choose (λ line. workspace_entry (split_once 9 line)) (lines output)

unfoldable pub is_stale_workspace_error : Text → Bool
unfolding contains
is_stale_workspace_error message =
    contains message (codes "working copy is stale")
    && contains message (codes "jj workspace update-stale")

pub record DiffStats : Type 0 where
  pub added_lines : ℕ
  pub removed_lines : ℕ

-- One line of `summarize_unified_diff`. A count of lines stays far below the bound of `i64`.
abbrev count_line : DiffStats → Text → DiffStats
count_line stats line =
    if starts_with line (codes "+++") || starts_with line (codes "---")
    then stats
    else if starts_with line (codes "+")
    then record stats { added_lines = stats.added_lines + 1 }
    else if starts_with line (codes "-")
    then record stats { removed_lines = stats.removed_lines + 1 }
    else stats

unfoldable pub summarize_loop : DiffStats → List Text → DiffStats
summarize_loop stats [] = stats
summarize_loop stats (line ∷ rest) = summarize_loop (count_line stats line) rest

unfoldable pub summarize_unified_diff : Text → DiffStats
unfolding summarize_loop lines starts_with
summarize_unified_diff diff_text =
    summarize_loop (record { added_lines = 0; removed_lines = 0 }) (lines diff_text)

unfoldable pub parse_count : Text → ℤ
unfolding parse_i64 trim
parse_count output = unwrap_or (parse_i64 (trim output)) (pos 0)

unfoldable pub parse_bookmarks : Text → List Text
unfolding split trim
parse_bookmarks output = keep (λ value. not (is_empty value)) (map trim (split b',' (trim output)))

-- Both calls of `replace`, then the quotes.
unfoldable pub revset_string_literal : Text → Text
unfolding replace_char
revset_string_literal value =
    codes "\""
    ++ replace_char b'"' (codes "\\\"") (replace_char b'\\' (codes "\\\\") value)
    ++ codes "\""

-- The cells of `name \t remote` lines that belong to the bookmark, as `name@remote`.
abbrev remote_cell : Text → Option (Text × Text) → Option Text
remote_cell bookmark none = none
remote_cell bookmark (some (name, remote)) =
    if text_eq name bookmark then some (name ++ codes "@" ++ remote) else none

unfoldable pub remote_matches : Text → Text → List Text
unfolding split_once lines text_eq
remote_matches bookmark output =
    choose (λ line. remote_cell bookmark (split_once 9 line)) (lines output)
