-- ===== src/Jj/Parse/Output.antt =====
-- What the readers of `jj` output (crates/octty-jj/src/lib.rs) make of well-formed output.
use octty.Base.{ℕ, ◌+◌, ◌≡◌, refl, ap, ◌∙◌, Text, codes, Bool, true, false, not, ◌&&◌, some}
use octty.Base.{List, [], ◌∷◌, ◌++◌, append_assoc, map, keep, is_empty, All, length, arith}
use mathlib.Core.Bool.{false≢true}
use octty.Base.{
  strip_prefix, All-append, All-mono, sym, ==_iff, ◌==◌, split, split_once, lines, trim, join,
  starts_with, is_whitespace, strip_cr,
}
use octty.Base.TextLaws.{
  Without, Solid, split_once-append, lines-append, strip_cr-append, trim-Solid, trim-newline,
  split-join, join-Solid,
}
use octty.Jj.Parse.{
  DiscoveredWorkspace, parse_workspace_list_output, workspace_entry, DiffStats, count_line,
  summarize_loop, summarize_unified_diff, parse_bookmarks,
}

-- A line of the template `name \t change-id \n`.
abbrev pub render_entry : DiscoveredWorkspace → Text
render_entry e = e.workspace_name ++ (9 ∷ (e.target_change_id ++ (10 ∷ [])))

pub render : List DiscoveredWorkspace → Text
render [] = []
render (e ∷ es) = render_entry e ++ render es

-- A name that is there, and no white space in name and change id.
abbrev pub IsPlain : DiscoveredWorkspace → Type 0
IsPlain e = (is_empty e.workspace_name ≡ false) × Solid e.workspace_name × Solid e.target_change_id

Solid-Without : (sep : ℕ) (t : Text) → is_whitespace sep ≡ true → Solid t → Without sep t
Solid-Without sep [] w s = tt
Solid-Without sep (c ∷ t) w s = (differs (c == sep) refl, Solid-Without sep t w s.1)
  where
    differs : (b : Bool) → (c == sep) ≡ b → (c == sep) ≡ false
    differs false e = e
    differs true e = absurd (false≢true (sym s.0 ∙ (ap is_whitespace ((==_iff c sep).0 e) ∙ w)))

line-parts :
    (e : DiscoveredWorkspace) (rest : Text)
    → render_entry e ++ rest ≡ (e.workspace_name ++ (9 ∷ e.target_change_id)) ++ (10 ∷ rest)
line-parts e rest = simp append_assoc

entry_read :
    (e : DiscoveredWorkspace)
    → IsPlain e
    → workspace_entry (split_once 9 (e.workspace_name ++ (9 ∷ e.target_change_id))) ≡ some e
entry_read e p = rw (
  split_once-append 9 e.workspace_name e.target_change_id (Solid-Without 9 _ ws p.1),
  trim-Solid e.workspace_name p.1,
  trim-Solid e.target_change_id p.2,
  p.0,
)
  where
    ws : is_whitespace 9 ≡ true
    ws = unfold is_whitespace in refl

Without-newline :
    (e : DiscoveredWorkspace)
    → IsPlain e
    → Without 10 (e.workspace_name ++ (9 ∷ e.target_change_id))
Without-newline e p =
    All-append _ e.workspace_name (9 ∷ e.target_change_id) (Solid-Without 10 _ ws p.1)
      (refl, Solid-Without 10 _ ws p.2)
  where
    ws : is_whitespace 10 ≡ true
    ws = unfold is_whitespace in refl

no_return : (e : DiscoveredWorkspace) → IsPlain e → Without 13 (9 ∷ e.target_change_id)
no_return e p = (refl, Solid-Without 13 _ (unfold is_whitespace in refl) p.2)

lines-render :
    (e : DiscoveredWorkspace) (rest : Text)
    → IsPlain e
    → lines (render_entry e ++ rest) ≡ (e.workspace_name ++ (9 ∷ e.target_change_id)) ∷ lines rest
lines-render e rest p =
    ap lines (line-parts e rest)
    ∙ lines-append (e.workspace_name ++ (9 ∷ e.target_change_id)) rest (Without-newline e p)
    ∙ ap (λ l. l ∷ lines rest)
        (strip_cr-append e.workspace_name e.target_change_id 9 (no_return e p))

-- The list that `jj workspace list` prints, one line for each workspace, is read back in its order,
-- if every name is there and no name and no change id has white space.
pub parse_workspace_list_output-render :
    (es : List DiscoveredWorkspace) → All IsPlain es → parse_workspace_list_output (render es) ≡ es
unfolding parse_workspace_list_output render
parse_workspace_list_output-render [] p = unfold lines split in refl
parse_workspace_list_output-render (e ∷ es) p =
    rw (lines-render e (render es) p.0, entry_read e p.0)
      (ap (λ r. e ∷ r) (parse_workspace_list_output-render es p.1))

-- A name that is there, with no white space and no comma.
abbrev pub IsName : Text → Type 0
IsName b = (is_empty b ≡ false) × Solid b × Without b',' b

keep_names : (bs : List Text) → All IsName bs → keep (λ b. not (is_empty b)) (map trim bs) ≡ bs
keep_names [] a = refl
keep_names (b ∷ bs) a = rw (trim-Solid b a.0.1, a.0.0) (ap (λ r. b ∷ r) (keep_names bs a.1))

-- A list of bookmarks as the templates print it, joined by commas on one line, is read back, if no
-- name is empty or has white space or a comma in it.
pub parse_bookmarks-join :
    (bs : List Text) → All IsName bs → parse_bookmarks (join (codes ",") bs ++ codes "\n") ≡ bs
unfolding parse_bookmarks
parse_bookmarks-join [] a = unfold join split trim in refl
parse_bookmarks-join (b ∷ bs) a =
    ap (λ t. keep (λ v. not (is_empty v)) (map trim (split b',' t)))
      (trim-newline (join (codes ",") (b ∷ bs)) (
        join-Solid b',' (b ∷ bs) (unfold is_whitespace in refl) (All-mono (b ∷ bs) (λ v n. n.1) a)))
    ∙ ap (λ r. keep (λ v. not (is_empty v)) (map trim r))
        (split-join b',' b bs (All-mono (b ∷ bs) (λ v n. n.2) a))
    ∙ keep_names (b ∷ bs) a

abbrev pub is_added : Text → Bool
is_added line = starts_with line (codes "+") && not (starts_with line (codes "+++"))

abbrev pub is_removed : Text → Bool
is_removed line = starts_with line (codes "-") && not (starts_with line (codes "---"))

plus_minus :
    (l : Text)
    → (starts_with l (codes "+++") ≡ true → starts_with l (codes "-") ≡ false)
      × (starts_with l (codes "---") ≡ true → starts_with l (codes "+") ≡ false)
      × (starts_with l (codes "+") ≡ true → starts_with l (codes "-") ≡ false)
unfolding starts_with
plus_minus [] = ground arith
plus_minus (c ∷ l) = ground arith

summarize_loop_lem :
    (stats : DiffStats) (ls : List Text)
    → summarize_loop stats ls ≡ record {
      added_lines = stats.added_lines + length (keep is_added ls);
      removed_lines = stats.removed_lines + length (keep is_removed ls);
    }
unfolding summarize_loop
summarize_loop_lem stats [] = ground arith
summarize_loop_lem stats (l ∷ ls) =
    ground (arith, summarize_loop_lem (count_line stats l) ls, plus_minus l)

-- The statistics of a diff are the number of its lines that begin with a plus and not with three,
-- and of those that begin with a minus and not with three.
pub summarize_unified_diff_lem :
    (diff : Text)
    → summarize_unified_diff diff ≡ record {
      added_lines = length (keep is_added (lines diff));
      removed_lines = length (keep is_removed (lines diff));
    }
unfolding summarize_unified_diff
summarize_unified_diff_lem diff =
    ground (arith, summarize_loop_lem (record { added_lines = 0; removed_lines = 0 }) (lines diff))

skipped :
    (text : Text) (ls : List Text)
    → length (keep is_removed (strip_cr (codes "---" ++ text) ∷ ls)) ≡ length (keep is_removed ls)
skipped [] ls = unfold starts_with strip_prefix in refl
skipped (c ∷ text) ls = unfold starts_with strip_prefix in refl

-- A removed line whose text begins with two dashes is taken for a file header and not counted.
pub dashed_removal :
    (text rest : Text)
    → Without 10 text
    → (summarize_unified_diff (codes "---" ++ (text ++ (10 ∷ rest)))).removed_lines
      ≡ (summarize_unified_diff rest).removed_lines
dashed_removal text rest w =
    ap (λ (s : DiffStats). s.removed_lines)
      (summarize_unified_diff_lem (codes "---" ++ (text ++ (10 ∷ rest))))
    ∙ ap (λ ls. length (keep is_removed ls))
        (lines-append (codes "---" ++ text) rest (refl, (refl, (refl, w))))
    ∙ skipped text (lines rest)
    ∙ ap (λ (s : DiffStats). s.removed_lines) (sym (summarize_unified_diff_lem rest))
