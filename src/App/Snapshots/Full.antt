-- ===== src/App/Snapshots/Full.antt =====
-- crates/octty-app/src/terminal_state.rs: what the flag of full damage means, and what a merged
-- snapshot shows.
use octty.Base.{
  ℕ, ◌+◌, ◌<◌, ◌≤◌, Bool, true, false, ◌||◌, not, ltb, ltb→lt, ◌==◌, ==_iff, ==_dec, some,
}
use octty.Base.{List, [], ◌∷◌, keep, length, suc, inl, inr, Bool-cases}
use octty.Base.{◌≡◌, refl, ◌∙◌, arith}
use mathlib.Core.Path.{subst}
use octty.Term.Snapshot.{TerminalGridSnapshot}
use octty.App.Snapshots.{
  insert_row, extend_rows, mark_terminal_snapshot_full_damage, Coalescing, coalesce_step,
  coalesce_loop, coalesce_finish, coalesce_start, coalesce_terminal_snapshots, same_view,
}
use octty.App.Snapshots.Damage.{has, has-range}

-- Strictly ascending, from a lower bound on.
abbrev pub IsAscending : ℕ → List ℕ → Type 0
IsAscending from [] = Unit
IsAscending from (r ∷ rows) = (from ≤ r) × IsAscending (suc r) rows

insert_row-IsAscending :
    (from row : ℕ) (rows : List ℕ)
    → from ≤ row
    → IsAscending from rows
    → IsAscending from (insert_row row rows)
unfolding insert_row
insert_row-IsAscending from row [] h a = (h, tt)
insert_row-IsAscending from row (r ∷ rows) h a = elim (Bool-cases (ltb row r)) [
  | inl e ↦ rw e (h, (ltb→lt row r e, a.1))
  | inr e ↦ rw e (elim (Bool-cases (row == r)) [
    | inl f ↦ rw f a
    | inr f ↦ rw f (a.0, insert_row-IsAscending (suc r) row rows (ground arith) a.1)
  ])
]

extend_rows-IsAscending :
    (rows dirty : List ℕ) → IsAscending 0 dirty → IsAscending 0 (extend_rows rows dirty)
unfolding extend_rows
extend_rows-IsAscending [] dirty a = a
extend_rows-IsAscending (row ∷ rows) dirty a =
    extend_rows-IsAscending rows (insert_row row dirty)
      (insert_row-IsAscending 0 row dirty (omega arith) a)

loop-IsAscending :
    (ss : List TerminalGridSnapshot) (c : Coalescing)
    → IsAscending 0 c.dirty_rows
    → IsAscending 0 (coalesce_loop c ss).dirty_rows
unfolding coalesce_loop coalesce_step
loop-IsAscending [] c a = a
loop-IsAscending (s ∷ ss) c a =
    loop-IsAscending ss (coalesce_step c s) (extend_rows-IsAscending s.damage.rows c.dirty_rows a)

IsAscending-later :
    (from to : ℕ) (rows : List ℕ) → to ≤ from → IsAscending from rows → IsAscending to rows
IsAscending-later from to [] h a = tt
IsAscending-later from to (r ∷ rows) h a = (omega (arith, a.0), a.1)

keep-IsAscending :
    (from : ℕ) (p : ℕ → Bool) (rows : List ℕ)
    → IsAscending from rows
    → IsAscending from (keep p rows)
keep-IsAscending from p [] a = tt
keep-IsAscending from p (r ∷ rows) a = elim (Bool-cases (p r)) [
  | inl e ↦ rw e (a.0, keep-IsAscending (suc r) p rows a.1)
  | inr e ↦ rw e (
      IsAscending-later (suc r) from (keep p rows) (omega (arith, a.0))
        (keep-IsAscending (suc r) p rows a.1))
]

abbrev IsBelow : ℕ → List ℕ → Type 0
IsBelow bound rows = (row : ℕ) → has row rows ≡ true → row < bound

keep-IsBelow : (bound : ℕ) (rows : List ℕ) → IsBelow bound (keep (λ r. ltb r bound) rows)
keep-IsBelow bound [] row h = ground arith
keep-IsBelow bound (r ∷ rows) row h =
    ground (arith, keep-IsBelow bound rows row, ltb→lt r bound, (==_iff r row).0)

tail-IsBelow : (bound r : ℕ) (rows : List ℕ) → IsBelow bound (r ∷ rows) → IsBelow bound rows
tail-IsBelow bound r rows b row h = b row (ground arith)

head-below : (bound r : ℕ) (rows : List ℕ) → IsBelow bound (r ∷ rows) → r < bound
head-below bound r rows b = b r (ground arith)

length-ascending :
    (from bound : ℕ) (rows : List ℕ)
    → from ≤ bound
    → IsAscending from rows
    → IsBelow bound rows
    → length rows + from ≤ bound
length-ascending from bound [] h a b = omega (arith, h)
length-ascending from bound (r ∷ rows) h a b = omega (
  arith,
  a.0,
  length-ascending (suc r) bound rows (head-below bound r rows b) a.1 (tail-IsBelow bound r rows b),
)

-- As many ascending rows as there are places are all of them.
all_rows :
    (from bound : ℕ) (rows : List ℕ)
    → IsAscending from rows
    → IsBelow bound rows
    → length rows + from ≡ bound
    → (row : ℕ) → from ≤ row
    → row < bound
    → has row rows ≡ true
all_rows from bound [] a b h row l u = absurd (omega (arith, h))
all_rows from bound (r ∷ rows) a b h row l u = elim (==_dec r row) [
  | inl e ↦ ground arith
  | inr e ↦ ground (
    arith,
    all_rows (suc r) bound rows a.1 (tail-IsBelow bound r rows b) (omega (arith, first_is)) row
        (omega (arith, first_is)) u,
  )
]
  where
    first_is : r ≡ from
    first_is = omega (
      arith,
      h,
      a.0,
      length-ascending (suc r) bound rows (head-below bound r rows b) a.1
          (tail-IsBelow bound r rows b),
    )

finish-full :
    (c : Coalescing) (row : ℕ)
    → IsAscending 0 c.dirty_rows
    → (coalesce_finish c).damage.full ≡ true
    → row < (coalesce_finish c).rows
    → has row (coalesce_finish c).damage.rows ≡ true
unfolding coalesce_finish mark_terminal_snapshot_full_damage
finish-full c row a h l = elim (Bool-cases c.force_full) [
  | inl e ↦ rw e (has-range row 0 c.latest.rows (omega arith) (ground (arith, e)))
  | inr e ↦ rw e (
      all_rows 0 c.latest.rows (keep (λ r. ltb r c.latest.rows) c.dirty_rows)
        (keep-IsAscending 0 (λ r. ltb r c.latest.rows) c.dirty_rows a)
        (keep-IsBelow c.latest.rows c.dirty_rows) (ground (arith, e)) row (omega arith)
        (ground (arith, e)))
]

-- After a picture, some picture asks for a full paint or differs in session or size from the one
-- before it.
abbrev pub turns : TerminalGridSnapshot → List TerminalGridSnapshot → Bool
turns s [] = false
turns s (t ∷ ts) = t.damage.full || not (same_view t s) || turns t ts

abbrev pub last_of : TerminalGridSnapshot → List TerminalGridSnapshot → TerminalGridSnapshot
last_of s [] = s
last_of s (t ∷ ts) = last_of t ts

loop_force :
    (ss : List TerminalGridSnapshot) (c : Coalescing)
    → (coalesce_loop c ss).force_full ≡ (turns c.latest ss || c.force_full)
unfolding coalesce_loop coalesce_step
loop_force [] c = refl
loop_force (s ∷ ss) c = loop_force ss (coalesce_step c s) ∙ ground arith

loop_latest :
    (ss : List TerminalGridSnapshot) (c : Coalescing)
    → (coalesce_loop c ss).latest ≡ last_of c.latest ss
unfolding coalesce_loop coalesce_step
loop_latest [] c = refl
loop_latest (s ∷ ss) c = loop_latest ss (coalesce_step c s)

-- Two pictures that differ in their damage and timing at most.
abbrev pub SamePicture : TerminalGridSnapshot → TerminalGridSnapshot → Type 0
SamePicture r l = record l { damage = r.damage; timing = r.timing } ≡ r

finish_picture : (c : Coalescing) → SamePicture (coalesce_finish c) c.latest
unfolding coalesce_finish mark_terminal_snapshot_full_damage
finish_picture c = elim (Bool-cases c.force_full) [ inl e ↦ rw e | inr e ↦ rw e ]

finish_forced : (c : Coalescing) → c.force_full ≡ true → (coalesce_finish c).damage.full ≡ true
unfolding coalesce_finish mark_terminal_snapshot_full_damage
finish_forced c h = rw h

-- The result of merging a list of snapshots. It shows what the last one shows. Its damage is full if
-- one of them asks for that or if the session or the size changes from one to the next, and full
-- damage lists every row.
pub coalesce_terminal_snapshots-full :
    (s : TerminalGridSnapshot) (ss : List TerminalGridSnapshot) (r : TerminalGridSnapshot)
    → coalesce_terminal_snapshots (s ∷ ss) ≡ some r
    → SamePicture r (last_of s ss)
      × ((turns s ss || s.damage.full) ≡ true → r.damage.full ≡ true)
      × (r.damage.full ≡ true → (row : ℕ) → row < r.rows → has row r.damage.rows ≡ true)
unfolding coalesce_terminal_snapshots coalesce_start
coalesce_terminal_snapshots-full s ss r e =
    subst
      (λ r.
        SamePicture r (last_of s ss)
        × ((turns s ss || s.damage.full) ≡ true → r.damage.full ≡ true)
        × (r.damage.full ≡ true → (row : ℕ) → row < r.rows → has row r.damage.rows ≡ true))
      same
      (
        subst (SamePicture (coalesce_finish c)) (loop_latest ss (coalesce_start s))
            (finish_picture c),
        (λ h. finish_forced c (loop_force ss (coalesce_start s) ∙ h)),
        (λ h row l. finish-full c row ascending h l),
      )
  where
    c : Coalescing
    c = coalesce_loop (coalesce_start s) ss

    same : coalesce_finish c ≡ r
    same = ground arith

    ascending : IsAscending 0 c.dirty_rows
    ascending = loop-IsAscending ss (coalesce_start s) (extend_rows-IsAscending s.damage.rows [] tt)
