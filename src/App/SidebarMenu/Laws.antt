-- ===== src/App/SidebarMenu/Laws.antt =====
-- crates/octty-app/src/sidebar.rs: the selection of a menu stays on entries that can be chosen.
use octty.Base.{
  ℕ, ◌+◌, ◌-◌, ◌%◌, ◌<◌, ◌≤◌, zero, suc, Bool, true, false, ◌==◌, none, some, unwrap_or, and_then,
  Bool-cases, inl, inr,
}
use octty.Base.{List, [], ◌∷◌, length, position, first, is_empty, get_elem?, get_or}
use octty.Base.{◌≡◌, ◌≢◌, refl, sym, arith, All, All-mono}
use mathlib.Core.Path.{subst}
use octty.App.SidebarMenu.{
  SidebarMenuEntry, item, separator, is_enabled_item, action, SidebarMenuView, enabled_from,
  enabled_indices, new, place, above, select_up, select_down, confirm,
}

abbrev IsEnabledAt : List SidebarMenuEntry → ℕ → ℕ → Type 0
IsEnabledAt entries from index =
    (from ≤ index) × (and_then (get_elem? entries (index - from)) action ≢ none)

-- The selection, if there is one, is an entry that can be chosen.
abbrev pub IsChoosable : SidebarMenuView → Type 0
IsChoosable v = (index : ℕ) → v.selected_index ≡ some index → confirm v ≢ none

enabled-action : (e : SidebarMenuEntry) → is_enabled_item e ≡ true → action e ≢ none
enabled-action (item label a disabled) h k = ground arith
enabled-action separator h k = ground arith

one_less : (index from : ℕ) → suc from ≤ index → index - from ≡ suc (index - suc from)
one_less index from l = omega (arith, l)

later :
    (e : SidebarMenuEntry) (es : List SidebarMenuEntry) (from index : ℕ)
    → IsEnabledAt es (suc from) index
    → IsEnabledAt (e ∷ es) from index
later e es from index (l, h) = (
  omega (arith, l),
  subst (λ n. and_then (get_elem? (e ∷ es) n) action ≢ none) (sym (one_less index from l)) h,
)

none_less : (from : ℕ) → from - from ≡ 0
none_less from = omega arith

here :
    (e : SidebarMenuEntry) (es : List SidebarMenuEntry) (from : ℕ)
    → is_enabled_item e ≡ true
    → IsEnabledAt (e ∷ es) from from
here e es from h = (
  omega arith,
  subst (λ n. and_then (get_elem? (e ∷ es) n) action ≢ none) (sym (none_less from))
      (enabled-action e h),
)

enabled_from-enabled :
    (entries : List SidebarMenuEntry) (from : ℕ)
    → All (IsEnabledAt entries from) (enabled_from from entries)
unfolding enabled_from
enabled_from-enabled [] from = tt
enabled_from-enabled (e ∷ es) from = elim (Bool-cases (is_enabled_item e)) [
  | inl h ↦ rw h (
    here e es from h,
    All-mono (enabled_from (suc from) es) (later e es from) (enabled_from-enabled es (suc from)),
  )
  | inr h ↦
      rw h (
        All-mono (enabled_from (suc from) es) (later e es from)
          (enabled_from-enabled es (suc from)))
]

chosen :
    (entries : List SidebarMenuEntry) (index : ℕ)
    → IsEnabledAt entries 0 index
    → and_then (get_elem? entries index) action ≢ none
chosen entries index h = subst (λ n. and_then (get_elem? entries n) action ≢ none) (omega arith) h.1

get_or-All {ℓ κ} :
    {A : Type ℓ} (P : A → Type κ) (xs : List A) (i : ℕ) (d : A)
    → All P xs
    → i < length xs
    → P (get_or xs i d)
get_or-All P [] i d a h = absurd (omega (arith, h))
get_or-All P (x ∷ xs) zero d a h = a.0
get_or-All P (x ∷ xs) (suc i) d a h = get_or-All P xs i d a.1 (omega (arith, h))

position_below {ℓ} :
    {A : Type ℓ} (p : A → Bool) (xs : List A)
    → is_empty xs ≡ false
    → unwrap_or (position p xs) 0 < length xs
position_below p [] h = absurd (ground arith)
position_below p (x ∷ []) h = ground arith
position_below p (x ∷ (y ∷ xs)) h = ground (arith, position_below p (y ∷ xs) refl)

place_below :
    (v : SidebarMenuView) (enabled : List ℕ)
    → is_empty enabled ≡ false
    → place v enabled < length enabled
place_below v enabled h =
    position_below (λ index. index == unwrap_or v.selected_index (get_or enabled 0 0)) enabled h

above_below : (enabled : List ℕ) (n : ℕ) → n < length enabled → above enabled n < length enabled
above_below enabled zero h = omega (arith, h)
above_below enabled (suc n) h = omega (arith, h)

selects :
    (v : SidebarMenuView) (n : ℕ)
    → n < length (enabled_indices v)
    → IsChoosable (record v { selected_index = some (get_or (enabled_indices v) n 0) })
unfolding enabled_indices confirm
selects v n h index e = chosen v.entries (get_or (enabled_indices v) n 0) (
    get_or-All (IsEnabledAt v.entries 0) (enabled_indices v) n 0 (enabled_from-enabled v.entries 0)
      h)

wrapped : (n k : ℕ) → 0 < k → n % k < k
wrapped n k h = omega (arith, h)

filled : (xs : List ℕ) → is_empty xs ≡ false → 0 < length xs
filled [] h = absurd (ground arith)
filled (x ∷ xs) h = omega arith

-- Moving the selection up or down keeps it on an entry whose action the menu executes, if it is on
-- one or there is no selection.
pub select-IsChoosable :
    (v : SidebarMenuView) → IsChoosable v → IsChoosable (select_up v) × IsChoosable (select_down v)
unfolding select_up select_down
select-IsChoosable v c = elim (Bool-cases (is_empty (enabled_indices v))) [
  | inl e ↦ rw e (c, c)
  | inr e ↦ rw e (
    selects v (above (enabled_indices v) (place v (enabled_indices v)))
        (above_below (enabled_indices v) _ (place_below v (enabled_indices v) e)),
    selects v ((place v (enabled_indices v) + 1) % length (enabled_indices v))
        (wrapped _ (length (enabled_indices v)) (filled (enabled_indices v) e)),
  )
]

-- The menu starts on an entry whose action it executes, or on none if all are disabled.
pub new-IsChoosable : (entries : List SidebarMenuEntry) → IsChoosable (new entries)
unfolding new confirm
new-IsChoosable entries index e =
    first_of (enabled_from 0 entries) (enabled_from-enabled entries 0) (λ k. absurd (ground arith))
  where
    first_of :
        (is : List ℕ)
        → All (IsEnabledAt entries 0) is
        → first is ≢ none
        → and_then (first is) (λ i. and_then (get_elem? entries i) action) ≢ none
    first_of [] a e = absurd (e refl)
    first_of (i ∷ is) a e = chosen entries i a.0
