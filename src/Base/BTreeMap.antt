-- ===== src/Base/BTreeMap.antt =====
-- `BTreeMap<String, V>` as an association list in the order of its keys.
use octty.Base.Tests.{if◌then◌else◌, option_map, is_some, Bool-cases}
use octty.Base.Strings.{Text, text_eq, text_eq_iff, text_lt, text_lt_trans, text_lt_total}
use mathlib.Core.Path.{◌≡◌, refl, subst}
use mathlib.Core.Logic.{inl, inr}
use mathlib.Core.Bool.{true, false}
use mathlib.Core.Option.{Option, none, some, some-injective}
use mathlib.Core.List.{List, [], ◌∷◌}
use native.Mathlib.Omega.{arith}

abbrev pub BTreeMap {ℓ} : Type ℓ → Type ℓ
BTreeMap V = List (Text × V)

module _ {ℓ} {V : Type ℓ} where
  unfoldable pub get : Text → BTreeMap V → Option V
  get k [] = none
  get k ((j, v) ∷ m) = if text_eq j k then some v else get k m

  unfoldable pub insert : Text → V → BTreeMap V → BTreeMap V
  insert k v [] = (k, v) ∷ []
  insert k v ((j, w) ∷ m) =
      let rest = insert k v m in
      if text_eq j k
      then (k, v) ∷ m
      else if text_lt k j
      then (k, v) ∷ ((j, w) ∷ m)
      else (j, w) ∷ rest

  unfoldable pub remove : Text → BTreeMap V → BTreeMap V
  remove k [] = []
  remove k ((j, w) ∷ m) = let rest = remove k m in if text_eq j k then rest else (j, w) ∷ rest

  -- `get_mut` with a function of the value.
  unfoldable pub adjust : Text → (V → V) → BTreeMap V → BTreeMap V
  adjust k f [] = []
  adjust k f ((j, w) ∷ m) =
      let rest = adjust k f m in if text_eq j k then (j, f w) ∷ rest else (j, w) ∷ rest

  abbrev pub keys : BTreeMap V → List Text
  keys [] = []
  keys ((k, v) ∷ m) = k ∷ keys m

  abbrev pub values : BTreeMap V → List V
  values [] = []
  values ((k, v) ∷ m) = v ∷ values m

  -- `iter_mut`
  abbrev pub map_values : (V → V) → BTreeMap V → BTreeMap V
  map_values f [] = []
  map_values f ((k, v) ∷ m) = (k, f v) ∷ map_values f m

  -- Every key of the map lies above `k`.
  abbrev pub Above : Text → BTreeMap V → Type 0
  Above k [] = Unit
  Above k ((j, v) ∷ m) = (text_lt k j ≡ true) × Above k m

  -- The keys rise: so each stands once, and the iterators run in order.
  abbrev pub IsSorted : BTreeMap V → Type 0
  IsSorted [] = Unit
  IsSorted ((k, v) ∷ m) = Above k m × IsSorted m

  pub get-insert :
      (j k : Text) (v : V) (m : BTreeMap V)
      → get j (insert k v m) ≡ (if text_eq k j then some v else get j m)
  unfolding get insert
  get-insert j k v [] = refl
  get-insert j k v ((i, w) ∷ m) =
      ground (arith, text_eq_iff k j, text_eq_iff i k, text_eq_iff i j, get-insert j k v m)

  pub get-remove :
      (j k : Text) (m : BTreeMap V) → get j (remove k m) ≡ (if text_eq k j then none else get j m)
  unfolding get remove
  get-remove j k [] = ground arith
  get-remove j k ((i, w) ∷ m) =
      ground (arith, text_eq_iff k j, text_eq_iff i k, text_eq_iff i j, get-remove j k m)

  pub get-adjust :
      (j k : Text) (f : V → V) (m : BTreeMap V)
      → get j (adjust k f m) ≡ (if text_eq k j then option_map f (get j m) else get j m)
  unfolding get adjust
  get-adjust j k f [] = ground arith
  get-adjust j k f ((i, w) ∷ m) =
      ground (arith, text_eq_iff k j, text_eq_iff i k, text_eq_iff i j, get-adjust j k f m)

  pub get-map_values :
      (j : Text) (f : V → V) (m : BTreeMap V) → get j (map_values f m) ≡ option_map f (get j m)
  unfolding get
  get-map_values j f [] = refl
  get-map_values j f ((i, w) ∷ m) = ground (arith, get-map_values j f m)

  Above-trans : (j k : Text) (m : BTreeMap V) → text_lt j k ≡ true → Above k m → Above j m
  Above-trans j k [] h a = tt
  Above-trans j k ((i, w) ∷ m) h a = (text_lt_trans j k i h a.0, Above-trans j k m h a.1)

  insert-Above :
      (j k : Text) (v : V) (m : BTreeMap V)
      → text_lt j k ≡ true
      → Above j m
      → Above j (insert k v m)
  unfolding insert
  insert-Above j k v [] h a = (h, tt)
  insert-Above j k v ((i, w) ∷ m) h a = ground (arith, insert-Above j k v m h a.1)

  pub insert-IsSorted : (k : Text) (v : V) (m : BTreeMap V) → IsSorted m → IsSorted (insert k v m)
  unfolding insert
  insert-IsSorted k v [] s = (tt, tt)
  insert-IsSorted k v ((j, w) ∷ m) s = ground (
    arith,
    text_eq_iff j k,
    insert-IsSorted k v m s.1,
    insert-Above j k v m,
    Above-trans k j m,
    text_lt_total j k,
    text_lt_total k j,
  )

  remove-Above : (j k : Text) (m : BTreeMap V) → Above j m → Above j (remove k m)
  unfolding remove
  remove-Above j k [] a = tt
  remove-Above j k ((i, w) ∷ m) a = ground (arith, remove-Above j k m a.1)

  pub remove-IsSorted : (k : Text) (m : BTreeMap V) → IsSorted m → IsSorted (remove k m)
  unfolding remove
  remove-IsSorted k [] s = tt
  remove-IsSorted k ((j, w) ∷ m) s = ground (arith, remove-IsSorted k m s.1, remove-Above j k m s.0)

  map_values-Above : (j : Text) (f : V → V) (m : BTreeMap V) → Above j m → Above j (map_values f m)
  map_values-Above j f [] a = tt
  map_values-Above j f ((i, w) ∷ m) a = (a.0, map_values-Above j f m a.1)

  pub map_values-IsSorted : (f : V → V) (m : BTreeMap V) → IsSorted m → IsSorted (map_values f m)
  map_values-IsSorted f [] s = tt
  map_values-IsSorted f ((i, w) ∷ m) s = (map_values-Above i f m s.0, map_values-IsSorted f m s.1)

module _ {ℓ} {V : Type ℓ} where
  abbrev pub Has : Text → BTreeMap V → Type 0
  Has k m = is_some (get k m) ≡ true

  -- A predicate of every entry.
  abbrev pub AllEntries {κ} : (Text → V → Type κ) → BTreeMap V → Type κ
  AllEntries P [] = Unit
  AllEntries P ((k, v) ∷ m) = P k v × AllEntries P m

  pub Has-insert : (j k : Text) (v : V) (m : BTreeMap V) → Has j m → Has j (insert k v m)
  Has-insert j k v m h = ground (arith, get-insert j k v m)

  pub Has-insert_self : (k : Text) (v : V) (m : BTreeMap V) → Has k (insert k v m)
  Has-insert_self k v m = ground (arith, get-insert k k v m, text_eq_iff k k)

  pub Has-remove :
      (j k : Text) (m : BTreeMap V) → text_eq j k ≡ false → Has j m → Has j (remove k m)
  Has-remove j k m e h = ground (arith, get-remove j k m, text_eq_iff k j, text_eq_iff j k)

  pub AllEntries-mono {κ μ} :
      {P : Text → V → Type κ} {Q : Text → V → Type μ} (m : BTreeMap V)
      → ((k : Text) (v : V) → P k v → Q k v)
      → AllEntries P m
      → AllEntries Q m
  AllEntries-mono [] f a = tt
  AllEntries-mono ((k, v) ∷ m) f a = (f k v a.0, AllEntries-mono m f a.1)

  pub insert-AllEntries {κ} :
      (P : Text → V → Type κ) (k : Text) (v : V) (m : BTreeMap V)
      → P k v
      → AllEntries P m
      → AllEntries P (insert k v m)
  unfolding insert
  insert-AllEntries P k v [] p a = (p, tt)
  insert-AllEntries P k v ((j, w) ∷ m) p a = elim (Bool-cases (text_eq j k)) [
    | inl e ↦ rw e (p, a.1)
    | inr e ↦ rw e (elim (Bool-cases (text_lt k j)) [
      | inl l ↦ rw l (p, a)
      | inr l ↦ rw l (a.0, insert-AllEntries P k v m p a.1)
    ])
  ]

  pub remove-AllEntries {κ μ} :
      {P : Text → V → Type κ} {Q : Text → V → Type μ} (k : Text) (m : BTreeMap V)
      → ((j : Text) (v : V) → text_eq j k ≡ false → P j v → Q j v)
      → AllEntries P m
      → AllEntries Q (remove k m)
  unfolding remove
  remove-AllEntries k [] f a = tt
  remove-AllEntries k ((j, w) ∷ m) f a = elim (Bool-cases (text_eq j k)) [
    | inl e ↦ rw e (remove-AllEntries k m f a.1)
    | inr e ↦ rw e (f j w e a.0, remove-AllEntries k m f a.1)
  ]

  pub get-AllEntries {κ} :
      (P : Text → V → Type κ) (k : Text) (m : BTreeMap V) (v : V)
      → AllEntries P m
      → get k m ≡ some v
      → P k v
  unfolding get
  get-AllEntries P k [] v a e = cc
  get-AllEntries P k ((j, w) ∷ m) v a e = elim (Bool-cases (text_eq j k)) [
    | inl same ↦
        subst (λ i. P i v) ((text_eq_iff j k).0 same)
          (subst (P j) (some-injective w v (ground arith)) a.0)
    | inr other ↦ get-AllEntries P k m v a.1 (ground arith)
  ]

module _ {ℓ} {V : Type ℓ} (k : Text) (f : V → V) where
  Above-adjust : (j : Text) (m : BTreeMap V) → Above j m → Above j (adjust k f m)
  unfolding adjust
  Above-adjust j [] a = tt
  Above-adjust j ((i, v) ∷ m) a = elim (Bool-cases (text_eq i k)) [
    | inl e ↦ rw e (a.0, Above-adjust j m a.1)
    | inr e ↦ rw e (a.0, Above-adjust j m a.1)
  ]

  pub adjust-IsSorted : (m : BTreeMap V) → IsSorted m → IsSorted (adjust k f m)
  unfolding adjust
  adjust-IsSorted [] s = tt
  adjust-IsSorted ((i, v) ∷ m) s = elim (Bool-cases (text_eq i k)) [
    | inl e ↦ rw e (Above-adjust i m s.0, adjust-IsSorted m s.1)
    | inr e ↦ rw e (Above-adjust i m s.0, adjust-IsSorted m s.1)
  ]

  pub Has-adjust : (j : Text) (m : BTreeMap V) → Has j m → Has j (adjust k f m)
  unfolding adjust get
  Has-adjust j [] h = h
  Has-adjust j ((i, v) ∷ m) h = ground (arith, Has-adjust j m)

  pub adjust-AllEntries {κ μ} :
      (P : Text → V → Type κ) (Q : Text → V → Type μ) (m : BTreeMap V)
      → ((j : Text) (v : V) → P j v → Q j v × Q j (f v))
      → AllEntries P m
      → AllEntries Q (adjust k f m)
  unfolding adjust
  adjust-AllEntries P Q [] g a = tt
  adjust-AllEntries P Q ((i, v) ∷ m) g a = elim (Bool-cases (text_eq i k)) [
    | inl e ↦ rw e ((g i v a.0).1, adjust-AllEntries P Q m g a.1)
    | inr e ↦ rw e ((g i v a.0).0, adjust-AllEntries P Q m g a.1)
  ]
