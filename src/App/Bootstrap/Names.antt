-- ===== src/App/Bootstrap/Names.antt =====
-- crates/octty-app/src/bootstrap.rs: the display name that the user types.
use octty.Base.{
  ℕ, if◌then◌else◌, false, Bool-cases, inl, inr, Text, codes, is_whitespace, join, List, [], ◌∷◌,
  ◌++◌, All, ◌≡◌, ◌≢◌, refl, sym, ap, ◌∙◌, append_assoc, append-nil,
}

-- A word in front of others, if it has begun.
abbrev pub begun : Text → List Text → List Text
begun [] words = words
begun (c ∷ word) words = (c ∷ word) ∷ words

-- The word that a text begins with, which is empty at a white space, and the words behind it.
unfoldable pub pieces : Text → Text × List Text
pieces [] = ([], [])
pieces (c ∷ t) =
    let rest = pieces t in
    if is_whitespace c then ([], begun rest.0 rest.1) else (c ∷ rest.0, rest.1)

unfoldable pub split_whitespace : Text → List Text
unfolding pieces
split_whitespace t = begun (pieces t).0 (pieces t).1

unfoldable pub sanitize_display_name : Text → Text
unfolding split_whitespace join
sanitize_display_name input = join (codes " ") (split_whitespace input)

abbrev pub IsInWord : ℕ → Type 0
IsInWord c = is_whitespace c ≡ false

abbrev pub IsWord : Text → Type 0
IsWord w = (w ≢ []) × All IsInWord w

begun-IsWord :
    (w : Text) (ws : List Text) → All IsInWord w → All IsWord ws → All IsWord (begun w ws)
begun-IsWord [] ws a b = b
begun-IsWord (c ∷ w) ws a b = ((λ e. absurd (cc (e)), a), b)

pieces-IsWord : (t : Text) → All IsInWord (pieces t).0 × All IsWord (pieces t).1
unfolding pieces
pieces-IsWord [] = (tt, tt)
pieces-IsWord (c ∷ t) =
    let (word, words) = pieces-IsWord t in
    elim (Bool-cases (is_whitespace c)) [
      | inl e ↦ rw e (tt, begun-IsWord (pieces t).0 (pieces t).1 word words)
      | inr e ↦ rw e ((e, word), words)
    ]

split_whitespace-IsWord : (t : Text) → All IsWord (split_whitespace t)
unfolding split_whitespace
split_whitespace-IsWord t =
    begun-IsWord (pieces t).0 (pieces t).1 (pieces-IsWord t).0 (pieces-IsWord t).1

begun-cons : (w : Text) (ws : List Text) → w ≢ [] → begun w ws ≡ w ∷ ws
begun-cons [] ws n = absurd (n refl)
begun-cons (c ∷ w) ws n = refl

pieces-append :
    (w rest : Text) → All IsInWord w → pieces (w ++ rest) ≡ (w ++ (pieces rest).0, (pieces rest).1)
unfolding pieces
pieces-append [] rest a = refl
pieces-append (c ∷ w) rest a =
    rw a.0 (ap (λ (p : Text × List Text). (c ∷ p.0, p.1)) (pieces-append w rest a.1))

pieces-space : (t : Text) → pieces (32 ∷ t) ≡ ([], split_whitespace t)
unfolding pieces split_whitespace is_whitespace
pieces-space t = refl

split-append :
    (w rest : Text) (ws : List Text)
    → IsWord w
    → pieces rest ≡ ([], ws)
    → split_whitespace (w ++ rest) ≡ w ∷ ws
unfolding split_whitespace
split-append w rest ws (n, a) e =
    ap (λ (p : Text × List Text). begun p.0 p.1) (pieces-append w rest a)
    ∙ ap (λ (p : Text × List Text). begun (w ++ p.0) p.1) e
    ∙ ap (λ v. begun v ws) (append-nil w)
    ∙ begun-cons w ws n

split_whitespace-join :
    (ws : List Text) → All IsWord ws → split_whitespace (join (codes " ") ws) ≡ ws
unfolding join
split_whitespace-join [] a = unfold split_whitespace pieces in refl
split_whitespace-join (w ∷ []) a =
    ap split_whitespace (sym (append-nil w)) ∙ split-append w [] [] a.0 (unfold pieces in refl)
split_whitespace-join (w ∷ (v ∷ ws)) a =
    let rest = join (codes " ") (v ∷ ws) in
    ap split_whitespace (append_assoc w (codes " ") rest)
    ∙ split-append w (32 ∷ rest) (v ∷ ws) a.0
        (pieces-space rest ∙ ap (λ l. ([], l)) (split_whitespace-join (v ∷ ws) a.1))

-- A display name is cleaned to the words that were typed, with one space between two of them and none
-- at the ends: it has the same words, and to clean it again changes nothing.
pub split_whitespace-sanitize_display_name :
    (input : Text)
    → (split_whitespace (sanitize_display_name input) ≡ split_whitespace input)
      × (sanitize_display_name (sanitize_display_name input) ≡ sanitize_display_name input)
unfolding sanitize_display_name
split_whitespace-sanitize_display_name input =
    let e = split_whitespace-join (split_whitespace input) (split_whitespace-IsWord input) in
    (e, ap (join (codes " ")) e)
