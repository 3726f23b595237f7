-- ===== src/App/Keys/Input.antt =====
-- crates/octty-app/src/input.rs (with crates/octty-term/src/live_input.rs): what holds of every
-- input that the terminal gets from the keyboard.
use octty.Base.{ℕ, ◌<◌, ◌≤◌, Bool, true, false, ◌||◌, Option, none, some, option_map}
use octty.Base.{codes, text_eq_iff, Text, to_ascii_lowercase, if◌then◌else◌}
use octty.Base.{◌≡◌, refl, arith, inl, inr, all, range, all-range, ◌⊎◌}
use mathlib.Core.Path.{subst}
use octty.Term.Keyboard.{
  LiveTerminalKeyInput, LiveTerminalKey, character, key_from_live_key, unidentified, Key,
}
use octty.App.Keys.{KeyParts}
use octty.App.Keys.Terminal.{
  is_reserved, breaks_line, live_terminal_input, unshifted_character, unshifted_of, modifiers_of,
  bare_input, live_key, live_terminal_printable_input, terminal_control_j_input,
  terminal_printable_key_text, printable_text, input_of_text,
  synthesized_terminal_printable_key_text,
}

-- Enter with Shift and no other modifier.
pub record IsShiftEnter (p : KeyParts) : Type 0 where
  pub shift : p.shift ≡ true
  pub control : p.control ≡ false
  pub alt : p.alt ≡ false
  pub platform : p.platform ≡ false
  pub enter :
      (to_ascii_lowercase p.key ≡ codes "enter") ⊎ (to_ascii_lowercase p.key ≡ codes "return")

-- Shift and Enter become Control and j, and every other key keeps the pressed modifiers.
abbrev pub Agrees : KeyParts → LiveTerminalKeyInput → Type 0
Agrees p i =
    (IsShiftEnter p × (i ≡ terminal_control_j_input))
    ⊎ ((IsShiftEnter p → ⊥) × (i.modifiers ≡ modifiers_of p))

breaks_line_lem :
    (p : KeyParts)
    → (breaks_line p ≡ true → IsShiftEnter p) × (breaks_line p ≡ false → IsShiftEnter p → ⊥)
breaks_line_lem p = (
  λ b. record {
    shift = ground (arith, b);
    control = ground (arith, b);
    alt = ground (arith, b);
    platform = ground (arith, b);
    enter = ground (
      arith,
      b,
      text_eq_iff (to_ascii_lowercase p.key) (codes "enter"),
      text_eq_iff (to_ascii_lowercase p.key) (codes "return"),
    );
  },
  λ b e. ground (
    arith,
    b,
    e.shift,
    e.control,
    e.alt,
    e.platform,
    e.enter,
    text_eq_iff (to_ascii_lowercase p.key) (codes "enter"),
    text_eq_iff (to_ascii_lowercase p.key) (codes "return"),
  ),
)

-- The code point without shift is that of the key; text comes only without Control and Platform.
abbrev pub IsCoherent : KeyParts → LiveTerminalKeyInput → Type 0
IsCoherent p i =
    (i.unshifted ≡ unshifted_of i.key)
    × ((t : Text) → i.text ≡ some t → (p.control ≡ false) × (p.platform ≡ false))
    × Agrees p i

abbrev Fine : KeyParts → Option LiveTerminalKeyInput → Type 0
Fine p o = (i : LiveTerminalKeyInput) → o ≡ some i → IsCoherent p i

text_alone :
    (p : KeyParts) (k t : Text)
    → printable_text p k ≡ some t
    → (p.control ≡ false) × (p.platform ≡ false)
unfolding terminal_printable_key_text synthesized_terminal_printable_key_text
text_alone p k t h = ground arith

some_inj {ℓ} : {A : Type ℓ} (a b : A) → some a ≡ some b → a ≡ b
some_inj a b h = ground arith

printed :
    (p : KeyParts) (k t : Text)
    → (IsShiftEnter p → ⊥)
    → printable_text p k ≡ some t
    → IsCoherent p (live_terminal_printable_input t p)
unfolding live_terminal_printable_input
printed p k t other h = (refl, (λ u e. text_alone p k t h), inr (other, refl))

bare : (p : KeyParts) (k : LiveTerminalKey) → (IsShiftEnter p → ⊥) → IsCoherent p (bare_input p k)
bare p k other = (refl, (λ u e. absurd (ground arith)), inr (other, refl))

control_j : (p : KeyParts) → IsShiftEnter p → IsCoherent p terminal_control_j_input
unfolding terminal_control_j_input
control_j p s = (refl, (λ u e. absurd (ground arith)), inl (s, refl))

of_text :
    (p : KeyParts) (k : Text) (o : Option Text)
    → (IsShiftEnter p → ⊥)
    → printable_text p k ≡ o
    → Fine p (input_of_text p k o)
of_text p k (some t) other h i e =
    subst (λ v. IsCoherent p v) (some_inj _ _ e) (printed p k t other h)
of_text p k none other h i e = from_key (live_key k) e
  where
    from_key : (o : Option LiveTerminalKey) → option_map (bare_input p) o ≡ some i → IsCoherent p i
    from_key none e = absurd (ground arith)
    from_key (some v) e = subst (λ v. IsCoherent p v) (some_inj _ _ e) (bare p v other)

choose_coherent :
    (p : KeyParts) (b : Bool) (o : Option LiveTerminalKeyInput)
    → breaks_line p ≡ b
    → ((IsShiftEnter p → ⊥) → Fine p o)
    → Fine p (if b then some terminal_control_j_input else o)
choose_coherent p true o e f i h =
    subst (λ v. IsCoherent p v) (some_inj _ _ h) (control_j p ((breaks_line_lem p).0 e))
choose_coherent p false o e f i h = f ((breaks_line_lem p).1 e) i h

guarded :
    (p : KeyParts) (b : Bool) (o : Option LiveTerminalKeyInput)
    → Fine p o
    → Fine p (if b then none else o)
guarded p true o f i h = absurd (ground arith)
guarded p false o f i h = f i h

-- Every input for the terminal is coherent: its code point without shift is that of its key, it
-- brings text only if Control and Platform are up, and Enter with Shift alone is Control and j,
-- while every other input has the pressed modifiers.
pub live_terminal_input-IsCoherent :
    (p : KeyParts) (i : LiveTerminalKeyInput) → live_terminal_input p ≡ some i → IsCoherent p i
unfolding live_terminal_input
live_terminal_input-IsCoherent p i e =
    guarded p (p.function || is_reserved p) _
      (choose_coherent p (breaks_line p) _ refl (λ other.
        of_text p (to_ascii_lowercase p.key) (printable_text p (to_ascii_lowercase p.key)) other
          refl))
      i e

abbrev pub is_identified : Key → Bool
is_identified k = elim k [ unidentified ↦ false | _ ↦ true ]

-- Every printable character of ASCII, put back to its key without shift, is a key that the encoder
-- knows.
pub printable_identified :
    (c : ℕ)
    → 32 ≤ c
    → c < 127
    → is_identified (key_from_live_key (character (unshifted_character c))) ≡ true
printable_identified c l u =
    all-range (λ c. is_identified (key_from_live_key (character (unshifted_character c)))) 32 95
      tested c l (omega (arith, u))
  where
    tested :
        all
          (λ c. is_identified (key_from_live_key (character (unshifted_character c))))
          (range 32 95)
        ≡ true
    tested = unfold key_from_live_key unshifted_character in refl
