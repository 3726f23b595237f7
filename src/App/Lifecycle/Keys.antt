-- ===== src/App/Lifecycle/Keys.antt =====
-- crates/octty-app/src/terminal_lifecycle.rs and crates/octty-term/src/retach.rs: the names of keys and
-- the bytes that are sent for them.
use octty.Base.{
  all-range, Bool-cases, inl, inr, get_elem?, ℕ, ◌≤◌, ◌<◌, leb, ltb, ◌==◌, Bool, true, false, ◌&&◌,
  ◌||◌, Option, none, some, Text, codes, lower, List, [], ◌∷◌, ◌++◌, ◌≡◌, refl, arith,
}
use octty.Base.Decimal.{show}
use octty.Base.Bytes.{utf8, utf8_char}
use octty.Term.Keyboard.{LiveTerminalKey, character, enter, space, f, LiveTerminalKeyInput}
use octty.Term.Retach.Sessions.{retach_key_bytes, control_byte}
use octty.App.Lifecycle.{key_name, retach_key_for_live_key}

abbrev pub starts_with_control : List ℕ → Bool
starts_with_control [] = false
starts_with_control (b ∷ bs) = ltb b 32 || b == 127

abbrev pub IsSentAsControl : Option Text → Type 0
IsSentAsControl none = Unit {0}
IsSentAsControl (some name) = starts_with_control (retach_key_bytes name) ≡ true

utf8-character : (c : ℕ) → (b : ℕ) × (bs : List ℕ) × (utf8 (c ∷ []) ≡ b ∷ bs)
unfolding utf8 utf8_char
utf8-character c = elim (Bool-cases (ltb c 0x80)) [
  | inl e ↦ rw e (_, _, refl)
  | inr e ↦ rw e (elim (Bool-cases (ltb c 0x800)) [
    | inl e' ↦ rw e' (_, _, refl)
    | inr e' ↦ rw e' (elim (Bool-cases (ltb c 0x10000)) [
      | inl e'' ↦ rw e'' (_, _, refl)
      | inr e'' ↦ rw e'' (_, _, refl)
    ])
  ])
]

control_bytes :
    (c : ℕ) → retach_key_bytes (codes "C-" ++ (c ∷ [])) ≡ control_byte (get_elem? (utf8 (c ∷ [])) 0)
unfolding retach_key_bytes
control_bytes c = refl

character_IsSentAsControl : (c : ℕ) → IsSentAsControl (key_name (character c) true)
character_IsSentAsControl c =
    let (b, bs, e) = utf8-character (lower c) in rw (control_bytes (lower c)) (rw e (ground arith))

function_key_IsSentAsControl : (n : ℕ) → 1 ≤ n → n < 13 → IsSentAsControl (some (b'F' ∷ show n))
unfolding retach_key_bytes show
function_key_IsSentAsControl n h k =
    all-range (λ n. starts_with_control (retach_key_bytes (b'F' ∷ show n))) 1 12 refl n h k

named_IsSentAsControl :
    (key : LiveTerminalKey) (control : Bool) → IsSentAsControl (key_name key control)
unfolding retach_key_bytes
named_IsSentAsControl (character c) true = character_IsSentAsControl c
named_IsSentAsControl (f number) control = elim (Bool-cases (leb 1 number && leb number 12)) [
  | inl e ↦ rw e (function_key_IsSentAsControl number (ground arith) (ground arith))
  | inr e ↦ rw e tt
]
named_IsSentAsControl (character c) false = tt
named_IsSentAsControl space control = tt
named_IsSentAsControl enter control = refl
named_IsSentAsControl _ control = refl

-- A key without a text that is sent to a session by its name reaches the program as a control
-- character or as an escape sequence: its name is known to the sender, and is never typed out.
pub retach_key_for_live_key-IsSentAsControl :
    (input : LiveTerminalKeyInput) → IsSentAsControl (retach_key_for_live_key input)
unfolding retach_key_for_live_key
retach_key_for_live_key-IsSentAsControl input =
    named_IsSentAsControl input.key input.modifiers.control
