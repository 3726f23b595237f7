-- ===== src/Jj/World.antt =====
-- crates/octty-jj/src/lib.rs: what the calls of `jj` use of the outside world, and how they fail. The
-- processes, the file system and the clock are parameters.
use package.octty.Base.{ℕ, ℤ, Text, codes, Bool, ◌⊎◌, Option, none, some, List, ◌++◌}

pub data JjError : Type 0 where
  command : Text → JjError
  io : Text → JjError

pub data Result {ℓ} (A : Type ℓ) : Type ℓ where
  ok : A → Result A
  err : JjError → Result A

-- What a finished process leaves: whether it succeeded, and the bytes it wrote.
pub record Output : Type 0 where
  pub success : Bool
  pub stdout : List ℕ
  pub stderr : List ℕ

-- A path, as UTF-8 if it can be read so, and as it is displayed.
pub record FilePath : Type 0 where
  pub to_str : Option Text
  pub display : Text

-- The outside world: `Command::output`, `canonicalize` with a lossy text of its result, the clock.
-- A call that does not come about gives the text of its error.
pub record Outside : Type 1 where
  pub World : Type 0
  pub spawn : FilePath → List Text → World → (Text × World) ⊎ (Output × World)
  pub canonicalize : Text → World → (Text × World) ⊎ (FilePath × World)
  pub now_ms : World → ℤ × World

abbrev pub str_path : Text → FilePath
str_path t = record { to_str = some t; display = t }

-- The calls run one after the other, each in the world that the one before left.
abbrev pub M : Type 0 → Type 0 → Type 0
M World A = World → Result A × World

unfoldable pub after : {World A B : Type 0} → (A → M World B) → Result A × World → Result B × World
after f (ok a, w) = f a w
after f (err e, w) = (err e, w)

infixl 5 ◌>>=◌ ◌>>◌
abbrev pub ◌>>=◌ : {World A B : Type 0} → M World A → (A → M World B) → M World B
◌>>=◌ m f w = after f (m w)

abbrev pub ◌>>◌ : {World A B : Type 0} → M World A → M World B → M World B
◌>>◌ m k w = after (λ _. k) (m w)

abbrev pub return : {World A : Type 0} → A → M World A
return a w = (ok a, w)

abbrev pub fail : {World A : Type 0} → JjError → M World A
fail e w = (err e, w)

abbrev pub caught : {World A : Type 0} → Result A × World → Result (Option A) × World
caught (ok a, w) = (ok (some a), w)
caught (err e, w) = (ok none, w)

-- `.ok()`
abbrev pub attempt : {World A : Type 0} → M World A → M World (Option A)
attempt m w = caught (m w)

abbrev pub path_str : {World : Type 0} → FilePath → M World Text
path_str p w = (
  elim p.to_str [
    | none ↦ err (command (codes "path is not valid UTF-8: " ++ p.display))
    | some t ↦ ok t
  ],
  w,
)
