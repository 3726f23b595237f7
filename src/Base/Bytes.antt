-- ===== src/Base/Bytes.antt =====
-- Texts and bytes: UTF-8 both ways, the FNV-1a hash of the code's stable ids, and hexadecimal.
use Prim.Native.Nat.{ℕ, zero, suc, ◌+◌, ◌-◌, ◌*◌, ◌/◌, ◌%◌, ◌^◌, ◌<◌, bit_xor}
use mathlib.Core.Path.{◌≡◌, refl}
use mathlib.Core.Bool.{◌&&◌}
use mathlib.Core.List.{List, [], ◌∷◌, ◌++◌}
use native.Mathlib.Omega.{arith}
use octty.Base.Tests.{ltb, leb, ◌==◌, if◌then◌else◌}
use octty.Base.Lists.{All}
use octty.Base.Strings.{Text}

-- The bytes of a text.
unfoldable pub utf8_char : ℕ → List ℕ
utf8_char c =
    if ltb c 0x80
    then c ∷ []
    else if ltb c 0x800
    then (0xc0 + c / 64) ∷ (0x80 + c % 64) ∷ []
    else if ltb c 0x10000
    then (0xe0 + c / 4096) ∷ (0x80 + c / 64 % 64) ∷ (0x80 + c % 64) ∷ []
    else (0xf0 + c / 262144) ∷ (0x80 + c / 4096 % 64) ∷ (0x80 + c / 64 % 64) ∷ (0x80 + c % 64) ∷ []

unfoldable pub utf8 : Text → List ℕ
unfolding utf8_char
utf8 [] = []
utf8 (c ∷ t) = utf8_char c ++ utf8 t

-- `more n lo hi acc`: n continuation bytes are due, the next one between lo and hi.
pub data Pending : Type 0 where
  ready : Pending
  more : ℕ → ℕ → ℕ → ℕ → Pending

abbrev replacement : ℕ
replacement = 0xfffd

abbrev start : ℕ → Text × Pending
start b =
    if ltb b 0x80
    then (b ∷ [], ready)
    else if leb 0xc2 b && leb b 0xdf
    then ([], more 1 0x80 0xbf (b - 0xc0))
    else if b == 0xe0
    then ([], more 2 0xa0 0xbf 0)
    else if b == 0xed
    then ([], more 2 0x80 0x9f 13)
    else if leb 0xe1 b && leb b 0xef
    then ([], more 2 0x80 0xbf (b - 0xe0))
    else if b == 0xf0
    then ([], more 3 0x90 0xbf 0)
    else if b == 0xf4
    then ([], more 3 0x80 0x8f 4)
    else if leb 0xf1 b && leb b 0xf3
    then ([], more 3 0x80 0xbf (b - 0xf0))
    else (replacement ∷ [], ready)

abbrev feed : Pending → ℕ → Text × Pending
feed ready b = start b
feed (more n lo hi acc) b =
    if leb lo b && leb b hi
    then (if n == 1
        then ((acc * 64 + (b - 0x80)) ∷ [], ready)
        else ([], more (n - 1) 0x80 0xbf (acc * 64 + (b - 0x80))))
    else (replacement ∷ (start b).0, (start b).1)

decode : Pending → List ℕ → Text
decode ready [] = []
decode (more n lo hi acc) [] = replacement ∷ []
decode p (b ∷ bs) = (feed p b).0 ++ decode (feed p b).1 bs

-- `String::from_utf8_lossy`: each maximal part of a broken sequence becomes one replacement.
unfoldable pub from_utf8_lossy : List ℕ → Text
unfolding decode
from_utf8_lossy bytes = decode ready bytes

-- ASCII is its own decoding.
pub from_utf8_lossy_ascii : (bs : List ℕ) → All (λ b. b < 0x80) bs → from_utf8_lossy bs ≡ bs
unfolding from_utf8_lossy
from_utf8_lossy_ascii [] a = refl
from_utf8_lossy_ascii (b ∷ bs) a = ground (arith, from_utf8_lossy_ascii bs a.1)

-- FNV-1a on 64 bits, the loop that the code writes out where it makes ids.
unfoldable pub fnv_loop : ℕ → List ℕ → ℕ
fnv_loop hash [] = hash
fnv_loop hash (b ∷ bs) = fnv_loop (bit_xor hash b * 0x100000001b3 % 2 ^ 64) bs

unfoldable pub fnv : List ℕ → ℕ
unfolding fnv_loop
fnv bytes = fnv_loop 0xcbf29ce484222325 bytes

fnv_loop-lt : (hash : ℕ) (bs : List ℕ) → hash < 2 ^ 64 → fnv_loop hash bs < 2 ^ 64
unfolding fnv_loop
fnv_loop-lt hash [] h = h
fnv_loop-lt hash (b ∷ bs) h = fnv_loop-lt (bit_xor hash b * 0x100000001b3 % 2 ^ 64) bs (omega arith)

pub fnv-lt : (bs : List ℕ) → fnv bs < 2 ^ 64
unfolding fnv
fnv-lt bs = fnv_loop-lt 0xcbf29ce484222325 bs (omega arith)

hex_digit : ℕ → ℕ
hex_digit d = if ltb d 10 then 48 + d else 87 + d

-- The last `n` hexadecimal digits, the first one first.
unfoldable pub hex : ℕ → ℕ → Text
unfolding hex_digit
hex zero h = []
hex (suc n) h = hex n (h / 16) ++ (hex_digit (h % 16) ∷ [])

-- `format!("{h:016x}")` of a `u64`
unfoldable pub hex16 : ℕ → Text
unfolding hex
hex16 h = hex 16 h

-- Sixteen digits determine a number of 64 bits.
shifted : ℕ → ℕ → ℕ
shifted zero h = h
shifted (suc n) h = shifted n (h / 16)

hex_digit_inj : (d e : ℕ) → d < 16 → e < 16 → hex_digit d ≡ hex_digit e → d ≡ e
unfolding hex_digit
hex_digit_inj d e hd he h = ground arith

snoc_inj : (xs ys : Text) (x y : ℕ) → xs ++ (x ∷ []) ≡ ys ++ (y ∷ []) → (xs ≡ ys) × (x ≡ y)
snoc_inj [] [] x y e = ground arith
snoc_inj [] (b ∷ []) x y e = ground arith
snoc_inj [] (b ∷ (c ∷ ys)) x y e = ground arith
snoc_inj (a ∷ []) [] x y e = ground arith
snoc_inj (a ∷ (c ∷ xs)) [] x y e = ground arith
snoc_inj (a ∷ xs) (b ∷ ys) x y e = ground (arith, snoc_inj xs ys x y)

hex_inj : (n h k : ℕ) → hex n h ≡ hex n k → shifted n h ≡ shifted n k → h ≡ k
unfolding hex shifted
hex_inj zero h k e s = s
hex_inj (suc n) h k e s =
    let ends = snoc_inj (hex n (h / 16)) (hex n (k / 16)) _ _ e in
    let high = hex_inj n (h / 16) (k / 16) ends.0 s in
    let low = hex_digit_inj (h % 16) (k % 16) (omega arith) (omega arith) ends.1 in omega arith

pub hex16_inj : (h k : ℕ) → h < 2 ^ 64 → k < 2 ^ 64 → hex16 h ≡ hex16 k → h ≡ k
unfolding hex16 shifted
hex16_inj h k hh hk e = hex_inj 16 h k e (omega arith)
