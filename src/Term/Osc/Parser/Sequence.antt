-- ===== src/Term/Osc/Parser/Sequence.antt =====
-- crates/octty-term/src/live_notifications.rs: what `TerminalOscNotificationParser` makes of a
-- chunk, of a whole sequence and of a stream of any length.
use octty.Base.{ℕ, ◌+◌, ◌≤◌, false, ◌==◌, Option, none, some, List, [], ◌∷◌, ◌++◌, length, All}
use octty.Base.{◌≡◌, ◌∙◌, refl, arith, length-append, ap, append_assoc, append-nil}
use octty.Term.Notify.{TerminalNotification, parse_terminal_osc_notification}
use octty.Term.Osc.{
  TerminalOscParseState, escape, osc, osc_escape, osc_max_notification_bytes, esc, bel,
}
use octty.Term.Osc.Parser.{
  TerminalOscNotificationParser, push_osc_byte, finish_sequence, push_in, push_byte, push, noted,
}

-- The data a parser holds fits in the limit.
abbrev pub IsBounded : TerminalOscNotificationParser → Type 0
IsBounded p = length p.data_bytes ≤ osc_max_notification_bytes

push_osc_byte-IsBounded :
    (p : TerminalOscNotificationParser) (byte : ℕ) → IsBounded p → IsBounded (push_osc_byte p byte)
unfolding push_osc_byte
push_osc_byte-IsBounded p byte h = ground (arith, length-append p.data_bytes (byte ∷ []))

push_in-IsBounded :
    (s : TerminalOscParseState) (p : TerminalOscNotificationParser) (byte : ℕ)
    → IsBounded p
    → IsBounded (push_in s p byte).0
unfolding finish_sequence
push_in-IsBounded TerminalOscParseState.ground p byte h = ground arith
push_in-IsBounded escape p byte h = ground arith
push_in-IsBounded osc p byte h = ground (arith, push_osc_byte-IsBounded p byte h)
push_in-IsBounded osc_escape p byte h = ground (
  arith,
  push_osc_byte-IsBounded p esc h,
  push_osc_byte-IsBounded (push_osc_byte p esc) byte (push_osc_byte-IsBounded p esc h),
)

-- Whatever bytes come, the data held never grows beyond the limit.
pub push-IsBounded :
    (bytes : List ℕ) (p : TerminalOscNotificationParser) → IsBounded p → IsBounded (push p bytes).0
unfolding push push_byte
push-IsBounded [] p h = h
push-IsBounded (byte ∷ bytes) p h =
    push-IsBounded bytes (push_byte p byte).0 (push_in-IsBounded p.state p byte h)

noted-append :
    (n : Option TerminalNotification) (xs ys : List TerminalNotification)
    → noted n (xs ++ ys) ≡ noted n xs ++ ys
noted-append none xs ys = refl
noted-append (some v) xs ys = refl

-- How the output is cut into chunks does not matter: two chunks give what their concatenation
-- gives, in the same order.
pub push-append :
    (xs ys : List ℕ) (p : TerminalOscNotificationParser)
    → push p (xs ++ ys) ≡ ((push (push p xs).0 ys).0, (push p xs).1 ++ (push (push p xs).0 ys).1)
unfolding push
push-append [] ys p = refl
push-append (x ∷ xs) ys p = rw (push-append xs ys (push_byte p x).0) (
    ap (λ ns. ((push (push (push_byte p x).0 xs).0 ys).0, ns))
      (noted-append (push_byte p x).1 (push (push_byte p x).0 xs).1
        (push (push (push_byte p x).0 xs).0 ys).1))

-- A byte that neither begins an escape nor ends a sequence.
abbrev pub IsPayload : ℕ → Type 0
IsPayload byte = (byte == esc ≡ false) × (byte == bel ≡ false)

abbrev pub collecting : List ℕ → TerminalOscNotificationParser
collecting bytes = record { state = osc; data_bytes = bytes }

abbrev pub idle : List ℕ → TerminalOscNotificationParser
idle bytes = record { state = TerminalOscParseState.ground; data_bytes = bytes }

push_byte-payload :
    (held : List ℕ) (byte : ℕ)
    → IsPayload byte
    → length held + 1 ≤ osc_max_notification_bytes
    → push_byte (collecting held) byte ≡ (collecting (held ++ (byte ∷ [])), none)
unfolding push_byte push_osc_byte
push_byte-payload held byte a h = ground arith

push-payload :
    (payload : List ℕ) (held rest : List ℕ)
    → All IsPayload payload
    → length held + length payload ≤ osc_max_notification_bytes
    → push (collecting held) (payload ++ rest) ≡ push (collecting (held ++ payload)) rest
unfolding push
push-payload [] held rest a h = ground (arith, append-nil held)
push-payload (b ∷ payload) held rest a h = rw (push_byte-payload held b a.0 (omega arith)) (
    push-payload payload (held ++ (b ∷ [])) rest a.1 (omega (arith, length-append held (b ∷ [])))
    ∙ ap (λ d. push (collecting d) rest) (append_assoc held (b ∷ []) payload))

push-introducer :
    (held bytes : List ℕ) → push (idle held) (esc ∷ (b']' ∷ bytes)) ≡ push (collecting []) bytes
unfolding push push_byte
push-introducer held bytes = refl

push-bel :
    (held bytes : List ℕ)
    → push (collecting held) (bel ∷ bytes) ≡ (
      (push (idle []) bytes).0,
      noted (parse_terminal_osc_notification held) (push (idle []) bytes).1,
    )
unfolding push push_byte finish_sequence
push-bel held bytes = refl

push-string_terminator :
    (held bytes : List ℕ)
    → push (collecting held) (esc ∷ (b'\\' ∷ bytes)) ≡ (
      (push (idle []) bytes).0,
      noted (parse_terminal_osc_notification held) (push (idle []) bytes).1,
    )
unfolding push push_byte finish_sequence
push-string_terminator held bytes = refl

-- The two ends of a sequence: BEL, and ESC followed by a backslash.
pub data Terminator : Type 0 where
  by_bel by_string_terminator : Terminator

abbrev pub terminator_bytes : Terminator → List ℕ
terminator_bytes by_bel = bel ∷ []
terminator_bytes by_string_terminator = esc ∷ (b'\\' ∷ [])

-- An operating system command, from its introducer to its end.
abbrev pub osc_sequence : List ℕ → Terminator → List ℕ
osc_sequence payload end = (esc ∷ (b']' ∷ payload)) ++ terminator_bytes end

push-terminator :
    (held bytes : List ℕ) (end : Terminator)
    → push (collecting held) (terminator_bytes end ++ bytes) ≡ (
      (push (idle []) bytes).0,
      noted (parse_terminal_osc_notification held) (push (idle []) bytes).1,
    )
push-terminator held bytes by_bel = push-bel held bytes
push-terminator held bytes by_string_terminator = push-string_terminator held bytes

-- A parser outside any sequence that reads a complete command, with a payload within the limit and
-- with no ESC and no BEL in it, reports what the payload alone stands for, is outside again, and
-- reads what follows as if it were new.
pub push-osc_sequence :
    (held payload : List ℕ) (end : Terminator) (rest : List ℕ)
    → All IsPayload payload
    → length payload ≤ osc_max_notification_bytes
    → push (idle held) (osc_sequence payload end ++ rest) ≡ (
      (push (idle []) rest).0,
      noted (parse_terminal_osc_notification payload) (push (idle []) rest).1,
    )
push-osc_sequence held payload end rest a h =
    ap (λ t. push (idle held) (esc ∷ (b']' ∷ t))) (append_assoc payload (terminator_bytes end) rest)
    ∙ push-introducer held (payload ++ (terminator_bytes end ++ rest))
    ∙ push-payload payload [] (terminator_bytes end ++ rest) a (omega (arith, h))
    ∙ push-terminator payload rest end
