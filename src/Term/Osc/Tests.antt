-- ===== src/Term/Osc/Tests.antt =====
-- Runs of the two byte machines of crates/octty-term/src/live_notifications.rs.
use octty.Base.{
  ℕ, ◌≡◌, refl, codes, List, [], ◌∷◌, ◌++◌, replicate, length-replicate, zero, suc, if◌then◌else◌,
  All, arith,
}
use octty.Base.{strip_prefix, starts_with}
use octty.Base.Bytes.{from_utf8_lossy}
use octty.Term.Notify.{parse_terminal_osc_notification, should_strip_terminal_osc_sequence}
use octty.Term.Osc.{esc, osc_max_notification_bytes}
use octty.Term.Osc.Parser
use octty.Term.Osc.Filter
use octty.Term.Osc.Parser.{noted}
use octty.Term.Osc.Filter.{at_rest}
use octty.Term.Osc.Parser.Sequence.{
  idle, osc_sequence, by_bel, by_string_terminator, IsPayload, push-osc_sequence,
}
use octty.Term.Osc.Filter.Stream.{osc_sequence_filtered, overflow_lem}

abbrev greeting : List ℕ
greeting = codes "9;hello"

greeting-IsPayload : All IsPayload greeting
greeting-IsPayload = ground arith

push-osc_sequence_example :
    Parser.push (idle []) (osc_sequence greeting by_string_terminator ++ codes "$ ") ≡ (
      (Parser.push (idle []) (codes "$ ")).0,
      noted (parse_terminal_osc_notification greeting) (Parser.push (idle []) (codes "$ ")).1,
    )
push-osc_sequence_example =
    push-osc_sequence [] greeting by_string_terminator (codes "$ ") greeting-IsPayload
      (ground arith)

osc_sequence_filtered_example :
    Filter.push at_rest (osc_sequence (codes "133;A") by_bel ++ codes "ok") ≡ (
      (Filter.push at_rest (codes "ok")).0,
      (if should_strip_terminal_osc_sequence (codes "133;A")
            then []
            else osc_sequence (codes "133;A") by_bel)
          ++ (Filter.push at_rest (codes "ok")).1,
    )
osc_sequence_filtered_example =
    osc_sequence_filtered (codes "133;A") by_bel (codes "ok") (ground arith) (ground arith)

stripped : (Filter.push at_rest (osc_sequence (codes "133;A") by_bel ++ codes "ok")).1 ≡ codes "ok"
unfolding Filter.push Filter.push_byte should_strip_terminal_osc_sequence from_utf8_lossy
    starts_with strip_prefix
stripped = refl

-- A payload of the largest size.
abbrev longest : List ℕ
longest = replicate osc_max_notification_bytes b'x'

All-plain : (n : ℕ) → All IsPayload (replicate n b'x')
All-plain zero = tt
All-plain (suc n) = ((refl, refl), All-plain n)

overflow_lem_example : Filter.push at_rest (esc ∷ (b']' ∷ (longest ++ (b'y' ∷ codes "z")))) ≡ (
  (Filter.push at_rest (codes "z")).0,
  (esc ∷ (b']' ∷ longest)) ++ (Filter.push at_rest (codes "z")).1,
)
overflow_lem_example =
    overflow_lem longest b'y' (codes "z") (All-plain osc_max_notification_bytes) (refl, refl)
      (length-replicate {A = ℕ} osc_max_notification_bytes b'x')
