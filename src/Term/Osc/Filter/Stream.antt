-- ===== src/Term/Osc/Filter/Stream.antt =====
-- crates/octty-term/src/live_notifications.rs: what `TerminalOscPassthroughFilter` lets through.
use octty.Base.{ℕ, ◌+◌, ◌≤◌, false, ◌==◌, List, [], ◌∷◌, ◌++◌, length, All, if◌then◌else◌}
use octty.Base.{◌≡◌, ◌∙◌, refl, sym, arith, length-append, ap, append_assoc, append-nil}
use octty.Term.Notify.{should_strip_terminal_osc_sequence}
use octty.Term.Osc.{osc, esc, osc_max_notification_bytes}
use octty.Term.Osc.Parser.Sequence.{
  IsPayload, Terminator, by_bel, by_string_terminator, terminator_bytes, osc_sequence,
}
use octty.Term.Osc.Filter.{
  TerminalOscPassthroughFilter, at_rest, push_osc_byte, finish_sequence, push_byte, push,
}

-- How the output is cut into chunks does not matter to what comes out.
pub filter_chunks :
    (xs ys : List ℕ) (f : TerminalOscPassthroughFilter)
    → push f (xs ++ ys) ≡ ((push (push f xs).0 ys).0, (push f xs).1 ++ (push (push f xs).0 ys).1)
unfolding push
filter_chunks [] ys f = refl
filter_chunks (x ∷ xs) ys f = rw (filter_chunks xs ys (push_byte f x).0) (
    ap (λ o. ((push (push (push_byte f x).0 xs).0 ys).0, o))
      (sym (
        append_assoc (push_byte f x).1 (push (push_byte f x).0 xs).1
          (push (push (push_byte f x).0 xs).0 ys).1)))

-- Output with no ESC in it is passed on as it is.
pub push-plain :
    (bytes : List ℕ) → All (λ b. b == esc ≡ false) bytes → push at_rest bytes ≡ (at_rest, bytes)
unfolding push push_byte
push-plain [] a = refl
push-plain (b ∷ bytes) a = rw (a.0, push-plain bytes a.1)

abbrev collecting : List ℕ → List ℕ → TerminalOscPassthroughFilter
collecting read held = record { state = osc; data_bytes = held; sequence = read }

push_byte-payload :
    (read held : List ℕ) (byte : ℕ)
    → IsPayload byte
    → length held + 1 ≤ osc_max_notification_bytes
    → push_byte (collecting read held) byte
      ≡ (collecting (read ++ (byte ∷ [])) (held ++ (byte ∷ [])), [])
unfolding push_byte push_osc_byte
push_byte-payload read held byte a h = ground arith

push-payload :
    (payload read held rest : List ℕ)
    → All IsPayload payload
    → length held + length payload ≤ osc_max_notification_bytes
    → push (collecting read held) (payload ++ rest)
      ≡ push (collecting (read ++ payload) (held ++ payload)) rest
unfolding push
push-payload [] read held rest a h = rw (append-nil held, append-nil read)
push-payload (b ∷ payload) read held rest a h =
    rw (push_byte-payload read held b a.0 (omega arith)) (
      push-payload payload (read ++ (b ∷ [])) (held ++ (b ∷ [])) rest a.1
        (omega (arith, length-append held (b ∷ [])))
      ∙ ap (λ d. push (collecting d ((held ++ (b ∷ [])) ++ payload)) rest)
          (append_assoc read (b ∷ []) payload)
      ∙ ap (λ d. push (collecting (read ++ (b ∷ payload)) d) rest)
          (append_assoc held (b ∷ []) payload))

abbrev left_of : List ℕ → List ℕ → List ℕ
left_of read held = if should_strip_terminal_osc_sequence held then [] else read

push-terminator :
    (read held : List ℕ) (end : Terminator) (rest : List ℕ)
    → push (collecting read held) (terminator_bytes end ++ rest) ≡ (
      (push at_rest rest).0,
      left_of (read ++ terminator_bytes end) held ++ (push at_rest rest).1,
    )
unfolding push push_byte finish_sequence
push-terminator read held by_bel rest = refl
push-terminator read held by_string_terminator rest = rw (append_assoc read (esc ∷ []) (b'\\' ∷ []))

push-introducer :
    (bytes : List ℕ)
    → push at_rest (esc ∷ (b']' ∷ bytes)) ≡ push (collecting (esc ∷ (b']' ∷ [])) []) bytes
unfolding push push_byte
push-introducer bytes = refl

-- A filter at rest that reads a complete command, with a payload within the limit and with no ESC
-- and no BEL in it, takes it out as a whole when the payload is a mark of shell integration, passes
-- it on byte for byte otherwise, and is at rest again for what follows.
pub osc_sequence_filtered :
    (payload : List ℕ) (end : Terminator) (rest : List ℕ)
    → All IsPayload payload
    → length payload ≤ osc_max_notification_bytes
    → push at_rest (osc_sequence payload end ++ rest) ≡ (
      (push at_rest rest).0,
      (if should_strip_terminal_osc_sequence payload then [] else osc_sequence payload end)
          ++ (push at_rest rest).1,
    )
osc_sequence_filtered payload end rest a h =
    ap (λ t. push at_rest (esc ∷ (b']' ∷ t))) (append_assoc payload (terminator_bytes end) rest)
    ∙ push-introducer (payload ++ (terminator_bytes end ++ rest))
    ∙ push-payload payload (esc ∷ (b']' ∷ [])) [] (terminator_bytes end ++ rest) a
        (omega (arith, h))
    ∙ push-terminator (esc ∷ (b']' ∷ payload)) payload end rest

push_byte-overflow :
    (read held : List ℕ) (byte : ℕ)
    → IsPayload byte
    → length held ≡ osc_max_notification_bytes
    → push_byte (collecting read held) byte ≡ (at_rest, read)
unfolding push_byte push_osc_byte
push_byte-overflow read held byte a h = ground arith

push-overflow :
    (read held : List ℕ) (byte : ℕ) (rest : List ℕ)
    → IsPayload byte
    → length held ≡ osc_max_notification_bytes
    → push (collecting read held) (byte ∷ rest)
      ≡ ((push at_rest rest).0, read ++ (push at_rest rest).1)
unfolding push
push-overflow read held byte rest b h = rw (push_byte-overflow read held byte b h)

-- A payload of the largest size that goes on with one more plain byte: the filter gives up, passes
-- on the sequence without that byte, and is at rest for what follows.
pub overflow_lem :
    (payload : List ℕ) (byte : ℕ) (rest : List ℕ)
    → All IsPayload payload
    → IsPayload byte
    → length payload ≡ osc_max_notification_bytes
    → push at_rest (esc ∷ (b']' ∷ (payload ++ (byte ∷ rest))))
      ≡ ((push at_rest rest).0, (esc ∷ (b']' ∷ payload)) ++ (push at_rest rest).1)
overflow_lem payload byte rest a b h =
    push-introducer (payload ++ (byte ∷ rest))
    ∙ push-payload payload (esc ∷ (b']' ∷ [])) [] (byte ∷ rest) a (omega arith)
    ∙ push-overflow (esc ∷ (b']' ∷ payload)) payload byte rest b h
