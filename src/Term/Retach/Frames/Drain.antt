-- ===== src/Term/Retach/Frames/Drain.antt =====
-- crates/octty-term/src/retach.rs: the loop that decodes what has arrived comes to an end.
use package.octty.Base.{
  ℕ, zero, suc, ◌+◌, ◌≤◌, ◌<◌, ◌⊎◌, Option, none, some, Text, List, [], ◌∷◌, ◌++◌, length, take,
  drop, ◌≡◌, ◌≢◌, refl, ap, ◌∙◌, arith,
}
use package.octty.Base.{length-append, length-drop, drop-append, take-append}
use octty.Term.Retach.{TerminalError, Result, ok, err}
use octty.Term.Retach.Frames.{
  FrameReader, max_frame_size, from_be_bytes, decode, decode_next, Flow, go_on, stop, handled,
  drain_round, drain,
}
use octty.Term.Retach.Frames.Laws.{
  unread, IsSound, Front, incomplete, broken, message, payload, framed, front, Answers,
  decode_next-Answers,
}

module _ {Msg : Type 0} (deserialize : List ℕ → Text ⊎ Msg) where
  payload-message :
      {m : Msg} {rest : List ℕ} (r : Result Msg) (xs : List ℕ)
      → payload r xs ≡ message m rest
      → (r ≡ ok m) × (xs ≡ rest)
  payload-message (err e) xs h = ground arith
  payload-message (ok m) xs h = ground arith

  framed-message :
      (len : ℕ) (xs : List ℕ) {m : Msg} {rest : List ℕ}
      → framed deserialize len xs ≡ message m rest
      → (len ≤ max_frame_size)
        × (len ≤ length xs)
        × (decode deserialize (take len xs) ≡ ok m)
        × (drop len xs ≡ rest)
  framed-message len xs h =
      ground (arith, payload-message (decode deserialize (take len xs)) (drop len xs))

  framed_lem :
      (len : ℕ) (xs : List ℕ) {m : Msg}
      → len ≤ max_frame_size
      → len ≤ length xs
      → decode deserialize (take len xs) ≡ ok m
      → framed deserialize len xs ≡ message m (drop len xs)
  framed_lem len xs small whole d = ground arith

  framed-append_message :
      (len : ℕ) (xs zs : List ℕ) {m : Msg} {rest : List ℕ}
      → framed deserialize len xs ≡ message m rest
      → framed deserialize len (xs ++ zs) ≡ message m (rest ++ zs)
  framed-append_message len xs zs {m} h =
      let (small, whole, d, behind) = framed-message len xs h in
      framed_lem len (xs ++ zs) small (omega (arith, length-append {0} xs zs))
        (ap (decode deserialize) (take-append len xs zs whole) ∙ d)
      ∙ ap (message m) (drop-append len xs zs whole ∙ ap (λ r. r ++ zs) behind)

  -- A message takes at least the four bytes of its header.
  pub front-shorter :
      (xs : List ℕ) {m : Msg} {rest : List ℕ}
      → front deserialize xs ≡ message m rest
      → length rest + 4 ≤ length xs
  unfolding front
  front-shorter [] h = ground arith
  front-shorter (a ∷ []) h = ground arith
  front-shorter (a ∷ (b ∷ [])) h = ground arith
  front-shorter (a ∷ (b ∷ (c ∷ []))) h = ground arith
  front-shorter (a ∷ (b ∷ (c ∷ (d ∷ xs)))) h =
      let len = from_be_bytes a b c d in
      let (small, whole, read, behind) = framed-message len xs h in
      omega (arith, ap length behind, length-drop {0} len xs)

  -- More bytes behind a frame change nothing about it.
  pub front-append_message :
      (xs zs : List ℕ) {m : Msg} {rest : List ℕ}
      → front deserialize xs ≡ message m rest
      → front deserialize (xs ++ zs) ≡ message m (rest ++ zs)
  unfolding front
  front-append_message [] zs h = ground arith
  front-append_message (a ∷ []) zs h = ground arith
  front-append_message (a ∷ (b ∷ [])) zs h = ground arith
  front-append_message (a ∷ (b ∷ (c ∷ []))) zs h = ground arith
  front-append_message (a ∷ (b ∷ (c ∷ (d ∷ xs)))) zs h =
      framed-append_message (from_be_bytes a b c d) xs zs h

  -- More bytes do not mend a broken frame.
  pub front-append_broken :
      (xs zs : List ℕ) {e : TerminalError}
      → front deserialize xs ≡ broken e
      → front deserialize (xs ++ zs) ≡ broken e
  unfolding front
  front-append_broken [] zs h = ground arith
  front-append_broken (a ∷ []) zs h = ground arith
  front-append_broken (a ∷ (b ∷ [])) zs h = ground arith
  front-append_broken (a ∷ (b ∷ (c ∷ []))) zs h = ground arith
  front-append_broken (a ∷ (b ∷ (c ∷ (d ∷ xs)))) zs h = ground (
    arith,
    length-append {0} xs zs,
    take-append {0} (from_be_bytes a b c d) xs zs,
    drop-append {0} (from_be_bytes a b c d) xs zs,
  )

  payload-incomplete : (r : Result Msg) (xs : List ℕ) → payload r xs ≢ incomplete
  payload-incomplete (err e) xs h = ground arith
  payload-incomplete (ok m) xs h = ground arith

  framed-incomplete :
      (len : ℕ) (xs : List ℕ)
      → framed deserialize len xs ≡ incomplete
      → (len ≤ max_frame_size) × (length xs < len)
  framed-incomplete len xs h =
      ground (arith, payload-incomplete (decode deserialize (take len xs)) (drop len xs))

  -- What waits for the rest of its frame is less than a header and the largest frame.
  pub front-incomplete :
      (xs : List ℕ) → front deserialize xs ≡ incomplete → length xs < max_frame_size + 4
  unfolding front
  front-incomplete [] h = omega arith
  front-incomplete (a ∷ []) h = omega arith
  front-incomplete (a ∷ (b ∷ [])) h = omega arith
  front-incomplete (a ∷ (b ∷ (c ∷ []))) h = omega arith
  front-incomplete (a ∷ (b ∷ (c ∷ (d ∷ xs)))) h =
      omega (arith, framed-incomplete (from_be_bytes a b c d) xs h)

module _ {Msg S A : Type 0} (deserialize : List ℕ → Text ⊎ Msg) (handle : Msg → S → Flow S A) where
  -- The loop has come to its end: it returns, or nothing that is complete is left.
  abbrev pub Ended : Option (Flow S A × FrameReader) → Type 0
  Ended none = ⊥
  Ended (some (stop a, r)) = IsSound r
  Ended (some (go_on s, r)) = IsSound r × (front deserialize (unread r) ≡ incomplete)

  handled-Ended :
      (next : FrameReader → S → Option (Flow S A × FrameReader)) (flow : Flow S A) (r : FrameReader)
      → IsSound r
      → ((s : S) → Ended (next r s))
      → Ended (handled handle next flow r)
  handled-Ended next (stop a) r sound more = sound
  handled-Ended next (go_on s) r sound more = more s

  round-Ended :
      (next : FrameReader → S → Option (Flow S A × FrameReader)) (r : FrameReader) (s : S)
      (f : Front Msg) (answer : Result (Option Msg)) (r' : FrameReader)
      → IsSound r
      → front deserialize (unread r) ≡ f
      → Answers r f (answer, r')
      → ((q : FrameReader) (t : S)
          → IsSound q
          → length (unread q) + 4 ≤ length (unread r)
          → Ended (next q t))
      → Ended (drain_round handle next (answer, r') s)
  round-Ended next r s incomplete answer r' sound e (a, same) more = rw a (rw same (sound, e))
  round-Ended next r s (broken x) answer r' sound e (a, same) more = rw a (rw same sound)
  round-Ended next r s (message m rest) answer r' sound e (a, behind, sound') more = rw a (
      handled-Ended next (handle m s) r' sound' (λ t.
        more r' t sound' (omega (arith, ap length behind, front-shorter deserialize (unread r) e))))

  -- The loop that decodes what has arrived ends, whatever the bytes are and whatever is done with
  -- the messages: one round more than there are unread bytes is enough, and it leaves nothing that
  -- is complete unless it returns.
  pub drain-Ended :
      (fuel : ℕ) (r : FrameReader) (s : S)
      → IsSound r
      → length (unread r) < fuel
      → Ended (drain deserialize handle fuel r s)
  unfolding drain
  drain-Ended zero r s sound h = absurd (omega arith)
  drain-Ended (suc fuel) r s sound h =
      round-Ended (drain deserialize handle fuel) r s (front deserialize (unread r))
        (decode_next deserialize r).0 (decode_next deserialize r).1 sound refl
        (decode_next-Answers deserialize r sound)
        λ q t sound' less. drain-Ended fuel q t sound' (omega arith)
