-- ===== src/Term/Retach/Frames/Stream.antt =====
-- crates/octty-term/src/retach.rs: messages sent as frames over a stream that is read in pieces.
use package.octty.Base.{
  ℕ, zero, suc, ◌+◌, ◌≤◌, ◌<◌, Bool, ◌⊎◌, Option, none, some, Text, List, [], ◌∷◌, ◌++◌, length,
  flat, All, ◌≡◌, ◌≢◌, refl, sym, ap, ◌∙◌, arith, append-nil, append_assoc,
}
use octty.Term.Retach.{TerminalError, Result, ok, err}
use octty.Term.Retach.Frames.{
  FrameReader, new, fill_from, bytes, read_buf_size, encode, decode_next, Flow, go_on, stop,
  drain_round, drain,
}
use octty.Term.Retach.Frames.Laws.{
  unread, IsSound, Front, incomplete, broken, message, front, Answers, decode_next-Answers,
}
use octty.Term.Retach.Frames.Drain.{
  front-shorter, front-append_message, front-append_broken, front-incomplete,
}
use octty.Term.Retach.Frames.Wire.{new-IsSound, fill_from_lem, IsCoded, sent, wire, front-encode}

module _ {Msg : Type 0} (serialize : Msg → Text ⊎ List ℕ) (deserialize : List ℕ → Text ⊎ Msg) where
  abbrev keep : Msg → List Msg → Flow (List Msg) (List Msg)
  keep m got = go_on (got ++ (m ∷ []))

  -- The loop has taken the first of the messages, and the unread bytes begin the others.
  record Collected (got ms : List Msg) (z tail : List ℕ)
      (out : Option (Flow (List Msg) (List Msg) × FrameReader)) : Type 0 where
    taken : List Msg
    left : List Msg
    reader : FrameReader
    parts : ms ≡ taken ++ left
    result : out ≡ some (go_on (got ++ taken), reader)
    sound : IsSound reader
    coded : All (IsCoded serialize deserialize) left
    bytes_left : unread reader ++ z ≡ wire serialize left ++ tail
    waits : front deserialize (unread reader) ≡ incomplete

  front-wire :
      (m : Msg) (ms : List Msg) (tail : List ℕ)
      → (IsCoded serialize deserialize) m
      → front deserialize (wire serialize (m ∷ ms) ++ tail) ≡ message m (wire serialize ms ++ tail)
  unfolding wire
  front-wire m ms tail c =
      ap (front deserialize) (append_assoc (sent (encode serialize m)) (wire serialize ms) tail)
      ∙ front-encode serialize deserialize m (wire serialize ms ++ tail) c

  not_broken :
      (xs z tail : List ℕ) (ms : List Msg) {e : TerminalError}
      → xs ++ z ≡ wire serialize ms ++ tail
      → All (IsCoded serialize deserialize) ms
      → front deserialize tail ≡ incomplete
      → front deserialize xs ≢ broken e
  unfolding wire
  not_broken xs z tail [] same coded waits b =
      cc (ap (front deserialize) same, front-append_broken deserialize xs z b)
  not_broken xs z tail (m ∷ ms) same coded waits b = cc (
    ap (front deserialize) same,
    front-append_broken deserialize xs z b,
    front-wire m ms tail coded.0,
  )

  next_message :
      (xs z tail rest : List ℕ) (ms : List Msg) {m : Msg}
      → xs ++ z ≡ wire serialize ms ++ tail
      → All (IsCoded serialize deserialize) ms
      → front deserialize tail ≡ incomplete
      → front deserialize xs ≡ message m rest
      → (others : List Msg) × (ms ≡ m ∷ others)
        × All (IsCoded serialize deserialize) others
        × (rest ++ z ≡ wire serialize others ++ tail)
  unfolding wire
  next_message xs z tail rest [] same coded waits b =
      absurd (cc (ap (front deserialize) same, front-append_message deserialize xs z b))
  next_message xs z tail rest (n ∷ ms) same coded waits b =
      let e =
        sym (front-append_message deserialize xs z b)
        ∙ ap (front deserialize) same
        ∙ front-wire n ms tail coded.0 in
      (ms, cc (e), coded.1, cc (e))

  Collected-more :
      {got ms others : List Msg} {z tail : List ℕ} {m : Msg}
      {out : Option (Flow (List Msg) (List Msg) × FrameReader)}
      → ms ≡ m ∷ others
      → Collected (got ++ (m ∷ [])) others z tail out
      → Collected got ms z tail out
  Collected-more {got} {m} e c = record {
    taken = m ∷ c.taken;
    left = c.left;
    reader = c.reader;
    parts = e ∙ ap (λ l. m ∷ l) c.parts;
    result = c.result ∙ ap (λ l. some (go_on l, c.reader)) (append_assoc got (m ∷ []) c.taken);
    sound = c.sound;
    coded = c.coded;
    bytes_left = c.bytes_left;
    waits = c.waits;
  }

  round :
      (next : FrameReader → List Msg → Option (Flow (List Msg) (List Msg) × FrameReader))
      (r : FrameReader) (got ms : List Msg) (z tail : List ℕ) (f : Front Msg)
      (answer : Result (Option Msg)) (r' : FrameReader)
      → IsSound r
      → unread r ++ z ≡ wire serialize ms ++ tail
      → All (IsCoded serialize deserialize) ms
      → front deserialize tail ≡ incomplete
      → front deserialize (unread r) ≡ f
      → Answers r f (answer, r')
      → ((q : FrameReader) (more others : List Msg)
          → IsSound q
          → length (unread q) + 4 ≤ length (unread r)
          → unread q ++ z ≡ wire serialize others ++ tail
          → All (IsCoded serialize deserialize) others
          → Collected more others z tail (next q more))
      → Collected got ms z tail (drain_round keep next (answer, r') got)
  round next r got ms z tail incomplete answer r' sound same coded waits e (a, still) more = rw a (
      rw still (record {
        taken = [];
        left = ms;
        reader = r;
        parts = refl;
        result = ap (λ l. some (go_on l, r)) (sym (append-nil got));
        sound = sound;
        coded = coded;
        bytes_left = same;
        waits = e;
      }))
  round next r got ms z tail (broken x) answer r' sound same coded waits e (a, still) more =
      absurd (not_broken (unread r) z tail ms same coded waits e)
  round next r got ms z tail (message m rest) answer r' sound same coded waits e (a, behind, sound')
        more =
      let (others, first, coded', same') =
        next_message (unread r) z tail rest ms same coded waits e in
      rw a (
        Collected-more first (
          more r' (got ++ (m ∷ [])) others sound'
            (omega (arith, ap length behind, front-shorter deserialize (unread r) e))
            (ap (λ l. l ++ z) behind ∙ same') coded'))

  collect :
      (fuel : ℕ) (r : FrameReader) (got ms : List Msg) (z tail : List ℕ)
      → IsSound r
      → length (unread r) < fuel
      → unread r ++ z ≡ wire serialize ms ++ tail
      → All (IsCoded serialize deserialize) ms
      → front deserialize tail ≡ incomplete
      → Collected got ms z tail (drain deserialize keep fuel r got)
  unfolding drain
  collect zero r got ms z tail sound h same coded waits = absurd (omega arith)
  collect (suc fuel) r got ms z tail sound h same coded waits =
      round (drain deserialize keep fuel) r got ms z tail (front deserialize (unread r))
        (decode_next deserialize r).0 (decode_next deserialize r).1 sound same coded waits refl
        (decode_next-Answers deserialize r sound)
        λ q more others sound' less same' coded'.
          collect fuel q more others z tail sound' (omega arith) same' coded' waits

  abbrev after_drain :
      (FrameReader → List Msg → Option (Result (List Msg)))
      → Option (Flow (List Msg) (List Msg) × FrameReader)
      → Option (Result (List Msg))
  after_drain next none = none
  after_drain next (some (stop a, r)) = some a
  after_drain next (some (go_on got, r)) = next r got

  abbrev after_fill :
      (FrameReader → Option (Result (List Msg)))
      → Result Bool × FrameReader
      → Option (Result (List Msg))
  after_fill next (err e, r) = some (err e)
  after_fill next (ok more, r) = next r

  -- A connection: each piece is read and all that has arrived is decoded, until nothing comes.
  unfoldable pub received : FrameReader → List Msg → List (List ℕ) → Option (Result (List Msg))
  received r got [] = some (ok got)
  received r got (c ∷ cs) =
      after_fill
        (λ r'.
          after_drain (λ r'' got'. received r'' got' cs)
            (drain deserialize keep (suc (length (unread r'))) r' got))
        (fill_from (bytes c) r)

  -- A piece that one read of the stream can bring.
  abbrev pub IsPiece : List ℕ → Type 0
  IsPiece c = (0 < length c) × (length c ≤ read_buf_size)

  received_rest :
      (r : FrameReader) (got ms : List Msg) (cs : List (List ℕ)) (tail : List ℕ)
      → IsSound r
      → front deserialize (unread r) ≡ incomplete
      → unread r ++ flat cs ≡ wire serialize ms ++ tail
      → All IsPiece cs
      → All (IsCoded serialize deserialize) ms
      → front deserialize tail ≡ incomplete
      → received r got cs ≡ some (ok (got ++ ms))
  unfolding received
  received_rest r got [] [] tail sound idle same pieces coded waits =
      ap (λ l. some (ok l)) (sym (append-nil got))
  received_rest r got (m ∷ ms) [] tail sound idle same pieces coded waits =
      let e =
        sym idle
        ∙ ap (front deserialize) (sym (append-nil (unread r)) ∙ same)
        ∙ front-wire m ms tail coded.0 in
      absurd (cc (e))
  received_rest r got ms (c ∷ cs) tail sound idle same pieces coded waits =
      let small = front-incomplete deserialize (unread r) idle in
      let (r', filled, sound', behind) =
        fill_from_lem r c sound pieces.0.0 (omega (arith, pieces.0)) in
      let same' : unread r' ++ flat cs ≡ wire serialize ms ++ tail =
        ap (λ l. l ++ flat cs) behind ∙ append_assoc (unread r) c (flat cs) ∙ same in
      let part =
        collect (suc (length (unread r'))) r' got ms (flat cs) tail sound' (omega arith) same' coded
          waits in
      rw filled (
        rw part.result (
          received_rest part.reader (got ++ part.taken) part.left cs tail part.sound part.waits
            part.bytes_left pieces.1 part.coded waits
          ∙ ap (λ l. some (ok l))
              (append_assoc got part.taken part.left ∙ ap (λ l. got ++ l) (sym part.parts))))

  -- Messages that are sent as frames over one connection are received in their order, each once and
  -- none more, however the stream is cut into pieces and whatever incomplete frame comes last: no
  -- piece is lost, and the limits of the buffer refuse none. Each message has an encoding within the
  -- limit that is read back.
  pub received-wire :
      (ms : List Msg) (tail : List ℕ) (cs : List (List ℕ))
      → flat cs ≡ wire serialize ms ++ tail
      → All IsPiece cs
      → All (IsCoded serialize deserialize) ms
      → front deserialize tail ≡ incomplete
      → received new [] cs ≡ some (ok ms)
  unfolding new front
  received-wire ms tail cs same pieces coded waits =
      received_rest new [] ms cs tail new-IsSound refl same pieces coded waits
