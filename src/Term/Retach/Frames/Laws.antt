-- ===== src/Term/Retach/Frames/Laws.antt =====
-- crates/octty-term/src/retach.rs: what `FrameReader` makes of the bytes that it has not read yet.
use package.octty.Base.{
  ℕ, ◌+◌, ◌≤◌, ltb, if◌then◌else◌, Bool, true, false, ◌⊎◌, Option, none, some, Text, List, [], ◌∷◌,
  length, get_or, take, drop, ◌≡◌, refl, sym, ap, ◌∙◌, arith,
}
use package.octty.Base.{get_or-drop, drop-drop, length-drop}
use octty.Term.Retach.{TerminalError, Result, ok, err}
use octty.Term.Retach.Frames.{
  FrameReader, max_frame_size, from_be_bytes, frame_too_large, header, decode, decode_next, taken,
}

-- The bytes of the buffer that are still to be decoded.
abbrev pub unread : FrameReader → List ℕ
unread r = drop r.offset r.read_buf

pub record IsSound (r : FrameReader) : Type 0 where
  pub within : r.offset ≤ length r.read_buf

-- The specification: what stands at the front of a stream of bytes.
pub data Front (Msg : Type 0) : Type 0 where
  incomplete : Front Msg
  broken : TerminalError → Front Msg
  message : Msg → List ℕ → Front Msg

header-drop : (buf : List ℕ) (o : ℕ) → header buf o ≡ header (drop o buf) 0
unfolding header
header-drop buf o =
    let at : o ≡ o + 0 = omega arith in
    let here : get_or buf o 0 ≡ get_or (drop o buf) 0 0 =
      ap (λ k. get_or buf k 0) at ∙ get_or-drop o 0 buf 0 in
    omega
      (arith, here, get_or-drop {0} o 1 buf 0, get_or-drop {0} o 2 buf 0, get_or-drop {0} o 3 buf 0)

-- What the reader's buffer must be for an answer: the sizes of the unread bytes.
unread_sizes :
    (r : FrameReader) (n : ℕ)
    → IsSound r
    → ltb (length r.read_buf) (r.offset + n) ≡ ltb (length (unread r)) n
unread_sizes r n s = ground (arith, s.within, length-drop {0} r.offset r.read_buf)

module _ {Msg : Type 0} where
  abbrev pub payload : Result Msg → List ℕ → Front Msg
  payload (err e) rest = broken e
  payload (ok msg) rest = message msg rest

  -- A reader's answer is the one that the unread bytes ask for; only a message moves the reader.
  abbrev pub Answers : FrameReader → Front Msg → Result (Option Msg) × FrameReader → Type 0
  Answers r incomplete a = (a.0 ≡ ok none) × (a.1 ≡ r)
  Answers r (broken e) a = (a.0 ≡ err e) × (a.1 ≡ r)
  Answers r (message msg rest) a = (a.0 ≡ ok (some msg)) × (unread a.1 ≡ rest) × IsSound a.1

  taken-Answers :
      (r : FrameReader) (m : Result Msg) (end : ℕ) (rest : List ℕ)
      → end ≤ length r.read_buf
      → drop end r.read_buf ≡ rest
      → Answers r (payload m rest) (taken m end r)
  taken-Answers r (err e) end rest h k = (refl, refl)
  taken-Answers r (ok m) end rest h k = (refl, k, record { within = h })

  -- The two chains of tests agree, test by test.
  chain :
      (r : FrameReader) (short large partial : Bool) (e : TerminalError) (m : Result Msg) (end : ℕ)
      (rest : List ℕ)
      → (partial ≡ false → end ≤ length r.read_buf)
      → drop end r.read_buf ≡ rest
      → Answers r
          (if short
            then incomplete
            else if large
            then broken e
            else if partial
            then incomplete
            else payload m rest)
          (if short
            then (ok none, r)
            else if large
            then (err e, r)
            else if partial
            then (ok none, r)
            else taken m end r)
  chain r true large partial e m end rest h k = (refl, refl)
  chain r false true partial e m end rest h k = (refl, refl)
  chain r false false true e m end rest h k = (refl, refl)
  chain r false false false e m end rest h k = taken-Answers r m end rest (h refl) k

module _ {Msg : Type 0} (deserialize : List ℕ → Text ⊎ Msg) where
  -- A header that says `len`, and the bytes behind it.
  abbrev pub framed : ℕ → List ℕ → Front Msg
  framed len rest =
      if ltb max_frame_size len
      then broken (frame_too_large len)
      else if ltb (length rest) len
      then incomplete
      else payload (decode deserialize (take len rest)) (drop len rest)

  unfoldable pub front : List ℕ → Front Msg
  front [] = incomplete
  front (a ∷ []) = incomplete
  front (a ∷ (b ∷ [])) = incomplete
  front (a ∷ (b ∷ (c ∷ []))) = incomplete
  front (a ∷ (b ∷ (c ∷ (d ∷ rest)))) = framed (from_be_bytes a b c d) rest

  -- The specification in the code's order of tests.
  front_lem :
      (xs : List ℕ)
      → front xs ≡ (
          if ltb (length xs) 4
          then incomplete
          else if ltb max_frame_size (header xs 0)
          then broken (frame_too_large (header xs 0))
          else if ltb (length xs) (4 + header xs 0)
          then incomplete
          else payload
              (decode deserialize (take (header xs 0) (drop 4 xs)))
              (drop (header xs 0) (drop 4 xs)))
  unfolding front header
  front_lem [] = refl
  front_lem (a ∷ []) = refl
  front_lem (a ∷ (b ∷ [])) = refl
  front_lem (a ∷ (b ∷ (c ∷ []))) = refl
  front_lem (a ∷ (b ∷ (c ∷ (d ∷ rest)))) = ground arith

  -- `decode_next` answers with what stands at the front of the unread bytes: nothing as long as the
  -- frame is not complete, the error of a frame that is too large or that holds no message, or the
  -- message, and then it stands behind the frame.
  pub decode_next-Answers :
      (r : FrameReader) → IsSound r → Answers r (front (unread r)) (decode_next deserialize r)
  unfolding decode_next
  decode_next-Answers r s =
      let len = header r.read_buf r.offset in
      let whole : ltb (length r.read_buf) (r.offset + 4 + len) ≡ ltb (length (unread r)) (4 + len) =
        ap (ltb (length r.read_buf)) (omega arith) ∙ unread_sizes r (4 + len) s in
      let four = drop-drop r.offset 4 r.read_buf in
      let behind = drop-drop (r.offset + 4) len r.read_buf in
      rw (front_lem (unread r)) (
        rw (sym (header-drop r.read_buf r.offset)) (
          rw (sym (unread_sizes r 4 s)) (
            rw (sym whole) (
              rw (sym four) (
                chain r (ltb (length r.read_buf) (r.offset + 4)) (ltb max_frame_size len)
                  (ltb (length r.read_buf) (r.offset + 4 + len)) (frame_too_large len)
                  (decode deserialize (take len (drop (r.offset + 4) r.read_buf)))
                  (r.offset + 4 + len) _ (λ h. ground arith) behind)))))
