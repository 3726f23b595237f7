-- ===== src/Term/Retach/Server/Reading.antt =====
-- crates/octty-term/src/retach.rs: the loop that reads one message comes to its end.
use package.octty.Base.{
  ℕ, zero, suc, ◌+◌, ◌*◌, ◌≤◌, ◌<◌, ltb, Bool, true, false, Bool-cases, inl, inr, Option, none,
  some, [], ◌∷◌, ◌++◌, length, ◌≡◌, refl, ap, arith, length-append, unwrap_or,
}
use octty.Term.Retach.{Result, ok, err, ServerMsg}
use octty.Term.Retach.Frames.{
  FrameReader, new, fill_from, Read, failed, bytes, max_frame_size, decode_next,
}
use octty.Term.Retach.Frames.Laws.{
  unread, IsSound, Front, incomplete, broken, message, front, Answers, decode_next-Answers,
}
use octty.Term.Retach.Frames.Drain.{front-incomplete}
use octty.Term.Retach.Server.{
  Outside, read_loop, read_fuel, read_frames, after_fill, after_decode, Received, connection_closed,
}

-- What a read can leave: an error, the end of the stream, or at least one byte more.
abbrev pub Filled : FrameReader → Result Bool × FrameReader → Type 0
Filled r (err e, r') = Unit {0}
Filled r (ok false, r') = Unit {0}
Filled r (ok true, r') = IsSound r' × (length (unread r) < length (unread r'))

pub fill-Filled : (r : FrameReader) (rd : Read) → Filled r (fill_from rd r)
unfolding fill_from
fill-Filled r (failed e) = tt
fill-Filled r (bytes []) = tt
fill-Filled r (bytes (b ∷ bs)) =
    elim (Bool-cases (ltb (max_frame_size * 2 + 8) (length (unread r ++ (b ∷ bs))))) [
      | inl e ↦ rw e tt
      | inr e ↦
          rw e
            (record { within = omega arith }, omega (arith, length-append {0} (unread r) (b ∷ bs)))
    ]

module _ (o : Outside) where
  abbrev IsDone : Received o → Type 0
  IsDone none = ⊥
  IsDone (some p) = Unit {0}

  decode_IsDone :
      (next : FrameReader → o.World → Received o) (r : FrameReader) (w : o.World)
      (f : Front ServerMsg) (answer : Result (Option ServerMsg)) (r' : FrameReader)
      → front o.deserialize (unread r) ≡ f
      → Answers r f (answer, r')
      → (length (unread r) < max_frame_size + 4 → IsDone (next r w))
      → IsDone (after_decode o next (answer, r') w)
  decode_IsDone next r w incomplete answer r' e (a, same) more =
      rw a (rw same (more (front-incomplete o.deserialize (unread r) e)))
  decode_IsDone next r w (broken x) answer r' e (a, same) more = rw a tt
  decode_IsDone next r w (message m rest) answer r' e (a, behind, sound) more = rw a tt

  fill_IsDone :
      (next : FrameReader → o.World → Received o) (r : FrameReader) (w : o.World)
      (filled : Result Bool × FrameReader)
      → Filled r filled
      → ((q : FrameReader)
          → IsSound q
          → length (unread r) < length (unread q)
          → length (unread q) < max_frame_size + 4
          → IsDone (next q w))
      → IsDone (after_fill o next filled w)
  fill_IsDone next r w (err e, r') h more = tt
  fill_IsDone next r w (ok false, r') h more = tt
  fill_IsDone next r w (ok true, r') (sound, longer) more =
      decode_IsDone next r' w (front o.deserialize (unread r')) (decode_next o.deserialize r').0
        (decode_next o.deserialize r').1 refl (decode_next-Answers o.deserialize r' sound)
        (more r' sound longer)

  read_loop-IsDone :
      (fuel : ℕ) (stream : o.Stream) (r : FrameReader) (w : o.World)
      → length (unread r) < max_frame_size + 4
      → max_frame_size + 4 ≤ length (unread r) + fuel
      → IsDone (read_loop o fuel stream r w)
  unfolding read_loop
  read_loop-IsDone zero stream r w small enough = absurd (omega arith)
  read_loop-IsDone (suc fuel) stream r w small enough =
      fill_IsDone (read_loop o fuel stream) r (o.read stream w).1 (fill_from (o.read stream w).0 r)
        (fill-Filled r (o.read stream w).0)
        λ q sound longer still_small.
          read_loop-IsDone fuel stream q (o.read stream w).1 still_small (omega arith)

  done_some :
      (p : Received o) → IsDone p → (d : Result (ServerMsg × FrameReader) × o.World) × (p ≡ some d)
  done_some none h = elim h [ ]
  done_some (some d) h = (d, refl)

  -- Reading one message always comes to its end: with a message, with the end of the stream, or with
  -- an error, whatever the server sends and in however small pieces, after at most as many reads as
  -- the largest frame has bytes. So no server can keep the reader waiting with bytes that never make
  -- up a message.
  pub read_loop_total :
      (stream : o.Stream) (w : o.World)
      → (d : Result (ServerMsg × FrameReader) × o.World) × (read_loop o read_fuel stream new w
          ≡ some d)
        × (read_frames o stream w ≡ d)
  unfolding read_frames
  read_loop_total stream w =
      let (d, e) = done_some (read_loop o read_fuel stream new w) (
        read_loop-IsDone read_fuel stream new w (unfold new in omega arith)
          (unfold new in omega arith)) in
      (d, e, ap (λ p. unwrap_or p (err connection_closed, w)) e)
