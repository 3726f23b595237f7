-- ===== src/Term/Retach/Frames/Wire.antt =====
-- crates/octty-term/src/retach.rs: messages as frames, and a read of a piece of the stream.
use package.octty.Base.{
  ℕ, ◌+◌, ◌*◌, ◌/◌, ◌%◌, ◌^◌, lt→ltb, ◌≤◌, ◌<◌, true, ◌⊎◌, inr, Text, List, [], ◌∷◌, ◌++◌, length,
  ◌≡◌, refl, ap, ◌∙◌, arith, length-append, take-length_append, drop-length_append,
}
use octty.Term.Retach.{Result, ok, err}
use octty.Term.Retach.Frames.{
  FrameReader, new, fill_from, bytes, max_frame_size, from_be_bytes, encode, decode,
}
use octty.Term.Retach.Frames.Laws.{unread, IsSound, message, framed, front}
use octty.Term.Retach.Frames.Drain.{}

pub new-IsSound : IsSound new
unfolding new
new-IsSound = record { within = omega arith }

-- A read leaves the unread bytes and what it brought, and fits as long as no complete frame waits.
pub fill_from_lem :
    (r : FrameReader) (c : List ℕ)
    → IsSound r
    → 0 < length c
    → length (unread r) + length c ≤ max_frame_size * 2 + 8
    → (r' : FrameReader) × (fill_from (bytes c) r ≡ (ok true, r'))
      × IsSound r'
      × (unread r' ≡ unread r ++ c)
unfolding fill_from
fill_from_lem r [] sound some_bytes fits = absurd (omega arith)
fill_from_lem r (b ∷ bs) sound some_bytes fits = (
  record { read_buf = unread r ++ (b ∷ bs); offset = 0 },
  ground (arith, length-append {0} (unread r) (b ∷ bs)),
  record { within = omega arith },
  refl,
)

abbrev pub sent : Result (List ℕ) → List ℕ
sent (err e) = []
sent (ok frame) = frame

module _ {Msg : Type 0} (serialize : Msg → Text ⊎ List ℕ) where
  -- The bytes of messages that are sent one after the other.
  unfoldable pub wire : List Msg → List ℕ
  wire [] = []
  wire (m ∷ ms) = sent (encode serialize m) ++ wire ms

module _ {Msg : Type 0} (serialize : Msg → Text ⊎ List ℕ) (deserialize : List ℕ → Text ⊎ Msg) where
  -- What the code relies on: a message has an encoding within the limit that is read back.
  abbrev pub IsCoded : Msg → Type 0
  IsCoded m =
      (p : List ℕ) × (serialize m ≡ inr p) × (deserialize p ≡ inr m) × (length p ≤ max_frame_size)

  framed-payload :
      (m : Msg) (p zs : List ℕ)
      → deserialize p ≡ inr m
      → length p ≤ max_frame_size
      → framed deserialize (length p) (p ++ zs) ≡ message m zs
  unfolding decode
  framed-payload m p zs d small =
      ground (arith, take-length_append p zs, drop-length_append p zs, length-append {0} p zs)

  header_value :
      (n : ℕ)
      → n < 2 ^ 32
      → from_be_bytes (n / 16777216 % 256) (n / 65536 % 256) (n / 256 % 256) (n % 256) ≡ n
  header_value n h = omega arith

  -- A frame is read back from the front of a stream, and the rest is left.
  pub front-encode :
      (m : Msg) (zs : List ℕ)
      → IsCoded m
      → front deserialize (sent (encode serialize m) ++ zs) ≡ message m zs
  unfolding front encode
  front-encode m zs (p, s, d, small) = rw s (
      rw (lt→ltb (length p) (2 ^ 32) (omega arith)) (
        ap (λ n. framed deserialize n (p ++ zs)) (header_value (length p) (omega arith))
        ∙ framed-payload m p zs d small))
