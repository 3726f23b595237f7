-- ===== src/Term/Retach/Frames.antt =====
-- crates/octty-term/src/retach.rs: the frames of the protocol, `FrameReader` and `encode`. The
-- encoding of a message (bincode) is a parameter; the scratch buffer of the reader is the argument
-- of `fill_from`.
pub mod Laws
pub mod Drain
pub mod Wire
pub mod Stream
use package.octty.Base.{
  ℕ, zero, suc, ◌+◌, ◌*◌, ◌/◌, ◌%◌, ◌^◌, ltb, if◌then◌else◌, Bool, true, false, ◌⊎◌, inl, inr,
  Option, none, some, Text, codes, List, [], ◌∷◌, ◌++◌, length, get_or, take, drop,
}
use package.octty.Base.Decimal.{show}
use octty.Term.Retach.{TerminalError, retach, io, Result, ok, err}

abbrev pub max_frame_size : ℕ
max_frame_size = 16 * 1024 * 1024

abbrev pub read_buf_size : ℕ
read_buf_size = 64 * 1024

pub record FrameReader : Type 0 where
  pub read_buf : List ℕ
  pub offset : ℕ

unfoldable pub new : FrameReader
new = record { read_buf = []; offset = 0 }

-- What one `read` of the stream gives: an error, or bytes, of which there are none at its end.
pub data Read : Type 0 where
  failed : Text → Read
  bytes : List ℕ → Read

abbrev pub frame_too_large : ℕ → TerminalError
frame_too_large size =
    retach (codes "retach protocol frame too large: " ++ (show size ++ codes " bytes"))

-- `read_buf.drain(..offset)`
unfoldable pub drained : FrameReader → FrameReader
drained r = record { read_buf = drop r.offset r.read_buf; offset = 0 }

unfoldable pub fill_with : List ℕ → FrameReader → Result Bool × FrameReader
fill_with [] r = (ok false, r)
fill_with (b ∷ bs) r =
    let filled = record r { read_buf = r.read_buf ++ (b ∷ bs) } in
    if ltb (max_frame_size * 2 + 8) (length filled.read_buf)
    then (err (frame_too_large (length filled.read_buf)), filled)
    else (ok true, filled)

unfoldable pub fill_from : Read → FrameReader → Result Bool × FrameReader
unfolding fill_with drained
fill_from (failed e) r = (err (io e), drained r)
fill_from (bytes size) r = fill_with size (drained r)

-- `u32::from_be_bytes`
abbrev pub from_be_bytes : ℕ → ℕ → ℕ → ℕ → ℕ
from_be_bytes a b c d = a * 16777216 + b * 65536 + c * 256 + d

-- `to_be_bytes` of a `u32`
abbrev pub to_be_bytes : ℕ → List ℕ
to_be_bytes n = n / 16777216 % 256 ∷ n / 65536 % 256 ∷ n / 256 % 256 ∷ n % 256 ∷ []

-- The length that the header at an index says.
unfoldable pub header : List ℕ → ℕ → ℕ
header buf start =
    from_be_bytes (get_or buf start 0) (get_or buf (start + 1) 0) (get_or buf (start + 2) 0)
      (get_or buf (start + 3) 0)

-- The frame of an encoded message.
abbrev pub frame_of : Text ⊎ List ℕ → Result (List ℕ)
frame_of (inl e) = err (retach e)
frame_of (inr payload) =
    if ltb (length payload) (2 ^ 32)
    then ok (to_be_bytes (length payload) ++ payload)
    else err (retach (codes "retach protocol message too large: " ++ show (length payload)))

module _ {Msg : Type 0} (serialize : Msg → Text ⊎ List ℕ) where
  unfoldable pub encode : Msg → Result (List ℕ)
  encode msg = frame_of (serialize msg)

module _ {Msg : Type 0} where
  abbrev pub decoded : Text ⊎ Msg → Result Msg
  decoded (inl e) = err (retach e)
  decoded (inr msg) = ok msg

  -- The message, and the reader behind its frame.
  abbrev pub taken : Result Msg → ℕ → FrameReader → Result (Option Msg) × FrameReader
  taken (err e) end r = (err e, r)
  taken (ok msg) end r = (ok (some msg), record r { offset = end })

module _ {Msg : Type 0} (deserialize : List ℕ → Text ⊎ Msg) where
  unfoldable pub decode : List ℕ → Result Msg
  decode payload = decoded (deserialize payload)

  unfoldable pub decode_next : FrameReader → Result (Option Msg) × FrameReader
  unfolding decode
  decode_next r =
      let start = r.offset in
      let len = header r.read_buf start in
      if ltb (length r.read_buf) (r.offset + 4)
      then (ok none, r)
      else if ltb max_frame_size len
      then (err (frame_too_large len), r)
      else if ltb (length r.read_buf) (start + 4 + len)
      then (ok none, r)
      else taken (decode (take len (drop (start + 4) r.read_buf))) (start + 4 + len) r

-- How one round of a loop ends: with the variables of the next round, or with a return.
pub data Flow (S A : Type 0) : Type 0 where
  go_on : S → Flow S A
  stop : Result A → Flow S A

module _ {Msg S A : Type 0} (handle : Msg → S → Flow S A) where
  abbrev pub handled :
      (FrameReader → S → Option (Flow S A × FrameReader))
      → Flow S A
      → FrameReader
      → Option (Flow S A × FrameReader)
  handled next (stop a) r = some (stop a, r)
  handled next (go_on s) r = next r s

  abbrev pub drain_round :
      (FrameReader → S → Option (Flow S A × FrameReader))
      → Result (Option Msg) × FrameReader
      → S
      → Option (Flow S A × FrameReader)
  drain_round next (err e, r) s = some (stop (err e), r)
  drain_round next (ok none, r) s = some (go_on s, r)
  drain_round next (ok (some msg), r) s = handled next (handle msg s) r

module _ {Msg S A : Type 0} (deserialize : List ℕ → Text ⊎ Msg) (handle : Msg → S → Flow S A) where
  -- `while let Some(msg) = frames.decode_next()? { … }`, which may return from its function; `none`
  -- if the fuel runs out.
  unfoldable pub drain : ℕ → FrameReader → S → Option (Flow S A × FrameReader)
  drain zero r s = none
  drain (suc fuel) r s = drain_round handle (drain fuel) (decode_next deserialize r) s
