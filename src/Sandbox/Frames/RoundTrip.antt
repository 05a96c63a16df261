-- ===== src/Sandbox/Frames/RoundTrip.antt =====
-- The loop of `SubscribeEvents` of internal/sandbox/docker.go on the streams that Docker writes.
use foreman.Prelude.{
  ℕ, suc, zero, ◌/◌, ◌%◌, ◌≤◌, ◌<◌, ◌≡◌, refl, ap, ◌∙◌, none, some, List, [], ◌∷◌, ◌++◌, length,
  length-append, arith, All,
}
use mathlib.Core.List.{append_assoc}
use foreman.Sandbox.Frames.{SandboxEvent, read_header, read_full, big_endian}
use foreman.Sandbox.Frames.Lines.{frame_events}
use foreman.Sandbox.Frames.Stream.{read_frames, subscribe_events, encode, encode_all}

big_endian-bytes :
    (n : ℕ)
    → n < 4_294_967_296
    → big_endian (n / 16_777_216 % 256) (n / 65_536 % 256) (n / 256 % 256) (n % 256) ≡ n
big_endian-bytes n h = omega arith

read_full-append :
    (chunk rest : List ℕ) → read_full (length chunk) (chunk ++ rest) ≡ some (chunk, rest)
unfolding read_full
read_full-append [] rest = refl
read_full-append (b ∷ chunk) rest = rw (read_full-append chunk rest) refl

read_frames-found :
    (fuel n : ℕ) (stream rest rest' chunk : List ℕ) (type : ℕ)
    → read_header stream ≡ some (record { stream = type; size = suc n }, rest)
    → read_full (suc n) rest ≡ some (chunk, rest')
    → read_frames (suc fuel) stream ≡ frame_events type chunk ++ read_frames fuel rest'
unfolding read_frames
read_frames-found fuel n stream rest rest' chunk type h k = rw (h, k, read_frames) refl

read_header-encode :
    (type : ℕ) (chunk rest : List ℕ)
    → length chunk < 4_294_967_296
    → read_header (encode (type, chunk) ++ rest)
      ≡ some (record { stream = type; size = length chunk }, chunk ++ rest)
unfolding read_header encode
read_header-encode type chunk rest h =
    ap (λ n. some (record { stream = type; size = n }, chunk ++ rest))
      (big_endian-bytes (length chunk) h)

read_frames-encode :
    (fuel type : ℕ) (chunk rest : List ℕ)
    → length chunk < 4_294_967_296
    → read_frames (suc fuel) (encode (type, chunk) ++ rest)
      ≡ frame_events type chunk ++ read_frames fuel rest
unfolding read_frames encode read_header frame_events
read_frames-encode fuel type [] rest h = refl
read_frames-encode fuel type (b ∷ chunk) rest h =
    read_frames-found fuel (length chunk) (encode (type, b ∷ chunk) ++ rest) ((b ∷ chunk) ++ rest)
      rest (b ∷ chunk) type (read_header-encode type (b ∷ chunk) rest h)
      (read_full-append (b ∷ chunk) rest)

-- A size that fits the header's four bytes.
abbrev pub Fits : ℕ × List ℕ → Type 0
Fits (type, chunk) = length chunk < 4_294_967_296

abbrev pub all_events : List (ℕ × List ℕ) → List SandboxEvent
all_events [] = []
all_events ((type, chunk) ∷ frames) = frame_events type chunk ++ all_events frames

read_frames-ended :
    (fuel : ℕ) (stream : List ℕ) → read_header stream ≡ none → read_frames fuel stream ≡ []
unfolding read_frames
read_frames-ended zero stream h = refl
read_frames-ended (suc fuel) stream h = rw (h, read_frames) refl

read_frames-encode_all :
    (fuel : ℕ) (frames : List (ℕ × List ℕ)) (tail : List ℕ)
    → All Fits frames
    → read_header tail ≡ none
    → length frames ≤ fuel
    → read_frames fuel (encode_all frames ++ tail) ≡ all_events frames
unfolding encode_all
read_frames-encode_all fuel [] tail fits ended enough = read_frames-ended fuel tail ended
read_frames-encode_all zero (frame ∷ frames) tail fits ended enough = ground arith
read_frames-encode_all (suc fuel) ((type, chunk) ∷ frames) tail (fit, fits) ended enough =
    ap (read_frames (suc fuel)) (append_assoc (encode (type, chunk)) (encode_all frames) tail)
    ∙ read_frames-encode fuel type chunk (encode_all frames ++ tail) fit
    ∙ ap (λ later. frame_events type chunk ++ later)
        (read_frames-encode_all fuel frames tail fits ended (omega arith))

frames-length :
    (frames : List (ℕ × List ℕ)) (tail : List ℕ)
    → length frames ≤ length (encode_all frames ++ tail)
unfolding encode_all encode
frames-length [] tail = omega arith
frames-length ((type, chunk) ∷ frames) tail = omega (
  arith,
  frames-length frames tail,
  length-append (encode_all frames) tail,
  length-append (encode (type, chunk)) (encode_all frames),
  length-append (encode (type, chunk) ++ encode_all frames) tail,
)

-- Where the size of every frame fits the header's four bytes and the stream ends in less than a
-- header, the events read from the frames that Docker wrote are those of each frame's payload, in
-- order, whatever the number of frames.
pub subscribe_events-encode_all :
    (frames : List (ℕ × List ℕ)) (tail : List ℕ)
    → All Fits frames
    → read_header tail ≡ none
    → subscribe_events (encode_all frames ++ tail) ≡ all_events frames
unfolding subscribe_events
subscribe_events-encode_all frames tail fits ended =
    read_frames-encode_all (length (encode_all frames ++ tail)) frames tail fits ended
      (frames-length frames tail)
