-- ===== src/Sandbox/Frames/Stream.antt =====
-- The loop of `SubscribeEvents` of internal/sandbox/docker.go on a log stream, and the streams that
-- Docker writes.
use foreman.Prelude.{ℕ, suc, zero, ◌/◌, ◌%◌, none, some, List, [], ◌∷◌, ◌++◌, length}
use foreman.Sandbox.Frames.{SandboxEvent, read_header, read_full}
use foreman.Sandbox.Frames.Lines.{frame_events}

-- A frame has eight bytes at least, so the length of the stream is fuel enough.
unfoldable pub read_frames : ℕ → List ℕ → List SandboxEvent
unfolding read_header read_full frame_events
read_frames zero stream = []
read_frames (suc fuel) stream = elim (read_header stream) [
  | none ↦ []
  | some (header, rest) ↦ elim header.size [
    | zero ↦ read_frames fuel rest
    | suc n ↦ elim (read_full (suc n) rest) [
      | none ↦ []
      | some (chunk, rest') ↦ frame_events header.stream chunk ++ read_frames fuel rest'
    ]
  ]
]

unfoldable pub subscribe_events : List ℕ → List SandboxEvent
unfolding read_frames
subscribe_events stream = read_frames (length stream) stream

-- A frame as Docker writes it.
unfoldable pub encode : ℕ × List ℕ → List ℕ
encode (stream, chunk) =
    stream
    ∷ 0
    ∷ 0
    ∷ 0
    ∷ length chunk / 16_777_216 % 256
    ∷ length chunk / 65_536 % 256
    ∷ length chunk / 256 % 256
    ∷ length chunk % 256
    ∷ chunk

unfoldable pub encode_all : List (ℕ × List ℕ) → List ℕ
unfolding encode
encode_all [] = []
encode_all (frame ∷ frames) = encode frame ++ encode_all frames
