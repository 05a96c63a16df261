-- ===== src/Sandbox/Frames.antt =====
-- `SubscribeEvents` of internal/sandbox/docker.go: the frames of a log stream, their lines, and the
-- events. Bytes are numbers. A context that ends cuts the events off after some of them.
pub mod Lines
pub mod Stream
pub mod RoundTrip
pub mod Payloads
use foreman.Prelude.{
  ℕ, zero, suc, ◌+◌, ◌*◌, String, Bool, true, false, Option, none, some, List, [], ◌∷◌, ◌++◌,
  length, ◌==◌, leb, if◌then◌else◌,
}

pub record SandboxEvent : Type 0 where
  pub type : String
  pub payload : List ℕ

-- `io.ReadFull` of n bytes: the bytes and the rest, or `none` where the stream ends before.
unfoldable pub read_full : ℕ → List ℕ → Option (List ℕ × List ℕ)
read_full zero stream = some ([], stream)
read_full (suc n) [] = none
read_full (suc n) (b ∷ stream) = elim (read_full n stream) [
  | none ↦ none
  | some (chunk, rest) ↦ some (b ∷ chunk, rest)
]

-- The header: the stream's type, three bytes of padding, the size as four bytes.
pub record Header : Type 0 where
  pub stream : ℕ
  pub size : ℕ

-- `binary.BigEndian.Uint32`
abbrev pub big_endian : ℕ → ℕ → ℕ → ℕ → ℕ
big_endian a b c d = ((a * 256 + b) * 256 + c) * 256 + d

unfoldable pub read_header : List ℕ → Option (Header × List ℕ)
read_header (t ∷ x ∷ y ∷ z ∷ a ∷ b ∷ c ∷ d ∷ stream) =
    some (record { stream = t; size = big_endian a b c d }, stream)
read_header stream = none

abbrev pub stream_type : ℕ → String
stream_type t = if t == 2 then "stderr" else "stdout"
