-- ===== src/Sandbox/Frames/Lines.antt =====
-- The lines of one frame: `bufio.Scanner` with its limit on a line, and the trimming of
-- `SubscribeEvents` in internal/sandbox/docker.go.
use foreman.Prelude.{ℕ, ◌||◌, List, [], ◌∷◌, length, ◌==◌, leb, String, if◌then◌else◌}
use foreman.Sandbox.Frames.{SandboxEvent, stream_type}

abbrev pub onto_first : ℕ → List (List ℕ) → List (List ℕ)
onto_first b [] = (b ∷ []) ∷ []
onto_first b (line ∷ lines) = (b ∷ line) ∷ lines

-- The texts between the line feeds.
unfoldable pub split_lines : List ℕ → List (List ℕ)
split_lines [] = [] ∷ []
split_lines (b ∷ chunk) =
    let lines = split_lines chunk in if b == 10 then [] ∷ lines else onto_first b lines

abbrev pub trimmed_cons : ℕ → List ℕ → List ℕ
trimmed_cons b [] = if (b == 13) || (b == 10) then [] else b ∷ []
trimmed_cons b (c ∷ line) = b ∷ c ∷ line

-- `strings.TrimRight(line, "\r\n")`
unfoldable pub trim_end : List ℕ → List ℕ
trim_end [] = []
trim_end (b ∷ line) = trimmed_cons b (trim_end line)

abbrev pub emit : String → List ℕ → List SandboxEvent → List SandboxEvent
emit type [] events = events
emit type (b ∷ line) events = record { type = type; payload = b ∷ line } ∷ events

-- `bufio.MaxScanTokenSize`
abbrev pub max_token : ℕ
max_token = 65_536

-- A line that does not fit the scanner's buffer ends the scan.
unfoldable pub scan : String → List (List ℕ) → List SandboxEvent
unfolding trim_end
scan type [] = []
scan type (line ∷ lines) =
    let events = scan type lines in
    if leb max_token (length line) then [] else emit type (trim_end line) events

unfoldable pub frame_events : ℕ → List ℕ → List SandboxEvent
unfolding split_lines scan
frame_events stream chunk = scan (stream_type stream) (split_lines chunk)
