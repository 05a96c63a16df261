-- ===== src/Sandbox/Frames/Payloads.antt =====
-- What the events of `SubscribeEvents` in internal/sandbox/docker.go carry.
use foreman.Prelude.{
  ℕ, suc, zero, ◌≤◌, ◌<◌, String, ◌≡◌, refl, ap, ◌⊎◌, inl, inr, false, ◌||◌, Bool-cases,
  Option-cases, none, some, List, [], ◌∷◌, ◌++◌, length, All, arith, ◌==◌, leb,
}
use foreman.Sandbox.Frames.{SandboxEvent, read_header, read_full, stream_type}
use foreman.Sandbox.Frames.Lines.{
  split_lines, onto_first, trim_end, trimmed_cons, emit, scan, frame_events, max_token,
}
use foreman.Sandbox.Frames.Stream.{read_frames, subscribe_events}

abbrev pub NoLineFeed : ℕ → Type 0
NoLineFeed b = (b == 10) ≡ false

-- A line: of one of the two streams, not empty, shorter than the scanner's buffer, without a line
-- feed, and with nothing at its end to trim.
pub record IsEvent (e : SandboxEvent) : Type 0 where
  pub type : (e.type ≡ "stdout") ⊎ (e.type ≡ "stderr")
  pub shown : 0 < length e.payload
  pub fits : length e.payload < max_token
  pub one_line : All NoLineFeed e.payload
  pub trimmed : trim_end e.payload ≡ e.payload

onto_first-NoLineFeed :
    (b : ℕ) (lines : List (List ℕ))
    → (b == 10) ≡ false
    → All (All NoLineFeed) lines
    → All (All NoLineFeed) (onto_first b lines)
onto_first-NoLineFeed b [] h a = ((h, tt), tt)
onto_first-NoLineFeed b (line ∷ lines) h (a, as') = ((h, a), as')

split_lines-NoLineFeed : (chunk : List ℕ) → All (All NoLineFeed) (split_lines chunk)
unfolding split_lines
split_lines-NoLineFeed [] = (tt, tt)
split_lines-NoLineFeed (b ∷ chunk) = elim (Bool-cases (b == 10)) [
  | inl e ↦ rw (e, split_lines) (tt, split_lines-NoLineFeed chunk)
  | inr e ↦
      rw (e, split_lines)
        (onto_first-NoLineFeed b (split_lines chunk) e (split_lines-NoLineFeed chunk))
]

trimmed_cons-length : (b : ℕ) (line : List ℕ) → length (trimmed_cons b line) ≤ suc (length line)
trimmed_cons-length b [] = ground arith
trimmed_cons-length b (c ∷ line) = omega arith

trim_end-length : (line : List ℕ) → length (trim_end line) ≤ length line
unfolding trim_end
trim_end-length [] = omega arith
trim_end-length (b ∷ line) =
    omega (arith, trim_end-length line, trimmed_cons-length b (trim_end line))

trimmed_cons-NoLineFeed :
    (b : ℕ) (line : List ℕ)
    → NoLineFeed b
    → All NoLineFeed line
    → All NoLineFeed (trimmed_cons b line)
trimmed_cons-NoLineFeed b [] h a = elim (Bool-cases ((b == 13) || (b == 10))) [
  | inl e ↦ rw e tt
  | inr e ↦ rw e (h, tt)
]
trimmed_cons-NoLineFeed b (c ∷ line) h a = (h, a)

trim_end-NoLineFeed : (line : List ℕ) → All NoLineFeed line → All NoLineFeed (trim_end line)
unfolding trim_end
trim_end-NoLineFeed [] a = tt
trim_end-NoLineFeed (b ∷ line) (h, a) =
    trimmed_cons-NoLineFeed b (trim_end line) h (trim_end-NoLineFeed line a)

trim_end-trimmed_cons :
    (b : ℕ) (line : List ℕ)
    → trim_end line ≡ line
    → trim_end (trimmed_cons b line) ≡ trimmed_cons b line
unfolding trim_end
trim_end-trimmed_cons b [] h = elim (Bool-cases ((b == 13) || (b == 10))) [
  | inl e ↦ rw e refl
  | inr e ↦ rw e (rw e refl)
]
trim_end-trimmed_cons b (c ∷ line) h = ap (trimmed_cons b) h

trim_end_idem : (line : List ℕ) → trim_end (trim_end line) ≡ trim_end line
unfolding trim_end
trim_end_idem [] = refl
trim_end_idem (b ∷ line) = trim_end-trimmed_cons b (trim_end line) (trim_end_idem line)

emit-IsEvent :
    (type : String) (line : List ℕ) (events : List SandboxEvent)
    → (type ≡ "stdout") ⊎ (type ≡ "stderr")
    → length line < max_token
    → All NoLineFeed line
    → trim_end line ≡ line
    → All IsEvent events
    → All IsEvent (emit type line events)
emit-IsEvent type [] events t fits feed trimmed later = later
emit-IsEvent type (b ∷ line) events t fits feed trimmed later = (
  record { type = t; shown = omega arith; fits = fits; one_line = feed; trimmed = trimmed },
  later,
)

scan-IsEvent :
    (type : String) (lines : List (List ℕ))
    → (type ≡ "stdout") ⊎ (type ≡ "stderr")
    → All (All NoLineFeed) lines
    → All IsEvent (scan type lines)
unfolding scan
scan-IsEvent type [] t feeds = tt
scan-IsEvent type (line ∷ lines) t (feed, feeds) = elim (Bool-cases (leb max_token (length line))) [
  | inl e ↦ rw (e, scan) tt
  | inr e ↦
      rw (e, scan)
        (emit-IsEvent type (trim_end line) (scan type lines) t
          (ground (arith, trim_end-length line)) (trim_end-NoLineFeed line feed)
          (trim_end_idem line) (scan-IsEvent type lines t feeds))
]

stream_type_cases : (t : ℕ) → (stream_type t ≡ "stdout") ⊎ (stream_type t ≡ "stderr")
stream_type_cases t = elim (Bool-cases (t == 2)) [
  | inl e ↦ inr (rw e refl)
  | inr e ↦ inl (rw e refl)
]

frame_events-IsEvent : (stream : ℕ) (chunk : List ℕ) → All IsEvent (frame_events stream chunk)
unfolding frame_events
frame_events-IsEvent stream chunk =
    scan-IsEvent (stream_type stream) (split_lines chunk) (stream_type_cases stream)
      (split_lines-NoLineFeed chunk)

All-append : (xs ys : List SandboxEvent) → All IsEvent xs → All IsEvent ys → All IsEvent (xs ++ ys)
All-append [] ys a b = b
All-append (x ∷ xs) ys (h, a) b = (h, All-append xs ys a b)

sized-IsEvent :
    (fuel n : ℕ) (rest : List ℕ) (type : ℕ)
    → ((stream : List ℕ) → All IsEvent (read_frames fuel stream))
    → All IsEvent (elim n [
      | zero ↦ read_frames fuel rest
      | suc m ↦ elim (read_full (suc m) rest) [
        | none ↦ []
        | some (chunk, rest') ↦ frame_events type chunk ++ read_frames fuel rest'
      ]
    ])
sized-IsEvent fuel zero rest type later = later rest
sized-IsEvent fuel (suc m) rest type later = elim (Option-cases (read_full (suc m) rest)) [
  | inl f ↦ rw f tt
  | inr ((chunk, rest'), f) ↦ rw f (
      All-append (frame_events type chunk) (read_frames fuel rest')
        (frame_events-IsEvent type chunk) (later rest'))
]

read_frames-IsEvent : (fuel : ℕ) (stream : List ℕ) → All IsEvent (read_frames fuel stream)
unfolding read_frames
read_frames-IsEvent zero stream = tt
read_frames-IsEvent (suc fuel) stream = elim (Option-cases (read_header stream)) [
  | inl e ↦ rw (e, read_frames) tt
  | inr ((header, rest), e) ↦
      rw (e, read_frames)
        (sized-IsEvent fuel header.size rest header.stream (read_frames-IsEvent fuel))
]

-- Whatever bytes the daemon sends, every event is of stdout or stderr, and its payload is not empty,
-- is shorter than 65536 bytes, has no line feed, and has nothing left to trim at its end.
pub subscribe_events-IsEvent : (stream : List ℕ) → All IsEvent (subscribe_events stream)
unfolding subscribe_events
subscribe_events-IsEvent stream = read_frames-IsEvent (length stream) stream
