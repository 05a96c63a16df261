-- ===== src/Schemas/Subjects.antt =====
-- internal/schemas/subject.go: the subjects of events.
use foreman.Prelude.{String, ◌≡◌, refl, List, [], ◌∷◌, concat}

-- One round of the loop after the first part: a dot and the part.
unfoldable pub dotted : List String → String
dotted [] = ""
dotted (p ∷ ps) = concat "." (concat p (dotted ps))

unfoldable pub subject : List String → String
unfolding dotted
subject parts = concat "foreman" (dotted parts)

subject_test : subject ("task" ∷ "submitted" ∷ []) ≡ "foreman.task.submitted"
unfolding subject
subject_test = refl
