-- ===== src/EventBus/Examples.antt =====
-- The theorems about the memory bus of internal/eventbus at subjects that the program uses.
use foreman.Prelude.{ℕ, String, ◌≡◌, ◌↔◌, refl, true, false, List, [], ◌∷◌}
use foreman.Prelude.Dict.{Dict}
use foreman.EventBus.Subject.{match_subject, has_wildcard, split, Matches}
use foreman.EventBus.Subject.Correct.{match_subject-Matches}

-- Handlers are numbers here.
abbrev subs : Dict (List ℕ)
subs = ("foreman.approval.ses_1.granted", 7 ∷ []) ∷ []

match_star : match_subject "foreman.approval.*.granted" "foreman.approval.ses_1.granted" ≡ true
unfolding match_subject
match_star = refl

match_rest_of_nothing : match_subject "foreman.session.>" "foreman.session" ≡ true
unfolding match_subject
match_rest_of_nothing = refl

match_longer : match_subject "foreman.*" "foreman.task.submitted" ≡ false
unfolding match_subject
match_longer = refl

plain : has_wildcard "foreman.task.submitted" ≡ false
unfolding has_wildcard
plain = refl

match_subject-Matches_example :
    (match_subject "foreman.*.granted" "foreman.ses_1.granted" ≡ true)
    ↔ Matches (split "foreman.*.granted") (split "foreman.ses_1.granted")
match_subject-Matches_example = match_subject-Matches "foreman.*.granted" "foreman.ses_1.granted"

abbrev granted : String
granted = "foreman.approval.ses_1.granted"
