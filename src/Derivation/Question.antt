-- ===== src/Derivation/Question.antt =====
-- looksLikeQuestion of internal/harness/derivation.go, with what it uses of the strings package.
-- A text is the list of its code points.
use llm_bridge_server.Prelude.Text.{codes, trim_space, same_text, starts_with, to_lower}
use llm_bridge_server.Prelude.{
  ℕ, Bool, true, false, ◌&&◌, ◌||◌, not, List, [], ◌∷◌, map, ◌==◌, if◌then◌else◌,
}
use mathlib.Core.List.{reverse}

unfoldable pub split_from : List ℕ → List ℕ → List (List ℕ)
split_from line [] = reverse line ∷ []
split_from line (c ∷ s) = elim (c == 10) [
  | true ↦ reverse line ∷ split_from [] s
  | false ↦ split_from (c ∷ line) s
]

-- strings.Split(s, "\n")
unfoldable pub split_lines : List ℕ → List (List ℕ)
unfolding split_from
split_lines = split_from []

-- strings.Contains(s, p)
unfoldable pub contains_text : List ℕ → List ℕ → Bool
unfolding starts_with
contains_text p [] = starts_with p []
contains_text p (c ∷ s) = starts_with p (c ∷ s) || contains_text p s

abbrev pub phrases : List (List ℕ)
phrases =
    codes "which would you prefer"
    ∷ codes "what would you like"
    ∷ codes "should i proceed"
    ∷ codes "should i go ahead"
    ∷ codes "shall i proceed"
    ∷ codes "want me to"
    ∷ []

unfoldable pub contains_any : List (List ℕ) → List ℕ → Bool
unfolding contains_text
contains_any [] s = false
contains_any (p ∷ ps) s = contains_text p s || contains_any ps s

-- A line that the loop passes over.
unfoldable pub is_skipped : List ℕ → Bool
unfolding same_text
is_skipped l = same_text l [] || same_text l (codes "---")

-- The loop over the lines from the last one; [] if it ends without a break.
unfoldable pub first_kept : List (List ℕ) → List ℕ
unfolding is_skipped trim_space
first_kept [] = []
first_kept (raw ∷ lines) =
    let l = trim_space raw in elim (is_skipped l) [ true ↦ first_kept lines | false ↦ l ]

unfoldable pub ends_with_question_mark : List ℕ → Bool
ends_with_question_mark [] = false
ends_with_question_mark (c ∷ []) = c == b'?'
ends_with_question_mark (c ∷ d ∷ s) = ends_with_question_mark (d ∷ s)

-- What is decided of the line that was kept.
unfoldable pub asks : List ℕ → Bool
unfolding same_text ends_with_question_mark contains_any to_lower
asks last =
    not (same_text last [])
    && (ends_with_question_mark last || contains_any phrases (map to_lower last))

-- looksLikeQuestion
unfoldable pub looks_like_question : List ℕ → Bool
unfolding same_text trim_space split_lines first_kept asks
looks_like_question text =
    let trimmed = trim_space text in
    if same_text trimmed [] then false else asks (first_kept (reverse (split_lines trimmed)))
