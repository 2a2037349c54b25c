-- ===== src/Coordinator/Credentials.antt =====
-- credentialKeyPath, keyNamesCredential and splitKeyIntoWords of internal/operations/coordinator.go:
-- which keys of an intent's input are named like a credential. A decoded object is its entries in the
-- order of their keys.
use mathlib.Core.List.{reverse}
use llm_bridge_server.Prelude.{
  ℕ, suc, String, Bool, true, false, not, ◌&&◌, ◌||◌, ◌==◌, leb, List, [], ◌∷◌, ◌++◌, map, Option,
  none, some, if◌then◌else◌,
}
use llm_bridge_server.Prelude.Text.{codes, same_text, to_lower}

mutual
  -- A value of encoding/json.
  pub data Json : Type 0 where
    null : Json
    boolean : Bool → Json
    number : String → Json
    text : String → Json
    array : Elements → Json
    object : Entries → Json

  pub data Elements : Type 0 where
    no_elements : Elements
    element : Json → Elements → Elements

  pub data Entries : Type 0 where
    no_entries : Entries
    entry : String → Json → Entries → Entries

unfoldable pub is_separator : ℕ → Bool
is_separator c = c == 95 || c == 45 || c == 46 || c == 32

unfoldable pub is_upper : ℕ → Bool
is_upper c = leb 65 c && leb c 90

-- flush: the word that ends here, if it has a letter. The letters stand in reverse.
unfoldable pub flush : List ℕ → List (List ℕ)
unfolding to_lower
flush [] = []
flush (c ∷ current) = map to_lower (reverse (c ∷ current)) ∷ []

-- The loop of splitKeyIntoWords, at its first character or at a later one.
unfoldable pub split_from : Bool → List ℕ → List ℕ → List (List ℕ)
unfolding flush is_separator is_upper
split_from first current [] = flush current
split_from first current (c ∷ key) =
    let after_separator = split_from false [] key in
    let after_capital = split_from false (c ∷ []) key in
    let after_letter = split_from false (c ∷ current) key in
    if is_separator c
    then flush current ++ after_separator
    else if is_upper c && not first
    then flush current ++ after_capital
    else after_letter

unfoldable pub split_key_into_words : List ℕ → List (List ℕ)
unfolding split_from
split_key_into_words key = split_from true [] key

abbrev pub credential_key_words : List (List ℕ)
credential_key_words =
    codes "password"
    ∷ codes "passwd"
    ∷ codes "secret"
    ∷ codes "token"
    ∷ codes "apikey"
    ∷ codes "authorization"
    ∷ codes "credential"
    ∷ codes "credentials"
    ∷ codes "cookie"
    ∷ codes "bearer"
    ∷ []

unfoldable pub is_among : List (List ℕ) → List ℕ → Bool
unfolding same_text
is_among [] w = false
is_among (v ∷ vs) w = same_text v w || is_among vs w

unfoldable pub starts_with_key : List (List ℕ) → Bool
unfolding same_text
starts_with_key [] = false
starts_with_key (w ∷ ws) = same_text (codes "key") w

-- The loop of keyNamesCredential.
unfoldable pub words_name_credential : List (List ℕ) → Bool
unfolding is_among starts_with_key same_text
words_name_credential [] = false
words_name_credential (w ∷ ws) =
    is_among credential_key_words w
    || (same_text (codes "api") w && starts_with_key ws)
    || words_name_credential ws

unfoldable pub key_names_credential : String → Bool
unfolding split_key_into_words words_name_credential
key_names_credential key = words_name_credential (split_key_into_words (codes key))

-- A step of the path that an error names.
pub data PathStep : Type 0 where
  key : String → PathStep
  index : ℕ → PathStep

-- The first of two answers, the first one below a step.
unfoldable pub below_or :
    PathStep → Option (List PathStep) → Option (List PathStep) → Option (List PathStep)
below_or step (some path) rest = some (step ∷ path)
below_or step none rest = rest

unfoldable mutual
  unfolding key_names_credential below_or

  pub credential_key_path : Json → Option (List PathStep)
  credential_key_path (array elements) = path_in_elements 0 elements
  credential_key_path (object entries) = path_in_entries entries
  credential_key_path _ = none

  pub path_in_elements : ℕ → Elements → Option (List PathStep)
  path_in_elements n no_elements = none
  path_in_elements n (element v elements) =
      below_or (index n) (credential_key_path v) (path_in_elements (suc n) elements)

  pub path_in_entries : Entries → Option (List PathStep)
  path_in_entries no_entries = none
  path_in_entries (entry k v entries) =
      let inside = credential_key_path v in
      let rest = path_in_entries entries in
      if key_names_credential k then some (key k ∷ []) else below_or (key k) inside rest
