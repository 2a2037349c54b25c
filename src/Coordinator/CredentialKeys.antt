-- ===== src/Coordinator/CredentialKeys.antt =====
-- What the test for credential keys of internal/operations/coordinator.go finds, and what it misses.
use llm_bridge_server.Prelude.{
  ℕ, suc, ◌≡◌, ◌↔◌, refl, String, true, false, ◌||◌, List, [], ◌∷◌, ◌++◌, Option, none, some,
  Bool-cases, inl, inr, arith,
}
use llm_bridge_server.Prelude.Text.{codes, same_text}
use llm_bridge_server.Coordinator.Credentials.{
  Json, null, boolean, number, text, array, object, Elements, no_elements, element, Entries,
  no_entries, entry, is_separator, is_upper, flush, split_from, split_key_into_words, is_among,
  words_name_credential, key_names_credential, PathStep, key, index, below_or, credential_key_path,
  path_in_elements, path_in_entries,
}

mutual
  -- A key that stands in a value, at any depth.
  pub data HasKey : Json → String → Type 0 where
    in_array : {xs : Elements} {k : String} → InElements xs k → HasKey (array xs) k
    in_object : {es : Entries} {k : String} → InEntries es k → HasKey (object es) k

  pub data InElements : Elements → String → Type 0 where
    here : {v : Json} {xs : Elements} {k : String} → HasKey v k → InElements (element v xs) k
    later : {v : Json} {xs : Elements} {k : String} → InElements xs k → InElements (element v xs) k

  pub data InEntries : Entries → String → Type 0 where
    named : {v : Json} {es : Entries} {k : String} → InEntries (entry k v es) k
    inside : {v : Json} {es : Entries} {j k : String} → HasKey v k → InEntries (entry j v es) k
    behind : {v : Json} {es : Entries} {j k : String} → InEntries es k → InEntries (entry j v es) k

below_or-none :
    (s : PathStep) (a b : Option (List PathStep)) → below_or s a b ≡ none → (a ≡ none) × (b ≡ none)
unfolding below_or
below_or-none s none b h = (refl, h)
below_or-none s (some p) b h = absurd (cc h)

none-below_or :
    (s : PathStep) (a b : Option (List PathStep)) → a ≡ none → b ≡ none → below_or s a b ≡ none
unfolding below_or
none-below_or s none b h k = k
none-below_or s (some p) b h k = absurd (cc h)

entry_none :
    (k : String) (v : Json) (es : Entries)
    → path_in_entries (entry k v es) ≡ none
    → (key_names_credential k ≡ false)
      × (credential_key_path v ≡ none)
      × (path_in_entries es ≡ none)
unfolding path_in_entries
entry_none k v es h = elim (Bool-cases (key_names_credential k)) [
  | inl b ↦ absurd (cc (rw (path_in_entries, b) at h))
  | inr b ↦
      let (inside_none, rest_none) =
        below_or-none (key k) (credential_key_path v) (path_in_entries es)
          (rw (path_in_entries, b) at h) in
      (b, inside_none, rest_none)
]

mutual
  unfolding credential_key_path path_in_elements

  none_misses :
      (v : Json)
      → credential_key_path v ≡ none
      → (k : String) → HasKey v k
      → key_names_credential k ≡ false
  none_misses (array xs) h k (in_array m) = elements_miss 0 xs h k m
  none_misses (object es) h k (in_object m) = entries_miss es h k m
  none_misses null h k m = elim m [ ]
  none_misses (boolean b) h k m = elim m [ ]
  none_misses (number n) h k m = elim m [ ]
  none_misses (text t) h k m = elim m [ ]

  elements_miss :
      (n : ℕ) (xs : Elements)
      → path_in_elements n xs ≡ none
      → (k : String) → InElements xs k
      → key_names_credential k ≡ false
  elements_miss n (element v xs) h k (here m) =
      none_misses v
        (below_or-none (index n) (credential_key_path v) (path_in_elements (suc n) xs) h).0 k m
  elements_miss n (element v xs) h k (later m) =
      elements_miss (suc n) xs
        (below_or-none (index n) (credential_key_path v) (path_in_elements (suc n) xs) h).1 k m
  elements_miss n no_elements h k m = elim m [ ]

  entries_miss :
      (es : Entries)
      → path_in_entries es ≡ none
      → (k : String) → InEntries es k
      → key_names_credential k ≡ false
  entries_miss no_entries h k m = elim m [ ]
  entries_miss (entry j v es) h k named = (entry_none j v es h).0
  entries_miss (entry j v es) h k (inside m) = none_misses v (entry_none j v es h).1 k m
  entries_miss (entry j v es) h k (behind m) = entries_miss es (entry_none j v es h).2 k m

mutual
  unfolding credential_key_path path_in_elements path_in_entries

  missed_none :
      (v : Json)
      → ((k : String) → HasKey v k → key_names_credential k ≡ false)
      → credential_key_path v ≡ none
  missed_none (array xs) h = missed_elements 0 xs (λ k m. h k (in_array m))
  missed_none (object es) h = missed_entries es (λ k m. h k (in_object m))
  missed_none _ h = refl

  missed_elements :
      (n : ℕ) (xs : Elements)
      → ((k : String) → InElements xs k → key_names_credential k ≡ false)
      → path_in_elements n xs ≡ none
  missed_elements n no_elements h = refl
  missed_elements n (element v xs) h =
      none-below_or (index n) (credential_key_path v) (path_in_elements (suc n) xs)
        (missed_none v (λ k m. h k (InElements.here m)))
        (missed_elements (suc n) xs (λ k m. h k (InElements.later m)))

  missed_entries :
      (es : Entries)
      → ((k : String) → InEntries es k → key_names_credential k ≡ false)
      → path_in_entries es ≡ none
  missed_entries no_entries h = refl
  missed_entries (entry j v es) h =
      rw (path_in_entries, h j InEntries.named)
        (none-below_or (key j) (credential_key_path v) (path_in_entries es)
          (missed_none v (λ k m. h k (InEntries.inside m)))
          (missed_entries es (λ k m. h k (InEntries.behind m))))

-- The test finds no path in a value exactly when no key of it, at any depth, is named like a
-- credential.
pub credential_key_path-none :
    (v : Json)
    → (credential_key_path v ≡ none) ↔ ((k : String) → HasKey v k → key_names_credential k ≡ false)
credential_key_path-none v = (none_misses v, missed_none v)

-- Every character is a capital letter or a separator.
abbrev pub IsCapital : List ℕ → Type 0
IsCapital [] = Unit {0}
IsCapital (c ∷ s) = ((is_upper c || is_separator c) ≡ true) × IsCapital s

-- No word has two letters.
abbrev AllShort : List (List ℕ) → Type 0
AllShort [] = Unit {0}
AllShort ([] ∷ ws) = AllShort ws
AllShort ((c ∷ []) ∷ ws) = AllShort ws
AllShort ((c ∷ d ∷ w) ∷ ws) = ⊥

flush_short : (c : ℕ) (ws : List (List ℕ)) → AllShort ws → AllShort (flush (c ∷ []) ++ ws)
unfolding flush
flush_short c ws h = h

abbrev AtMostOne : List ℕ → Type 0
AtMostOne [] = Unit {0}
AtMostOne (c ∷ []) = Unit {0}
AtMostOne (c ∷ d ∷ w) = ⊥

flush_front :
    (current : List ℕ) (ws : List (List ℕ))
    → AtMostOne current
    → AllShort ws
    → AllShort (flush current ++ ws)
unfolding flush
flush_front [] ws h k = k
flush_front (c ∷ []) ws h k = k
flush_front (c ∷ d ∷ w) ws h k = absurd h

split_short :
    (current s : List ℕ) → AtMostOne current → IsCapital s → AllShort (split_from false current s)
unfolding split_from
split_short [] [] h k = tt
split_short (c ∷ []) [] h k = tt
split_short (c ∷ d ∷ w) [] h k = absurd h
split_short current (c ∷ s) h (k, ks) = elim (Bool-cases (is_separator c)) [
  | inl b ↦
      rw (b, split_from) (flush_front current (split_from false [] s) h (split_short [] s tt ks))
  | inr b ↦
      let up : is_upper c ≡ true = ground (arith, k, b) in
      rw (b, up, split_from)
        (flush_front current (split_from false (c ∷ []) s) h (split_short (c ∷ []) s tt ks))
]

short_names_none : (ws : List (List ℕ)) → AllShort ws → words_name_credential ws ≡ false
unfolding words_name_credential is_among same_text
short_names_none [] h = refl
short_names_none ([] ∷ ws) h = short_names_none ws h
short_names_none ((c ∷ []) ∷ ws) h = ground (arith, short_names_none ws h)
short_names_none ((c ∷ d ∷ w) ∷ ws) h = absurd h

start_short : (s : List ℕ) → IsCapital s → AllShort (split_key_into_words s)
unfolding split_key_into_words split_from
start_short [] h = tt
start_short (c ∷ s) (k, ks) = elim (Bool-cases (is_separator c)) [
  | inl b ↦ rw (split_key_into_words, split_from, b) (split_short [] s tt ks)
  | inr b ↦
      let up : is_upper c ≡ true = ground (arith, k, b) in
      rw (split_key_into_words, split_from, b, up) (split_short (c ∷ []) s tt ks)
]

-- A key written in capital letters and separators alone is never named like a credential, whatever
-- its words are: each capital letter begins a word.
pub capital_key_passes : (k : String) → IsCapital (codes k) → key_names_credential k ≡ false
unfolding key_names_credential
capital_key_passes k h = short_names_none (split_key_into_words (codes k)) (start_short (codes k) h)
