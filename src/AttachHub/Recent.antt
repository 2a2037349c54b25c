-- ===== src/AttachHub/Recent.antt =====
-- The last elements of a list, and the splits of a list that the ring buffer writes across.
use mathlib.Core.List.{append_assoc}
use llm_bridge_server.Prelude.{
  ℕ, zero, suc, ◌+◌, ◌-◌, ◌≤◌, min, ◌≡◌, refl, ap, ◌∙◌, sym, List, [], ◌∷◌, ◌++◌, length, take,
  drop, length-append, length-drop, arith, leb, Bool-cases, inl, inr, take-append-drop,
}

-- The last `cap` elements, or all where there are fewer.
unfoldable pub recent : {A : Type 0} → ℕ → List A → List A
recent cap xs = drop (length xs - cap) xs

pub take-append : {A : Type 0} (xs ys : List A) → take (length xs) (xs ++ ys) ≡ xs
take-append [] ys = refl
take-append (x ∷ xs) ys = ap (λ l. x ∷ l) (take-append xs ys)

pub drop-append :
    {A : Type 0} (n : ℕ) (xs ys : List A) → drop n (xs ++ ys) ≡ drop n xs ++ drop (n - length xs) ys
drop-append zero xs ys = let whole : 0 - length xs ≡ 0 = omega arith in rw whole refl
drop-append (suc n) [] ys = let whole : suc n - 0 ≡ suc n = omega arith in rw whole refl
drop-append (suc n) (x ∷ xs) ys =
    let same : suc n - suc (length xs) ≡ n - length xs = omega arith in
    rw same (drop-append n xs ys)

pub drop_all : {A : Type 0} (n : ℕ) (xs : List A) → length xs ≤ n → drop n xs ≡ []
drop_all zero [] h = refl
drop_all zero (x ∷ xs) h = absurd (omega arith)
drop_all (suc n) [] h = refl
drop_all (suc n) (x ∷ xs) h = drop_all n xs (omega arith)

pub drop-drop : {A : Type 0} (n m : ℕ) (xs : List A) → drop m (drop n xs) ≡ drop (n + m) xs
drop-drop zero m xs = let same : 0 + m ≡ m = omega arith in rw same refl
drop-drop (suc n) m [] = drop_all m [] (omega arith) ∙ sym (drop_all (suc n + m) [] (omega arith))
drop-drop (suc n) m (x ∷ xs) =
    let same : suc n + m ≡ suc (n + m) = omega arith in drop-drop n m xs ∙ rw same refl

pub length-recent :
    {A : Type 0} (cap : ℕ) (xs : List A) → length (recent cap xs) ≡ min cap (length xs)
unfolding recent
length-recent cap xs = omega (arith, length-drop (length xs - cap) xs)

pub recent_short : {A : Type 0} (cap : ℕ) (xs : List A) → length xs ≤ cap → recent cap xs ≡ xs
unfolding recent
recent_short cap xs h = let whole : length xs - cap ≡ 0 = omega arith in rw whole refl

-- Enough elements at the end make the front of no account.
pub recent_front :
    {A : Type 0} (cap : ℕ) (xs ys : List A)
    → cap ≤ length ys
    → recent cap (xs ++ ys) ≡ recent cap ys
unfolding recent
recent_front cap xs ys h =
    let front : drop (length (xs ++ ys) - cap) xs ≡ [] =
      drop_all (length (xs ++ ys) - cap) xs (omega (arith, length-append xs ys)) in
    let rest : length (xs ++ ys) - cap - length xs ≡ length ys - cap =
      omega (arith, length-append xs ys) in
    drop-append (length (xs ++ ys) - cap) xs ys ∙ rw (front, rest) refl

pub recent_suffix :
    {A : Type 0} (cap : ℕ) (xs ys : List A) → length ys ≡ cap → recent cap (xs ++ ys) ≡ ys
recent_suffix cap xs ys h = recent_front cap xs ys (omega arith) ∙ recent_short cap ys (omega arith)

-- What was forgotten before a write does not matter after it.
pub recent-append :
    {A : Type 0} (cap : ℕ) (xs ys : List A)
    → recent cap (recent cap xs ++ ys) ≡ recent cap (xs ++ ys)
recent-append cap xs ys = elim (Bool-cases (leb cap (length xs))) [
  | inr small ↦ rw (recent_short cap xs (ground arith)) refl
  | inl large ↦
      let k = length xs - cap in
      let kept : cap ≤ length (recent cap xs ++ ys) =
        ground (arith, length-append (recent cap xs) ys, length-recent cap xs) in
      sym (recent_front cap (take k xs) (recent cap xs ++ ys) kept)
      ∙ ap (recent cap) (
          sym (append_assoc (take k xs) (recent cap xs) ys)
          ∙ ap (λ l. l ++ ys) (unfold recent in take-append-drop k xs))
]

-- drop and take at the seam of two lists.
pub drop_front : {A : Type 0} (n : ℕ) (xs ys : List A) → length xs ≡ n → drop n (xs ++ ys) ≡ ys
drop_front n xs ys h =
    let rest : n - length xs ≡ 0 = omega arith in
    rw (drop-append n xs ys, drop_all n xs (omega arith), rest) refl

pub take_front : {A : Type 0} (n : ℕ) (xs ys : List A) → length xs ≡ n → take n (xs ++ ys) ≡ xs
take_front n xs ys h = rw (← h) (take-append xs ys)
