-- ===== src/OneShot/Walk.antt =====
-- What Router.Run of internal/oneshotrouting/router.go answers, and whom it calls to get there.
use mathlib.Core.List.{append-nil, append_assoc}
use llm_bridge_server.Prelude.{
  Result, ℕ, suc, ◌+◌, ◌≡◌, ◌≢◌, refl, ap, String, List, [], ◌∷◌, ◌++◌, none, some, arith, length,
  length-append, Option-cases, inl, inr,
}
use llm_bridge_server.OneShot.Route.{Candidate, Route}
use llm_bridge_server.OneShot.Run.{
  Failure, OneShotAttempt, OneShotRequest, OneShotResponse, World, try_candidate, completed,
  run_from, run_route,
}

-- The attempts at models that are tried in a row from an index on.
unfoldable pub attempts_of : World → OneShotRequest → ℕ → List Candidate → List OneShotAttempt
attempts_of w request index [] = []
attempts_of w request index (c ∷ cs) =
    (try_candidate w index c request).attempt ∷ attempts_of w request (suc index) cs

-- None of them is cancelled, none answers.
unfoldable pub AllFail : World → OneShotRequest → ℕ → List Candidate → Type 0
AllFail w request index [] = Unit
AllFail w request index (c ∷ cs) =
    (w.context_error index ≡ none)
    × ((try_candidate w index c request).answer ≡ none)
    × AllFail w request (suc index) cs

abbrev pub cancelled_attempt : Candidate → String → OneShotAttempt
cancelled_attempt c e = record {
  model = c.model_id;
  instance_id = "";
  skipped = none;
  error = some (Failure.cancelled e);
}

-- The ways in which a walk from an index on ends.
pub data Ends (w : World) (request : OneShotRequest) (index : ℕ) (cs : List Candidate)
    : Result (List OneShotAttempt) OneShotResponse → Type 0 where
  -- A model answers after all before it failed: its text, under its own model or else the
  -- candidate's, with the instance that was asked and the attempts before it.
  answered :
      (before : List Candidate) (c : Candidate) (rest : List Candidate)
      (response given : OneShotResponse)
      → cs ≡ before ++ c ∷ rest
      → AllFail w request index before
      → w.context_error (index + length before) ≡ none
      → (try_candidate w (index + length before) c request).answer ≡ some response
      → given.attempts ≡ attempts_of w request index before
      → given.instance_id ≡ (try_candidate w (index + length before) c request).attempt.instance_id
      → given.text ≡ response.text
      → (response.model ≢ "" → given.model ≡ response.model)
      → (response.model ≡ "" → given.model ≡ c.model_id)
      → Ends w request index cs (Result.ok given)
  -- The context ends before a model is tried.
  stopped :
      (before : List Candidate) (c : Candidate) (rest : List Candidate) (e : String)
      → cs ≡ before ++ c ∷ rest
      → AllFail w request index before
      → w.context_error (index + length before) ≡ some e
      → Ends w request index cs
          (Result.err (attempts_of w request index before ++ cancelled_attempt c e ∷ []))
  -- Every model fails.
  all_failed :
      AllFail w request index cs
      → Ends w request index cs (Result.err (attempts_of w request index cs))

snoc-AllFail :
    (w : World) (request : OneShotRequest) (index : ℕ) (before : List Candidate) (c : Candidate)
    → AllFail w request index before
    → w.context_error (index + length before) ≡ none
    → (try_candidate w (index + length before) c request).answer ≡ none
    → AllFail w request index (before ++ c ∷ [])
unfolding AllFail
snoc-AllFail w request index [] c h e a =
    let same : index + 0 ≡ index = omega arith in (rw same at e, rw same at a, tt)
snoc-AllFail w request index (b ∷ before) c h e a =
    let same : index + suc (length before) ≡ suc index + length before = omega arith in
    (h.0, h.1, snoc-AllFail w request (suc index) before c h.2 (rw same at e) (rw same at a))

attempts_of-snoc :
    (w : World) (request : OneShotRequest) (index : ℕ) (before : List Candidate) (c : Candidate)
    → attempts_of w request index (before ++ c ∷ [])
      ≡ attempts_of w request index before
        ++ (try_candidate w (index + length before) c request).attempt ∷ []
unfolding attempts_of
attempts_of-snoc w request index [] c = let same : index + 0 ≡ index = omega arith in rw same refl
attempts_of-snoc w request index (b ∷ before) c =
    let same : index + suc (length before) ≡ suc index + length before = omega arith in
    rw same (
      ap (λ l. (try_candidate w index b request).attempt ∷ l)
        (attempts_of-snoc w request (suc index) before c))

completed-Ends :
    (w : World) (request : OneShotRequest) (index : ℕ) (before : List Candidate) (c : Candidate)
    (rest : List Candidate) (response : OneShotResponse)
    → AllFail w request index before
    → w.context_error (index + length before) ≡ none
    → (try_candidate w (index + length before) c request).answer ≡ some response
    → Ends w request index (before ++ c ∷ rest) (
        Result.ok (
          completed c
            (try_candidate w (index + length before) c request).attempt
            (attempts_of w request index before)
            response))
unfolding completed
completed-Ends w request index before c rest response h p a =
    answered before c rest response
      (completed c (try_candidate w (index + length before) c request).attempt
        (attempts_of w request index before) response)
      refl h p a refl refl refl (λ named. ground (arith, named))
      (λ unnamed. ground (arith, unnamed))

run_from-Ends :
    (w : World) (request : OneShotRequest) (index : ℕ) (before cs : List Candidate)
    → AllFail w request index before
    → Ends w request index
        (before ++ cs)
        (run_from w request (index + length before) cs (attempts_of w request index before)).0
unfolding run_from
run_from-Ends w request index before [] h = rw (append-nil before) (all_failed h)
run_from-Ends w request index before (c ∷ cs) h =
    let n = index + length before in
    elim (Option-cases (w.context_error n)) [
      | inr (e, p) ↦ rw (p, run_from) (stopped before c cs e refl h p)
      | inl p ↦ elim (Option-cases (try_candidate w n c request).answer) [
        | inr (response, a) ↦
            rw (p, a, run_from) (completed-Ends w request index before c cs response h p a)
        | inl a ↦
            let next : index + length (before ++ c ∷ []) ≡ suc n =
              omega (arith, length-append before (c ∷ [])) in
            let walk =
              run_from-Ends w request index (before ++ c ∷ []) cs
                (snoc-AllFail w request index before c h p a) in
            rw (p, a, run_from)
              (rw (next, append_assoc before (c ∷ []) cs, attempts_of-snoc w request index before c)
                at walk)
      ]
    ]

pub run_route-Ends :
    (w : World) (route : Route) (request : OneShotRequest)
    → Ends w request 0 route.candidates (run_route w route request).0
unfolding run_route AllFail attempts_of
run_route-Ends w route request = run_from-Ends w request 0 [] route.candidates tt
