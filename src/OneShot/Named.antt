-- ===== src/OneShot/Named.antt =====
-- What the error of a one-shot call of internal/oneshotrouting/router.go names.
use llm_bridge_server.Prelude.{
  Result, Result-cases, ℕ, suc, ◌<◌, ◌≡◌, refl, ap, String, Bool, List, [], ◌∷◌, ◌++◌, map, Option,
  none, some, is_empty, arith, length, length-append, Bool-cases, Option-cases, inl, inr,
}
use llm_bridge_server.OneShot.Route.{
  Candidate, Route, Model, ModelRegistry, candidate_of, role_route, resolve_role,
}
use llm_bridge_server.OneShot.Run.{
  Instance, OneShotAttempt, OneShotRequest, OneShotResponse, World, run_route, run_role,
}
use llm_bridge_server.OneShot.Walk.{
  attempts_of, cancelled_attempt, Ends, answered, stopped, all_failed, run_route-Ends,
}

role_route_lists :
    (role : String) (models : Option (List Model)) (route : Route)
    → role_route role models ≡ Result.ok route
    → 0 < length route.candidates
unfolding role_route
role_route_lists role none route h = absurd (cc h)
role_route_lists role (some []) route h = absurd (cc h)
role_route_lists role (some (m ∷ models)) route h =
    let listed : candidate_of m ∷ map candidate_of models ≡ route.candidates = cc in
    omega (arith, ap length listed)

resolve_role_lists :
    (is_canonical_role : String → Bool) (models : Option ModelRegistry) (role : String)
    (route : Route)
    → resolve_role is_canonical_role models role ≡ Result.ok route
    → 0 < length route.candidates
unfolding resolve_role
resolve_role_lists is_canonical_role models role route h = elim (Bool-cases (is_empty role)) [
  | inl e ↦ absurd (cc (rw (e, resolve_role) at h))
  | inr e ↦ elim (Bool-cases (is_canonical_role role)) [
    | inr k ↦ absurd (cc (rw (e, k, resolve_role) at h))
    | inl k ↦ elim (Option-cases models) [
      | inl m ↦ absurd (cc (rw (e, k, m, resolve_role) at h))
      | inr (registry, m) ↦
          role_route_lists role (registry.role_models role) route (rw (e, k, m, resolve_role) at h)
    ]
  ]
]

length-attempts_of :
    (w : World) (request : OneShotRequest) (index : ℕ) (cs : List Candidate)
    → length (attempts_of w request index cs) ≡ length cs
unfolding attempts_of
length-attempts_of w request index [] = refl
length-attempts_of w request index (c ∷ cs) = ap suc (length-attempts_of w request (suc index) cs)

Ends-named :
    (w : World) (request : OneShotRequest) (index : ℕ) (cs : List Candidate)
    (r : Result (List OneShotAttempt) OneShotResponse) (attempts : List OneShotAttempt)
    → Ends w request index cs r
    → r ≡ Result.err attempts
    → 0 < length cs
    → 0 < length attempts
Ends-named w request index cs r attempts (answered before c rest response given e f p a q i t m n₁)
      h n =
    absurd (cc h)
Ends-named w request index cs r attempts (stopped before c rest e s f p) h n =
    let same : attempts_of w request index before ++ cancelled_attempt c e ∷ [] ≡ attempts = cc in
    omega (
      arith,
      ap length same,
      length-append (attempts_of w request index before) (cancelled_attempt c e ∷ []),
    )
Ends-named w request index cs r attempts (all_failed f) h n =
    let same : attempts_of w request index cs ≡ attempts = cc in
    omega (arith, length-attempts_of w request index cs, ap length same)

-- A one-shot call of a role that fails once its route is built names at least one attempt: no call
-- fails without a model that was tried, skipped or cut off.
pub run_role-names :
    (is_canonical_role : String → Bool) (models : Option ModelRegistry) (w : World)
    (request : OneShotRequest) (attempts : List OneShotAttempt)
    (calls : List (Instance × OneShotRequest))
    → run_role is_canonical_role models w request ≡ Result.ok (Result.err attempts, calls)
    → 0 < length attempts
unfolding run_role
run_role-names is_canonical_role models w request attempts calls h =
    elim (Bool-cases (is_empty request.model)) [
      | inr e ↦ absurd (cc (rw (e, run_role) at h))
      | inl e ↦ elim (Result-cases (resolve_role is_canonical_role models request.model_role)) [
        | inl (error, p) ↦ absurd (cc (rw (e, p, run_role) at h))
        | inr (route, p) ↦
            let u : World = record w { admit = none } in
            let ran : run_route u route request ≡ (Result.err attempts, calls) =
              cc (rw (e, p, run_role) at h) in
            Ends-named u request 0 route.candidates (run_route u route request).0 attempts
              (run_route-Ends u route request) (ap (λ x. x.0) ran)
              (resolve_role_lists is_canonical_role models request.model_role route p)
      ]
    ]
