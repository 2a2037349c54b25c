-- ===== src/OneShot/Route.antt =====
-- Resolution of internal/oneshotrouting/router.go: the models that a request names, in order.
use llm_bridge_server.Prelude.{
  Result, String, Bool, ◌||◌, not, List, [], ◌∷◌, Option, none, some, map, is_empty, if◌then◌else◌,
}

pub record Candidate : Type 0 where
  pub model_id : String
  pub provider : String

pub record Route : Type 0 where
  pub requested : String
  pub role : String
  pub candidates : List Candidate

-- The codes of ResolutionError, and the code "model_and_role" of RunRole.
pub data ResolutionError : Type 0 where
  no_model_role unknown_model_role model_role_unresolved unknown_model model_store_not_present
        model_and_role :
      ResolutionError

-- modelstore.Model, the fields that the router reads.
pub record Model : Type 0 where
  pub id : String
  pub provider : String

-- ModelRegistry; `none` is an error of model-store.
pub record ModelRegistry : Type 0 where
  pub role_models : String → Option (List Model)
  pub resolve_model : String → Option Model

abbrev pub candidate_of : Model → Candidate
candidate_of m = record { model_id = m.id; provider = m.provider }

-- The route of a role whose models model-store has listed.
unfoldable pub role_route : String → Option (List Model) → Result ResolutionError Route
role_route role none = Result.err ResolutionError.model_role_unresolved
role_route role (some []) = Result.err ResolutionError.model_role_unresolved
role_route role (some (m ∷ models)) =
    Result.ok (record { requested = role; role = role; candidates = map candidate_of (m ∷ models) })

-- ResolveRole; modelstore.IsCanonicalRole and the registry, or none, are parameters.
unfoldable pub resolve_role :
    (String → Bool) → Option ModelRegistry → String → Result ResolutionError Route
unfolding role_route
resolve_role is_canonical_role models role =
    if is_empty role
    then Result.err ResolutionError.no_model_role
    else if not (is_canonical_role role)
    then Result.err ResolutionError.unknown_model_role
    else elim models [
      | none ↦ Result.err ResolutionError.model_store_not_present
      | some registry ↦ role_route role (registry.role_models role)
    ]

-- The route of a request that names no role.
unfoldable pub model_route : String → Option Model → Result ResolutionError Route
model_route requested none = Result.err ResolutionError.unknown_model
model_route requested (some m) =
    Result.ok (record { requested = requested; role = ""; candidates = candidate_of m ∷ [] })

-- Resolve
unfoldable pub resolve :
    (String → Bool) → Option ModelRegistry → String → Result ResolutionError Route
unfolding resolve_role model_route
resolve is_canonical_role models requested =
    if is_canonical_role requested || is_empty requested
    then resolve_role is_canonical_role models requested
    else elim models [
      | none ↦ Result.err ResolutionError.model_store_not_present
      | some registry ↦ model_route requested (registry.resolve_model requested)
    ]
