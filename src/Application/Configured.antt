-- ===== src/Application/Configured.antt =====
-- application/adaptive_config.py and `ChatConfiguration` of application/chat.py: what the process is
-- configured with. A variable of the environment is an argument, absent where it is not set.
use route_llm.Prelude.{
  ◌≡◌, refl, ap, ◌∙◌, Bool, true, false, not, ◌&&◌, ◌||◌, Option, none, some, List, [], ◌∷◌, map,
  any, all, is_empty, &&-true, if◌then◌else◌,
}
use route_llm.Prelude.Text.{Text, strip, split_on, join_with, all_distinct}
use route_llm.Prelude.Text.Trimmed.{
  is_trimmed, lacks, strip-trimmed, trimmed-is_empty, join_with-trimmed, split_on-join_with,
}
use route_llm.Errors.{ok, err, value_error}
use route_llm.Models.{Result}

pub record AdaptiveRoutingConfig : Type 0 where
  pub artifact_path : Option Text
  pub candidate_model_ids : List Text

abbrev is_set : Option Text → Bool
is_set none = false
is_set (some p) = true

-- `enabled`
abbrev pub enabled : AdaptiveRoutingConfig → Bool
enabled c = is_set c.artifact_path

-- `validate_complete_configuration`
abbrev pub complete : Option Text → List Text → Result AdaptiveRoutingConfig
complete path ids =
    if not (is_set path) && is_empty ids
    then ok (record { artifact_path = path; candidate_model_ids = ids })
    else if not (is_set path) || is_empty ids
    then err value_error
    else if not (all_distinct ids)
    then err value_error
    else ok (record { artifact_path = path; candidate_model_ids = ids })

-- The constructor: each identifier is stripped and must not be empty.
unfoldable pub new_config : Option Text → List Text → Result AdaptiveRoutingConfig
new_config path ids =
    if any is_empty (map strip ids) then err value_error else complete path (map strip ids)

-- `os.environ.get(name, "").strip()`
abbrev variable : Option Text → Text
variable none = []
variable (some t) = strip t

-- `as_path` is `Path`, a path by its text.
abbrev from_parts : (Text → Text) → Text → List Text → Result AdaptiveRoutingConfig
from_parts as_path artifact ids =
    if any is_empty ids then err value_error else new_config (some (as_path artifact)) ids

-- `AdaptiveRoutingConfig.from_environment`
unfoldable pub from_environment :
    (Text → Text) → Option Text → Option Text → Result AdaptiveRoutingConfig
from_environment as_path artifact candidates =
    if is_empty (variable artifact) && is_empty (variable candidates)
    then new_config none []
    else if is_empty (variable artifact) || is_empty (variable candidates)
    then err value_error
    else from_parts as_path (variable artifact) (map strip (split_on 44 (variable candidates)))

-- `ChatConfiguration.from_environment`, the identifier of the default model.
unfoldable pub default_from_environment : Option Text → Result Text
default_from_environment model_id =
    if is_empty (variable model_id) then err value_error else ok (strip (variable model_id))

all_trimmed-strip : (ids : List Text) → all is_trimmed ids ≡ true → map strip ids ≡ ids
all_trimmed-strip [] h = refl
all_trimmed-strip (t ∷ more) h =
    let (a, b) = &&-true _ _ h in
    ap (λ u. u ∷ map strip more) (strip-trimmed t a) ∙ ap (λ l. t ∷ l) (all_trimmed-strip more b)

all_trimmed-is_empty : (ids : List Text) → all is_trimmed ids ≡ true → any is_empty ids ≡ false
all_trimmed-is_empty [] h = refl
all_trimmed-is_empty (t ∷ more) h =
    let (a, b) = &&-true _ _ h in rw (trimmed-is_empty t a) (all_trimmed-is_empty more b)

from_parts-trimmed :
    (as_path : Text → Text) (path : Text) (ids : List Text)
    → map strip ids ≡ ids
    → any is_empty ids ≡ false
    → is_empty ids ≡ false
    → all_distinct ids ≡ true
    → from_parts as_path path (map strip ids)
      ≡ ok (record { artifact_path = some (as_path path); candidate_model_ids = ids })
unfolding new_config
from_parts-trimmed as_path path ids e a b u = rw (e, a, e, a, b, u) refl

-- What the two variables say is what the configuration has: the path that `Path` makes of a text
-- without white space at its ends, and the identifiers in their order, which are distinct, joined by
-- commas, without white space at their ends and without commas inside.
pub from_environment-join_with :
    (as_path : Text → Text) (path id : Text) (ids : List Text)
    → is_trimmed path ≡ true
    → all is_trimmed (id ∷ ids) ≡ true
    → all (lacks 44) (id ∷ ids) ≡ true
    → all_distinct (id ∷ ids) ≡ true
    → from_environment as_path (some path) (some (join_with 44 (id ∷ ids)))
      ≡ ok (record { artifact_path = some (as_path path); candidate_model_ids = id ∷ ids })
unfolding from_environment new_config
from_environment-join_with as_path path id ids p t l u =
    let joined : is_trimmed (join_with 44 (id ∷ ids)) ≡ true = join_with-trimmed 44 id ids t in
    rw
      (
        strip-trimmed path p,
        strip-trimmed (join_with 44 (id ∷ ids)) joined,
        trimmed-is_empty path p,
        trimmed-is_empty (join_with 44 (id ∷ ids)) joined,
        split_on-join_with 44 id ids l,
        from_parts-trimmed as_path path (id ∷ ids) (all_trimmed-strip (id ∷ ids) t)
            (all_trimmed-is_empty (id ∷ ids) t) refl u,
      )
      refl
