-- ===== src/Routing/Features.antt =====
-- routing/features.py: what is read from a request before routing. The three regular expressions
-- are parameters: the counts of their matches and whether the last one is found.
pub mod Tokens
use route_llm.Prelude.{
  ℕ, ◌+◌, ◌≡◌, Bool, true, false, not, ◌&&◌, ◌||◌, Option, none, some, List, [], ◌∷◌, ◌++◌, ltb,
  leb, ◌==◌, is_empty, length, if◌then◌else◌, arith, refl,
}
use route_llm.Prelude.Text.{Text, codes, strip, split, text_eq}
use route_llm.Errors.{ok, err, value_error, ◌>>=◌}
use route_llm.Models.{InferenceRequest, Result}

pub data RoutingCategory : Type 0 where
  classification coding extraction structured_json qa reasoning summarization : RoutingCategory

pub data CategoryProvenance : Type 0 where
  client_hint inferred absent : CategoryProvenance

-- `category_hint`: an enum value, a text, or nothing.
pub data Hint : Type 0 where
  category : RoutingCategory → Hint
  named : Text → Hint
  no_hint : Hint

pub record RoutingRequestFeatures : Type 0 where
  pub category : Option RoutingCategory
  pub category_provenance : CategoryProvenance
  pub prompt_characters : ℕ
  pub system_prompt_characters : ℕ
  pub message_count : ℕ
  pub system_prompt_present : Bool
  pub approximate_input_tokens : ℕ
  pub contains_code : Bool
  pub requests_structured_output : Bool
  pub max_output_tokens : ℕ
  pub constraint_indicator_count : ℕ
  pub reasoning_indicator_count : ℕ

-- `RoutingCategory.value`
abbrev pub value : RoutingCategory → Text
value classification = codes "classification"
value coding = codes "coding"
value extraction = codes "extraction"
value structured_json = codes "structured_json"
value qa = codes "qa"
value reasoning = codes "reasoning"
value summarization = codes "summarization"

-- `RoutingCategory(text)`
unfoldable pub parse_category : Text → Result RoutingCategory
parse_category t =
    if text_eq t (value classification)
    then ok classification
    else if text_eq t (value coding)
    then ok coding
    else if text_eq t (value extraction)
    then ok extraction
    else if text_eq t (value structured_json)
    then ok structured_json
    else if text_eq t (value qa)
    then ok qa
    else if text_eq t (value reasoning)
    then ok reasoning
    else if text_eq t (value summarization)
    then ok summarization
    else err value_error

abbrev present : Option RoutingCategory → Bool
present none = false
present (some c) = true

abbrev is_absent : CategoryProvenance → Bool
is_absent absent = true
is_absent p = false

abbrev agree : Bool → Bool → Bool
agree true b = b
agree false b = not b

-- `RoutingRequestFeatures.metadata_is_consistent`: true where it does not raise.
unfoldable pub metadata_is_consistent : RoutingRequestFeatures → Bool
metadata_is_consistent f =
    agree (not (present f.category)) (is_absent f.category_provenance)
    && not (present f.category && is_absent f.category_provenance)
    && agree f.system_prompt_present (ltb 0 f.system_prompt_characters)
    && f.message_count == (if f.system_prompt_present then 2 else 1)

-- The bounds of its fields that a natural number can miss.
unfoldable pub fields_are_bounded : RoutingRequestFeatures → Bool
fields_are_bounded f = ltb 0 f.max_output_tokens && leb 1 f.message_count && leb f.message_count 2

-- `part` among those that are joined: a text that is there and is not empty.
abbrev joined : Option Text → Text → Text
joined none prompt = prompt
joined (some system) prompt =
    if is_empty system then prompt else if is_empty prompt then system else system ++ (32 ∷ prompt)

-- `request_text`
unfoldable pub request_text : InferenceRequest → Text
request_text r = joined r.system_prompt r.prompt

-- `approximate_input_tokens`
unfoldable pub approximate_input_tokens : InferenceRequest → ℕ
unfolding request_text
approximate_input_tokens r = length (split (request_text r))

abbrev some_text : Option Text → Bool
some_text none = false
some_text (some t) = true

abbrev text_length : Option Text → ℕ
text_length none = 0
text_length (some t) = length t

-- The category of a hint, after `strip` and the conversion to the enum.
unfoldable pub hinted : Hint → Result (Option RoutingCategory)
unfolding parse_category
hinted (category c) = ok (some c)
hinted no_hint = ok none
hinted (named t) = parse_category (strip t) >>= λ c. ok (some c)

abbrev provenance : Option RoutingCategory → CategoryProvenance
provenance none = absent
provenance (some c) = client_hint

module _ (constraints reasonings : Text → ℕ) (has_code : Text → Bool) where
  abbrev pub features_of : InferenceRequest → Option RoutingCategory → Bool → RoutingRequestFeatures
  features_of r c structured = record {
    category = c;
    category_provenance = provenance c;
    prompt_characters = length r.prompt;
    system_prompt_characters = text_length r.system_prompt;
    message_count = if some_text r.system_prompt then 2 else 1;
    system_prompt_present = some_text r.system_prompt;
    approximate_input_tokens = approximate_input_tokens r;
    contains_code = has_code (request_text r);
    requests_structured_output = structured;
    max_output_tokens = r.max_output_tokens;
    constraint_indicator_count = constraints (request_text r);
    reasoning_indicator_count = reasonings (request_text r);
  }

  -- `ProductionRequestFeatureExtractor.extract`, the validator of the features included.
  unfoldable pub extract : InferenceRequest → Hint → Bool → Result RoutingRequestFeatures
  unfolding hinted metadata_is_consistent fields_are_bounded
  extract r hint structured = do
    c ← hinted hint
    if fields_are_bounded (features_of r c structured)
          && metadata_is_consistent (features_of r c structured)
        then ok (features_of r c structured)
        else err value_error
