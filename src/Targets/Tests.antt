-- ===== src/Targets/Tests.antt =====
-- Runs of the candidates and of the classification.
use llm_aio_gateway.Prelude.{
  ℕ, ◌≡◌, refl, Bool, true, false, ◌&&◌, ◌||◌, String, Option, none, some, List, [], ◌∷◌, leb, All,
  arith,
}
use llm_aio_gateway.Model.{cut_slash, parse}
use llm_aio_gateway.Routing.{RouteTarget, occurs_in}
use llm_aio_gateway.Targets.Defs.{target_identity, unseen_targets, candidate_targets}
use llm_aio_gateway.Targets.Errors.{
  Exc, timeout, http_429, http_5xx, has_hard_timeout, upstream_status_code, has_timeout_signal,
  has_network_signal, status_category, chain_category, lone_429, text_category,
  classify_upstream_error, is_same_target_retryable,
}
use llm_aio_gateway.Targets.CandidateLaws.{IsFresh, IsCovered, candidate_targets_lem}
use llm_aio_gateway.Targets.ErrorLaws.{has_hard_timeout-classify, classify-upstream_status_code}

machine : Unit {0}
unfolding cut_slash parse occurs_in target_identity unseen_targets candidate_targets
    has_hard_timeout upstream_status_code has_timeout_signal has_network_signal status_category
    chain_category lone_429 text_category classify_upstream_error is_same_target_retryable
machine = tt

abbrev to : String → String → RouteTarget
to model provider = record { model = model; provider_id = provider }

abbrev lookup : String → Option String
lookup m = some "p"

abbrev chain : List RouteTarget
chain = to "p/m" "" ∷ to "" "q" ∷ to "m" "" ∷ to "n" "q" ∷ []

-- Three spellings of one upstream, and an entry without a model.
candidates_of : candidate_targets lookup (to "m" "p") chain ≡ to "m" "p" ∷ to "n" "q" ∷ []
unfolding machine
candidates_of = refl

candidate_targets_lem_example :
    let candidates = candidate_targets lookup (to "m" "p") chain in
    IsFresh lookup [] candidates × All (IsCovered lookup [] candidates) (to "m" "p" ∷ chain)
candidate_targets_lem_example = candidate_targets_lem lookup (to "m" "p") chain

abbrev is_word : ℕ → Bool
is_word c = (leb 97 c && leb c 122) || (leb 48 c && leb c 57) || (leb 95 c && leb c 95)

abbrev is_digit : ℕ → Bool
is_digit c = leb 48 c && leb c 57

abbrev failure : Option ℕ → Bool → String → Exc
failure status timed_out text = record {
  is_timeout = timed_out;
  is_http = false;
  is_network = false;
  is_internal = false;
  status_code = none;
  response_status = status;
  text = text;
  type_name = "error";
}

abbrev wrapped : Exc
wrapped = record (failure none false "bad gateway") { is_http = true; status_code = some 502 }

many_tokens :
    classify_upstream_error is_word is_digit (failure none false "used 14293 tokens, 503") []
    ≡ http_5xx
unfolding machine
many_tokens = refl

limited :
    classify_upstream_error is_word is_digit (failure none false "error 429: slow down") []
    ≡ http_429
unfolding machine
limited = refl

wrapped_timeout :
    classify_upstream_error is_word is_digit wrapped (failure none true "" ∷ []) ≡ timeout
unfolding machine
wrapped_timeout =
    has_hard_timeout-classify is_word is_digit wrapped (failure none true "" ∷ []) refl

classify-upstream_status_code_example :
    some (
      classify_upstream_error is_word is_digit wrapped
        (failure (some 404) false "no such model" ∷ []))
    ≡ some http_5xx
unfolding machine
classify-upstream_status_code_example =
    classify-upstream_status_code is_word is_digit wrapped
      (failure (some 404) false "no such model" ∷ []) 502
      (λ _. (502, refl, omega arith, omega arith), (λ h. cc, tt)) refl refl refl (omega arith)
