-- ===== src/Outcome/Defs.antt =====
-- The statuses, the details of a request that they are derived from, and the derivation. Of the
-- details, only the keys that app/core/outcome.py reads are kept.
use llm_aio_gateway.Prelude.{
  ℕ, ◌+◌, String, Bool, true, false, not, ◌&&◌, ◌||◌, Option, none, some, List, [], ◌∷◌, ◌==◌,
  nat_eq, string_eq, if◌then◌else◌, is_nonempty, codes, is_space, ltb, leb,
}

pub data Status : Type 0 where
  ok degraded partial fail rejected cancelled : Status

abbrev pub name_of : Status → String
name_of ok = "ok"
name_of degraded = "degraded"
name_of partial = "partial"
name_of fail = "fail"
name_of rejected = "rejected"
name_of cancelled = "cancelled"

-- `str.lower` on the code points whose lower case is a letter from a to z; 8490 is the Kelvin sign.
abbrev pub lower : ℕ → ℕ
lower c = if leb 65 c && leb c 90 then c + 32 else if c == 8490 then 107 else c

abbrev all_space : List ℕ → Bool
all_space [] = true
all_space (c ∷ cs) = is_space c && all_space cs

-- The text without the white space after a word reads as the word, in lower case.
abbrev reads_on : List ℕ → List ℕ → Bool
reads_on [] cs = all_space cs
reads_on (w ∷ ws) [] = false
reads_on (w ∷ ws) (c ∷ cs) = lower c == w && reads_on ws cs

-- `text.strip().lower() == word`, for a word that does not start with white space
abbrev pub reads : List ℕ → List ℕ → Bool
reads word [] = reads_on word []
reads word (c ∷ cs) =
    let rest = reads word cs in if is_space c then rest else reads_on word (c ∷ cs)

abbrev says : Status → String → Bool
says s text = reads (codes (name_of s)) (codes text)

-- `str(text).strip().lower()`, where it is the name of a status
unfoldable pub read_status : String → Option Status
unfolding is_space
read_status text =
    if says ok text
    then some ok
    else if says degraded text
    then some degraded
    else if says partial text
    then some partial
    else if says fail text
    then some fail
    else if says rejected text
    then some rejected
    else if says cancelled text
    then some cancelled
    else none

abbrev rank : Status → ℕ
rank ok = 0
rank degraded = 1
rank partial = 2
rank fail = 3
rank rejected = 4
rank cancelled = 5

abbrev pub is_status : Status → Option Status → Bool
is_status s none = false
is_status s (some t) = rank s == rank t

-- An entry of `fallback_attempts`.
pub record Attempt : Type 0 where
  pub index : ℕ
  pub stage : String
  pub model : String
  pub provider_id : String
  pub status : String
  pub trigger : String

pub record Details : Type 0 where
  pub status : String
  pub fallback_status : String
  pub attempt_index : ℕ
  pub fallback_attempts : List Attempt
  pub partial_output : Bool
  pub client_disconnected : Bool

-- The three flags of the loop in `is_fallback_used`.
unfoldable pub has_failed : List Attempt → Bool
has_failed [] = false
has_failed (a ∷ rest) = a.status == "failed" || has_failed rest

unfoldable pub has_fallback_success : List Attempt → Bool
has_fallback_success [] = false
has_fallback_success (a ∷ rest) =
    (a.stage == "fallback" && a.status == "success") || has_fallback_success rest

-- A success at or after a failure, `failed` telling whether one was seen.
unfoldable pub success_after_fail : Bool → List Attempt → Bool
success_after_fail failed [] = false
success_after_fail failed (a ∷ rest) =
    let failed' = failed || a.status == "failed" in
    (failed' && a.status == "success") || success_after_fail failed' rest

unfoldable pub is_fallback_used : Details → Bool
unfolding has_fallback_success success_after_fail
is_fallback_used d =
    d.fallback_status == "used"
    || ltb 0 d.attempt_index
    || has_fallback_success d.fallback_attempts
    || success_after_fail false d.fallback_attempts

unfoldable pub resolve_request_status : Bool → Bool → Details → Status
unfolding read_status is_fallback_used
resolve_request_status success partial_output d =
    let existing = read_status d.status in
    if not success
    then if is_status rejected existing
      then rejected
      else if is_status cancelled existing
      then cancelled
      else if is_status partial existing && d.client_disconnected
      then cancelled
      else if partial_output || is_status partial existing || d.partial_output
      then (if d.client_disconnected then cancelled else partial)
      else fail
    else if is_status degraded existing || is_fallback_used d
    then degraded
    else ok

unfoldable pub apply_outcome_to_details : Bool → Bool → Details → Details
unfolding resolve_request_status
apply_outcome_to_details success partial_output d =
    let status = resolve_request_status success partial_output d in
    record d {
      status = name_of status;
      fallback_status =
          if is_status degraded (some status) && not (is_nonempty d.fallback_status)
          then "used"
          else d.fallback_status;
      partial_output = partial_output || d.partial_output;
    }

pub record OutcomeCounters : Type 0 where
  pub hard_success : Bool
  pub is_degraded : Bool
  pub is_rejected : Bool
  pub is_cancelled : Bool

abbrev counters : Bool → Bool → Bool → Bool → OutcomeCounters
counters s d r c = record { hard_success = s; is_degraded = d; is_rejected = r; is_cancelled = c }

unfoldable pub stats_counters_for_status : String → OutcomeCounters
unfolding read_status
stats_counters_for_status status =
    let normalized = read_status status in
    if is_status ok normalized
    then counters true false false false
    else if is_status degraded normalized
    then counters true true false false
    else if is_status rejected normalized
    then counters false false true false
    else if is_status cancelled normalized
    then counters false false false true
    else counters false false false false
