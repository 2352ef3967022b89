-- ===== src/Targets/Errors.antt =====
-- What the errors of an upstream come to: `classify_upstream_error` and its relatives. An exception
-- is what the code reads of it: the answers of its `isinstance` tests, its status, and its text and
-- the name of its type in lower case. A chain is a list of them, the outer one first.
use llm_aio_gateway.Prelude.{
  ℕ, String, Bool, true, false, not, ◌&&◌, ◌||◌, Option, none, some, List, [], ◌∷◌, ◌==◌, nat_eq,
  if◌then◌else◌, any, codes, leb,
}
use llm_aio_gateway.Routing.{occurs_in}

pub record Exc : Type 0 where
  -- TimeoutError or httpx.TimeoutException
  pub is_timeout : Bool
  -- fastapi.HTTPException
  pub is_http : Bool
  -- httpx.ConnectError, httpx.NetworkError or ConnectionError
  pub is_network : Bool
  -- TypeError, ValueError and the other types of a fault of the program itself
  pub is_internal : Bool
  pub status_code : Option ℕ
  pub response_status : Option ℕ
  pub text : String
  pub type_name : String

pub data Trigger : Type 0 where
  timeout connection_error http_429 http_5xx http_4xx unknown : Trigger

abbrev pub trigger_name : Trigger → String
trigger_name timeout = "timeout"
trigger_name connection_error = "connection_error"
trigger_name http_429 = "http_429"
trigger_name http_5xx = "http_5xx"
trigger_name http_4xx = "http_4xx"
trigger_name unknown = "unknown"

-- `word in text`
abbrev mentions : String → String → Bool
mentions word text = occurs_in (codes word) (codes text)

abbrev mentions_one : List String → String → Bool
mentions_one words text = any (λ word. mentions word text) words

unfoldable pub has_hard_timeout : List Exc → Bool
has_hard_timeout chain = any (λ (item : Exc). item.is_timeout) chain

-- The status of an exception: its own, or else its response's.
abbrev pub status_of : Exc → Option ℕ
status_of item = elim item.status_code [ some c ↦ some c | none ↦ item.response_status ]

abbrev first_some : Option ℕ → Option ℕ → Option ℕ
first_some (some c) other = some c
first_some none other = other

abbrev pub usable_status : Option ℕ → Option ℕ
usable_status none = none
usable_status (some c) = if leb 100 c && leb c 599 then some c else none

unfoldable pub upstream_status_code : List Exc → Option ℕ
upstream_status_code [] = none
upstream_status_code (item ∷ chain) =
    first_some (usable_status (status_of item)) (upstream_status_code chain)

-- The first loop of `classify_upstream_error`.
unfoldable pub has_timeout_signal : List Exc → Bool
unfolding occurs_in
has_timeout_signal chain =
    any
      (λ (item : Exc).
        item.is_timeout
        || (not item.is_http
            && (mentions_one ("timeout" ∷ "timed out" ∷ []) item.text
                || mentions "timeout" item.type_name)))
      chain

-- The second.
unfoldable pub has_network_signal : List Exc → Bool
has_network_signal chain = any (λ (item : Exc). item.is_network) chain

-- The category of a status, where it has one.
unfoldable pub status_category : ℕ → Option Trigger
status_category c =
    if c == 429
    then some http_429
    else if leb 500 c && leb c 599
    then some http_5xx
    else if leb 400 c && leb c 499
    then some http_4xx
    else none

abbrev item_category : Exc → Option Trigger
item_category item = elim (status_of item) [ none ↦ none | some c ↦ status_category c ]

-- An HTTPException decides, whatever its status.
abbrev http_category : Exc → Trigger
http_category item = elim item.status_code [
  | none ↦ unknown
  | some c ↦ elim (status_category c) [ some t ↦ t | none ↦ unknown ]
]

-- The third loop.
unfoldable pub chain_category : List Exc → Option Trigger
unfolding status_category
chain_category [] = none
chain_category (item ∷ chain) =
    let rest = chain_category chain in
    if item.is_http
    then some (http_category item)
    else elim (item_category item) [ some t ↦ some t | none ↦ rest ]

-- `re`'s classes of characters, and the search of the text of the outer exception
module _ (is_word is_digit : ℕ → Bool) where
  abbrev ends_429 : List ℕ → Bool
  ends_429 [] = true
  ends_429 (c ∷ cs) = not (is_digit c)

  abbrev starts_429 : List ℕ → Bool
  starts_429 (a ∷ b ∷ c ∷ cs) = a == b'4' && b == b'2' && c == b'9' && ends_429 cs
  starts_429 cs = false

  -- `re.search(r"(?<![\w.\-])429(?!\d)", text)`, after a character that may stand before a match
  unfoldable pub lone_429 : Bool → List ℕ → Bool
  lone_429 free [] = false
  lone_429 free (c ∷ cs) =
      (free && starts_429 (c ∷ cs)) || lone_429 (not (is_word c || c == b'.' || c == b'-')) cs

  unfoldable pub text_category : Exc → Trigger
  unfolding lone_429 occurs_in
  text_category exc =
      if lone_429 true (codes exc.text)
        || mentions_one ("rate limit" ∷ "too many requests" ∷ []) exc.text
      then http_429
      else if mentions_one
          (" 500" ∷ " 502" ∷ " 503" ∷ " 504" ∷ "http 500" ∷ "http 502" ∷ "http 503" ∷ "http 504"
            ∷ [])
          exc.text
      then http_5xx
      else if exc.is_internal
      then unknown
      else connection_error

  unfoldable pub classify_upstream_error : Exc → List Exc → Trigger
  unfolding has_timeout_signal has_network_signal chain_category text_category
  classify_upstream_error exc causes =
      let chain = exc ∷ causes in
      if has_timeout_signal chain
      then timeout
      else if has_network_signal chain
      then connection_error
      else elim (chain_category chain) [ some t ↦ t | none ↦ text_category exc ]

abbrev connection_tokens : List String
connection_tokens =
    "connection" ∷ "connect" ∷ "tls" ∷ "ssl" ∷ "eof" ∷ "reset" ∷ "refused" ∷ "unreachable" ∷ "无法连接"
    ∷ []

-- is_same_target_retryable, of the category that the caller found
unfoldable pub is_same_target_retryable : Exc → List Exc → Trigger → Bool
unfolding occurs_in
is_same_target_retryable exc causes category =
    if mentions "fallback attempt timeout" exc.text then false else elim category [
      | timeout ↦ true
      | http_5xx ↦ true
      | http_429 ↦ true
      | connection_error ↦
          any (λ (item : Exc). item.is_network || mentions_one connection_tokens item.text)
            (exc ∷ causes)
      | http_4xx ↦ false
      | unknown ↦ false
    ]
