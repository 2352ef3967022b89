-- ===== src/Model/Id.antt =====
-- `ModelId` of app/database.py.
use Prim.Native.Char.{Char, code}
use Prim.Native.String
use llm_aio_gateway.Prelude.{
  String, Bool, true, false, ◌&&◌, not, Option, none, some, ◌==◌, nat_eq, string_eq, if◌then◌else◌,
  is_nonempty,
}

pub record ModelId : Type 0 where
  pub provider_id : String
  pub model_name : String

abbrev pub push_front : Char → Option (String × String) → Option (String × String)
push_front c none = none
push_front c (some (a, b)) = some (String.◌∷◌ c a, b)

-- `raw.split("/", 1)`, `none` without a slash
unfoldable pub cut_slash : String → Option (String × String)
cut_slash String.[] = none
cut_slash (String.◌∷◌ c s) =
    let rest = cut_slash s in if code c == b'/' then some ("", s) else push_front c rest

-- `raw.rsplit("/", 1)[-1]`
unfoldable pub after_last_slash : String → String
after_last_slash String.[] = ""
after_last_slash (String.◌∷◌ c s) =
    let rest = after_last_slash s in
    elim (cut_slash s) [ some _ ↦ rest | none ↦ if code c == b'/' then s else String.◌∷◌ c s ]

-- ModelId.parse
unfoldable pub parse : String → ModelId
unfolding cut_slash
parse raw = elim (cut_slash raw) [
  | none ↦ record { provider_id = ""; model_name = raw }
  | some (provider, model) ↦ record { provider_id = provider; model_name = model }
]

unfoldable pub is_composite : ModelId → Bool
is_composite mid = is_nonempty mid.provider_id

unfoldable pub composite : ModelId → String
composite mid =
    if is_nonempty mid.provider_id
    then String.◌++◌ mid.provider_id (String.◌∷◌ "/" mid.model_name)
    else mid.model_name

-- ModelId.__eq__ against a string
unfoldable pub equals_text : ModelId → String → Bool
unfolding composite is_composite after_last_slash
equals_text mid other =
    if composite mid == other
    then true
    else if mid.model_name == other
    then true
    else elim (cut_slash other) [
      | some _ ↦ not (is_composite mid) && mid.model_name == after_last_slash other
      | none ↦ false
    ]
