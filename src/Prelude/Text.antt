-- ===== src/Prelude/Text.antt =====
-- Texts as code points, and Python's white space.
use Prim.Native.Nat.{ℕ, compare, Ordering}
use Prim.Native.Char.{code}
use Prim.Native.String.{String}
use mathlib.Core.Bool.{Bool, true, false, not, ◌&&◌, ◌||◌}
use mathlib.Core.List.{List, [], ◌∷◌}

abbrev pub codes : String → List ℕ
codes String.[] = []
codes (String.◌∷◌ c s) = code c ∷ codes s

-- `if s:` on a text
abbrev pub is_nonempty : String → Bool
is_nonempty String.[] = false
is_nonempty (String.◌∷◌ c s) = true

abbrev between : ℕ → ℕ → ℕ → Bool
between lo hi c =
    (elim (compare c lo) [ Ordering.lt ↦ false | _ ↦ true ])
    && (elim (compare c hi) [ Ordering.gt ↦ false | _ ↦ true ])

-- the code points that `str.strip` removes
unfoldable pub is_space : ℕ → Bool
is_space c =
    between 9 13 c
    || between 28 32 c
    || between 133 133 c
    || between 160 160 c
    || between 5760 5760 c
    || between 8192 8202 c
    || between 8232 8233 c
    || between 8239 8239 c
    || between 8287 8287 c
    || between 12288 12288 c

all_space : List ℕ → Bool
all_space [] = true
all_space (c ∷ cs) = is_space c && all_space cs

-- `bool(s.strip())`
unfoldable pub has_content : String → Bool
unfolding is_space all_space
has_content s = not (all_space (codes s))
