-- ===== src/Think/Tests.antt =====
-- Texts with thoughts.
use llm_aio_gateway.Prelude.{ℕ, ◌≡◌, refl, List, [], ◌∷◌, some, codes, is_space}
use llm_aio_gateway.Think.Defs.{
  after_prefix, find, next_tag, close_block, skip_blanks, extract_loop, lstrip, rstrip, join_lines,
  extract_and_strip_think,
}
use llm_aio_gateway.Think.Fuel.{extract_and_strip_think_ends}
use llm_aio_gateway.Think.Blocks.{
  written, words_of, thoughts_of, is_plain_all, extract_and_strip_think-written,
}

machine : Unit {0}
unfolding after_prefix find next_tag close_block skip_blanks extract_loop lstrip rstrip join_lines
    extract_and_strip_think is_space written words_of thoughts_of is_plain_all
machine = tt

-- A block that is not closed at all is a thought to its end.
never_closed : extract_and_strip_think (codes "a <think>b") ≡ some (codes "a", codes "b")
unfolding machine
never_closed = refl

-- A block with a whole block inside it.
nested :
    extract_and_strip_think (codes "<think>a<think>b</think></think> c")
    ≡ some (codes "c", codes "a<think>b</think>")
unfolding machine
nested = refl

-- A block that is not closed is lost if a closing tag inside it ends the text, and kept if a blank
-- follows that tag.
lost_at_end : extract_and_strip_think (codes "<think>a<think>b</think>") ≡ some ([], [])
unfolding machine
lost_at_end = refl

kept_before_blank :
    extract_and_strip_think (codes "<think>a<think>b</think> ")
    ≡ some ([], codes "a<think>b</think> ")
unfolding machine
kept_before_blank = refl

abbrev blocks : List (List ℕ × List ℕ)
blocks = (codes "one", codes " b ") ∷ (codes "two", codes "\nc\n") ∷ []

extract_and_strip_think_ends_example :
    (r : List ℕ × List ℕ) × (extract_and_strip_think (codes "a<think>b</think>") ≡ some r)
extract_and_strip_think_ends_example = extract_and_strip_think_ends (codes "a<think>b</think>")

extract_and_strip_think-written_example :
    extract_and_strip_think (codes "a<think>one</think> b <think>two</think>\nc\n")
    ≡ some (codes "ab c", codes "one\ntwo")
unfolding machine
extract_and_strip_think-written_example =
    extract_and_strip_think-written (codes "a") blocks refl refl
