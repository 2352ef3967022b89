-- ===== src/ToolArgs/Tests.antt =====
-- Runs of the repair.
use llm_aio_gateway.Prelude.{ℕ, ◌≡◌, refl, List, [], ◌∷◌, codes}
use llm_aio_gateway.ToolArgs.Defs.{
  is_bare_word, step_at, scan, sanitize_args, initial, feed_loop, feed, flush, feed_all,
}
use llm_aio_gateway.ToolArgs.Whole.{flat, feed_all-sanitize_args}

machine : Unit {0}
unfolding is_bare_word step_at scan sanitize_args feed_loop feed flush feed_all flat
machine = tt

whole :
    sanitize_args (codes "{\"a\": undefined, \"b\": \"undefined\"}")
    ≡ codes "{\"a\": \"\", \"b\": \"undefined\"}"
unfolding machine
whole = refl

chunked :
    feed_all initial
      (codes "{\"a\": unde" ∷ codes "fined" ∷ codes ", \"b\": \"x\\" ∷ codes "\\\"}" ∷ [])
    ≡ codes "{\"a\": \"\", \"b\": \"x\\\\\"}"
unfolding machine
chunked = refl

-- A backslash before a quote outside of strings: the whole text keeps the word, the chunks lose it.
escaped_whole : sanitize_args (codes "\\\" undefined") ≡ codes "\\\" \"\""
unfolding machine
escaped_whole = refl

escaped_chunk : feed_all initial (codes "\\\" undefined" ∷ []) ≡ codes "\\\" undefined"
unfolding machine
escaped_chunk = refl

abbrev chunks : List (List ℕ)
chunks = codes "{\"a\": unde" ∷ [] ∷ codes "fined" ∷ codes ", \"b\": \"undefined\"}" ∷ []

feed_all-sanitize_args_example : feed_all initial chunks ≡ sanitize_args (flat chunks)
unfolding machine
feed_all-sanitize_args_example = feed_all-sanitize_args chunks refl
