-- ===== src/Memory/Chunker.antt =====
-- src/feather/memory/chunker.py. Sizes are ℕ; a negative one, which the constructor refuses too, is
-- none. The inner loops count down what is left of their range; the outer ones are on fuel, and give
-- none where it runs out.
use feather_os.Prelude.{
  ℕ, zero, suc, ◌+◌, ◌-◌, min, String, not, List, [], ◌∷◌, Option, none, some, if◌then◌else◌, ltb,
  leb, ◌==◌, length, take, drop, words, join, value_error, Result, ok, err,
}
use feather_os.Memory.Tokenizer.{
  Encoding, TokenEstimator, tiktoken, gemini, char_approx, token_count,
}

pub record TextChunk : Type 0 where
  pub index : ℕ
  pub text : String
  pub token_count : ℕ

pub record Chunker : Type 0 where
  pub estimator : TokenEstimator
  pub size : ℕ
  pub overlap : ℕ

unfoldable pub new_chunker : TokenEstimator → (size_tokens overlap_tokens : ℕ) → Result Chunker
new_chunker estimator size_tokens overlap_tokens =
    if leb size_tokens 0
    then err (value_error "size_tokens must be positive")
    else if leb size_tokens overlap_tokens
    then err (value_error "overlap_tokens must be < size_tokens")
    else ok (record { estimator = estimator; size = size_tokens; overlap = overlap_tokens })

-- `items[start:end]`
abbrev pub slice : {A : Type 0} → ℕ → ℕ → List A → List A
slice start end items = drop start (take end items)

abbrev pub prepend_chunk : TextChunk → Option (List TextChunk) → Option (List TextChunk)
prepend_chunk chunk none = none
prepend_chunk chunk (some chunks) = some (chunk ∷ chunks)

module _ (c : Chunker) (all_words : List String) where
  -- `" ".join(words[start:end])`
  abbrev pub text_between : ℕ → ℕ → String
  text_between start end = join " " (slice start end all_words)

  abbrev pub tokens_between : ℕ → ℕ → ℕ
  tokens_between start end = token_count c.estimator (text_between start end)

  -- The loop of `_greedy_fit`; `left` words stand from `end` on.
  unfoldable pub fit_from : (start left end : ℕ) → ℕ
  fit_from start zero end = end
  fit_from start (suc left) end =
      let rest = fit_from start left (suc end) in
      if ltb c.size (tokens_between start (suc end)) then end else rest

  abbrev pub greedy_fit : ℕ → ℕ
  greedy_fit start = fit_from start (length all_words - start) start

  -- The loop of `_rewind_for_overlap`, where `k` is `chunk_start + 1 + left`.
  unfoldable pub rewind_from : (chunk_start chunk_end left : ℕ) → ℕ
  rewind_from chunk_start chunk_end zero = chunk_end
  rewind_from chunk_start chunk_end (suc left) =
      let rest = rewind_from chunk_start chunk_end left in
      let k = suc (chunk_start + left) in
      if leb c.overlap (tokens_between k chunk_end) then k else rest

  abbrev pub rewind_for_overlap : ℕ → ℕ → ℕ
  rewind_for_overlap chunk_start chunk_end =
      rewind_from chunk_start chunk_end (chunk_end - suc chunk_start)

  -- At least one word is consumed.
  abbrev pub end_of : ℕ → ℕ
  end_of cursor = let end = greedy_fit cursor in if end == cursor then suc cursor else end

  abbrev pub word_chunk : ℕ → ℕ → ℕ → TextChunk
  word_chunk idx cursor end = record {
    index = idx;
    text = text_between cursor end;
    token_count = tokens_between cursor end;
  }

  unfoldable pub word_loop : ℕ → (cursor idx : ℕ) → Option (List TextChunk)
  word_loop zero cursor idx = none
  word_loop (suc fuel) cursor idx =
      let end = end_of cursor in
      let chunk = word_chunk idx cursor end in
      let rest = word_loop fuel (rewind_for_overlap cursor end) (suc idx) in
      if not (ltb cursor (length all_words))
      then some []
      else if leb (length all_words) end
      then some (chunk ∷ [])
      else prepend_chunk chunk rest

-- A text without words is one empty chunk.
abbrev pub chunk_words : Chunker → List String → Option (List TextChunk)
chunk_words c [] = some (record { index = 0; text = ""; token_count = 0 } ∷ [])
chunk_words c (w ∷ ws) = word_loop c (w ∷ ws) (length (w ∷ ws)) 0 0

unfoldable pub chunk_on_words : Chunker → String → Option (List TextChunk)
chunk_on_words c text = chunk_words c (words text)

module _ (c : Chunker) (encoding : Encoding) (ids : List ℕ) where
  abbrev pub token_end : ℕ → ℕ
  token_end start = min (start + c.size) (length ids)

  abbrev pub token_chunk : ℕ → ℕ → ℕ → TextChunk
  token_chunk idx start end = record {
    index = idx;
    text = encoding.decode (slice start end ids);
    token_count = length (slice start end ids);
  }

  unfoldable pub token_loop : ℕ → (start idx : ℕ) → Option (List TextChunk)
  token_loop zero start idx = none
  token_loop (suc fuel) start idx =
      let end = token_end start in
      let chunk = token_chunk idx start end in
      let rest = token_loop fuel (start + (c.size - c.overlap)) (suc idx) in
      if not (ltb start (length ids))
      then some []
      else if end == length ids
      then some (chunk ∷ [])
      else prepend_chunk chunk rest

unfoldable pub chunk_on_tokens : Chunker → Encoding → String → Option (List TextChunk)
chunk_on_tokens c encoding text =
    let ids = encoding.encode text in token_loop c encoding ids (suc (length ids)) 0 0

abbrev pub chunk_long : Chunker → TokenEstimator → String → Option (List TextChunk)
chunk_long c (tiktoken encoding) text = chunk_on_tokens c encoding text
chunk_long c (gemini count_tokens) text = chunk_on_words c text
chunk_long c char_approx text = chunk_on_words c text

unfoldable pub chunk : Chunker → String → Option (List TextChunk)
chunk c text =
    let total = token_count c.estimator text in
    if leb total c.size
    then some (record { index = 0; text = text; token_count = total } ∷ [])
    else chunk_long c c.estimator text
