-- ===== src/Memory/TokenPieces.antt =====
-- src/feather/memory/chunker.py, the path that cuts token ids, and `chunk` itself.
use feather_os.Prelude.{
  ℕ, zero, suc, ◌+◌, ◌-◌, ◌≤◌, ◌<◌, ◌≡◌, refl, ap, subst, inl, inr, true, false, Bool-cases, List,
  [], ◌∷◌, Option, some, String, ltb, leb, leb-lt, ◌==◌, length, length-take, length-drop, take,
  words, arith, ok,
}
use feather_os.Memory.Tokenizer.{
  Encoding, TokenEstimator, tiktoken, gemini, char_approx, token_count,
}
use feather_os.Memory.Chunker.{
  TextChunk, Chunker, new_chunker, slice, token_end, token_chunk, token_loop, chunk_on_tokens,
  chunk_on_words, chunk_long, chunk, chunk_words, word_chunk,
}
use feather_os.Memory.Covers.{Span, Cover, last, more, chunks_of, length-chunks_of-Cover}
use feather_os.Memory.WordPieces.{chunk_words-Pieces}

length-slice :
    {A : Type 0} (s e : ℕ) (items : List A) → e ≤ length items → length (slice s e items) ≡ e - s
length-slice s e items h = omega (arith, length-drop {0} s (take e items), length-take {0} e items)

module _ (c : Chunker) (encoding : Encoding) (ids : List ℕ) where
  -- A piece has as many tokens as places, and no more than the size.
  abbrev pub Sized : ℕ → ℕ → Type 0
  Sized s e = (length (slice s e ids) ≡ e - s) × (e - s ≤ c.size)

  -- The next piece shares as many tokens as the overlap says.
  abbrev pub Shared : ℕ → ℕ → ℕ → Type 0
  Shared s e next = next + c.overlap ≡ e

  abbrev pub TokenPieces : ℕ → List Span → Type 0
  TokenPieces s spans = Cover Sized Shared (length ids) s spans

  module _ (valid : c.overlap < c.size) where
    token_end-Sized : (start : ℕ) → Sized start (token_end c encoding ids start)
    token_end-Sized start =
        (length-slice start (token_end c encoding ids start) ids (omega arith), omega arith)

    token_loop-TokenPieces :
        (fuel start idx : ℕ)
        → start < length ids
        → length ids ≤ start + fuel
        → (spans : List Span) × (token_loop c encoding ids fuel start idx
            ≡ some (chunks_of (token_chunk c encoding ids) idx spans))
          × TokenPieces start spans
    unfolding token_loop
    token_loop-TokenPieces zero start idx h enough = absurd (omega arith)
    token_loop-TokenPieces (suc fuel) start idx h enough =
        let e = token_end c encoding ids start in
        let next = start + (c.size - c.overlap) in
        let inside : ltb start (length ids) ≡ true = ground arith in
        elim (Bool-cases (e == length ids)) [
          | inl t ↦
              let same : e ≡ length ids = ground (arith, t) in
              (
                record { from = start; to = length ids } ∷ [],
                rw (inside, t) (ap (λ k. some (token_chunk c encoding ids idx start k ∷ [])) same),
                last start h (subst (Sized start) same (token_end-Sized start)),
              )
          | inr f ↦
              let short : start + c.size < length ids = ground (arith, f) in
              let (spans, is, cover) =
                token_loop-TokenPieces fuel next (suc idx) (omega arith) (omega arith) in
              (
                record { from = start; to = e } ∷ spans,
                rw (inside, f, is) refl,
                more start e next (omega arith) (omega arith) (omega arith) (token_end-Sized start)
                    (omega arith) cover,
              )
        ]

-- Cutting the ids of a text always ends where the overlap is less than the size: a text with tokens
-- gives the chunks of pieces that go from its first token to its last. No piece has more tokens than
-- the size, and each shares with the one before it as many tokens as the overlap says.
pub chunk_on_tokens_lem :
    (c : Chunker) (encoding : Encoding) (text : String)
    → c.overlap < c.size
    → 0 < length (encoding.encode text)
    → (spans : List Span) × (chunk_on_tokens c encoding text
        ≡ some (chunks_of (token_chunk c encoding (encoding.encode text)) 0 spans))
      × TokenPieces c encoding (encoding.encode text) 0 spans
unfolding chunk_on_tokens
chunk_on_tokens_lem c encoding text valid h =
    let ids = encoding.encode text in
    token_loop-TokenPieces c encoding ids valid (suc (length ids)) 0 0 h (omega arith)

-- What the constructor lets through.
new_chunker-ok :
    (estimator : TokenEstimator) (size overlap : ℕ) (c : Chunker)
    → new_chunker estimator size overlap ≡ ok c
    → (c.overlap < c.size) × (0 < c.size)
unfolding new_chunker
new_chunker-ok estimator size overlap c h = elim (Bool-cases (leb size 0)) [
  | inl t ↦ cc (rw t at h)
  | inr f ↦ elim (Bool-cases (leb size overlap)) [
    | inl t ↦ cc (rw (f, t) at h)
    | inr g ↦
        let same : ok (record { estimator = estimator; size = size; overlap = overlap }) ≡ ok c =
          rw (f, g) at h in
        let is : record { estimator = estimator; size = size; overlap = overlap } ≡ c = cc in
        subst (λ (d : Chunker). (d.overlap < d.size) × (0 < d.size)) is
          (leb-lt size overlap g, leb-lt size 0 f)
  ]
]

-- Some chunks came out.
abbrev pub Chunked : Option (List TextChunk) → Type 0
Chunked found = (chunks : List TextChunk) × (found ≡ some chunks) × (0 < length chunks)

chunk_words-Chunked : (c : Chunker) (all_words : List String) → Chunked (chunk_words c all_words)
chunk_words-Chunked c [] = (_, refl, omega arith)
chunk_words-Chunked c (w ∷ ws) =
    let (spans, is, cover) = chunk_words-Pieces c (w ∷ ws) (omega arith) in
    (_, is, length-chunks_of-Cover (word_chunk c (w ∷ ws)) 0 cover)

chunk_long-Chunked :
    (c : Chunker) (estimator : TokenEstimator) (text : String)
    → c.overlap < c.size
    → leb (token_count estimator text) c.size ≡ false
    → Chunked (chunk_long c estimator text)
chunk_long-Chunked c (tiktoken encoding) text valid long =
    let has_tokens : 0 < length (encoding.encode text) = ground (arith, long) in
    let (spans, is, cover) = chunk_on_tokens_lem c encoding text valid has_tokens in
    (_, is, length-chunks_of-Cover (token_chunk c encoding (encoding.encode text)) 0 cover)
chunk_long-Chunked c (gemini count_tokens) text valid long =
    unfold chunk_on_words in chunk_words-Chunked c (words text)
chunk_long-Chunked c char_approx text valid long =
    unfold chunk_on_words in chunk_words-Chunked c (words text)

-- `chunk` of a chunker that its constructor let through ends on every text, whatever estimator counts
-- the tokens, and gives at least one chunk.
pub chunk_ends :
    (estimator : TokenEstimator) (size overlap : ℕ) (c : Chunker) (text : String)
    → new_chunker estimator size overlap ≡ ok c
    → (chunks : List TextChunk) × (chunk c text ≡ some chunks) × (0 < length chunks)
unfolding chunk
chunk_ends estimator size overlap c text h =
    let (valid, positive) = new_chunker-ok estimator size overlap c h in
    elim (Bool-cases (leb (token_count c.estimator text) c.size)) [
      | inl t ↦ rw t (_, refl, omega arith)
      | inr f ↦ rw f (chunk_long-Chunked c c.estimator text valid f)
    ]
