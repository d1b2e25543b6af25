-- ===== src/Memory/Covers.antt =====
-- src/feather/memory/chunker.py: how the pieces that a text is cut into lie in it.
use feather_os.Prelude.{ℕ, suc, ◌+◌, ◌≤◌, ◌<◌, List, [], ◌∷◌, length, arith}
use feather_os.Memory.Chunker.{TextChunk}

-- The places from `from` on and before `to`.
pub record Span : Type 0 where
  pub from : ℕ
  pub to : ℕ

-- Pieces from the place `s` to the end `n`: each starts behind the start of the piece before it and
-- not behind its end; every piece is as `Piece` says, and the start of a piece as `Link` says of the
-- start and the end of the piece before it.
pub data Cover (Piece : ℕ → ℕ → Type 0) (Link : ℕ → ℕ → ℕ → Type 0) (n : ℕ)
    : ℕ → List Span → Type 0 where
  last : (s : ℕ) → s < n → Piece s n → Cover Piece Link n s (record { from = s; to = n } ∷ [])
  more :
      {spans : List Span} (s e next : ℕ)
      → e < n
      → s < next
      → next ≤ e
      → Piece s e
      → Link s e next
      → Cover Piece Link n next spans
      → Cover Piece Link n s (record { from = s; to = e } ∷ spans)

-- The chunks of the pieces, counted from `idx` on.
abbrev pub chunks_of : (ℕ → ℕ → ℕ → TextChunk) → ℕ → List Span → List TextChunk
chunks_of chunk idx [] = []
chunks_of chunk idx (span ∷ spans) = chunk idx span.from span.to ∷ chunks_of chunk (suc idx) spans

module _ {Piece : ℕ → ℕ → Type 0} {Link : ℕ → ℕ → ℕ → Type 0} {n : ℕ} where
  -- There are no more pieces than places.
  pub length-Cover : {s : ℕ} {spans : List Span} → Cover Piece Link n s spans → s + length spans ≤ n
  length-Cover (last s h p) = omega arith
  length-Cover (more s e next h i j p l c) = omega (arith, length-Cover c)

  -- There is a piece, so there is a chunk.
  pub length-chunks_of-Cover :
      {s : ℕ} {spans : List Span} (chunk : ℕ → ℕ → ℕ → TextChunk) (idx : ℕ)
      → Cover Piece Link n s spans
      → 0 < length (chunks_of chunk idx spans)
  length-chunks_of-Cover chunk idx (last s h p) = omega arith
  length-chunks_of-Cover chunk idx (more s e next h i j p l c) = omega arith
