-- ===== src/Memory.antt =====
-- The memory: src/feather/memory/tokenizer.py, which counts tokens, and src/feather/memory/chunker.py,
-- which cuts a long text into pieces that overlap.
pub mod Tokenizer
pub mod Chunker
pub mod Covers
pub mod WordPieces
pub mod TokenPieces
mod Examples
