-- ===== src/Memory/Examples.antt =====
-- The chunker at small sizes, with an estimator that counts words and an encoding of one id a letter.
use feather_os.Prelude.{
  ℕ, zero, ◌<◌, String, ◌≡◌, refl, none, some, List, [], ◌∷◌, map, length, words, arith, ok, Option,
  prefix, text_length, suc,
}
use feather_os.Memory.Tokenizer.{Encoding, tiktoken, gemini}
use feather_os.Memory.Chunker.{
  TextChunk, Chunker, new_chunker, fit_from, rewind_from, word_chunk, word_loop, chunk_on_words,
  token_chunk, token_loop, chunk_on_tokens, chunk,
}
use feather_os.Memory.Covers.{Span, chunks_of}
use feather_os.Memory.WordPieces.{Pieces, chunk_on_words_lem}
use feather_os.Memory.TokenPieces.{TokenPieces, chunk_on_tokens_lem, chunk_ends}

abbrev by_words : Chunker
by_words = record { estimator = gemini (λ t. length (words t)); size = 2; overlap = 1 }

abbrev unshared : Chunker
unshared = record by_words { overlap = 0 }

abbrev ones : ℕ → List ℕ
ones zero = []
ones (suc n) = 1 ∷ ones n

abbrev letters : Encoding
letters = record {
  encode = λ t. ones (text_length t);
  decode = λ ids. prefix (length ids) "xxxxxxxx";
}

abbrev by_letters : Chunker
by_letters = record { estimator = tiktoken letters; size = 3; overlap = 1 }

program : Unit {0}
unfolding words fit_from rewind_from word_loop chunk_on_words token_loop chunk_on_tokens chunk
    new_chunker
program = tt

abbrev texts_of : Option (List TextChunk) → List String
texts_of none = []
texts_of (some chunks) = map (λ (x : TextChunk). x.text) chunks

abbrev starling : String
starling = "one two  three four"

overlapping : texts_of (chunk by_words starling) ≡ "one two" ∷ "two three" ∷ "three four" ∷ []
unfolding program
overlapping = refl

-- An overlap of no tokens still shares a word.
overlapping_anyway :
    texts_of (chunk unshared starling) ≡ "one two" ∷ "two three" ∷ "three four" ∷ []
unfolding program
overlapping_anyway = refl

cut_ids : texts_of (chunk by_letters "abcdef") ≡ "xxx" ∷ "xxx" ∷ "xx" ∷ []
unfolding program
cut_ids = refl

chunk_on_words_lem_example :
    (spans : List Span) × (chunk_on_words by_words starling
      ≡ some (chunks_of (word_chunk by_words (words starling)) 0 spans))
    × Pieces by_words (words starling) 0 spans
unfolding program
chunk_on_words_lem_example = chunk_on_words_lem by_words starling (omega arith)

chunk_on_tokens_lem_example :
    (spans : List Span) × (chunk_on_tokens by_letters letters "abcdef"
      ≡ some (chunks_of (token_chunk by_letters letters (ones 6)) 0 spans))
    × TokenPieces by_letters letters (ones 6) 0 spans
chunk_on_tokens_lem_example =
    chunk_on_tokens_lem by_letters letters "abcdef" (omega arith) (omega arith)

new_by_letters : new_chunker (tiktoken letters) 3 1 ≡ ok by_letters
unfolding program
new_by_letters = refl

chunk_ends_example :
    (chunks : List TextChunk) × (chunk by_letters "abcdef" ≡ some chunks) × (0 < length chunks)
chunk_ends_example = chunk_ends (tiktoken letters) 3 1 by_letters "abcdef" new_by_letters
