-- ===== src/Memory/Tokenizer.antt =====
-- src/feather/memory/tokenizer.py. An encoding of tiktoken and the counting call of Gemini are
-- parameters.
use feather_os.Prelude.{
  ℕ, String, ◌<>◌, List, Option, none, some, if◌then◌else◌, str_eq, is_empty, text_length, length,
  max, value_error, Result, ok, err,
}
use Prim.Native.Nat.{◌/◌}

pub record Encoding : Type 0 where
  pub encode : String → List ℕ
  pub decode : List ℕ → String

pub data TokenEstimator : Type 0 where
  tiktoken : Encoding → TokenEstimator
  gemini : (count_tokens : String → ℕ) → TokenEstimator
  char_approx : TokenEstimator

abbrev pub token_count : TokenEstimator → String → ℕ
token_count (tiktoken e) text = if is_empty text then 0 else length (e.encode text)
token_count (gemini count_tokens) text = count_tokens text
token_count char_approx text = max 1 (text_length text / 4)

abbrev pub gemini_estimator : Option (String → ℕ) → Result TokenEstimator
gemini_estimator none = err (value_error "tokenizer='gemini' requires a gemini_client")
gemini_estimator (some count_tokens) = ok (gemini count_tokens)

-- `get_encoding` is `tiktoken.get_encoding`, and `repr` is Python's.
unfoldable pub build_estimator :
    (get_encoding : String → Encoding)
    → (repr : String → String) → (tokenizer tokenizer_encoding : String)
    → (gemini_client : Option (String → ℕ)) → Result TokenEstimator
build_estimator get_encoding repr tokenizer tokenizer_encoding gemini_client =
    if str_eq tokenizer "tiktoken"
    then ok (tiktoken (get_encoding tokenizer_encoding))
    else if str_eq tokenizer "char4"
    then ok char_approx
    else if str_eq tokenizer "gemini"
    then gemini_estimator gemini_client
    else err (value_error ("unknown tokenizer " <> repr tokenizer))
