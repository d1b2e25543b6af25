-- ===== src/Memory/WordPieces.antt =====
-- src/feather/memory/chunker.py, the path that packs words.
use feather_os.Prelude.{
  ℕ, zero, suc, ◌+◌, ◌-◌, ◌≤◌, ◌<◌, ◌≡◌, refl, ap, subst, ◌⊎◌, inl, inr, true, Bool-cases, List, [],
  ◌∷◌, some, String, ltb, leb, leb→le, leb-lt, ◌==◌, length, words, arith,
}
use feather_os.Memory.Chunker.{
  Chunker, tokens_between, fit_from, greedy_fit, rewind_from, rewind_for_overlap, end_of,
  word_chunk, word_loop, chunk_words, chunk_on_words,
}
use feather_os.Memory.Covers.{Span, Cover, last, more, chunks_of}

module _ (c : Chunker) (all_words : List String) where
  -- A piece fits the size, or is one word.
  abbrev pub Packed : ℕ → ℕ → Type 0
  Packed s e = (e ≡ suc s) ⊎ (tokens_between c all_words s e ≤ c.size)

  -- The next piece starts at the last place inside the piece from which the words up to its end count
  -- for the overlap, or at its end if there is no such place.
  pub record Rewound (s e next : ℕ) : Type 0 where
    pub after : s < next
    pub upto : next ≤ e
    pub shares : (next ≡ e) ⊎ (c.overlap ≤ tokens_between c all_words next e)
    pub latest :
        (k : ℕ)
        → s < k
        → k < e
        → c.overlap ≤ tokens_between c all_words k e
        → (k ≤ next) × (next < e)

  fit_from-bounds :
      (start left end : ℕ)
      → (end ≤ fit_from c all_words start left end)
        × (fit_from c all_words start left end ≤ end + left)
  unfolding fit_from
  fit_from-bounds start zero end = (omega arith, omega arith)
  fit_from-bounds start (suc left) end = ground (arith, fit_from-bounds start left (suc end))

  fit_from-fits :
      (start left end : ℕ)
      → (fit_from c all_words start left end ≡ end)
        ⊎ (tokens_between c all_words start (fit_from c all_words start left end) ≤ c.size)
  unfolding fit_from
  fit_from-fits start zero end = inl refl
  fit_from-fits start (suc left) end =
      elim (Bool-cases (ltb c.size (tokens_between c all_words start (suc end)))) [
        | inl t ↦ rw t (inl refl)
        | inr f ↦ rw f (elim (fit_from-fits start left (suc end)) [
          | inl same ↦ inr (rw same (ground arith))
          | inr fits ↦ inr fits
        ])
      ]

  end_of-bounds :
      (cursor : ℕ)
      → cursor < length all_words
      → (cursor < end_of c all_words cursor) × (end_of c all_words cursor ≤ length all_words)
  end_of-bounds cursor h = ground (arith, fit_from-bounds cursor (length all_words - cursor) cursor)

  end_of-Packed : (cursor : ℕ) → Packed cursor (end_of c all_words cursor)
  end_of-Packed cursor = elim (Bool-cases (greedy_fit c all_words cursor == cursor)) [
    | inl t ↦ rw t (inl refl)
    | inr f ↦ rw f (elim (fit_from-fits cursor (length all_words - cursor) cursor) [
      | inl same ↦ absurd (ground (arith, same, f))
      | inr fits ↦ inr fits
    ])
  ]

  -- The search from `left` places on; none of the later places counts for the overlap.
  rewind_from-Rewound :
      (s e left : ℕ)
      → suc (s + left) ≤ e
      → ((k : ℕ) → suc (s + left) ≤ k → k < e → tokens_between c all_words k e < c.overlap)
      → Rewound s e (rewind_from c all_words s e left)
  unfolding rewind_from
  rewind_from-Rewound s e zero h later = record {
    after = omega arith;
    upto = omega arith;
    shares = inl refl;
    latest = λ k a b enough. absurd (ground (arith, later k));
  }
  rewind_from-Rewound s e (suc left) h later =
      elim (Bool-cases (leb c.overlap (tokens_between c all_words (suc (s + left)) e))) [
        | inl t ↦ rw t (record {
          after = omega arith;
          upto = omega arith;
          shares = inr (ground arith);
          latest = λ k a b enough. ground (arith, later k, enough);
        })
        | inr f ↦ rw f (
            rewind_from-Rewound s e left (omega arith) (λ k a b.
              elim (Bool-cases (leb (suc (s + suc left)) k)) [
                | inl t2 ↦ later k (ground (arith, t2)) b
                | inr g ↦
                    let same : k ≡ suc (s + left) = ground (arith, g, a) in
                    rw same (ground (arith, f))
              ]))
      ]

  rewind-Rewound : (s e : ℕ) → s < e → Rewound s e (rewind_for_overlap c all_words s e)
  rewind-Rewound s e h =
      rewind_from-Rewound s e (e - suc s) (omega arith) (λ k a b. absurd (omega arith))

  abbrev pub Pieces : ℕ → List Span → Type 0
  Pieces s spans = Cover Packed Rewound (length all_words) s spans

  -- With a round for each word that is left the loop ends, and its chunks are pieces from the cursor
  -- to the end.
  word_loop-Pieces :
      (fuel cursor idx : ℕ)
      → cursor < length all_words
      → length all_words ≤ cursor + fuel
      → (spans : List Span) × (word_loop c all_words fuel cursor idx
          ≡ some (chunks_of (word_chunk c all_words) idx spans))
        × Pieces cursor spans
  unfolding word_loop
  word_loop-Pieces zero cursor idx h enough = absurd (omega arith)
  word_loop-Pieces (suc fuel) cursor idx h enough =
      let e = end_of c all_words cursor in
      let (past, upto) = end_of-bounds cursor h in
      let inside : ltb cursor (length all_words) ≡ true = ground arith in
      elim (Bool-cases (leb (length all_words) e)) [
        | inl t ↦
            let same : e ≡ length all_words = omega (arith, upto, leb→le (length all_words) e t) in
            (
              record { from = cursor; to = length all_words } ∷ [],
              rw (inside, t) (ap (λ k. some (word_chunk c all_words idx cursor k ∷ [])) same),
              last cursor h (subst (Packed cursor) same (end_of-Packed cursor)),
            )
        | inr f ↦
            let back = rewind-Rewound cursor e past in
            let (spans, is, cover) =
              word_loop-Pieces fuel (rewind_for_overlap c all_words cursor e) (suc idx)
                (omega (arith, back.after, back.upto, leb-lt (length all_words) e f))
                (omega (arith, back.after)) in
            (
              record { from = cursor; to = e } ∷ spans,
              rw (inside, f, is) refl,
              more cursor e _ (leb-lt (length all_words) e f) back.after back.upto
                  (end_of-Packed cursor) back cover,
            )
      ]

pub chunk_words-Pieces :
    (c : Chunker) (all_words : List String)
    → 0 < length all_words
    → (spans : List Span) × (chunk_words c all_words
        ≡ some (chunks_of (word_chunk c all_words) 0 spans))
      × Pieces c all_words 0 spans
chunk_words-Pieces c [] h = absurd (omega arith)
chunk_words-Pieces c (w ∷ ws) h = word_loop-Pieces c (w ∷ ws) (length (w ∷ ws)) 0 0 h (omega arith)

-- The packing of words always ends, whatever counts the tokens: a text with words gives the chunks of
-- pieces that go from its first word to its last. Each piece is one word or fits the size, and each
-- starts behind the start of the piece before it, at the last word from which that piece still counts
-- for the overlap, or where that piece ends if it has no such word behind its first.
pub chunk_on_words_lem :
    (c : Chunker) (text : String)
    → 0 < length (words text)
    → (spans : List Span) × (chunk_on_words c text
        ≡ some (chunks_of (word_chunk c (words text)) 0 spans))
      × Pieces c (words text) 0 spans
unfolding chunk_on_words
chunk_on_words_lem c text h = chunk_words-Pieces c (words text) h
