-- ===== src/Telegram/Limit.antt =====
-- The parts of `prepare_text_parts` in src/channels/telegram.rs.
use ah.Base.{
  ◌≤◌, ◌≡◌, refl, List, [], ◌∷◌, Option, none, some, arith, Text, length, inl, inr, All, All-append,
  ◌⊎◌, ◌≢◌, leb, true, ◌++◌, dec_lt,
}
use ah.Telegram.{Chars, encode}
use ah.Telegram.Chunks.{split_html_safely-IsSplit}
use ah.Telegram.Convert.{markdown_to_telegram_html-IsHtml}
use ah.Telegram.Cuts.{IsChunk, split_text-IsSplit}
use ah.Telegram.Parts.{
  ChannelParseMode, markdown, html, telegram_max_text_length, html_parts, append_parts, chunk_parts,
  prepare_text_parts, split_markdown_semantic,
}
use ah.Telegram.Split.{Outcome, returned, panicked, split_text, split_html_safely}

-- A message that Telegram takes.
abbrev pub Fits : Text → Type 0
Fits part = length part ≤ 4096

-- Parts that fit, or a panic.
abbrev pub Sendable : Outcome (List Text) → Type 0
Sendable o = ((parts : List Text) × (o ≡ returned parts) × All Fits parts) ⊎ (o ≡ panicked)

IsChunk-Fits : (chunks : List Text) → All (IsChunk 4096) chunks → All Fits chunks
IsChunk-Fits [] a = tt
IsChunk-Fits (chunk ∷ chunks) (c, a) = (c.bounded, IsChunk-Fits chunks a)

split_html_safely-Sendable : (cs : Chars) → Sendable (split_html_safely (encode cs) 4096)
split_html_safely-Sendable cs = elim (dec_lt 0 (length (encode cs))) [
  | no p ↦
      let short : leb (length (encode cs)) 4096 ≡ true = ground arith in
      unfold split_html_safely in rw short (inl (_, refl, (omega arith, tt)))
  | yes p ↦ elim (split_html_safely-IsSplit cs 4096 (omega arith) p) [
    | inl (chunks, e, s) ↦ inl (chunks, e, IsChunk-Fits chunks s.limited)
    | inr (e, _) ↦ inr e
  ]
]

-- Plain splitting does not panic.
split_text-Fits :
    (cs : Chars)
    → (parts : List Text) × (split_text (encode cs) 4096 ≡ returned parts) × All Fits parts
split_text-Fits cs = elim (dec_lt 0 (length (encode cs))) [
  | no p ↦
      let short : leb (length (encode cs)) 4096 ≡ true = ground arith in
      unfold split_text in rw short (_, refl, (omega arith, tt))
  | yes p ↦
      let (chunks, e, s) = split_text-IsSplit cs 4096 (omega arith) p in
      (chunks, e, IsChunk-Fits chunks s.limited)
]

append_parts-Sendable :
    (o rest : Outcome (List Text)) → Sendable o → Sendable rest → Sendable (append_parts o rest)
unfolding append_parts
append_parts-Sendable o rest (inl (parts, e, a)) (inl (more, f, b)) =
    rw (e, f) (inl (parts ++ more, refl, All-append Fits parts more a b))
append_parts-Sendable o rest (inl (parts, e, a)) (inr f) = rw (e, f) (inr refl)
append_parts-Sendable o rest (inr e) s = rw e (inr refl)

chunk_parts-Sendable : (chunks : List Chars) → Sendable (chunk_parts chunks)
unfolding chunk_parts html_parts telegram_max_text_length
chunk_parts-Sendable [] = inl ([], refl, tt)
chunk_parts-Sendable (chunk ∷ rest) =
    let (html', e, _) = markdown_to_telegram_html-IsHtml chunk in
    append_parts-Sendable _ _ (rw e (split_html_safely-Sendable html')) (chunk_parts-Sendable rest)

no_markdown :
    (mode : Option ChannelParseMode) (o : Outcome (List Text))
    → mode ≢ some markdown
    → Sendable o
    → ((parts : List Text) × (o ≡ returned parts) × All Fits parts)
      ⊎ ((o ≡ panicked) × (mode ≢ some markdown))
no_markdown mode o h (inl s) = inl s
no_markdown mode o h (inr e) = inr (e, h)

-- Whatever the text and its parse mode, splitting it ends: every part keeps to the 4096 bytes, or the
-- code panics, which it does not in the Markdown mode.
pub prepare_text_parts-Fits :
    (content : Chars) (mode : Option ChannelParseMode)
    → ((parts : List Text) × (prepare_text_parts content mode ≡ returned parts) × All Fits parts)
      ⊎ ((prepare_text_parts content mode ≡ panicked) × (mode ≢ some markdown))
unfolding prepare_text_parts telegram_max_text_length
prepare_text_parts-Fits content none =
    no_markdown none _ (λ e. ground (arith, e))
      (chunk_parts-Sendable (split_markdown_semantic content))
prepare_text_parts-Fits content (some html) =
    no_markdown (some html) _ (λ e. ground (arith, e)) (split_html_safely-Sendable content)
prepare_text_parts-Fits content (some markdown) = inl (split_text-Fits content)
