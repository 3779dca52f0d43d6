-- ===== src/Config/Lexer/Laws.antt =====
-- Each token takes bytes off the input, and the words that are read back whole.
use cs.Prelude.{
  ℕ, ◌≤◌, ◌<◌, ◌≡◌, refl, ◌∙◌, if_ind, ◌⊎◌, inl, inr, Bool, true, false, [], ◌∷◌, ◌++◌,
  append_assoc, arith, ◌==◌, Text, length, All, append-nil,
}
use cs.Config.Lexer.{
  TokenType, normal, eof, error, TokenParserState, initial_whitespace, single_quote, double_quote,
  in_comment, in_normal, Token, token, is_blank, ends_token, scan, parse_token,
}

-- The end of the input, or an open quote there.
abbrev pub is_end : TokenType → Bool
is_end eof = true
is_end error = true
is_end _ = false

-- The token is an end, or leaves at most `n` bytes.
abbrev Leaves : ℕ → Token → Type 0
Leaves n t = (is_end t.type ≡ true) ⊎ (length t.rest ≤ n)

Leaves-le : {m n : ℕ} (t : Token) → m ≤ n → Leaves m t → Leaves n t
Leaves-le t h (inl e) = inl e
Leaves-le t h (inr l) = inr (omega arith)

scan_initial-Leaves :
    (c : ℕ) (v input : Text)
    → ((s : TokenParserState) (w : Text) → Leaves (length input) (scan s w input))
    → Leaves (length input) (scan initial_whitespace v (c ∷ input))
unfolding scan
scan_initial-Leaves c v input later =
    let P : Token → Type 0 = Leaves (length input) in
    if_ind P (c == b'{') (inr (omega arith)) (
      if_ind P (c == b'}') (inr (omega arith)) (
        if_ind P (c == b'#') (later in_comment (c ∷ [])) (
          if_ind P (c == b'"') (later double_quote (c ∷ [])) (
            if_ind P (c == b'\'') (later single_quote (c ∷ [])) (
              if_ind P (c == b';') (inr (omega arith)) (
                if_ind P (is_blank c) (later initial_whitespace v)
                  (later in_normal (v ++ (c ∷ [])))))))))

scan-Leaves : (s : TokenParserState) (v input : Text) → Leaves (length input) (scan s v input)
unfolding scan
scan-Leaves single_quote v [] = inl refl
scan-Leaves _ v [] = inl refl
scan-Leaves initial_whitespace v (c ∷ input) =
    Leaves-le (scan initial_whitespace v (c ∷ input)) (omega arith)
      (scan_initial-Leaves c v input (λ s w. scan-Leaves s w input))
scan-Leaves single_quote v (c ∷ input) =
    ground (arith, scan-Leaves single_quote (v ++ (c ∷ [])) input)
scan-Leaves double_quote v (c ∷ input) =
    ground (arith, scan-Leaves double_quote (v ++ (c ∷ [])) input)
scan-Leaves in_comment v (c ∷ input) = ground (arith, scan-Leaves in_comment (v ++ (c ∷ [])) input)
scan-Leaves in_normal v (c ∷ input) = ground (arith, scan-Leaves in_normal (v ++ (c ∷ [])) input)

-- Each token but the last takes a byte off the input.
pub parse_token_progress :
    (input : Text)
    → (is_end (parse_token input).type ≡ true) ⊎ (length (parse_token input).rest < length input)
unfolding parse_token
parse_token_progress [] = inl refl
parse_token_progress (c ∷ input) =
    let l = scan_initial-Leaves c [] input (λ s w. scan-Leaves s w input) in ground arith

-- Blanks in front of a token do not matter.
pub parse_token-is_blank :
    (c : ℕ) (input : Text) → is_blank c ≡ true → parse_token (c ∷ input) ≡ parse_token input
unfolding parse_token
parse_token-is_blank c input h = ground arith

-- A byte that a normal token may begin with.
abbrev pub BeginsWord : ℕ → Type 0
BeginsWord c =
    ((c == b'{') ≡ false)
    × ((c == b'}') ≡ false)
    × ((c == b'#') ≡ false)
    × ((c == b'"') ≡ false)
    × ((c == b'\'') ≡ false)
    × ((c == b';') ≡ false)
    × (is_blank c ≡ false)

pub scan-BeginsWord :
    (c : ℕ) (input : Text)
    → BeginsWord c
    → scan initial_whitespace [] (c ∷ input) ≡ scan in_normal (c ∷ []) input
unfolding scan
scan-BeginsWord c input h = rw (h.0, h.1, h.2, h.3, h.4, h.5, h.6)

-- What a token may be to be read back: a word, or a text between two double quotes.
pub data IsWord : Text → Type 0 where
  plain : (c : ℕ) (w : Text) → BeginsWord c → All (λ d. ends_token d ≡ false) w → IsWord (c ∷ w)
  quoted : (w : Text) → All (λ d. (d == b'"') ≡ false) w → IsWord (b'"' ∷ (w ++ (b'"' ∷ [])))

scan-in_normal :
    (w v : Text) (c : ℕ) (rest : Text)
    → All (λ d. ends_token d ≡ false) w
    → ends_token c ≡ true
    → scan in_normal v (w ++ (c ∷ rest)) ≡ token normal (v ++ w) (c ∷ rest)
unfolding scan
scan-in_normal [] v c rest h e = rw (e, append-nil v)
scan-in_normal (d ∷ w) v c rest (n, h) e =
    rw n (scan-in_normal w (v ++ (d ∷ [])) c rest h e ∙ rw append_assoc)

scan-double_quote :
    (w v rest : Text)
    → All (λ d. (d == b'"') ≡ false) w
    → scan double_quote v (w ++ (b'"' ∷ rest)) ≡ token normal (v ++ (w ++ (b'"' ∷ []))) rest
unfolding scan
scan-double_quote [] v rest h = refl
scan-double_quote (d ∷ w) v rest (n, h) =
    rw n (scan-double_quote w (v ++ (d ∷ [])) rest h ∙ rw append_assoc)

-- A word is read whole where a byte that ends a token stands behind it.
pub parse_token-IsWord :
    {w : Text} (c : ℕ) (rest : Text)
    → IsWord w
    → ends_token c ≡ true
    → parse_token (w ++ (c ∷ rest)) ≡ token normal w (c ∷ rest)
unfolding parse_token
parse_token-IsWord c rest (plain b w begins h) e =
    scan-BeginsWord b (w ++ (c ∷ rest)) begins ∙ scan-in_normal w (b ∷ []) c rest h e
parse_token-IsWord c rest (quoted w h) e =
    rw (append_assoc w (b'"' ∷ []) (c ∷ rest)) (scan-double_quote w (b'"' ∷ []) (c ∷ rest) h)
