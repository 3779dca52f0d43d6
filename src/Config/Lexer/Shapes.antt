-- ===== src/Config/Lexer/Shapes.antt =====
-- The shapes of the tokens of a configuration, with the bytes that end them, and `ParseToken` on them.
use cs.Prelude.{
  ℕ, ◌≡◌, refl, ap, ◌∙◌, arith, true, false, [], ◌∷◌, ◌++◌, append-nil, append_assoc, Text, codes,
  All,
}
use cs.Strings.{stands_in}
use cs.Config.Lexer.{
  TokenType, normal, start_block, end_block, comment, statement_end, initial_whitespace,
  single_quote, double_quote, in_comment, in_normal, token, scan, parse_token,
}

-- No byte of a text is one of `stops`.
abbrev HasNone : Text → Text → Type 0
HasNone stops = All (λ c. stands_in stops c ≡ false)

-- A token of a type and a value at the beginning of an input, with what is left behind it. A comment
-- takes the end of its line with it, a word leaves the byte that ends it.
pub data IsLexeme : TokenType → Text → Text → Text → Type 0 where
  opening : (rest : Text) → IsLexeme start_block (codes "{") (b'{' ∷ rest) rest
  closing : (rest : Text) → IsLexeme end_block (codes "}") (b'}' ∷ rest) rest
  semicolon : (rest : Text) → IsLexeme statement_end (codes ";") (b';' ∷ rest) rest
  line :
      (w : Text) (e : ℕ) (rest : Text)
      → HasNone (codes "\n\r") w
      → stands_in (codes "\n\r") e ≡ true
      → IsLexeme comment (b'#' ∷ w) (b'#' ∷ (w ++ (e ∷ rest))) rest
  single :
      (w rest : Text)
      → HasNone (codes "'") w
      → IsLexeme normal (b'\'' ∷ (w ++ codes "'")) (b'\'' ∷ (w ++ (b'\'' ∷ rest))) rest
  double :
      (w rest : Text)
      → HasNone (codes "\"") w
      → IsLexeme normal (b'"' ∷ (w ++ codes "\"")) (b'"' ∷ (w ++ (b'"' ∷ rest))) rest
  word :
      (c : ℕ) (w : Text) (e : ℕ) (rest : Text)
      → stands_in (codes " \t\n\r;{}#'\"") c ≡ false
      → HasNone (codes " \t\n;{}") w
      → stands_in (codes " \t\n;{}") e ≡ true
      → IsLexeme normal (c ∷ w) (c ∷ (w ++ (e ∷ rest))) (e ∷ rest)

scan-blanks :
    (b s : Text)
    → All (λ c. stands_in (codes " \t\n\r") c ≡ true) b
    → scan initial_whitespace [] (b ++ s) ≡ scan initial_whitespace [] s
unfolding scan
scan-blanks [] s h = refl
scan-blanks (c ∷ b) s (p, h) = ground (arith, scan-blanks b s h)

scan-comment :
    (w : Text) (e : ℕ) (rest v : Text)
    → HasNone (codes "\n\r") w
    → stands_in (codes "\n\r") e ≡ true
    → scan in_comment v (w ++ (e ∷ rest)) ≡ token comment (v ++ w) rest
unfolding scan
scan-comment [] e rest v h k = rw append-nil (ground arith)
scan-comment (c ∷ w) e rest v (n, h) k =
    let later =
      scan-comment w e rest (v ++ (c ∷ [])) h k
      ∙ ap (λ u. token comment u rest) (append_assoc v (c ∷ []) w) in
    ground (arith, n, later)

scan-single :
    (w rest v : Text)
    → HasNone (codes "'") w
    → scan single_quote v (w ++ (b'\'' ∷ rest)) ≡ token normal (v ++ (w ++ codes "'")) rest
unfolding scan
scan-single [] rest v h = refl
scan-single (c ∷ w) rest v (n, h) =
    let later =
      scan-single w rest (v ++ (c ∷ [])) h
      ∙ ap (λ u. token normal u rest) (append_assoc v (c ∷ []) (w ++ codes "'")) in
    ground (arith, n, later)

scan-double :
    (w rest v : Text)
    → HasNone (codes "\"") w
    → scan double_quote v (w ++ (b'"' ∷ rest)) ≡ token normal (v ++ (w ++ codes "\"")) rest
unfolding scan
scan-double [] rest v h = refl
scan-double (c ∷ w) rest v (n, h) =
    let later =
      scan-double w rest (v ++ (c ∷ [])) h
      ∙ ap (λ u. token normal u rest) (append_assoc v (c ∷ []) (w ++ codes "\"")) in
    ground (arith, n, later)

scan-word :
    (w : Text) (e : ℕ) (rest v : Text)
    → HasNone (codes " \t\n;{}") w
    → stands_in (codes " \t\n;{}") e ≡ true
    → scan in_normal v (w ++ (e ∷ rest)) ≡ token normal (v ++ w) (e ∷ rest)
unfolding scan
scan-word [] e rest v h k = rw append-nil (ground (arith, k))
scan-word (c ∷ w) e rest v (n, h) k =
    let later =
      scan-word w e rest (v ++ (c ∷ [])) h k
      ∙ ap (λ u. token normal u (e ∷ rest)) (append_assoc v (c ∷ []) w) in
    ground (arith, n, later)

scan-IsLexeme :
    (t : TokenType) (v s rest : Text)
    → IsLexeme t v s rest
    → scan initial_whitespace [] s ≡ token t v rest
unfolding scan
scan-IsLexeme t v s rest (opening r) = refl
scan-IsLexeme t v s rest (closing r) = refl
scan-IsLexeme t v s rest (semicolon r) = refl
scan-IsLexeme t v s rest (line w e r h k) = scan-comment w e r (b'#' ∷ []) h k
scan-IsLexeme t v s rest (single w r h) = scan-single w r (b'\'' ∷ []) h
scan-IsLexeme t v s rest (double w r h) = scan-double w r (b'"' ∷ []) h
scan-IsLexeme t v s rest (word c w e r n h k) = ground (arith, n, scan-word w e r (c ∷ []) h k)

-- `ParseToken` skips blanks, and then returns the token that the input begins with and leaves what
-- stands behind it.
pub parse_token-IsLexeme :
    (t : TokenType) (v b s rest : Text)
    → All (λ c. stands_in (codes " \t\n\r") c ≡ true) b
    → IsLexeme t v s rest
    → parse_token (b ++ s) ≡ token t v rest
unfolding parse_token
parse_token-IsLexeme t v b s rest h i = scan-blanks b s h ∙ scan-IsLexeme t v s rest i
