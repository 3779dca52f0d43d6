-- ===== src/Config/Printer/RoundTrip.antt =====
-- `Parse` reads back what `ToString` writes.
use cs.Prelude.{
  ℕ, ◌+◌, ◌≡◌, refl, ◌∙◌, sym, ap, List, [], ◌∷◌, ◌++◌, append_assoc, append-nil, some, Text,
  length,
}
use cs.Config.Syntax.{
  NginxConfig, nil, cons, NginxConfigStatement, statement, ChildBlock, null, block,
}
use cs.Config.Lexer.{
  TokenType, start, normal, start_block, end_block, statement_end, eof, parse_token,
}
use cs.Config.Parser.{Frame, step, accepted, loop, initial, parse, of_frame, root}
use cs.Config.Printer.{
  indent, join_more, join, config_to_string, statement_to_string, block_to_string,
}
use cs.Config.Printer.Reading.{from, from-blank}
use cs.Config.Printer.Statements.{
  Ended, Ends, Ends-join_more, IsBlock, IsConfig, IsStatement, Opens, done, from-close, from-first,
  from-indent, from-join_more, from-open, from-semicolon, last_of, last_of-Closes, last_of_block,
  more, of_frame-push_all, push_all, st, within, without, words,
}

Ends-block : (d : ℕ) (b : ChildBlock) (rest : Text) → Ends (block_to_string d b ++ rest)
unfolding block_to_string
Ends-block d null rest = refl
Ends-block d (block c) rest = refl

Opens_of_block : (b : ChildBlock) → Opens (last_of_block b)
Opens_of_block null = tt
Opens_of_block (block c) = tt

last_of-cons :
    (l : TokenType) (s : NginxConfigStatement) (c : NginxConfig)
    → last_of (last_of l (cons s nil)) c ≡ last_of l (cons s c)
last_of-cons l (statement ts b) c = refl

Opens_of_statement : (l : TokenType) (s : NginxConfigStatement) → Opens (last_of l (cons s nil))
Opens_of_statement l (statement ts b) = Opens_of_block b

mutual
  unfolding config_to_string join

  pub from-config :
      {c : NginxConfig} (w : IsConfig c) (d : ℕ) (l : TokenType) (f : Frame) (fs : List Frame)
      (n : ℕ) (rest : Text)
      → Opens l
      → from (st l f fs n) (config_to_string d c ++ rest)
        ≡ from (st (last_of l c) (push_all c f) fs n) rest
  from-config done d l f fs n rest o = refl
  from-config (more {s} {c} w v) d l f fs n rest o =
      rw (append_assoc (statement_to_string d s) (config_to_string d c) rest) (
        from-statement w d l f fs n (config_to_string d c ++ rest) o
        ∙ from-config v d (last_of l (cons s nil)) (s ∷ f) fs n rest (Opens_of_statement l s)
        ∙ ap (λ k. from (st k (push_all c (s ∷ f)) fs n) rest) (last_of-cons l s c))

  pub from-statement :
      {s : NginxConfigStatement} (w : IsStatement s) (d : ℕ) (l : TokenType) (f : Frame)
      (fs : List Frame) (n : ℕ) (rest : Text)
      → Opens l
      → from (st l f fs n) (statement_to_string d s ++ rest)
        ≡ from (st (last_of l (cons s nil)) (s ∷ f) fs n) rest
  from-statement (words {t} {ts} {b} w ws k) d l f fs n rest o =
      let line = block_to_string d b ++ (b'\n' ∷ rest) in
      simp append_assoc (
        from-indent d (st l f fs n) (t ++ (join_more ts ++ line))
        ∙ from-first l f fs n (join_more ts ++ line) o w
            (Ends-join_more ts line (Ends-block d b (b'\n' ∷ rest)))
        ∙ from-join_more f fs n ts (t ∷ []) line ws (Ends-block d b (b'\n' ∷ rest))
        ∙ from-block k d (t ∷ ts) f fs n (b'\n' ∷ rest)
        ∙ from-blank b'\n' _ rest refl)

  pub from-block :
      {b : ChildBlock} (w : IsBlock b) (d : ℕ) (ts : List Text) (f : Frame) (fs : List Frame)
      (n : ℕ) (rest : Text)
      → from (st normal (statement ts null ∷ f) fs n) (block_to_string d b ++ rest)
        ≡ from (st (last_of_block b) (statement ts b ∷ f) fs n) rest
  from-block without d ts f fs n rest = from-semicolon ts f fs n rest
  from-block (within {c} w) d ts f fs n rest =
      let inner = (statement ts (block nil) ∷ f) ∷ fs in
      let ending = indent d ++ (b'}' ∷ rest) in
      simp append_assoc (
        from-blank b' ' _ _ refl
        ∙ from-open ts f fs n (b'\n' ∷ (config_to_string (d + 1) c ++ ending))
        ∙ from-blank b'\n' (st start_block [] inner (n + 1)) (config_to_string (d + 1) c ++ ending)
            refl
        ∙ from-config w (d + 1) start_block [] inner (n + 1) ending tt
        ∙ from-indent d (st (last_of start_block c) (push_all c []) inner (n + 1)) (b'}' ∷ rest)
        ∙ from-close (last_of start_block c) ts c f fs n rest (last_of-Closes start_block c tt))

-- The end of the input behind a configuration.
from-end :
    (l : TokenType) (f : Frame) → Ended l → from (st l f [] 0) [] ≡ some (accepted (of_frame f))
unfolding from loop parse_token step root
from-end start f h = refl
from-end statement_end f h = refl
from-end end_block f h = refl
from-end start_block f h = elim h [ ]
from-end normal f h = elim h [ ]
from-end TokenType.comment f h = elim h [ ]
from-end eof f h = elim h [ ]
from-end TokenType.error f h = elim h [ ]

pub last_of-Ended : (l : TokenType) (c : NginxConfig) → Ended l → Ended (last_of l c)
last_of-Ended l nil h = h
last_of-Ended l (cons (statement ts null) c) h = last_of-Ended statement_end c tt
last_of-Ended l (cons (statement ts (block b)) c) h = last_of-Ended end_block c tt

-- `Parse` accepts what `ToString` writes of a configuration, at any depth, and gives that
-- configuration back, if each of its statements has a token and each token is a word that does not
-- begin with one of the bytes `{ } # " ' ;` or a blank and holds none of `; { }`, space, tab and
-- newline, or a text in double quotes that holds no other.
pub parse-to_string :
    (c : NginxConfig) (depth : ℕ)
    → IsConfig c
    → parse (config_to_string depth c) ≡ some (accepted c)
unfolding parse from
parse-to_string c depth w =
    let read = from-config w depth start [] [] 0 [] tt in
    let ends = from-end (last_of start c) (push_all c []) (last_of-Ended start c tt) in
    ap (λ t. loop (length t + 1) initial t) (sym (append-nil (config_to_string depth c)))
    ∙ read
    ∙ ends
    ∙ ap (λ k. some (accepted k)) (of_frame-push_all c)
