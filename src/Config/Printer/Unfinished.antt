-- ===== src/Config/Printer/Unfinished.antt =====
-- A word with no `;` behind it at the end of the input.
use native.Mathlib.Numerals.{add-one}
use cs.Prelude.{
  append-nil, ℕ, suc, ◌≡◌, refl, ◌∙◌, ap, false, [], ◌∷◌, ◌++◌, append_assoc, some, Text, All,
  length,
}
use cs.Config.Syntax.{NginxConfig}
use cs.Config.Lexer.{
  TokenType, start, normal, start_block, end_block, statement_end, eof, token, in_normal,
  ends_token, scan, parse_token,
}
use cs.Config.Lexer.Laws.{BeginsWord, scan-BeginsWord}
use cs.Config.Parser.{Frame, Round, of_frame, root, step, accepted, loop, parse}
use cs.Config.Printer.{config_to_string}
use cs.Config.Printer.Reading.{from}
use cs.Config.Printer.Statements.{IsConfig, st, last_of, push_all, of_frame-push_all, Ended}
use cs.Config.Printer.RoundTrip.{last_of-Ended, from-config}

scan_to_end :
    (w v : Text) → All (λ d. ends_token d ≡ false) w → scan in_normal v w ≡ token eof (v ++ w) []
unfolding scan
scan_to_end [] v h = rw append-nil
scan_to_end (d ∷ w) v (n, h) = rw n (scan_to_end w (v ++ (d ∷ [])) h ∙ rw append_assoc)

step-eof :
    (l : TokenType) (f : Frame) (v : Text)
    → Ended l
    → step (st l f [] 0) eof v ≡ Round.valid (of_frame f)
unfolding step root
step-eof start f v h = refl
step-eof statement_end f v h = refl
step-eof end_block f v h = refl
step-eof start_block f v h = elim h [ ]
step-eof normal f v h = elim h [ ]
step-eof TokenType.comment f v h = elim h [ ]
step-eof eof f v h = elim h [ ]
step-eof TokenType.error f v h = elim h [ ]

loop-word_at_end :
    (fuel : ℕ) (l : TokenType) (f : Frame) (c : ℕ) (w : Text)
    → Ended l
    → BeginsWord c
    → All (λ d. ends_token d ≡ false) w
    → loop (suc fuel) (st l f [] 0) (c ∷ w) ≡ some (accepted (of_frame f))
unfolding loop parse_token
loop-word_at_end fuel l f c w h b a =
    rw (scan-BeginsWord c w b, scan_to_end w (c ∷ []) a) (rw (step-eof l f (c ∷ w) h))

from-word_at_end :
    (l : TokenType) (f : Frame) (c : ℕ) (w : Text)
    → Ended l
    → BeginsWord c
    → All (λ d. ends_token d ≡ false) w
    → from (st l f [] 0) (c ∷ w) ≡ some (accepted (of_frame f))
unfolding from
from-word_at_end l f c w h b a =
    ap (λ k. loop k (st l f [] 0) (c ∷ w)) (add-one (length (c ∷ w)))
    ∙ loop-word_at_end (length (c ∷ w)) l f c w h b a

-- Where the input ends inside a word, the word is dropped: behind the printed text of any
-- configuration that can be read back, a word that begins a statement and that nothing ends is
-- accepted, and the configuration comes out without it.
pub parse-unfinished :
    (conf : NginxConfig) (c : ℕ) (w : Text)
    → IsConfig conf
    → BeginsWord c
    → All (λ d. ends_token d ≡ false) w
    → parse (config_to_string 0 conf ++ (c ∷ w)) ≡ some (accepted conf)
unfolding parse from
parse-unfinished conf c w k b a =
    from-config k 0 start [] [] 0 (c ∷ w) tt
    ∙ from-word_at_end (last_of start conf) (push_all conf []) c w (last_of-Ended start conf tt) b a
    ∙ ap (λ r. some (accepted r)) (of_frame-push_all conf)
