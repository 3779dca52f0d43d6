-- ===== src/Http/RequestParser/Feeding.antt =====
-- Where a run of the parser must end.
use cs.Prelude.{◌≡◌, ◌≢◌, refl, ◌⊎◌, inl, inr, [], ◌∷◌, ◌++◌, arith, Text, ap, sym, ◌∙◌}
use cs.Http.Request.{Request}
use cs.Http.RequestParser.{
  State, method_start, header_line_start, RequestParser, ResultType, good, bad, indeterminate,
  is_not_token, is_control, is_decimal, consume_in, consume, Parsed, feed,
}
use cs.Http.RequestParser.Pieces.{at}
use cs.Http.RequestParser.Rereading.{feed-newline}

pub ResultType-cases : (r : ResultType) → (r ≡ indeterminate) ⊎ (r ≢ indeterminate)
ResultType-cases good = inr (λ e. cc)
ResultType-cases bad = inr (λ e. cc)
ResultType-cases indeterminate = inl refl

feed-append :
    (a b : Text) (p : RequestParser) (req : Request)
    → (feed p req a).result ≡ indeterminate
    → feed p req (a ++ b) ≡ feed (feed p req a).parser (feed p req a).request b
unfolding feed
feed-append [] b p req h = refl
feed-append (c ∷ a) b p req h =
    ground (arith, feed-append a b (consume p req c).parser (consume p req c).request)

feed_stop :
    (a b : Text) (p : RequestParser) (req : Request)
    → (feed p req a).result ≢ indeterminate
    → (feed p req (a ++ b)).result ≡ (feed p req a).result
unfolding feed
feed_stop [] b p req h = absurd (h refl)
feed_stop (c ∷ a) b p req h =
    ground (arith, feed_stop a b (consume p req c).parser (consume p req c).request)

consume_nul : (s : State) (p : RequestParser) (req : Request) → (consume_in s p req 0).result ≡ bad
unfolding consume_in is_not_token is_control is_decimal
consume_nul method_start p req = refl
consume_nul _ p req = ground arith

-- A NUL ends the run.
pub feed_nul :
    (a b : Text) (p : RequestParser) (req : Request)
    → (feed p req (a ++ (0 ∷ b))).result ≢ indeterminate
unfolding feed
feed_nul [] b p req h = ground (arith, consume_nul p.state_ p req)
feed_nul (c ∷ a) b p req h =
    ground (arith, feed_nul a b (consume p req c).parser (consume p req c).request)

-- So does an empty line.
pub feed_blank_line :
    (a : Text) (p : RequestParser) (req : Request)
    → (feed p req ((a ++ (b'\n' ∷ [])) ++ (b'\r' ∷ b'\n' ∷ []))).result ≢ indeterminate
feed_blank_line a p req =
    let line = a ++ (b'\n' ∷ []) in
    elim (ResultType-cases (feed p req line).result) [
      | inl more ↦ λ h.
          let ended : (feed (at header_line_start [] []) (feed p req line).request
                (b'\r' ∷ b'\n' ∷ [])).result
              ≡ good =
            unfold feed consume_in in refl in
          let e =
            ap (λ (q : Parsed). q.result) (feed-append line (b'\r' ∷ b'\n' ∷ []) p req more) in
          let start = feed-newline a p req more in
          let e' : (feed p req (line ++ (b'\r' ∷ b'\n' ∷ []))).result ≡ good =
            e
            ∙ ap (λ q. (feed q (feed p req line).request (b'\r' ∷ b'\n' ∷ [])).result) start
            ∙ ended in
          cc
      | inr stops ↦ λ h. stops (sym (feed_stop line (b'\r' ∷ b'\n' ∷ []) p req stops) ∙ h)
    ]
