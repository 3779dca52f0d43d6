-- ===== src/Http/RequestParser/Rereading.antt =====
-- What the parser does with the same bytes a second time, as `session::handle_read` feeds them
-- after `indeterminate`.
use cs.Prelude.{◌≡◌, refl, [], ◌∷◌, ◌++◌, inl, inr, arith, Text, ap, ◌==◌, ==_iff, Bool-cases}
use cs.Http.Request.{Request}
use cs.Http.RequestParser.{
  State, method_start, method, header_line_start, header_name, RequestParser, initial, bad,
  indeterminate, is_not_token, is_control, is_decimal, Consumed, consume_in, consume, feed,
}
use cs.Http.RequestParser.CharClasses.{ne_by_test}
use cs.Http.RequestParser.Pieces.{at}

-- A newline ends the parse or leads to the start of a header's line, with nothing read of it.
abbrev EndsLine : Consumed → Type 0
EndsLine c = (c.result ≡ indeterminate) → c.parser ≡ at header_line_start [] []

consume-newline :
    (s : State) (p : RequestParser) (req : Request) → EndsLine (consume_in s p req b'\n')
unfolding consume_in is_not_token is_control is_decimal
consume-newline method_start p req h = cc
consume-newline _ p req h = ground arith

pub feed-newline :
    (d : Text) (p : RequestParser) (req : Request)
    → (feed p req (d ++ (b'\n' ∷ []))).result ≡ indeterminate
    → (feed p req (d ++ (b'\n' ∷ []))).parser ≡ at header_line_start [] []
unfolding feed
feed-newline [] p req h = ground (arith, consume-newline p.state_ p req)
feed-newline (c ∷ d) p req h =
    ground (arith, feed-newline d (consume p req c).parser (consume p req c).request)

-- A line that went through as the method and the URI is refused as a header's name.
refuse_name :
    (cs k v j w : Text) (req req' : Request)
    → (feed (at method k v) req cs).result ≡ indeterminate
    → (feed (at method k v) req cs).parser ≡ at header_line_start [] []
    → (feed (at header_name j w) req' cs).result ≡ bad
unfolding feed consume_in
refuse_name [] k v j w req req' h e = ground (arith, ap (λ (p : RequestParser). p.state_) e)
refuse_name (c ∷ cs) k v j w req req' h e = elim (Bool-cases (c == b' ')) [
  | inl space ↦
      let same : c ≡ b' ' = (==_iff c b' ').0 space in rw same (unfold is_not_token in refl)
  | inr other ↦ elim (Bool-cases (is_not_token c)) [
    | inl refused ↦ ground arith
    | inr token ↦
        let colon = ne_by_test is_not_token c b':' token (unfold is_not_token in refl) in
        rw (colon, token)
          (refuse_name cs k v (j ++ (c ∷ [])) w req req' (rw (other, token) at h)
            (rw (other, token) at e))
  ]
]

refuse_again :
    (d : Text) (req req' : Request)
    → (feed initial req d).result ≡ indeterminate
    → (feed initial req d).parser ≡ at header_line_start [] []
    → (feed (at header_line_start [] []) req' d).result ≡ bad
unfolding feed consume_in
refuse_again [] req req' h e = ground (arith, ap (λ (p : RequestParser). p.state_) e)
refuse_again (c ∷ cs) req req' h e = elim (Bool-cases (is_not_token c)) [
  | inl refused ↦ ground arith
  | inr token ↦
      let cr = ne_by_test is_not_token c b'\r' token (unfold is_not_token in refl) in
      let sp = ne_by_test is_not_token c b' ' token (unfold is_not_token in refl) in
      let tab = ne_by_test is_not_token c b'\t' token (unfold is_not_token in refl) in
      ground (arith, refuse_name cs [] [] (c ∷ []) [] req req' (rw token at h) (rw token at e))
]

-- Bytes that end with a newline and that the fresh parser takes as the beginning of a request are
-- refused when the parser, in the state that it is left in, is fed the same bytes again, whatever
-- the request then holds.
pub feed-feed-bad :
    (d : Text) (req req' : Request)
    → (feed initial req (d ++ (b'\n' ∷ []))).result ≡ indeterminate
    → (feed (feed initial req (d ++ (b'\n' ∷ []))).parser req' (d ++ (b'\n' ∷ []))).result ≡ bad
feed-feed-bad d req req' h =
    let start = feed-newline d initial req h in
    rw start (refuse_again (d ++ (b'\n' ∷ [])) req req' h start)
