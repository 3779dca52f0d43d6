-- ===== src/Http/RequestParser/Accepting.antt =====
-- The parser accepts what the grammar has.
use cs.Prelude.{ℕ, ◌≡◌, refl, ap, ◌∙◌, true, false, List, [], ◌∷◌, ◌++◌, arith, Text}
use cs.OrderedMap
use cs.OrderedMap.{OrderedMap}
use cs.Http.Request.{Request}
use cs.Http.RequestParser.{
  method, header_line_start, header_lws, expecting_newline_2, expecting_newline_3, http_version_h,
  initial, good, is_control, push_digit, consume_in, feed,
}
use cs.Http.RequestParser.CharClasses.{IsNumber, ne_by_test}
use cs.Http.RequestParser.Pieces.{
  at, number, number_lem, feed-token, feed-uri, feed-major, feed-minor, feed-header_line,
  feed-value,
}
use cs.Http.RequestParser.Grammar.{
  Line, named, folded, Head, is_lws, IsBlanks, IsFolded, render_line, render_lines, render_numbers,
  render_head, store_line, store_lines, IsLine, AreLines, render_request_line, IsRequestLine,
  IsHead, apply_request_line, apply_head,
}

feed-blanks :
    (b rest k v : Text) (req : Request)
    → IsBlanks b
    → feed (at header_lws k v) req (b ++ rest) ≡ feed (at header_lws k v) req rest
unfolding feed consume_in
feed-blanks [] rest k v req h = refl
feed-blanks (c ∷ b) rest k v req (p, h) = ground (arith, feed-blanks b rest k v req h)

feed-folded_value :
    (w rest : Text) (req : Request)
    → IsFolded w
    → feed (at header_lws [] []) req (w ++ (b'\r' ∷ b'\n' ∷ rest))
      ≡ feed (at expecting_newline_2 [] w) req (b'\n' ∷ rest)
unfolding feed consume_in
feed-folded_value [] rest req h = refl
feed-folded_value (c ∷ w) rest req (n, (p, h)) = ground (
  arith,
  ne_by_test is_control c b'\r' p (unfold is_control in refl),
  feed-value w [] (c ∷ []) (b'\n' ∷ rest) req h,
)

start_folded :
    (c : ℕ) (rest : Text) (req : Request)
    → OrderedMap.is_empty req.headers_ ≡ false
    → is_lws c ≡ true
    → feed (at header_line_start [] []) req (c ∷ rest) ≡ feed (at header_lws [] []) req rest
unfolding feed consume_in
start_folded c rest req n f = ground arith

pub feed-line :
    (l : Line) (rest : Text) (req : Request)
    → IsLine req.headers_ l
    → feed (at header_line_start [] []) req (render_line l rest)
      ≡ feed (at header_line_start [] []) (record req { headers_ = store_line l req.headers_ }) rest
feed-line (named first others value) rest req (t, p) =
    feed-header_line first others value rest req t p
feed-line (folded first blanks value) rest req (n, f, b, w) =
    start_folded first (blanks ++ (value ++ (b'\r' ∷ b'\n' ∷ rest))) req n f
    ∙ feed-blanks blanks (value ++ (b'\r' ∷ b'\n' ∷ rest)) [] [] req b
    ∙ feed-folded_value value rest req w
    ∙ unfold feed consume_in in refl

feed-render_lines :
    (ls : List Line) (rest : Text) (req : Request)
    → AreLines req.headers_ ls
    → feed (at header_line_start [] []) req (render_lines ls rest) ≡ record {
      result = good;
      rest = rest;
      parser = at expecting_newline_3 [] [];
      request = record req { headers_ = store_lines ls req.headers_ };
    }
feed-render_lines [] rest req w = unfold feed consume_in in refl
feed-render_lines (l ∷ ls) rest req (i, w) =
    feed-line l (render_lines ls rest) req i ∙ feed-render_lines ls rest _ w

feed-render_numbers :
    (h : Head) (rest : Text) (req : Request)
    → IsNumber (h.major ∷ h.majors)
    → IsNumber (h.minor ∷ h.minors)
    → feed (at http_version_h [] []) req (b'H' ∷ b'T' ∷ b'T' ∷ b'P' ∷ b'/' ∷ render_numbers h rest)
      ≡ feed
          (at header_line_start [] [])
          (record req {
            http_version_major = number 0 (h.major ∷ h.majors);
            http_version_minor = number 0 (h.minor ∷ h.minors);
          })
          rest
unfolding feed consume_in
feed-render_numbers h rest req major minor =
    let read_major = record req { http_version_major = number 0 (h.major ∷ h.majors) } in
    ground (
      arith,
      major.0,
      minor.0,
      feed-major [] [] h.majors (h.minor ∷ (h.minors ++ (b'\r' ∷ b'\n' ∷ rest)))
          (record req { http_version_major = push_digit 0 h.major; http_version_minor = 0 })
          major.1,
      feed-minor [] [] h.minors (b'\n' ∷ rest)
          (record read_major { http_version_minor = push_digit 0 h.minor }) minor.1,
    )

pub feed-render_request_line :
    (h : Head) (rest : Text) (req : Request)
    → IsRequestLine h
    → feed initial req (render_request_line h rest)
      ≡ feed (at header_line_start [] []) (apply_request_line h req) rest
feed-render_request_line h rest req w =
    let numbers : record req {
      uri_ = req.uri_ ++ h.uri;
      http_version_major = number 0 (h.major ∷ h.majors);
      http_version_minor = number 0 (h.minor ∷ h.minors);
    }
        ≡ apply_request_line h req =
      rw (number_lem (h.major ∷ h.majors), number_lem (h.minor ∷ h.minors)) refl in
    let version = b'H' ∷ b'T' ∷ b'T' ∷ b'P' ∷ b'/' ∷ render_numbers h rest in
    let first : feed initial req (render_request_line h rest)
        ≡ feed (at method [] []) req (h.others ++ (b' ' ∷ (h.uri ++ (b' ' ∷ version)))) =
      unfold feed consume_in in rw w.method.0 in
    first
    ∙ feed-token [] [] h.others (h.uri ++ (b' ' ∷ version)) req w.method.1
    ∙ feed-uri [] [] h.uri version req w.uri
    ∙ feed-render_numbers h rest _ w.major w.minor
    ∙ ap (λ r. feed (at header_line_start [] []) r rest) numbers

-- Whatever stands behind it, a head of the grammar is accepted at its end.
pub feed-render_head :
    (h : Head) (rest : Text) (req : Request)
    → IsHead req.headers_ h
    → feed initial req (render_head h rest) ≡ record {
      result = good;
      rest = rest;
      parser = at expecting_newline_3 [] [];
      request = apply_head h req;
    }
feed-render_head h rest req (w, lines) =
    feed-render_request_line h (render_lines h.lines rest) req w
    ∙ feed-render_lines h.lines rest _ lines
