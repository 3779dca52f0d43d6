-- ===== src/Tests/Parsing.antt =====
-- The request parser and the replies.
use cs.Prelude.{not, ◌≡◌, refl, arith, [], ◌∷◌, ◌++◌, some, ◌==◌, Text, codes, length}
use cs.Http.RequestParser.{is_not_token}
use cs.Http.RequestParser.Tokens.{is_tchar, is_not_token-is_tchar}
use cs.Tests.Sample.{All-eq-false}
use cs.OrderedMap
use cs.Http.Request.{Request, get_req}
use cs.Http.RequestParser.{
  consume_in, is_not_token, is_control, is_decimal, good, bad, feed, parse, initial,
  expecting_newline_3,
}
use cs.Http.RequestParser.Pieces.{at}
use cs.Http.RequestParser.RoundTrip.{
  RequestHead, Header, render, IsHeader, IsWellFormed, HasNoNul, parsed_request, parse-render,
}
use cs.Http.RequestParser.Grammar.{Head, named, folded, IsHead, apply_head}
use cs.Http.RequestParser.Exactness.{feed_iff}
use cs.Http.RequestParser.Rereading.{feed-feed-bad}
use cs.Http.RequestParser.Folding.{feed-line_start}

abbrev pub fresh_request : Request
fresh_request = record {
  method_ = get_req;
  uri_ = [];
  headers_ = [];
  body_ = [];
  http_version_major = 0;
  http_version_minor = 0;
}

abbrev host_header : Header
host_header = record { first = b'A'; others = codes "b"; value = codes "c d" }

abbrev pub echo_head : RequestHead
echo_head = record {
  first = b'G';
  others = codes "ET";
  uri = codes "/e";
  major = b'1';
  majors = [];
  minor = b'1';
  minors = [];
  headers = host_header ∷ [];
}

echo_text : render echo_head (codes "hi") ≡ codes "GET /e HTTP/1.1\r\nAb: c d\r\n\r\nhi"
echo_text = refl

abbrev host_header_IsHeader : IsHeader host_header
host_header_IsHeader = record {
  name = All-eq-false is_not_token (codes "Ab") (unfold is_not_token in refl);
  plain = All-eq-false is_control (codes "c d") (unfold is_control in refl);
}

pub echo_head-IsWellFormed : IsWellFormed echo_head
echo_head-IsWellFormed = record {
  token = All-eq-false is_not_token (codes "GET") (unfold is_not_token in refl);
  uri = unfold is_control in ((refl, refl), ((refl, refl), tt));
  major = unfold is_decimal in (refl, tt);
  major_fits = omega arith;
  minor = unfold is_decimal in (refl, tt);
  minor_fits = omega arith;
  headers = (host_header_IsHeader, tt);
}

abbrev echo_text_HasNoNul : HasNoNul (render echo_head (codes "hi"))
echo_text_HasNoNul = All-eq-false (λ c. c == 0) (render echo_head (codes "hi")) refl

parse-render_example :
    parse initial fresh_request
      (render echo_head (codes "hi") ++ (0 ∷ codes "junk"))
      (length (render echo_head (codes "hi")))
    ≡ some (record {
      result = good;
      rest = codes "hi";
      parser = at expecting_newline_3 [] [];
      request = parsed_request get_req echo_head (codes "hi") fresh_request;
    })
parse-render_example =
    parse-render get_req echo_head (codes "hi") (codes "junk") fresh_request echo_head-IsWellFormed
      refl echo_text_HasNoNul

abbrev folded_head : Head
folded_head = record {
  first = b'G';
  others = codes "ET";
  uri = codes "/e";
  major = b'1';
  majors = [];
  minor = b'0';
  minors = [];
  lines = named b'A' (codes "b") (codes "c d") ∷ folded b' ' (codes "\t") (codes "e") ∷ [];
}

folded_head-IsHead : IsHead [] folded_head
folded_head-IsHead = (
  record {
    method = All-eq-false is_not_token (codes "GET") (unfold is_not_token in refl);
    uri = unfold is_control in ((refl, refl), ((refl, refl), tt));
    major = unfold is_decimal in (refl, tt);
    minor = unfold is_decimal in (refl, tt);
  },
  (
    (
      All-eq-false is_not_token (codes "Ab") (unfold is_not_token in refl),
      All-eq-false is_control (codes "c d") (unfold is_control in refl),
    ),
    (
      (unfold OrderedMap.insert in refl, refl, (refl, tt), (refl, (unfold is_control in refl, tt))),
      tt,
    ),
  ),
)

feed_iff_example :
    ((feed initial fresh_request (codes "GET /e HTTP/1.0\r\nAb: c d\r\n \te\r\n\r\nhi")).result
      ≡ good)
    × ((feed initial fresh_request (codes "GET /e HTTP/1.0\r\nAb: c d\r\n \te\r\n\r\nhi")).rest
        ≡ codes "hi")
    × ((feed initial fresh_request (codes "GET /e HTTP/1.0\r\nAb: c d\r\n \te\r\n\r\nhi")).request
        ≡ apply_head folded_head fresh_request)
feed_iff_example =
    (feed_iff fresh_request (apply_head folded_head fresh_request)
        (codes "GET /e HTTP/1.0\r\nAb: c d\r\n \te\r\n\r\nhi") (codes "hi")).1
      (folded_head, folded_head-IsHead, refl, refl)

abbrev unfinished_line : Text
unfinished_line = codes "GET / HTTP/1.1\r"

feed-feed-bad_example :
    (feed
      (feed initial fresh_request (unfinished_line ++ codes "\n")).parser
      fresh_request
      (unfinished_line ++ codes "\n")).result
    ≡ bad
feed-feed-bad_example =
    feed-feed-bad unfinished_line fresh_request fresh_request
      (unfold feed consume_in is_not_token is_control is_decimal in refl)

feed-line_start_example :
    ((feed initial fresh_request (codes "GET / HTTP/1.1\r\nA: b\r\n")).parser.temp_key ≡ [])
    × ((feed initial fresh_request (codes "GET / HTTP/1.1\r\nA: b\r\n")).parser.temp_value ≡ [])
feed-line_start_example =
    feed-line_start (codes "GET / HTTP/1.1\r\nA: b\r\n") fresh_request
      (unfold feed consume_in is_not_token is_control is_decimal in refl)

abbrev request_with_header : Request
request_with_header = record fresh_request {
  headers_ = OrderedMap.insert (codes "A") (codes "b") [];
}

is_not_token-is_tchar_example : is_not_token b'@' ≡ not (is_tchar b'@')
is_not_token-is_tchar_example = is_not_token-is_tchar b'@'
