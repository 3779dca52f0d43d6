-- ===== src/Session/Refusing.antt =====
-- What `handle_read` does with bytes that are no request.
use cs.Prelude.{
  ℕ, suc, ◌-◌, ◌≡◌, ◌≢◌, refl, ◌∙◌, sym, ap, arith, true, false, ◌∷◌, ◌++◌, Option, some, ltb, Text,
  codes, text_eq_iff, length, length-drop, drop, take, take-append, subst,
}
use cs.Prelude.Int.{pos, negsuc}
use cs.Boost.{Boost}
use cs.Http.Request.{Request}
use cs.Http.Reply.{Reply, to_buffers}
use cs.Http.RequestParser.{
  RequestParser, initial, ResultType, good, bad, indeterminate, feed, parse_method,
}
use cs.Http.RequestParser.Grammar.{Head, IsHead, render_head}
use cs.Http.RequestParser.Exactness.{feed_iff}
use cs.Http.RequestParser.Rereading.{feed-feed-bad}
use cs.Http.RequestParser.RoundTrip.{HasNoNul, parse-memory}
use cs.Handler.{RequestHandler}
use cs.Handler.Virtual.{replied}
use cs.Handler.Status.{Statics, count_request}
use cs.Dispatcher.{dispatch}
use cs.Session.{
  Session, Server, Ending, returned, ends_with_crlf, Input, input_of, read_input, parsed_session,
  as_bad, return_minus_one, on_result, on_bad, handle_read,
}
use cs.Session.Reading.{ends_with_crlf-append}
use cs.Session.Serving.{received}

-- A session whose memory begins with `text` and a NUL.
abbrev holding : Text → Text → RequestParser → Request → Session
holding text junk p req = record { data_ = text ++ (0 ∷ junk); request_ = req; request_parser_ = p }

-- What the parser makes of the text.
abbrev input_from : Text → Text → RequestParser → Request → Input
input_from text junk p req = record {
  memory = text ++ (0 ∷ junk);
  parsed = feed p (parse_method (record req { body_ = text }) (text ++ (0 ∷ junk))) text;
}

long_enough : (text : Text) → ends_with_crlf text ≡ true → ltb (length text) 2 ≡ false
unfolding ends_with_crlf
long_enough text line =
    let n = length text - 2 in
    let two : length (drop n text) ≡ 2 =
      ap length ((text_eq_iff (drop n text) (codes "\r\n")).0 line) in
    ground (arith, two, length-drop n text)

module _ (text junk : Text) (line : ends_with_crlf text ≡ true) (clean : HasNoNul text) where
  read_holding :
      (boost : Boost) (p : RequestParser) (req : Request)
      → read_input boost (holding text junk p req) (length text) ≡ some (input_from text junk p req)
  unfolding read_input
  read_holding boost p req =
      let ends : ends_with_crlf (take (length text) (text ++ (0 ∷ junk))) ≡ true =
        ap ends_with_crlf (take-append text (0 ∷ junk)) ∙ line in
      rw ends (ap (input_of (text ++ (0 ∷ junk))) (parse-memory p req text junk clean))

  handle_holding :
      (fuel : ℕ) (server : Server) (p : RequestParser) (req : Request) (statics : Statics)
      → handle_read (suc fuel) server false (length text) (holding text junk p req) statics
        ≡ on_result server
            (count_request statics)
            (some (input_from text junk p req))
            (λ s' statics'. handle_read fuel server false (length text) s' statics')
  unfolding handle_read
  handle_holding fuel server p req statics =
      let enough : ltb (length (take (length text) (text ++ (0 ∷ junk)))) 2 ≡ false =
        ap (λ t. ltb (length t) 2) (take-append text (0 ∷ junk)) ∙ long_enough text line in
      rw (enough, read_holding server.boost p req) refl

-- Bytes that are read again are refused.
feed-again :
    (text : Text) (req req' : Request)
    → ends_with_crlf text ≡ true
    → (feed initial req text).result ≡ indeterminate
    → (feed (feed initial req text).parser req' text).result ≡ bad
feed-again text req req' line =
    let (d, shape) = ends_with_crlf-append text line in
    subst
      (λ t.
        (feed initial req t).result ≡ indeterminate
        → (feed (feed initial req t).parser req' t).result ≡ bad)
      (sym shape) (feed-feed-bad d req req')

-- The session has replied, after one reading of the bytes or after two.
pub data Refused (reply : Reply) (statics : Statics) : Option Ending → Type 0 where
  at_once :
      (s : Session)
      → Refused reply statics
          (some (returned (pos 1) (some (to_buffers reply)) s (count_request statics)))
  reread :
      (s : Session)
      → Refused reply statics (
          some (
            returned
              (negsuc 0)
              (some (to_buffers reply))
              s
              (count_request (count_request statics))))

module _ (server : Server) (g : RequestHandler) (reply : Reply)
    (found : dispatch server.dispatcher_ (codes "/badrequest") ≡ some g)
    (answers : (q : Request) (statics : Statics)
      → server.handle_request g q statics ≡ replied reply statics) where
  on_bad-replied :
      (s : Session) (statics : Statics)
      → on_bad server s statics ≡ returned (pos 1) (some (to_buffers reply)) (as_bad s) statics
  unfolding on_bad
  on_bad-replied s statics = rw (found, answers) refl

  on_result-bad :
      (statics : Statics) (i : Input) (again : Session → Statics → Option Ending)
      → i.parsed.result ≡ bad
      → on_result server statics (some i) again
        ≡ some (returned (pos 1) (some (to_buffers reply)) (as_bad (parsed_session i)) statics)
  on_result-bad statics i again e = rw (e, on_bad-replied (parsed_session i) statics) refl

  no_head-ne-good :
      (text junk : Text) (req : Request)
      → ((h : Head) (rest : Text) → IsHead req.headers_ h → text ≢ render_head h rest)
      → (input_from text junk initial req).parsed.result ≢ good
  unfolding parse_method
  no_head-ne-good text junk req no_head accepted =
      let read = parse_method (record req { body_ = text }) (text ++ (0 ∷ junk)) in
      let fed = feed initial read text in
      let (h, is_head, whole, applied) =
        (feed_iff read fed.request text fed.rest).0 (accepted, refl, refl) in
      no_head h fed.rest is_head whole

  refused :
      (text junk : Text) (req : Request) (statics : Statics)
      → ends_with_crlf text ≡ true
      → HasNoNul text
      → (r : ResultType) → (input_from text junk initial req).parsed.result ≡ r
      → r ≢ good
      → Refused reply statics
          (handle_read 2 server false (length text) (received text junk req) statics)
  refused text junk req statics line clean good e n = absurd (n refl)
  refused text junk req statics line clean bad e n =
      subst (Refused reply statics)
        (sym (
          handle_holding text junk line clean 1 server initial req statics
          ∙ on_result-bad (count_request statics) (input_from text junk initial req)
              (handle_read 1 server false (length text)) e))
        (at_once _)
  refused text junk req statics line clean indeterminate e n =
      let i = input_from text junk initial req in
      let counted = count_request statics in
      let again : Session → Statics → Option Ending =
        λ s' statics'. handle_read 1 server false (length text) s' statics' in
      let first : on_result server counted (some i) again
          ≡ return_minus_one (again (parsed_session i) counted) =
        rw e refl in
      let second =
        handle_holding text junk line clean 0 server i.parsed.parser i.parsed.request counted
        ∙ on_result-bad (count_request counted)
            (input_from text junk i.parsed.parser i.parsed.request)
            (handle_read 0 server false (length text)) (feed-again text _ _ line e) in
      subst (Refused reply statics)
        (sym (
          handle_holding text junk line clean 1 server initial req statics
          ∙ first
          ∙ ap return_minus_one second))
        (reread _)

  -- Bytes that end with "\r\n", hold no NUL and do not begin with a head of the grammar are answered
  -- by a new session, with a NUL behind them in its memory, with the reply of the handler of
  -- `/badrequest`, if that handler replies alike to every request: `handle_read` returns 1 and has
  -- counted the request once, or returns -1 and has counted it twice.
  pub handle_read-Refused :
      (text junk : Text) (req : Request) (statics : Statics)
      → ends_with_crlf text ≡ true
      → HasNoNul text
      → ((h : Head) (rest : Text) → IsHead req.headers_ h → text ≢ render_head h rest)
      → Refused reply statics
          (handle_read 2 server false (length text) (received text junk req) statics)
  handle_read-Refused text junk req statics line clean no_head =
      refused text junk req statics line clean (input_from text junk initial req).parsed.result refl
        (no_head-ne-good text junk req no_head)
