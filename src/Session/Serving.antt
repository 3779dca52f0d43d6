-- ===== src/Session/Serving.antt =====
-- What `handle_read` does with a whole request.
use cs.Prelude.{
  ℕ, suc, ◌≡◌, ◌<◌, refl, ap, ◌∙◌, arith, true, false, [], ◌∷◌, ◌++◌, some, ltb, Text, length,
  length-append, take, take-append,
}
use cs.Prelude.Int.{pos}
use cs.Boost.{Boost}
use cs.Http.Request.{Request, MethodType}
use cs.Http.RequestParser.{initial, good, expecting_newline_3}
use cs.Http.RequestParser.Pieces.{at}
use cs.Http.RequestParser.RoundTrip.{
  RequestHead, render, render_headers, render_version, IsWellFormed, HasNoNul, method_name,
  parsed_request, parse-render,
}
use cs.Http.Reply.{Reply, value, to_buffers}
use cs.Handler.{RequestHandler}
use cs.Handler.Virtual.{replied}
use cs.Handler.Status.{Statics, count_request, push_code}
use cs.Dispatcher.{dispatch}
use cs.Session.{
  Session, Server, Ending, returned, ends_with_crlf, Input, input_of, parse_memory, read_input,
  parsed_session, on_good, handle_read,
}

-- A session that has received `text`, with `junk` left in its memory.
abbrev pub received : Text → Text → Request → Session
received text junk req = record {
  data_ = text ++ (0 ∷ junk);
  request_ = req;
  request_parser_ = initial;
}

-- The session when the request has been read.
abbrev pub served : MethodType → RequestHead → Text → Text → Request → Session
served m r body junk req = record {
  data_ = render r body ++ (0 ∷ junk);
  request_ = parsed_request m r body req;
  request_parser_ = at expecting_newline_3 [] [];
}

-- The static members when the reply has been made.
abbrev pub recorded : Text → Reply → Statics → Statics
recorded uri reply after = record after {
  request_code_received_ = push_code uri (value reply.code_) after.request_code_received_;
}

read_input-crlf :
    (boost : Boost) (text junk : Text) (req : Request)
    → ends_with_crlf text ≡ true
    → read_input boost (received text junk req) (length text)
      ≡ parse_memory (received text junk req) (length text) (some (text ++ (0 ∷ junk)))
unfolding read_input
read_input-crlf boost text junk req line =
    let ends : ends_with_crlf (take (length text) (text ++ (0 ∷ junk))) ≡ true =
      ap ends_with_crlf (take-append text (0 ∷ junk)) ∙ line in
    rw ends refl

length_long : (a c : ℕ) (u v : Text) → 1 < length (a ∷ (u ++ (c ∷ v)))
length_long a c u v = omega (arith, length-append u (c ∷ v))

handle_read-crlf :
    (fuel : ℕ) (server : Server) (text junk : Text) (req : Request) (statics : Statics) (i : Input)
    (e : Ending)
    → 1 < length text
    → read_input server.boost (received text junk req) (length text) ≡ some i
    → i.parsed.result ≡ good
    → on_good server (parsed_session i) (count_request statics) ≡ e
    → handle_read (suc fuel) server false (length text) (received text junk req) statics ≡ some e
unfolding handle_read
handle_read-crlf fuel server text junk req statics i e long read fine done =
    let enough : ltb (length (take (length text) (text ++ (0 ∷ junk)))) 2 ≡ false =
      ap (λ t. ltb (length t) 2) (take-append text (0 ∷ junk)) ∙ ground arith in
    rw (enough, read, fine, done) refl

module _ (m : MethodType) (r : RequestHead) (body junk : Text) (req : Request) where
  abbrev whole : Text
  whole = render r body

  read_whole :
      (server : Server)
      → IsWellFormed r
      → r.first ∷ r.others ≡ method_name m
      → HasNoNul whole
      → ends_with_crlf whole ≡ true
      → read_input server.boost (received whole junk req) (length whole)
        ≡ some (record {
          memory = whole ++ (0 ∷ junk);
          parsed = record {
            result = good;
            rest = body;
            parser = at expecting_newline_3 [] [];
            request = parsed_request m r body req;
          };
        })
  read_whole server w e n line =
      read_input-crlf server.boost whole junk req line
      ∙ ap (input_of (whole ++ (0 ∷ junk))) (parse-render m r body junk req w e n)

  pub on_good-dispatch :
      (server : Server) (h : RequestHandler) (statics after : Statics) (reply : Reply)
      → dispatch server.dispatcher_ (parsed_request m r body req).uri_ ≡ some h
      → server.handle_request h (parsed_request m r body req) statics ≡ replied reply after
      → on_good server (served m r body junk req) statics
        ≡ returned
            (pos 0)
            (some (to_buffers reply))
            (served m r body junk req)
            (recorded (parsed_request m r body req).uri_ reply after)
  unfolding on_good
  on_good-dispatch server h statics after reply found answer = rw (found, answer) refl

-- A well-formed request with one of the nine methods and no NUL in it, whose text ends with "\r\n",
-- is served by a session whose parser is fresh, whatever the bytes behind it in the memory are: if
-- the handler that the dispatcher finds for its URI replies to it when it has been counted once,
-- `handle_read` returns 0, writes the buffers of this reply, and records its code under the URI,
-- without a call of itself.
pub handle_read-served :
    (fuel : ℕ) (m : MethodType) (r : RequestHead) (body junk : Text) (req : Request)
    (server : Server) (h : RequestHandler) (statics after : Statics) (reply : Reply)
    → IsWellFormed r
    → r.first ∷ r.others ≡ method_name m
    → HasNoNul (render r body)
    → ends_with_crlf (render r body) ≡ true
    → dispatch server.dispatcher_ (parsed_request m r body req).uri_ ≡ some h
    → server.handle_request h (parsed_request m r body req) (count_request statics)
      ≡ replied reply after
    → handle_read
        (suc fuel)
        server
        false
        (length (render r body))
        (received (render r body) junk req)
        statics
      ≡ some (
          returned
            (pos 0)
            (some (to_buffers reply))
            (served m r body junk req)
            (recorded (parsed_request m r body req).uri_ reply after))
handle_read-served fuel m r body junk req server h statics after reply w e n line found answer =
    handle_read-crlf fuel server (render r body) junk req statics _ _
      (length_long r.first b' ' r.others
        (r.uri ++ (b' ' ∷ render_version r (render_headers r.headers body))))
      (read_whole m r body junk req server w e n line) refl
      (on_good-dispatch m r body junk req server h (count_request statics) after reply found answer)
