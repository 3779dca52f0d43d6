-- ===== src/Session/BareNewlines.antt =====
-- A request whose lines end with a newline alone.
use cs.Prelude.{
  ℕ, zero, suc, ◌+◌, ◌<◌, ◌≡◌, refl, ◌∙◌, ap, arith, true, false, List, [], ◌∷◌, ◌++◌, append_assoc,
  some, ltb, leb, Text, length, length-append, drop, take, take-append, subst, ◌≤◌, ◌*◌,
}
use cs.Prelude.Int.{pos}
use cs.Boost.{Boost, substitute}
use cs.Strings.{back_is, up_to_nul}
use cs.Http.Request.{Request, MethodType}
use cs.Http.RequestParser.{initial, good, expecting_newline_3}
use cs.Http.RequestParser.Pieces.{at}
use cs.Http.RequestParser.RoundTrip.{
  RequestHead, Header, render, render_headers, render_version, IsWellFormed, HasNoNul, method_name,
  parsed_request, parse-render,
}
use cs.Http.Reply.{Reply, to_buffers}
use cs.Handler.{RequestHandler}
use cs.Handler.Virtual.{replied}
use cs.Handler.Status.{Statics, count_request}
use cs.Dispatcher.{dispatch}
use cs.Session.{
  Session, Server, max_length, returned, ends_with_crlf, trim_loop, format_text, strcpy, input_of,
  read_input, handle_read,
}
use cs.Session.Serving.{served, recorded, on_good-dispatch}

abbrev pub crlf : Text
crlf = b'\r' ∷ b'\n' ∷ []

-- The text is the head `r` with a newline alone at the end of each line.
pub record IsBare (r : RequestHead) (s : Text) : Type 0 where
  pub lines : substitute b'\n' crlf s ≡ render r []
  pub last : back_is b'\n' s ≡ true
  pub bare : ends_with_crlf s ≡ false

render_headers-append :
    (hs : List Header) (a b : Text) → render_headers hs a ++ b ≡ render_headers hs (a ++ b)
render_headers-append [] a b = refl
render_headers-append (h ∷ hs) a b =
    append_assoc (h.first ∷ h.others)
      (b':' ∷ b' ' ∷ (h.value ++ (b'\r' ∷ b'\n' ∷ render_headers hs a))) b
    ∙ ap (λ t. (h.first ∷ h.others) ++ (b':' ∷ b' ' ∷ t))
        (append_assoc h.value (b'\r' ∷ b'\n' ∷ render_headers hs a) b
          ∙ ap (λ t. h.value ++ (b'\r' ∷ b'\n' ∷ t)) (render_headers-append hs a b))

render_version-append :
    (r : RequestHead) (a b : Text) → render_version r a ++ b ≡ render_version r (a ++ b)
render_version-append r a b =
    ap (λ t. b'H' ∷ b'T' ∷ b'T' ∷ b'P' ∷ b'/' ∷ r.major ∷ t)
      (append_assoc r.majors (b'.' ∷ r.minor ∷ (r.minors ++ (b'\r' ∷ b'\n' ∷ a))) b
        ∙ ap (λ t. r.majors ++ (b'.' ∷ r.minor ∷ t)) (append_assoc r.minors (b'\r' ∷ b'\n' ∷ a) b))

render-append : (r : RequestHead) (a b : Text) → render r a ++ b ≡ render r (a ++ b)
render-append r a b =
    let version = render_version r (render_headers r.headers a) in
    ap (◌∷◌ r.first) (
      append_assoc r.others (b' ' ∷ (r.uri ++ (b' ' ∷ version))) b
      ∙ ap (λ t. r.others ++ (b' ' ∷ t))
          (append_assoc r.uri (b' ' ∷ version) b
            ∙ ap (λ t. r.uri ++ (b' ' ∷ t))
                (render_version-append r (render_headers r.headers a) b
                  ∙ ap (render_version r) (render_headers-append r.headers a b))))

trim_loop-same : (fuel : ℕ) (s : Text) → back_is b'\n' s ≡ true → trim_loop fuel s ≡ s
unfolding trim_loop
trim_loop-same zero s h = refl
trim_loop-same (suc fuel) s h = ground arith

format_text-bare :
    (boost : Boost) (r : RequestHead) (s : Text) → IsBare r s → format_text boost s ≡ render r crlf
unfolding format_text
format_text-bare boost r s b =
    ap (λ t. boost.replace_all t (b'\n' ∷ []) crlf ++ crlf) (trim_loop-same (length s) s b.last)
    ∙ ap (λ t. t ++ crlf) (boost.replace_all_byte s b'\n' crlf ∙ b.lines)
    ∙ render-append r [] crlf

up_to_nul-same : (s : Text) → HasNoNul s → up_to_nul s ≡ s
unfolding up_to_nul
up_to_nul-same [] h = refl
up_to_nul-same (c ∷ s) (n, h) = ground (arith, up_to_nul-same s h)

strcpy-fits :
    (data_ s : Text)
    → HasNoNul s
    → length s < max_length
    → strcpy data_ s ≡ some (s ++ (0 ∷ drop (length s + 1) data_))
unfolding strcpy
strcpy-fits data_ s clean fits =
    let room : leb (length s + 1) max_length ≡ true = ground arith in
    rw (up_to_nul-same s clean, room) refl

substitute-length : (c : ℕ) (s : Text) → length (substitute c crlf s) ≤ 2 * length s
substitute-length c [] = omega arith
substitute-length c (d ∷ s) = ground (arith, substitute-length c s)

bare_long : (r : RequestHead) (s : Text) → IsBare r s → ltb (length s) 2 ≡ false
bare_long r s b =
    let version = render_version r (render_headers r.headers []) in
    let size : length (render r []) ≤ 2 * length s =
      subst (λ t. length t ≤ 2 * length s) b.lines (substitute-length b'\n' s) in
    let large : 4 ≤ length (render r []) = omega (
      arith,
      length-append r.others (b' ' ∷ (r.uri ++ (b' ' ∷ version))),
      length-append r.uri (b' ' ∷ version),
    ) in
    ground (arith, size, large)

-- A session that has received `s`, with `tail` left in its memory.
abbrev pub bare_session : Text → Text → Request → Session
bare_session s tail req = record { data_ = s ++ tail; request_ = req; request_parser_ = initial }

-- What `strcpy` leaves behind the formatted text.
abbrev pub behind : RequestHead → Text → Text → Text
behind r s tail = drop (length (render r crlf) + 1) (s ++ tail)

module _ (m : MethodType) (r : RequestHead) (s tail : Text) (req : Request) where
  read_bare :
      (boost : Boost)
      → IsBare r s
      → IsWellFormed r
      → r.first ∷ r.others ≡ method_name m
      → HasNoNul (render r crlf)
      → length (render r crlf) < max_length
      → read_input boost (bare_session s tail req) (length s)
        ≡ some (record {
          memory = render r crlf ++ (0 ∷ behind r s tail);
          parsed = record {
            result = good;
            rest = crlf;
            parser = at expecting_newline_3 [] [];
            request = parsed_request m r crlf req;
          };
        })
  unfolding read_input
  read_bare boost b w e n fits =
      let all_read : take (length s) (s ++ tail) ≡ s = take-append s tail in
      let formatted : format_text boost (take (length s) (s ++ tail)) ≡ render r crlf =
        ap (format_text boost) all_read ∙ format_text-bare boost r s b in
      let other : ends_with_crlf (take (length s) (s ++ tail)) ≡ false =
        ap ends_with_crlf all_read ∙ b.bare in
      let copied = strcpy-fits (s ++ tail) (render r crlf) n fits in
      rw (other, formatted, copied)
        (ap (input_of (render r crlf ++ (0 ∷ behind r s tail)))
          (parse-render m r crlf (behind r s tail) req w e n))

  -- A well-formed request with one of the nine methods, a newline alone at the end of each line and no
  -- NUL in it is served by a session whose parser is fresh as the one with "\r\n" there and one more
  -- such end of line for its body, if this fits into the session's memory: if the handler that the
  -- dispatcher finds for the URI replies to it when it has been counted once, `handle_read` returns 0,
  -- writes the buffers of the reply, and records its code under the URI.
  pub handle_read-bare :
      (fuel : ℕ) (server : Server) (h : RequestHandler) (statics after : Statics) (reply : Reply)
      → IsBare r s
      → IsWellFormed r
      → r.first ∷ r.others ≡ method_name m
      → HasNoNul (render r crlf)
      → length (render r crlf) < max_length
      → dispatch server.dispatcher_ (parsed_request m r crlf req).uri_ ≡ some h
      → server.handle_request h (parsed_request m r crlf req) (count_request statics)
        ≡ replied reply after
      → handle_read (suc fuel) server false (length s) (bare_session s tail req) statics
        ≡ some (
            returned
              (pos 0)
              (some (to_buffers reply))
              (served m r crlf (behind r s tail) req)
              (recorded (parsed_request m r crlf req).uri_ reply after))
  unfolding handle_read
  handle_read-bare fuel server h statics after reply b w e n fits found answer =
      let enough : ltb (length (take (length s) (s ++ tail))) 2 ≡ false =
        ap (λ t. ltb (length t) 2) (take-append s tail) ∙ bare_long r s b in
      rw
        (
          enough,
          read_bare server.boost b w e n fits,
          on_good-dispatch m r crlf (behind r s tail) req server h (count_request statics) after
              reply found answer,
        )
        refl
