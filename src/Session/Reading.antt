-- ===== src/Session/Reading.antt =====
-- `handle_read` calls itself once at most.
use cs.Prelude.{
  ℕ, suc, ◌-◌, ◌≡◌, ◌≢◌, refl, ◌∙◌, sym, ap, Bool, true, false, [], ◌∷◌, ◌++◌, append_assoc, Option,
  none, some, inl, inr, ltb, if_ind, Bool-cases, Option-cases, Text, text_eq_iff, codes, length,
  take, drop, take-append-drop,
}
use cs.Boost.{Boost}
use cs.Http.Request.{Request}
use cs.Http.RequestParser.{
  RequestParser, initial, ResultType, good, bad, indeterminate, Parsed, feed, c_str, parse_method,
  parse,
}
use cs.Http.RequestParser.Rereading.{feed-feed-bad}
use cs.Handler.Status.{Statics, count_request}
use cs.Session.{
  Session, Server, Ending, undefined, handler_threw, handler_hangs, returned, out_of_range,
  ends_with_crlf, format_text, strcpy, Input, input_of, parse_memory, read_input, parsed_session,
  return_minus_one, on_result, handle_read,
}
use cs.Session.Formatting.{feed-strcpy}

-- The input is what the parser makes of `count` bytes of `memory`.
record IsRead (s : Session) (count : ℕ) (memory : Text) (i : Input) : Type 0 where
  kept : i.memory ≡ memory
  request : Request
  fed : i.parsed ≡ feed s.request_parser_ request (take count memory)

none-ne-some : {A : Type 0} {a : A} → none ≢ some a
none-ne-some = λ e. cc

some-injective : {A : Type 0} {a b : A} → some a ≡ some b → a ≡ b
some-injective e = cc

input_of-some :
    (memory : Text) (p : Parsed) (i : Input)
    → input_of memory (some p) ≡ some i
    → (i.memory ≡ memory) × (i.parsed ≡ p)
input_of-some memory p i e = (cc, cc)

parse-some :
    (p : RequestParser) (req : Request) (memory : Text) (count : ℕ) (after : Parsed)
    → parse p req memory count ≡ some after
    → (req' : Request) × (after ≡ feed p req' (take count memory))
unfolding parse
parse-some p req memory count after e = elim (Option-cases (c_str memory)) [
  | inl fault ↦ absurd (none-ne-some (rw (fault, parse) at e))
  | inr (body, found) ↦ (
    parse_method (record req { body_ = body }) memory,
    sym (some-injective (rw (found, parse) at e)),
  )
]

parse_memory-IsRead :
    (s : Session) (count : ℕ) (memory : Text) (i : Input)
    → parse_memory s count (some memory) ≡ some i
    → IsRead s count memory i
parse_memory-IsRead s count memory i e =
    elim (Option-cases (parse s.request_parser_ s.request_ memory count)) [
      | inl fault ↦ absurd (none-ne-some (ap (input_of memory) (sym fault) ∙ e))
      | inr (after, read) ↦
          let (kept, parsed) = input_of-some memory after i (ap (input_of memory) (sym read) ∙ e) in
          let (request, fed) = parse-some s.request_parser_ s.request_ memory count after read in
          record { kept = kept; request = request; fed = parsed ∙ fed }
    ]

pub ends_with_crlf-append :
    (s : Text) → ends_with_crlf s ≡ true → (d : Text) × (s ≡ d ++ (b'\n' ∷ []))
unfolding ends_with_crlf
ends_with_crlf-append s h =
    let n = length s - 2 in
    let e : drop n s ≡ b'\r' ∷ b'\n' ∷ [] = (text_eq_iff (drop n s) (codes "\r\n")).0 h in
    (
      take n s ++ (b'\r' ∷ []),
      sym (take-append-drop n s)
          ∙ ap (λ t. take n s ++ t) e
          ∙ sym (append_assoc (take n s) (b'\r' ∷ []) (b'\n' ∷ [])),
    )

return_minus_one-ne-none : (o : Option Ending) → o ≢ none → return_minus_one o ≢ none
return_minus_one-ne-none none h = h
return_minus_one-ne-none (some (returned n b s st)) h = λ e. cc
return_minus_one-ne-none (some (out_of_range st)) h = λ e. cc
return_minus_one-ne-none (some undefined) h = λ e. cc
return_minus_one-ne-none (some handler_threw) h = λ e. cc
return_minus_one-ne-none (some handler_hangs) h = λ e. cc

-- The branches on the result give an ending where the recursive call, if it is made, does.
on_result-ne-none :
    (server : Server) (statics : Statics) (o : Option Input)
    (again : Session → Statics → Option Ending)
    → ((i : Input)
        → o ≡ some i
        → i.parsed.result ≡ indeterminate
        → again (parsed_session i) statics ≢ none)
    → on_result server statics o again ≢ none
on_result-ne-none server statics none again h = λ e. cc
on_result-ne-none server statics (some i) again h = go i.parsed.result refl
  where
    go : (r : ResultType) → i.parsed.result ≡ r → on_result server statics (some i) again ≢ none
    go good e = rw e (λ k. cc)
    go bad e = rw e (λ k. cc)
    go indeterminate e = rw e (return_minus_one-ne-none _ (h i refl e))

-- Bytes that end with "\r\n" are parsed where they stand.
read_input-IsRead :
    (boost : Boost) (s : Session) (count : ℕ) (i : Input)
    → ends_with_crlf (take count s.data_) ≡ true
    → read_input boost s count ≡ some i
    → IsRead s count s.data_ i
unfolding read_input
read_input-IsRead boost s count i line e = parse_memory-IsRead s count s.data_ i (rw line at e)

-- Formatted bytes are not the beginning of a request.
read_input-formatted :
    (boost : Boost) (s : Session) (count : ℕ) (i : Input)
    → s.request_parser_ ≡ initial
    → ends_with_crlf (take count s.data_) ≡ false
    → read_input boost s count ≡ some i
    → i.parsed.result ≢ indeterminate
unfolding read_input
read_input-formatted boost s count i fresh line e =
    let received = take count s.data_ in
    let text = format_text boost received in
    elim (Option-cases (strcpy s.data_ text)) [
      | inl overflow ↦ absurd (none-ne-some (rw (line, overflow) at e))
      | inr (memory, copied) ↦
          let read = parse_memory-IsRead s (length text) memory i (rw (line, copied) at e) in
          rw (read.fed, fresh) (feed-strcpy boost s.data_ received read.request copied)
    ]

bad-ne-indeterminate : bad ≢ indeterminate
bad-ne-indeterminate = λ e. cc

-- The same bytes, read again where the first reading left the parser, are refused.
reread_input :
    (boost : Boost) (s : Session) (count : ℕ) (i i' : Input)
    → s.request_parser_ ≡ initial
    → read_input boost s count ≡ some i
    → i.parsed.result ≡ indeterminate
    → read_input boost (parsed_session i) count ≡ some i'
    → i'.parsed.result ≢ indeterminate
reread_input boost s count i i' fresh e waiting e' =
    elim (Bool-cases (ends_with_crlf (take count s.data_))) [
      | inr other ↦ absurd (read_input-formatted boost s count i fresh other e waiting)
      | inl line ↦
          let (d, shape) = ends_with_crlf-append (take count s.data_) line in
          let read = read_input-IsRead boost s count i line e in
          let again = read_input-IsRead boost (parsed_session i) count i' (rw read.kept line) e' in
          let first : i.parsed ≡ feed initial read.request (d ++ (b'\n' ∷ [])) =
            read.fed
            ∙ ap (λ p. feed p read.request (take count s.data_)) fresh
            ∙ ap (feed initial read.request) shape in
          let second : i'.parsed
              ≡ feed (feed initial read.request (d ++ (b'\n' ∷ []))).parser again.request
                  (d ++ (b'\n' ∷ [])) =
            again.fed
            ∙ ap (λ p. feed p.parser again.request (take count i.memory)) first
            ∙ ap (feed (feed initial read.request (d ++ (b'\n' ∷ []))).parser again.request)
                (ap (take count) read.kept ∙ shape) in
          let refused =
            feed-feed-bad d read.request again.request (sym (ap (λ p. p.result) first) ∙ waiting) in
          λ k. bad-ne-indeterminate (sym (ap (λ p. p.result) second ∙ refused) ∙ k)
    ]

handle_read-step :
    (fuel : ℕ) (server : Server) (error : Bool) (count : ℕ) (s : Session) (statics : Statics)
    → ((i : Input)
        → read_input server.boost s count ≡ some i
        → i.parsed.result ≡ indeterminate
        → handle_read fuel server error count (parsed_session i) (count_request statics) ≢ none)
    → handle_read (suc fuel) server error count s statics ≢ none
unfolding handle_read
handle_read-step fuel server error count s statics again =
    if_ind (λ o. o ≢ none) error (λ e. cc)
      (if_ind (λ o. o ≢ none) (ltb (length (take count s.data_)) 2) (λ e. cc)
        (on_result-ne-none server (count_request statics) (read_input server.boost s count)
          (λ s' statics'. handle_read fuel server error count s' statics') again))

-- Two calls of `handle_read` are enough fuel.
pub handle_read-ne-none :
    (server : Server) (error : Bool) (count : ℕ) (s : Session) (statics : Statics)
    → s.request_parser_ ≡ initial
    → handle_read 2 server error count s statics ≢ none
handle_read-ne-none server error count s statics fresh =
    handle_read-step 1 server error count s statics (λ i e waiting.
      handle_read-step 0 server error count (parsed_session i) (count_request statics)
        (λ i' e' still. absurd (reread_input server.boost s count i i' fresh e waiting e' still)))
