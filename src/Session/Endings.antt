-- ===== src/Session/Endings.antt =====
-- How `handle_read` ends.
use cs.Prelude.{
  ℕ, zero, suc, ◌≡◌, ◌≢◌, refl, Bool, Option, none, some, inl, inr, ltb, if_ind, Option-cases,
  length, take, codes,
}
use cs.Prelude.Int.{ℤ, pos}
use cs.Http.Request.{Request}
use cs.Http.RequestParser.{initial, ResultType, good, bad, indeterminate}
use cs.Http.Reply.{Reply, value, to_buffers}
use cs.Handler.{RequestHandler}
use cs.Handler.Virtual.{Handled, replied, failed, faulty, unending}
use cs.Handler.Status.{Statics, count_request, push_code}
use cs.Dispatcher.{dispatch}
use cs.Session.{
  Session, Server, Ending, undefined, handler_threw, handler_hangs, returned, out_of_range, Input,
  read_input, as_bad, parsed_session, return_minus_one, after_handling, respond, on_good, on_bad,
  on_result, handle_read,
}
use cs.Session.Reading.{handle_read-ne-none}

-- No call of a handler hangs.
abbrev pub IsAnswering : Server → Type 0
IsAnswering server =
    (h : RequestHandler) (q : Request) (statics : Statics)
    → server.handle_request h q statics ≢ unending

-- The call of `handle_read` returns, throws or is undefined.
abbrev pub Comes : Option Ending → Type 0
Comes none = Unit
Comes (some e) = e ≢ handler_hangs

after_handling-Comes :
    (a : Handled) (n : ℤ) (s : Session) (f : Reply → Statics → Statics)
    → a ≢ unending
    → after_handling a (λ reply after. returned n (some (to_buffers reply)) s (f reply after))
      ≢ handler_hangs
after_handling-Comes (replied reply after) n s f h = λ e. cc
after_handling-Comes failed n s f h = λ e. cc
after_handling-Comes faulty n s f h = λ e. cc
after_handling-Comes unending n s f h = absurd (h refl)

respond-Comes :
    (server : Server) (q : Request) (o : Option RequestHandler) (statics : Statics) (n : ℤ)
    (s : Session) (f : Reply → Statics → Statics)
    → IsAnswering server
    → respond server q o statics
        (λ reply after. returned n (some (to_buffers reply)) s (f reply after))
      ≢ handler_hangs
respond-Comes server q none statics n s f h = λ e. cc
respond-Comes server q (some r) statics n s f h = after_handling-Comes _ n s f (h r q statics)

on_good-Comes :
    (server : Server) (s : Session) (statics : Statics)
    → IsAnswering server
    → on_good server s statics ≢ handler_hangs
unfolding on_good
on_good-Comes server s statics h =
    respond-Comes server s.request_ (dispatch server.dispatcher_ s.request_.uri_) statics (pos 0) s
      (λ reply after. record after {
        request_code_received_ =
            push_code s.request_.uri_ (value reply.code_) after.request_code_received_;
      })
      h

on_bad-Comes :
    (server : Server) (s : Session) (statics : Statics)
    → IsAnswering server
    → on_bad server s statics ≢ handler_hangs
unfolding on_bad
on_bad-Comes server s statics h =
    respond-Comes server (as_bad s).request_ (dispatch server.dispatcher_ (codes "/badrequest"))
      statics (pos 1) (as_bad s) (λ reply after. after) h

return_minus_one-Comes : (o : Option Ending) → Comes o → Comes (return_minus_one o)
return_minus_one-Comes none h = tt
return_minus_one-Comes (some (returned n b s st)) h = λ e. cc
return_minus_one-Comes (some (out_of_range st)) h = λ e. cc
return_minus_one-Comes (some undefined) h = λ e. cc
return_minus_one-Comes (some handler_threw) h = λ e. cc
return_minus_one-Comes (some handler_hangs) h = h

on_result-Comes :
    (server : Server) (statics : Statics) (o : Option Input)
    (again : Session → Statics → Option Ending)
    → IsAnswering server
    → ((s : Session) (after : Statics) → Comes (again s after))
    → Comes (on_result server statics o again)
on_result-Comes server statics none again h g = λ e. cc
on_result-Comes server statics (some i) again h g = go i.parsed.result refl
  where
    go : (r : ResultType) → i.parsed.result ≡ r → Comes (on_result server statics (some i) again)
    go good e = rw e (on_good-Comes server (parsed_session i) statics h)
    go bad e = rw e (on_bad-Comes server (parsed_session i) statics h)
    go indeterminate e = rw e (return_minus_one-Comes _ (g (parsed_session i) statics))

handle_read-Comes :
    (fuel : ℕ) (server : Server) (error : Bool) (count : ℕ) (s : Session) (statics : Statics)
    → IsAnswering server
    → Comes (handle_read fuel server error count s statics)
unfolding handle_read
handle_read-Comes zero server error count s statics h = tt
handle_read-Comes (suc fuel) server error count s statics h =
    if_ind Comes error (λ e. cc)
      (if_ind Comes (ltb (length (take count s.data_)) 2) (λ e. cc)
        (on_result-Comes server (count_request statics) (read_input server.boost s count) _ h
          (λ s' after. handle_read-Comes fuel server error count s' after h)))

-- From a session whose parser is fresh, `handle_read` comes to an end with one call of itself at most,
-- whatever the bytes received and the request are, if no call of a handler hangs: it returns, throws
-- or is undefined.
pub handle_read-ends :
    (server : Server) (error : Bool) (count : ℕ) (s : Session) (statics : Statics)
    → s.request_parser_ ≡ initial
    → IsAnswering server
    → (e : Ending) × (handle_read 2 server error count s statics ≡ some e) × (e ≢ handler_hangs)
handle_read-ends server error count s statics fresh h =
    elim (Option-cases (handle_read 2 server error count s statics)) [
      | inl out ↦ absurd (handle_read-ne-none server error count s statics fresh out)
      | inr (e, same) ↦ (e, same, (rw same at (handle_read-Comes 2 server error count s statics h)))
    ]
