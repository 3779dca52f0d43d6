-- ===== src/Session.antt =====
-- `session` (include/session.h, src/session.cc). Logging has no effect on the state and is left
-- out, but for the null pointer that the call of `logMetrics` reads.
pub mod BareNewlines
pub mod Endings
pub mod Formatting
pub mod Reading
pub mod Refusing
pub mod Serving
use cs.Prelude.{
  ℕ, zero, suc, ◌+◌, ◌-◌, Bool, true, false, not, ◌&&◌, [], ◌∷◌, ◌++◌, List, Option, none, some,
  ltb, leb, ◌==◌, if◌then◌else◌, Text, codes, text_eq, length, take, drop,
}
use cs.Prelude.Int.{ℤ, pos, negsuc}
use cs.Boost.{Boost}
use cs.Strings.{back_is, pop_back, up_to_nul}
use cs.Http.Request.{Request}
use cs.Http.RequestParser.{
  RequestParser, ResultType, good, bad, indeterminate, Parsed, c_str, parse,
}
use cs.Http.Reply.{Reply, value, to_buffers}
use cs.Handler.{RequestHandler}
use cs.Handler.Virtual.{Handled, replied, failed, faulty, unending}
use cs.Handler.Status.{Statics, count_request, push_code}
use cs.Dispatcher.{RequestHandlerDispatcher, dispatch}

-- The members of a session that `handle_read` works on. `data_` is the array and the memory
-- behind it.
pub record Session : Type 0 where
  pub data_ : Text
  pub request_ : Request
  pub request_parser_ : RequestParser

-- What a session calls: the dispatcher's table and the virtual `HandleRequest`, which may change
-- the static members.
pub record Server : Type 0 where
  pub boost : Boost
  pub dispatcher_ : RequestHandlerDispatcher
  pub handle_request : RequestHandler → Request → Statics → Handled

-- How a call of `handle_read` ends: it returns a number with the buffers that it has given to
-- `async_write`, it throws `std::out_of_range`, its behaviour is undefined, or the call of the
-- handler throws or does not return.
pub data Ending : Type 0 where
  returned : ℤ → Option (List Text) → Session → Statics → Ending
  out_of_range : Statics → Ending
  undefined handler_threw handler_hangs : Ending

-- `enum { max_length = 1024 }`, the size of `data_`.
abbrev pub max_length : ℕ
max_length = 1024

-- `data_str.substr(data_str.size() - 2) == "\r\n"` for a text of two bytes at least.
unfoldable pub ends_with_crlf : Text → Bool
ends_with_crlf s = text_eq (drop (length s - 2) s) (codes "\r\n")

-- `while (data.length() > 1 && data.back() != '\n') data.pop_back();` on fuel.
unfoldable pub trim_loop : ℕ → Text → Text
unfolding back_is pop_back
trim_loop zero s = s
trim_loop (suc fuel) s =
    let rest = trim_loop fuel (pop_back s) in
    if ltb 1 (length s) && not (back_is b'\n' s) then rest else s

-- The text that `handle_read` makes of bytes that do not end with "\r\n".
unfoldable pub format_text : Boost → Text → Text
unfolding trim_loop
format_text boost s =
    boost.replace_all (trim_loop (length s) s) (codes "\n") (codes "\r\n") ++ codes "\r\n"

-- `strcpy(data_, text.c_str())`: the C string and its NUL, over what `data_` holds; past the end of
-- the array it is undefined, `none`.
unfoldable pub strcpy : Text → Text → Option Text
unfolding up_to_nul
strcpy data_ text =
    if leb (length (up_to_nul text) + 1) max_length
    then some (up_to_nul text ++ (0 ∷ drop (length (up_to_nul text) + 1) data_))
    else none

-- What the two branches on the line ends leave: `data_` and the result of `parse`.
pub record Input : Type 0 where
  pub memory : Text
  pub parsed : Parsed

abbrev pub input_of : Text → Option Parsed → Option Input
input_of memory none = none
input_of memory (some p) = some (record { memory = memory; parsed = p })

abbrev pub parse_memory : Session → ℕ → Option Text → Option Input
parse_memory s count none = none
parse_memory s count (some memory) =
    input_of memory (parse s.request_parser_ s.request_ memory count)

unfoldable pub read_input : Boost → Session → ℕ → Option Input
unfolding ends_with_crlf
read_input boost s count =
    let received = take count s.data_ in
    let text = format_text boost received in
    if ends_with_crlf received
    then parse_memory s count (some s.data_)
    else parse_memory s (length text) (strcpy s.data_ text)

-- The session behind `parse`.
abbrev pub parsed_session : Input → Session
parsed_session i = record {
  data_ = i.memory;
  request_ = i.parsed.request;
  request_parser_ = i.parsed.parser;
}

abbrev pub after_handling : Handled → (Reply → Statics → Ending) → Ending
after_handling (replied reply after) k = k reply after
after_handling failed k = handler_threw
after_handling faulty k = undefined
after_handling unending k = handler_hangs

-- The reply of the handler that was found, if any. With none a stock reply is made, and then
-- `handler->name` is read through the null pointer: undefined.
abbrev pub respond :
    Server → Request → Option RequestHandler → Statics → (Reply → Statics → Ending) → Ending
respond server request_ none statics k = undefined
respond server request_ (some h) statics k =
    after_handling (server.handle_request h request_ statics) k

-- `if (result == request_parser::good)`
unfoldable pub on_good : Server → Session → Statics → Ending
unfolding dispatch push_code to_buffers
on_good server s statics =
    respond server s.request_ (dispatch server.dispatcher_ s.request_.uri_) statics (λ reply after.
      returned (pos 0) (some (to_buffers reply)) s (record after {
        request_code_received_ =
            push_code s.request_.uri_ (value reply.code_) after.request_code_received_;
      }))

abbrev pub as_bad : Session → Session
as_bad s = record s { request_ = record s.request_ { uri_ = codes "/badrequest" } }

-- `else if (result == request_parser::bad)`
unfoldable pub on_bad : Server → Session → Statics → Ending
unfolding dispatch to_buffers
on_bad server s statics =
    respond server (as_bad s).request_ (dispatch server.dispatcher_ (codes "/badrequest")) statics
      (λ reply after. returned (pos 1) (some (to_buffers reply)) (as_bad s) after)

-- `handle_read(error, bytes_transferred); ... return -1;`: what the inner call returns is dropped.
abbrev pub return_minus_one : Option Ending → Option Ending
return_minus_one none = none
return_minus_one (some (returned n buffers s statics)) =
    some (returned (negsuc 0) buffers s statics)
return_minus_one (some (out_of_range statics)) = some (out_of_range statics)
return_minus_one (some undefined) = some undefined
return_minus_one (some handler_threw) = some handler_threw
return_minus_one (some handler_hangs) = some handler_hangs

-- The branches on the result of `parse`; `again` is the recursive call.
abbrev pub on_result :
    Server → Statics → Option Input → (Session → Statics → Option Ending) → Option Ending
on_result server statics none again = some undefined
on_result server statics (some i) again = elim i.parsed.result [
  | good ↦ some (on_good server (parsed_session i) statics)
  | bad ↦ some (on_bad server (parsed_session i) statics)
  | indeterminate ↦ return_minus_one (again (parsed_session i) statics)
]

-- `session::handle_read` with the error flag and `bytes_transferred`, on fuel for the calls of
-- itself; `none` means that the fuel ran out.
unfoldable pub handle_read : ℕ → Server → Bool → ℕ → Session → Statics → Option Ending
unfolding read_input on_good on_bad count_request
handle_read zero server error count s statics = none
handle_read (suc fuel) server error count s statics =
    let counted = count_request statics in
    let rest =
      on_result server counted (read_input server.boost s count)
        (λ s' statics'. handle_read fuel server error count s' statics') in
    if error
    then some (returned (negsuc 0) none s counted)
    else if ltb (length (take count s.data_)) 2
    then some (out_of_range counted)
    else rest
