-- ===== src/Handler/Status.antt =====
-- The static members of the dispatcher that sessions write, and `StatusRequestHandler`
-- (src/request_handler/status_handler.cc).
pub mod Laws
use cs.Prelude.{ℕ, ◌+◌, ◌%◌, ◌^◌, List, [], ◌∷◌, ◌++◌, Option, none, some, Text, codes, length}
use cs.Decimal.{to_string}
use cs.OrderedMap
use cs.OrderedMap.{OrderedMap}
use cs.Http.Request.{Request}
use cs.Http.Reply.{Reply, ok, value, content_headers}

-- `request_code_received_` and `num_requests`, a `size_t`.
pub record Statics : Type 0 where
  pub request_code_received_ : OrderedMap (List ℕ)
  pub num_requests : ℕ
  pub posts : List Text

-- `num_requests++`
unfoldable pub count_request : Statics → Statics
count_request s = record s { num_requests = (s.num_requests + 1) % 2 ^ 64 }

abbrev pub or_none : Option (List ℕ) → List ℕ
or_none none = []
or_none (some l) = l

-- `request_code_received_[uri]`: a missing key is inserted with an empty vector.
unfoldable pub codes_of : Text → OrderedMap (List ℕ) → List ℕ
codes_of uri m = or_none (OrderedMap.lookup uri m)

-- `request_code_received_[uri].push_back(code)`
unfoldable pub push_code : Text → ℕ → OrderedMap (List ℕ) → OrderedMap (List ℕ)
push_code uri code m = OrderedMap.insert uri (codes_of uri m ++ (code ∷ [])) m

-- `pop_back` of a vector.
unfoldable pub drop_last : List ℕ → List ℕ
drop_last [] = []
drop_last (c ∷ []) = []
drop_last (c ∷ d ∷ l) = c ∷ drop_last (d ∷ l)

-- `request_code_received_[uri].pop_back()`
unfoldable pub pop_code : Text → OrderedMap (List ℕ) → OrderedMap (List ℕ)
pop_code uri m = OrderedMap.insert uri (drop_last (codes_of uri m)) m

abbrev row : Text → Text → Text
row left right = codes "<tr><td>" ++ (left ++ (codes "</td><td>" ++ (right ++ codes "</td></tr>")))

-- The inner loop over the codes of one URL, and the outer loop.
unfoldable pub code_rows : Text → List ℕ → Text
code_rows uri [] = []
code_rows uri (c ∷ l) = row uri (to_string c) ++ code_rows uri l

unfoldable pub request_info : OrderedMap (List ℕ) → Text
unfolding code_rows
request_info [] = []
request_info ((uri, l) ∷ m) = code_rows uri l ++ request_info m

-- The loop over `request_handler_uri`.
unfoldable pub request_handler_info : OrderedMap Text → Text
request_handler_info [] = []
request_handler_info ((uri, h) ∷ m) = row uri h ++ request_handler_info m

unfoldable pub display_content : ℕ → Text → Text → Text
display_content requests info handlers =
    codes
      "<html><body><h2>Status Handler</h1><div></div><table><tr><th>Total Number of Requests</th></tr><tr><td>"
    ++ (to_string requests
        ++ (codes
              "</td></tr></table><table><tr><th>Requests Server Received : </th><th>Response Code</th></tr>"
            ++ (info
                ++ (codes
                      "</table><table><tr><th>URL Prefixes : </th><th>Request Handlers Received</th></tr>"
                    ++ (handlers ++ codes "</table></body></html>")))))

-- `StatusRequestHandler::HandleRequest`: the reply, and the static members behind the call.
unfoldable pub handle_status : OrderedMap Text → Request → Statics → Reply × Statics
handle_status request_handler_uri request_ s =
    let shown = push_code request_.uri_ (value ok) s.request_code_received_ in
    let page =
      display_content s.num_requests (request_info shown)
        (request_handler_info request_handler_uri) in
    (
      record {
        code_ = ok;
        headers_ = content_headers (to_string (length page)) (codes "text/html");
        body_ = page;
      },
      record s { request_code_received_ = pop_code request_.uri_ shown },
    )
