-- ===== src/Http/Reply/Laws.antt =====
-- What a client reads off a reply.

use cs.Prelude.{◌≡◌, refl, ◌∙◌, ◌++◌, some, Text, codes, length, take, drop, ap}
use cs.Boost.{Boost, substitute}
use cs.Decimal.{to_string}
use cs.OrderedMap
use cs.Http.Reply.{StatusCode, ok, value, Reply, to_buffer, stock_page, stock_reply}

-- `Content-Length` is the decimal number of the bytes of the body.
abbrev pub HasContentLength : Reply → Type 0
HasContentLength r =
    OrderedMap.lookup (codes "Content-Length") r.headers_ ≡ some (to_string (length r.body_))

-- A code that is one of the enumerators.
abbrev pub IsListed : StatusCode → Type 0
IsListed (StatusCode.other n) = ⊥
IsListed _ = Unit

-- The status line of each listed code names the code's number.
to_buffer-value :
    (c : StatusCode) → IsListed c → take 3 (drop 9 (to_buffer c)) ≡ to_string (value c)
unfolding to_buffer value to_string
to_buffer-value ok h = refl
to_buffer-value (StatusCode.other n) h = elim h [ ]
to_buffer-value _ h = refl

-- No stock page has a newline.
substitute-stock_page :
    (c : StatusCode) (f : Text) → substitute b'\n' f (stock_page c) ≡ stock_page c
unfolding stock_page
substitute-stock_page ok f = refl
substitute-stock_page _ f = refl

-- For each code a stock reply has that code, the page of the code and an end of line for its
-- body, and the length of that body for its `Content-Length`.
pub stock_reply_lem :
    (boost : Boost) (c : StatusCode)
    → ((stock_reply boost c).code_ ≡ c)
      × ((stock_reply boost c).body_ ≡ stock_page c ++ codes "\r\n")
      × HasContentLength (stock_reply boost c)
unfolding stock_reply OrderedMap.lookup
stock_reply_lem boost c = (
  refl,
  ap (λ t. t ++ codes "\r\n")
      (boost.replace_all_byte (stock_page c) b'\n' (codes "\r\n")
        ∙ substitute-stock_page c (codes "\r\n")),
  refl,
)
