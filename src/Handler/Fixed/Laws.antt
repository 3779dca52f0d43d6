-- ===== src/Handler/Fixed/Laws.antt =====
-- Replies of the fixed handlers.
use cs.Prelude.{
  ℕ, ◌+◌, ◌^◌, ◌<◌, ◌≡◌, refl, ◌∙◌, ap, [], ◌∷◌, ◌++◌, some, arith, Text, length, length-append,
  take, take-append,
}
use cs.Decimal.{to_string}
use cs.OrderedMap
use cs.Http.Request.{Request}
use cs.Http.Reply.{value}
use cs.Http.Reply.Laws.{HasContentLength}
use cs.Handler.Fixed.{size_minus, handle_echo, handle_health, handle_bad_request, handle_not_found}

-- For a request whose stored text is `content` and two bytes more, and fits into a `size_t`, the
-- echo's body is `content`, and `Content-Length` is its length.
pub handle_echo_lem :
    (request_ : Request) (content : Text) (a b : ℕ)
    → request_.body_ ≡ content ++ (a ∷ b ∷ [])
    → length request_.body_ < 2 ^ 64
    → ((handle_echo request_).body_ ≡ content) × HasContentLength (handle_echo request_)
unfolding handle_echo OrderedMap.lookup OrderedMap.insert
handle_echo_lem request_ content a b e h =
    let long : length request_.body_ ≡ length content + 2 =
      ap length e ∙ length-append content (a ∷ b ∷ []) in
    let size : size_minus (length request_.body_) 2 ≡ length content = omega arith in
    let kept : take (size_minus (length request_.body_) 2) request_.body_ ≡ content =
      rw (size, e) (take-append content (a ∷ b ∷ [])) in
    (kept, ap (λ n. some (to_string n)) (sym_length kept size))
  where
    sym_length :
        take (size_minus (length request_.body_) 2) request_.body_ ≡ content
        → size_minus (length request_.body_) 2 ≡ length content
        → size_minus (length request_.body_) 2
          ≡ length (take (size_minus (length request_.body_) 2) request_.body_)
    sym_length k s = rw k s

-- The health, bad-request and not-found handlers answer with 200, 400 and 404, and with the length
-- of the body that they send.
pub fixed_replies :
    (request_ : Request)
    → ((value (handle_health request_).code_ ≡ 200) × HasContentLength (handle_health request_))
      × ((value (handle_bad_request request_).code_ ≡ 400)
          × HasContentLength (handle_bad_request request_))
      × ((value (handle_not_found request_).code_ ≡ 404)
          × HasContentLength (handle_not_found request_))
unfolding handle_health handle_bad_request handle_not_found OrderedMap.lookup OrderedMap.insert
    value
fixed_replies request_ = ((refl, refl), (refl, refl), (refl, refl))
