-- ===== src/Handler/ReverseProxy/ReadBack.antt =====
-- The reverse proxy reads back the replies that this server writes.
use cs.Prelude.{
  take-all, ℕ, ◌+◌, ◌%◌, ◌^◌, ◌≡◌, ◌<◌, ◌≤◌, refl, ◌∙◌, sym, ap, arith, true, false, [], ◌∷◌, ◌++◌,
  append-nil, append_assoc, Text, codes, length, length-append, take, take-append, drop,
  drop-append, leb,
}
use cs.OrderedMap.{OrderedMap}
use cs.OrderedMap.Order.{IsSorted, insert_all-nil}
use cs.Http.Reply.{StatusCode, Reply, header_buffers, to_buffers}
use cs.Http.Reply.Laws.{IsListed}
use cs.Handler.Fixed.{size_minus}
use cs.Handler.ReverseProxy.External.{Libraries}
use cs.Handler.ReverseProxy.Response.{
  returned, npos, find_text, substr, scan_status, new_line, read_headers, read_response,
}
use cs.Handler.ReverseProxy.Wire.{
  joined, status_text, to_buffer-status_text, scan_status-status_text, NoReturn,
  status_text-NoReturn, lines, joined-header_buffers, IsReadable, find_text-return, find_text-end,
}
use cs.Handler.ReverseProxy.Headers.{read_headers-lines}

substr-rest :
    (p n : ℕ) (u v : Text) → p ≡ length u → length v ≤ n → substr p n (u ++ v) ≡ returned v
unfolding substr
substr-rest p n u v e h =
    let inside : leb p (length (u ++ v)) ≡ true = ground (arith, length-append u v) in
    rw inside (
      ap (λ k. returned (take n (drop k (u ++ v)))) e
      ∙ ap (λ t. returned (take n t)) (drop-append u v)
      ∙ ap returned (take-all n v h))

substr-middle :
    (p n : ℕ) (u v w : Text) → p ≡ length u → n ≡ length v → substr p n (u ++ (v ++ w)) ≡ returned v
unfolding substr
substr-middle p n u v w e k =
    let inside : leb p (length (u ++ (v ++ w))) ≡ true = ground (arith, length-append u (v ++ w)) in
    rw inside (
      ap (λ j. returned (take n (drop j (u ++ (v ++ w))))) e
      ∙ ap (λ t. returned (take n t)) (drop-append u (v ++ w))
      ∙ ap (λ j. returned (take j (v ++ w))) k
      ∙ ap returned (take-append v w))

-- A response with the request line `first`.
abbrev wire : Text → OrderedMap Text → Text → Text
wire first m body = first ++ (b'\r' ∷ b'\n' ∷ (lines m ++ (b'\r' ∷ b'\n' ∷ body)))

length-wire :
    (first : Text) (m : OrderedMap Text) (body : Text)
    → length (wire first m body) ≡ length first + length (lines m) + length body + 4
length-wire first m body = omega (
  arith,
  length-append first (b'\r' ∷ b'\n' ∷ (lines m ++ (b'\r' ∷ b'\n' ∷ body))),
  length-append (lines m) (b'\r' ∷ b'\n' ∷ body),
)

wire-headers :
    (first : Text) (m : OrderedMap Text) (body : Text)
    → length (wire first m body) + 4 < 2 ^ 64
    → substr
        (length first + 2)
        (size_minus (length first + length (lines m)) (length first))
        (wire first m body)
      ≡ returned (lines m)
wire-headers first m body fits =
    ap (substr (length first + 2) (size_minus (length first + length (lines m)) (length first)))
      (sym (append_assoc first (codes "\r\n") (lines m ++ (b'\r' ∷ b'\n' ∷ body))))
    ∙ substr-middle _ _ (first ++ codes "\r\n") (lines m) (b'\r' ∷ b'\n' ∷ body)
        (omega (arith, length-append first (codes "\r\n")))
        (omega (arith, length-wire first m body))

wire-body :
    (first : Text) (m : OrderedMap Text) (body : Text)
    → length (wire first m body) + 4 < 2 ^ 64
    → substr ((length first + length (lines m) + 4) % 2 ^ 64) npos (wire first m body)
      ≡ returned body
wire-body first m body fits =
    let head = first ++ (b'\r' ∷ b'\n' ∷ (lines m ++ codes "\r\n")) in
    let split : wire first m body ≡ head ++ body = simp append_assoc in
    ap (substr ((length first + length (lines m) + 4) % 2 ^ 64) npos) split
    ∙ substr-rest _ npos head body
        (omega (
          arith,
          length-append first (b'\r' ∷ b'\n' ∷ (lines m ++ codes "\r\n")),
          length-append (lines m) (codes "\r\n"),
          length-wire first m body,
        ))
        (omega (arith, length-wire first m body))

read_response-wire :
    (lib : Libraries) (first : Text) (m : OrderedMap Text) (body : Text)
    → NoReturn first
    → IsReadable m
    → IsSorted m
    → length (wire first m body) + 4 < 2 ^ 64
    → read_response lib (wire first m body)
      ≡ returned (record {
        code_ = scan_status 0 0 0 (StatusCode.other 0) first;
        headers_ = m;
        body_ = body;
      })
unfolding read_response
read_response-wire lib first m body n h s fits =
    let ends : find_text (codes "\r\n\r\n") 0 (wire first m body)
        ≡ length first + length (lines m) =
      find_text-end m first body 0 n h ∙ omega arith in
    let line : find_text (codes "\r\n") 0 (wire first m body) ≡ length first =
      find_text-return first (lines m ++ (b'\r' ∷ b'\n' ∷ body)) 0 n ∙ omega arith in
    let request_line : take (length first) (wire first m body) ≡ first =
      take-append first (b'\r' ∷ b'\n' ∷ (lines m ++ (b'\r' ∷ b'\n' ∷ body))) in
    let read : read_headers lib [] false new_line (lines m) ≡ returned m =
      read_headers-lines lib m [] h ∙ ap returned (insert_all-nil m s) in
    rw (ends, line, request_line, wire-headers first m body fits, wire-body first m body fits, read)
      refl

joined-to_buffers :
    (r : Reply)
    → IsListed r.code_
    → joined (to_buffers r) ≡ wire (status_text r.code_) r.headers_ r.body_
unfolding to_buffers
joined-to_buffers r c =
    ap (λ t. t ++ joined (header_buffers r.headers_ (codes "\r\n" ∷ r.body_ ∷ [])))
      (to_buffer-status_text r.code_ c)
    ∙ ap (λ t. (status_text r.code_ ++ codes "\r\n") ++ t)
        (joined-header_buffers r.headers_ (codes "\r\n" ∷ r.body_ ∷ []))
    ∙ ap (λ t. (status_text r.code_ ++ codes "\r\n") ++ (lines r.headers_ ++ (codes "\r\n" ++ t)))
        (append-nil r.body_)
    ∙ append_assoc (status_text r.code_) (codes "\r\n")
        (lines r.headers_ ++ (codes "\r\n" ++ r.body_))

-- A reply of one of the listed codes, with readable headers in the order of their names, comes back as
-- it was from the bytes that `to_buffers` makes of it, if they are fewer than the address space holds.
pub read_response-to_buffers :
    (lib : Libraries) (r : Reply)
    → IsListed r.code_
    → IsReadable r.headers_
    → IsSorted r.headers_
    → length (joined (to_buffers r)) + 4 < 2 ^ 64
    → read_response lib (joined (to_buffers r)) ≡ returned r
read_response-to_buffers lib r c h s fits =
    let shape = joined-to_buffers r c in
    ap (read_response lib) shape
    ∙ read_response-wire lib (status_text r.code_) r.headers_ r.body_
        (status_text-NoReturn r.code_ c) h s (rw shape at fits)
    ∙ ap (λ k. returned (record { code_ = k; headers_ = r.headers_; body_ = r.body_ }))
        (scan_status-status_text r.code_ c)
