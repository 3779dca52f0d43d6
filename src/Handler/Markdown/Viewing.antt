-- ===== src/Handler/Markdown/Viewing.antt =====
-- What the Markdown handler makes of the text of a request.
use cs.Prelude.{
  ℕ, suc, ◌+◌, ◌-◌, ◌%◌, ◌^◌, ◌≡◌, ◌<◌, refl, sym, ap, ◌∙◌, arith, Bool, false, [], ◌∷◌, ◌++◌,
  append_assoc, none, some, ◌==◌, Text, codes, All, All-append, length, length-append, take-append,
  drop,
}
use cs.Boost.{Boost}
use cs.Strings.{up_to_nul}
use cs.Http.Request.{Request}
use cs.Handler.Static.{Files, ok_reply}
use cs.Handler.Markdown.{find_from, markdown_input, view_markdown}
use cs.Handler.Markdown.Decoding.{encode, encode-no-space, urldecode2-encode, urldecode2-overflow}

find_from-append :
    (c i : ℕ) (u r : Text)
    → All (λ d. (d == c) ≡ false) u
    → find_from c i (u ++ (c ∷ r)) ≡ i + length u
unfolding find_from
find_from-append c i [] r h = ground arith
find_from-append c i (d ∷ u) r (n, h) = rw (n, find_from-append c (i + 1) u r h) (omega arith)

drop-past : (c : ℕ) (u r : Text) → drop (suc (length u)) (u ++ (c ∷ r)) ≡ r
drop-past c [] r = refl
drop-past c (d ∷ u) r = drop-past c u r

-- The input of a view is what stands between the first equals sign of the URI and the space behind
-- the URI.
markdown_input_lem :
    (method path e rest : Text)
    → All (λ d. (d == b' ') ≡ false) method
    → All (λ d. (d == b' ') ≡ false) path
    → All (λ d. (d == b'=') ≡ false) path
    → All (λ d. (d == b' ') ≡ false) e
    → length method + length path + length e + 2 < 2 ^ 64
    → markdown_input (method ++ (b' ' ∷ (path ++ (b'=' ∷ (e ++ (b' ' ∷ rest)))))) ≡ e
unfolding markdown_input
markdown_input_lem method path e rest m p q s fits =
    let uri = path ++ (b'=' ∷ (e ++ (b' ' ∷ rest))) in
    let grouped : uri ≡ (path ++ (b'=' ∷ e)) ++ (b' ' ∷ rest) =
      sym (append_assoc path (b'=' ∷ e) (b' ' ∷ rest)) in
    let first : find_from b' ' 0 (method ++ (b' ' ∷ uri)) ≡ length method =
      find_from-append b' ' 0 method uri m ∙ omega arith in
    let equals : find_from b'=' 0 uri ≡ length path =
      find_from-append b'=' 0 path (e ++ (b' ' ∷ rest)) q ∙ omega arith in
    let last : find_from b' ' 0 uri ≡ length path + suc (length e) =
      ap (find_from b' ' 0) grouped
      ∙ find_from-append b' ' 0 (path ++ (b'=' ∷ e)) rest
          (All-append (λ d. (d == b' ') ≡ false) path (b'=' ∷ e) p (refl, s))
      ∙ ap (λ n. 0 + n) (length-append path (b'=' ∷ e))
      ∙ omega arith in
    let behind : (length method + 1) % 2 ^ 64 ≡ suc (length method) = omega arith in
    let begin : (length path + 1) % 2 ^ 64 ≡ suc (length path) = omega arith in
    let count : (length path + suc (length e) + 2 ^ 64 - suc (length path)) % 2 ^ 64 ≡ length e =
      omega arith in
    rw
      (
        first,
        behind,
        drop-past b' ' method uri,
        equals,
        begin,
        last,
        count,
        drop-past b'=' path (e ++ (b' ' ∷ rest)),
      )
      (take-append e (b' ' ∷ rest))

-- The text of a request whose URI ends with an encoded field.
abbrev pub request_text : Text → Text → Text → Text → Text
request_text method path e rest = method ++ (b' ' ∷ (path ++ (b'=' ∷ (e ++ (b' ' ∷ rest)))))

-- A field `s` that comes encoded behind the first equals sign of the URI is stored, and shown as the
-- Markdown library converts it, up to its first NUL and with its ends of line made newlines, if at
-- least one byte of it is encoded as three: neither method nor path holds a space, the path holds no
-- equals sign, `keep`, which tells the bytes that stand as they are, does not hold of NUL, space,
-- percent and plus, and the text is shorter than the address space.
pub view_markdown-encode :
    (boost : Boost) (files : Files) (request_ : Request) (keep : ℕ → Bool)
    (method path s rest : Text)
    → request_.body_ ≡ request_text method path (encode keep s) rest
    → All (λ d. (d == b' ') ≡ false) method
    → All (λ d. (d == b' ') ≡ false) path
    → All (λ d. (d == b'=') ≡ false) path
    → keep 0 ≡ false
    → keep b' ' ≡ false
    → keep b'%' ≡ false
    → keep b'+' ≡ false
    → All (λ c. c < 2 ^ 8) s
    → length s < length (encode keep s)
    → length method + length path + length (encode keep s) + 2 < 2 ^ 64
    → view_markdown boost files request_
      ≡ some (record {
        stored = boost.replace_all (up_to_nul s) (codes "\r\n") (codes "\n");
        reply =
            ok_reply
              (codes "text/html")
              (files.markdown (boost.replace_all (up_to_nul s) (codes "\r\n") (codes "\n")));
      })
unfolding view_markdown
view_markdown-encode boost files request_ keep method path s rest body m p q k0 ksp kpc kpl bytes
      room fits =
    let input : markdown_input request_.body_ ≡ encode keep s =
      ap markdown_input body
      ∙ markdown_input_lem method path (encode keep s) rest m p q (encode-no-space keep s ksp)
          fits in
    rw (input, urldecode2-encode keep (length (encode keep s)) s k0 kpc kpl bytes room) refl

-- A view of an input that holds no percent sign and no NUL writes past its buffer: undefined.
pub view_markdown-overflow :
    (boost : Boost) (files : Files) (request_ : Request)
    → All (λ c. (c == b'%') ≡ false) (markdown_input request_.body_)
    → All (λ c. (c == 0) ≡ false) (markdown_input request_.body_)
    → view_markdown boost files request_ ≡ none
unfolding view_markdown
view_markdown-overflow boost files request_ h z =
    rw (urldecode2-overflow (markdown_input request_.body_) h z) refl
