-- ===== src/Handler/Markdown.antt =====
-- `MarkdownHandler` (src/request_handler/markdown_handler.cc), and the choice of the posts that it
-- shows (`db_handler::getTenMarkdowns` in src/db/db_handler.cc). Both helpers of the handler that
-- read outside of it take what they read: the file system and the Markdown library of the static
-- handler, and the posts that the database holds.
pub mod Decoding
pub mod Laws
pub mod Viewing
use cs.Prelude.{
  ℕ, zero, suc, ◌+◌, ◌-◌, ◌*◌, ◌%◌, ◌^◌, Bool, true, false, not, ◌&&◌, ◌||◌, List, [], ◌∷◌, ◌++◌,
  Option, none, some, ltb, leb, ◌==◌, if◌then◌else◌, Text, codes, text_eq, length, take, drop,
}
use cs.Boost.{Boost}
use cs.Http.Request.{Request}
use cs.Http.Reply.{Reply, internal_server_error, stock_reply}
use cs.Handler.Fixed.{size_minus}
use cs.Handler.Static.{Files, is_missing, ok_reply}
use cs.Strings.{up_to_nul}

-- `isxdigit` in the "C" locale.
unfoldable pub is_xdigit : ℕ → Bool
is_xdigit c = (leb b'0' c && leb c b'9') || (leb b'A' c && leb c b'F') || (leb b'a' c && leb c b'f')

-- The steps on `a`, and on `b`, in `urldecode2`: a small letter made a capital, and the digit's value.
abbrev upper : ℕ → ℕ
upper c = if leb b'a' c then c - (b'a' - b'A') else c

abbrev xdigit_value : ℕ → ℕ
xdigit_value c = if leb b'A' c then c - (b'A' - 10) else c - b'0'

unfoldable pub xdigit : ℕ → ℕ
xdigit c = xdigit_value (upper c)

-- The test of the first branch. Where the text ends, a NUL stands.
abbrev pub is_escape : ℕ → Text → Bool
is_escape c (a ∷ b ∷ s) = c == b'%' && (is_xdigit a && is_xdigit b)
is_escape c s = false

-- The byte that the loop writes at `c`, with `s` behind it.
abbrev pub decoded_byte : ℕ → Text → ℕ
decoded_byte c (a ∷ b ∷ s) =
    if is_escape c (a ∷ b ∷ s)
    then (16 * xdigit a + xdigit b) % 2 ^ 8
    else if c == b'+'
    then b' '
    else c
decoded_byte c s = if c == b'+' then b' ' else c

-- The loop of `urldecode2`, on a C string. The first argument counts the bytes that `src` has
-- still to pass.
unfoldable pub decode : ℕ → Text → Text
unfolding is_xdigit xdigit
decode skip [] = []
decode (suc skip) (c ∷ s) = decode skip s
decode zero (c ∷ s) = decoded_byte c s ∷ decode (if is_escape c s then 2 else 0) s

-- `urldecode2` into a buffer of `size` bytes: the text and its NUL. Past the end of the buffer it is
-- undefined, `none`.
unfoldable pub urldecode2 : ℕ → Text → Option Text
unfolding decode up_to_nul
urldecode2 size src =
    if leb (length (decode 0 (up_to_nul src)) + 1) size
    then some (decode 0 (up_to_nul src))
    else none

-- `find` of a byte; `npos` where it is not found.
unfoldable pub find_from : ℕ → ℕ → Text → ℕ
find_from c i [] = 2 ^ 64 - 1
find_from c i (d ∷ s) = if d == c then i else find_from c (i + 1) s

abbrev pub size_plus_one : ℕ → ℕ
size_plus_one n = (n + 1) % 2 ^ 64

-- `s.substr(p, n)` with `p` not past the end.
abbrev pub substr : ℕ → ℕ → Text → Text
substr p n s = take n (drop p s)

-- `input_` in `viewMarkdown`.
unfoldable pub markdown_input : Text → Text
unfolding find_from
markdown_input body_ =
    let trimmed_uri = drop (size_plus_one (find_from b' ' 0 body_)) body_ in
    let begin = size_plus_one (find_from b'=' 0 trimmed_uri) in
    substr begin (size_minus (find_from b' ' 0 trimmed_uri) begin) trimmed_uri

-- What `viewMarkdown` gives to `insertMarkdown`, whose result is not read, and its reply.
pub record View : Type 0 where
  pub stored : Text
  pub reply : Reply

abbrev pub view_decoded : Boost → Files → Option Text → Option View
view_decoded boost files none = none
view_decoded boost files (some decoded) =
    let cleaned_input = boost.replace_all (up_to_nul decoded) (codes "\r\n") (codes "\n") in
    some (record {
      stored = cleaned_input;
      reply = ok_reply (codes "text/html") (files.markdown cleaned_input);
    })

-- `MarkdownHandler::viewMarkdown`
unfoldable pub view_markdown : Boost → Files → Request → Option View
unfolding markdown_input urldecode2
view_markdown boost files request_ =
    let input_ = markdown_input request_.body_ in
    view_decoded boost files (urldecode2 (length input_) input_)

-- The loop of `getTenMarkdowns` over the posts, with `end` and `n`.
unfoldable pub ten_from {ℓ} : {A : Type ℓ} → ℕ → ℕ → List A → List A
ten_from end n [] = []
ten_from end n (md ∷ mds) =
    let rest = ten_from end (n + 1) mds in if leb end (n + 10) then md ∷ rest else rest

-- `db_handler::getTenMarkdowns`, on what the database holds.
unfoldable pub get_ten_markdowns {ℓ} : {A : Type ℓ} → List A → List A
unfolding ten_from
get_ten_markdowns mds = ten_from (length mds) 0 mds

-- The loop of `createForm`.
unfoldable pub post_rows : Files → List Text → Text
post_rows files [] = []
post_rows files (post ∷ posts) =
    codes "<tr><td>"
    ++ (post
        ++ (codes "</td><td>"
            ++ (files.markdown post ++ (codes "</td></tr>" ++ post_rows files posts))))

abbrev pub form_path : Text
form_path = codes "../data/input_form.html"

unfoldable pub form_page : Files → List Text → Text → Text
unfolding post_rows get_ten_markdowns
form_page files posts content_ =
    content_
    ++ (codes "<div><h3>10 Recent Markdown Submissions</h3></div>"
        ++ (codes "<table><tr><th>Raw Input</th><th>Markdown</th>"
            ++ (post_rows files (get_ten_markdowns posts)
                ++ (codes "</table>" ++ codes "</body></html>"))))

-- What `HandleRequest` comes to: the form, or a view. `unread` is an exception of the file system,
-- or one of the database that the reading of the posts does not catch; `undefined` a view past its buffer.
pub data Answer : Type 0 where
  form : Reply → Answer
  viewed : View → Answer
  unread undefined : Answer

-- The form, with the posts that the database gives, if it gives any.
abbrev pub filled_form : Files → Option (List Text) → Text → Answer
filled_form files none content_ = unread
filled_form files (some posts) content_ =
    form (ok_reply (codes "text/html") (form_page files posts content_))

-- `if (!f)`, on what is read.
abbrev pub opened_form : Boost → Files → Option (List Text) → Option Text → Answer
opened_form boost files posts none = form (stock_reply boost internal_server_error)
opened_form boost files posts (some content_) = filled_form files posts content_

abbrev pub found_form : Boost → Files → Option (List Text) → Option Bool → Answer
found_form boost files posts none = unread
found_form boost files posts (some true) = form (stock_reply boost internal_server_error)
found_form boost files posts (some false) = opened_form boost files posts (files.read form_path)

-- `MarkdownHandler::createForm`
unfoldable pub create_form : Boost → Files → Option (List Text) → Answer
unfolding form_page is_missing
create_form boost files posts = found_form boost files posts (is_missing files form_path)

abbrev pub answer_view : Option View → Answer
answer_view none = undefined
answer_view (some v) = viewed v

-- `MarkdownHandler::HandleRequest`
unfoldable pub handle_markdown : Boost → Files → Option (List Text) → Request → Answer
unfolding create_form view_markdown
handle_markdown boost files posts request_ =
    if text_eq request_.uri_ (codes "/markdown")
    then create_form boost files posts
    else if text_eq (take 30 request_.uri_) (codes "/markdown/view?markdown_input=")
    then answer_view (view_markdown boost files request_)
    else create_form boost files posts
