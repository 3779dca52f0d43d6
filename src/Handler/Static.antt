-- ===== src/Handler/Static.antt =====
-- `StaticRequestHandler` (src/request_handler/static_request_handler.cc).
pub mod Laws
use cs.Prelude.{
  ℕ, Bool, not, ◌||◌, true, false, [], ◌++◌, Option, none, some, if◌then◌else◌, Text, codes,
  text_eq, length,
}
use cs.Boost.{Boost}
use cs.Decimal.{to_string}
use cs.Strings.{replace_front, contains, after_last}
use cs.Http.Request.{Request}
use cs.Http.Reply.{Reply, ok, not_found, content_headers, stock_reply}

-- What the handler asks of the file system and of the Markdown library, which are not part of the
-- model. `exists` and `is_regular_file` are `none` where they throw,
-- `read` is `none` where the file does not open.
pub record Files : Type 0 where
  pub exists : Text → Option Bool
  pub is_regular_file : Text → Option Bool
  pub read : Text → Option Text
  pub markdown : Text → Text

-- `StaticRequestHandler::setContentType`
unfoldable pub set_content_type : Text → Text
set_content_type path =
    let extension = after_last b'.' path path in
    if text_eq extension (codes "html")
    then codes "text/html"
    else if text_eq extension (codes "jpg")
    then codes "image/jpeg"
    else if text_eq extension (codes "zip")
    then codes "application/zip"
    else if text_eq extension (codes "txt")
    then codes "text/plain"
    else if text_eq extension (codes "gif")
    then codes "image/gif"
    else if text_eq extension (codes "png")
    then codes "image/png"
    else []

-- `!exists(path) || !is_regular_file(path)`, on what the two say; `none` is an exception.
abbrev missing_by : Option Bool → Option Bool → Option Bool
missing_by none regular = none
missing_by (some false) regular = some true
missing_by (some true) none = none
missing_by (some true) (some regular) = some (not regular)

unfoldable pub is_missing : Files → Text → Option Bool
is_missing files path = missing_by (files.exists path) (files.is_regular_file path)

-- The file that a URI stands for.
unfoldable pub file_path : Text → Text → Text → Text
file_path location_path_ root_ uri =
    replace_front 1 (codes "../") (replace_front (length location_path_) root_ uri)

-- The bytes and the type of the reply for a file that was read.
abbrev pub converted : Boost → Text → Text → Text
converted boost content_type content_ =
    if text_eq content_type (codes "text/html") || text_eq content_type (codes "text/plain")
    then boost.replace_all content_ (codes "\n") (codes "\r\n") ++ codes "\r\n"
    else content_

abbrev pub ok_reply : Text → Text → Reply
ok_reply content_type content_ = record {
  code_ = ok;
  headers_ = content_headers (to_string (length content_)) content_type;
  body_ = content_;
}

unfoldable pub file_reply : Boost → Files → Text → Text → Reply
unfolding set_content_type contains
file_reply boost files new_uri content_ =
    let content_type = set_content_type new_uri in
    let text = converted boost content_type content_ in
    if contains (codes ".md") new_uri
    then ok_reply (codes "text/html") (files.markdown text)
    else ok_reply content_type text

-- `if (!f)`, on what is read.
abbrev pub opened_reply : Boost → Files → Text → Option Text → Reply
opened_reply boost files new_uri none = stock_reply boost not_found
opened_reply boost files new_uri (some content_) = file_reply boost files new_uri content_

abbrev pub found_reply : Boost → Files → Text → Option Bool → Option Reply
found_reply boost files new_uri none = none
found_reply boost files new_uri (some true) = some (stock_reply boost not_found)
found_reply boost files new_uri (some false) =
    some (opened_reply boost files new_uri (files.read new_uri))

-- `StaticRequestHandler::HandleRequest`; `none` is an exception of the file system, which nothing
-- catches.
unfoldable pub handle_static : Boost → Files → Text → Text → Request → Option Reply
unfolding file_path file_reply is_missing
handle_static boost files location_path_ root_ request_ =
    let new_uri = file_path location_path_ root_ request_.uri_ in
    found_reply boost files new_uri (is_missing files new_uri)
