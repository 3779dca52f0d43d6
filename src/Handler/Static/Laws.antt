-- ===== src/Handler/Static/Laws.antt =====
-- Which file is served, and with what length.
use cs.Prelude.{
  ℕ, Bool, ◌≡◌, refl, true, false, ◌∷◌, ◌++◌, Option, none, some, if_ind, Text, codes, drop-append,
}
use cs.OrderedMap
use cs.Boost.{Boost}
use cs.Strings.{contains}
use cs.Http.Request.{Request}
use cs.Http.Reply.{Reply, not_found}
use cs.Http.Reply.Laws.{HasContentLength, stock_reply_lem}
use cs.Handler.Static.{
  Files, set_content_type, file_path, is_missing, ok_reply, file_reply, opened_reply, found_reply,
  handle_static,
}

pub ok_reply-HasContentLength : (type content : Text) → HasContentLength (ok_reply type content)
unfolding OrderedMap.lookup OrderedMap.insert
ok_reply-HasContentLength type content = refl

opened_reply-HasContentLength :
    (boost : Boost) (files : Files) (path : Text) (o : Option Text)
    → HasContentLength (opened_reply boost files path o)
unfolding file_reply
opened_reply-HasContentLength boost files path none = (stock_reply_lem boost not_found).2
opened_reply-HasContentLength boost files path (some content) =
    if_ind HasContentLength (contains (codes ".md") path)
      (ok_reply-HasContentLength (codes "text/html") _)
      (ok_reply-HasContentLength (set_content_type path) _)

-- A reply that is made has the length of its body.
abbrev pub ReplySized : Option Reply → Type 0
ReplySized none = Unit
ReplySized (some reply) = HasContentLength reply

found_reply-Sized :
    (boost : Boost) (files : Files) (path : Text) (missing : Option Bool)
    → ReplySized (found_reply boost files path missing)
found_reply-Sized boost files path none = tt
found_reply-Sized boost files path (some true) = (stock_reply_lem boost not_found).2
found_reply-Sized boost files path (some false) =
    opened_reply-HasContentLength boost files path (files.read path)

-- On every branch that makes a reply, the missing file included, its `Content-Length` is the length
-- of its body.
pub handle_static-Sized :
    (boost : Boost) (files : Files) (location_path_ root_ : Text) (request_ : Request)
    → ReplySized (handle_static boost files location_path_ root_ request_)
unfolding handle_static
handle_static-Sized boost files location_path_ root_ request_ =
    let path = file_path location_path_ root_ request_.uri_ in
    found_reply-Sized boost files path (is_missing files path)

-- Where a URI is the handler's location and any bytes `rest` behind it, the file is `../`, the
-- root from its second byte on, and `rest` as it stands: parts `..` of it are kept, and lead out of
-- the root.
file_path-append :
    (location_path_ : Text) (c : ℕ) (root_ rest : Text)
    → file_path location_path_ (c ∷ root_) (location_path_ ++ rest) ≡ codes "../" ++ (root_ ++ rest)
unfolding file_path
file_path-append location_path_ c root_ rest = rw (drop-append location_path_ rest)
