-- ===== src/Handler/Virtual.antt =====
-- The virtual function `HandleRequest` (include/request_handler/request_handler.h), for all classes.
pub mod Lengths
use cs.Prelude.{ℕ, List, Option, none, some, Text}
use cs.OrderedMap.{OrderedMap}
use cs.Http.Request.{Request}
use cs.Http.Reply.{Reply}
use cs.Handler.{
  RequestHandler, bad_request_handler, echo_request_handler, health_handler, markdown_handler,
  not_found_request_handler, status_request_handler, redirect_handler, reverse_proxy_handler,
  static_request_handler,
}
use cs.Handler.Fixed.{
  handle_echo, handle_health, handle_bad_request, handle_not_found, handle_redirect,
}
use cs.Handler.Status.{Statics, handle_status}
use cs.Handler.Static.{Files, handle_static}
use cs.Handler.Markdown.{View, Answer, form, viewed, unread, undefined, handle_markdown}
use cs.Handler.ReverseProxy.{Network, handle_proxy}
use cs.Handler.ReverseProxy.External.{Libraries}
use cs.Handler.ReverseProxy.Response.{Result, returned, thrown}

-- How a call ends: with a reply, an exception or undefined behaviour, or not within the fuel.
pub data Handled : Type 0 where
  replied : Reply → Statics → Handled
  failed faulty unending : Handled

-- What the handlers take from outside: other libraries, the file system, the network, the database,
-- and the dispatcher's static list of handlers. The fuel is for the reverse proxy.
pub record Environment : Type 0 where
  pub libraries : Libraries
  pub files : Files
  pub nets : ℕ → Network
  pub fuel : ℕ
  -- `getTenMarkdowns`, before it takes the last ten, and `insertMarkdown`, on the posts that the
  -- database holds; `none` is an exception that leaves the handler.
  pub read_posts : List Text → Option (List Text)
  pub insert_post : List Text → Text → Option (List Text)
  pub request_handler_uri : OrderedMap Text

abbrev pub of_status : Reply × Statics → Handled
of_status (reply, statics) = replied reply statics

-- The reply of the static handler, if it throws nothing.
abbrev pub of_static : Statics → Option Reply → Handled
of_static statics none = failed
of_static statics (some reply) = replied reply statics

abbrev pub of_view : Statics → Reply → Option (List Text) → Handled
of_view statics reply none = failed
of_view statics reply (some posts) = replied reply (record statics { posts = posts })

-- A view is given to the database.
abbrev pub of_answer : Environment → Statics → Answer → Handled
of_answer env statics (form reply) = replied reply statics
of_answer env statics (viewed v) = of_view statics v.reply (env.insert_post statics.posts v.stored)
of_answer env statics unread = failed
of_answer env statics undefined = faulty

abbrev pub of_proxy : Statics → Option (Result Reply) → Handled
of_proxy statics none = unending
of_proxy statics (some (returned reply)) = replied reply statics
of_proxy statics (some thrown) = failed
of_proxy statics (some Result.undefined) = faulty

-- `HandleRequest` of each class.
unfoldable pub handle_request : Environment → RequestHandler → Request → Statics → Handled
unfolding handle_echo handle_health handle_bad_request handle_not_found handle_redirect
    handle_status handle_static handle_markdown handle_proxy
handle_request env bad_request_handler request_ statics =
    replied (handle_bad_request request_) statics
handle_request env echo_request_handler request_ statics = replied (handle_echo request_) statics
handle_request env health_handler request_ statics = replied (handle_health request_) statics
handle_request env markdown_handler request_ statics =
    of_answer env statics
      (handle_markdown env.libraries.boost env.files (env.read_posts statics.posts) request_)
handle_request env not_found_request_handler request_ statics =
    replied (handle_not_found request_) statics
handle_request env status_request_handler request_ statics =
    of_status (handle_status env.request_handler_uri request_ statics)
handle_request env (redirect_handler host_) request_ statics =
    replied (handle_redirect host_ request_) statics
handle_request env (reverse_proxy_handler location_path_ proxy_dest_ proxy_port_) request_ statics =
    of_proxy statics (
      handle_proxy env.fuel env.libraries env.nets
        (record {
          location_path_ = location_path_;
          proxy_dest_ = proxy_dest_;
          proxy_port_ = proxy_port_;
        })
        request_)
handle_request env (static_request_handler location_path_ root_) request_ statics =
    of_static statics (handle_static env.libraries.boost env.files location_path_ root_ request_)
