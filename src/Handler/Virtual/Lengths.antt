-- ===== src/Handler/Virtual/Lengths.antt =====
-- `Content-Length`, for all handlers.
use cs.Prelude.{
  ◌^◌, ◌≤◌, ◌<◌, ◌≡◌, refl, arith, if_ind, Option, none, some, [], List, Bool, true, false, Text,
  codes, text_eq, take, length, length-take, ap, sym,
}
use cs.Boost.{Boost}
use cs.Decimal.{to_string}
use cs.OrderedMap
use cs.Http.Request.{Request}
use cs.Http.Reply.{Reply, internal_server_error}
use cs.Http.Reply.Laws.{HasContentLength, stock_reply_lem}
use cs.Handler.{
  RequestHandler, bad_request_handler, echo_request_handler, health_handler, markdown_handler,
  not_found_request_handler, status_request_handler, redirect_handler, reverse_proxy_handler,
  static_request_handler,
}
use cs.Handler.Fixed.{size_minus, handle_echo}
use cs.Handler.Fixed.Laws.{fixed_replies}
use cs.Handler.Status.{Statics}
use cs.Handler.Status.Laws.{handle_status_lem}
use cs.Handler.Static.{Files, is_missing}
use cs.Handler.Static.Laws.{ok_reply-HasContentLength, handle_static-Sized, ReplySized}
use cs.Handler.Markdown.{
  Answer, form, viewed, unread, answer_view, view_decoded, view_markdown, markdown_input,
  urldecode2, filled_form, opened_form, found_form, form_path, form_page, create_form,
  handle_markdown,
}
use cs.Handler.ReverseProxy.Replies.{handle_proxy-HasContentLength}
use cs.Handler.ReverseProxy.Response.{Result, returned, thrown}
use cs.Handler.Virtual.{
  Handled, replied, Environment, of_static, of_view, of_answer, of_proxy, handle_request,
}

-- All classes but the one of redirects, whose replies have no `Content-Length`.
abbrev pub IsSizing : RequestHandler → Type 0
IsSizing (redirect_handler host_) = ⊥
IsSizing h = Unit

-- A reply has its length.
abbrev pub IsSized : Handled → Type 0
IsSized (replied reply after) = HasContentLength reply
IsSized _ = Unit

handle_echo-HasContentLength :
    (request_ : Request)
    → 2 ≤ length request_.body_
    → length request_.body_ < 2 ^ 64
    → HasContentLength (handle_echo request_)
unfolding handle_echo OrderedMap.lookup OrderedMap.insert
handle_echo-HasContentLength request_ h k =
    let n = size_minus (length request_.body_) 2 in
    let size : length (take n request_.body_) ≡ n = omega (arith, length-take n request_.body_) in
    ap (λ k. some (to_string k)) (sym size)

abbrev AnswerSized : Answer → Type 0
AnswerSized (form reply) = HasContentLength reply
AnswerSized (viewed v) = HasContentLength v.reply
AnswerSized unread = Unit
AnswerSized Answer.undefined = Unit

view_decoded-Sized :
    (boost : Boost) (files : Files) (o : Option Text)
    → AnswerSized (answer_view (view_decoded boost files o))
view_decoded-Sized boost files none = tt
view_decoded-Sized boost files (some decoded) = ok_reply-HasContentLength (codes "text/html") _

filled_form-Sized :
    (files : Files) (posts : Option (List Text)) (content_ : Text)
    → AnswerSized (filled_form files posts content_)
filled_form-Sized files none content_ = tt
filled_form-Sized files (some posts) content_ =
    ok_reply-HasContentLength (codes "text/html") (form_page files posts content_)

opened_form-Sized :
    (boost : Boost) (files : Files) (posts : Option (List Text)) (o : Option Text)
    → AnswerSized (opened_form boost files posts o)
opened_form-Sized boost files posts none = (stock_reply_lem boost internal_server_error).2
opened_form-Sized boost files posts (some content_) = filled_form-Sized files posts content_

found_form-Sized :
    (boost : Boost) (files : Files) (posts : Option (List Text)) (missing : Option Bool)
    → AnswerSized (found_form boost files posts missing)
found_form-Sized boost files posts none = tt
found_form-Sized boost files posts (some true) = (stock_reply_lem boost internal_server_error).2
found_form-Sized boost files posts (some false) = opened_form-Sized boost files posts (files.read _)

create_form-Sized :
    (boost : Boost) (files : Files) (posts : Option (List Text))
    → AnswerSized (create_form boost files posts)
unfolding create_form
create_form-Sized boost files posts =
    found_form-Sized boost files posts (is_missing files form_path)

handle_markdown-Sized :
    (boost : Boost) (files : Files) (posts : Option (List Text)) (request_ : Request)
    → AnswerSized (handle_markdown boost files posts request_)
unfolding handle_markdown view_markdown
handle_markdown-Sized boost files posts request_ =
    let shown = create_form-Sized boost files posts in
    if_ind AnswerSized (text_eq request_.uri_ (codes "/markdown")) shown (
      if_ind AnswerSized (text_eq (take 30 request_.uri_) (codes "/markdown/view?markdown_input="))
        (view_decoded-Sized boost files
          (urldecode2 (length (markdown_input request_.body_)) (markdown_input request_.body_)))
        shown)

of_static-IsSized :
    (statics : Statics) (o : Option Reply) → ReplySized o → IsSized (of_static statics o)
of_static-IsSized statics none h = tt
of_static-IsSized statics (some reply) h = h

of_view-IsSized :
    (statics : Statics) (reply : Reply) (o : Option (List Text))
    → HasContentLength reply
    → IsSized (of_view statics reply o)
of_view-IsSized statics reply none h = tt
of_view-IsSized statics reply (some posts) h = h

of_answer-IsSized :
    (env : Environment) (statics : Statics) (a : Answer)
    → AnswerSized a
    → IsSized (of_answer env statics a)
of_answer-IsSized env statics (form reply) h = h
of_answer-IsSized env statics (viewed v) h =
    of_view-IsSized statics v.reply (env.insert_post statics.posts v.stored) h
of_answer-IsSized env statics unread h = tt
of_answer-IsSized env statics Answer.undefined h = tt

of_proxy-IsSized :
    (statics : Statics) (o : Option (Result Reply))
    → ((reply : Reply) → o ≡ some (returned reply) → HasContentLength reply)
    → IsSized (of_proxy statics o)
of_proxy-IsSized statics none h = tt
of_proxy-IsSized statics (some (returned reply)) h = h reply refl
of_proxy-IsSized statics (some thrown) h = tt
of_proxy-IsSized statics (some Result.undefined) h = tt

-- The reply of any handler but a redirect has the length of its body for `Content-Length`, if the
-- text of the request has two bytes at least and fits into a `size_t`.
pub handle_request-HasContentLength :
    (env : Environment) (h : RequestHandler) (request_ : Request) (statics : Statics)
    → IsSizing h
    → 2 ≤ length request_.body_
    → length request_.body_ < 2 ^ 64
    → IsSized (handle_request env h request_ statics)
unfolding handle_request
handle_request-HasContentLength env bad_request_handler request_ statics i long fits =
    (fixed_replies request_).1.1
handle_request-HasContentLength env echo_request_handler request_ statics i long fits =
    handle_echo-HasContentLength request_ long fits
handle_request-HasContentLength env health_handler request_ statics i long fits =
    (fixed_replies request_).0.1
handle_request-HasContentLength env markdown_handler request_ statics i long fits =
    of_answer-IsSized env statics _
      (handle_markdown-Sized env.libraries.boost env.files (env.read_posts statics.posts) request_)
handle_request-HasContentLength env not_found_request_handler request_ statics i long fits =
    (fixed_replies request_).2.1
handle_request-HasContentLength env status_request_handler request_ statics i long fits =
    (handle_status_lem env.request_handler_uri request_ statics []).1
handle_request-HasContentLength env (redirect_handler host_) request_ statics i long fits =
    elim i [ ]
handle_request-HasContentLength env (reverse_proxy_handler l d p) request_ statics i long fits =
    of_proxy-IsSized statics _ (λ reply e.
      handle_proxy-HasContentLength env.fuel env.libraries env.nets
        (record { location_path_ = l; proxy_dest_ = d; proxy_port_ = p }) request_ e)
handle_request-HasContentLength env (static_request_handler l r) request_ statics i long fits =
    of_static-IsSized statics _ (handle_static-Sized env.libraries.boost env.files l r request_)
