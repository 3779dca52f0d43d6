-- ===== src/Logger/Lines.antt =====
-- What a client can put into the log.
use mathlib.Core.Path.{subst}
use cs.Prelude.{ℕ, ◌≡◌, ◌⊎◌, inl, inr, arith, false, [], ◌∷◌, ◌++◌, some, All-append, Text, codes}
use cs.Decimal.{to_string}
use cs.Decimal.Laws.{IsDigits, to_string-IsDigits}
use cs.Http.Request.{Request}
use cs.Http.Reply.{Reply, value}
use cs.Http.RequestParser.{
  State, method_start, RequestParser, initial, consume_in, consume, is_control, feed,
}
use cs.Http.RequestParser.CharClasses.{IsPlain}
use cs.Logger.{SeverityLevel, Entry, metrics_message, log_metrics}

-- A byte changes the URI only by being put behind it, and is no control byte then.
consume-uri_ :
    (s : State) (p : RequestParser) (req : Request) (c : ℕ)
    → ((consume_in s p req c).request.uri_ ≡ req.uri_)
      ⊎ (((consume_in s p req c).request.uri_ ≡ req.uri_ ++ (c ∷ [])) × (is_control c ≡ false))
unfolding consume_in
consume-uri_ method_start p req c = ground arith
consume-uri_ _ p req c = ground arith

consume-IsPlain :
    (s : State) (p : RequestParser) (req : Request) (c : ℕ)
    → IsPlain req.uri_
    → IsPlain (consume_in s p req c).request.uri_
consume-IsPlain s p req c h = elim (consume-uri_ s p req c) [
  | inl same ↦ rw same h
  | inr (more, plain) ↦
      rw more (All-append (λ d. is_control d ≡ false) req.uri_ (c ∷ []) h (plain, tt))
]

feed-IsPlain :
    (s : Text) (p : RequestParser) (req : Request)
    → IsPlain req.uri_
    → IsPlain (feed p req s).request.uri_
unfolding feed
feed-IsPlain [] p req h = h
feed-IsPlain (c ∷ s) p req h =
    let here = consume-IsPlain p.state_ p req c h in
    grind (arith, feed-IsPlain s (consume p req c).parser (consume p req c).request here, here)

IsDigits-IsPlain : (s : Text) → IsDigits s → IsPlain s
unfolding is_control
IsDigits-IsPlain [] h = tt
IsDigits-IsPlain (c ∷ s) (d, h) = (ground arith, IsDigits-IsPlain s h)

labels-IsPlain :
    IsPlain (codes "<Notification>: ")
    × IsPlain (codes "{ResponseMetrics} response_code:")
    × IsPlain (codes ", request_path:")
    × IsPlain (codes ", request_ip:")
    × IsPlain (codes ", handler_name:")
unfolding is_control
labels-IsPlain = ground arith

join : (s t : Text) → IsPlain s → IsPlain t → IsPlain (s ++ t)
join s t h k = All-append (λ c. is_control c ≡ false) s t h k

metrics_message-IsPlain :
    (code path address handler_name : Text)
    → IsPlain code
    → IsPlain path
    → IsPlain address
    → IsPlain handler_name
    → IsPlain (metrics_message code path address handler_name)
metrics_message-IsPlain code path address handler_name c p a n =
    let (prefix, metrics, path_label, ip, name) = labels-IsPlain in
    let t : Text = codes ", handler_name:" ++ handler_name in
    let u : Text = codes ", request_ip:" ++ (address ++ t) in
    let v : Text = codes ", request_path:" ++ (path ++ u) in
    let t_IsPlain : IsPlain t = join (codes ", handler_name:") handler_name name n in
    let u_IsPlain : IsPlain u =
      join (codes ", request_ip:") (address ++ t) ip (join address t a t_IsPlain) in
    let v_IsPlain : IsPlain v =
      join (codes ", request_path:") (path ++ u) path_label (join path u p u_IsPlain) in
    join (codes "<Notification>: ") (codes "{ResponseMetrics} response_code:" ++ (code ++ v)) prefix
      (join (codes "{ResponseMetrics} response_code:") (code ++ v) metrics
        (join code v c v_IsPlain))

entry-message :
    {severity : SeverityLevel} {message : Text} {e : Entry}
    → some (record { severity = severity; message = message }) ≡ some e
    → message ≡ e.message
entry-message h = cc

-- Whatever bytes a session reads, from a request whose URI holds no control byte, a fresh one's is
-- empty, the metrics that it logs hold none, no end of line in particular: the URI of the client
-- stays within one line of the log, if the address and the name of the handler hold none either.
pub log_metrics-IsPlain :
    (text : Text) (req : Request) (reply_ : Reply) (address handler_name : Text) {e : Entry}
    → IsPlain req.uri_
    → IsPlain address
    → IsPlain handler_name
    → log_metrics (feed initial req text).request reply_ (some address) handler_name ≡ some e
    → IsPlain e.message
unfolding log_metrics
log_metrics-IsPlain text req reply_ address handler_name u a n logged =
    let uri_ = (feed initial req text).request.uri_ in
    subst IsPlain (entry-message logged) (
      metrics_message-IsPlain (to_string (value reply_.code_)) uri_ address handler_name
        (IsDigits-IsPlain (to_string (value reply_.code_))
          (to_string-IsDigits (value reply_.code_)))
        (feed-IsPlain text initial req u) a n)
