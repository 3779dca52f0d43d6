-- ===== src/Http/RequestParser/Exactness.antt =====
-- The parser accepts the grammar, and nothing else.
use cs.Prelude.{
  ℕ, zero, suc, ◌≤◌, ◌<◌, ◌≡◌, ◌↔◌, ◌∙◌, sym, ap, List, [], ◌∷◌, ◌++◌, arith, Text, length,
  length-append,
}
use cs.OrderedMap.{OrderedMap}
use cs.Http.Request.{Request}
use cs.Http.RequestParser.{
  method_start, header_line_start, expecting_newline_3, initial, good, feed,
}
use cs.Http.RequestParser.Pieces.{at}
use cs.Http.RequestParser.Grammar.{
  Line, named, folded, Head, render_line, render_lines, render_request_line, render_head,
  store_line, AreLines, IsHead, apply_request_line, apply_head,
}
use cs.Http.RequestParser.Accepting.{feed-line, feed-render_request_line, feed-render_head}
use cs.Http.RequestParser.Splitting.{Accepts, onward}
use cs.Http.RequestParser.RequestLines.{split-RequestLine}
use cs.Http.RequestParser.Lines.{last, line, line_start-Lined}

-- The lines of a head, where the headers before them are `m`.
record Body (m : OrderedMap Text) (s : Text) : Type 0 where
  lines : List Line
  rest : Text
  are_lines : AreLines m lines
  whole : s ≡ render_lines lines rest

render_line-length : (l : Line) (rest : Text) → length rest < length (render_line l rest)
render_line-length (named first others value) rest = omega (
  arith,
  length-append others (b':' ∷ b' ' ∷ (value ++ (b'\r' ∷ b'\n' ∷ rest))),
  length-append value (b'\r' ∷ b'\n' ∷ rest),
)
render_line-length (folded first blanks value) rest = omega (
  arith,
  length-append blanks (value ++ (b'\r' ∷ b'\n' ∷ rest)),
  length-append value (b'\r' ∷ b'\n' ∷ rest),
)

lines-Body :
    (n : ℕ) (req : Request) (s : Text)
    → length s ≤ n
    → Accepts (at header_line_start [] []) req s
    → Body req.headers_ s
lines-Body zero req s short h = elim (line_start-Lined req s h) [
  | last rest e ↦ record { lines = []; rest = rest; are_lines = tt; whole = e }
  | line l rest i e ↦ absurd (omega (arith, ap length e, render_line-length l rest))
]
lines-Body (suc n) req s short h = elim (line_start-Lined req s h) [
  | last rest e ↦ record { lines = []; rest = rest; are_lines = tt; whole = e }
  | line l rest i e ↦
      let onward = record req { headers_ = store_line l req.headers_ } in
      let accepted : Accepts (at header_line_start [] []) onward rest =
        sym (ap (λ q. q.result) (feed-line l rest req i)) ∙ (rw e at h) in
      let b =
        lines-Body n onward rest (omega (arith, ap length e, render_line-length l rest)) accepted in
      record {
        lines = l ∷ b.lines;
        rest = b.rest;
        are_lines = (i, b.are_lines);
        whole = e ∙ ap (render_line l) b.whole;
      }
]

-- A head of the grammar, where the headers before it are `m`.
record Headed (m : OrderedMap Text) (s : Text) : Type 0 where
  head : Head
  rest : Text
  is_head : IsHead m head
  whole : s ≡ render_head head rest

accepted-Headed : (req : Request) (s : Text) → Accepts initial req s → Headed req.headers_ s
accepted-Headed req s h =
    let l = split-RequestLine s (onward method_start [] [] req s h) in
    let accepted : Accepts (at header_line_start [] []) (apply_request_line l.head req) l.rest =
      sym (ap (λ q. q.result) (feed-render_request_line l.head l.rest req l.is_request_line))
      ∙ (rw l.whole at h) in
    let b = lines-Body (length l.rest) _ l.rest (omega arith) accepted in
    record {
      head = record l.head { lines = b.lines };
      rest = b.rest;
      is_head = (
        record {
          method = l.is_request_line.method;
          uri = l.is_request_line.uri;
          major = l.is_request_line.major;
          minor = l.is_request_line.minor;
        },
        b.are_lines,
      );
      whole = l.whole ∙ ap (render_request_line l.head) b.whole;
    }

-- What the parser accepts is a head of the grammar; it leaves what stands behind the head and
-- the request that the head comes to.
pub feed_iff :
    (req after : Request) (s rest : Text)
    → ((feed initial req s).result ≡ good)
        × ((feed initial req s).rest ≡ rest)
        × ((feed initial req s).request ≡ after)
      ↔ (h : Head) × IsHead req.headers_ h × (s ≡ render_head h rest) × (apply_head h req ≡ after)
feed_iff req after s rest = (
  λ (accepted, left, behind).
      let h = accepted-Headed req s accepted in
      let fed : feed initial req s ≡ record {
        result = good;
        rest = h.rest;
        parser = at expecting_newline_3 [] [];
        request = apply_head h.head req;
      } =
        ap (feed initial req) h.whole ∙ feed-render_head h.head h.rest req h.is_head in
      let stays : h.rest ≡ rest = sym (ap (λ q. q.rest) fed) ∙ left in
      (
        h.head,
        h.is_head,
        h.whole ∙ ap (render_head h.head) stays,
        sym (ap (λ q. q.request) fed) ∙ behind,
      ),
  λ (h, is_head, whole, behind).
      let fed = ap (feed initial req) whole ∙ feed-render_head h rest req is_head in
      (ap (λ q. q.result) fed, ap (λ q. q.rest) fed, ap (λ q. q.request) fed ∙ behind),
)
