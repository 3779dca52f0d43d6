-- ===== src/Http/RequestParser/Folding.antt =====
-- The temporaries of the parser at the start of a header's line.
use cs.Prelude.{ℕ, ◌≡◌, refl, [], ◌∷◌, arith, Text}
use cs.Http.Request.{Request}
use cs.Http.RequestParser.{
  State, method_start, header_line_start, RequestParser, initial, consume_in, consume, feed,
}

-- At the start of a header's line nothing of a header is held.
abbrev pub IsClear : RequestParser → Type 0
IsClear p = p.state_ ≡ header_line_start → (p.temp_key ≡ []) × (p.temp_value ≡ [])

consume-IsClear :
    (s : State) (p : RequestParser) (req : Request) (c : ℕ)
    → p.state_ ≡ s
    → IsClear p
    → IsClear (consume_in s p req c).parser
unfolding consume_in
consume-IsClear method_start p req c e h = ground arith
consume-IsClear _ p req c e h = ground arith

feed-IsClear_from :
    (d : Text) (p : RequestParser) (req : Request) → IsClear p → IsClear (feed p req d).parser
unfolding feed
feed-IsClear_from [] p req h = h
feed-IsClear_from (c ∷ d) p req h =
    let here = consume-IsClear p.state_ p req c refl h in
    grind (arith, feed-IsClear_from d (consume p req c).parser (consume p req c).request here, here)

feed-IsClear : (d : Text) (req : Request) → IsClear (feed initial req d).parser
feed-IsClear d req = feed-IsClear_from d initial req (λ e. ground arith)

-- Whatever bytes a fresh parser has read, where it is at the start of a header's line it holds no
-- name and no value: the branch of `header_line_start` that stores a pending header is dead.
pub feed-line_start :
    (d : Text) (req : Request)
    → (feed initial req d).parser.state_ ≡ header_line_start
    → ((feed initial req d).parser.temp_key ≡ []) × ((feed initial req d).parser.temp_value ≡ [])
feed-line_start d req = feed-IsClear d req
