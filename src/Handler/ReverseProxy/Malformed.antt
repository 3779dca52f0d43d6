-- ===== src/Handler/ReverseProxy/Malformed.antt =====
-- Responses that the reverse proxy cannot read.
use cs.Prelude.{
  take-all, ℕ, ◌+◌, ◌^◌, ◌≡◌, ◌<◌, refl, ◌∙◌, ap, arith, false, [], ◌∷◌, Text, codes, length, take,
  leb,
}
use cs.Handler.ReverseProxy.External.{Libraries}
use cs.Handler.ReverseProxy.Response.{thrown, npos, find_text, substr, read_response}
use cs.Handler.ReverseProxy.Wire.{NoReturn}

find_text-absent : (d : ℕ) (t s : Text) (i : ℕ) → NoReturn s → find_text (b'\r' ∷ d ∷ t) i s ≡ npos
unfolding find_text
find_text-absent d t [] i h = refl
find_text-absent d t (c ∷ s) i (n, h) = rw n (find_text-absent d t s (i + 1) h)

-- A response with no carriage return in it makes `substr` throw `std::out_of_range`, whatever else
-- stands in it.
pub read_response-NoReturn :
    (lib : Libraries) (s : Text) → length s < 2 ^ 64 → NoReturn s → read_response lib s ≡ thrown
unfolding read_response substr
read_response-NoReturn lib s fits h =
    let line : take (find_text (codes "\r\n") 0 s) s ≡ s =
      ap (λ n. take n s) (find_text-absent b'\n' [] s 0 h) ∙ take-all npos s (omega arith) in
    let outside : leb (length s + 2) (length s) ≡ false = ground arith in rw (line, outside) refl
