-- ===== src/Handler/ReverseProxy/Wire.antt =====
-- The bytes of a reply of this server, and where the reverse proxy finds its parts in them.
use cs.Prelude.{
  ℕ, ◌+◌, ◌-◌, ◌≡◌, refl, ◌∙◌, ap, arith, false, List, [], ◌∷◌, ◌++◌, append_assoc, ◌==◌, Text,
  codes, length, length-append, take, All, All-append,
}
use cs.OrderedMap.{OrderedMap}
use cs.Http.Reply.{StatusCode, ok, to_buffer, header_buffers}
use cs.Http.Reply.Laws.{IsListed}
use cs.Handler.ReverseProxy.External.{IsTrim}
use cs.Handler.ReverseProxy.Response.{find_text, scan_status}

-- What goes over the wire: the buffers, one behind the other.
abbrev pub joined : List Text → Text
joined [] = []
joined (b ∷ bs) = b ++ joined bs

-- The status line without its end.
abbrev pub status_text : StatusCode → Text
status_text c = take (length (to_buffer c) - 2) (to_buffer c)

pub to_buffer-status_text :
    (c : StatusCode) → IsListed c → to_buffer c ≡ status_text c ++ codes "\r\n"
unfolding to_buffer
to_buffer-status_text ok h = refl
to_buffer-status_text (StatusCode.other n) h = elim h [ ]
to_buffer-status_text _ h = refl

pub scan_status-status_text :
    (c : StatusCode) → IsListed c → scan_status 0 0 0 (StatusCode.other 0) (status_text c) ≡ c
unfolding to_buffer scan_status
scan_status-status_text ok h = refl
scan_status-status_text (StatusCode.other n) h = elim h [ ]
scan_status-status_text _ h = refl

abbrev pub NoReturn : Text → Type 0
NoReturn = All (λ c. (c == b'\r') ≡ false)

pub status_text-NoReturn : (c : StatusCode) → IsListed c → NoReturn (status_text c)
unfolding to_buffer
status_text-NoReturn ok h = ground arith
status_text-NoReturn (StatusCode.other n) h = elim h [ ]
status_text-NoReturn _ h = ground arith

-- The lines of headers.
abbrev pub lines : OrderedMap Text → Text
lines [] = []
lines ((k, v) ∷ m) = k ++ (codes ": " ++ (v ++ (codes "\r\n" ++ lines m)))

pub joined-header_buffers :
    (m : OrderedMap Text) (bs : List Text) → joined (header_buffers m bs) ≡ lines m ++ joined bs
unfolding header_buffers
joined-header_buffers [] bs = refl
joined-header_buffers ((k, v) ∷ m) bs = simp (append_assoc, joined-header_buffers m bs)

-- A header that is read back: its name is not empty and holds no colon, neither name nor value holds a
-- carriage return, and neither has a space at an end.
abbrev pub IsReadable : OrderedMap Text → Type 0
IsReadable [] = Unit
IsReadable (([], v) ∷ m) = ⊥
IsReadable ((a ∷ k, v) ∷ m) =
    IsTrim (a ∷ k)
    × NoReturn (a ∷ k)
    × All (λ c. (c == b':') ≡ false) (a ∷ k)
    × IsTrim v
    × NoReturn v
    × IsReadable m

pub find_text-return :
    (u t : Text) (i : ℕ)
    → NoReturn u
    → find_text (codes "\r\n") i (u ++ (b'\r' ∷ b'\n' ∷ t)) ≡ i + length u
unfolding find_text
find_text-return [] t i h = omega arith
find_text-return (c ∷ u) t i (n, h) = rw (n, find_text-return u t (i + 1) h) (omega arith)

find_text-line :
    (a i : ℕ) (t : Text)
    → (a == b'\r') ≡ false
    → find_text (codes "\r\n\r\n") i (b'\r' ∷ b'\n' ∷ a ∷ t)
      ≡ find_text (codes "\r\n\r\n") (i + 1 + 1) (a ∷ t)
unfolding find_text
find_text-line a i t n = rw n refl

-- A header's line up to its end.
abbrev header_text : Text → Text → Text
header_text k v = k ++ (codes ": " ++ v)

header_text-NoReturn : (k v : Text) → NoReturn k → NoReturn v → NoReturn (header_text k v)
header_text-NoReturn k v n h =
    All-append (λ c. (c == b'\r') ≡ false) k (codes ": " ++ v) n (refl, (refl, h))

lines-cons :
    (k v : Text) (m : OrderedMap Text) (rest : Text)
    → lines ((k, v) ∷ m) ++ rest ≡ header_text k v ++ (b'\r' ∷ b'\n' ∷ (lines m ++ rest))
lines-cons k v m rest = simp append_assoc

-- The first empty line is the one behind the headers.
pub find_text-end :
    (m : OrderedMap Text) (u body : Text) (i : ℕ)
    → NoReturn u
    → IsReadable m
    → find_text (codes "\r\n\r\n") i (u ++ (b'\r' ∷ b'\n' ∷ (lines m ++ (b'\r' ∷ b'\n' ∷ body))))
      ≡ i + length u + length (lines m)
unfolding find_text
find_text-end m (c ∷ u) body i (n, h) r = rw (n, find_text-end m u body (i + 1) h r) (omega arith)
find_text-end [] [] body i h r = omega arith
find_text-end (([], v) ∷ m) [] body i h r = elim r [ ]
find_text-end ((a ∷ k, v) ∷ m) [] body i h (tk, nk, ck, tv, nv, r) =
    find_text-line a i
      ((k ++ (codes ": " ++ (v ++ (codes "\r\n" ++ lines m)))) ++ (b'\r' ∷ b'\n' ∷ body)) nk.0
    ∙ ap (find_text (codes "\r\n\r\n") (i + 1 + 1)) (lines-cons (a ∷ k) v m (b'\r' ∷ b'\n' ∷ body))
    ∙ find_text-end m (header_text (a ∷ k) v) body (i + 1 + 1)
        (header_text-NoReturn (a ∷ k) v nk nv) r
    ∙ omega (
      arith,
      length-append k (codes ": " ++ v),
      length-append k (codes ": " ++ (v ++ (codes "\r\n" ++ lines m))),
      length-append v (codes "\r\n" ++ lines m),
    )
