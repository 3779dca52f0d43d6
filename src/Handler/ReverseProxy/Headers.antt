-- ===== src/Handler/ReverseProxy/Headers.antt =====
-- The reverse proxy's loops over the lines of headers.
use cs.Prelude.{
  ℕ, ◌≡◌, refl, ◌∙◌, ap, arith, Bool, true, false, [], ◌∷◌, ◌++◌, append-nil, append_assoc, ◌==◌,
  Text, All, ◌&&◌,
}
use cs.OrderedMap
use cs.OrderedMap.{OrderedMap}
use cs.OrderedMap.Order.{insert_all}
use cs.Handler.ReverseProxy.External.{Libraries, IsTrim}
use cs.Handler.ReverseProxy.Response.{returned, Line, new_line, next_byte, read_headers}
use cs.Handler.ReverseProxy.Wire.{NoReturn, lines, IsReadable}

module _ (lib : Libraries) where
  abbrev line : Text → Text → Bool → Line
  line t key is_key = record {
    tmp_buf = t;
    header_key = key;
    ignore_whitespace = false;
    is_header_key = is_key;
  }

  read_headers-next :
      (m : OrderedMap Text) (inside : Bool) (l : Line) (c : ℕ) (u : Text) (d : ℕ) (s : Text)
      → (c == b'\r') ≡ false
      → read_headers lib m inside l (c ∷ (u ++ (d ∷ s)))
        ≡ read_headers lib m true (next_byte c l) (u ++ (d ∷ s))
  unfolding read_headers
  read_headers-next m true l c [] d s n = rw n
  read_headers-next m true l c (e ∷ u) d s n = rw n
  read_headers-next m false l c [] d s n = rw n
  read_headers-next m false l c (e ∷ u) d s n = rw n

  -- A run of bytes is put behind what was read.
  read_run :
      (m : OrderedMap Text) (key t u : Text) (is_key : Bool) (d : ℕ) (s : Text)
      → NoReturn u
      → All (λ c. (is_key && (c == b':')) ≡ false) u
      → read_headers lib m true (line t key is_key) (u ++ (d ∷ s))
        ≡ read_headers lib m true (line (t ++ u) key is_key) (d ∷ s)
  unfolding next_byte
  read_run m key t [] is_key d s h k = rw append-nil
  read_run m key t (c ∷ u) is_key d s (n, h) (p, k) =
      read_headers-next m true (line t key is_key) c u d s n
      ∙ rw p (read_run m key (t ++ (c ∷ [])) u is_key d s h k ∙ rw append_assoc)

  read_key :
      (m : OrderedMap Text) (a : ℕ) (k s : Text)
      → IsTrim (a ∷ k)
      → NoReturn (a ∷ k)
      → All (λ c. (c == b':') ≡ false) (a ∷ k)
      → read_headers lib m false new_line ((a ∷ k) ++ (b':' ∷ b' ' ∷ s))
        ≡ read_headers lib m true
            (record {
              tmp_buf = [];
              header_key = a ∷ k;
              ignore_whitespace = true;
              is_header_key = false;
            })
            (b' ' ∷ s)
  unfolding next_byte
  read_key m a k s t (n, h) (p, g) =
      let space : (a == b' ') ≡ false = ground arith in
      read_headers-next m false new_line a k b':' (b' ' ∷ s) n
      ∙ rw space (
          read_run m [] (a ∷ []) k true b':' (b' ' ∷ s) h g
          ∙ read_headers-next m true (line (a ∷ k) [] true) b':' [] b' ' s refl)

  abbrev valued : Text → Line
  valued k = record {
    tmp_buf = [];
    header_key = k;
    ignore_whitespace = true;
    is_header_key = false;
  }

  any_byte : (P : ℕ → Type 0) → ((c : ℕ) → P c) → (s : Text) → All P s
  any_byte P f [] = tt
  any_byte P f (c ∷ s) = (f c, any_byte P f s)

  stored :
      (m : OrderedMap Text) (k v : Text)
      → IsTrim k
      → IsTrim v
      → OrderedMap.insert (lib.trim_copy k) (lib.trim_copy v) m ≡ OrderedMap.insert k v m
  stored m k v tk tv = rw (lib.trim_copy_plain k tk, lib.trim_copy_plain v tv) refl

  read_value :
      (m : OrderedMap Text) (k v s : Text)
      → IsTrim k
      → IsTrim v
      → NoReturn v
      → read_headers lib m true (valued k) (b' ' ∷ (v ++ (b'\r' ∷ b'\n' ∷ s)))
        ≡ read_headers lib (OrderedMap.insert k v m) false new_line s
  unfolding read_headers next_byte
  read_value m k [] s tk tv h = ap (λ j. read_headers lib j false new_line s) (stored m k [] tk tt)
  read_value m k (a ∷ v) s tk tv (n, h) =
      let space : (a == b' ') ≡ false = ground arith in
      read_headers-next m true (valued k) a v b'\r' (b'\n' ∷ s) n
      ∙ rw space (
          read_run m k (a ∷ []) v false b'\r' (b'\n' ∷ s) h
            (any_byte (λ c. (false && (c == b':')) ≡ false) (λ c. refl) v))
      ∙ ap (λ j. read_headers lib j false new_line s) (stored m k (a ∷ v) tk tv)

  pub read_headers-lines :
      (es m : OrderedMap Text)
      → IsReadable es
      → read_headers lib m false new_line (lines es) ≡ returned (insert_all es m)
  read_headers-lines [] m r = unfold read_headers in refl
  read_headers-lines (([], v) ∷ es) m r = elim r [ ]
  read_headers-lines ((a ∷ k, v) ∷ es) m (tk, nk, ck, tv, nv, r) =
      read_key m a k (v ++ (b'\r' ∷ b'\n' ∷ lines es)) tk nk ck
      ∙ read_value m (a ∷ k) v (lines es) tk tv nv
      ∙ read_headers-lines es (OrderedMap.insert (a ∷ k) v m) r
