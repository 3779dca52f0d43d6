-- ===== src/Session/Formatting.antt =====
-- Bytes that `handle_read` formats never leave the parser waiting for more.
use cs.Prelude.{
  ℕ, zero, suc, ◌+◌, ◌≤◌, ◌<◌, ◌≡◌, ◌≢◌, refl, ◌∙◌, sym, ap, ◌⊎◌, inl, inr, true, false, not, ◌&&◌,
  [], ◌∷◌, ◌++◌, append_assoc, some, arith, ltb, ◌==◌, Bool-cases, Text, length, take, take-append,
  drop,
}
use cs.Boost.{Boost, substitute}
use cs.Strings.{back_is, pop_back, up_to_nul}
use cs.Strings.Slashes.{pop_back-append, length-pop_back}
use cs.Http.Request.{Request}
use cs.Http.RequestParser.{initial, indeterminate, is_not_token, consume_in, feed}
use cs.Http.RequestParser.Feeding.{feed_nul, feed_blank_line}
use cs.Session.{trim_loop, format_text, strcpy}

-- A line's end, or at most one byte.
abbrev IsTrimmed : Text → Type 0
IsTrimmed s = (ltb 1 (length s) && not (back_is b'\n' s)) ≡ false

trim_loop-IsTrimmed : (fuel : ℕ) (s : Text) → length s ≤ suc fuel → IsTrimmed (trim_loop fuel s)
unfolding trim_loop
trim_loop-IsTrimmed zero s h = ground arith
trim_loop-IsTrimmed (suc fuel) s h = elim (Bool-cases (ltb 1 (length s) && not (back_is b'\n' s))) [
  | inl more ↦ rw more (trim_loop-IsTrimmed fuel (pop_back s) (omega (arith, length-pop_back s)))
  | inr done ↦ rw done done
]

substitute-append :
    (c : ℕ) (f s t : Text) → substitute c f (s ++ t) ≡ substitute c f s ++ substitute c f t
substitute-append c f [] t = refl
substitute-append c f (d ∷ s) t =
    ground (arith, substitute-append c f s t, append_assoc f (substitute c f s) (substitute c f t))

abbrev crlf : Text
crlf = b'\r' ∷ b'\n' ∷ []

-- A text of at most one byte, with ends of line behind it, is no beginning of a request.
feed_short :
    (s : Text) (req : Request)
    → ltb 1 (length s) ≡ false
    → (feed initial req (substitute b'\n' crlf s ++ crlf)).result ≢ indeterminate
unfolding feed consume_in
feed_short [] req h e =
    let cr : is_not_token b'\r' ≡ true = unfold is_not_token in refl in ground arith
feed_short (c ∷ []) req h e =
    let cr : is_not_token b'\r' ≡ true = unfold is_not_token in refl in
    elim (Bool-cases (c == b'\n')) [ inl newline ↦ ground arith | inr other ↦ ground arith ]
feed_short (c ∷ d ∷ s) req h e = ground arith

feed_trimmed :
    (t : Text) (req : Request)
    → IsTrimmed t
    → (feed initial req (substitute b'\n' crlf t ++ crlf)).result ≢ indeterminate
feed_trimmed t req h = elim (Bool-cases (back_is b'\n' t)) [
  | inl line ↦
      let before = substitute b'\n' crlf (pop_back t) in
      let shape : substitute b'\n' crlf t ≡ (before ++ (b'\r' ∷ [])) ++ (b'\n' ∷ []) =
        ap (substitute b'\n' crlf) (sym (pop_back-append b'\n' t line))
        ∙ substitute-append b'\n' crlf (pop_back t) (b'\n' ∷ [])
        ∙ sym (append_assoc before (b'\r' ∷ []) (b'\n' ∷ [])) in
      rw shape (feed_blank_line (before ++ (b'\r' ∷ [])) initial req)
  | inr other ↦ feed_short t req (ground arith)
]

feed-format_text :
    (boost : Boost) (s : Text) (req : Request)
    → (feed initial req (format_text boost s)).result ≢ indeterminate
unfolding format_text
feed-format_text boost s req =
    let t = trim_loop (length s) s in
    rw (boost.replace_all_byte t b'\n' crlf)
      (feed_trimmed t req (trim_loop-IsTrimmed (length s) s (omega arith)))

up_to_nul-cases : (s : Text) → (up_to_nul s ≡ s) ⊎ (length (up_to_nul s) < length s)
unfolding up_to_nul
up_to_nul-cases [] = inl refl
up_to_nul-cases (c ∷ s) = ground (arith, up_to_nul-cases s)

take-append_more :
    (n : ℕ) (u : Text) (c : ℕ) (j : Text)
    → length u < n
    → (b : Text) × (take n (u ++ (c ∷ j)) ≡ u ++ (c ∷ b))
take-append_more zero u c j h = absurd (omega arith)
take-append_more (suc n) [] c j h = (take n j, refl)
take-append_more (suc n) (d ∷ u) c j h =
    let (b, e) = take-append_more n u c j (omega arith) in (b, ap (◌∷◌ d) e)

-- What `strcpy` copies of a text with a NUL in it is cut there, and the parser stops at the NUL.
pub feed-strcpy :
    (boost : Boost) (data_ received : Text) (req : Request) {memory : Text}
    → strcpy data_ (format_text boost received) ≡ some memory
    → (feed initial req (take (length (format_text boost received)) memory)).result ≢ indeterminate
unfolding strcpy
feed-strcpy boost data_ received req {memory} e =
    let text = format_text boost received in
    let junk = drop (length (up_to_nul text) + 1) data_ in
    let copied : up_to_nul text ++ (0 ∷ junk) ≡ memory = ground arith in
    elim (up_to_nul-cases text) [
      | inl whole ↦
          let all_read : take (length text) memory ≡ text =
            ap (take (length text)) (sym copied)
            ∙ ap (λ u. take (length text) (u ++ (0 ∷ junk))) whole
            ∙ take-append text (0 ∷ junk) in
          rw all_read (feed-format_text boost received req)
      | inr cut ↦
          let (b, part) = take-append_more (length text) (up_to_nul text) 0 junk cut in
          let read : take (length text) memory ≡ up_to_nul text ++ (0 ∷ b) =
            ap (take (length text)) (sym copied) ∙ part in
          rw read (feed_nul (up_to_nul text) b initial req)
    ]
