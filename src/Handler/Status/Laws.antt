-- ===== src/Handler/Status/Laws.antt =====
-- The status page leaves the counts as they were.
use cs.Prelude.{
  ℕ, ◌≡◌, refl, ◌∙◌, ap, List, [], ◌∷◌, ◌++◌, arith, if◌then◌else◌, Bool-cases, inl, inr, Text,
  text_eq, text_eq_iff, text_eq_refl,
}
use cs.OrderedMap
use cs.OrderedMap.{OrderedMap, lookup-insert}
use cs.Http.Request.{Request}
use cs.Http.Reply.{value, ok}
use cs.Http.Reply.Laws.{HasContentLength}
use cs.Handler.Status.{Statics, codes_of, push_code, drop_last, pop_code, handle_status}

drop_last-concat : (l : List ℕ) (c : ℕ) → drop_last (l ++ (c ∷ [])) ≡ l
unfolding drop_last
drop_last-concat [] c = refl
drop_last-concat (d ∷ []) c = refl
drop_last-concat (d ∷ e ∷ l) c = ap (◌∷◌ d) (drop_last-concat (e ∷ l) c)

codes_of-insert :
    (k j : Text) (l : List ℕ) (m : OrderedMap (List ℕ))
    → codes_of j (OrderedMap.insert k l m) ≡ (if text_eq k j then l else codes_of j m)
unfolding codes_of
codes_of-insert k j l m = ground (arith, lookup-insert k j l m)

codes_of-push_code :
    (uri j : Text) (c : ℕ) (m : OrderedMap (List ℕ))
    → codes_of j (push_code uri c m)
      ≡ (if text_eq uri j then codes_of uri m ++ (c ∷ []) else codes_of j m)
unfolding push_code
codes_of-push_code uri j c m = codes_of-insert uri j (codes_of uri m ++ (c ∷ [])) m

pop_code-push_code :
    (uri j : Text) (c : ℕ) (m : OrderedMap (List ℕ))
    → codes_of j (pop_code uri (push_code uri c m)) ≡ codes_of j m
unfolding pop_code
pop_code-push_code uri j c m = elim (Bool-cases (text_eq uri j)) [
  | inl same ↦
      let e : uri ≡ j = (text_eq_iff uri j).0 same in
      codes_of-insert uri j _ (push_code uri c m)
      ∙ rw same (
          ap drop_last (codes_of-push_code uri uri c m ∙ rw (text_eq_refl uri))
          ∙ drop_last-concat (codes_of uri m) c
          ∙ ap (λ k. codes_of k m) e)
  | inr other ↦
      codes_of-insert uri j _ (push_code uri c m)
      ∙ rw other (codes_of-push_code uri j c m ∙ rw other)
]

-- The status page is a 200 with the length of its body, and the call leaves the number of requests
-- and, for any URL, the response codes that were received as they were.
pub handle_status_lem :
    (uris : OrderedMap Text) (request_ : Request) (s : Statics) (uri : Text)
    → (value (handle_status uris request_ s).0.code_ ≡ 200)
      × HasContentLength (handle_status uris request_ s).0
      × ((handle_status uris request_ s).1.num_requests ≡ s.num_requests)
      × (codes_of uri (handle_status uris request_ s).1.request_code_received_
          ≡ codes_of uri s.request_code_received_)
unfolding handle_status
handle_status_lem uris request_ s uri = (
  unfold value in refl,
  unfold OrderedMap.lookup OrderedMap.insert in refl,
  refl,
  pop_code-push_code request_.uri_ uri (value ok) s.request_code_received_,
)
