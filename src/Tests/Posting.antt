-- ===== src/Tests/Posting.antt =====
-- The Markdown handler.
use cs.Prelude.{
  ℕ, ◌≡◌, refl, arith, Bool, false, ◌&&◌, [], ◌∷◌, ◌++◌, List, none, some, leb, ◌==◌, Text, codes,
  length, replicate,
}
use cs.Strings.{up_to_nul}
use cs.Http.Request.{Request, get_req}
use cs.Handler.Static.{Files, ok_reply}
use cs.Handler.Markdown.{markdown_input, urldecode2, view_markdown}
use cs.Handler.Markdown.Decoding.{encode, urldecode2-encode, urldecode2-overflow}
use cs.Handler.Markdown.Viewing.{request_text, view_markdown-encode, view_markdown-overflow}
use cs.Tests.Sample.{sample_boost, All-eq-false}

abbrev is_small_letter : ℕ → Bool
is_small_letter c = leb b'a' c && leb c b'z'

encoded_field : encode is_small_letter (codes "a b#\n") ≡ codes "a+b%23%0A"
encoded_field = refl

urldecode2-encode_example :
    urldecode2 6 (encode is_small_letter (codes "a b#\n")) ≡ some (codes "a b#\n")
urldecode2-encode_example =
    urldecode2-encode is_small_letter 6 (codes "a b#\n") refl refl refl
      (omega arith, (omega arith, (omega arith, (omega arith, (omega arith, tt))))) (omega arith)

urldecode2-overflow_example : urldecode2 (length (codes "a+b")) (codes "a+b") ≡ none
urldecode2-overflow_example =
    urldecode2-overflow (codes "a+b") (All-eq-false (λ c. c == b'%') (codes "a+b") refl)
      (All-eq-false (λ c. c == 0) (codes "a+b") refl)

abbrev eleven_posts : List Text
eleven_posts = codes "first" ∷ replicate 10 (codes "next")

-- A Markdown library that changes nothing.
abbrev pub no_files : Files
no_files = record {
  exists = λ path. some false;
  is_regular_file = λ path. some false;
  read = λ path. none;
  markdown = λ text. text;
}

abbrev view_path : Text
view_path = codes "/markdown/view?markdown_input"

abbrev view_request : Text → Request
view_request input = record {
  method_ = get_req;
  uri_ = view_path ++ (b'=' ∷ input);
  headers_ = [];
  body_ = request_text (codes "GET") view_path input (codes "HTTP/1.1\r\n\r\n");
  http_version_major = 1;
  http_version_minor = 1;
}

view_markdown-encode_example :
    view_markdown sample_boost no_files (view_request (encode is_small_letter (codes "a#")))
    ≡ some (record {
      stored = sample_boost.replace_all (up_to_nul (codes "a#")) (codes "\r\n") (codes "\n");
      reply = ok_reply (codes "text/html") (
          no_files.markdown
            (sample_boost.replace_all (up_to_nul (codes "a#")) (codes "\r\n") (codes "\n")));
    })
view_markdown-encode_example =
    view_markdown-encode sample_boost no_files (view_request (encode is_small_letter (codes "a#")))
      is_small_letter (codes "GET") view_path (codes "a#") (codes "HTTP/1.1\r\n\r\n") refl
      (All-eq-false (λ c. c == b' ') (codes "GET") refl)
      (All-eq-false (λ c. c == b' ') view_path refl) (All-eq-false (λ c. c == b'=') view_path refl)
      refl refl refl refl (omega arith, (omega arith, tt)) (omega arith) (omega arith)

view_markdown-overflow_example :
    view_markdown sample_boost no_files (view_request (codes "ab")) ≡ none
view_markdown-overflow_example =
    view_markdown-overflow sample_boost no_files (view_request (codes "ab"))
      (All-eq-false (λ c. c == b'%') (markdown_input (view_request (codes "ab")).body_)
        (unfold markdown_input in refl))
      (All-eq-false (λ c. c == 0) (markdown_input (view_request (codes "ab")).body_)
        (unfold markdown_input in refl))
