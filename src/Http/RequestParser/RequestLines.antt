-- ===== src/Http/RequestParser/RequestLines.antt =====
-- What the request lines are that the parser accepts.
use cs.Prelude.{ℕ, ◌≡◌, ◌∙◌, ap, true, false, [], ◌∷◌, ◌++◌, Text, ◌==◌}
use cs.Http.RequestParser.{
  method_start, method, uri, http_version_h, http_version_t_1, http_version_t_2, http_version_p,
  http_version_slash, http_version_major_start, http_version_major, http_version_minor_start,
  http_version_minor, expecting_newline_1, header_line_start, is_not_token, is_control, is_decimal,
}
use cs.Http.RequestParser.CharClasses.{IsNumber}
use cs.Http.RequestParser.Grammar.{Head, render_request_line, IsRequestLine}
use cs.Http.RequestParser.Splitting.{
  Onward, Is, Byte-whole, split-Run, split-Byte, method-Runs, uri-Runs, major-Runs, minor-Runs,
  start-Steps, major_start-Steps, minor_start-Steps, h-Steps, t_1-Steps, t_2-Steps, p-Steps,
  slash-Steps, newline_1-Steps,
}

-- The `HTTP/` in front of a version.
record Name (s : Text) : Type 0 where
  rest : Text
  whole : s ≡ b'H' ∷ b'T' ∷ b'T' ∷ b'P' ∷ b'/' ∷ rest
  after : Onward http_version_major_start rest

split-Name : (s : Text) → Onward http_version_h s → Name s
split-Name s o =
    let h = split-Byte http_version_h (Is b'H') http_version_t_1 s h-Steps o in
    let t = split-Byte http_version_t_1 (Is b'T') http_version_t_2 h.rest t_1-Steps h.after in
    let t' = split-Byte http_version_t_2 (Is b'T') http_version_p t.rest t_2-Steps t.after in
    let p = split-Byte http_version_p (Is b'P') http_version_slash t'.rest p-Steps t'.after in
    let g =
      split-Byte http_version_slash (Is b'/') http_version_major_start p.rest slash-Steps p.after in
    let slash = Byte-whole b'/' http_version_major_start p.rest g in
    let named = Byte-whole b'P' http_version_slash t'.rest p ∙ ap (◌∷◌ b'P') slash in
    let twice = Byte-whole b'T' http_version_p t.rest t' ∙ ap (◌∷◌ b'T') named in
    let once = Byte-whole b'T' http_version_t_2 h.rest t ∙ ap (◌∷◌ b'T') twice in
    record {
      rest = g.rest;
      whole = Byte-whole b'H' http_version_t_1 s h ∙ ap (◌∷◌ b'H') once;
      after = g.after;
    }

-- The two numbers of a version, and the end of its line.
record Version (s : Text) : Type 0 where
  major : ℕ
  majors : Text
  minor : ℕ
  minors : Text
  rest : Text
  major-IsNumber : IsNumber (major ∷ majors)
  minor-IsNumber : IsNumber (minor ∷ minors)
  whole : s ≡ major ∷ (majors ++ (b'.' ∷ minor ∷ (minors ++ (b'\r' ∷ b'\n' ∷ rest))))

split-Version : (s : Text) → Onward http_version_major_start s → Version s
split-Version s o =
    let a =
      split-Byte http_version_major_start (λ c. is_decimal c ≡ true) http_version_major s
        major_start-Steps o in
    let ax =
      split-Run http_version_major (λ c. is_decimal c ≡ true) b'.' http_version_minor_start a.rest
        major-Runs a.after in
    let b =
      split-Byte http_version_minor_start (λ c. is_decimal c ≡ true) http_version_minor ax.rest
        minor_start-Steps ax.after in
    let bs =
      split-Run http_version_minor (λ c. is_decimal c ≡ true) b'\r' expecting_newline_1 b.rest
        minor-Runs b.after in
    let n =
      split-Byte expecting_newline_1 (Is b'\n') header_line_start bs.rest newline_1-Steps
        bs.after in
    let ended =
      bs.whole ∙ ap (λ u. bs.run ++ (b'\r' ∷ u)) (Byte-whole b'\n' header_line_start bs.rest n) in
    record {
      major = a.byte;
      majors = ax.run;
      minor = b.byte;
      minors = bs.run;
      rest = n.rest;
      major-IsNumber = (a.fits, ax.all);
      minor-IsNumber = (b.fits, bs.all);
      whole =
          a.whole
          ∙ ap (◌∷◌ a.byte)
              (ax.whole ∙ ap (λ u. ax.run ++ (b'.' ∷ u)) (b.whole ∙ ap (◌∷◌ b.byte) ended));
    }

-- A request line, and what stands behind it.
pub record RequestLine (s : Text) : Type 0 where
  pub head : Head
  pub rest : Text
  pub is_request_line : IsRequestLine head
  pub whole : s ≡ render_request_line head rest

pub split-RequestLine : (s : Text) → Onward method_start s → RequestLine s
split-RequestLine s o =
    let f = split-Byte method_start (λ c. is_not_token c ≡ false) method s start-Steps o in
    let m = split-Run method (λ c. is_not_token c ≡ false) b' ' uri f.rest method-Runs f.after in
    let u =
      split-Run uri (λ c. (is_control c ≡ false) × ((c == b' ') ≡ false)) b' ' http_version_h m.rest
        uri-Runs m.after in
    let n = split-Name u.rest u.after in
    let v = split-Version n.rest n.after in
    record {
      head = record {
        first = f.byte;
        others = m.run;
        uri = u.run;
        major = v.major;
        majors = v.majors;
        minor = v.minor;
        minors = v.minors;
        lines = [];
      };
      rest = v.rest;
      is_request_line = record {
        method = (f.fits, m.all);
        uri = u.all;
        major = v.major-IsNumber;
        minor = v.minor-IsNumber;
      };
      whole =
          f.whole
          ∙ ap (◌∷◌ f.byte) (
              m.whole
              ∙ ap (λ t. m.run ++ (b' ' ∷ t))
                  (u.whole
                    ∙ ap (λ t. u.run ++ (b' ' ∷ t))
                        (n.whole ∙ ap (λ t. b'H' ∷ b'T' ∷ b'T' ∷ b'P' ∷ b'/' ∷ t) v.whole)));
    }
