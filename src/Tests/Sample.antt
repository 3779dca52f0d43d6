-- ===== src/Tests/Sample.antt =====
-- The inputs that the tests share.
use cs.Prelude.{ℕ, ◌≡◌, refl, arith, Bool, true, false, not, all, All, [], ◌∷◌, Text}
use cs.Strings.{contains}
use cs.Boost.{Boost, substitute}

-- A replacement of single bytes alone. The program searches for nothing longer but in
-- src/request_handler/markdown_handler.cc and src/request_handler/reverse_proxy_handler.cc.
abbrev pub replace_byte : Text → Text → Text → Text
replace_byte input (c ∷ []) format = substitute c format input
replace_byte input search format = input

pub replace_byte-absent :
    (input search format : Text)
    → contains search input ≡ false
    → replace_byte input search format ≡ input
unfolding contains
replace_byte-absent [] (c ∷ []) format h = refl
replace_byte-absent (d ∷ input) (c ∷ []) format h =
    ground (arith, replace_byte-absent input (c ∷ []) format)
replace_byte-absent [] [] format h = refl
replace_byte-absent (d ∷ input) [] format h = refl
replace_byte-absent [] (c ∷ d ∷ search) format h = refl
replace_byte-absent (e ∷ input) (c ∷ d ∷ search) format h = refl

abbrev pub sample_boost : Boost
sample_boost = record {
  replace_all = replace_byte;
  replace_all_byte = λ input c format. refl;
  replace_all_absent = replace_byte-absent;
}

-- A test that fails, or holds, for every byte of a text, run on it.
pub All-eq-false :
    (test : ℕ → Bool) (s : Text) → all (λ c. not (test c)) s ≡ true → All (λ c. test c ≡ false) s
All-eq-false test [] h = tt
All-eq-false test (c ∷ s) h = ground (arith, All-eq-false test s)

pub All-eq-true : (test : ℕ → Bool) (s : Text) → all test s ≡ true → All (λ c. test c ≡ true) s
All-eq-true test [] h = tt
All-eq-true test (c ∷ s) h = ground (arith, All-eq-true test s)
