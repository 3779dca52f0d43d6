-- ===== src/Strings.antt =====
-- Operations of `std::string` that several handlers use.
pub mod Slashes
use cs.Prelude.{
  ℕ, zero, suc, ◌+◌, ◌-◌, Bool, true, false, ◌&&◌, ◌||◌, [], ◌∷◌, ◌++◌, Option, none, some, ltb,
  ◌==◌, if◌then◌else◌, Text, length, take, drop, starts_with,
}

-- `s.back() == c`; false on an empty text.
unfoldable pub back_is : ℕ → Text → Bool
back_is c [] = false
back_is c (d ∷ []) = d == c
back_is c (d ∷ e ∷ s) = back_is c (e ∷ s)

-- `pop_back`
unfoldable pub pop_back : Text → Text
pop_back [] = []
pop_back (c ∷ []) = []
pop_back (c ∷ d ∷ s) = c ∷ pop_back (d ∷ s)

-- `while (s.length() > 1 && s.back() == '/') s.pop_back();` on fuel.
unfoldable pub strip_loop : ℕ → Text → Text
unfolding back_is pop_back
strip_loop zero s = s
strip_loop (suc fuel) s =
    let rest = strip_loop fuel (pop_back s) in
    if ltb 1 (length s) && back_is b'/' s then rest else s

-- The loop with the fuel that it needs.
unfoldable pub strip_slashes : Text → Text
unfolding strip_loop
strip_slashes s = strip_loop (length s) s

-- `s.replace(0, n, t)`
abbrev pub replace_front : ℕ → Text → Text → Text
replace_front n t s = t ++ drop n s

-- `s.find(t) != npos`
unfoldable pub contains : Text → Text → Bool
contains t [] = starts_with [] t
contains t (c ∷ s) = let later = contains t s in if starts_with (c ∷ s) t then true else later

-- `s.substr(s.find_last_of(c) + 1)`: all of `s` where it does not hold `c`.
unfoldable pub after_last : ℕ → Text → Text → Text
after_last c found [] = found
after_last c found (d ∷ s) = after_last c (if d == c then s else found) s

-- The bytes of a text up to its first NUL.
unfoldable pub up_to_nul : Text → Text
up_to_nul [] = []
up_to_nul (c ∷ s) = if c == 0 then [] else c ∷ up_to_nul s

-- Whether a byte is one of a text.
abbrev pub stands_in : Text → ℕ → Bool
stands_in [] n = false
stands_in (c ∷ s) n = n == c || stands_in s n
