-- ===== src/Config/Query/Port.antt =====
-- The port that the server listens on.
use cs.Prelude.{
  ℕ, ◌%◌, ◌^◌, ◌<◌, ◌≡◌, ap, not, ◌||◌, Option, some, arith, ltb, if◌then◌else◌, Text, codes,
}
use cs.Prelude.Int.{pos, leb_ℤ}
use cs.Decimal.{to_string}
use cs.Decimal.Laws.{stoi-to_string}
use cs.Config.Syntax.{NginxConfig}
use cs.Config.Query.{get_config, to_short, port_of, read_config, port_error, serve, start_up}

port_of-to_string :
    (c : NginxConfig) (n : ℕ)
    → get_config (codes "port") c ≡ to_string n
    → n < 2 ^ 31
    → port_of c ≡ to_short (pos n)
unfolding port_of
port_of-to_string c n g h = rw (g, port_of) (rw (stoi-to_string n h))

-- The test of `main` on a `short`.
decided :
    (c : NginxConfig) (n : ℕ)
    → (if not (leb_ℤ (pos 0) (to_short (pos n))) || not (leb_ℤ (to_short (pos n)) (pos 65535))
        then port_error
        else serve c (to_short (pos n)))
      ≡ (if ltb (n % 2 ^ 16) (2 ^ 15) then serve c (pos (n % 2 ^ 16)) else port_error)
unfolding to_short
decided c n = ground arith

-- Where the configuration names the port `n`, an `int`, the server listens on `n` modulo 65536 if
-- that is below 32768, and `main` refuses it as invalid otherwise.
pub start_up-port :
    (file : Option Text) (c : NginxConfig) (n : ℕ)
    → read_config file ≡ some c
    → get_config (codes "port") c ≡ to_string n
    → n < 2 ^ 31
    → start_up 2 file
      ≡ some (if ltb (n % 2 ^ 16) (2 ^ 15) then serve c (pos (n % 2 ^ 16)) else port_error)
start_up-port file c n r g h =
    let p : port_of c ≡ to_short (pos n) = port_of-to_string c n g h in
    unfold start_up in rw (r, p) (ap some (decided c n))
