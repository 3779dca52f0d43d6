-- ===== src/Config/Query/Search.antt =====
-- What `GetConfig` finds.
use cs.Prelude.{
  ◌≡◌, ◌≢◌, refl, ◌⊎◌, inl, inr, false, List, [], ◌∷◌, Option, none, some, arith, Text, text_eq,
  text_eq_iff, Bool-cases, Option-cases, All,
}
use cs.Config.Syntax.{
  NginxConfig, nil, cons, NginxConfigStatement, statement, ChildBlock, null, block,
}
use cs.Config.Lexer.Laws.{IsWord, plain, quoted}
use cs.Config.Printer.Statements.{IsConfig, more, IsStatement, words, within}
use cs.Config.Query.{
  find_value, or_else, nonempty, find_in_config, find_in_statement, find_in_block, get_config,
}

-- The token `v` stands directly behind `key`.
pub data Follows (key v : Text) : List Text → Type 0 where
  here : (ts : List Text) → Follows key v (key ∷ v ∷ ts)
  later : (t : Text) {ts : List Text} → Follows key v ts → Follows key v (t ∷ ts)

-- It does so in a statement of the configuration, at some depth.
mutual
  pub data InConfig (key v : Text) : NginxConfig → Type 0 where
    in_head :
        {s : NginxConfigStatement} (c : NginxConfig)
        → InStatement key v s
        → InConfig key v (cons s c)
    in_tail :
        (s : NginxConfigStatement) {c : NginxConfig} → InConfig key v c → InConfig key v (cons s c)

  pub data InStatement (key v : Text) : NginxConfigStatement → Type 0 where
    direct :
        {ts : List Text} (b : ChildBlock) → Follows key v ts → InStatement key v (statement ts b)
    inside :
        (ts : List Text) {c : NginxConfig}
        → InConfig key v c
        → InStatement key v (statement ts (block c))

module _ (key v : Text) where
  find_value_sound :
      (prev t : Text) (ts : List Text)
      → text_eq prev key ≡ false
      → find_value key prev (t ∷ ts) ≡ some v
      → Follows key v (t ∷ ts)
  unfolding find_value
  find_value_sound prev t [] n e = ground arith
  find_value_sound prev t (u ∷ us) n e = elim (Bool-cases (text_eq t key)) [
    | inl same ↦
        let p : t ≡ key = (text_eq_iff t key).0 same in
        let q : u ≡ v = ground arith in rw (p, q) (here us)
    | inr other ↦ later t (find_value_sound t u us other (rw n at e))
  ]

  find_value_complete :
      (prev : Text) {ts : List Text} → Follows key v ts → find_value key prev ts ≢ none
  unfolding find_value
  find_value_complete prev (here ts) = ground (arith, text_eq_iff key key)
  find_value_complete prev (later t f) = ground (arith, find_value_complete t f)

Follows-All : {key v : Text} {ts : List Text} → Follows key v ts → All IsWord ts → IsWord v
Follows-All (here ts) (p, (q, h)) = q
Follows-All (later t f) (p, h) = Follows-All f h

IsWord-ne-nil : {v : Text} → IsWord v → v ≢ []
IsWord-ne-nil (plain c w b h) e = cc
IsWord-ne-nil (quoted w h) e = cc

or_else-eq-some :
    (o p : Option Text) {v : Text} → or_else o p ≡ some v → (o ≡ some v) ⊎ (p ≡ some v)
or_else-eq-some none p e = inr e
or_else-eq-some (some w) p e = inl e

or_else-eq-none : (o p : Option Text) → or_else o p ≡ none → (o ≡ none) × (p ≡ none)
or_else-eq-none none p e = (refl, e)
or_else-eq-none (some w) p e = cc

nonempty-eq-some : (o : Option Text) {v : Text} → nonempty o ≡ some v → o ≡ some v
nonempty-eq-some none e = cc
nonempty-eq-some (some []) e = cc
nonempty-eq-some (some (c ∷ t)) e = e

nonempty-eq-none :
    (o : Option Text) → ((v : Text) → o ≡ some v → v ≢ []) → nonempty o ≡ none → o ≡ none
nonempty-eq-none none h e = refl
nonempty-eq-none (some []) h e = absurd (h [] refl refl)
nonempty-eq-none (some (c ∷ t)) h e = cc

module _ (key v : Text) (is_key : text_eq [] key ≡ false) where
  direct_sound :
      (ts : List Text) (b : ChildBlock)
      → find_value key [] ts ≡ some v
      → InStatement key v (statement ts b)
  direct_sound [] b e = unfold find_value in cc
  direct_sound (t ∷ ts) b e = direct b (find_value_sound key v [] t ts is_key e)

  mutual
    unfolding find_in_config

    sound_config : (c : NginxConfig) → find_in_config key c ≡ some v → InConfig key v c
    sound_config nil e = cc
    sound_config (cons s c) e = elim (or_else-eq-some (find_in_statement key s) _ e) [
      | inl first ↦ in_head c (sound_statement s first)
      | inr next ↦ in_tail s (sound_config c next)
    ]

    sound_statement :
        (s : NginxConfigStatement) → find_in_statement key s ≡ some v → InStatement key v s
    sound_statement (statement ts b) e = elim (or_else-eq-some (find_value key [] ts) _ e) [
      | inl first ↦ direct_sound ts b first
      | inr next ↦ sound_block b ts next
    ]

    sound_block :
        (b : ChildBlock) (ts : List Text)
        → find_in_block key b ≡ some v
        → InStatement key v (statement ts b)
    sound_block null ts e = cc
    sound_block (block c) ts e =
        inside ts (sound_config c (nonempty-eq-some (find_in_config key c) e))

mutual
  IsConfig-value : {key v : Text} {c : NginxConfig} → InConfig key v c → IsConfig c → IsWord v
  IsConfig-value (in_head c i) (more w k) = IsStatement-value i w
  IsConfig-value (in_tail s i) (more w k) = IsConfig-value i k

  IsStatement-value :
      {key v : Text} {s : NginxConfigStatement} → InStatement key v s → IsStatement s → IsWord v
  IsStatement-value (direct b f) (words w ws k) = Follows-All f (w, ws)
  IsStatement-value (inside ts i) (words w ws (within k)) = IsConfig-value i k

module _ (key : Text) (is_key : text_eq [] key ≡ false) where
  -- What is found in a configuration that can be read back is not empty.
  found-ne-nil :
      (c : NginxConfig) → IsConfig c → (v : Text) → find_in_config key c ≡ some v → v ≢ []
  found-ne-nil c k v e = IsWord-ne-nil (IsConfig-value (sound_config key v is_key c e) k)

  module _ (v : Text) where
    mutual
      unfolding find_in_config

      complete_config :
          {c : NginxConfig} → InConfig key v c → IsConfig c → find_in_config key c ≢ none
      complete_config (in_head {s} c i) (more w k) e =
          complete_statement i w (or_else-eq-none (find_in_statement key s) _ e).0
      complete_config (in_tail s i) (more w k) e =
          complete_config i k (or_else-eq-none (find_in_statement key s) _ e).1

      complete_statement :
          {s : NginxConfigStatement}
          → InStatement key v s
          → IsStatement s
          → find_in_statement key s ≢ none
      complete_statement (direct {ts} b f) w e =
          find_value_complete key v [] f (or_else-eq-none (find_value key [] ts) _ e).0
      complete_statement (inside ts {c} i) (words w ws (within k)) e =
          let none_inside = (or_else-eq-none (find_value key [] ts) _ e).1 in
          complete_config i k
            (nonempty-eq-none (find_in_config key c) (found-ne-nil c k) none_inside)

-- What `GetConfig` returns for a key that is not empty, unless it is "", stands directly behind the
-- key in a statement of the configuration, at some depth, if the configuration can be read back.
pub get_config-InConfig :
    (key : Text) (c : NginxConfig)
    → text_eq [] key ≡ false
    → IsConfig c
    → get_config key c ≢ []
    → InConfig key (get_config key c) c
unfolding get_config
get_config-InConfig key c is_key k = elim (Option-cases (find_in_config key c)) [
  | inl missing ↦ rw (missing, get_config) (λ n. absurd (n refl))
  | inr (v, found) ↦ rw (found, get_config) (λ n. sound_config key v is_key c found)
]

-- Where a text stands directly behind a key that is not empty in a statement of the configuration,
-- at some depth, `GetConfig` does not return "" for the key, if the configuration can be read back.
pub get_config-ne-nil :
    (key v : Text) (c : NginxConfig)
    → text_eq [] key ≡ false
    → IsConfig c
    → InConfig key v c
    → get_config key c ≢ []
unfolding get_config
get_config-ne-nil key v c is_key k i = elim (Option-cases (find_in_config key c)) [
  | inl missing ↦ absurd (complete_config key is_key v i k missing)
  | inr (w, found) ↦ rw (found, get_config) (λ e. found-ne-nil key is_key c k w found e)
]
