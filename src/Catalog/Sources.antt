-- ===== src/Catalog/Sources.antt =====
-- Which sources are searched by default: `configure_sources` and its table.
use session_search.Base.{
  ℕ, suc, ◌≡◌, refl, ◌∙◌, inl, inr, String, Bool, true, false, ◌&&◌, ◌||◌, Option, some, List, [],
  ◌∷◌, arith, if◌then◌else◌, ◌==◌, string_eq, Bool-cases, lookup, lookup-upsert, lookup-without,
  upsert, without,
}
use session_search.Base.Result.{Result, ok, err, value_error, permission_error}
use session_search.Records.{source_ok}

abbrev pub is_legacy : String → Bool
is_legacy source = source == "pi-dev" || source == "pi-legacy"

-- One round of the loop over the defaults.
unfoldable pub set_default : String → Bool → List (String × Bool) → List (String × Bool)
set_default source enabled table =
    if is_legacy source
    then upsert "pi-legacy" enabled (without "pi-dev" table)
    else upsert source enabled table

unfoldable pub set_defaults : List (String × Bool) → List (String × Bool) → List (String × Bool)
set_defaults [] table = table
set_defaults ((source, enabled) ∷ rest) table = set_defaults rest (set_default source enabled table)

unfoldable pub check_defaults : List (String × Bool) → Bool
check_defaults [] = true
check_defaults ((source, enabled) ∷ rest) = source_ok source && check_defaults rest

-- `configure_sources`: the table and the epoch of the publication.
unfoldable pub configure_sources :
    Bool → List (String × Bool) → List (String × Bool) → ℕ → Result (List (String × Bool) × ℕ)
configure_sources readonly defaults table epoch =
    if readonly
    then err permission_error
    else if check_defaults defaults
    then ok (set_defaults defaults table, suc epoch)
    else err value_error

-- The value that is given last for a source, under either of its names, or else the old one.
pub latest : String → List (String × Bool) → Option Bool → Option Bool
latest k [] old = old
latest k ((source, enabled) ∷ rest) old =
    latest k rest
      (if k == (if is_legacy source then "pi-legacy" else source) then some enabled else old)

set_default_lem :
    (k source : String) (enabled : Bool) (table : List (String × Bool))
    → (k == "pi-dev") ≡ false
    → lookup k (set_default source enabled table) ≡ (
        if k == (if is_legacy source then "pi-legacy" else source)
        then some enabled
        else lookup k table)
unfolding set_default
set_default_lem k source enabled table current = elim (Bool-cases (is_legacy source)) [
  | inl legacy ↦ ground (
    arith,
    legacy,
    current,
    lookup-upsert k "pi-legacy" enabled (without "pi-dev" table),
    lookup-without k "pi-dev" table,
  )
  | inr plain ↦ ground (arith, plain, lookup-upsert k source enabled table)
]

set_defaults_lem :
    (k : String) (defaults table : List (String × Bool))
    → (k == "pi-dev") ≡ false
    → lookup k (set_defaults defaults table) ≡ latest k defaults (lookup k table)
unfolding set_defaults latest
set_defaults_lem k [] table current = refl
set_defaults_lem k ((source, enabled) ∷ rest) table current =
    set_defaults_lem k rest (set_default source enabled table) current
    ∙ rw (set_default_lem k source enabled table current) refl

-- When configure_sources succeeds, the table holds for each source other than pi-dev the value that
-- was given last for it, where pi-dev and pi-legacy are both given to pi-legacy, or else the value
-- from before, and the epoch has gone up by one.
pub configure_sources_lem :
    (readonly : Bool) (defaults table table' : List (String × Bool)) (epoch epoch' : ℕ) (k : String)
    → configure_sources readonly defaults table epoch ≡ ok (table', epoch')
    → (k == "pi-dev") ≡ false
    → (lookup k table' ≡ latest k defaults (lookup k table)) × (epoch' ≡ suc epoch)
unfolding configure_sources
configure_sources_lem readonly defaults table table' epoch epoch' k h current =
    (ground (arith, h, set_defaults_lem k defaults table current), ground (arith, h))
