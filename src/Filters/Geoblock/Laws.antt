-- ===== src/Filters/Geoblock/Laws.antt =====
-- Which addresses the country filter blocks, told from the configured codes.
use Prim.Native.String.{String}
use go_connect.Base.{
  ◌≡◌, refl, List, [], ◌∷◌, Bool, true, false, none, some, if◌then◌else◌, string_key, arith,
  Bool-cases, inl, inr,
}
use go_connect.Filters.Geoblock.{Geo, CountryDb, normalize, holds, open_db, is_country_blocked}

-- Whether one of the configured codes is `code`, once trimmed and in upper case.
unfoldable pub configured : Geo → String → List String → Bool
configured g code [] = false
configured g code (c ∷ countries) =
    let rest = configured g code countries in
    if string_key.same (g.to_upper (g.trim_space c)) code then true else rest

holds-normalize :
    (g : Geo) (code : String) (countries : List String)
    → g.is_empty code ≡ false
    → holds code (normalize g countries) ≡ configured g code countries
unfolding holds normalize configured
holds-normalize g code [] e = refl
holds-normalize g code (c ∷ countries) e = ground (
  arith,
  holds-normalize g code countries e,
  string_key.same_iff (g.to_upper (g.trim_space c)) code,
)

-- An address whose country is known is blocked where the country is one of the configured codes, up
-- to spaces around and case, and its code is given either way; codes that are empty never block.
pub is_country_blocked-open_db :
    (g : Geo) (ip code : String) (addr : g.Addr) (countries : List String) (db : CountryDb)
    → open_db g true countries ≡ some db
    → g.parse_addr (g.trim_space ip) ≡ some addr
    → g.city addr ≡ some code
    → is_country_blocked g ip db
      ≡ (if g.is_empty code then (false, none) else (configured g code countries, some code))
unfolding open_db is_country_blocked
is_country_blocked-open_db g ip code addr countries db o a c = elim (Bool-cases (g.is_empty code)) [
  | inl e ↦ ground arith
  | inr e ↦ ground (arith, holds-normalize g code countries e)
]
