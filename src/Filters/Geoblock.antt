-- ===== src/Filters/Geoblock.antt =====
-- The country filter of pkg/geoblock/geoblock.go. The MaxMind database is a parameter.
pub mod Laws
use Prim.Native.String.{String}
use go_connect.Base.{
  List, [], ◌∷◌, Bool, true, false, Option, none, some, if◌then◌else◌, Key, string_key,
}

-- `city` is a lookup that gave a record with data: its ISO code, which may be empty.
pub record Geo : Type 1 where
  pub Addr : Type 0
  pub trim_space : String → String
  pub to_upper : String → String
  pub is_empty : String → Bool
  pub parse_addr : String → Option Addr
  pub city : Addr → Option String

-- The keys of the map `blocked`.
unfoldable pub normalize : Geo → List String → List String
normalize g [] = []
normalize g (c ∷ countries) =
    let rest = normalize g countries in
    let code = g.to_upper (g.trim_space c) in if g.is_empty code then rest else code ∷ rest

holds : String → List String → Bool
holds code [] = false
holds code (c ∷ cs) = if string_key.same c code then true else holds code cs

pub record CountryDb : Type 0 where
  pub blocked : List String

-- `opened` is whether the reader opens the file.
unfoldable pub open_db : Geo → Bool → List String → Option CountryDb
unfolding normalize
open_db g opened countries =
    if opened then some (record { blocked = normalize g countries }) else none

unfoldable pub is_country_blocked : Geo → String → CountryDb → Bool × Option String
unfolding holds
is_country_blocked g ip db = elim (g.parse_addr (g.trim_space ip)) [
  | none ↦ (false, none)
  | some addr ↦ elim (g.city addr) [
    | none ↦ (false, none)
    | some code ↦ if g.is_empty code then (false, none) else (holds code db.blocked, some code)
  ]
]
