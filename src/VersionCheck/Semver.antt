-- ===== src/VersionCheck/Semver.antt =====
-- parseSemver and compareSemver of internal/versioncheck/service.go. strconv.Atoi is the argument
-- `atoi`: none on its error. A part has no `-` when it is read, so its number is not negative.
use Prim.Native.Char.{Char, code}
use peerclaw_server.Prelude.{ℕ, String, Option, none, some, ltb, nat_eq, if◌then◌else◌}

-- strings.TrimPrefix(v, "v")
unfoldable pub trim_v : String → String
trim_v String.[] = String.[]
trim_v (String.◌∷◌ c s) = if nat_eq (code c) b'v' then s else String.◌∷◌ c s

abbrev pub prepend : Char → Option (String × String) → Option (String × String)
prepend c none = none
prepend c (some (a, b)) = some (String.◌∷◌ c a, b)

-- The texts before and after the first point, none where there is none.
unfoldable pub at_point : String → Option (String × String)
at_point String.[] = none
at_point (String.◌∷◌ c s) =
    let rest = at_point s in if nat_eq (code c) b'.' then some (String.[], s) else prepend c rest

-- `p[:strings.IndexByte(p, '-')]`, or p where there is no `-`.
unfoldable pub before_dash : String → String
before_dash String.[] = String.[]
before_dash (String.◌∷◌ c s) =
    let rest = before_dash s in if nat_eq (code c) b'-' then String.[] else String.◌∷◌ c rest

pub record Version : Type 0 where
  pub major : ℕ
  pub minor : ℕ
  pub patch : ℕ

unfoldable pub version_of : Option ℕ → Option ℕ → Option ℕ → Option Version
version_of (some a) (some b) (some c) = some (record { major = a; minor = b; patch = c })
version_of (some a) (some b) none = none
version_of (some a) none z = none
version_of none y z = none

unfoldable pub parse_rest : (String → Option ℕ) → String → Option (String × String) → Option Version
unfolding version_of before_dash
parse_rest atoi p none = none
parse_rest atoi p (some (q, r)) =
    version_of (atoi (before_dash p)) (atoi (before_dash q)) (atoi (before_dash r))

unfoldable pub parse_parts : (String → Option ℕ) → Option (String × String) → Option Version
unfolding parse_rest at_point
parse_parts atoi none = none
parse_parts atoi (some (p, s)) = parse_rest atoi p (at_point s)

unfoldable pub parse_semver : (String → Option ℕ) → String → Option Version
unfolding parse_parts at_point trim_v
parse_semver atoi v = parse_parts atoi (at_point (trim_v v))

-- The results -1, 0 and 1.
pub data Comparison : Type 0 where
  older equal newer : Comparison

-- One round of the loop, and what follows it where the parts are equal.
unfoldable pub compare_part : ℕ → ℕ → Comparison → Comparison
compare_part a b rest = if ltb a b then older else if ltb b a then newer else rest

unfoldable pub compare_versions : Option Version → Option Version → Comparison
unfolding compare_part
compare_versions none w = equal
compare_versions (some v) none = equal
compare_versions (some v) (some w) =
    compare_part v.major w.major (compare_part v.minor w.minor (compare_part v.patch w.patch equal))

unfoldable pub compare_semver : (String → Option ℕ) → String → String → Comparison
unfolding compare_versions parse_semver
compare_semver atoi a b = compare_versions (parse_semver atoi a) (parse_semver atoi b)
