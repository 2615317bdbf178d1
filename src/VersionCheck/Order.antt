-- ===== src/VersionCheck/Order.antt =====
-- The comparison of internal/versioncheck is the order of the versions' numbers.
use peerclaw_server.Prelude.{
  ℕ, ◌≡◌, refl, ap, eq_iff, Bool-cases, inl, inr, String, Option, none, some, Bool, false, ◌&&◌,
  ◌||◌, ◌==◌, ltb, nat_eq, arith,
}
use peerclaw_server.VersionCheck.Semver.{
  Version, older, newer, parse_semver, compare_part, compare_versions, compare_semver,
}
use peerclaw_server.VersionCheck.Service.{Service, is_outdated, is_older}

-- The order of versions: by the major number, then by the minor one, then by the patch.
unfoldable pub precedes : Version → Version → Bool
precedes v w =
    ltb v.major w.major
    || (nat_eq v.major w.major
        && (ltb v.minor w.minor || (nat_eq v.minor w.minor && ltb v.patch w.patch)))

-- Whether both texts are versions, and the first precedes.
unfoldable pub both_precede : Option Version → Option Version → Bool
unfolding precedes
both_precede none w = false
both_precede (some v) none = false
both_precede (some v) (some w) = precedes v w

compare_versions-precedes :
    (v w : Option Version) → is_older (compare_versions v w) ≡ both_precede v w
unfolding compare_versions compare_part both_precede precedes
compare_versions-precedes none w = refl
compare_versions-precedes (some v) none = refl
compare_versions-precedes (some v) (some w) = ground arith

parse_empty : (atoi : String → Option ℕ) → parse_semver atoi "" ≡ none
unfolding parse_semver
parse_empty atoi = refl

both_precede-none : (v : Option Version) → both_precede v none ≡ false
unfolding both_precede
both_precede-none none = refl
both_precede-none (some v) = refl

-- IsOutdated answers yes exactly where the given version and the cached one both parse, and the given
-- one precedes the cached one in the order of major, minor and patch numbers.
pub is_outdated-precedes :
    (atoi : String → Option ℕ) (s : Service) (current : String)
    → is_outdated atoi s current
      ≡ both_precede (parse_semver atoi current) (parse_semver atoi s.latest_version)
unfolding is_outdated compare_semver
is_outdated-precedes atoi s current = elim (Bool-cases (s.latest_version == "")) [
  | inl e ↦ ground (
    arith,
    ap (parse_semver atoi) ((eq_iff s.latest_version "").0 e),
    parse_empty atoi,
    both_precede-none (parse_semver atoi current),
  )
  | inr full ↦ elim (Bool-cases (current == "")) [
    | inl e ↦ ground (
      arith,
      ap (parse_semver atoi) ((eq_iff current "").0 e),
      parse_empty atoi,
      compare_versions-precedes (parse_semver atoi current) (parse_semver atoi s.latest_version),
    )
    | inr given ↦ ground (
      arith,
      compare_versions-precedes (parse_semver atoi current) (parse_semver atoi s.latest_version),
    )
  ]
]

reversed : (v w : Option Version) → compare_versions v w ≡ older → compare_versions w v ≡ newer
unfolding compare_versions compare_part
reversed none w e = absurd (ground arith)
reversed (some v) none e = absurd (ground arith)
reversed (some v) (some w) e = ground arith

-- A version that is older than another is not newer, seen from the other side: compareSemver then
-- answers 1.
pub compare_semver-reversed :
    (atoi : String → Option ℕ) (a b : String)
    → compare_semver atoi a b ≡ older
    → compare_semver atoi b a ≡ newer
unfolding compare_semver
compare_semver-reversed atoi a b e = reversed (parse_semver atoi a) (parse_semver atoi b) e
