-- ===== src/VersionCheck/Service.antt =====
-- The service of internal/versioncheck/service.go: the cached release, fetch, Latest and IsOutdated.
use peerclaw_server.Prelude.{
  ℕ, ◌*◌, String, Option, none, some, Bool, true, false, ◌||◌, ◌==◌, nat_eq, if◌then◌else◌, second,
}
use peerclaw_server.VersionCheck.Semver.{Comparison, older, equal, newer, compare_semver}

pub record Service : Type 0 where
  pub repo : String
  pub interval : ℕ
  pub latest_version : String
  pub release_url : String

-- `New`; an interval of 0 or less, here 0, is an hour.
unfoldable pub new_service : String → ℕ → Service
new_service repo interval = record {
  repo = repo;
  interval = if nat_eq interval 0 then 3_600 * second else interval;
  latest_version = "";
  release_url = "";
}

-- What the answer of the release server decodes to.
pub record Release : Type 0 where
  pub tag_name : String
  pub html_url : String

-- `release` is none where the request, the status or the decoding fails.
unfoldable pub fetch : Option Release → Service → Service
fetch none s = s
fetch (some r) s = record s { latest_version = r.tag_name; release_url = r.html_url }

unfoldable pub latest : Service → String × String
latest s = (s.latest_version, s.release_url)

abbrev pub is_older : Comparison → Bool
is_older older = true
is_older equal = false
is_older newer = false

unfoldable pub is_outdated : (String → Option ℕ) → Service → String → Bool
unfolding compare_semver
is_outdated atoi s current =
    if s.latest_version == "" || current == ""
    then false
    else is_older (compare_semver atoi current s.latest_version)
