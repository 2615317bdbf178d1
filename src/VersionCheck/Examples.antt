-- ===== src/VersionCheck/Examples.antt =====
-- Runs of internal/versioncheck, and its theorems at them.
use peerclaw_server.Prelude.{
  ℕ, ◌≡◌, refl, String, Option, none, some, true, false, ◌==◌, if◌then◌else◌,
}
use peerclaw_server.VersionCheck.Semver.{parse_semver}
use peerclaw_server.VersionCheck.Service.{Service, is_outdated}
use peerclaw_server.VersionCheck.Order.{both_precede, is_outdated-precedes}

-- Atoi at the numbers of the runs.
abbrev atoi : String → Option ℕ
atoi s =
    if s == "1" then some 1 else if s == "9" then some 9 else if s == "10" then some 10 else none

abbrev service : Service
service = record {
  repo = "peerclaw/peerclaw-cli";
  interval = 3_600_000_000_000;
  latest_version = "v1.10.1";
  release_url = "";
}

is_outdated-precedes_example :
    is_outdated atoi service "1.9.10-beta"
    ≡ both_precede (parse_semver atoi "1.9.10-beta") (parse_semver atoi "v1.10.1")
is_outdated-precedes_example = is_outdated-precedes atoi service "1.9.10-beta"

older_minor : is_outdated atoi service "1.9.10-beta" ≡ true
unfolding is_outdated
older_minor = refl

-- A pre-release counts as its release.
pre_release : is_outdated atoi service "v1.10.1-rc" ≡ false
unfolding is_outdated
pre_release = refl
