-- ===== src/Security/Examples.antt =====
-- Runs of internal/security/urlvalidator.go, and its theorems at them.
use peerclaw_server.Prelude.{
  ◌≡◌, refl, String, none, some, List, [], ◌∷◌, false, ◌==◌, ◌&&◌, if◌then◌else◌, ok, err, All,
}
use peerclaw_server.Security.Url.{
  ParsedUrl, Net, validate_url, dial_context, private_blocked, is_private_ip,
}
use peerclaw_server.Security.Safety.{IsSafe, IsPublic, validate_url-IsSafe, dial_context-IsPublic}

-- One URL, and two names: "agent.example" is public, "inner.example" resolves to 10.0.0.5.
abbrev net : Net
net = record {
  parse = λ raw. some (record {
    scheme = "HTTPS";
    hostname = if raw == "https://inner.example" then "inner.example" else "agent.example";
  });
  to_lower = λ s. if s == "HTTPS" then "https" else s;
  parse_ip = λ host. none;
  lookup_ip = λ host. some ((if host == "inner.example" then "10.0.0.5" else "93.184.216.34") ∷ []);
  is_loopback = λ ip. false;
  is_link_local_unicast = λ ip. false;
  is_link_local_multicast = λ ip. false;
  contains = λ c ip. c == "10.0.0.0/8" && ip == "10.0.0.5";
  split_host_port = λ addr. some ("agent.example", "443");
}

accepted : validate_url net false "https://agent.example" ≡ ok tt
unfolding validate_url is_private_ip
accepted = refl

validate_url-IsSafe_example : (u : ParsedUrl) × IsSafe net "https://agent.example" u
validate_url-IsSafe_example = validate_url-IsSafe net "https://agent.example" accepted

refused : validate_url net false "https://inner.example" ≡ err private_blocked
unfolding validate_url is_private_ip
refused = refl

dialled : dial_context net "agent.example:443" ≡ ok ("agent.example", "443")
unfolding dial_context is_private_ip
dialled = refl

dial_context-IsPublic_example :
    (net.split_host_port "agent.example:443" ≡ some ("agent.example", "443"))
    × ((ips : List String) × (net.lookup_ip "agent.example" ≡ some ips) × All (IsPublic net) ips)
dial_context-IsPublic_example =
    dial_context-IsPublic net "agent.example:443" "agent.example" "443" dialled
