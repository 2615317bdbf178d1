-- ===== src/Verification/Examples.antt =====
-- Runs of internal/verification, and its theorems at them.
use peerclaw_server.Prelude.{◌≡◌, refl, none, some, [], ◌∷◌, true, false, ◌==◌, ◌&&◌, ok}
use peerclaw_server.Security.Url.{Net, validate_url, is_private_ip}
use peerclaw_server.Verification.Challenger.{Outside, initiate_challenge}
use peerclaw_server.Verification.Proof.{IsProven, initiate_challenge-IsProven}

abbrev net : Net
net = record {
  parse = λ raw. some (record { scheme = "https"; hostname = "agent.example" });
  to_lower = λ s. s;
  parse_ip = λ host. none;
  lookup_ip = λ host. some ("93.184.216.34" ∷ []);
  is_loopback = λ ip. false;
  is_link_local_unicast = λ ip. false;
  is_link_local_multicast = λ ip. false;
  contains = λ c ip. false;
  split_host_port = λ addr. none;
}

-- An endpoint that repeats the challenge and signs it.
abbrev outside : Outside
outside = record {
  up = λ k. true;
  now = 1_000_000_000;
  net = net;
  nonce = some "6e6f6e6365";
  get = λ url nonce. some (record { status = 200; body = some nonce });
  decode = λ body. some (record { challenge = body; signature = "signed" });
  unhex = λ s. some s;
  size = λ s. 32;
  verify = λ key text sig. key == "key" && sig == "signed";
}

verified :
    (initiate_challenge outside "alice" "https://agent.example" "key" []).1
    ≡ ok (record { challenge = "6e6f6e6365"; expires_at = 301_000_000_000 })
unfolding initiate_challenge validate_url is_private_ip
verified = refl

initiate_challenge-IsProven_example : IsProven outside "https://agent.example" "key" "6e6f6e6365"
initiate_challenge-IsProven_example =
    initiate_challenge-IsProven outside "alice" "https://agent.example" "key" []
      (record { challenge = "6e6f6e6365"; expires_at = 301_000_000_000 }) verified
