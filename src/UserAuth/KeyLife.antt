-- ===== src/UserAuth/KeyLife.antt =====
-- The life of an API key of internal/userauth: what the calls on the table user_api_keys keep of the key
-- that a hash finds.
use peerclaw_server.Prelude.{
  ℕ, ◌≡◌, refl, ap, sym, subst, ◌∙◌, ◌⊎◌, inl, inr, String, Option, none, some, List, [], ◌∷◌, ◌++◌,
  Bool, true, false, not, ◌&&◌, ◌==◌, if◌then◌else◌, Result, ok, err, driver, constraint, arith,
  All, hold_everywhere, All-map, Bool-cases, Option-cases, eq_iff, ltb, eq_refl,
}
use peerclaw_server.Prelude.Table.{
  count, find?, update, passes, find?-snoc, find?-snoc_some, find?-update, find?-none, count_mono,
}
use peerclaw_server.UserAuth.Store.Users
use peerclaw_server.UserAuth.Store.Users.{User}
use peerclaw_server.UserAuth.Store.ApiKeys.{
  UserApiKey, Rows, has_id, has_hash, conflicts, owned, to_row, set_revoked, set_last_used,
}
use peerclaw_server.UserAuth.Outside.{
  Config, Call, Error, key_revoked, invalid_key, name_required, no_randomness, store_failed,
}
use peerclaw_server.UserAuth.Keys.{
  generate_api_key, new_key, key_text, revoke_api_key, validate_api_key,
}

pub data KeyCall : Type 0 where
  generates : Call → String → String → KeyCall
  revokes : Call → String → String → KeyCall
  validates : Call → String → Users.Rows → KeyCall

unfoldable pub step_keys : Config → Rows → KeyCall → Rows
step_keys cfg rows (generates c user name) = (generate_api_key cfg c user name rows).0
step_keys cfg rows (revokes c i user) = (revoke_api_key c i user rows).0
step_keys cfg rows (validates c key users) = (validate_api_key cfg c key users rows).0

unfoldable pub run_keys : Config → Rows → List KeyCall → Rows
unfolding step_keys
run_keys cfg rows [] = rows
run_keys cfg rows (k ∷ ks) = run_keys cfg (step_keys cfg rows k) ks

-- GenerateAPIKey leaves the table, or appends a key whose identifier and hash are in no row.
pub generate_api_key-cases :
    (cfg : Config) (c : Call) (user name : String) (rows : Rows)
    → ((e : Error) × (generate_api_key cfg c user name rows ≡ (rows, err e)))
      ⊎ ((s : String) × (count (conflicts (new_key cfg c user name (key_text s))) rows ≡ 0)
          × (generate_api_key cfg c user name rows ≡ (
            rows ++ to_row (new_key cfg c user name (key_text s)) ∷ [],
            ok (new_key cfg c user name (key_text s), key_text s),
          )))
unfolding generate_api_key
generate_api_key-cases cfg c user name rows = elim (Bool-cases (name == "")) [
  | inl e ↦ inl (name_required, ground arith)
  | inr e ↦ elim (Option-cases c.random) [
    | inl n ↦ inl (no_randomness, ground arith)
    | inr (s, r) ↦ elim (Bool-cases (c.up 0)) [
      | inr down ↦ inl (store_failed driver, ground arith)
      | inl up ↦
          elim (Bool-cases
            (ltb 0 (count (conflicts (new_key cfg c user name (key_text s))) rows))) [
              | inl taken ↦ inl (store_failed constraint, ground arith)
              | inr free ↦ inr (s, ground arith, ground arith)
            ]
    ]
  ]
]

-- A test of keys that a call does not turn false.
abbrev pub Spares : (UserApiKey → Bool) → KeyCall → Type 0
Spares g (generates c user name) = Unit
Spares g (revokes c i user) =
    (r : UserApiKey) → owned i user r ≡ true → g r ≡ true → g (set_revoked r) ≡ true
Spares g (validates c key users) =
    (r : UserApiKey) (now : ℕ) → g r ≡ true → g (set_last_used now r) ≡ true

passes-update :
    (g p q : UserApiKey → Bool) (f : UserApiKey → UserApiKey) (rows : Rows)
    → ((r : UserApiKey) → p (f r) ≡ p r)
    → ((r : UserApiKey) → q r ≡ true → g r ≡ true → g (f r) ≡ true)
    → passes g (find? p rows) ≡ true
    → passes g (find? p (update q f rows)) ≡ true
passes-update g p q f rows k h e = elim (Option-cases (find? p rows)) [
  | inl n ↦ ground arith
  | inr (r, e') ↦ rw (find?-update p q f k rows, e') (ground (arith, h r))
]

step_keys-passes :
    (cfg : Config) (g : UserApiKey → Bool) (h : String) (rows : Rows) (k : KeyCall)
    → Spares g k
    → passes g (find? (has_hash h) rows) ≡ true
    → passes g (find? (has_hash h) (step_keys cfg rows k)) ≡ true
unfolding step_keys revoke_api_key validate_api_key
step_keys-passes cfg g h rows (generates c user name) s e =
    elim (generate_api_key-cases cfg c user name rows) [
      | inl (x, same) ↦ rw (ap (λ p. p.0) same) e
      | inr (t, f, new) ↦ elim (Option-cases (find? (has_hash h) rows)) [
        | inl n ↦ ground arith
        | inr (r, e') ↦
            rw
              (
                ap (λ p. p.0) new,
                find?-snoc_some (has_hash h) rows (to_row (new_key cfg c user name (key_text t))) r
                    e',
              )
              (ground arith)
      ]
    ]
step_keys-passes cfg g h rows (revokes c i user) s e =
    ground (arith, passes-update g (has_hash h) (owned i user) set_revoked rows (λ r. refl) s e)
step_keys-passes cfg g h rows (validates c key users) s e =
    elim (Option-cases (find? (has_hash (cfg.hash_token key)) rows)) [
      | inl n ↦ ground arith
      | inr (r, e') ↦ ground (
        arith,
        passes-update g (has_hash h) (has_id r.id) (set_last_used (c.now 1)) rows (λ k. refl)
            (λ k m. s k (c.now 1)) e,
      )
    ]

run_keys-passes :
    (cfg : Config) (g : UserApiKey → Bool) (h : String) (rows : Rows) (ks : List KeyCall)
    → All (Spares g) ks
    → passes g (find? (has_hash h) rows) ≡ true
    → passes g (find? (has_hash h) (run_keys cfg rows ks)) ≡ true
unfolding run_keys
run_keys-passes cfg g h rows [] s e = e
run_keys-passes cfg g h rows (k ∷ ks) s e =
    run_keys-passes cfg g h (step_keys cfg rows k) ks s.1 (step_keys-passes cfg g h rows k s.0 e)

abbrev no_expiry : Option ℕ → Bool
no_expiry none = true
no_expiry (some e) = false

-- The test of the key that GenerateAPIKey has made: its identifier and owner, not revoked, no expiry.
abbrev pub is_live : String → String → UserApiKey → Bool
is_live i user k = has_id i k && k.user_id == user && not k.revoked && no_expiry k.expires_at

-- No call of the list is a RevokeAPIKey of a key by its owner.
abbrev pub NotRevoked : String → String → KeyCall → Type 0
NotRevoked i user (generates c u name) = Unit
NotRevoked i user (revokes c j u) = (j == i && u == user) ≡ false
NotRevoked i user (validates c key users) = Unit

NotRevoked-Spares :
    (i user : String) (k : KeyCall) → NotRevoked i user k → Spares (is_live i user) k
NotRevoked-Spares i user (generates c u name) n = tt
NotRevoked-Spares i user (revokes c j u) n = λ r o g. ground (
  arith,
  eq_iff r.id i,
  eq_iff r.id j,
  eq_iff r.user_id user,
  eq_iff r.user_id u,
  eq_iff j i,
  eq_iff u user,
)
NotRevoked-Spares i user (validates c key users) n = λ r now g. g

-- The key of a result.
abbrev made_key : Result Error (UserApiKey × String) → Option (UserApiKey × String)
made_key (ok p) = some p
made_key (err e) = none

abbrev Satisfied : (UserApiKey × String → Type 0) → Option (UserApiKey × String) → Type 0
Satisfied P none = Unit
Satisfied P (some p) = P p

-- A new key and its text: the text's hash finds a live key with its identifier.
abbrev IsLive : Config → String → Rows → UserApiKey × String → Type 0
IsLive cfg user rows p =
    passes (is_live p.0.id user) (find? (has_hash (cfg.hash_token p.1)) rows) ≡ true

within_conflicts :
    (k : UserApiKey) (rows : Rows)
    → count (conflicts k) rows ≡ 0
    → count (has_hash k.key_hash) rows ≡ 0
within_conflicts k rows f =
    omega (arith, count_mono (has_hash k.key_hash) (conflicts k) (λ r m. ground arith) rows)

-- The key that GenerateAPIKey returns is found by its hash, and live.
generate_api_key-live :
    (cfg : Config) (c : Call) (user name : String) (rows : Rows) (k : UserApiKey) (key : String)
    → (generate_api_key cfg c user name rows).1 ≡ ok (k, key)
    → passes
        (is_live k.id user)
        (find? (has_hash (cfg.hash_token key)) (generate_api_key cfg c user name rows).0)
      ≡ true
unfolding new_key
generate_api_key-live cfg c user name rows k key e =
    elim (generate_api_key-cases cfg c user name rows) [
      | inl (x, same) ↦ absurd (ground (arith, same, e))
      | inr (t, f, new) ↦
          let same : some (new_key cfg c user name (key_text t), key_text t) ≡ some (k, key) =
            ap made_key (sym (ap (λ p. p.1) new) ∙ e) in
          subst (Satisfied (IsLive cfg user (generate_api_key cfg c user name rows).0)) same (
            rw
              (
                ap (λ p. p.0) new,
                find?-snoc (has_hash (cfg.hash_token (key_text t))) rows
                    (to_row (new_key cfg c user name (key_text t)))
                    (find?-none (has_hash (cfg.hash_token (key_text t))) rows
                      (within_conflicts (new_key cfg c user name (key_text t)) rows f)),
              )
              (ground
                (arith, eq_refl user, eq_refl (c.uuid 0), eq_refl (cfg.hash_token (key_text t)))))
    ]

-- A key that GenerateAPIKey has made for a user authenticates that user after any later calls on the keys
-- none of which is a RevokeAPIKey of that key by that user, where the driver runs the queries and the
-- user is in the table of users.
pub generate-validate :
    (cfg : Config) (c : Call) (user name : String) (rows : Rows) (k : UserApiKey) (key : String)
    (ks : List KeyCall) (c' : Call) (users : Users.Rows) (u : User)
    → (generate_api_key cfg c user name rows).1 ≡ ok (k, key)
    → All (NotRevoked k.id user) ks
    → c'.up 0 ≡ true
    → c'.up 2 ≡ true
    → find? (Users.has_id user) users ≡ some u
    → (validate_api_key cfg c' key users
        (run_keys cfg (generate_api_key cfg c user name rows).0 ks)).1
      ≡ ok u
unfolding validate_api_key
generate-validate cfg c user name rows k key ks c' users u made spared up0 up2 found =
    let live =
      run_keys-passes cfg (is_live k.id user) (cfg.hash_token key)
        (generate_api_key cfg c user name rows).0 ks
        (All-map (NotRevoked-Spares k.id user) ks spared)
        (generate_api_key-live cfg c user name rows k key made) in
    elim (Option-cases (
      find? (has_hash (cfg.hash_token key))
        (run_keys cfg (generate_api_key cfg c user name rows).0 ks))) [
          | inl n ↦ absurd (ground arith)
          | inr (r, e) ↦
              let holder : r.user_id ≡ user = ground (arith, eq_iff r.user_id user) in
              ground (arith, ap (λ i. find? (Users.has_id i) users) holder)
        ]

Spares-revoked : (k : KeyCall) → Spares (λ r. r.revoked) k
Spares-revoked (generates c user name) = tt
Spares-revoked (revokes c i user) = λ r o g. refl
Spares-revoked (validates c key users) = λ r now g. g

-- A key that its owner has revoked authenticates nobody after any later calls on the keys, whatever
-- the database answers.
pub revoke-validate :
    (cfg : Config) (c : Call) (i user key : String) (rows : Rows) (r : UserApiKey)
    (ks : List KeyCall) (c' : Call) (users : Users.Rows)
    → find? (has_hash (cfg.hash_token key)) rows ≡ some r
    → owned i user r ≡ true
    → (revoke_api_key c i user rows).1 ≡ ok tt
    → (validate_api_key cfg c' key users (run_keys cfg (revoke_api_key c i user rows).0 ks)).1
      ≡ (if c'.up 0 then err key_revoked else err invalid_key)
unfolding validate_api_key revoke_api_key
revoke-validate cfg c i user key rows r ks c' users found own done =
    let dead =
      run_keys-passes cfg (λ k. k.revoked) (cfg.hash_token key) (revoke_api_key c i user rows).0 ks
        (hold_everywhere Spares-revoked ks)
        (ground (
          arith,
          find?-update (has_hash (cfg.hash_token key)) (owned i user) set_revoked (λ k. refl) rows,
        )) in
    elim (Option-cases
      (find? (has_hash (cfg.hash_token key)) (run_keys cfg (revoke_api_key c i user rows).0 ks))) [
        | inl n ↦ absurd (ground arith)
        | inr (k, e) ↦ ground arith
      ]
