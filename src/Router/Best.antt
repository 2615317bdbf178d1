-- ===== src/Router/Best.antt =====
-- What Resolve of internal/router/engine.go chooses.
use peerclaw_server.Prelude.{ltb, nat_eq, ◌||◌}
use peerclaw_server.Prelude.{
  ◌≡◌, ◌≢◌, refl, inl, inr, ◌⊎◌, ◌↔◌, sym, subst, String, List, [], ◌∷◌, Bool, true, false, ◌&&◌,
  not, ◌==◌, if◌then◌else◌, ok, err, arith, eq_iff, All, Bool-cases,
}
use peerclaw_server.Prelude.Table.{select}
use peerclaw_server.Router.Table.{RouteEntry, State, get_routes}
use peerclaw_server.Router.Engine.{
  ResolveOptions, no_routes, no_protocol, less, first, best_with_protocol, best_of, resolve,
}

abbrev pub Member : RouteEntry → List RouteEntry → Type 0
Member r [] = ⊥
Member r (s ∷ rs) = (r ≡ s) ⊎ Member r rs

-- No later route comes before an earlier one.
abbrev pub IsSorted : List RouteEntry → Type 0
IsSorted [] = Unit
IsSorted (r ∷ rs) = All (λ s. less s r ≡ false) rs × IsSorted rs

All-at :
    (P : RouteEntry → Type 0) (xs : List RouteEntry)
    → All P xs
    → (s : RouteEntry) → Member s xs
    → P s
All-at P [] h s m = elim m [ ]
All-at P (x ∷ xs) h s (inl e) = subst P (sym e) h.0
All-at P (x ∷ xs) h s (inr m) = All-at P xs h.1 s m

All-of_Member :
    (P : RouteEntry → Type 0) (xs : List RouteEntry)
    → ((s : RouteEntry) → Member s xs → P s)
    → All P xs
All-of_Member P [] f = tt
All-of_Member P (x ∷ xs) f = (f x (inl refl), All-of_Member P xs (λ s m. f s (inr m)))

select-Member :
    (p : RouteEntry → Bool) (xs : List RouteEntry) (s : RouteEntry)
    → Member s (select p xs) ↔ (Member s xs × (p s ≡ true))
unfolding select
select-Member p [] s = ((λ m. elim m [ ]), (λ h. h.0))
select-Member p (x ∷ xs) s = elim (Bool-cases (p x)) [
  | inl y ↦ ground (arith, select-Member p xs s)
  | inr n ↦ ground (arith, select-Member p xs s)
]

-- What sort.Slice promises: the same routes, in order.
pub record IsSort (sort : List RouteEntry → List RouteEntry) : Type 0 where
  pub keeps : (rs : List RouteEntry) (r : RouteEntry) → Member r (sort rs) ↔ Member r rs
  pub sorts : (rs : List RouteEntry) → IsSorted (sort rs)

-- The routes that Resolve chooses from.
abbrev pub fits : String → RouteEntry → Bool
fits protocol r = if not (protocol == "") then r.protocol == protocol else true

less_self : (r : RouteEntry) → less r r ≡ false
less_self r = ground arith

-- The head of a sorted list is one of it, and none of it comes before the head.
first-least :
    (xs : List RouteEntry) (r : RouteEntry)
    → IsSorted xs
    → first xs ≡ ok r
    → Member r xs × ((s : RouteEntry) → Member s xs → less s r ≡ false)
unfolding first
first-least [] r w h = ground arith
first-least (x ∷ xs) r w h = (inl (ground (arith, h)), least)
  where
    same : x ≡ r
    same = ground (arith, h)

    least : (s : RouteEntry) → Member s (x ∷ xs) → less s r ≡ false
    least s (inl e) = rw (e, same) (less_self r)
    least s (inr m) = subst (λ y. less s y ≡ false) same (All-at (λ y. less y x ≡ false) xs w.0 s m)

first-total :
    (xs : List RouteEntry) (r : RouteEntry) → Member r xs → (b : RouteEntry) × (first xs ≡ ok b)
unfolding first
first-total [] r m = elim m [ ]
first-total (x ∷ xs) r m = (x, refl)

-- The choice from the routes that fit, if there are any.
chosen-least :
    (sort : List RouteEntry → List RouteEntry) (protocol : String) (rs : List RouteEntry)
    (r : RouteEntry)
    → IsSort sort
    → first (sort (select (fits protocol) rs)) ≡ ok r
    → Member r rs × (fits protocol r ≡ true) × All (λ s. (fits protocol s && less s r) ≡ false) rs
chosen-least sort protocol rs r law h =
    (inside.0, inside.1, All-of_Member (λ s. (fits protocol s && less s r) ≡ false) rs beaten)
  where
    top :
        Member r (sort (select (fits protocol) rs))
        × ((s : RouteEntry) → Member s (sort (select (fits protocol) rs)) → less s r ≡ false)
    top = first-least (sort (select (fits protocol) rs)) r (law.sorts (select (fits protocol) rs)) h

    inside : Member r rs × (fits protocol r ≡ true)
    inside =
        (select-Member (fits protocol) rs r).0 ((law.keeps (select (fits protocol) rs) r).0 top.0)

    beaten : (s : RouteEntry) → Member s rs → (fits protocol s && less s r) ≡ false
    beaten s m = elim (Bool-cases (fits protocol s)) [
      | inr n ↦ rw n refl
      | inl y ↦ rw y (
          top.1 s (
            (law.keeps (select (fits protocol) rs) s).1
              ((select-Member (fits protocol) rs s).1 (m, y))))
    ]

select-all :
    (p : RouteEntry → Bool)
    → ((s : RouteEntry) → p s ≡ true)
    → (xs : List RouteEntry) → select p xs ≡ xs
unfolding select
select-all p h [] = refl
select-all p h (x ∷ xs) = ground (arith, h x, select-all p h xs)

select-same :
    (p q : RouteEntry → Bool)
    → ((s : RouteEntry) → p s ≡ q s)
    → (xs : List RouteEntry) → select p xs ≡ select q xs
unfolding select
select-same p q h [] = refl
select-same p q h (x ∷ xs) = ground (arith, h x, select-same p q h xs)

best_with_protocol-cases :
    (sort : List RouteEntry → List RouteEntry) (rs : List RouteEntry)
    → (best_with_protocol sort rs ≡ first (sort rs))
      ⊎ ((rs ≡ []) × (best_with_protocol sort rs ≡ err no_protocol))
unfolding best_with_protocol
best_with_protocol-cases sort [] = inr (refl, refl)
best_with_protocol-cases sort (r ∷ rs) = inl refl

-- Where some route fits, the branches of Resolve come to the first of the sorted routes that fit.
best_of-first :
    (sort : List RouteEntry → List RouteEntry) (protocol : String) (rs : List RouteEntry)
    → (best_of sort protocol rs ≡ first (sort (select (fits protocol) rs)))
      ⊎ ((select (fits protocol) rs ≡ [])
          × ((best_of sort protocol rs ≡ err no_routes)
              ⊎ (best_of sort protocol rs ≡ err no_protocol)))
unfolding best_of
best_of-first sort protocol [] = inr (refl, inl refl)
best_of-first sort protocol (x ∷ xs) = elim (Bool-cases (protocol == "")) [
  | inl y ↦ inl (ground (arith, select-all (fits protocol) (λ s. ground arith) (x ∷ xs)))
  | inr n ↦ ground (
    arith,
    best_with_protocol-cases sort (select (λ s. s.protocol == protocol) (x ∷ xs)),
    select-same (λ s. s.protocol == protocol) (fits protocol) (λ s. ground (arith, n)) (x ∷ xs),
  )
]

-- A route with a higher priority, or the same and a lower latency.
abbrev pub is_better : RouteEntry → RouteEntry → Bool
is_better s r =
    ltb r.priority s.priority || (nat_eq s.priority r.priority && ltb s.latency_ms r.latency_ms)

less-is_better : (s r : RouteEntry) → less s r ≡ is_better s r
less-is_better s r = ground arith

-- Whatever Resolve returns is one of the target's routes with the protocol that was asked for, and no
-- other such route has a higher priority, or the same and a lower latency. The sort is taken to keep
-- the routes and to put them in order.
pub resolve-best :
    (sort : List RouteEntry → List RouteEntry) (opts : ResolveOptions) (t : State) (r : RouteEntry)
    → IsSort sort
    → resolve sort opts t ≡ ok r
    → Member r (get_routes opts.target_id t)
      × (fits opts.protocol r ≡ true)
      × All (λ s. (fits opts.protocol s && is_better s r) ≡ false) (get_routes opts.target_id t)
unfolding resolve
resolve-best sort opts t r law h = (
  top.0,
  top.1,
  All-of_Member (λ s. (fits opts.protocol s && is_better s r) ≡ false) (get_routes opts.target_id t)
      (λ s m. ground (
        arith,
        less-is_better s r,
        All-at (λ s. (fits opts.protocol s && less s r) ≡ false) (get_routes opts.target_id t) top.2
            s m,
      )),
)
  where
    top :
        Member r (get_routes opts.target_id t)
        × (fits opts.protocol r ≡ true)
        × All (λ s. (fits opts.protocol s && less s r) ≡ false) (get_routes opts.target_id t)
    top =
        chosen-least sort opts.protocol (get_routes opts.target_id t) r law
          (ground (arith, h, best_of-first sort opts.protocol (get_routes opts.target_id t)))

-- Resolve returns a route whenever a target is given and one of its routes has the protocol. The sort is
-- taken to keep the routes and to put them in order.
pub resolve-total :
    (sort : List RouteEntry → List RouteEntry) (opts : ResolveOptions) (t : State) (s : RouteEntry)
    → IsSort sort
    → opts.target_id ≢ ""
    → Member s (get_routes opts.target_id t)
    → fits opts.protocol s ≡ true
    → (r : RouteEntry) × (resolve sort opts t ≡ ok r)
unfolding resolve
resolve-total sort opts t s law named m f =
    elim (best_of-first sort opts.protocol (get_routes opts.target_id t)) [
      | inl e ↦ (
        (first-total (sort (select (fits opts.protocol) (get_routes opts.target_id t))) s sorted).0,
        ground (
          arith,
          e,
          eq_iff opts.target_id "",
          (first-total (sort (select (fits opts.protocol) (get_routes opts.target_id t))) s
              sorted).1,
        ),
      )
      | inr (n, e) ↦ elim (subst (Member s) n selected) [ ]
    ]
  where
    selected : Member s (select (fits opts.protocol) (get_routes opts.target_id t))
    selected = (select-Member (fits opts.protocol) (get_routes opts.target_id t) s).1 (m, f)

    sorted : Member s (sort (select (fits opts.protocol) (get_routes opts.target_id t)))
    sorted = (law.keeps (select (fits opts.protocol) (get_routes opts.target_id t)) s).1 selected
