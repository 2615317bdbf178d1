-- ===== src/Router/Sorting.antt =====
-- A sort that keeps what internal/router relies on in sort.Slice: by insertion.
use peerclaw_server.Prelude.{
  ◌≡◌, inl, inr, ◌⊎◌, ◌↔◌, List, [], ◌∷◌, false, if◌then◌else◌, arith, All, Bool-cases,
}
use peerclaw_server.Router.Table.{RouteEntry}
use peerclaw_server.Router.Engine.{less}
use peerclaw_server.Router.Best.{Member, IsSorted, IsSort}

unfoldable pub place : RouteEntry → List RouteEntry → List RouteEntry
place r [] = r ∷ []
place r (s ∷ ss) = let rest = place r ss in if less s r then s ∷ rest else r ∷ s ∷ ss

unfoldable pub insertion_sort : List RouteEntry → List RouteEntry
insertion_sort [] = []
insertion_sort (r ∷ rs) = place r (insertion_sort rs)

place-Member :
    (r x : RouteEntry) (ss : List RouteEntry) → Member x (place r ss) ↔ ((x ≡ r) ⊎ Member x ss)
unfolding place
place-Member r x [] = ((λ h. h), (λ h. h))
place-Member r x (s ∷ ss) = ground (arith, place-Member r x ss)

sort-Member : (rs : List RouteEntry) (x : RouteEntry) → Member x (insertion_sort rs) ↔ Member x rs
unfolding insertion_sort
sort-Member [] x = ((λ h. h), (λ h. h))
sort-Member (r ∷ rs) x = ground (arith, place-Member r x (insertion_sort rs), sort-Member rs x)

All-place :
    (P : RouteEntry → Type 0) (r : RouteEntry) (ss : List RouteEntry)
    → P r
    → All P ss
    → All P (place r ss)
unfolding place
All-place P r [] p h = (p, tt)
All-place P r (s ∷ ss) p h = elim (Bool-cases (less s r)) [
  | inl y ↦ rw y (h.0, All-place P r ss p h.1)
  | inr n ↦ rw n (p, h)
]

less_trans : (x s r : RouteEntry) → less x s ≡ false → less s r ≡ false → less x r ≡ false
less_trans x s r h k = ground arith

above :
    (s r : RouteEntry) (ss : List RouteEntry)
    → less s r ≡ false
    → All (λ x. less x s ≡ false) ss
    → All (λ x. less x r ≡ false) ss
above s r [] n h = tt
above s r (x ∷ xs) n h = (less_trans x s r h.0 n, above s r xs n h.1)

place-IsSorted : (r : RouteEntry) (ss : List RouteEntry) → IsSorted ss → IsSorted (place r ss)
unfolding place
place-IsSorted r [] w = (tt, tt)
place-IsSorted r (s ∷ ss) w = elim (Bool-cases (less s r)) [
  | inl y ↦
      rw y (All-place (λ x. less x s ≡ false) r ss (ground (arith, y)) w.0, place-IsSorted r ss w.1)
  | inr n ↦ rw n ((n, above s r ss n w.0), w)
]

sort-IsSorted : (rs : List RouteEntry) → IsSorted (insertion_sort rs)
unfolding insertion_sort
sort-IsSorted [] = tt
sort-IsSorted (r ∷ rs) = place-IsSorted r (insertion_sort rs) (sort-IsSorted rs)

pub insertion_sort-IsSort : IsSort insertion_sort
insertion_sort-IsSort = record { keeps = sort-Member; sorts = sort-IsSorted }
