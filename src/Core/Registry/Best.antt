-- ===== src/Core/Registry/Best.antt =====
-- src/core/schema.ts, resolveEndpoint: which of the entries that fit is answered.
use pve_agent.Base.{
  ltb, if◌then◌else◌, Bool-cases, keep, All, Text, split, ℕ, ◌≤◌, ◌≡◌, refl, sym, subst, inl, inr,
  Bool, true, Option, none, some, List, [], ◌∷◌, arith,
}
use mathlib.Core.List.{Memᴰ}
use pve_agent.Core.Registry.{
  EndpointInfo, literals, Best, challenge_best, best_info, path_segments, has_shape, best_of,
  resolve_endpoint,
}

-- The number of literal segments with which an entry fits a path, if it fits.
abbrev pub fits : Text → List Text → EndpointInfo → Option ℕ
fits method segments info =
    if has_shape method segments info then literals (split b'/' info.path) segments else none

abbrev AtLeast : ℕ → Best → Type 0
AtLeast m none = ⊥
AtLeast m (some (info, n)) = m ≤ n

challenge_best-AtLeast :
    (m : ℕ) (info : EndpointInfo) (o : Option ℕ) (best : Best)
    → AtLeast m best
    → AtLeast m (challenge_best info o best)
challenge_best-AtLeast m info none best h = h
challenge_best-AtLeast m info (some n) none h = absurd h
challenge_best-AtLeast m info (some n) (some (held, k)) h = ground arith

challenge_best-entry :
    (n : ℕ) (info : EndpointInfo) (best : Best) → AtLeast n (challenge_best info (some n) best)
challenge_best-entry n info none = omega arith
challenge_best-entry n info (some (held, k)) = ground arith

best_of-AtLeast :
    (m : ℕ) (segments : List Text) (entries : List EndpointInfo) (best : Best)
    → AtLeast m best
    → AtLeast m (best_of segments entries best)
unfolding best_of
best_of-AtLeast m segments [] best h = h
best_of-AtLeast m segments (info ∷ rest) best h =
    best_of-AtLeast m segments rest _
      (challenge_best-AtLeast m info (literals (split b'/' info.path) segments) best h)

best_of-entry :
    (m : ℕ) (segments : List Text) (entries : List EndpointInfo) (best : Best) (info : EndpointInfo)
    → Memᴰ info entries
    → literals (split b'/' info.path) segments ≡ some m
    → AtLeast m (best_of segments entries best)
unfolding best_of
best_of-entry m segments [] best info member h = elim member [ ]
best_of-entry m segments (x ∷ xs) best info (Memᴰ.head e) h =
    let same = subst (λ i. literals (split b'/' i.path) segments ≡ some m) e h in
    best_of-AtLeast m segments xs _
      (subst (λ o. AtLeast m (challenge_best x o best)) (sym same) (challenge_best-entry m x best))
best_of-entry m segments (x ∷ xs) best info (Memᴰ.tail t) h = best_of-entry m segments xs _ info t h

module _ (P : EndpointInfo → Type 0) (segments : List Text) where
  abbrev Sound : Best → Type 0
  Sound none = Unit
  Sound (some (info, n)) = P info × (literals (split b'/' info.path) segments ≡ some n)

  challenge_best-Sound :
      (info : EndpointInfo) (o : Option ℕ) (best : Best)
      → P info
      → literals (split b'/' info.path) segments ≡ o
      → Sound best
      → Sound (challenge_best info o best)
  challenge_best-Sound info none best p e h = h
  challenge_best-Sound info (some n) none p e h = (p, e)
  challenge_best-Sound info (some n) (some (held, k)) p e h = elim (Bool-cases (ltb k n)) [
    | inl more ↦ rw more (p, e)
    | inr less ↦ rw less h
  ]

  best_of-Sound :
      (entries : List EndpointInfo) (best : Best)
      → All P entries
      → Sound best
      → Sound (best_of segments entries best)
  unfolding best_of
  best_of-Sound [] best ps h = h
  best_of-Sound (info ∷ rest) best (p, ps) h =
      best_of-Sound rest _ ps (challenge_best-Sound info _ best p refl h)

fits-some :
    (method : Text) (segments : List Text) (info : EndpointInfo) (m : ℕ)
    → fits method segments info ≡ some m
    → (has_shape method segments info ≡ true) × (literals (split b'/' info.path) segments ≡ some m)
fits-some method segments info m h = elim (Bool-cases (has_shape method segments info)) [
  | inl shape ↦ (shape, ground (arith, shape, h))
  | inr other ↦ absurd (ground (arith, other, h))
]

module _ {A : Type 0} (p : A → Bool) where
  Memᴰ-keep : (x : A) (xs : List A) → Memᴰ x xs → p x ≡ true → Memᴰ x (keep p xs)
  Memᴰ-keep x [] member h = elim member [ ]
  Memᴰ-keep x (y ∷ ys) (Memᴰ.head e) h = rw (subst (λ z. p z ≡ true) e h) (Memᴰ.head e)
  Memᴰ-keep x (y ∷ ys) (Memᴰ.tail t) h = elim (Bool-cases (p y)) [
    | inl kept ↦ rw kept (Memᴰ.tail (Memᴰ-keep x ys t h))
    | inr left_out ↦ rw left_out (Memᴰ-keep x ys t h)
  ]

  All-keep :
      (P : A → Type 0) (xs : List A) → ((x : A) → Memᴰ x xs → p x ≡ true → P x) → All P (keep p xs)
  All-keep P [] h = tt
  All-keep P (x ∷ xs) h = elim (Bool-cases (p x)) [
    | inl kept ↦ rw kept (h x (Memᴰ.head refl) kept, All-keep P xs (λ y m. h y (Memᴰ.tail m)))
    | inr left_out ↦ rw left_out (All-keep P xs (λ y m. h y (Memᴰ.tail m)))
  ]

module _ (registry : List EndpointInfo) (method path : Text) where
  abbrev InShape : EndpointInfo → Type 0
  InShape info = Memᴰ info registry × (has_shape method (path_segments path) info ≡ true)

  winner :
      (m : ℕ) (best : Best)
      → AtLeast m best
      → Sound InShape (path_segments path) best
      → (info : EndpointInfo) × (n : ℕ) × (best_info best ≡ some info)
        × Memᴰ info registry
        × (fits method (path_segments path) info ≡ some n)
        × (m ≤ n)
  winner m none h k = absurd h
  winner m (some (info, n)) h ((member, shape), e) = (info, n, refl, member, rw shape e, h)

  -- When an entry of the registry fits a path, an entry is answered: one of the registry that fits
  -- too, with at least as many literal segments.
  pub resolve_endpoint-best :
      (entry : EndpointInfo) (m : ℕ)
      → Memᴰ entry registry
      → fits method (path_segments path) entry ≡ some m
      → (info : EndpointInfo) × (n : ℕ) × (resolve_endpoint registry method path ≡ some info)
        × Memᴰ info registry
        × (fits method (path_segments path) info ≡ some n)
        × (m ≤ n)
  unfolding resolve_endpoint
  resolve_endpoint-best entry m member fit =
      let segments = path_segments path in
      let (shape, e) = fits-some method segments entry m fit in
      winner m (best_of segments (keep (has_shape method segments) registry) none)
        (best_of-entry m segments _ none entry
          (Memᴰ-keep (has_shape method segments) entry registry member shape) e)
        (best_of-Sound InShape segments _ none
          (All-keep (has_shape method segments) InShape registry (λ x m s. (m, s))) tt)
