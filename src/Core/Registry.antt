-- ===== src/Core/Registry.antt =====
-- src/core/schema.ts, resolveEndpoint: the registry entry for a concrete path. The registry itself is
-- generated, and a parameter here: the entries in the order of `Object.values`.
pub mod Best
use pve_agent.Base.{
  ltb, ◌==◌, if◌then◌else◌, length, keep, Text, codes, text_eq, starts_with, split, ℕ, ◌+◌, Bool,
  ◌&&◌, Option, none, some, List, [], ◌∷◌,
}

-- The fields of EndpointInfo that the client reads.
pub record EndpointInfo : Type 0 where
  pub method : Text
  pub path : Text
  pub allow_token : Bool
  pub root_only : Bool

abbrev pub head_text : List Text → Text
head_text [] = []
head_text (p ∷ ps) = p

abbrev add_literal : Option ℕ → Option ℕ
add_literal none = none
add_literal (some n) = some (n + 1)

-- The literal segments of a template that fits the segments of a path.
unfoldable pub literals : List Text → List Text → Option ℕ
unfolding starts_with text_eq
literals [] segments = some 0
literals (part ∷ template) [] =
    let rest = literals template [] in if starts_with part (codes "{") then rest else none
literals (part ∷ template) (segment ∷ segments) =
    let rest = literals template segments in
    if starts_with part (codes "{")
    then rest
    else if text_eq part segment
    then add_literal rest
    else none

-- What the loop over the candidates holds: the best one with its literals, if there is one yet.
abbrev pub Best : Type 0
Best = Option (EndpointInfo × ℕ)

abbrev pub challenge_best : EndpointInfo → Option ℕ → Best → Best
challenge_best info none best = best
challenge_best info (some n) none = some (info, n)
challenge_best info (some n) (some (held, m)) = if ltb m n then some (info, n) else some (held, m)

abbrev pub best_info : Best → Option EndpointInfo
best_info none = none
best_info (some (info, n)) = some info

unfoldable pub path_segments : Text → List Text
unfolding split
path_segments path = split b'/' (head_text (split b'?' path))

-- The group `byShape.get`.
unfoldable pub has_shape : Text → List Text → EndpointInfo → Bool
unfolding text_eq split
has_shape method segments info =
    text_eq info.method method && length (split b'/' info.path) == length segments

unfoldable pub best_of : List Text → List EndpointInfo → Best → Best
unfolding literals split
best_of segments [] best = best
best_of segments (info ∷ rest) best =
    best_of segments rest (challenge_best info (literals (split b'/' info.path) segments) best)

unfoldable pub resolve_endpoint : List EndpointInfo → Text → Text → Option EndpointInfo
unfolding best_of path_segments has_shape
resolve_endpoint registry method path =
    let segments = path_segments path in
    best_info (best_of segments (keep (has_shape method segments) registry) none)
