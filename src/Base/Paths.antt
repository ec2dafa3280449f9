-- ===== src/Base/Paths.antt =====
-- Paths by components, as `filepath.Clean` goes through them.
use mathlib.Core.Path.{◌≡◌, refl}
use mathlib.Core.Bool.{true, not, ◌||◌}
use mathlib.Core.List.{List, [], ◌∷◌}
use native.Mathlib.Omega.{arith}
use provisioning_station.Base.Tests.{if◌then◌else◌}
use provisioning_station.Base.Lists.{all}
use provisioning_station.Base.Bytes.{Text, codes, is_dots, is_empty, text_eq}

abbrev pub up : List Text → List Text
up [] = []
up (part ∷ stack) = stack

-- The components on top of a stack.
abbrev pub reverse_onto : List Text → List Text → List Text
reverse_onto [] stack = stack
reverse_onto (part ∷ rest) stack = reverse_onto rest (part ∷ stack)

-- `filepath.Clean` on the components below the root directory, the last one first: empty components and
-- "." are left out, ".." goes up.
unfoldable pub walk : List Text → List Text → List Text
walk stack [] = stack
walk stack (part ∷ rest) =
    walk
      (if is_empty part || text_eq part (codes ".")
        then stack
        else if text_eq part (codes "..")
        then up stack
        else part ∷ stack)
      rest

-- Components that are plain are all kept.
pub walk_plain :
    (stack parts : List Text)
    → all (λ part. not (is_dots part)) parts ≡ true
    → walk stack parts ≡ reverse_onto parts stack
unfolding walk
walk_plain stack [] h = refl
walk_plain stack (part ∷ rest) h = ground (arith, walk_plain (part ∷ stack) rest)
