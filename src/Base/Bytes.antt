-- ===== src/Base/Bytes.antt =====
-- Go strings and byte slices: lists of bytes.
use Prim.Native.Nat.{ℕ, ◌+◌, ◌-◌}
use Prim.Native.Char.{code}
use Prim.Native.String.{String}
use mathlib.Core.Path.{◌≡◌, refl, sym, ap, ◌∙◌}
use mathlib.Core.Logic.{◌↔◌, ◌⊎◌, ◌≢◌, inl, inr}
use mathlib.Core.Bool.{Bool, true, false, ◌&&◌, ◌||◌}
use mathlib.Core.List.{List, [], ◌∷◌, ◌++◌, map, Memᴰ, append_assoc}
use native.Mathlib.Omega.{arith}
use provisioning_station.Base.Tests.{Bool-cases, ◌==◌, leb, ltb, if◌then◌else◌, Eq}

abbrev pub Text : Type 0
Text = List ℕ

-- The bytes of an ASCII literal.
abbrev pub codes : String → Text
codes String.[] = []
codes (String.◌∷◌ c s) = code c ∷ codes s

-- `a == b` on strings.
unfoldable pub text_eq : Text → Text → Bool
text_eq [] [] = true
text_eq (a ∷ s) (b ∷ t) = a == b && text_eq s t
text_eq _ _ = false

pub text_eq_iff : (s t : Text) → (text_eq s t ≡ true) ↔ (s ≡ t)
unfolding text_eq
text_eq_iff [] [] = ground arith
text_eq_iff [] (b ∷ t) = ground arith
text_eq_iff (a ∷ s) [] = ground arith
text_eq_iff (a ∷ s) (b ∷ t) = ground (arith, text_eq_iff s t)

pub text_eq_refl : (s : Text) → text_eq s s ≡ true
text_eq_refl s = (text_eq_iff s s).1 refl

instance abbrev pub text_key : Eq Text
text_key = record { beq = text_eq; beq_iff = text_eq_iff }

abbrev pub is_empty : Text → Bool
is_empty [] = true
is_empty (_ ∷ _) = false

abbrev pub is_digit : ℕ → Bool
is_digit c = leb b'0' c && leb c b'9'

abbrev pub is_upper : ℕ → Bool
is_upper c = leb b'A' c && leb c b'Z'

abbrev pub is_lower : ℕ → Bool
is_lower c = leb b'a' c && leb c b'z'

abbrev pub is_alnum : ℕ → Bool
is_alnum c = is_digit c || is_upper c || is_lower c

-- Membership in a set of strings, Go's `map[string]bool`.
unfoldable pub contains : List Text → Text → Bool
contains [] t = false
contains (s ∷ ss) t = text_eq s t || contains ss t

pub contains-mem : (ss : List Text) (t : Text) → contains ss t ≡ true → Memᴰ t ss
unfolding contains
contains-mem [] t h = cc
contains-mem (s ∷ ss) t h = elim (Bool-cases (text_eq s t)) [
  | inl e ↦ Memᴰ.head (sym ((text_eq_iff s t).0 e))
  | inr e ↦ Memᴰ.tail (contains-mem ss t (rw e at h))
]

pub mem-contains : (ss : List Text) (t : Text) → Memᴰ t ss → contains ss t ≡ true
unfolding contains
mem-contains [] t h = elim h [ ]
mem-contains (s ∷ ss) t (Memᴰ.head e) = ground (arith, text_eq_iff s t)
mem-contains (s ∷ ss) t (Memᴰ.tail m) = ground (arith, mem-contains ss t m)

-- `strings.Split` with a separator of one byte.
abbrev pub put_first : ℕ → List Text → List Text
put_first c [] = (c ∷ []) ∷ []
put_first c (f ∷ fs) = (c ∷ f) ∷ fs

unfoldable pub split_on : ℕ → Text → List Text
split_on sep [] = [] ∷ []
split_on sep (c ∷ s) = let rest = split_on sep s in if c == sep then [] ∷ rest else put_first c rest

-- `character < 0x20 || character == 0x7f`. The loop of the code is over runes, and a rune below 0x80 is
-- a byte below 0x80.
abbrev pub is_control : ℕ → Bool
is_control c = ltb c 0x20 || c == 0x7f

abbrev pub is_dots : Text → Bool
is_dots part = is_empty part || text_eq part (codes ".") || text_eq part (codes "..")

abbrev pub starts_with : ℕ → Text → Bool
starts_with b [] = false
starts_with b (c ∷ s) = c == b

abbrev pub lower_byte : ℕ → ℕ
lower_byte c = if is_upper c then c + 32 else c

abbrev pub upper_byte : ℕ → ℕ
upper_byte c = if is_lower c then c - 32 else c

-- `strings.EqualFold` with an ASCII text whose letters fold to no letter outside ASCII.
abbrev pub equal_fold : Text → Text → Bool
equal_fold s t = text_eq (map lower_byte s) (map lower_byte t)

-- `strings.Join` with a separator of one byte.
abbrev pub join_with : ℕ → List Text → Text
join_with sep [] = []
join_with sep (s ∷ []) = s
join_with sep (s ∷ t ∷ ts) = s ++ sep ∷ join_with sep (t ∷ ts)

-- The order of strings, byte by byte.
abbrev pub text_lt : Text → Text → Bool
text_lt s [] = false
text_lt [] (b ∷ t) = true
text_lt (a ∷ s) (b ∷ t) = ltb a b || (a == b && text_lt s t)

abbrev pub concat : List Text → Text
concat [] = []
concat (s ∷ ss) = s ++ concat ss

pub concat-append : (a b : List Text) → concat (a ++ b) ≡ concat a ++ concat b
concat-append [] b = refl
concat-append (s ∷ a) b =
    ap (λ t. s ++ t) (concat-append a b) ∙ sym (append_assoc s (concat a) (concat b))

pub Text-cases : (s : Text) → (s ≡ []) ⊎ (s ≢ [])
Text-cases [] = inl refl
Text-cases (c ∷ s) = inr (λ h. cc h)

pub is_empty-given : (s : Text) → s ≢ [] → is_empty s ≡ false
is_empty-given [] h = absurd (h refl)
is_empty-given (c ∷ s) h = refl
