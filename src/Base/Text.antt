-- ===== src/Base/Text.antt =====
-- Texts as lists of ASCII codes, for what the source does to them character by character.
use Prim.Native.Char.{code}
use Prim.Native.Nat.{ℕ, ◌+◌, ◌-◌}
use Prim.Native.String.{String}
use mathlib.Core.Bool.{Bool, true, false, ◌&&◌, ◌||◌}
use mathlib.Core.List.{List, [], ◌∷◌, map, reverse}
use mathlib.Core.Path.{◌≡◌, refl}
use native.Mathlib.Omega.{arith}
use repolens.Base.Tests.{leb, nat_eq, if◌then◌else◌}

abbrev pub codes : String → List ℕ
codes String.[] = []
codes (String.◌∷◌ c s) = code c ∷ codes s

unfoldable pub same_codes : List ℕ → List ℕ → Bool
same_codes [] [] = true
same_codes (a ∷ s) (b ∷ t) = nat_eq a b && same_codes s t
same_codes _ _ = false

pub lower_code : ℕ → ℕ
lower_code c = if leb b'A' c && leb c b'Z' then c + 32 else c

pub upper_code : ℕ → ℕ
upper_code c = if leb b'a' c && leb c b'z' then c - 32 else c

pub is_space : ℕ → Bool
is_space c = nat_eq c 32 || leb 9 c && leb c 13

pub trim_left : List ℕ → List ℕ
trim_left [] = []
trim_left (c ∷ s) = if is_space c then trim_left s else c ∷ s

-- strings.ToLower, strings.ToUpper and strings.TrimSpace
unfoldable pub to_lower : List ℕ → List ℕ
unfolding lower_code
to_lower = map lower_code

unfoldable pub to_upper : List ℕ → List ℕ
unfolding upper_code
to_upper = map upper_code

unfoldable pub trim_space : List ℕ → List ℕ
unfolding trim_left is_space
trim_space s = reverse (trim_left (reverse (trim_left s)))

-- strings.TrimSpace of a text that is kept as a text.
abbrev pub is_empty_text : String → Bool
is_empty_text String.[] = true
is_empty_text (String.◌∷◌ c s) = false

unfoldable pub trim_right_text : String → String
unfolding is_space
trim_right_text String.[] = String.[]
trim_right_text (String.◌∷◌ c s) =
    let rest = trim_right_text s in
    if is_empty_text rest && is_space (code c) then String.[] else String.◌∷◌ c rest

unfoldable pub trim_left_text : String → String
unfolding is_space
trim_left_text String.[] = String.[]
trim_left_text (String.◌∷◌ c s) =
    let rest = trim_left_text s in if is_space (code c) then rest else String.◌∷◌ c s

unfoldable pub trim_text : String → String
unfolding trim_left_text trim_right_text
trim_text s = trim_right_text (trim_left_text s)

pub is_prefix : List ℕ → List ℕ → Bool
is_prefix [] t = true
is_prefix (a ∷ p) [] = false
is_prefix (a ∷ p) (b ∷ t) = nat_eq a b && is_prefix p t

-- strings.Contains
unfoldable pub contains : List ℕ → List ℕ → Bool
unfolding is_prefix
contains [] p = is_prefix p []
contains (c ∷ t) p = is_prefix p (c ∷ t) || contains t p

-- A text among constants.
unfoldable pub is_one_of : List ℕ → List String → Bool
unfolding same_codes
is_one_of c [] = false
is_one_of c (t ∷ ts) = same_codes c (codes t) || is_one_of c ts

pub same_codes_self : (s : List ℕ) → same_codes s s ≡ true
unfolding same_codes
same_codes_self [] = refl
same_codes_self (x ∷ s) = ground (arith, same_codes_self s)

pub same_codes-eq : (s t : List ℕ) → same_codes s t ≡ true → s ≡ t
unfolding same_codes
same_codes-eq [] [] h = refl
same_codes-eq [] (b ∷ t) h = ground arith
same_codes-eq (a ∷ s) [] h = ground arith
same_codes-eq (a ∷ s) (b ∷ t) h =
    let head : a ≡ b = ground arith in
    let tail : s ≡ t = same_codes-eq s t (ground arith) in λ i. head i ∷ tail i
