-- ===== src/Base/Text.antt =====
-- Go's strings.TrimSpace and the length in runes, on texts of code points.
use Prim.Native.Nat.{ℕ, suc, ◌+◌}
use Prim.Native.String.{String}
use Prim.Native.Char.{Char, code}
use mathlib.Core.Bool.{Bool, true, false, ◌&&◌, ◌||◌}
use mathlib.Core.Path.{◌≡◌, refl, sym, ap, ◌∙◌}
use mathlib.Core.Logic.{inl, inr}
use etask.Base.Tests.{leb, ◌==◌, if◌then◌else◌, Bool-cases}

-- unicode.IsSpace
unfoldable pub is_space : ℕ → Bool
is_space c =
    (leb 9 c && leb c 13)
    || (c == 32)
    || (c == 0x85)
    || (c == 0xa0)
    || (c == 0x1680)
    || (leb 0x2000 c && leb c 0x200a)
    || (c == 0x2028)
    || (c == 0x2029)
    || (c == 0x202f)
    || (c == 0x205f)
    || (c == 0x3000)

unfoldable pub trim_left : String → String
unfolding is_space
trim_left String.[] = String.[]
trim_left (String.◌∷◌ c s) =
    let rest = trim_left s in if is_space (code c) then rest else String.◌∷◌ c s

abbrev is_nothing : String → Bool
is_nothing String.[] = true
is_nothing (String.◌∷◌ c s) = false

abbrev prepend_unless_blank : Char → String → String
prepend_unless_blank c rest =
    if is_space (code c) && is_nothing rest then String.[] else String.◌∷◌ c rest

unfoldable pub trim_right : String → String
unfolding is_space
trim_right String.[] = String.[]
trim_right (String.◌∷◌ c s) = prepend_unless_blank c (trim_right s)

unfoldable pub trim_space : String → String
unfolding trim_left trim_right
trim_space s = trim_right (trim_left s)

-- len([]rune(s))
unfoldable pub rune_count : String → ℕ
rune_count String.[] = 0
rune_count (String.◌∷◌ c s) = suc (rune_count s)

-- the bytes of a code point in UTF-8
abbrev rune_bytes : ℕ → ℕ
rune_bytes c = if leb c 0x7f then 1 else if leb c 0x7ff then 2 else if leb c 0xffff then 3 else 4

-- len(s)
unfoldable pub byte_count : String → ℕ
byte_count String.[] = 0
byte_count (String.◌∷◌ c s) = rune_bytes (code c) + byte_count s

-- A text that is trimmed stays as it is.
trim_right-trim_right : (s : String) → trim_right (trim_right s) ≡ trim_right s
unfolding trim_right
trim_right-trim_right String.[] = refl
trim_right-trim_right (String.◌∷◌ c s) =
    let ih = trim_right-trim_right s in
    elim (Bool-cases (is_space (code c) && is_nothing (trim_right s))) [
      | inl e ↦ rw e refl
      | inr e ↦ rw e (rw ih (rw e refl))
    ]

module _ (c : Char) (s : String) where
  trim_left-kept : is_space (code c) ≡ false → trim_left (String.◌∷◌ c s) ≡ String.◌∷◌ c s
  unfolding trim_left
  trim_left-kept e = rw e refl

  trim_left-dropped : is_space (code c) ≡ true → trim_left (String.◌∷◌ c s) ≡ trim_left s
  unfolding trim_left
  trim_left-dropped e = rw e refl

  trim_right-kept :
      is_space (code c) ≡ false → trim_right (String.◌∷◌ c s) ≡ String.◌∷◌ c (trim_right s)
  unfolding trim_right
  trim_right-kept e = rw e refl

empty_trimmed : trim_left (trim_right (trim_left String.[])) ≡ trim_right (trim_left String.[])
unfolding trim_left trim_right
empty_trimmed = refl

trim_left-trim_right :
    (s : String) → trim_left (trim_right (trim_left s)) ≡ trim_right (trim_left s)
trim_left-trim_right String.[] = empty_trimmed
trim_left-trim_right (String.◌∷◌ c s) = elim (Bool-cases (is_space (code c))) [
  | inl e ↦
      let drops = trim_left-dropped c s e in
      ap (λ t. trim_left (trim_right t)) drops ∙ trim_left-trim_right s ∙ sym (ap trim_right drops)
  | inr e ↦
      let keeps = ap trim_right (trim_left-kept c s e) ∙ trim_right-kept c s e in
      ap trim_left keeps ∙ trim_left-kept c (trim_right s) e ∙ sym keeps
]

pub trim_space-trim_space : (s : String) → trim_space (trim_space s) ≡ trim_space s
unfolding trim_space
trim_space-trim_space s =
    ap trim_right (trim_left-trim_right s) ∙ trim_right-trim_right (trim_left s)
