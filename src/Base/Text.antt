-- ===== src/Base/Text.antt =====
-- What the program uses of Go's package strings, over native texts.
use Prim.Native.Nat.{ℕ}
use Prim.Native.Char.{Char, code}
use Prim.Native.String.{String}
use mathlib.Core.Path.{◌≡◌, refl}
use mathlib.Core.Bool.{Bool, true, false, ◌&&◌, ◌||◌}
use mathlib.Core.List.{List, [], ◌∷◌}
use text.Mathlib.Text.{starts_with}
use ouvrier.Base.Tests.{ltb, leb, nat_eq, if◌then◌else◌, Bool-cases}
use mathlib.Core.Logic.{inl, inr}

-- unicode.IsSpace
is_space : ℕ → Bool
is_space c =
    (leb 9 c && leb c 13)
    || (nat_eq c 32
        || (nat_eq c 0x85
            || (nat_eq c 0xA0
                || (nat_eq c 0x1680
                    || ((leb 0x2000 c && leb c 0x200a)
                        || (nat_eq c 0x2028
                            || (nat_eq c 0x2029
                                || (nat_eq c 0x202f || (nat_eq c 0x205f || nat_eq c 0x3000)))))))))

trim_left : String → String
trim_left String.[] = String.[]
trim_left (String.◌∷◌ c s) =
    let rest = trim_left s in if is_space (code c) then rest else String.◌∷◌ c s

-- a space is kept only where a character other than a space follows
cons_trimmed : Char → String → String
cons_trimmed c String.[] = if is_space (code c) then String.[] else String.◌∷◌ c String.[]
cons_trimmed c (String.◌∷◌ d s) = String.◌∷◌ c (String.◌∷◌ d s)

trim_right : String → String
trim_right String.[] = String.[]
trim_right (String.◌∷◌ c s) = cons_trimmed c (trim_right s)

-- strings.TrimSpace
unfoldable pub trim_space : String → String
unfolding trim_left trim_right cons_trimmed is_space
trim_space s = trim_right (trim_left s)

-- strings.HasPrefix
unfoldable pub has_prefix : String → String → Bool
has_prefix s prefix = starts_with s prefix

-- strings.Contains
unfoldable pub contains : String → String → Bool
contains String.[] part = starts_with String.[] part
contains (String.◌∷◌ c s) part = starts_with (String.◌∷◌ c s) part || contains s part

cons_trimmed-fixed :
    (c : Char) (t : String) → trim_right t ≡ t → trim_right (cons_trimmed c t) ≡ cons_trimmed c t
unfolding trim_right cons_trimmed
cons_trimmed-fixed c String.[] h = elim (Bool-cases (is_space (code c))) [
  | inl e ↦ rw e
  | inr e ↦ rw (e, trim_right, cons_trimmed, e)
]
cons_trimmed-fixed c (String.◌∷◌ d s) h = rw h

trim_right-trim_right : (s : String) → trim_right (trim_right s) ≡ trim_right s
unfolding trim_right
trim_right-trim_right String.[] = refl
trim_right-trim_right (String.◌∷◌ c s) =
    cons_trimmed-fixed c (trim_right s) (trim_right-trim_right s)

trim_left-cons_trimmed :
    (c : Char) (t : String)
    → is_space (code c) ≡ false
    → trim_left (cons_trimmed c t) ≡ cons_trimmed c t
unfolding trim_left cons_trimmed
trim_left-cons_trimmed c String.[] h = rw (h, trim_left, h)
trim_left-cons_trimmed c (String.◌∷◌ d s) h = rw h

trim_left_of_trimmed :
    (s : String) → trim_left (trim_right (trim_left s)) ≡ trim_right (trim_left s)
unfolding trim_left trim_right
trim_left_of_trimmed String.[] = refl
trim_left_of_trimmed (String.◌∷◌ c s) = elim (Bool-cases (is_space (code c))) [
  | inl e ↦ rw e (trim_left_of_trimmed s)
  | inr e ↦ rw e (trim_left-cons_trimmed c (trim_right s) e)
]

-- Trimming twice is trimming once.
pub trim_space-trim_space : (s : String) → trim_space (trim_space s) ≡ trim_space s
unfolding trim_space
trim_space-trim_space s = rw (trim_left_of_trimmed s) (trim_right-trim_right (trim_left s))

-- Go's `<` on strings: the order of bytes, which is that of code points.
unfoldable pub str_ltb : String → String → Bool
str_ltb String.[] String.[] = false
str_ltb String.[] (String.◌∷◌ d t) = true
str_ltb (String.◌∷◌ c s) String.[] = false
str_ltb (String.◌∷◌ c s) (String.◌∷◌ d t) =
    ltb (code c) (code d) || (nat_eq (code c) (code d) && str_ltb s t)

-- The code points of a text, []rune(s).
abbrev pub codes : String → List ℕ
codes String.[] = []
codes (String.◌∷◌ c s) = code c ∷ codes s
