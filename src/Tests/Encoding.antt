-- ===== src/Tests/Encoding.antt =====
-- The encodings of the examples: a text as the numbers of its characters, and a list of numbers as
-- a text, each number in strokes that a comma ends.
use Prim.Native.Nat.{Ordering, compare}
use Prim.Native.Char.{Char, char, code, nul, IsLt, IsScalar}
use Prim.Native.String.{String, [] as empty, ◌∷◌ as ◌∷ᶜ◌}
use discord_lite_server.Base.{
  ℕ, zero, suc, ◌+◌, ◌≡◌, refl, ap, ◌∙◌, List, [], ◌∷◌, ◌==◌, nat_eq, arith, if◌then◌else◌,
}

-- The two comparisons of IsScalar.
abbrev Upper : Ordering → Ordering → Type 0
Upper Ordering.lt o = IsLt o
Upper Ordering.eq _ = ⊥
Upper Ordering.gt _ = ⊥

abbrev Scalar : Ordering → Ordering → Ordering → Type 0
Scalar Ordering.lt _ _ = Unit
Scalar Ordering.eq o p = Upper o p
Scalar Ordering.gt o p = Upper o p

abbrev char_at : (n : ℕ) (a b c : Ordering) → (Scalar a b c → IsScalar n) → Char
char_at n Ordering.lt b c f = char n (f tt)
char_at n Ordering.eq Ordering.lt Ordering.lt f = char n (f tt)
char_at n Ordering.gt Ordering.lt Ordering.lt f = char n (f tt)
char_at n _ _ _ f = nul

abbrev char_of : ℕ → Char
char_of n = char_at n (compare n 55296) (compare 57343 n) (compare n 1114112) (λ p. p)

char_at-Scalar :
    (n : ℕ) (a b c : Ordering) (f : Scalar a b c → IsScalar n) (p : Scalar a b c)
    → char_at n a b c f ≡ char n (f p)
char_at-Scalar n Ordering.lt b c f p = refl
char_at-Scalar n Ordering.eq Ordering.lt Ordering.lt f p = refl
char_at-Scalar n Ordering.gt Ordering.lt Ordering.lt f p = refl
char_at-Scalar n Ordering.eq Ordering.lt Ordering.eq f p = absurd p
char_at-Scalar n Ordering.eq Ordering.lt Ordering.gt f p = absurd p
char_at-Scalar n Ordering.eq Ordering.eq c f p = absurd p
char_at-Scalar n Ordering.eq Ordering.gt c f p = absurd p
char_at-Scalar n Ordering.gt Ordering.lt Ordering.eq f p = absurd p
char_at-Scalar n Ordering.gt Ordering.lt Ordering.gt f p = absurd p
char_at-Scalar n Ordering.gt Ordering.eq c f p = absurd p
char_at-Scalar n Ordering.gt Ordering.gt c f p = absurd p

char_of-code : (c : Char) → char_of (code c) ≡ c
char_of-code (char n p) = char_at-Scalar n _ _ _ (λ p. p) p

abbrev pub codes : String → List ℕ
codes empty = []
codes (c ∷ᶜ s) = code c ∷ codes s

abbrev pub from_codes : List ℕ → String
from_codes [] = empty
from_codes (n ∷ ns) = char_of n ∷ᶜ from_codes ns

pub from_codes-codes : (s : String) → from_codes (codes s) ≡ s
from_codes-codes empty = refl
from_codes-codes (c ∷ᶜ s) =
    ap (λ d. d ∷ᶜ from_codes (codes s)) (char_of-code c) ∙ ap (λ t. c ∷ᶜ t) (from_codes-codes s)

abbrev stroke : Char
stroke = char 73 tt

abbrev comma : Char
comma = char 44 tt

abbrev strokes : ℕ → String → String
strokes zero s = comma ∷ᶜ s
strokes (suc n) s = stroke ∷ᶜ strokes n s

abbrev pub spell : List ℕ → String
spell [] = empty
spell (n ∷ ns) = strokes n (spell ns)

abbrev read_from : ℕ → String → List ℕ
read_from k empty = []
read_from k (c ∷ᶜ s) = if code c == 44 then k ∷ read_from 0 s else read_from (suc k) s

abbrev pub read : String → List ℕ
read s = read_from 0 s

read_from-strokes : (k n : ℕ) (s : String) → read_from k (strokes n s) ≡ (n + k) ∷ read_from 0 s
read_from-strokes k zero s = ap (λ m. m ∷ read_from 0 s) (omega arith)
read_from-strokes k (suc n) s =
    read_from-strokes (suc k) n s ∙ ap (λ m. m ∷ read_from 0 s) (omega arith)

pub read-spell : (ns : List ℕ) → read (spell ns) ≡ ns
read-spell [] = refl
read-spell (n ∷ ns) =
    read_from-strokes 0 n (spell ns)
    ∙ ap (λ m. m ∷ read (spell ns)) (omega arith)
    ∙ ap (λ ms. n ∷ ms) (read-spell ns)
