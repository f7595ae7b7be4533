-- ===== src/Base/Bytes.antt =====
-- Byte strings: `std::string`, `std::vector<uint8_t>` and the searches the source makes in them.
use Prim.Native.Char.{code}
use Prim.Native.String.{String}
use Prim.Native.Nat.{ℕ, suc, ◌+◌}
use mathlib.Core.Path.{◌≡◌, refl}
use mathlib.Core.Logic.{◌↔◌}
use mathlib.Core.Bool.{Bool, true, false, ◌&&◌, ◌||◌}
use mathlib.Core.Option
use mathlib.Core.Option.{Option, none, some}
use mathlib.Core.List.{List, [], ◌∷◌, ◌++◌}
use native.Mathlib.Omega.{arith}
use mynginx_evnet_module.Base.Tests.{◌==◌, ltb, if◌then◌else◌}
use mynginx_evnet_module.Base.Lists.{length}

abbrev pub Bytes : Type 0
Bytes = List ℕ

-- The bytes of a literal: every literal of this development is ASCII.
abbrev pub codes : String → Bytes
codes String.[] = []
codes (String.◌∷◌ c s) = code c ∷ codes s

abbrev pub is_empty : Bytes → Bool
is_empty [] = true
is_empty (c ∷ cs) = false

-- `operator==` of strings.
unfoldable pub equal : Bytes → Bytes → Bool
equal [] [] = true
equal (p ∷ ps) (q ∷ qs) = p == q && equal ps qs
equal _ _ = false

-- `operator<` of strings: lexicographic on the bytes.
unfoldable pub less : Bytes → Bytes → Bool
less [] [] = false
less [] (y ∷ ys) = true
less (x ∷ xs) [] = false
less (x ∷ xs) (y ∷ ys) = ltb x y || (x == y && less xs ys)

unfoldable pub starts_with : Bytes → Bytes → Bool
starts_with [] xs = true
starts_with (p ∷ ps) [] = false
starts_with (p ∷ ps) (x ∷ xs) = p == x && starts_with ps xs

-- `std::find`, `memchr` and `string::find(char)`: the first position of a byte.
unfoldable pub find_byte : ℕ → Bytes → Option ℕ
find_byte b [] = none
find_byte b (x ∷ xs) = if x == b then some 0 else Option.map suc (find_byte b xs)

-- `std::search` and `string::find(string)`: the first position of a pattern.
unfoldable pub search_bytes : Bytes → Bytes → Option ℕ
unfolding starts_with
search_bytes [] xs = some 0
search_bytes (p ∷ ps) [] = none
search_bytes (p ∷ ps) (x ∷ xs) =
    if starts_with (p ∷ ps) (x ∷ xs) then some 0 else Option.map suc (search_bytes (p ∷ ps) xs)

-- Moves a position found from `from` on to one counted from the start of the string.
abbrev pub from_start : ℕ → Option ℕ → Option ℕ
from_start from none = none
from_start from (some i) = some (from + i)

pub equal_iff : (xs ys : Bytes) → (equal xs ys ≡ true) ↔ (xs ≡ ys)
unfolding equal
equal_iff [] [] = ground arith
equal_iff [] (q ∷ qs) = ground arith
equal_iff (p ∷ ps) [] = ground arith
equal_iff (p ∷ ps) (q ∷ qs) = ground (arith, equal_iff ps qs)

pub equal_refl : (a : Bytes) → equal a a ≡ true
equal_refl a = (equal_iff a a).1 refl

-- A byte that does not occur in a string.
abbrev pub Lacks : ℕ → Bytes → Type 0
Lacks b [] = Unit {0}
Lacks b (x ∷ xs) = ((x == b) ≡ false) × Lacks b xs

-- The byte is found right behind a prefix that lacks it.
pub find_byte-append :
    (b : ℕ) (xs ys : Bytes) → Lacks b xs → find_byte b (xs ++ b ∷ ys) ≡ some (length xs)
unfolding find_byte
find_byte-append b [] ys h = ground arith
find_byte-append b (x ∷ xs) ys h = ground (arith, find_byte-append b xs ys h.1)

pub find_byte-Lacks : (b : ℕ) (xs : Bytes) → Lacks b xs → find_byte b xs ≡ none
unfolding find_byte
find_byte-Lacks b [] h = refl
find_byte-Lacks b (x ∷ xs) h = ground (arith, find_byte-Lacks b xs h.1)

pub starts_with-append : (ps xs : Bytes) → starts_with ps (ps ++ xs) ≡ true
unfolding starts_with
starts_with-append [] xs = refl
starts_with-append (p ∷ ps) xs = ground (arith, starts_with-append ps xs)

-- A pattern is found right behind a prefix that lacks its first byte.
pub search_bytes-append :
    (p : ℕ) (ps xs rest : Bytes)
    → Lacks p xs
    → search_bytes (p ∷ ps) (xs ++ ((p ∷ ps) ++ rest)) ≡ some (length xs)
unfolding search_bytes
search_bytes-append p ps [] rest h = rw (starts_with-append (p ∷ ps) rest, search_bytes)
search_bytes-append p ps (x ∷ xs) rest h = ground (arith, search_bytes-append p ps xs rest h.1)

pub search_bytes-Lacks : (p : ℕ) (ps xs : Bytes) → Lacks p xs → search_bytes (p ∷ ps) xs ≡ none
unfolding search_bytes
search_bytes-Lacks p ps [] h = refl
search_bytes-Lacks p ps (x ∷ xs) h = ground (arith, search_bytes-Lacks p ps xs h.1)

pub Lacks-append : (b : ℕ) (xs ys : Bytes) → Lacks b xs → Lacks b ys → Lacks b (xs ++ ys)
Lacks-append b [] ys h k = k
Lacks-append b (x ∷ xs) ys h k = (h.0, Lacks-append b xs ys h.1 k)

-- The test for `Lacks`.
pub Lacks-of_find_byte : (b : ℕ) (xs : Bytes) → find_byte b xs ≡ none → Lacks b xs
unfolding find_byte
Lacks-of_find_byte b [] h = tt
Lacks-of_find_byte b (x ∷ xs) h = (ground (arith, h), Lacks-of_find_byte b xs (ground (arith, h)))
