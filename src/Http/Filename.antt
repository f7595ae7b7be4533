-- ===== src/Http/Filename.antt =====
-- `urlDecode` and `sanitizeFilename` of my_nginx_event/include/http/my_http_context.h, which
-- my_nginx_event/src/app/demo1.cpp repeats.
pub mod Safe
use mynginx_evnet_module.Base.{
  ℕ, ◌+◌, ◌-◌, ◌*◌, ◌%◌, Bool, true, false, ◌&&◌, ◌||◌, not, Option, none, some, List, [], ◌∷◌,
  ◌++◌, map, leb, ltb, ◌==◌, if◌then◌else◌, length, take, drop,
}
use mathlib.Core.Option
use mynginx_evnet_module.Base.Bytes.{Bytes, find_byte}

abbrev within : ℕ → ℕ → ℕ → Bool
within lo hi c = leb lo c && leb c hi

unfoldable pub hex_digit : ℕ → Option ℕ
hex_digit c =
    if within b'0' b'9' c
    then some (c - b'0')
    else if within b'a' b'f' c
    then some (c - b'a' + 10)
    else if within b'A' b'F' c
    then some (c - b'A' + 10)
    else none

-- `isspace` in the C locale.
unfoldable pub is_space : ℕ → Bool
is_space c = c == 32 || within 9 13 c

-- `iss >> std::hex >> hexValue` on two characters, then the cast to `char`: space is skipped, a sign is
-- read, reading stops at what is no digit, and a failure gives 0. Where there is nothing but space, the
-- `int` is not set, and keeps the byte `unset`.
unfoldable pub hex_pair : ℕ → ℕ → ℕ → ℕ
unfolding hex_digit is_space
hex_pair unset a b = elim (hex_digit a) [
  | some x ↦ elim (hex_digit b) [ some y ↦ 16 * x + y | none ↦ x ]
  | none ↦ elim (hex_digit b) [
    | none ↦ if is_space a && is_space b then unset else 0
    | some y ↦ if is_space a || a == b'+' then y else if a == b'-' then (256 - y) % 256 else 0
  ]
]

abbrev pub plain : ℕ → ℕ
plain c = if c == b'+' then 32 else c

-- `none` is the exception `Invalid URL encoding.`
unfoldable pub url_decode : ℕ → Bytes → Option Bytes
unfolding hex_pair
url_decode unset [] = some []
url_decode unset (c ∷ []) = if c == b'%' then none else some (plain c ∷ [])
url_decode unset (c ∷ a ∷ []) =
    let more = url_decode unset (a ∷ []) in
    if c == b'%' then none else Option.map (λ t. plain c ∷ t) more
url_decode unset (c ∷ a ∷ b ∷ rest) =
    let skipped = url_decode unset rest in
    let more = url_decode unset (a ∷ b ∷ rest) in
    if c == b'%'
    then Option.map (λ t. hex_pair unset a b ∷ t) skipped
    else Option.map (λ t. plain c ∷ t) more

-- `isalnum` in the C locale.
unfoldable pub is_alnum : ℕ → Bool
is_alnum c = within b'a' b'z' c || within b'A' b'Z' c || within b'0' b'9' c

unfoldable pub is_safe : ℕ → Bool
unfolding is_alnum
is_safe c = is_alnum c || c == b'_' || c == b'.'

unfoldable pub safe_byte : ℕ → ℕ
unfolding is_safe
safe_byte c = if is_safe c then c else b'_'

-- `rfind('.')`: the position of the last dot.
unfoldable pub last_dot : Bytes → Option ℕ
last_dot [] = none
last_dot (c ∷ cs) = elim (last_dot cs) [
  | some i ↦ some (i + 1)
  | none ↦ if c == b'.' then some 0 else none
]

abbrev pub max_basename_length : ℕ
max_basename_length = 10

-- The name before its last dot, and the rest, dot included.
unfoldable pub split_extension : Bytes → Bytes × Bytes
unfolding last_dot
split_extension safe = elim (last_dot safe) [
  | none ↦ (safe, [])
  | some pos ↦ (take pos safe, drop pos safe)
]

unfoldable pub limit_basename : Bytes → Bytes
limit_basename base =
    if ltb max_basename_length (length base) then take max_basename_length base else base

unfoldable pub rebuild : Bytes → Bytes
unfolding split_extension limit_basename
rebuild safe = let (base, extension) = split_extension safe in limit_basename base ++ extension

unfoldable pub sanitize_filename : ℕ → Bytes → Option Bytes
unfolding url_decode safe_byte rebuild
sanitize_filename unset raw =
    Option.map (λ decoded. rebuild (map safe_byte decoded)) (url_decode unset raw)
