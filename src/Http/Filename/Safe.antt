-- ===== src/Http/Filename/Safe.antt =====
-- What `sanitizeFilename` of my_nginx_event/include/http/my_http_context.h guarantees of a name.
use mynginx_evnet_module.Base.{
  ℕ, zero, suc, ◌≤◌, ◌≡◌, ◌⊎◌, refl, true, none, some, [], ◌∷◌, ◌++◌, map, arith, inl, inr,
  Option-cases, length, take, drop, length-take,
}
use mynginx_evnet_module.Base.Bytes.{Bytes, Lacks}
use mynginx_evnet_module.Http.Filename.{
  is_safe, safe_byte, last_dot, split_extension, limit_basename, rebuild, url_decode,
  sanitize_filename, max_basename_length,
}

abbrev pub AllSafe : Bytes → Type 0
AllSafe [] = Unit {0}
AllSafe (c ∷ cs) = (is_safe c ≡ true) × AllSafe cs

safe_byte-IsSafe : (c : ℕ) → is_safe (safe_byte c) ≡ true
unfolding safe_byte
safe_byte-IsSafe c = ground arith

map-safe_byte-AllSafe : (cs : Bytes) → AllSafe (map safe_byte cs)
map-safe_byte-AllSafe [] = tt
map-safe_byte-AllSafe (c ∷ cs) = (safe_byte-IsSafe c, map-safe_byte-AllSafe cs)

AllSafe-append : (xs ys : Bytes) → AllSafe xs → AllSafe ys → AllSafe (xs ++ ys)
AllSafe-append [] ys h k = k
AllSafe-append (x ∷ xs) ys h k = (h.0, AllSafe-append xs ys h.1 k)

AllSafe-take : (n : ℕ) (xs : Bytes) → AllSafe xs → AllSafe (take n xs)
AllSafe-take zero xs h = tt
AllSafe-take (suc n) [] h = tt
AllSafe-take (suc n) (x ∷ xs) h = (h.0, AllSafe-take n xs h.1)

AllSafe-drop : (n : ℕ) (xs : Bytes) → AllSafe xs → AllSafe (drop n xs)
AllSafe-drop zero xs h = h
AllSafe-drop (suc n) [] h = tt
AllSafe-drop (suc n) (x ∷ xs) h = AllSafe-drop n xs h.1

limit-AllSafe : (xs : Bytes) → AllSafe xs → AllSafe (limit_basename xs)
unfolding limit_basename
limit-AllSafe xs h = ground (arith, AllSafe-take max_basename_length xs h)

rebuild-AllSafe : (xs : Bytes) → AllSafe xs → AllSafe (rebuild xs)
unfolding rebuild split_extension
rebuild-AllSafe xs h = elim (Option-cases (last_dot xs)) [
  | inl e ↦
      rw (e, rebuild, split_extension)
        (AllSafe-append (limit_basename xs) [] (limit-AllSafe xs h) tt)
  | inr (pos, e) ↦
      rw (e, rebuild, split_extension)
        (AllSafe-append (limit_basename (take pos xs)) (drop pos xs)
          (limit-AllSafe (take pos xs) (AllSafe-take pos xs h)) (AllSafe-drop pos xs h))
]

AllSafe-Lacks : (xs : Bytes) → AllSafe xs → Lacks b'/' xs
unfolding is_safe
AllSafe-Lacks [] h = tt
AllSafe-Lacks (x ∷ xs) h = (ground arith, AllSafe-Lacks xs h.1)

length-limit : (xs : Bytes) → length (limit_basename xs) ≤ max_basename_length
unfolding limit_basename
length-limit xs = ground (arith, length-take max_basename_length xs)

last_dot-none : (xs : Bytes) → last_dot xs ≡ none → Lacks b'.' xs
unfolding last_dot
last_dot-none [] h = tt
last_dot-none (x ∷ xs) h = ground (arith, last_dot-none xs)

-- What `sanitize_filename` may return: safe bytes only, hence no path separator; a stem of at most
-- ten bytes; behind it nothing or one extension that starts with a dot and has no other.
pub record IsSanitized (name : Bytes) : Type 0 where
  pub stem : Bytes
  pub extension : Bytes
  pub parts : name ≡ stem ++ extension
  pub safe : AllSafe name
  pub no_separator : Lacks b'/' name
  pub stem_bound : length stem ≤ max_basename_length
  pub one_dot : (extension ≡ []) ⊎ ((rest : Bytes) × (extension ≡ b'.' ∷ rest) × Lacks b'.' rest)

drop-last_dot :
    (xs : Bytes) (pos : ℕ)
    → last_dot xs ≡ some pos
    → (rest : Bytes) × (drop pos xs ≡ b'.' ∷ rest) × Lacks b'.' rest
unfolding last_dot
drop-last_dot [] pos h = cc
drop-last_dot (x ∷ xs) pos h = elim (Option-cases (last_dot xs)) [
  | inr (i, e) ↦ let q : pos ≡ suc i = ground (arith, h, e) in rw q (drop-last_dot xs i e)
  | inl e ↦
      let q : pos ≡ 0 = ground (arith, h, e) in
      let d : x ≡ b'.' = ground (arith, h, e) in rw (q, d) (xs, refl, last_dot-none xs e)
]

rebuild-IsSanitized : (xs : Bytes) → AllSafe xs → IsSanitized (rebuild xs)
unfolding rebuild split_extension
rebuild-IsSanitized xs h =
    let s = rebuild-AllSafe xs h in
    record {
      stem = limit_basename (split_extension xs).0;
      extension = (split_extension xs).1;
      parts = refl;
      safe = s;
      no_separator = AllSafe-Lacks _ s;
      stem_bound = length-limit (split_extension xs).0;
      one_dot = elim (Option-cases (last_dot xs)) [
        | inl e ↦ rw (e, split_extension) (inl refl)
        | inr (pos, e) ↦ rw (e, split_extension) (inr (drop-last_dot xs pos e))
      ];
    }

-- Whatever name a client sends, a name that `sanitize_filename` returns holds only ASCII letters,
-- digits, `_` and `.`, so no `/`, and is a stem of at most ten bytes followed by nothing or by one
-- extension, which begins with the name's last dot.
pub sanitize_filename-IsSanitized :
    (unset : ℕ) (raw : Bytes) {name : Bytes}
    → sanitize_filename unset raw ≡ some name
    → IsSanitized name
unfolding sanitize_filename
sanitize_filename-IsSanitized unset raw {name} h = elim (Option-cases (url_decode unset raw)) [
  | inl e ↦ cc
  | inr (decoded, e) ↦
      let q : rebuild (map safe_byte decoded) ≡ name = ground (arith, h, e) in
      rw q at (rebuild-IsSanitized (map safe_byte decoded) (map-safe_byte-AllSafe decoded))
]
