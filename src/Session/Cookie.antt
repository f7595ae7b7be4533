-- ===== src/Session/Cookie.antt =====
-- The session cookie of my_nginx_event/src/session/sessionManager.cpp: what is written into a response
-- is read back from a request.
use mynginx_evnet_module.Base.{
  ℕ, zero, suc, ◌+◌, ◌<◌, ◌≡◌, refl, ap, ◌∙◌, some, List, [], ◌∷◌, ◌++◌, map, append-nil, arith,
  length, take, drop, take_before, drop-drop, drop-append, ◌⊎◌, inl, inr,
}
use mynginx_evnet_module.Base.Bytes.{
  Bytes, codes, search_bytes, find_byte, Lacks, find_byte-append, find_byte-Lacks,
  search_bytes-append,
}
use mynginx_evnet_module.Session.{
  hex_char, generate_session_id, cookie_name, cut_value, session_id_at, session_id_in,
}

-- The numbers that the generator draws are below 16.
abbrev pub Below : List ℕ → Type 0
Below [] = Unit {0}
Below (n ∷ drawn) = (n < 16) × Below drawn

-- What may stand behind the identifier in a cookie.
abbrev pub EndsValue : Bytes → Type 0
EndsValue tail = (tail ≡ []) ⊎ ((t : Bytes) × (tail ≡ b';' ∷ t))

cut_value-ends :
    (id tail : Bytes)
    → Lacks b';' id
    → EndsValue tail
    → cut_value (id ++ tail) (find_byte b';' (id ++ tail)) ≡ id
cut_value-ends id tail h (inl e) =
    ap (λ t. cut_value t (find_byte b';' t)) (ap (λ u. id ++ u) e ∙ append-nil id)
    ∙ ap (cut_value id) (find_byte-Lacks b';' id h)
cut_value-ends id tail h (inr (t, e)) =
    ap (λ u. cut_value (id ++ u) (find_byte b';' (id ++ u))) e
    ∙ ap (cut_value (id ++ b';' ∷ t)) (find_byte-append b';' id t h)
    ∙ take_before id (b';' ∷ t)

-- The identifier is read from a cookie header whatever other text without an `s` stands before it, up
-- to a semicolon or the end of the header.
pub session_id_in-cookie :
    (before id tail : Bytes)
    → Lacks b's' before
    → Lacks b';' id
    → EndsValue tail
    → session_id_in (before ++ (cookie_name ++ (id ++ tail))) ≡ id
unfolding session_id_in
session_id_in-cookie before id tail h k e =
    let cookie = before ++ (cookie_name ++ (id ++ tail)) in
    let f : search_bytes cookie_name cookie ≡ some (length before) =
      search_bytes-append b's' (codes "essionId=") before (id ++ tail) h in
    let d : drop (length before + 10) cookie ≡ id ++ tail =
      drop-drop (length before) 10 cookie
      ∙ ap (drop 10) (drop-append (length before) before (cookie_name ++ (id ++ tail)) refl) in
    ap (session_id_at cookie) f
    ∙ ap (λ rest. cut_value rest (find_byte b';' rest)) d
    ∙ cut_value-ends id tail k e

generated-Lacks : (drawn : List ℕ) → Below drawn → Lacks b';' (map hex_char drawn)
generated-Lacks [] h = tt
generated-Lacks (n ∷ drawn) h = (ground (arith, h.0), generated-Lacks drawn h.1)

Below-take : (n : ℕ) (drawn : List ℕ) → Below drawn → Below (take n drawn)
Below-take zero drawn h = tt
Below-take (suc n) [] h = tt
Below-take (suc n) (d ∷ drawn) h = (h.0, Below-take n drawn h.1)

pub generate_session_id-Lacks :
    (drawn : List ℕ) → Below drawn → Lacks b';' (generate_session_id drawn)
unfolding generate_session_id
generate_session_id-Lacks drawn h = generated-Lacks (take 32 drawn) (Below-take 32 drawn h)
