-- ===== src/Middleware/Auth.antt =====
-- `AuthMiddleware` of my_nginx_event/src/middleware/auth/AuthMiddleware.cpp. `validator_` is a
-- `std::function`, which is empty until it is set: a call of it then throws `bad_function_call`.
use mynginx_evnet_module.Base.{
  ◌≡◌, ◌<◌, ◌⊎◌, ◌∙◌, ap, sym, length-append, take-append, take-append-drop, length-drop, Bool,
  true, false, not, ◌||◌, Option, none, some, ◌++◌, if◌then◌else◌, leb, length, take, drop, arith,
  lt→not_leb, refl, Bool-cases, inl, inr,
}
use mynginx_evnet_module.Base.Bytes.{Bytes, codes, equal, equal_iff, equal_refl}
use mynginx_evnet_module.Http.Request.{HttpRequest, get_header}
use mynginx_evnet_module.Http.Response.{unauthorized, forbidden}
use mynginx_evnet_module.Http.Exception.{http_exception, std_exception, completed}
use mynginx_evnet_module.Middleware.{Before, passed, threw, Middleware}

abbrev pub bearer : Bytes
bearer = codes "Bearer "

-- The answer of the validator on a token.
unfoldable pub check_token : Option (Bytes → Bool) → HttpRequest → Bytes → Before
check_token none q token = threw (std_exception (codes "bad_function_call"))
check_token (some valid) q token =
    if valid token
    then passed q
    else threw (http_exception forbidden (codes "Forbidden: Token verification failed"))

unfoldable pub auth_before : Option (Bytes → Bool) → HttpRequest → Before
unfolding check_token
auth_before validator q =
    let header = get_header q (codes "Authorization") in
    if leb (length header) (length bearer) || not (equal (take (length bearer) header) bearer)
    then threw (http_exception unauthorized (codes "Unauthorized: Invalid header format"))
    else check_token validator q (drop (length bearer) header)

-- The constructor takes the expected token and leaves the validator empty.
unfoldable pub auth_middleware : {W : Type 0} → Bytes → Middleware W
unfolding auth_before
auth_middleware expected = record {
  before = λ q w. (auth_before none q, w);
  after = λ r w. (completed r, w);
}

-- The `Authorization` header is `Bearer ` with a token behind it.
abbrev pub HasToken : HttpRequest → Type 0
HasToken q =
    (token : Bytes) × (get_header q (codes "Authorization") ≡ bearer ++ token) × (0 < length token)

-- The test of the header in `before`.
abbrev is_refused : Bytes → Bool
is_refused header =
    leb (length header) (length bearer) || not (equal (take (length bearer) header) bearer)

refused-lacks :
    (q : HttpRequest) → is_refused (get_header q (codes "Authorization")) ≡ true → ¬ HasToken q
refused-lacks q b (token, e, l) =
    let long =
      lt→not_leb (length (bearer ++ token)) (length bearer)
        (omega (arith, l, length-append bearer token)) in
    let same = equal_refl bearer in
    let b' : is_refused (bearer ++ token) ≡ true = ap is_refused (sym e) ∙ b in
    ground (arith, b', long, take-append (length bearer) bearer token refl, same)

accepted-has :
    (q : HttpRequest) → is_refused (get_header q (codes "Authorization")) ≡ false → HasToken q
accepted-has q b =
    let header = get_header q (codes "Authorization") in
    let parts : (leb (length header) (length bearer) ≡ false)
        × (equal (take (length bearer) header) bearer ≡ true) =
      ground (arith, b) in
    let front = (equal_iff (take (length bearer) header) bearer).0 parts.1 in
    (
      drop (length bearer) header,
      sym (take-append-drop (length bearer) header)
          ∙ ap (λ t. t ++ drop (length bearer) header) front,
      ground (arith, parts.0, length-drop (length bearer) header),
    )

-- The middleware that the constructor builds lets no request through, whatever token it expects: a
-- request with a token makes the call of the empty validator throw, the right token too, and any other
-- is refused with 401.
pub auth_middleware-rejects :
    {W : Type 0} (expected : Bytes) (q : HttpRequest) (w : W)
    → (HasToken q
        × ((auth_middleware expected).before q w
            ≡ (threw (std_exception (codes "bad_function_call")), w)))
      ⊎ (¬ HasToken q
          × ((auth_middleware expected).before q w ≡ (
            threw (http_exception unauthorized (codes "Unauthorized: Invalid header format")),
            w,
          )))
unfolding auth_middleware auth_before check_token
auth_middleware-rejects expected q w =
    let header = get_header q (codes "Authorization") in
    elim (Bool-cases
      (leb (length header) (length bearer) || not (equal (take (length bearer) header) bearer))) [
        | inl b ↦ inr (refused-lacks q b, rw b refl)
        | inr b ↦ inl (accepted-has q b, rw b refl)
      ]
