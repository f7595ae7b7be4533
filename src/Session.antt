-- ===== src/Session.antt =====
-- `Session`, `MemorySessionStorage` and `SessionManager` of my_nginx_event/src/session/. A session is
-- an object behind a shared pointer: a pointer is a position in the list of objects, and the storage
-- maps an identifier to a pointer. Times are those of `system_clock`, in nanoseconds.
pub mod Cookie
pub mod Continuity
use mynginx_evnet_module.Base.{
  ℕ, zero, suc, ◌+◌, ◌-◌, ◌*◌, Bool, true, false, Option, none, some, List, [], ◌∷◌, ◌++◌, map,
  if◌then◌else◌, ltb, length, take, drop, get_elem?,
}
use mynginx_evnet_module.Base.Bytes.{Bytes, codes, is_empty, search_bytes, find_byte}
use mynginx_evnet_module.Base.Dict.{lookup, insert, erase}
use mynginx_evnet_module.Http.Request.{HttpRequest, get_header, value_or_empty}
use mynginx_evnet_module.Http.Response.{HttpResponse, add_response_header}

pub record Session : Type 0 where
  pub session_id : Bytes
  pub fields : List (Bytes × Bytes)
  pub expiry_time : ℕ
  pub max_age : ℕ
  pub has_manager : Bool

pub record Sessions : Type 0 where
  pub objects : List Session
  pub stored : List (Bytes × ℕ)

abbrev pub second : ℕ
second = 1000000000

abbrev pub default_max_age : ℕ
default_max_age = 3600

-- `isExpired`
abbrev pub is_expired : ℕ → Session → Bool
is_expired now s = ltb s.expiry_time now

-- `refresh`
abbrev pub refresh : ℕ → Session → Session
refresh now s = record s { expiry_time = now + s.max_age * second }

-- The constructor, with the default age.
unfoldable pub new_session : ℕ → Bytes → Session
new_session now id = refresh now (record {
  session_id = id;
  fields = [];
  expiry_time = 0;
  max_age = default_max_age;
  has_manager = true;
})

unfoldable pub update_object : ℕ → (Session → Session) → List Session → List Session
update_object p f [] = []
update_object zero f (s ∷ ss) = f s ∷ ss
update_object (suc p) f (s ∷ ss) = s ∷ update_object p f ss

-- `MemorySessionStorage::save`, for the session behind a pointer.
abbrev pub save_object : ℕ → Sessions → Option Session → Sessions
save_object p st none = st
save_object p st (some s) = record st { stored = insert s.session_id p st.stored }

unfoldable pub save : ℕ → Sessions → Sessions
save p st = save_object p st (get_elem? st.objects p)

-- An expired session is taken out of the storage.
abbrev pub load_at : ℕ → Bytes → Sessions → ℕ → Option Session → Option ℕ × Sessions
load_at now id st p none = (none, st)
load_at now id st p (some s) =
    if is_expired now s then (none, record st { stored = erase id st.stored }) else (some p, st)

abbrev pub load_found : ℕ → Bytes → Sessions → Option ℕ → Option ℕ × Sessions
load_found now id st none = (none, st)
load_found now id st (some p) = load_at now id st p (get_elem? st.objects p)

-- `MemorySessionStorage::load`
unfoldable pub load : ℕ → Bytes → Sessions → Option ℕ × Sessions
load now id st = load_found now id st (lookup id st.stored)

-- `destroySession`
unfoldable pub destroy_session : Bytes → Sessions → Sessions
destroy_session id st = record st { stored = erase id st.stored }

-- `setValue`, which saves the session again if it has a manager.
unfoldable pub set_value : ℕ → Bytes → Bytes → Sessions → Sessions
unfolding update_object save
set_value p key text st = elim (get_elem? st.objects p) [
  | none ↦ st
  | some s ↦
      let st' = record st {
        objects = update_object p (λ t. record t { fields = insert key text t.fields }) st.objects;
      } in
      if s.has_manager then save p st' else st'
]

abbrev pub get_value : Bytes → Session → Bytes
get_value key s = value_or_empty (lookup key s.fields)

abbrev pub remove_value : Bytes → Session → Session
remove_value key s = record s { fields = erase key s.fields }

abbrev pub clear_values : Session → Session
clear_values s = record s { fields = [] }

abbrev pub hex_char : ℕ → ℕ
hex_char n = if ltb n 10 then b'0' + n else b'a' + n - 10

-- `generateSessionId`: the 32 numbers below 16 that the generator draws, in hexadecimal.
unfoldable pub generate_session_id : List ℕ → Bytes
generate_session_id drawn = map hex_char (take 32 drawn)

abbrev pub cookie_name : Bytes
cookie_name = codes "sessionId="

abbrev pub cut_value : Bytes → Option ℕ → Bytes
cut_value rest none = rest
cut_value rest (some n) = take n rest

-- `getSessionIdFromCookie`, on the text of the cookie and the position of the name.
abbrev pub session_id_at : Bytes → Option ℕ → Bytes
session_id_at cookie none = []
session_id_at cookie (some pos) =
    let rest = drop (pos + 10) cookie in cut_value rest (find_byte b';' rest)

unfoldable pub session_id_in : Bytes → Bytes
session_id_in cookie = session_id_at cookie (search_bytes cookie_name cookie)

unfoldable pub get_session_id_from_cookie : HttpRequest → Bytes
unfolding session_id_in
get_session_id_from_cookie q =
    let cookie = get_header q (codes "Cookie") in
    if is_empty cookie then [] else session_id_in cookie

abbrev pub cookie_text : Bytes → Bytes
cookie_text id = cookie_name ++ id ++ codes "; Path=/; HttpOnly"

unfoldable pub set_session_cookie : Bytes → HttpResponse → HttpResponse
unfolding add_response_header
set_session_cookie id r = add_response_header r (codes "Set-Cookie") (cookie_text id)

-- The session that the request names, if it is in the storage and has not expired.
unfoldable pub find_session : ℕ → Bytes → Sessions → Option ℕ × Sessions
unfolding load
find_session now id st = if is_empty id then (none, st) else load now id st

-- A new session object.
unfoldable pub create_session : ℕ → List ℕ → HttpResponse → Sessions → ℕ × HttpResponse × Sessions
unfolding new_session generate_session_id set_session_cookie
create_session now drawn r st =
    let id = generate_session_id drawn in
    (
      length st.objects,
      set_session_cookie id r,
      record st { objects = st.objects ++ new_session now id ∷ [] },
    )

unfoldable pub adopt_session : ℕ → Sessions → Sessions
unfolding update_object
adopt_session p st = record st {
  objects = update_object p (λ s. record s { has_manager = true }) st.objects;
}

-- The session is refreshed and saved.
unfoldable pub keep_session : ℕ → ℕ → Sessions → Sessions
unfolding update_object save
keep_session now p st = save p (record st { objects = update_object p (refresh now) st.objects })

-- A new session, with its cookie in the response.
abbrev pub start_session : ℕ → List ℕ → HttpResponse → Sessions → ℕ × HttpResponse × Sessions
start_session refreshed drawn r st =
    let (p, r', st') = create_session refreshed drawn r st in (p, r', keep_session refreshed p st')

abbrev pub object_expired : ℕ → Option Session → Bool
object_expired tested none = false
object_expired tested (some s) = is_expired tested s

abbrev pub session_for :
    ℕ → ℕ → List ℕ → HttpResponse → Option ℕ × Sessions → ℕ × HttpResponse × Sessions
session_for tested refreshed drawn r (some p, st) =
    if object_expired tested (get_elem? st.objects p)
    then start_session refreshed drawn r st
    else (p, r, keep_session refreshed p (adopt_session p st))
session_for tested refreshed drawn r (none, st) = start_session refreshed drawn r st

-- `getSession`, which reads the clock when `load` tests the expiry, when it is tested again, and when
-- the session is refreshed. The constructor of a new session reads it too, but what it sets there is
-- set again by the refresh.
unfoldable pub get_session :
    ℕ → ℕ → ℕ → List ℕ → HttpRequest → HttpResponse → Sessions → ℕ × HttpResponse × Sessions
unfolding get_session_id_from_cookie find_session create_session adopt_session keep_session
get_session loaded tested refreshed drawn q r st =
    session_for tested refreshed drawn r (find_session loaded (get_session_id_from_cookie q) st)
