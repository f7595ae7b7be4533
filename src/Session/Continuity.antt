-- ===== src/Session/Continuity.antt =====
-- A client that sends its cookie back in time keeps its session: `getSession` of
-- my_nginx_event/src/session/sessionManager.cpp.
use mynginx_evnet_module.Base.{
  ℕ, zero, suc, ◌+◌, ◌*◌, ◌≤◌, ◌<◌, ◌≡◌, refl, sym, ap, ◌∙◌, true, false, none, some, List, [], ◌∷◌,
  ◌++◌, arith, if◌then◌else◌, le→ltb, length, length-append, get_elem?,
}
use mynginx_evnet_module.Base.Bytes.{Bytes, codes, is_empty, equal_refl, Lacks}
use mynginx_evnet_module.Base.Dict.{lookup, insert, lookup-insert}
use mynginx_evnet_module.Http.Request.{HttpRequest, get_header}
use mynginx_evnet_module.Http.Response.{HttpResponse}
use mathlib.Core.Path.{subst}
use mynginx_evnet_module.Session.{
  Session, Sessions, second, refresh, update_object, save_object, save, load, load_found, load_at,
  find_session, adopt_session, keep_session, session_for, start_session, object_expired,
  get_session, get_session_id_from_cookie, session_id_in, cookie_name,
}
use mynginx_evnet_module.Session.Cookie.{session_id_in-cookie, EndsValue}

-- The pointer `p` leads to the session `s`, which is stored under its identifier.
pub record IsStored (p : ℕ) (s : Session) (st : Sessions) : Type 0 where
  pub object : get_elem? st.objects p ≡ some s
  pub entry : lookup s.session_id st.stored ≡ some p

get-update_object :
    (p : ℕ) (f : Session → Session) (ss : List Session) {s : Session}
    → get_elem? ss p ≡ some s
    → get_elem? (update_object p f ss) p ≡ some (f s)
unfolding update_object
get-update_object p f [] h = cc
get-update_object zero f (t ∷ ss) {s} h = let e : t ≡ s = cc h in ap (λ u. some (f u)) e
get-update_object (suc p) f (t ∷ ss) h = get-update_object p f ss h

load-IsStored :
    (now p : ℕ) (s : Session) (st : Sessions)
    → IsStored p s st
    → now ≤ s.expiry_time
    → load now s.session_id st ≡ (some p, st)
unfolding load
load-IsStored now p s st v l =
    ap (load_found now s.session_id st) v.entry
    ∙ ap (load_at now s.session_id st p) v.object
    ∙ rw (le→ltb s.expiry_time now l)

-- Refreshed at `now`, with the manager set.
abbrev pub kept : ℕ → Session → Session
kept now s = record s { has_manager = true; expiry_time = now + s.max_age * second }

save-IsStored :
    (p : ℕ) (s : Session) (st : Sessions)
    → get_elem? st.objects p ≡ some s
    → IsStored p s (save p st)
unfolding save
save-IsStored p s st h =
    let e : save p st ≡ record st { stored = insert s.session_id p st.stored } =
      ap (save_object p st) h in
    subst (IsStored p s) (sym e) (record {
      object = h;
      entry =
          lookup-insert s.session_id s.session_id p st.stored
          ∙ ap (λ b. if b then some p else lookup s.session_id st.stored) (equal_refl s.session_id);
    })

keep-IsStored :
    (now p : ℕ) (s : Session) (st : Sessions)
    → get_elem? st.objects p ≡ some s
    → IsStored p (kept now s) (keep_session now p (adopt_session p st))
unfolding keep_session adopt_session
keep-IsStored now p s st h = save-IsStored p (kept now s) _ (
    get-update_object p (refresh now) _
      (get-update_object p (λ t. record t { has_manager = true }) st.objects h))

is_empty-false : (xs : Bytes) → 0 < length xs → is_empty xs ≡ false
is_empty-false [] h = absurd (omega arith)
is_empty-false (x ∷ xs) h = refl

cookie-id :
    (q : HttpRequest) (before id tail : Bytes)
    → Lacks b';' id
    → Lacks b's' before
    → EndsValue tail
    → get_header q (codes "Cookie") ≡ before ++ (cookie_name ++ (id ++ tail))
    → get_session_id_from_cookie q ≡ id
unfolding get_session_id_from_cookie
cookie-id q before id tail k b e h =
    let cookie = before ++ (cookie_name ++ (id ++ tail)) in
    ap (λ c. if is_empty c then [] else session_id_in c) h
    ∙ ap (λ t. if t then [] else session_id_in cookie)
        (is_empty-false cookie (
          omega (
            arith,
            length-append before (cookie_name ++ (id ++ tail)),
            length-append cookie_name (id ++ tail),
          )))
    ∙ session_id_in-cookie before id tail b k e

find_session-IsStored :
    (now p : ℕ) (s : Session) (st : Sessions)
    → IsStored p s st
    → now ≤ s.expiry_time
    → 0 < length s.session_id
    → find_session now s.session_id st ≡ (some p, st)
unfolding find_session
find_session-IsStored now p s st v l n =
    ap (λ b. if b then (none, st) else load now s.session_id st) (is_empty-false s.session_id n)
    ∙ load-IsStored now p s st v l

-- A request whose cookie names a stored session, not later than its expiry, gets that very session and
-- no new cookie; the session keeps its identifier and its data, and is stored afterwards with an
-- expiry of its age from the time of the refresh on. The identifier is not empty and holds no `;`, the
-- text of the cookie before `sessionId=` holds no `s`, and what is behind the identifier is nothing or
-- starts with `;`.
pub get_session-IsStored :
    (loaded tested refreshed p : ℕ) (drawn : List ℕ) (q : HttpRequest) (r : HttpResponse)
    (s : Session) (st : Sessions) (before tail : Bytes)
    → IsStored p s st
    → loaded ≤ s.expiry_time
    → tested ≤ s.expiry_time
    → 0 < length s.session_id
    → Lacks b';' s.session_id
    → Lacks b's' before
    → EndsValue tail
    → get_header q (codes "Cookie") ≡ before ++ (cookie_name ++ (s.session_id ++ tail))
    → (st' : Sessions) × (get_session loaded tested refreshed drawn q r st ≡ (p, r, st'))
      × IsStored p (kept refreshed s) st'
unfolding get_session
get_session-IsStored loaded tested refreshed p drawn q r s st before tail v l m n k b e h =
    let expired : object_expired tested (get_elem? st.objects p) ≡ false =
      ap (object_expired tested) v.object ∙ le→ltb s.expiry_time tested m in
    (
      keep_session refreshed p (adopt_session p st),
      ap (λ id. session_for tested refreshed drawn r (find_session loaded id st))
            (cookie-id q before s.session_id tail k b e h)
          ∙ ap (session_for tested refreshed drawn r) (find_session-IsStored loaded p s st v l n)
          ∙ ap
              (λ t.
                if t
                then start_session refreshed drawn r st
                else (p, r, keep_session refreshed p (adopt_session p st)))
              expired,
      keep-IsStored refreshed p s st v.object,
    )
