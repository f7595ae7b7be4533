-- ===== src/Http/Context/Message.antt =====
-- A request message as a client writes it, and the request that my_http_context.cpp reads from it.
use mynginx_evnet_module.Base.{
  ◌≤◌, ◌≡◌, refl, ◌∙◌, ap, ◌⊎◌, inl, inr, true, false, some, List, [], ◌∷◌, ◌++◌, length,
  take_before, drop_past,
}
use mynginx_evnet_module.Base.Bytes.{Bytes, codes, equal, Lacks, find_byte-append, find_byte-Lacks}
use mynginx_evnet_module.Http.Request.{HttpRequest, method_of, is_valid, set_method, add_header}
use mynginx_evnet_module.Http.Request.Query.{
  query_text, ArePairs, insert_all, set_query_parameters-query_text,
}
use mynginx_evnet_module.Http.Context.State.{Run, crlf}
use mynginx_evnet_module.Http.Context.Line.{
  set_target, set_version, process_target, process_request_line,
}
use mynginx_evnet_module.Http.Context.Headers.{trim_left, trim_right, read_header}

abbrev pub Pairs : Type 0
Pairs = List (Bytes × Bytes)

pub record Message : Type 0 where
  pub method_name : Bytes
  pub path : Bytes
  pub query : Pairs
  pub version : Bytes
  pub headers : Pairs

-- `path`, or `path?key=value&...`
abbrev pub target_text : Bytes → Pairs → Bytes
target_text path [] = path
target_text path (p ∷ ps) = path ++ b'?' ∷ query_text p ps

abbrev pub line_text : Message → Bytes
line_text m = m.method_name ++ b' ' ∷ (target_text m.path m.query ++ b' ' ∷ m.version)

-- `key: value`
abbrev pub header_text : Bytes × Bytes → Bytes
header_text h = h.0 ++ b':' ∷ b' ' ∷ h.1

-- The header lines, the empty line, and what follows.
abbrev pub headers_text : Pairs → Bytes → Bytes
headers_text [] rest = crlf ++ rest
headers_text (h ∷ hs) rest = header_text h ++ (crlf ++ headers_text hs rest)

abbrev pub message_text : Message → Bytes → Bytes
message_text m rest = line_text m ++ (crlf ++ headers_text m.headers rest)

-- Names hold no colon, values no line break, and neither has blanks that would be trimmed.
pub record IsHeader (h : Bytes × Bytes) : Type 0 where
  pub key_lacks_colon : Lacks b':' h.0
  pub lacks_break : Lacks b'\r' (header_text h)
  pub key_trimmed : trim_right h.0 ≡ h.0
  pub value_trimmed : trim_left h.1 ≡ h.1

abbrev pub AreHeaders : Pairs → Type 0
AreHeaders [] = Unit {0}
AreHeaders (h ∷ hs) = IsHeader h × AreHeaders hs

-- A method of the list, a path with no space and no `?`, a query of pairs, a version of the two.
pub record IsMessage (m : Message) : Type 0 where
  pub known_method : is_valid (method_of m.method_name) ≡ true
  pub method_lacks_space : Lacks b' ' m.method_name
  pub target_lacks_space : Lacks b' ' (target_text m.path m.query)
  pub path_lacks_mark : Lacks b'?' m.path
  pub query_pairs : ArePairs m.query
  pub known_version : (m.version ≡ codes "HTTP/1.1") ⊎ (m.version ≡ codes "HTTP/1.0")
  pub line_lacks_break : Lacks b'\r' (line_text m)
  pub line_short : length (line_text m) ≤ 1024
  pub header_fields : AreHeaders m.headers

abbrev pub add_headers : HttpRequest → Pairs → HttpRequest
add_headers r [] = r
add_headers r ((k, v) ∷ hs) = add_headers (add_header r k v) hs

-- What the request line says, read into a fresh request.
abbrev pub line_request : HttpRequest → Message → HttpRequest
line_request r m = record r {
  method = method_of m.method_name;
  path = m.path;
  query_parameters = insert_all m.query r.query_parameters;
  version = m.version;
}

set_target-target_text :
    (r : HttpRequest) (path : Bytes) (ps : Pairs)
    → Lacks b'?' path
    → ArePairs ps
    → set_target r (target_text path ps)
      ≡ record r { path = path; query_parameters = insert_all ps r.query_parameters }
unfolding set_target
set_target-target_text r path [] h k = rw (find_byte-Lacks b'?' path h, set_target)
set_target-target_text r path (p ∷ ps) h k =
    rw
      (
        find_byte-append b'?' path (query_text p ps) h,
        set_target,
        take_before path (b'?' ∷ query_text p ps),
        drop_past path (query_text p ps) b'?',
      )
      (set_query_parameters-query_text _ p ps k.0 k.1)

set_version-known :
    (r : HttpRequest) (v : Bytes)
    → (v ≡ codes "HTTP/1.1") ⊎ (v ≡ codes "HTTP/1.0")
    → set_version r v ≡ (true, record r { version = v })
unfolding set_version equal
set_version-known r v (inl e) = rw e refl
set_version-known r v (inr e) = rw e refl

set_method-known :
    (r : HttpRequest) (m : Bytes)
    → is_valid r.method ≡ false
    → is_valid (method_of m) ≡ true
    → set_method r m ≡ some (true, record r { method = method_of m })
unfolding set_method
set_method-known r m h k = rw (h, k)

process_target-text :
    (r : HttpRequest) (m : Message)
    → IsMessage m
    → process_target r (target_text m.path m.query ++ b' ' ∷ m.version) ≡ (
      true,
      record r {
        path = m.path;
        query_parameters = insert_all m.query r.query_parameters;
        version = m.version;
      },
    )
unfolding process_target
process_target-text r m v =
    rw
      (
        find_byte-append b' ' (target_text m.path m.query) m.version v.target_lacks_space,
        process_target,
        take_before (target_text m.path m.query) (b' ' ∷ m.version),
        drop_past (target_text m.path m.query) m.version b' ',
        set_target-target_text r m.path m.query v.path_lacks_mark v.query_pairs,
      )
      (set_version-known _ m.version v.known_version)

pub process_request_line-line_text :
    (r : HttpRequest) (m : Message)
    → IsMessage m
    → is_valid r.method ≡ false
    → process_request_line r (line_text m) ≡ some (true, line_request r m)
unfolding process_request_line
process_request_line-line_text r m v h =
    let rest = target_text m.path m.query ++ b' ' ∷ m.version in
    let q = record r { method = method_of m.method_name } in
    rw
      (
        find_byte-append b' ' m.method_name rest v.method_lacks_space,
        process_request_line,
        take_before m.method_name (b' ' ∷ rest),
        set_method-known r m.method_name h v.known_method,
        process_request_line,
      )
      (ap (λ t. some (process_target q t)) (drop_past m.method_name rest b' ')
        ∙ ap some (process_target-text q m v))

trim_left-blank : (v : Bytes) → trim_left (b' ' ∷ v) ≡ trim_left v
unfolding trim_left
trim_left-blank v = refl

pub read_header-header_text :
    (r : Run) (h : Bytes × Bytes)
    → IsHeader h
    → read_header r (header_text h)
      ≡ record r { context = record r.context { request = add_header r.request h.0 h.1 } }
unfolding read_header
read_header-header_text r (k, v) i = rw (
  find_byte-append b':' k (b' ' ∷ v) i.key_lacks_colon,
  read_header,
  take_before k (b':' ∷ b' ' ∷ v),
  drop_past k (b' ' ∷ v) b':',
  i.key_trimmed,
  trim_left-blank v,
  i.value_trimmed,
)
