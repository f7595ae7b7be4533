-- ===== src/Http/Request.antt =====
-- `HttpRequest` of my_nginx_event/include/http/my_http_request.h and
-- my_nginx_event/src/http/my_http_request.cpp. A connection is named by its number; the peer
-- address of a live connection is a parameter of `get_peer_ip`.
pub mod Query
use mynginx_evnet_module.Base.{
  ℕ, zero, suc, ◌+◌, Bool, true, false, Option, none, some, List, [], ◌∷◌, ◌++◌, if◌then◌else◌,
  length, take, drop,
}
use mynginx_evnet_module.Base.Bytes.{
  Bytes, codes, is_empty, equal, find_byte, search_bytes, from_start,
}
use mynginx_evnet_module.Base.Dict.{lookup, insert, insert_sorted}
use mynginx_evnet_module.Http.Files.{FileWriter, new_writer}

pub data Method : Type 0 where
  invalid get post head put delete options : Method

pub record HttpRequest : Type 0 where
  pub method : Method
  pub version : Bytes
  pub path : Bytes
  pub path_parameters : List (Bytes × Bytes)
  pub query_parameters : List (Bytes × Bytes)
  pub receive_time : ℕ
  pub headers : List (Bytes × Bytes)
  pub content : Bytes
  pub content_length : ℕ
  pub boundary : Bytes
  pub file_header : Bytes
  pub file_writer : FileWriter
  pub form_fields : List (Bytes × Bytes)
  pub uploaded_files : List Bytes
  pub connection : Option ℕ

-- The constructor.
unfoldable pub new_request : HttpRequest
new_request = record {
  method = invalid;
  version = codes "Unknown";
  path = [];
  path_parameters = [];
  query_parameters = [];
  receive_time = 0;
  headers = [];
  content = [];
  content_length = 0;
  boundary = [];
  file_header = [];
  file_writer = new_writer;
  form_fields = [];
  uploaded_files = [];
  connection = none;
}

unfoldable pub method_of : Bytes → Method
method_of m =
    if equal m (codes "GET")
    then get
    else if equal m (codes "POST")
    then post
    else if equal m (codes "PUT")
    then put
    else if equal m (codes "DELETE")
    then delete
    else if equal m (codes "OPTIONS")
    then options
    else invalid

abbrev pub is_valid : Method → Bool
is_valid invalid = false
is_valid _ = true

-- `assert(method_ == kInvalid)` fails: `none`.
unfoldable pub set_method : HttpRequest → Bytes → Option (Bool × HttpRequest)
unfolding method_of
set_method r m =
    if is_valid r.method
    then none
    else some (is_valid (method_of m), record r { method = method_of m })

unfoldable pub set_path_parameters : HttpRequest → Bytes → Bytes → HttpRequest
set_path_parameters r key value = record r { path_parameters = insert key value r.path_parameters }

abbrev pub value_or_empty : Option Bytes → Bytes
value_or_empty none = []
value_or_empty (some v) = v

unfoldable pub get_path_parameters : HttpRequest → Bytes → Bytes
get_path_parameters r key = value_or_empty (lookup key r.path_parameters)

unfoldable pub get_query_parameters : HttpRequest → Bytes → Bytes
get_query_parameters r key = value_or_empty (lookup key r.query_parameters)

-- One `key=value` piece of a query; a piece with no `=` is skipped.
unfoldable pub set_pair : Bytes → List (Bytes × Bytes) → List (Bytes × Bytes)
set_pair pair params = elim (find_byte b'=' pair) [
  | none ↦ params
  | some i ↦ insert (take i pair) (drop (i + 1) pair) params
]

-- The loop over the `&` of a query, on the rest of it. A round takes at least one byte.
unfoldable pub query_loop : ℕ → Bytes → List (Bytes × Bytes) → List (Bytes × Bytes)
unfolding set_pair
query_loop zero rest params = set_pair rest params
query_loop (suc fuel) rest params = elim (find_byte b'&' rest) [
  | none ↦ set_pair rest params
  | some i ↦ query_loop fuel (drop (i + 1) rest) (set_pair (take i rest) params)
]

unfoldable pub set_query_parameters : HttpRequest → Bytes → HttpRequest
unfolding query_loop
set_query_parameters r text = record r {
  query_parameters = query_loop (length text) text r.query_parameters;
}

unfoldable pub add_header : HttpRequest → Bytes → Bytes → HttpRequest
add_header r key value = record r { headers = insert_sorted key value r.headers }

unfoldable pub get_header : HttpRequest → Bytes → Bytes
get_header r field = value_or_empty (lookup field r.headers)

unfoldable pub append_body : HttpRequest → Bytes → HttpRequest
append_body r bytes = record r { content = r.content ++ bytes }

-- `setBody(start, end)`: an empty range leaves the body as it was.
unfoldable pub set_body : HttpRequest → Bytes → HttpRequest
set_body r bytes = if is_empty bytes then r else record r { content = bytes }

-- `swap`: every field but the file writer changes sides.
unfoldable pub swap : HttpRequest → HttpRequest → HttpRequest × HttpRequest
swap r s = (record s { file_writer = r.file_writer }, record r { file_writer = s.file_writer })

unfoldable pub parse_field_name : Bytes → Bytes
parse_field_name header = elim (search_bytes (codes "name=\"") header) [
  | none ↦ []
  | some pos ↦ elim (find_byte b'"' (drop (pos + 6) header)) [
    | none ↦ []
    | some len ↦ take len (drop (pos + 6) header)
  ]
]

unfoldable pub save_form_field : HttpRequest → Bytes → Bytes → HttpRequest
unfolding parse_field_name
save_form_field r header text =
    if is_empty (parse_field_name header)
    then r
    else record r { form_fields = insert (parse_field_name header) text r.form_fields }

-- `connection_.lock()` fails when no live connection is behind the pointer.
unfoldable pub get_peer_ip : (ℕ → Option Bytes) → HttpRequest → Bytes
get_peer_ip address r = elim r.connection [
  | none ↦ codes "0.0.0.0"
  | some conn ↦ elim (address conn) [ none ↦ codes "0.0.0.0" | some ip ↦ ip ]
]
