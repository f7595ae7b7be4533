-- ===== src/Tests/Post.antt =====
-- An example of a message that announces a body: my_nginx_event/src/http/my_http_context.cpp.
use mynginx_evnet_module.Base.{◌≡◌, refl, false, [], ◌∷◌, inl, arith}
use mynginx_evnet_module.Base.Bytes.{
  codes, equal, less, search_bytes, find_byte, Lacks-of_find_byte,
}
use mynginx_evnet_module.Base.Decimal.{decimal, digits}
use mynginx_evnet_module.Base.Dict.{insert_sorted, lookup}
use mynginx_evnet_module.Http.Request.{new_request, method_of, get_header, add_header}
use mynginx_evnet_module.Http.Context.State.{Context, new_context}
use mynginx_evnet_module.Http.Context.Headers.{trim_left, trim_right}
use mynginx_evnet_module.Http.Context.Loop.{parse_request, returned}
use mynginx_evnet_module.Http.Context.Message.{Message, IsMessage, message_text}
use mynginx_evnet_module.Http.Context.Complete.{message_request}
use mynginx_evnet_module.Http.Context.Chunks.{IsReceiving}
use mynginx_evnet_module.Http.Context.Announced.{parse_request-announced}
use mynginx_evnet_module.Tests.Http.{nowhere, new_context-IsFresh}

abbrev post_message : Message
post_message = record {
  method_name = codes "POST";
  path = codes "/a";
  query = [];
  version = codes "HTTP/1.1";
  headers = (codes "Content-Length", codes "5") ∷ [];
}

post_message-IsMessage : IsMessage post_message
unfolding method_of equal find_byte trim_left trim_right
post_message-IsMessage = record {
  known_method = refl;
  method_lacks_space = Lacks-of_find_byte b' ' (codes "POST") refl;
  target_lacks_space = Lacks-of_find_byte b' ' (codes "/a") refl;
  path_lacks_mark = Lacks-of_find_byte b'?' (codes "/a") refl;
  query_pairs = tt;
  known_version = inl refl;
  line_lacks_break = Lacks-of_find_byte b'\r' (codes "POST /a HTTP/1.1") refl;
  line_short = omega arith;
  header_fields = (
    record {
      key_lacks_colon = Lacks-of_find_byte b':' (codes "Content-Length") refl;
      lacks_break = Lacks-of_find_byte b'\r' (codes "Content-Length: 5") refl;
      key_trimmed = refl;
      value_trimmed = refl;
    },
    tt,
  );
}

parse_request-announced_example :
    (c' : Context) × (parse_request nowhere 7 3 (new_context 0) (message_text post_message [])
      ≡ returned c' false false)
    × IsReceiving c'
    × (c'.body_bytes_received ≡ 0)
    × (c'.request ≡ record (message_request (new_context 0) 7 post_message) { content_length = 5 })
unfolding method_of equal less new_context new_request get_header add_header insert_sorted lookup
    search_bytes decimal digits
parse_request-announced_example =
    parse_request-announced nowhere 7 0 5 (new_context 0) post_message new_context-IsFresh refl refl
      post_message-IsMessage refl refl (omega arith) (omega arith) refl
