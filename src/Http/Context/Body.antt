-- ===== src/Http/Context/Body.antt =====
-- `case kExpectBody` without a boundary, of my_nginx_event/src/http/my_http_context.cpp.
use mynginx_evnet_module.Base.{ℕ, ◌+◌, ◌-◌, min, true, false, leb, if◌then◌else◌, length, take}
use mynginx_evnet_module.Http.Request.{append_body}
use mynginx_evnet_module.Http.Context.State.{Run, got_all, sub_size, unread}

-- What this round takes of the bytes that are there.
unfoldable pub bytes_to_copy : Run → ℕ
bytes_to_copy r =
    min (length r.buffer - r.parsed_pos) (sub_size r.request.content_length r.body_bytes_received)

unfoldable pub take_body : Run → ℕ → Run
take_body r n = record r {
  context = record r.context {
    request = append_body r.request (take n (unread r.context));
    parsed_pos = r.parsed_pos + n;
    body_bytes_received = r.body_bytes_received + n;
  };
}

unfoldable pub check_complete : Run → Run
check_complete r =
    if leb r.request.content_length r.body_bytes_received
    then record r { context = record r.context { state = got_all }; ok = true }
    else record r { ok = false }

unfoldable pub plain_body_step : Run → Run
unfolding bytes_to_copy take_body check_complete
plain_body_step r = check_complete (take_body r (bytes_to_copy r))
