-- ===== src/Net/Events.antt =====
-- `ngx_epoll_process_events` of my_nginx_event/src/net/my_socket.cpp. What `epoll_wait` answers is an
-- argument: an error, or the events with the connections they belong to. The handlers of a connection
-- are an argument. Log output is left out.
use mynginx_evnet_module.Base.{ℕ, Bool, true, false, List, [], ◌∷◌, if◌then◌else◌, ◌&&◌, ◌||◌, not}
use mynginx_evnet_module.Net.Pool.{Events}

pub data WaitResult : Type 0 where
  interrupted : WaitResult
  wait_failed : WaitResult
  ready : List (ℕ × Events) → WaitResult

-- The connection is broken: neither handler runs.
abbrev is_broken : Events → Bool
is_broken e = e.epollhup || e.epollerr || e.epollrdhup

module _ {S : Type 0} (rhandler whandler : ℕ → S → S) where
  -- What is done for one event.
  unfoldable pub dispatch : ℕ → Events → S → S
  dispatch c revents s =
      let s' = if revents.epollin && not (is_broken revents) then rhandler c s else s in
      if revents.epollout && not (is_broken revents) then whandler c s' else s'

  unfoldable pub dispatch_all : List (ℕ × Events) → S → S
  unfolding dispatch
  dispatch_all [] s = s
  dispatch_all ((c, revents) ∷ events) s = dispatch_all events (dispatch c revents s)

  -- The value returned, true for 1, and the state; `forever` says that the timeout is -1.
  unfoldable pub process_events : Bool → WaitResult → S → Bool × S
  unfolding dispatch_all
  process_events forever interrupted s = (true, s)
  process_events forever wait_failed s = (false, s)
  process_events forever (ready []) s = (not forever, s)
  process_events forever (ready (e ∷ events)) s = (true, dispatch_all (e ∷ events) s)
