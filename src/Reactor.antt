-- ===== src/Reactor.antt =====
-- `Reactor` of server/src/reactor.cpp on `EpollWrapper` of server/src/epoll_wrapper.cpp: the
-- handlers by descriptor, and the descriptors that the kernel watches. A set of event flags is a
-- record of its flags.
pub mod Epoll
pub mod Handlers
pub mod Poll
pub mod Agrees
use qt_linux_im_project.Base.{ℕ, Bool, true, false, ◌||◌, Option, none, some, if◌then◌else◌}
use qt_linux_im_project.Base.FdMap.{FdMap, lookup, insert, erase}

-- `EVENT_READ`, `EVENT_WRITE`, `EVENT_ERROR` and `EVENT_HUP`.
pub record Events : Type 0 where
  pub event_read : Bool
  pub event_write : Bool
  pub event_error : Bool
  pub event_hup : Bool

-- `EPOLLIN`, `EPOLLRDHUP`, `EPOLLOUT`, `EPOLLERR`, `EPOLLHUP` and `EPOLLET`.
pub record EpollEvents : Type 0 where
  pub epoll_in : Bool
  pub epoll_rdhup : Bool
  pub epoll_out : Bool
  pub epoll_err : Bool
  pub epoll_hup : Bool
  pub epoll_et : Bool

unfoldable pub to_epoll_events : Events → EpollEvents
to_epoll_events events = record {
  epoll_in = events.event_read;
  epoll_rdhup = events.event_read;
  epoll_out = events.event_write;
  epoll_err = events.event_error;
  epoll_hup = events.event_hup;
  epoll_et = true;
}

unfoldable pub from_epoll_events : EpollEvents → Events
from_epoll_events events = record {
  event_read = events.epoll_in;
  event_write = events.epoll_out;
  event_error = events.epoll_err;
  event_hup = events.epoll_hup || events.epoll_rdhup;
}
