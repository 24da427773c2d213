-- ===== src/Epoll/Laws.antt =====
-- What epoll documents of its interest list: `epoll_ctl` sets, replaces or removes the mask of one
-- socket if it succeeds, and changes nothing if it fails.
use epoll_threads.Base.{ℕ, ◌≡◌, Option, none, some, ℤ, pos, negsuc}
use epoll_threads.Kernel.{Kernel, Mask, Ctl, ctl_add, ctl_mod, ctl_del}

abbrev pub wanted : Ctl → Option Mask
wanted (ctl_add ev) = some ev.events
wanted (ctl_mod ev) = some ev.events
wanted ctl_del = none

pub record EpollSet (k : Kernel) : Type 0 where
  pub interest : k.World → ℤ → ℤ → Option Mask
  pub ctl_done :
      (epfd : ℤ) (c : Ctl) (fd : ℤ) (w : k.World) (m : ℕ)
      → (k.epoll_ctl epfd c fd w).0 ≡ pos m
      → interest (k.epoll_ctl epfd c fd w).1 epfd fd ≡ wanted c
  pub ctl_refused :
      (epfd : ℤ) (c : Ctl) (fd : ℤ) (w : k.World) (e : ℕ)
      → (k.epoll_ctl epfd c fd w).0 ≡ negsuc e
      → interest (k.epoll_ctl epfd c fd w).1 epfd fd ≡ interest w epfd fd
