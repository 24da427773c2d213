-- ===== src/ListenThread/Starts.antt =====
-- ListenThread::InitTaskThread and ListenThread::Bind (ListenThread.cpp).
use epoll_threads.Base.{
  ℕ, zero, suc, ◌≡◌, refl, Bool, true, false, List, [], ◌∷◌, some, ◌⊎◌, inl, inr, All, ℤ, pos,
  minus_one, is_minus_one, Bool-cases, length, arith, ap,
}
use epoll_threads.Kernel.{Kernel}
use epoll_threads.Proc.{Proc, Message, my_warning, bind_port_err}
use epoll_threads.Config.{Server}
use epoll_threads.Epoll.{i_epoll_create}
use epoll_threads.Setup.Opened.{Same, Opens, OpenFds}
use epoll_threads.Setup.Bind.{bind_socket_lem}
use epoll_threads.ListenThread.{Worker, init_task_thread, bind_listener, unsigned_short}

module _ (k : Kernel) where
  pub i_epoll_create-some :
      (capacity : ℤ) (p : Proc k.World)
      → (r : ℤ × ℤ) × (q : Proc k.World) × (i_epoll_create k capacity p ≡ some (r, q))
  unfolding i_epoll_create
  i_epoll_create-some capacity p =
      elim (Bool-cases (is_minus_one (k.epoll_create capacity p.world).0)) [
        | inl e ↦ rw e (_, _, refl)
        | inr e ↦ rw e (_, _, refl)
      ]

  -- The loop over the threads leaves as many workers as it is asked for, each with its counter at
  -- 0, also where an `epoll_create` fails.
  pub init_task_thread_lem :
      (capacity : ℤ) (n : ℕ) (p : Proc k.World)
      → (ws : List Worker) × (q : Proc k.World) × (init_task_thread k capacity n p ≡ some (ws, q))
        × (length ws ≡ n)
        × All (λ w. w.active ≡ pos 0) ws
  unfolding init_task_thread
  init_task_thread_lem capacity zero p = ([], p, refl, refl, tt)
  init_task_thread_lem capacity (suc n) p =
      let (r, q, run) = i_epoll_create-some capacity p in
      let (ws, q', run', len, zeros) = init_task_thread_lem capacity n q in
      (
        record { epfd = r.1; active = pos 0 } ∷ ws,
        q',
        ground (arith, run, run'),
        ap suc len,
        (refl, zeros),
      )

  -- `ListenThread::Bind` returns 0 with a new socket that listens, and resumes the thread; or -1,
  -- with no descriptor opened or closed and the port logged last, and does not resume it, so that
  -- the thread stays in `Suspend`.
  pub bind_listener_lem :
      (op : OpenFds k) (server : Server) (p : Proc k.World)
      → (r : ℤ × ℤ × Bool) × (q : Proc k.World) × (bind_listener k server p ≡ some (r, q))
        × (((r.0 ≡ pos 0)
              × (r.2 ≡ true)
              × Opens op.opened r.1 p.world q.world
              × (op.listening q.world r.1 ≡ true))
            ⊎ ((r.0 ≡ minus_one)
                × (r.2 ≡ false)
                × Same op.opened p.world q.world
                × ((m : Message) × (q.log
                      ≡ record { level = my_warning; message = bind_port_err server.port }
                        ∷ (record { level = my_warning; message = m } ∷ p.log)))))
  unfolding bind_listener
  bind_listener_lem op server p =
      let (r, q, run, ends) =
        bind_socket_lem k op (some server.bindaddr) (unsigned_short server.port) p in
      elim ends [
        | inl (z, o, l, same_log) ↦
            ((pos 0, r.1, true), q, ground (arith, run, z), inl (refl, refl, o, l))
        | inr (z, s, (m, log)) ↦ (
          (minus_one, r.1, false),
          record q {
            log = record { level = my_warning; message = bind_port_err server.port } ∷ q.log;
          },
          ground (arith, run, z),
          inr (
            refl,
            refl,
            s,
            (m, ap (◌∷◌ (record { level = my_warning; message = bind_port_err server.port })) log),
          ),
        )
      ]
