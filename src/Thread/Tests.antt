-- ===== src/Thread/Tests.antt =====
-- A run of the hand-shake in which the signal comes before the thread waits.
use epoll_threads.Base.{◌≡◌, ◌≢◌, refl, false, ◌⊎◌}
use epoll_threads.Thread.{
  resumed, running, HandShake, Step, construct_step, spawn_step, detach_step, resume_step, Reach,
  here, next,
}
use epoll_threads.Thread.Wakeup.{suspend_holds, resume_wakes}

sent : (s : HandShake) × Reach false s × (s.creator ≡ resumed)
sent = (
  _,
  next (next (next (next here (construct_step refl)) (spawn_step refl)) (detach_step refl))
      (resume_step refl),
  refl,
)

suspend_holds_example :
    (sent.0.killed ≡ false) × ((sent.0.thread ≢ running) ⊎ (sent.0.creator ≡ resumed))
suspend_holds_example = suspend_holds sent.1

resume_wakes_example :
    (sent.0.thread ≡ running) ⊎ ((t : HandShake) × Step sent.0 t × (t.thread ≡ running))
resume_wakes_example = resume_wakes sent.1 sent.2
