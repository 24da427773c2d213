-- ===== src/Lifetime/Tests.antt =====
-- The constructors and destructors on the machine of `Slot`, which has room for one worker.
use epoll_threads.Base.{◌≡◌, refl, List, some, none, ◌⊎◌, All, pos}
use epoll_threads.Proc.{Proc}
use epoll_threads.Lifetime.{TaskObject, new_tasks, delete_listener}
use epoll_threads.Lifetime.Construction.{CreateOpens, Any, HasArray, IsUnset, Built}
use epoll_threads.Lifetime.Deletion.{Deleted, delete_listener_lem}
use epoll_threads.Slot.{Slot, one_slot, slot_fds, open-Opens, open_fails, idle}

slot_creates : CreateOpens one_slot slot_fds
unfolding slot_fds
slot_creates = record {
  create_opens = λ n w h. open-Opens w.taken w refl h;
  create_fails = λ n w h. open_fails w.taken w h;
}

delete_listener_lem_example :
    (ts : List TaskObject) × (q : Proc Slot) × (new_tasks one_slot (pos 9) 1 idle ≡ some (ts, q))
    × Built one_slot slot_fds ts idle q
    × (s' : Proc Slot) × ((All HasArray ts
          × (delete_listener one_slot (pos 3) ts idle ≡ some (some tt, s'))
          × Deleted one_slot slot_fds (pos 3) ts idle s')
        ⊎ (Any IsUnset ts × (delete_listener one_slot (pos 3) ts idle ≡ some (none, s'))))
delete_listener_lem_example =
    delete_listener_lem one_slot slot_fds slot_creates (pos 9) 1 (pos 3) idle idle
