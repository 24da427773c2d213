-- ===== src/Socket/Prompt.antt =====
-- recvn and sendn (iSocket.cpp) on a connection that is up: a call fails only where a signal interrupts
-- it, or where there is nothing to read.
use epoll_threads.Base.{
  ℕ, zero, suc, ◌-◌, ◌^◌, ◌≤◌, ◌<◌, ◌≡◌, false, List, [], ◌∷◌, ◌++◌, some, ◌⊎◌, inl, inr, ℤ, pos,
  is_neg, length, take, drop, length-append, length-drop, length-take, Option-cases, arith, ◌==◌,
  Bool-cases,
}
use epoll_threads.Kernel.{Kernel, got, failed, eintr}
use epoll_threads.Proc.{Proc}
use epoll_threads.Socket.{recvn_loop, recvn, sendn_loop, sendn}
use epoll_threads.Socket.Laws.{Stream}
use epoll_threads.Socket.Recv.{Received-cases}
use epoll_threads.Socket.Send.{ℤ-cases}

pub record Prompt (k : Kernel) (st : Stream k) : Type 0 where
  pub recv_prompt :
      (fd : ℤ) (n : ℕ) (w : k.World)
      → 0 < n
      → 0 < length (st.incoming w fd)
      → ((b : ℕ) × (bs : List ℕ) × ((k.recv fd n w).0 ≡ got (b ∷ bs)))
        ⊎ (((k.recv fd n w).0 ≡ failed) × (k.errno (k.recv fd n w).1 ≡ eintr))
  pub send_prompt :
      (fd : ℤ) (bs : List ℕ) (w : k.World)
      → 0 < length bs
      → ((m : ℕ) × ((k.send fd bs w).0 ≡ pos (suc m))) ⊎ (k.errno (k.send fd bs w).1 ≡ eintr)

module _ (k : Kernel) (st : Stream k) (pr : Prompt k st) (fd : ℤ) where
  open st use {incoming}

  -- The loop gives nothing back of what it has read.
  recvn_loop-keeps :
      (fuel n : ℕ) (out : List ℕ) (p : Proc k.World) (r : ℕ × List ℕ) (q : Proc k.World)
      → recvn_loop k fuel fd n out p ≡ some (r, q)
      → length out ≤ length r.1
  unfolding recvn_loop
  recvn_loop-keeps zero n out p r q e = absurd cc
  recvn_loop-keeps (suc fuel) n out p r q e =
      let p' : Proc k.World = record p { world = (k.recv fd n p.world).1 } in
      elim (Received-cases (k.recv fd n p.world).0) [
        | inl (b, bs, g) ↦ ground (
          arith,
          g,
          recvn_loop-keeps fuel (n - length (b ∷ bs)) (out ++ b ∷ bs) p' r q,
          length-append {0} out (b ∷ bs),
        )
        | inr (inl g) ↦ ground (arith, g, recvn_loop-keeps fuel n out p' r q)
        | inr (inr g) ↦ ground (arith, g, recvn_loop-keeps fuel n out p' r q)
      ]

  recvn_loop-takes :
      (fuel n : ℕ) (p : Proc k.World) (r : ℕ × List ℕ) (q : Proc k.World)
      → 0 < n
      → 0 < length (incoming p.world fd)
      → recvn_loop k fuel fd n [] p ≡ some (r, q)
      → 0 < length r.1
  unfolding recvn_loop
  recvn_loop-takes zero n p r q room some_in e = absurd cc
  recvn_loop-takes (suc fuel) n p r q room some_in e =
      let p' : Proc k.World = record p { world = (k.recv fd n p.world).1 } in
      elim (pr.recv_prompt fd n p.world room some_in) [
        | inl (b, bs, g) ↦
            ground (arith, g, room, e, recvn_loop-keeps fuel (n - length (b ∷ bs)) (b ∷ bs) p' r q)
        | inr (f, i) ↦ ground (
          arith,
          f,
          i,
          room,
          some_in,
          e,
          recvn_loop-takes fuel n p' r q,
          st.recv_failed fd n p.world f,
        )
      ]

  -- Where bytes have come, `recvn` gives some.
  pub recvn-takes :
      (fuel len : ℕ) (p : Proc k.World) (r : ℤ) (out : List ℕ) (q : Proc k.World)
      → 0 < len
      → len < 2 ^ 31
      → 0 < length (incoming p.world fd)
      → recvn k fuel fd len p ≡ some ((r, out), q)
      → 0 < length out
  unfolding recvn
  recvn-takes fuel len p r out q room small some_in e =
      elim (Option-cases (recvn_loop k fuel fd len [] p)) [
        | inl stuck ↦ ground (arith, e, stuck, small)
        | inr ((r', q'), ran) ↦
            ground (arith, e, ran, small, recvn_loop-takes fuel len p r' q' room some_in ran)
      ]

  sendn_loop-all :
      (fuel len n : ℕ) (str : List ℕ) (p : Proc k.World) (r : ℤ) (q : Proc k.World)
      → n ≤ length str
      → sendn_loop k fuel fd len n str p ≡ some (r, q)
      → is_neg r ≡ false
  unfolding sendn_loop
  sendn_loop-all zero len n str p r q room e = absurd cc
  sendn_loop-all (suc fuel) len n str p r q room e = elim (Bool-cases (n == 0)) [
    | inl done ↦ ground (arith, e, done)
    | inr busy ↦
        let p' : Proc k.World = record p { world = (k.send fd (take n str) p.world).1 } in
        let some_out : 0 < length (take n str) = ground (arith, busy, length-take n str room) in
        elim (pr.send_prompt fd (take n str) p.world some_out) [
          | inl (m, g) ↦ ground (
            arith,
            busy,
            g,
            e,
            st.send_sent fd (take n str) p.world (suc m) g,
            length-take n str room,
            length-drop (suc m) str,
            sendn_loop-all fuel len (n - suc m) (drop (suc m) str) p' r q,
          )
          | inr i ↦ elim (ℤ-cases (k.send fd (take n str) p.world).0) [
            | inl (m, g) ↦ ground (
              arith,
              busy,
              g,
              e,
              st.send_sent fd (take n str) p.world (suc m) g,
              length-take n str room,
              length-drop (suc m) str,
              sendn_loop-all fuel len (n - suc m) (drop (suc m) str) p' r q,
            )
            | inr (inl g) ↦ ground (arith, busy, i, g, e, sendn_loop-all fuel len n str p' r q room)
            | inr (inr (x, g)) ↦
                ground (arith, busy, i, g, e, sendn_loop-all fuel len n str p' r q room)
          ]
        ]
  ]

  -- `sendn` does not give -1.
  pub sendn-all :
      (fuel len : ℕ) (str : List ℕ) (p : Proc k.World) (r : ℤ) (q : Proc k.World)
      → len < 2 ^ 31
      → len ≤ length str
      → sendn k fuel fd str len p ≡ some (r, q)
      → is_neg r ≡ false
  unfolding sendn
  sendn-all fuel len str p r q small room e =
      sendn_loop-all fuel len len str p r q room (ground (arith, e, small))
