-- ===== src/Socket.antt =====
-- iSocket.cpp: `recvn` and `sendn`, the loops that move a whole buffer over a socket.
pub mod Laws
pub mod Recv
pub mod Send
pub mod Prompt
use epoll_threads.Base.{
  ℕ, zero, suc, ◌+◌, ◌-◌, ◌^◌, Bool, List, [], ◌∷◌, ◌++◌, Option, none, some, ℤ, pos, negsuc,
  minus_one, length, take, drop, ltb, ◌==◌, if◌then◌else◌,
}
use epoll_threads.Kernel.{Kernel, Received, got, failed, eintr}
use epoll_threads.Proc.{M, Proc, pure, ◌>>=◌, ◌>>◌, call, look}

module _ (k : Kernel) where
  open k use {World, errno, recv, send}

  -- `if (errno == EINTR) continue; else` leave the loop with `r`.
  abbrev pub unless_interrupted : {A : Type 0} → M World A → A → M World A
  unless_interrupted again r p = if errno p.world == eintr then again p else some (r, p)

  -- What follows a `recv` in the loop: `again` is the next round, at the new `n` and `str`.
  abbrev pub after_recv :
      (ℕ → List ℕ → M World (ℕ × List ℕ)) → ℕ → List ℕ → Received → M World (ℕ × List ℕ)
  after_recv again n out (got (b ∷ bs)) = again (n - length (b ∷ bs)) (out ++ b ∷ bs)
  after_recv again n out (got []) = unless_interrupted (again n out) (n, out)
  after_recv again n out failed = unless_interrupted (again n out) (n, out)

  -- The loop of `recvn`: `n` bytes of the buffer are free, and `out` is what stands before `str`.
  unfoldable pub recvn_loop : ℕ → ℤ → ℕ → List ℕ → M World (ℕ × List ℕ)
  recvn_loop zero fd n out p = none
  recvn_loop (suc fuel) fd n out p =
      let round = (call (recv fd n) >>= after_recv (recvn_loop fuel fd) n out) p in
      if n == 0 then some ((n, out), p) else round

  -- Its result and what it wrote to `pStr`. From 2 ^ 31 on `int n = nLen` is negative: the loop is
  -- not entered, and `nLen - n` is 0.
  unfoldable pub recvn : ℕ → ℤ → ℕ → M World (ℤ × List ℕ)
  recvn fuel fd len =
      if ltb len (2 ^ 31)
      then (do r ← recvn_loop fuel fd len []; pure (pos (len - r.0), r.1))
      else pure (pos 0, [])

  -- What follows a `send`: `nRet <= 0` is retried if the call was interrupted, and else -1.
  abbrev pub after_send : (ℕ → List ℕ → M World ℤ) → ℕ → List ℕ → ℤ → M World ℤ
  after_send again n str (pos (suc m)) = again (n - suc m) (drop (suc m) str)
  after_send again n str (pos zero) = unless_interrupted (again n str) minus_one
  after_send again n str (negsuc e) = unless_interrupted (again n str) minus_one

  -- The loop of `sendn`: `n` bytes are left to send, from `str` on.
  unfoldable pub sendn_loop : ℕ → ℤ → ℕ → ℕ → List ℕ → M World ℤ
  sendn_loop zero fd len n str p = none
  sendn_loop (suc fuel) fd len n str p =
      let round = (call (send fd (take n str)) >>= after_send (sendn_loop fuel fd len) n str) p in
      if n == 0 then some (pos (len - n), p) else round

  unfoldable pub sendn : ℕ → ℤ → List ℕ → ℕ → M World ℤ
  sendn fuel fd str len = if ltb len (2 ^ 31) then sendn_loop fuel fd len len str else pure (pos 0)
