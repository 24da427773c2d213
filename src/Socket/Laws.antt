-- ===== src/Socket/Laws.antt =====
-- What the socket loops rely on: `recv` and `send` move bytes of two streams in order, and a call
-- is interrupted by a signal only finitely often.
use epoll_threads.Base.{
  ℕ, ◌≤◌, ◌<◌, ◌≡◌, List, [], ◌∷◌, ◌++◌, ◌≢◌, refl, ◌∙◌, arith, ℤ, pos, negsuc, length, take,
}
use epoll_threads.Proc.{Proc}
use epoll_threads.Kernel.{Kernel, Ctl, got, failed, eintr}

-- `incoming` is what the peer has sent and will send, `outgoing` what it is sent.
pub record Stream (k : Kernel) : Type 0 where
  pub incoming : k.World → ℤ → List ℕ
  pub outgoing : k.World → ℤ → List ℕ
  pub recv_got :
      (fd : ℤ) (n : ℕ) (w : k.World) (bs : List ℕ)
      → (k.recv fd n w).0 ≡ got bs
      → (length bs ≤ n) × (incoming w fd ≡ bs ++ incoming (k.recv fd n w).1 fd)
  pub recv_failed :
      (fd : ℤ) (n : ℕ) (w : k.World)
      → (k.recv fd n w).0 ≡ failed
      → incoming (k.recv fd n w).1 fd ≡ incoming w fd
  pub send_sent :
      (fd : ℤ) (bs : List ℕ) (w : k.World) (m : ℕ)
      → (k.send fd bs w).0 ≡ pos m
      → (m ≤ length bs) × (outgoing (k.send fd bs w).1 fd ≡ outgoing w fd ++ take m bs)
  pub send_failed :
      (fd : ℤ) (bs : List ℕ) (w : k.World) (e : ℕ)
      → (k.send fd bs w).0 ≡ negsuc e
      → outgoing (k.send fd bs w).1 fd ≡ outgoing w fd
  -- The clock and the interest list are no part of a stream.
  pub time_outgoing : (fd : ℤ) (w : k.World) → outgoing (k.gettimeofday_usec w).1 fd ≡ outgoing w fd
  pub ctl_outgoing :
      (epfd : ℤ) (c : Ctl) (s fd : ℤ) (w : k.World)
      → outgoing (k.epoll_ctl epfd c s w).1 fd ≡ outgoing w fd
  pub ctl_incoming :
      (epfd : ℤ) (c : Ctl) (s fd : ℤ) (w : k.World)
      → incoming (k.epoll_ctl epfd c s w).1 fd ≡ incoming w fd

-- A measure of the machine that no call of the event loop and its handlers raises.
pub record Steady (k : Kernel) (f : k.World → ℕ) : Type 0 where
  pub recv_le : (fd : ℤ) (n : ℕ) (w : k.World) → f (k.recv fd n w).1 ≤ f w
  pub send_le : (fd : ℤ) (bs : List ℕ) (w : k.World) → f (k.send fd bs w).1 ≤ f w
  pub close_le : (fd : ℤ) (w : k.World) → f (k.close fd w).1 ≤ f w
  pub time_le : (w : k.World) → f (k.gettimeofday_usec w).1 ≤ f w
  pub ctl_le : (epfd : ℤ) (c : Ctl) (fd : ℤ) (w : k.World) → f (k.epoll_ctl epfd c fd w).1 ≤ f w
  pub wait_le : (epfd maxevents : ℤ) (w : k.World) → f (k.epoll_wait epfd maxevents w).1 ≤ f w

-- `signals` bounds the interruptions to come: a call that fails with EINTR uses one up.
pub record Patience (k : Kernel) : Type 0 where
  pub signals : k.World → ℕ
  pub steady : Steady k signals
  pub open steady use *
  pub recv_lt :
      (fd : ℤ) (n : ℕ) (w : k.World)
      → (k.recv fd n w).0 ≡ failed
      → k.errno (k.recv fd n w).1 ≡ eintr
      → signals (k.recv fd n w).1 < signals w
  pub send_lt :
      (fd : ℤ) (bs : List ℕ) (w : k.World) (e : ℕ)
      → (k.send fd bs w).0 ≡ negsuc e
      → k.errno (k.send fd bs w).1 ≡ eintr
      → signals (k.send fd bs w).1 < signals w
  pub send_ne_zero : (fd : ℤ) (b : ℕ) (bs : List ℕ) (w : k.World) → (k.send fd (b ∷ bs) w).0 ≢ pos 0

-- A `recv` that returns 0, at the end of the stream, does not set `errno`; this asks that the value
-- of an earlier call that stands there is not EINTR. Where it is, `recvn_spins` says what happens.
abbrev pub CleanEnd : Kernel → Type 0
CleanEnd k =
    (fd : ℤ) (n : ℕ) (w : k.World) → (k.recv fd n w).0 ≡ got [] → k.errno (k.recv fd n w).1 ≢ eintr

-- A step of a thread that logs nothing, leaves the counter and raises no steady measure.
pub record Quiet (k : Kernel) (p q : Proc k.World) : Type 0 where
  pub log : q.log ≡ p.log
  pub active : q.active ≡ p.active
  pub falls : (f : k.World → ℕ) → Steady k f → f q.world ≤ f p.world

pub Quiet-refl : (k : Kernel) (p : Proc k.World) → Quiet k p p
Quiet-refl k p = record { log = refl; active = refl; falls = λ f s. omega arith }

pub Quiet-trans : (k : Kernel) {p q r : Proc k.World} → Quiet k p q → Quiet k q r → Quiet k p r
Quiet-trans k a b = record {
  log = b.log ∙ a.log;
  active = b.active ∙ a.active;
  falls = λ f s. omega (arith, a.falls f s, b.falls f s);
}
