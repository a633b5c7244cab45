-- ===== src/Qmi/Qrtr/Life.antt =====
-- What holds of a connection whatever its goroutines do (driver/qmi/qrtr/conn.go).
use euicc_go.Prelude.{
  ℕ, zero, suc, ◌+◌, ◌≡◌, refl, Bool, true, some, List, [], ◌∷◌, ◌++◌, arith, if◌then◌else◌,
}
use euicc_go.Qmi.Qrtr.{
  Conn, new_conn, acquire_fd, release_fd, register_poll, unregister_poll, set_read_deadline,
  close_begin, close_end, wait_readable,
}
use euicc_go.Qmi.Qrtr.Threads.{
  Thread, outside, reading, held, polling, polled, receiving, sending, leaving, closing, Event,
  step,
}

-- One for a goroutine between `acquireFD` and `releaseFD`, between `registerPoll` and
-- `unregisterPoll`, and in `Close`.
abbrev pub holds : Thread → ℕ
holds outside = 0
holds (reading seq) = 0
holds (held seq) = 1
holds (polling seq) = 1
holds (polled seq e) = 1
holds (receiving seq) = 1
holds sending = 1
holds (leaving back) = 1
holds closing = 0

abbrev pub registers : Thread → ℕ
registers outside = 0
registers (reading seq) = 0
registers (held seq) = 0
registers (polling seq) = 1
registers (polled seq e) = 1
registers (receiving seq) = 0
registers sending = 0
registers (leaving back) = 0
registers closing = 0

abbrev pub closes : Thread → ℕ
closes outside = 0
closes (reading seq) = 0
closes (held seq) = 0
closes (polling seq) = 0
closes (polled seq e) = 0
closes (receiving seq) = 0
closes sending = 0
closes (leaving back) = 0
closes closing = 1

abbrev pub sum : (Thread → ℕ) → List Thread → ℕ
sum f [] = 0
sum f (t ∷ ts) = f t + sum f ts

abbrev pub bit : Bool → ℕ
bit b = if b then 1 else 0

-- A connection with `h` holders, `p` waiters and `k` goroutines that close it.
pub record Counted (c : Conn) (h p k : ℕ) : Type 0 where
  pub ops : c.active_ops ≡ h
  pub waiters : c.poll_waiters ≡ p
  -- the socket is closed once: it is valid, being closed, or closed
  pub once : k + bit c.fd_valid + bit c.fd_closed ≡ 1
  pub idle : c.fd_closed ≡ true → h ≡ 0
  pub flags : c.wake_fd_valid ≡ c.fd_valid

pub step-Counted :
    (ev : Event) (c : Conn) (t : Thread) (c' : Conn) (t' : Thread) (h p k : ℕ)
    → step ev c t ≡ some (c', t')
    → Counted c (holds t + h) (registers t + p) (closes t + k)
    → Counted c' (holds t' + h) (registers t' + p) (closes t' + k)
unfolding step acquire_fd release_fd register_poll unregister_poll set_read_deadline close_begin
    close_end wait_readable
step-Counted ev c t c' t' h p k e counted = ground arith

-- A connection and the goroutines that use it.
pub record System : Type 0 where
  pub conn : Conn
  pub threads : List Thread

-- One goroutine goes on.
pub data Step (s t : System) : Event → Type 0 where
  go :
      (ev : Event) (before : List Thread) (x : Thread) (after : List Thread) (c : Conn) (y : Thread)
      → s.threads ≡ before ++ (x ∷ after)
      → step ev s.conn x ≡ some (c, y)
      → t ≡ record { conn = c; threads = before ++ (y ∷ after) }
      → Step s t ev

-- States that are reached by events that are allowed where they happen.
pub data Reach (Allowed : Event → System → Type 0) (s : System) : System → Type 0 where
  here : Reach Allowed s s
  next :
      {t u : System} (ev : Event)
      → Reach Allowed s t
      → Allowed ev t
      → Step t u ev
      → Reach Allowed s u

pub sum-append : (f : Thread → ℕ) (xs ys : List Thread) → sum f (xs ++ ys) ≡ sum f xs + sum f ys
sum-append f [] ys = omega arith
sum-append f (x ∷ xs) ys = omega (arith, sum-append f xs ys)

-- The number of a thread, and those of the others.
pub sum-among :
    (f : Thread → ℕ) (xs : List Thread) (x : Thread) (ys : List Thread)
    → sum f (xs ++ (x ∷ ys)) ≡ f x + (sum f xs + sum f ys)
sum-among f xs x ys = omega (arith, sum-append f xs (x ∷ ys))

abbrev pub IsCounted : System → Type 0
IsCounted s = Counted s.conn (sum holds s.threads) (sum registers s.threads) (sum closes s.threads)

pub Step-IsCounted : {s t : System} {ev : Event} → Step s t ev → IsCounted s → IsCounted t
Step-IsCounted {s} (go ev before x after c y e st e') counted =
    let a = sum-among holds before x after in
    let b = sum-among registers before x after in
    let d = sum-among closes before x after in
    let m : Counted s.conn (holds x + (sum holds before + sum holds after))
        (registers x + (sum registers before + sum registers after))
        (closes x + (sum closes before + sum closes after)) =
      rw (e, a, b, d) at counted in
    rw
      (
        e',
        sum-among holds before y after,
        sum-among registers before y after,
        sum-among closes before y after,
      )
      (step-Counted ev s.conn x c y _ _ _ st m)

pub Reach-IsCounted :
    {Allowed : Event → System → Type 0} {s t : System}
    → Reach Allowed s t
    → IsCounted s
    → IsCounted t
Reach-IsCounted here counted = counted
Reach-IsCounted (next ev r allowed st) counted = Step-IsCounted st (Reach-IsCounted r counted)

-- Goroutines that have not yet called a method.
abbrev pub all_outside : ℕ → List Thread
all_outside zero = []
all_outside (suc n) = outside ∷ all_outside n

abbrev pub start : ℕ → System
start n = record { conn = new_conn; threads = all_outside n }

outside_sum : (f : Thread → ℕ) (n : ℕ) → f outside ≡ 0 → sum f (all_outside n) ≡ 0
outside_sum f zero h = refl
outside_sum f (suc n) h = omega (arith, outside_sum f n h)

pub start-IsCounted : (n : ℕ) → IsCounted (start n)
start-IsCounted n =
    rw (outside_sum holds n refl, outside_sum registers n refl, outside_sum closes n refl)
      (record { ops = refl; waiters = refl; once = refl; idle = λ h. refl; flags = refl })

abbrev pub Anything : Event → System → Type 0
Anything ev s = Unit {0}

-- On a new connection, after any calls of any number of goroutines, interleaved in any way and whatever the
-- kernel answers: `activeOps` and `pollWaiters` are the numbers of goroutines that hold the descriptors
-- and that are registered; the socket is either valid, being closed by one goroutine, or closed; and
-- once it is closed no goroutine holds it.
pub conn_account :
    (n : ℕ) (t : System)
    → Reach Anything (start n) t
    → (t.conn.active_ops ≡ sum holds t.threads)
      × (t.conn.poll_waiters ≡ sum registers t.threads)
      × (sum closes t.threads + bit t.conn.fd_valid + bit t.conn.fd_closed ≡ 1)
      × (t.conn.fd_closed ≡ true → sum holds t.threads ≡ 0)
conn_account n t r =
    let counted = Reach-IsCounted r (start-IsCounted n) in
    (counted.ops, counted.waiters, counted.once, counted.idle)
