-- ===== src/Qmi/Qrtr/Wakes.antt =====
-- No reader sleeps through a change of its deadline (driver/qmi/qrtr/conn.go).
use euicc_go.Prelude.{
  ℕ, zero, suc, ◌+◌, ◌≤◌, ◌<◌, ◌≡◌, Bool, true, false, not, ◌||◌, none, some, List, [], ◌∷◌, ◌++◌,
  ◌==◌, All, All-append, All-split, arith, bit_and,
}
use euicc_go.Qmi.Qrtr.{
  Conn, new_conn, acquire_fd, release_fd, register_poll, unregister_poll, set_read_deadline,
  close_begin, close_end, wait_readable, ready, pollin, deadline_changed,
}
use euicc_go.Qmi.Qrtr.Threads.{
  Thread, outside, reading, held, polling, polled, receiving, sending, leaving, closing, Event,
  begin_read, begin_send, expire, acquire, register, unregister, release, close_last, poll_answers,
  size_failed, received, sent, set_deadline, close_first, step,
}
use euicc_go.Qmi.Qrtr.Life.{
  registers, sum, System, Step, go, Reach, here, next, sum-among, IsCounted, Step-IsCounted, start,
  start-IsCounted, all_outside,
}

-- A reader in poll(2) whose deadline was changed, or whose connection was closed, since it read
-- the deadline.
abbrev pub stale : Conn → Thread → Bool
stale c (polling seq) = not (c.deadline_seq == seq) || not c.fd_valid
stale c outside = false
stale c (reading seq) = false
stale c (held seq) = false
stale c (polled seq e) = false
stale c (receiving seq) = false
stale c sending = false
stale c (leaving back) = false
stale c closing = false

-- The eventfd is readable.
abbrev pub Alerted : Conn → Thread → Type 0
Alerted c t = stale c t ≡ true → 0 < c.wake_count

-- The eventfd takes what SetReadDeadline writes.
abbrev pub notifies : Event → Bool
notifies (set_deadline t (some e)) = false
notifies (set_deadline t none) = true
notifies begin_read = true
notifies begin_send = true
notifies expire = true
notifies acquire = true
notifies register = true
notifies unregister = true
notifies release = true
notifies close_last = true
notifies (poll_answers outcome) = true
notifies (size_failed e) = true
notifies (received e) = true
notifies sent = true
notifies (close_first failure) = true

step-Alerted :
    (ev : Event) (c : Conn) (t : Thread) (c' : Conn) (t' : Thread)
    → step ev c t ≡ some (c', t')
    → Alerted c t
    → Alerted c' t'
unfolding step acquire_fd release_fd register_poll unregister_poll set_read_deadline close_begin
    close_end wait_readable
step-Alerted ev c t c' t' e alerted s = ground arith

-- Another goroutine, where this one and it are not registered both.
step-Alerted_other :
    (ev : Event) (c : Conn) (t : Thread) (c' : Conn) (t' u : Thread)
    → step ev c t ≡ some (c', t')
    → notifies ev ≡ true
    → c.wake_fd_valid ≡ c.fd_valid
    → registers u ≤ c.poll_waiters
    → registers t + registers u ≤ 1
    → Alerted c u
    → Alerted c' u
unfolding step acquire_fd release_fd register_poll unregister_poll set_read_deadline close_begin
    close_end wait_readable
step-Alerted_other ev c t c' t' u e quiet flags among one alerted s = ground arith

-- At most one goroutine is registered, and the eventfd takes what it is sent.
abbrev pub Single : Event → System → Type 0
Single ev s = (sum registers s.threads ≤ 1) × (notifies ev ≡ true)

abbrev AllAlerted : System → Type 0
AllAlerted s = All (Alerted s.conn) s.threads

others-Alerted :
    (ev : Event) (c : Conn) (t : Thread) (c' : Conn) (t' : Thread) (us : List Thread)
    → step ev c t ≡ some (c', t')
    → notifies ev ≡ true
    → c.wake_fd_valid ≡ c.fd_valid
    → sum registers us ≤ c.poll_waiters
    → registers t + sum registers us ≤ 1
    → All (Alerted c) us
    → All (Alerted c') us
others-Alerted ev c t c' t' [] e quiet flags among one alerted = tt
others-Alerted ev c t c' t' (u ∷ us) e quiet flags among one (a, as') = (
  step-Alerted_other ev c t c' t' u e quiet flags (omega arith) (omega arith) a,
  others-Alerted ev c t c' t' us e quiet flags (omega arith) (omega arith) as',
)

Step-AllAlerted :
    {s t : System} {ev : Event}
    → Step s t ev
    → IsCounted s
    → Single ev s
    → AllAlerted s
    → AllAlerted t
Step-AllAlerted {s} (go ev before x after c y e st e') counted (one, quiet) alerted =
    let v = All-split (Alerted s.conn) before (x ∷ after) (rw e at alerted) in
    let n : sum registers s.threads ≡ registers x + (sum registers before + sum registers after) =
      rw e (sum-among registers before x after) in
    let w = counted.waiters in
    rw e' (
      All-append (Alerted c) before (y ∷ after)
        (others-Alerted ev s.conn x c y before st quiet counted.flags (omega arith) (omega arith)
          v.0)
        (
          step-Alerted ev s.conn x c y st v.1.0,
          others-Alerted ev s.conn x c y after st quiet counted.flags (omega arith) (omega arith)
              v.1.1,
        ))

pub Reach-AllAlerted :
    {s t : System} → Reach Single s t → IsCounted s → AllAlerted s → AllAlerted t × IsCounted t
Reach-AllAlerted here counted alerted = (alerted, counted)
Reach-AllAlerted (next ev r single st) counted alerted =
    let (a, n) = Reach-AllAlerted r counted alerted in
    (Step-AllAlerted st n single a, Step-IsCounted st n)

pub outside-Alerted : (c : Conn) (n : ℕ) → All (Alerted c) (all_outside n)
outside-Alerted c zero = tt
outside-Alerted c (suc n) = (λ h. absurd cc, outside-Alerted c n)

-- On a new connection of which at most one goroutine at a time waits in poll(2), and whose eventfd
-- takes every notification of SetReadDeadline: whatever goroutines have done, a reader that waits
-- with a deadline that was changed, or on a connection that was closed, finds the eventfd readable,
-- and any answer of poll that says so makes `waitReadable` return errReadDeadlineChanged to it.
pub stale_reader_wakes :
    (n : ℕ) (t : System) (before : List Thread) (seq : ℕ) (after : List Thread)
    → Reach Single (start n) t
    → t.threads ≡ before ++ (polling seq ∷ after)
    → stale t.conn (polling seq) ≡ true
    → (0 < t.conn.wake_count)
      × ((m revents wake_revents : ℕ)
          → 0 < m
          → (bit_and wake_revents pollin == 0) ≡ false
          → step (poll_answers (ready m revents wake_revents)) t.conn (polling seq)
            ≡ some (record t.conn { wake_count = 0 }, polled seq (some deadline_changed)))
unfolding step wait_readable
stale_reader_wakes n t before seq after r e s =
    let (a, counted) = Reach-AllAlerted r (start-IsCounted n) (outside-Alerted new_conn n) in
    let v = All-split (Alerted t.conn) before (polling seq ∷ after) (rw e at a) in
    (v.1.0 s, λ m revents wake_revents positive readable. ground arith)
