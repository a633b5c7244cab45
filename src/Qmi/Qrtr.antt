-- ===== src/Qmi/Qrtr.antt =====
-- driver/qmi/qrtr/conn.go: a connection that several goroutines read, write and close.
pub mod Threads
pub mod Life
pub mod Wakes
pub mod Finish
pub mod Millis
mod Examples
use euicc_go.Prelude.{
  ℕ, ◌+◌, ◌-◌, ◌%◌, ◌^◌, Bool, true, false, not, ◌&&◌, ◌||◌, Option, none, some, ltb, ◌==◌, bit_and,
  bit_or, if◌then◌else◌,
}

-- The errors that the code tells apart; the number is that of another one.
pub data QrtrError : Type 0 where
  -- net.ErrClosed, os.ErrDeadlineExceeded, errReadDeadlineChanged
  conn_closed deadline_exceeded deadline_changed : QrtrError
  -- unix.EINTR, unix.EAGAIN
  interrupted try_again : QrtrError
  other : ℕ → QrtrError

-- The fields of Conn that its methods share, with what the kernel knows of the two descriptors: the
-- counter of the eventfd, and whether the socket was closed. The mutex makes each method a step;
-- the descriptors themselves never change but to -1, which the two flags tell.
pub record Conn : Type 0 where
  pub active_ops : ℕ
  pub fd_valid : Bool
  pub wake_fd_valid : Bool
  pub read_deadline : Option ℕ
  pub deadline_seq : ℕ
  pub poll_waiters : ℕ
  pub wake_count : ℕ
  pub fd_closed : Bool

-- `newConnWithFDs`, on descriptors that were just made.
abbrev pub new_conn : Conn
new_conn = record {
  active_ops = 0;
  fd_valid = true;
  wake_fd_valid = true;
  read_deadline = none;
  deadline_seq = 0;
  poll_waiters = 0;
  wake_count = 0;
  fd_closed = false;
}

-- `none` is success.
abbrev pub Error : Type 0
Error = Option QrtrError

-- `acquireFD`, and `acquireFDs`, which returns the eventfd as well.
unfoldable pub acquire_fd : Conn → Error × Conn
acquire_fd c =
    if not c.fd_valid
    then (some conn_closed, c)
    else (none, record c { active_ops = c.active_ops + 1 })

-- The broadcast to `waitIdle` is that its test is true from here on.
unfoldable pub release_fd : Conn → Conn
release_fd c = record c { active_ops = c.active_ops - 1 }

unfoldable pub register_poll : ℕ → Conn → Error × Conn
register_poll seq c =
    if not c.fd_valid
    then (some conn_closed, c)
    else if not (c.deadline_seq == seq)
    then (some deadline_changed, c)
    else (none, record c { poll_waiters = c.poll_waiters + 1 })

unfoldable pub unregister_poll : Conn → Conn
unregister_poll c = record c { poll_waiters = c.poll_waiters - 1 }

-- `notifyWakeFD`. What the write returns comes from the kernel: a failure, or none, where the
-- counter was increased or (EAGAIN) is at its maximum.
abbrev pub notify_wake_fd : Error → Bool → Conn → Error × Conn
notify_wake_fd failure false c = (none, c)
notify_wake_fd (some e) true c = (some e, c)
notify_wake_fd none true c = (none, record c { wake_count = c.wake_count + 1 })

unfoldable pub set_read_deadline : Option ℕ → Error → Conn → Error × Conn
set_read_deadline t failure c =
    if not c.fd_valid
    then (some conn_closed, c)
    else if ltb 0 c.poll_waiters
    then notify_wake_fd failure c.wake_fd_valid
        (record c { read_deadline = t; deadline_seq = (c.deadline_seq + 1) % 2 ^ 64 })
    else (none, record c { read_deadline = t; deadline_seq = (c.deadline_seq + 1) % 2 ^ 64 })

abbrev pub invalidated : Error × Conn → Error × Conn
invalidated (some e, c) = (some e, c)
invalidated (none, c) = (none, record c { fd_valid = false; wake_fd_valid = false })

-- `Close` up to its first unlock.
unfoldable pub close_begin : Error → Conn → Error × Conn
close_begin failure c =
    if not c.fd_valid
    then (some conn_closed, c)
    else if ltb 0 c.poll_waiters
    then invalidated (notify_wake_fd failure c.wake_fd_valid c)
    else invalidated (none, c)

-- The end of `Close`, after `waitIdle`.
unfoldable pub close_end : Conn → Conn
close_end c = record c { fd_closed = true }

-- What poll(2) returned: an error, or the number of ready descriptors with the events of the socket
-- and of the eventfd.
pub data PollOutcome : Type 0 where
  poll_failed : QrtrError → PollOutcome
  ready : (n revents wake_revents : ℕ) → PollOutcome

abbrev pub pollin : ℕ
pollin = 0x1

abbrev pub pollerr : ℕ
pollerr = 0x8

abbrev pub pollhup : ℕ
pollhup = 0x10

abbrev pub pollnval : ℕ
pollnval = 0x20

-- `drainWakeFD`: the counter is read until it is 0.
abbrev pub drain_wake_fd : Conn → Conn
drain_wake_fd c = record c { wake_count = 0 }

-- `waitReadable`, after its poll.
unfoldable pub wait_readable : Bool → PollOutcome → Conn → Error × Conn
wait_readable wake_fd_valid (poll_failed e) c = (some e, c)
wait_readable wake_fd_valid (ready n revents wake_revents) c =
    if n == 0
    then (some deadline_exceeded, c)
    else if wake_fd_valid && not (bit_and wake_revents pollin == 0)
    then (some deadline_changed, drain_wake_fd c)
    else if not (bit_and revents pollnval == 0)
    then (some conn_closed, c)
    else if not (bit_and revents (bit_or pollerr pollhup) == 0)
    then (some (other revents), c)
    else if bit_and revents pollin == 0
    then (some deadline_exceeded, c)
    else (none, c)
