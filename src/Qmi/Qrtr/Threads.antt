-- ===== src/Qmi/Qrtr/Threads.antt =====
-- What a goroutine does on a connection, cut where it takes or gives up the mutex or calls the
-- kernel (driver/qmi/qrtr/conn.go).
use euicc_go.Prelude.{ℕ, true, Option, none, some, ◌==◌, if◌then◌else◌}
use euicc_go.Qmi.Qrtr.{
  QrtrError, conn_closed, deadline_exceeded, deadline_changed, interrupted, try_again, other, Conn,
  Error, acquire_fd, release_fd, register_poll, unregister_poll, set_read_deadline, close_begin,
  close_end, PollOutcome, wait_readable,
}

-- Where a goroutine stands. The number is the deadline's that its read has taken up.
pub data Thread : Type 0 where
  -- in none of the methods
  outside : Thread
  -- at the top of the loop of `recvPacketWithDeadline`
  reading : ℕ → Thread
  -- with the descriptors acquired
  held : ℕ → Thread
  -- registered, and in poll(2)
  polling : ℕ → Thread
  -- registered, with the answer of `waitReadable`
  polled : ℕ → Error → Thread
  -- with a datagram to take
  receiving : ℕ → Thread
  -- in `sendTo`
  sending : Thread
  -- about to release the descriptors, and where it stands then
  leaving : Option ℕ → Thread
  -- in `Close`, waiting until there is no operation
  closing : Thread

-- What happens next, with what the clock and the kernel say.
pub data Event : Type 0 where
  begin_read begin_send expire acquire register unregister release close_last : Event
  -- the answer of poll(2), for a reader whose eventfd is valid
  poll_answers : PollOutcome → Event
  -- `nextDatagramSize` fails
  size_failed : QrtrError → Event
  -- the end of `recvfrom`; an error may be one of those that are tried again
  received : Error → Event
  sent : Event
  set_deadline : Option ℕ → Error → Event
  close_first : Error → Event

-- Where the loop goes on after an error of `waitReadable`, and where the read ends.
abbrev pub after_poll : ℕ → QrtrError → Option ℕ
after_poll seq deadline_exceeded = some seq
after_poll seq interrupted = some seq
after_poll seq conn_closed = none
after_poll seq deadline_changed = none
after_poll seq try_again = none
after_poll seq (other n) = none

abbrev pub after_receive : ℕ → Error → Option ℕ
after_receive seq none = none
after_receive seq (some try_again) = some seq
after_receive seq (some interrupted) = some seq
after_receive seq (some conn_closed) = none
after_receive seq (some deadline_exceeded) = none
after_receive seq (some deadline_changed) = none
after_receive seq (some (other n)) = none

abbrev pub after_size : ℕ → QrtrError → Option ℕ
after_size seq try_again = some seq
after_size seq interrupted = none
after_size seq conn_closed = none
after_size seq deadline_exceeded = none
after_size seq deadline_changed = none
after_size seq (other n) = none

abbrev pub returned : Option ℕ → Thread
returned none = outside
returned (some seq) = reading seq

abbrev entered : Thread → Thread → Error × Conn → Conn × Thread
entered yes_thread no_thread (none, c) = (c, yes_thread)
entered yes_thread no_thread (some e, c) = (c, no_thread)

abbrev answered : ℕ → Error × Conn → Conn × Thread
answered seq (e, c) = (c, polled seq e)

-- `none` is an event that cannot happen there.
unfoldable pub step : Event → Conn → Thread → Option (Conn × Thread)
step begin_read c outside = some (c, reading c.deadline_seq)
step expire c (reading seq) = some (c, outside)
step acquire c (reading seq) = some (entered (held seq) outside (acquire_fd c))
step expire c (held seq) = some (c, leaving none)
step register c (held seq) = some (entered (polling seq) (leaving none) (register_poll seq c))
step (poll_answers outcome) c (polling seq) = some (answered seq (wait_readable true outcome c))
step unregister c (polled seq none) = some (unregister_poll c, receiving seq)
step unregister c (polled seq (some e)) = some (unregister_poll c, leaving (after_poll seq e))
step (received e) c (receiving seq) = some (c, leaving (after_receive seq e))
step (size_failed e) c (receiving seq) = some (c, leaving (after_size seq e))
step begin_send c outside = some (entered sending outside (acquire_fd c))
step sent c sending = some (c, leaving none)
step release c (leaving next) = some (release_fd c, returned next)
step (set_deadline t failure) c outside = some ((set_read_deadline t failure c).1, outside)
step (close_first failure) c outside = some (entered closing outside (close_begin failure c))
step close_last c closing = if c.active_ops == 0 then some (close_end c, outside) else none
step _ c t = none
