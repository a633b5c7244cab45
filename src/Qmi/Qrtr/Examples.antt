-- ===== src/Qmi/Qrtr/Examples.antt =====
-- Goroutines on a connection: a reader and one that changes the deadline; two readers.
use euicc_go.Prelude.{
  ◌≡◌, refl, ◌+◌, ◌<◌, true, false, none, some, [], ◌∷◌, ℕ, bit_and, ◌==◌, arith,
}
use euicc_go.Qmi.Qrtr.{
  Conn, new_conn, acquire_fd, register_poll, set_read_deadline, wait_readable, ready, pollin,
  deadline_changed,
}
use euicc_go.Qmi.Qrtr.Threads.{
  outside, reading, held, polling, polled, begin_read, acquire, register, set_deadline,
  poll_answers, step,
}
use euicc_go.Qmi.Qrtr.Life.{
  System, go, Reach, here, next, start, holds, registers, closes, sum, bit, Anything, conn_account,
}
use euicc_go.Qmi.Qrtr.Wakes.{Single, stale, stale_reader_wakes}
use euicc_go.Qmi.Qrtr.Threads.{closing}

abbrev taken : Conn
taken = record new_conn { active_ops = 1 }

abbrev waited : Conn
waited = record taken { poll_waiters = 1 }

abbrev changed : Conn
changed = record waited { read_deadline = some 5; deadline_seq = 1; wake_count = 1 }

abbrev waiting_system : System
waiting_system = record { conn = waited; threads = polling 0 ∷ outside ∷ [] }

abbrev changed_system : System
changed_system = record { conn = changed; threads = polling 0 ∷ outside ∷ [] }

waiting_Reach : Reach Single (start 2) waiting_system
unfolding step acquire_fd register_poll
waiting_Reach =
    next register
      (next acquire
        (next begin_read here (omega arith, refl)
          (go begin_read [] outside (outside ∷ []) new_conn (reading 0) refl refl refl))
        (omega arith, refl)
        (go acquire [] (reading 0) (outside ∷ []) taken (held 0) refl refl refl))
      (omega arith, refl) (go register [] (held 0) (outside ∷ []) waited (polling 0) refl refl refl)

changed_Reach : Reach Single (start 2) changed_system
unfolding step set_read_deadline
changed_Reach =
    next (set_deadline (some 5) none) waiting_Reach (omega arith, refl)
      (go (set_deadline (some 5) none) (polling 0 ∷ []) outside [] changed outside refl refl refl)

stale_reader_wakes_example :
    (0 < changed.wake_count)
    × ((m revents wake_revents : ℕ)
        → 0 < m
        → (bit_and wake_revents pollin == 0) ≡ false
        → step (poll_answers (ready m revents wake_revents)) changed (polling 0)
          ≡ some (record changed { wake_count = 0 }, polled 0 (some deadline_changed)))
stale_reader_wakes_example =
    stale_reader_wakes 2 changed_system [] 0 (outside ∷ []) changed_Reach refl refl

open_Reach : Reach Anything (start 2) (record { conn = taken; threads = held 0 ∷ outside ∷ [] })
unfolding step acquire_fd
open_Reach =
    next acquire
      (next begin_read here tt
        (go begin_read [] outside (outside ∷ []) new_conn (reading 0) refl refl refl))
      tt (go acquire [] (reading 0) (outside ∷ []) taken (held 0) refl refl refl)

conn_account_example :
    (taken.active_ops ≡ sum holds (held 0 ∷ outside ∷ []))
    × (taken.poll_waiters ≡ sum registers (held 0 ∷ outside ∷ []))
    × (sum closes (held 0 ∷ outside ∷ []) + bit taken.fd_valid + bit taken.fd_closed ≡ 1)
    × (taken.fd_closed ≡ true → sum holds (held 0 ∷ outside ∷ []) ≡ 0)
conn_account_example =
    conn_account 2 (record { conn = taken; threads = held 0 ∷ outside ∷ [] }) open_Reach

-- With two readers that wait, the first that is woken takes the notification: the other waits on
-- with a deadline that was changed, and the eventfd is not readable.
abbrev both_waiting : Conn
both_waiting = record changed { active_ops = 2; poll_waiters = 2 }

lost_notification :
    step (poll_answers (ready 1 0 1)) both_waiting (polling 0)
    ≡ some (record both_waiting { wake_count = 0 }, polled 0 (some deadline_changed))
unfolding step wait_readable
lost_notification = refl

other_reader : stale (record both_waiting { wake_count = 0 }) (polling 0) ≡ true
other_reader = refl

-- A reader waits when the other goroutine calls Close.
abbrev shut : Conn
shut = record waited { fd_valid = false; wake_fd_valid = false; wake_count = 1 }

abbrev closing_system : System
closing_system = record { conn = shut; threads = polling 0 ∷ closing ∷ [] }
