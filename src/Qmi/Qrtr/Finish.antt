-- ===== src/Qmi/Qrtr/Finish.antt =====
-- That Close can always come to its end (driver/qmi/qrtr/conn.go).
use euicc_go.Prelude.{ℕ, ◌≤◌, ◌<◌, ◌≡◌, some, List, ◌∷◌, ◌++◌}
use euicc_go.Qmi.Qrtr.{Conn, ready}
use euicc_go.Qmi.Qrtr.Threads.{
  Thread, closing, Event, begin_read, begin_send, expire, acquire, register, unregister, release,
  close_last, poll_answers, size_failed, received, sent, set_deadline, close_first, step,
}
use euicc_go.Qmi.Qrtr.Life.{holds, registers, closes, sum, System, Reach, start}
use euicc_go.Qmi.Qrtr.Wakes.{Single}

-- What a goroutine does to come out of a method that it is in, with a socket that gives it no event: poll(2)
-- returns only where the eventfd is readable, and says that. No deadline expires, and no call is begun.
abbrev pub Prompt : Event → Conn → Type 0
Prompt (poll_answers outcome) c = (outcome ≡ ready 1 0 1) × (0 < c.wake_count)
Prompt register c = Unit
Prompt unregister c = Unit
Prompt release c = Unit
Prompt close_last c = Unit
Prompt (received e) c = Unit
Prompt sent c = Unit
Prompt begin_read c = ⊥
Prompt begin_send c = ⊥
Prompt expire c = ⊥
Prompt acquire c = ⊥
Prompt (size_failed e) c = ⊥
Prompt (set_deadline t e) c = ⊥
Prompt (close_first e) c = ⊥

-- Such an event, while one goroutine at most is registered for poll(2).
abbrev pub Winding : Event → System → Type 0
Winding ev s = Prompt ev s.conn × (sum registers s.threads ≤ 1)

-- Steps of one goroutine while the others stand still, which do not register it.
data Alone (c : Conn) (t : Thread) : Conn → Thread → Type 0 where
  rest : Alone c t c t
  step_on :
      {d e : Conn} {u v : Thread} (ev : Event)
      → Alone c t d u
      → step ev d u ≡ some (e, v)
      → Prompt ev d
      → registers u ≤ registers t
      → Alone c t e v

-- A goroutine comes to a place where it holds nothing.
record LetsGo (c : Conn) (t : Thread) : Type 0 where
  conn : Conn
  thread : Thread
  alone : Alone c t conn thread
  free : holds thread ≡ 0
  same : closes thread ≡ closes t
  fewer : registers thread ≡ 0

module _ (n : ℕ) (s : System) (reach : Reach Single (start n) s) where
  -- A state, reached by winding up, in which the goroutines of a list hold nothing.
  record Free (before ts : List Thread) : Type 0 where
    conn : Conn
    threads : List Thread
    reached : Reach Winding s (record { conn = conn; threads = before ++ threads })
    free : sum holds threads ≡ 0
    same : sum closes threads ≡ sum closes ts
    one : sum registers (before ++ threads) ≤ 1

record Closing (ts : List Thread) : Type 0 where
  before : List Thread
  after : List Thread
  parts : ts ≡ before ++ (closing ∷ after)
