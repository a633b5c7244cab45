-- ===== src/Ccid/Examples.antt =====
-- Two calls on a reader of a library that answers everything.
use euicc_go.Prelude.{◌≡◌, refl, true, false, not, none, some, [], ◌∷◌, Bytes, ◌==◌, All}
use euicc_go.Prelude.Action.{ok, err}
use euicc_go.Card.Channels.{link_error}
use euicc_go.Card.Status.{status_ok}
use euicc_go.Ccid.{Pcsc, Reader}
use euicc_go.Ccid.Operations.{
  new_with_reader, acquire_pcsc, connect, disconnect_card, disconnect, transmit, fresh,
}
use euicc_go.Ccid.Accounts.{IsValid}
use euicc_go.Ccid.Life.{
  System, connect_op, run, live_readers, host, Step, make, act, here, next, start, readers_account,
}

-- Every call succeeds, and each exchange answers 90 00.
abbrev willing : Pcsc (Unit {0})
willing = record {
  initialize = λ w. (ok tt, w);
  finalize = λ w. w;
  new_context = λ w. (ok tt, w);
  connect = λ name w. (ok 1, w);
  transmit = λ command w. (ok (0x90 ∷ 0 ∷ []), w);
  disconnect = λ w. (ok tt, w);
  release = λ w. (ok tt, w);
  list_readers = λ w. (ok [], w);
}

abbrev first_reader : Bytes
first_reader = 65 ∷ []

abbrev connected : Reader
connected = record {
  io_send = some 1;
  channel = 0;
  reader = first_reader;
  is_open = true;
  closed = false;
}

abbrev one_made : System (Unit {0})
one_made = record { readers = fresh first_reader ∷ []; refs = 1; initialized = true; world = tt }

abbrev one_connected : System (Unit {0})
one_connected = record { readers = connected ∷ []; refs = 1; initialized = true; world = tt }

make-Step : Step willing (start willing tt) one_made
unfolding new_with_reader acquire_pcsc
make-Step = make first_reader refl

connect-Step : Step willing one_made one_connected
unfolding run connect transmit status_ok
connect-Step = act [] (fresh first_reader) [] connect_op refl refl

readers_account_example :
    All IsValid one_connected.readers
    × (one_connected.refs ≡ live_readers one_connected.readers)
    × (one_connected.initialized ≡ not (live_readers one_connected.readers == 0))
readers_account_example =
    readers_account willing tt one_connected (next (next here make-Step) connect-Step)

-- Where the library fails to release the context, the reader stays in the count.
abbrev unreleased : Pcsc (Unit {0})
unreleased = record willing { release = λ w. (err 7, w) }

unreleased_example : disconnect unreleased (host unreleased connected one_connected) ≡ (
  err (link_error 7),
  host unreleased (record (fresh first_reader) { io_send = none }) one_connected,
)
unfolding disconnect disconnect_card
unreleased_example = refl
