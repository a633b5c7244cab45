-- ===== src/Mbim/Fragment/Receive.antt =====
-- What a collector makes of frames that it is given in turn (driver/mbim/fragment.go), and the test with
-- which driver/mbim/types.go begins one.
use euicc_go.Prelude.{
  Bool, false, not, Option, none, some, List, [], ◌∷◌, Bytes, length, ltb, if◌then◌else◌,
}
use euicc_go.Mbim.Words.{Checked, ok, ◌>>=◌, uint32_at}
use euicc_go.Mbim.Fragment.{
  FragmentError, Collector, new_fragment_collector, add, complete, marshal_collected,
}

-- What there is to answer with: nothing as long as frames are missing, when the loop goes on.
abbrev pub Answer : Type 0
Answer = Checked FragmentError (Option Bytes)

abbrev pub collected : Collector → Answer → Answer
collected c go_on = if not (complete c) then go_on else (do m ← marshal_collected c; ok (some m))

-- The frames behind the first, each given to `add`.
unfoldable pub put_together_rest : Collector → List Bytes → Answer
put_together_rest c [] = ok none
put_together_rest c (buf ∷ bufs) = do
  c' ← add c buf
  let go_on = put_together_rest c' bufs
  collected c' go_on

-- `len(buf) >= 20 && binary.LittleEndian.Uint32(buf[12:16]) > 1`.
abbrev pub is_first_of_several : Bytes → Checked FragmentError Bool
is_first_of_several buf =
    if ltb (length buf) 20 then ok false else (do total ← uint32_at buf 12; ok (ltb 1 total))

-- A collector for the first frame of several, and MarshalBinary once it is complete; one frame alone is a
-- message as it is. The loop of `Request.ReadFrom`, with its further tests, is in Mbim.Wire.
unfoldable pub put_together : List Bytes → Answer
put_together [] = ok none
put_together (buf ∷ bufs) = do
  several ← is_first_of_several buf
  if several
      then (do c ← new_fragment_collector buf; collected c (put_together_rest c bufs))
      else ok (some buf)
