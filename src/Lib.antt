-- ===== src/Lib.antt =====
-- euicc-go: management of eUICC profiles after GSMA SGP.22.
--
-- The program talks to a card over a smart card channel (driver/), in APDUs (apdu/) that carry
-- BER-TLV objects (bertlv/); the SGP.22 messages are built from and taken out of such objects (v2/),
-- and the local profile assistant (lpa/) strings them together.
--
-- - Prelude and its children: shared names, Boolean tests, lists and bytes, bit operations.
-- - Bertlv: bertlv/. Tag is tag.go (new_tag = NewTag, read_tag = Tag.ReadFrom, the accessors);
--   Length is length.go; Tlv is tlv.go with the sizes and Clone, Tlv.Write is tlv_writer.go,
--   Tlv.Read is tlv_reader.go, Selector is tlv_selector.go, Primitive is bertlv/primitive/, where a signed
--   integer is its word of two's complement. Tlv.Valid says which objects can be
--   encoded, Tlv.Codes relates each to its encoding, Tlv.Parts and Tlv.Sound treat arbitrary input.
-- - Apdu: apdu/. Request is request.go, Response is response.go, Transmitter is transmitter.go
--   (write = Write, read_command_response and fetch_loop = readCommandResponse). The channel is the
--   list of the answers that it will give; a call with none left is `waiting`, one that never
--   returns. Request.Decode and Transmitter.Card are the card's side, after ISO 7816-4 and the STORE
--   DATA command of SGP.22; Transmitter.Blocks and Fetch say what the loops send and gather.
-- - Card: the commands for logical channels, which driver/ccid/ccid.go and driver/at/at.go send with
--   the same code, over a link that is a parameter. Channels.Conforms states what ISO 7816-4 says of a card.
-- - At: driver/at/. Commands is sendCommand, writeFull, transmitAPDU and Connect of at.go over a scripted
--   port, Csim is csim.go, Replies says what the answers come to.
-- - Ccid: driver/ccid/ccid.go. The PC/SC library is the parameter Pcsc; Operations has the methods,
--   Life all the readers of a process and the calls on them, in any order.
-- - Lpa: lpa/. Session has the calls that a download makes (InvokeHTTP and the parts of lpa/es9p.go and
--   lpa/es10b.go), over an interface of what the card and the server answer; Download is DownloadProfile of
--   lpa/download.go, cut where its calls return, Authentication its authenticateClient and
--   authenticateServer, Install its install, Code the text of an activation
--   code, Options the options of lpa/euicc.go.
--   Card has the other operations on a card (lpa/es10a.go, lpa/es10b.go, lpa/es10c.go) with Transmit of
--   driver/transmitter.go and InvokeAPDU of v2/types.go; a card is what TransmitRaw answers.
-- - Mbim: driver/mbim/. Words has the little endian numbers, Fragment is fragment.go; Message has the
--   commands, requests and responses of types.go, Wire its WriteTo and ReadFrom on a connection, Protocol
--   is protocol.go. Fragment.Receive is a collector that is given frames in turn. Session is
--   mbim.go, with the exchange of each message as a parameter.
-- - Qmi: driver/qmi/. Tlvs is protocol/tlv.go (read_tlvs = TLVs.ReadFrom, write_tlvs = TLVs.WriteTo).
--   Qrtr is qrtr/conn.go: each method that holds the mutex is one function, Threads.step is what a
--   goroutine does between two of these or two system calls (Read, Write, SetReadDeadline, Close),
--   and Life interleaves any number of goroutines. Uim is uim/messages.go (the requests' message numbers
--   and TLVs, and one function for each UnmarshalResponse), Uim.Client is uim/client.go, with the
--   transport's Transmit, which also unmarshals the response, as a parameter; Client.sent, the
--   requests so far, is no field of the source. Its loop makes ten attempts, its fuel.
--   Transport is transport/qmi/: request_bytes = Transport.bytes, unmarshal_binary = Response.UnmarshalBinary.
-- - Sgp22: v2/. Bpp is bpp.go, Identifier the packed decimal of identifier.go, Notification is
--   notification.go, Profile is profile.go, Es10c is es10c.go, Es10b has es10a.go and the requests of es10b.go
--   that a download does not make. Message has the shorthands of bertlv/ that make and read their objects.
--
-- Bytes are numbers below 256 and slices are lists. An io.Reader is the bytes that it has still to
-- deliver; the int64 that a read returns, which the source counts in countReader, is a field of the
-- result. A panic is `none` of an Option, or the constructor `panic` of a read.
-- A *TLV that may be nil is an Option, and a nil child has a constructor of its own.
-- The bertlv reader recurs on fuel, two units for each byte of the input and one more: an object
-- takes two bytes at least, and each of the two mutual functions spends one unit a call. The loops
-- over chunks, frames and QMI TLVs have the length of their input as fuel, since each round takes a
-- byte at least. The loop of MBIM's ReadFrom runs until its time is over, which is a number of passes:
-- any number that is no less than the passes that the incoming messages take will do.
--
-- Code that is not the program's own is a parameter: the PC/SC library, the port of a modem, poll(2)
-- and the other system calls, strconv and url.Parse, and the exchange of a message with a server or a
-- modem. A mutex that a method holds throughout makes it one step. What a card, a server or a modem is
-- asked is read from an account that a recording instance of the parameter keeps (`recorded` of
-- Lpa.Download.Recorded and of Mbim.Session.Bounds); the models of the code keep none.
--
-- Not modelled: display texts, base64 and JSON forms, HTTP, the system calls on serial ports and
-- sockets, the JSON messages of ES9+ and ES11, the loops of the transports of QMI; PROJECT.json lists each
-- part.
pub mod Prelude
pub mod Bertlv
pub mod Apdu
pub mod At
pub mod Card
pub mod Ccid
pub mod Lpa
pub mod Mbim
pub mod Qmi
pub mod Sgp22
