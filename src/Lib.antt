-- ===== src/Lib.antt =====
-- gombus: a verification library of the M-Bus package gombus (frames, commands, response
-- decoding).
--
-- The package talks to meters on an M-Bus. commands.go builds the frames of the master on the
-- types of frame.go and the encodings of encoding.go; read.go cuts long frames out of the bytes
-- received; decode.go and decode_fixed.go turn a long frame into a DecodedFrame with one
-- DecodedDataRecord for each reading, using field.go and unit.go for what the DIF and VIF bytes
-- mean and datetime.go for timestamps; records.go selects records from it. gombus.go and read.go
-- hold a session: a Client keeps the bytes that arrived and were not used, and reads frames from
-- them. The package wmbus does the same decoding for wireless telegrams: link.go removes the CRCs
-- of crc.go, tpl.go walks the transport layer, crypto.go and cmac.go decrypt, and telegram.go
-- wraps the payload in a wired response and lets decode.go decode it. cmd/mbusctl is a command
-- line tool on top of the wired package: it parses addresses, opens a transport, runs one scan,
-- read or address change on a Client, and prints the outcome.
--
-- Which file is which part:
-- - Prelude, Prelude/: shared names, lists and integers over the native numbers, and bit
--   operations as arithmetic. No code of the repository.
-- - Result: Go's (value, error) pairs and the errors of the package. An index out of range and a
--   loop out of fuel are faults, which the safety properties exclude.
-- - Encoding: encoding.go, each function under its own name (uintToBCD is uint_to_bcd, and so on).
--   A uint64 is a number with its wrap-around written out, an int64 an integer.
-- - Frame, Frame/ShortFrame, Frame/LongFrame: frame.go, a method for each accessor.
-- - Commands: commands.go, and the two address validators of gombus.go.
-- - Read: parseLongFrame of read.go.
-- - Units, Units/: unit.go with all of its tables, and Units/Codes: the codes of vif.go.
-- - Field, Field/Medium, Field/DeviceTypes: field.go and the constants of constants.go.
-- - DateTime: datetime.go up to assembleDateTime; the functions that change a record are in
--   Record/Time.
-- - Floats: the type float64 as a parameter of the decoders, a record of the operations that the
--   package uses. No property depends on rounding.
-- - Record, Record/Time, Record/Lvar, Record/Value, Record/Decode: the data records of decode.go.
--   A record that the source changes through a pointer is passed in and returned.
--   Record/Embedded/Area has the grammar of a data area, IsArea, and Record/Confined/Area holds the
--   walk against it.
-- - Response, Response/Text, Response/Decode: DecodedFrame, LongFrame.Decode and the accessors of
--   decode.go; encodeManufacturer of scan.go.
-- - Response/FixedTable, Response/Fixed: decode_fixed.go.
-- - Query: records.go.
-- - Client: the type Client of gombus.go, NewClient, Close and WriteFrame. A method is a function
--   from the client to its result and the client after it. The connection is a script: a list of
--   what each round of fill meets, of the outcomes of WriteFrame, and of what the other tests of the
--   context find.
-- - Client/Fill: fill, ReadLongFrame, ReadSingleCharFrame and wrapFillErr of read.go.
-- - Client/Clock: frameDeadline, isTimeout, and what one round of fill meets by the clock.
--   Client/Debug: readAnyAndPrint.
-- - Transports: conn.go, serial.go and tcp.go.
-- - Client/Walk: ReadAllFrames and ReadSingleFrame of gombus.go.
-- - Scan: the addresses, masks, filters and selection frame of scan.go, and isBusNoise.
--   Scan/Probe: its probes and selections, and ScanPrimary, as methods of Client. Scan/Search:
--   ScanSecondary, with the mask and the addresses found as its state. Scan/Search/Bus: a bus of
--   slaves, for what the search finds: which slaves a mask selects, what is heard of them, the
--   exchanges of a search in their order, and the frame of each. Acknowledgements that overlap into a clean one are no
--   clash there.
-- - Mbusctl: cmd/mbusctl/main.go, its errors, exit codes and printer; Mbusctl/Bus its flags, dial
--   and withClient, and Mbusctl/Run the choice of the command. Mbusctl/Target: addr.go.
--   Mbusctl/Json: json.go. Mbusctl/ReadCommand, Mbusctl/SetAddress and Mbusctl/ScanCommand: read.go,
--   setaddr.go and scan.go of that directory. A command is a function from its arguments and stdout
--   to an Outcome: its error, the transport that it tried to open, the frames that it sent, and
--   stdout.
-- - Response/Digits: decimal digits, as strconv and fmt handle them.
-- - Client/Sends: which frames a session sends, for the proofs.
-- - Wireless/Crc, Wireless/Link, Wireless/Transport, Wireless/Telegram: crc.go, link.go, tpl.go
--   and telegram.go of wmbus; transport is Transport, and its field data is body.
--   Wireless/Transport/Written: the layers as a description, and the bytes that they are written to.
-- - Wireless/Cipher: crypto.go and cmac.go of wmbus. AES is a record of two functions on blocks.
-- - Tests: the properties at concrete inputs.
-- The other children of these modules hold proofs, and are named for what they prove.
--
-- Bounds and fuel: the loops over a chain of extensions run on maxExtensions, as in the source.
-- The walk over the data area runs on the length of the area, which is enough because every round
-- reads a byte or more; running out would be a fault. Bytes are numbers, and the properties of
-- code that depends on their range have the hypothesis that they are below 256. The digits of a
-- shown number run on 19, the digits of an int. The read loops of a client run on the rounds left
-- in its script and one more, since every fill uses a round; a script that is used up is a fault.
-- The loop of ReadAllFrames runs on 66, two more than its bound on the frames. The answer loop of
-- a probe runs as the read loops do, and the secondary search on its eight digits. The blocks of
-- format A run on the length of the payload, and the layers of a telegram on its length and one
-- more.
--
-- Not modelled: what go.bug.st/serial and package net do, which Transports takes as parameters; a
-- Client runs on a script of what its calls on a connection meet, and not on a Conn. Of
-- cmd/mbusctl the flag package, the JSON encoder, opening a transport and the texts of floats,
-- times and errors are fields of the record Environment, and the texts on stderr are left out. AES
-- is crypto/aes, so it is a parameter; the properties that need it say what they rely on. The
-- script of a connection is any, and only the liveness property of Client/Clock relies on time
-- passing; no property relies on a context staying ended. Log messages and the texts of errors are
-- left out: an error is the sentinel it wraps, or one name for each message. strings.ToLower is
-- modelled on ASCII letters. The fields Exponent, Type and Quantity of DecodedDataRecord, which no
-- code sets, are left out.
pub mod Prelude
pub mod Result
pub mod Encoding
pub mod Frame
pub mod Commands
pub mod Read
pub mod Units
pub mod Field
pub mod DateTime
pub mod Floats
pub mod Record
pub mod Response
pub mod Query
pub mod Wireless
pub mod Client
pub mod Scan
pub mod Transports
pub mod Mbusctl
pub mod Tests
