-- ===== src/Lib.antt =====
-- A verification library for atat, a Rust library of AT command clients for embedded devices.
--
-- The program. A device sends bytes over a serial line. The ingress (atat/src/ingress.rs) collects them
-- in a buffer and has a digester (atat/src/digest.rs) find messages in it: answers to a command, prompts
-- for data, and URCs, which the device sends unasked. An answer or a prompt goes into the response slot
-- (atat/src/response_slot.rs), in the form of atat/src/response.rs; a URC is parsed by code that
-- atat_derive/src/urc.rs derives, and goes into a channel. A client (atat/src/blocking/ and
-- atat/src/asynch/, with atat/src/config.rs) writes a command and takes the response out of the slot.
-- The device's numbered errors are in atat/src/error/.
--
-- The files.
--   Base        lists over the native numbers, results, the outcomes of a run (a value, a panic, or no
--               more fuel).
--   Extern      the crates that the code stands on, as records of operations with records of laws: nom
--               (Nom), heapless (Heapless), texts of core, heapless and heapless_bytes (Texts),
--               embassy-sync (Sync for a signal and a mutex, PubSub for the channel). Each has an
--               instance that satisfies the laws.
--   Error       atat/src/error/: the enums and their numbers and texts (Cme, Cms, Connection).
--   Response    atat/src/response.rs: `Response<N>` and the conversions.
--   ResponseSlot  atat/src/response_slot.rs, with explicit state. Exchange tells how both sides meet.
--   Digest      atat/src/digest.rs: `AtDigester::digest` and the module `parser`, on any lawful `nom`.
--               Echo, Takes, Bounds, Answers and Urcs hold the lemmas on them.
--   Ingress     atat/src/ingress.rs: `Ingress` and the trait `AtatIngress`. Handled is one message,
--               Reads says what a run of the loop is to come to, Shift and Drain are about that run, and
--               Advance, Write, Serial and Stuck about the functions that start it.
--   Client      atat/src/blocking/: the client, its timer and its retries, and those of atat/src/asynch/.
--               Surroundings is the clock, the writer and the slot that it shares; Timer and Wait are
--               about the two polling loops, Send about `send`, Retry and AsyncRetry about `send_retry`.
--               Async is atat/src/asynch/client.rs, with the loop that may put its deadline off (Waits)
--               and `send` (Send). Simple is atat/src/asynch/simple_client.rs: Port is the line that it
--               reads and writes, Receives tells what it is to receive without its buffer, Buffer and
--               Waits are about its two loops, Send about `send`, Stuck about a
--               full buffer, and TooLong about long responses.
--   SerdeAt     serde_at/src/. Ser is the serializer: Value is what a `Serialize` hands to it, Fields the
--               text that it is to write, Text the digits of numbers, Emits what one method does to
--               the buffer, Writes, Arguments and Command put methods together, and Slice is about
--               `to_slice`. De reads numbers; Digits, Numbers and Signed are about their way there and
--               back. Deserializer is the state of serde_at/src/de/mod.rs, with Text for texts and
--               bytes, Float for floats, Seq for serde_at/src/de/seq.rs and structs, Shape for types that
--               read themselves, and Slice for `from_slice`. Quoted, Elements, Reads, Listed, Others and
--               Answer put together how a struct is read from the text of its fields, Trim is about the
--               whitespace around it, Lines about whole answers, and Heads, Ending and Message about answers
--               that are longer or shorter than their struct. RoundTrip is about structs that are
--               written and read. HexStr is about serde_at/src/de/hex_str.rs, with Write for
--               serde_at/src/ser/hex_str.rs and Digits, Groups, Written and Back for the way between them, and
--               LengthDelimited about serde_at/src/de/length_delimited.rs.
--   Derive      atat_derive/src/: Urc is `AtatUrc::parse` and `Parser::parse` as urc.rs writes them, Len
--               the lengths of types (len.rs, and atat/src/derive.rs), with Fit for the values of a type
--               and Bounds for what they take, Cmd `MAX_LEN` and `write` of cmd.rs, Resp its `parse` on
--               a response, and Enum what enum_.rs writes.
--
-- How the code is modelled. Bytes are native numbers. Functions that change a struct take the state and
-- return it. A panic (a failed assertion, an `unwrap` of `None`, a slice out of range) is the outcome
-- `panic`. The loops of `try_advance`, `advance` and `try_write` run on fuel: the number of received
-- bytes, or of bytes to write, is enough, since each round takes one at least. `write` and `read_from`
-- need not end, so the fuel, or the list of the serial port's answers, is a parameter. The client's
-- polling loops run on any fuel, and as the clock comes to every instant, and a deadline is put off to some
-- instant at most, some fuel is enough; a reading client needs a line that gives bytes in finitely many reads
-- before the deadline. The function of the response timeout sees the world, and does not change it. While the
-- client looks at the clock or writes, the ingress may run, so the world is another one then. Awaiting a
-- future is the state when it completes; that the client runs while `advance` awaits room for a URC is
-- left out, and so are the lines of the log. Additions on `usize` do not overflow, as a position is
-- bounded by the length of a buffer.
--
-- A value to serialize is the tree of the calls that its `Serialize` makes, with characters in UTF-8; the
-- calls that are `unreachable!()` are the case `unsupported`. The types of arguments have at most 32 bits
-- where their size is the target's, and a `char` argument is one byte. A timeout around a read is a
-- deadline that the read knows, as a client awaits nothing else then.
--
-- A type that reads itself is the tree of the calls that its `Deserialize` makes, and the result is the
-- value that its `Serialize` would hand over. The deserializer's slice is kept with the part from its
-- index on. Where an error ends the whole run, its state is not kept. `EofWhileParsingObject`, which
-- a sequence catches, comes with its state. Errors have no messages, as without the feature
-- `custom-error-messages`. The visitors of `String<N>` and `Bytes<N>`, and `f32::from_str`, are parameters.
-- What a vector makes of the elements that it is handed is told by a relation, in Deserializer/Lines.
--
-- Not modelled: floats that are written, which print with the crate core; maps and ignored values of the
-- deserializer, which no derived type asks for; hex strings of arrays; atat_derive/src/parse.rs
-- and the rest of the derive macros, which move tokens; and the URC channel, a wrapper of embassy-sync.
mod Base
pub mod Extern
pub mod Error
pub mod Response
pub mod ResponseSlot
pub mod Digest
pub mod Ingress
pub mod Derive
pub mod Client
pub mod SerdeAt
