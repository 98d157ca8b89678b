-- ===== src/Lib.antt =====
-- A verification library for tailfeather, a Tailscale client in Rust for a microcontroller with
-- no allocator. It models the parts of the code that keep state or parse what a peer sends, and
-- proves what makes them correct.
--
-- The program. `crates/wg-core` is WireGuard: the Noise handshake, and per peer a session that
-- seals and opens data messages, with a replay window and timers. `crates/ts-noise` is the
-- ts2021 control channel, whose record layer carries the HTTP/2 of `crates/micro-h2`;
-- `crates/ts-control` speaks the control protocol over it and `crates/ts-netmap` reads the
-- network map that comes back. `crates/ts-derp` and `crates/ts-disco` reach peers by relay and
-- find paths, `crates/ts-keys` keeps the keys, and `firmware` binds all of it to the radio and
-- translates addresses. `harness` and `crates/ts-conformance` test the crates against real
-- peers.
--
-- The files. `Wg.antt` and the modules under it model wg-core: `Wg/Budget.antt` is budget.rs,
-- `Wg/Timers.antt` timers.rs, `Wg/Replay.antt` replay.rs, `Wg/Ip.antt` ip.rs,
-- `Wg/Messages.antt` messages.rs, `Wg/Crypto.antt` the ciphers of crypto.rs and
-- `Wg/Crypto/Handshake.antt` its hashes, keys and exchange, `Wg/Session.antt` transport.rs,
-- `Wg/Noise.antt` noise.rs, `Wg/Error.antt` the errors of lib.rs and `Wg/Device.antt` its
-- device and peers, with `Wg/Device/Handshakes.antt` for the handshakes, `Wg/Device/Data.antt`
-- for data, `Wg/Device/Polls.antt` for timers and `Wg/Device/Udp.antt` for the datagrams that
-- arrive: these call the session, the timers and the handshake as the source does. `H2.antt`
-- and the modules under it model the header compression of micro-h2, in src/hpack:
-- `H2/Hpack/Integer.antt` the integers of decode.rs and encode.rs, `H2/Hpack/StaticTable.antt`
-- static_table.rs, `H2/Hpack/Dynamic.antt` dynamic.rs, `H2/Hpack/Huffman.antt` huffman.rs,
-- `H2/Hpack/Decoder.antt` decode.rs and `H2/Hpack/Encoder.antt` encode.rs; `H2/Frame.antt`
-- models its frames, frame.rs. `Noise/Record.antt` models the record layer of ts-noise,
-- record.rs, and `Noise/Early.antt` the reader of the payload before HTTP/2, early.rs.
-- `Derp.antt` models the frames of ts-derp, frame.rs, `Disco.antt` the messages of ts-disco,
-- message.rs, and `Keys.antt` with the modules under it the text of keys and the stored
-- identity of ts-keys, encoding.rs and store.rs. `Netmap/Frame.antt` models the framing of map
-- responses of ts-netmap, frame.rs, with the loop of harness/src/control.rs that drives it, and
-- `Netmap/Scanner.antt` with the modules under it the JSON scanner, scanner.rs.
-- `Nat/Table.antt` models the tables of flows of firmware/src/nat.rs, `Nat/Udp.antt` its UDP
-- datagrams and `Nat/Checksum.antt` its checksums and that of firmware/src/inner.rs. Modules
-- below these hold the lemmas and the theorems, the Tests modules runs at concrete inputs.
-- `Common.antt` has the lists, bytes, bits, texts and results that all parts share.
--
-- The correspondence. A struct is a record, an enum a data type, and a method a function from
-- the state (and the caller's buffer) to the state and the buffer as it leaves them and its
-- result; `Result` is `Result`, and `?` is `>>=`. Bytes are numbers below 256, buffers and
-- slices lists of them. Integers are natural numbers, with the wrap-around of a machine word
-- written out where an operation can reach it; `usize` has the 32 bits of the firmware where an
-- integer is cast to it. A callback is the list of its calls.
--
-- Loops. A loop over a slice is a recursion on the list. The others count rounds: `encode_more`
-- has nine, since each divides what is left of a 64-bit number by 128; `evict_loop` has one for
-- each entry, since each takes one away; `decode_rounds` has one for each byte, and answers
-- `none` if they are used up, which is shown not to happen; `build_lengths` has one for each
-- code length; `settle`, the loop of the scanner at one byte, has two, and `push_loop`, the
-- same loop as it is written, two for each byte; `fold`, which folds a checksum, three, as the
-- reader of the early payload has; `poll_timers_from` and `poll_handshakes_from` have one for
-- each peer; `allocate_index` has as many as it is given, one more than twice the number of
-- peers being enough if the generator does not repeat itself; `drive` has as many as it is
-- given, two for each byte and two more being enough.
--
-- Parameters. The cipher of the crate chacha20poly1305 is the record `Aead`; the theorems that
-- rely on it assume `IsAead`: the lengths of its output, and that decryption undoes encryption.
-- The hashes and the curve of the handshake are the record `Primitives`, with `IsPrimitives`
-- for the lengths, the agreement of the exchange, and that a public key made of a secret is no
-- low-order point. The generator behind the trait `Rng` is a function on a state of its own.
-- The consumer of the scanner's tokens is a function with a state of its own. For the stored
-- identity, what the curve's crate keeps of the bytes of a secret, the random generator and the
-- store are functions. An error ends a scan, so no scanner comes back with it.
--
-- Not modelled: the state machines of the HTTP/2 connection, the control client and the relay
-- client, which stand on the parts modelled here; the handshake of ts-noise, which is calls of
-- other crates; the map parser; the rewriting of TCP segments; the firmware's drivers and
-- tasks; the harnesses and the conformance programs, which only test.
pub mod Common
pub mod Wg
pub mod H2
pub mod Noise
pub mod Derp
pub mod Disco
pub mod Keys
pub mod Netmap
pub mod Nat
