-- ===== src/Lib.antt =====
-- The conformance subscriber of the Edge feeds (tools/conformance): it decodes the datagrams of a feed,
-- puts them in sequence, and judges them against the rules of the specifications.
--
-- A datagram passes from the frame decoder (tools/conformance/wire/decode.go, `Wire/Decode`) to the
-- sequencing state of its channel instance (tools/conformance/engine/state.go, `Engine/State` and
-- `Engine/Dedup`): an era order shared by the ports of a channel, a reorder buffer, and a ring of
-- hashes. What leaves the buffer is classified; the detectors keep the books of
-- tools/conformance/engine/book.go (`Engine/Book`) and tools/conformance/engine/mbp_book.go
-- (`Engine/MbpBook`), the first on the bounded sets of tools/conformance/engine/idwindow.go
-- (`Engine/IdWindow`). The oracle of tools/conformance/engine/oracle.go (`Engine/Oracle`) compares a
-- completed snapshot with the book. The structural rules of tools/conformance/engine/tier1.go
-- (`Engine/Tier1`) read one frame through the accessors of tools/conformance/engine/fields.go
-- (`Engine/Fields`) and the layouts of tools/conformance/engine/instrdef.go (`Engine/Definition`). The
-- market-by-price detector of tools/conformance/engine/mbp.go (`Engine/Mbp`) keeps a ladder, a baseline
-- and a journal for each instrument, and checks each snapshot group against them. Of the market-by-order
-- detector of tools/conformance/engine/gate.go, the tracker of an instrument with the numbers of its
-- deltas (`Engine/Mbo`) decides when a referential anomaly may be charged to the publisher. What a rule emits
-- becomes a finding in `emit` of tools/conformance/engine/engine.go (`Engine/Emit`). Findings are named by the registry (tools/conformance/core,
-- `Core`) and counted by the aggregator of tools/conformance/report/sink.go (`Report/Sink`). The builder of test frames
-- (tools/conformance/wire/wirebuild/build.go, `Wire/Build`) says what a publisher sends.
--
-- `Base` holds what the components share: Boolean tests, lists and maps over native numbers,
-- little-endian byte fields (`Base/Bytes`), and the results of code that can panic or run out of fuel
-- (`Base/Exec`). `Finishes m P` says that the code returns and that its value satisfies P.
--
-- How the state corresponds:
-- - A Go map is an association list with one entry for each key. A method that changes its receiver
--   returns the new one. A read out of a slice's range is `panic`.
-- - A fixed-width counter that can wrap is taken modulo its width. The counters of a run's findings and
--   of the datagrams dropped in a row are machine integers that cannot wrap in practice and are
--   natural numbers; the reorder window and the limit of a set are not negative.
-- - `walkMessages` runs on fuel, one more than the datagram's bytes: each round takes a byte at least.
--   Every other loop is a recursion on a list.
-- - container/heap is the sorted list of the heap's items: its documented pop returns the least item,
--   and the arrival number makes the order strict. hash/maphash is a parameter, and so is
--   `diffSignature` of the oracle, the text of a difference.
-- - A rule's call of `Emit` is a value (`Emission`): its arguments without the detail text, and no
--   instrument for a call of `emitNoInstrument`. A handler returns its state and its emissions in order.
-- - A tracker of the market-by-price detector is shared by pointer; here a handler takes it from the
--   state and stores it again. Whether the channel's snapshot series is dirty is an argument.
-- - A tracker of the market-by-order detector takes what the engine says of the ports as arguments
--   (`DeltaPlace`): whether market data and snapshots are without loss, and whether the snapshot port
--   was seen. The hash of a delta's body is an argument.
-- - The order of eras is shared by pointer between the ports of a channel; here each function takes it
--   beside the tracker and returns it.
--
-- Not modelled: the other detectors (refdata.go, tob.go, midpoint.go, mbo.go, and of gate.go the
-- snapshot trackers and groups, the batch rules and the referential rules) with what the oracle's
-- gates read of them, the capture readers (gopacket and sockets), the reporters that write JSON, logs
-- and metrics, and the command line. The free-form detail of a finding, the time, and the source
-- address, which only output shows, are left out.
pub mod Base
pub mod Core
pub mod Wire
pub mod Engine
pub mod Report
