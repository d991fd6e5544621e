-- ===== src/Lib.antt =====
-- Verification of the otic library: a format for time series of sensors, its writer and its reader.
--
-- The program. A container (`otic_pack_t`) has channels; a channel collects records in a buffer,
-- compresses the buffer and hands it, behind a header, to the flusher of the container. Values are
-- injected with a time, a name and a unit: the time is written when it changes, a name with its
-- first value, and a value that is the same as the last as a short record. The reader
-- (`otic_unpack_t`) fetches headers and blocks, decompresses a block of a channel that was defined
-- and calls the flusher of that channel for every row.
--
-- The files, and the code that each models:
--   Base, Base/Types, Base/Oval: include/core/base.h and src/core/base.c, the shared types.
--   Leb128: leb128_encode_unsigned, leb128_decode_unsigned, and in Leb128/Signed the signed pair, of
--     src/core/base.c.
--   Pack/Channel, Pack/Entries: otic_pack_channel_t, the writers of bytes and the hash table of
--     sensors, src/core/pack.c. Chains are lists, the buffer is the list of its bytes.
--   Pack/Put, Pack/Inject: otic_ts_handler and otic_pack_channel_inject_bool, _i, _i_neg, _d, _s, _n
--     and _b. `put_*` is the middle of an injection, between its time and its row count.
--   Pack/Flush: otic_pack_channel_flush and otic_pack_flush_if_flushable.
--   Pack/Container: otic_pack_t and the life of its channels.
--   Pack/Array: write_array, and the entry of a sensor of arrays.
--   Unpack/Channel, Unpack/Read, Unpack/Array, Unpack/Block: the readers of records and of blocks,
--     src/core/unpack.c.
--   Unpack/Container, Unpack/Parse: otic_unpack_t, the life of its channels, otic_unpack_parse.
--   Unpack/Kept: what every record of a block leaves alone, and the loop over a block.
--   Unpack/Generate: otic_unpack_generate with otic_unpack_getNext and otic_unpack_getLine; its child
--     Lines compares the lines with the block parser, Rounds is about the loop over headers.
--   Codec: packing and reading together. Codec/Reads follows the block parser, Codec/Records and
--     Codec/Headers have one record each, Codec/Table, Codec/Units and Codec/Matches the two tables of sensors,
--     Codec/Sync what is the same on both sides, Codec/Puts the values, Codec/Times the times,
--     Codec/Inject and Codec/Injections the injections, Codec/File and Codec/Holds the file between
--     both, Codec/Begin and Codec/Close the ends of a file, Codec/RoundTrip the whole. Codec/Accept is
--     about when an injection is taken at all, Codec/Generate about blocks that
--     the generator reads, and Codec/Arrays about arrays.
--   Utility/Aggregator, Utility/TimeSeries: src/utility/aggregator.c and src/utility/timeSerie.c, with
--     the order of double in Base/Double.
--   Demo/Tsv: demo/tsvParser/tsvParser.c, a table that becomes a file, in Demo/Tsv/Compress, and rows
--     that are printed, in Demo/Tsv/Print. Its children Columns, Lines and Whole follow a table through the
--     conversion, Fuel is about its loops, and Numbers and Printed compare what is printed with what
--     is injected for it.
--   Utility/Format, Utility/ErrHand: src/utility/format.c and src/utility/errHand.c.
--
-- The model. Bytes are numbers; a uint64_t and the other widths wrap where the source computes in
-- them. A double is its pattern of 64 bits, and its arithmetic (`Floating`) is a parameter, as are
-- the compressor and decompressor of zstd (`Zstd`), strtod and the printing of a double, the
-- flusher of the container and the fetcher and seeker of the reader. What is relied on of zstd is
-- `ZstdLaws`, and for the success of a compression `Taking`, which asks for a capacity of
-- ZSTD_compressBound; examples meet both. A read or write outside a buffer or a table of the
-- reader, and a shift that C does not define, is `none`. The writers of the packing channel do not
-- look at the end of their buffer, and neither does the list that stands for it: it is the buffer
-- of the source as long as its length is at most the size, and `Following` has it at most 300
-- bytes above a threshold that is 512 bytes before the end. The memory behind a text that is
-- stored without its terminator is the field `stale` of the channel, which is empty where a zero
-- follows; an allocation that is tested succeeds or fails as a flag says, but for those inside the
-- initialisation of a channel, which succeed; memory that was not initialised holds a parameter.
-- The loop over the records of a block has as much fuel as there are bytes, and each round takes
-- one; the loops of the LEB128 code have fuel above the value, which falls, and the signed encoder
-- has ten rounds; arrays have three times the bytes that are left, and three; the loops over the
-- lines and the chunks of a table have one round more than there are characters, and each takes
-- one at least; the loop of otic_unpack_getNext takes two bytes with each round, so more fuel than
-- bytes is enough.
--
-- Not modelled: otic_pack_channel_inject_array, which keeps pointers to elements that are null,
-- freed or left from a text of the same sensor; objects; of src/utility the comparison of files,
-- which is input and output around a pair of readers; the allocations of otic_str_t and of arrays;
-- the PHP binding, the other demonstrations, the command line of the converter and the tests,
-- which are glue around the library.
pub mod Prelude
pub mod Leb128
pub mod Base
pub mod Pack
pub mod Unpack
pub mod Utility
pub mod Demo
pub mod Codec
