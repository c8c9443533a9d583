-- ===== src/Lib.antt =====
-- Readout: models and proofs of the core of the data acquisition process.
--
-- The program moves blocks of data from equipments to consumers. Memory banks are cut into pools of
-- pages; an equipment gets a page from its pool, has it filled, and tags the block with a timeframe
-- from its first raw data header (RDH); the aggregator puts consecutive blocks of one source and
-- timeframe in slices, and slices in subtimeframes; consumers take these, and the last reference to a
-- page puts it back in its pool.
--
-- The parts, and what they model (paths from the root of the repository):
-- - Fifo: the queue of the Common library, which is not in the repository, as an interface with its
--   documented behaviour; Fifo/Bounded is a queue that meets it, for the tests.
-- - Counter: src/CounterStats.cxx and .h. `set` is `set_value` here; the floating-point formula of a
--   bin is a field of the record.
-- - Memory/Page: class MemoryPage of src/MemoryPagesPool.h and .cxx, with the readings of the
--   clock as arguments.
-- - Memory/Pool: class MemoryPagesPool; the constructor is in Memory/Pool/Create. The addresses are
--   numbers, the thresholds fractions. A null pointer is 0, an exception is `none`.
-- - Memory/Banks: src/MemoryBankManager.cxx and .h; a pool is created in a range of a bank by the
--   constructor of Memory/Pool/Create.
-- - DataBlock: src/DataBlock.h.
-- - Aggregator/Slicer: class DataBlockSlicer of src/DataBlockAggregator.cxx and .h. A data set is a
--   list of blocks, and a map is a list in the order of its keys.
-- - Aggregator/Stf: the buffer of subtimeframes in DataBlockAggregator::executeCallback.
-- - Aggregator/Callback: DataBlockAggregator::executeCallback itself, over the two above.
-- - Rdh: src/RdhUtils.cxx and .h, and the fields of src/RAWDataHeader.h, decoded.
-- - Equipment/Timeframe, Equipment/Detector, Equipment/PageCheck, Equipment/Links:
--   src/ReadoutEquipment.cxx and .h, the timeframe of a block, the detector field with the runs of the
--   trigger processor, and in processRdh the check of the packets of a page and the statistics of the
--   links; Equipment/Process is processRdh as a whole.
-- - Equipment/Thread: threadCallback and getBlock of src/ReadoutEquipment.cxx. The device and the clocks
--   are a parameter; a run is any sequence of calls of the thread and of the aggregator.
-- - RateRegulator: src/RateRegulator.h, in whole microseconds, the period an exact fraction.
-- - Consumer: src/Consumer.cxx and .h; the pushData of a block, which each consumer defines, is a
--   parameter.
-- - FileRecorder: src/ConsumerFileRecorder.cxx. FileRecorder/File is class FileHandle, FileRecorder/Name
--   the variables in the name of a file (createFile), FileRecorder/Files the files of the recorder, with
--   createFile, start and writeToFile, and FileRecorder/Push is pushData. What the system answers
--   (fopen, fwrite, getenv, the time) is a parameter; the shared pointer to a file is the entry of the
--   map of files. A page is written through an interface, which the files of the recorder fill.
-- - Processor: src/ConsumerDataProcessor.cxx; a run is any sequence of calls of pushData and of turns of
--   the loops of the threads, where a call of pushData is one step: runs where a worker takes a block
--   before its tag are left out. The processing library and the next consumer are parameters.
-- - FmqChannel: src/ConsumerFMQchannel.cxx, with src/SubTimeframe.h and getChildBlock
--   of src/DataBlockContainer.h. DDformatMessage: FmqChannel/Checks is the first pass, FmqChannel/Copies the pages of the
--   pool for the copies, FmqChannel/Frames the frames that are pending, and FmqChannel/Format the second
--   pass and the whole. The pages that come in are not changed; those of the pool are a store of bytes,
--   in which messages are addresses. The pool is an interface, and a header is decoded by a parameter.
--   FmqChannel/Pipeline is processForDataDistribution with the threads that format and the sender.
-- - Prelude: tests, lists, machine words and integers that the parts share.
--
-- Numbers of 16, 32 and 64 bits have their wrap-around written out where an operation may reach it;
-- sizes that the source converts to `int` are taken below 2 ^ 31. Times are whole units of a clock.
--
-- Four loops run on fuel: the walks over packets (Rdh, FmqChannel/Packets), the check of a page
-- (Equipment/PageCheck) and the filter of packets (FileRecorder/Push). In the first three each packet but the last one advances by
-- at least one byte, so one more than the bytes of the block is enough; in the last a packet of no
-- length may be looked at twice, so twice as many and two are enough. The results below say that they
-- end.
--
-- Not modelled: locks, since each operation is taken as one step; log messages, dumps and the copies
-- of wrong pages; statistics that are switched off in the source; the page states that the aggregator
-- sets; the drivers of cards, the transports to other processes, the database and the tools, which
-- only call libraries; start and stop of the aggregator and of an equipment, the other consumers and
-- the main program.
pub mod Aggregator
pub mod Consumer
pub mod Counter
pub mod DataBlock
pub mod Equipment
pub mod Fifo
pub mod FileRecorder
pub mod FmqChannel
pub mod Memory
pub mod Prelude
pub mod Processor
pub mod RateRegulator
pub mod Rdh
