-- ===== src/FileRecorder.antt =====
-- src/ConsumerFileRecorder.cxx: the recording of data blocks to files. File is the handle of one
-- file, Name its name, Files the files of a recorder, and Push what it does with a block.
pub mod File
pub mod Name
pub mod Files
pub mod Push
mod Tests
