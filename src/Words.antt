-- ===== src/Words.antt =====
-- The word finders of Project1: findlwt.c (threads) and findlwp.c (processes). Children: `Text` (what
-- the programs use of the C library on strings), `Occurrence` (the records), `Sort`, `Report` (the
-- output file), `Scan` (an input file), `Threads` (findlwt.c), `Record` (the line that a child sends),
-- `Pipe` (sending and receiving), `Processes` (findlwp.c), `Same` (both programs write the same file),
-- `Tests`.
pub mod Text
pub mod Occurrence
pub mod Sort
pub mod Report
pub mod Scan
pub mod Threads
pub mod Record
pub mod Pipe
pub mod Processes
pub mod Same
mod Tests
