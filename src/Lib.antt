-- ===== src/Lib.antt =====
-- The four course projects of this repository, modelled and verified part by part.
--
-- Project3/rsm.c, the resource manager (deadlock detection and avoidance), is `Rsm`:
--   Rsm/State     rsm_shared_state. The arrays of the struct are turned into one record for each
--                 process slot; a row of ints is a function of the resource type, of which the first
--                 resource_count entries are used.
--   Rsm/Process   what a process keeps (g_state, g_shm_fd, g_local_apid), map_existing_state,
--                 unmap_state, lock_state, validate_vector_bounds, current_apid_locked.
--   Rsm/Init      rsm_init, rsm_destroy.
--   Rsm/Reduce    the loop over the processes that is_safe and rsm_detection share, against the
--                 relation of all orders of completion (Rsm/Reduce/Step).
--   Rsm/Bank      is_safe, the grant, try_satisfy_waiting.
--   Rsm/Api       rsm_process_started, rsm_process_ended, rsm_claim.
--   Rsm/Request   rsm_request (with the wait that may follow), rsm_release, rsm_detection.
--   Rsm/Inv       the invariant and that every call keeps it; Rsm/Reach any history of calls;
--                 Rsm/Frame what no call changes, Rsm/Bounds how large the numbers get;
--                 Rsm/Deadlock, Rsm/Answers, Rsm/Avoid what the calls answer.
-- A call runs under the mutex, so calls are atomic and a history is a list of calls; the wait of a
-- request that sleeps is a call of its own (`resume`). The answers of the operating system are
-- arguments. Negative entries are turned away by validate_vector_bounds, and the rows of the state
-- are natural numbers, whose size Rsm/Bounds is about.
-- The do-while loop of the reduction has fuel for one round more than there are processes, and
-- try_satisfy_waiting likewise; each is shown to end by its own test within that.
--
-- Project2/tus.c, the user-level threads library, is `Tus`:
--   Tus/Queue     the ready queue, a ring in an array of 64 (rq_init, rq_push, rq_pop, rq_push_front,
--                 rq_remove_tid) and the scheduler (pick_next_tid_by_sched), against a list of tids.
--   Tus/State     the TCB, the table of threads, current_tid, and the lookups (find_slot_by_tid,
--                 get_tcb_by_tid, find_free_slot, allocate_tid, destroy_thread).
--   Tus/Yield     tus_yield and tus_exit; Tus/Api tus_init, tus_create_thread, tus_join, tus_cancel,
--                 tus_gettid.
--   Tus/Inv       the invariant and each call; Tus/Run runs over all switches, and Tus/Reach that
--                 they keep the invariant.
-- Saved contexts and stacks are not modelled as data: a call that ends in setcontext answers
-- `switches t`, and `arrive` is what thread t does first, which is the second return of the getcontext
-- in its own tus_yield if it waits there (its resume_flag says so), and nothing if it is new. rand(),
-- and whether malloc and getcontext succeed, are arguments. tus_join runs between switches, so it is
-- its start and one turn of its loop. pop_all runs for rq_size rounds, allocate_from for 64.
--
-- Project1/findlwt.c and Project1/findlwp.c, the word finders, are `Words`:
--   Words/Text        what they use of the C library on strings (strcmp, strtok_r, getline, strtol, atoi,
--                     isspace, "%d"); a string is the list of its bytes.
--   Words/Occurrence  the records and their growing array (occ_push, pipe_push) and cmp_occurrence;
--   Words/Sort        qsort over it; Words/Report the last loop of both programs.
--   Words/Scan        makeInputFilename and the loops over the lines and tokens of a file.
--   Words/Threads     findlwt.c: worker, the merge, main.
--   Words/Record      the line of a record and parse_record_line of findlwp.c.
--   Words/Pipe        writeToParent and child_process; Words/Pipe/Reader the loop over select and read.
--   Words/Processes   main of findlwp.c.
--   Words/Same        that both programs write the same file.
-- The answers of write, select and read are lists that the functions consume, so each loop ends; `none`
-- stands for a call that has no answer, which is a program that still waits. Words/Pipe/Delivery says
-- which answers deliver the streams of the children. Memory never runs out. A line number stays an int
-- as long as a file has fewer than 2^31 lines, which the theorems assume where it matters. The doubling
-- of a buffer has the capacity that is needed as fuel.
--
-- Project4/mfs.c and Project4/make_mfs.c, the file system, are `Mfs`:
--   Mfs/Bitmap    mfs_get_bit, mfs_set_bit on the bytes of a block.
--   Mfs/Device    mfs_read_block and mfs_write_block over a disk of blocks, with the answers of the
--                 operating system for each operation.
--   Mfs/Alloc     allocate_inode, free_inode, allocate_block, free_block.
--   Mfs/Inode     struct mfs_inode as bytes, read_inode, write_inode.
--   Mfs/Dir       struct mfs_dir_entry as bytes, path_name, find_dir_entry, mfs_getattr, mfs_open.
--   Mfs/Create    mfs_create, mfs_unlink.
--   Mfs/Content   mfs_readdir, mfs_read, mfs_write, and what mfs_unlink leaves on the disk.
--   Mfs/Format    main of Project4/make_mfs.c, and load_superblock.
-- The searches run for as many rounds as the loops of the source; the loops of mfs_read and mfs_write
-- have the number of bytes as fuel, of which each round moves one at least. What only prints is not
-- modelled: rsm_print_state, and the demonstration and test programs.
pub mod Base
pub mod Rsm
pub mod Tus
pub mod Mfs
pub mod Words
