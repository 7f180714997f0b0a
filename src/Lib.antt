-- ===== src/Lib.antt =====
-- A verification library for the collaborative text editor: the replicated array that its peers edit,
-- the pipeline and the wire format that connect them, the log lines by which an evaluation observes
-- them, and the scripts that evaluate it.
--
-- Peers edit a shared document. Each keeps a replicated growable array (src/rga.cpp): a sequence of
-- characters, deleted ones included, each with an id made of a Lamport clock and a site. While it runs,
-- a peer logs a LATENCY_SEND line for each operation that it sends and a LATENCY_APPLY line for each one
-- that it applies (src/pipeline.cpp, src/logger.cpp). After an experiment the scripts read these logs
-- and the dumped documents: latencies and drops (scripts/analyze_latency.py), the time until all peers
-- have an operation (scripts/analyze_scalability.py), whether the documents are equal
-- (scripts/analyze_convergence.py), and all of these together (scripts/analyze_results.py). The editing
-- commands of a convergence trial come from scripts/gen_convergence_script.py.
--
-- Which file is about which code:
--   Rga          CRDTEngine of src/rga.cpp and include/rga.h: localInsert, localDelete, applyRemote,
--                canApply, insertNode, rootAncestor, visibleAt, visibleIter, getDocument. The C++ list
--                and its index are one list of nodes. Rga.Queries has getNodeIDs, visibleOffsetOf and
--                loadState. Rga.Invariant says when an engine is valid, Rga.Insertion and
--                Rga.Deletion are about local edits, Rga.Remote, Rga.Delivery and Rga.Commute about
--                those of other peers. Rga.Order, Rga.Paths, Rga.Preorder, Rga.Trees and Rga.Agree
--                compare the sequence with the tree of left neighbours, and Rga.Index,
--                Rga.Histories, Rga.Steps and Rga.Converge with the operations that a peer took in.
--   Pipeline     src/pipeline.cpp: localInsert, localDelete, drainPending, the body of crdtLoop and
--                syncState, each as what one thread does while it holds the lock.
--                Pipeline.Draining is about drainPending, Pipeline.Handling, Pipeline.Delivering,
--                Pipeline.Reordering and Pipeline.Meeting about crdtLoop, Pipeline.Syncing about
--                syncState.
--   Serializer   src/serializer.cpp: the wire format of operations and cursors, and of snapshots
--                (Serializer.State). A buffer is a list of bytes; a read behind its end is a fault
--                of its own.
--   Cursor       src/cursor_sync.cpp: the cursors of the other peers.
--   Peers        src/peer_manager.cpp: the messages and the map of peers. Peers.Callbacks is about the
--                callbacks, Peers.Messages about what a peer makes of another's message, and
--                Peers.Silence about the peers that are heard no more.
--   StateSync    src/state_sync.cpp: readAll, writeAll, handleClient, tryPeerImpl, requestState.
--   Headless     runHeadless of src/p2p-editor.cpp, which runs the scripts of
--                scripts/gen_convergence_script.py (Headless.Parsing, Headless.Generated).
--   Document     what inserting and deleting at a position of a text means: the specification.
--   Logs         the regular expressions and parse_log of the scripts (Logs.Parse), load_subdir and its
--                variants (Logs.Merge), and the messages that src/pipeline.cpp and src/logger.cpp write
--                (Logs.Message). Logs.Lines is about what the lines of one file decide,
--                Logs.Directory about a directory.
--   Latency      analyze_subdir of scripts/analyze_latency.py and of scripts/analyze_results.py.
--   Stats        percentile, min, max, sum and mean as both use them.
--   Convergence  analyze_trials of scripts/analyze_convergence.py and analyze_convergence_trials of
--                scripts/analyze_results.py; Convergence.Meta reads meta.txt, Convergence.Trial a
--                trial's directory; Convergence.Rows has the rows of write_csv.
--   Scalability  compute_metrics and detect_bottleneck of scripts/analyze_scalability.py and their
--                counterparts in scripts/analyze_results.py, with its analyze_scalability.
--   Commands     main of scripts/analyze_latency.py and of scripts/analyze_scalability.py, of
--                scripts/analyze_convergence.py (Commands.Trials) and of scripts/analyze_results.py
--                (Commands.Everything).
--   Csv          what Python's csv module writes, and a reader of it.
--   Tables       write_csv of the four scripts.
--   Printing     what they print: print_table of scripts/analyze_latency.py and print_summary_table of
--                scripts/analyze_results.py (Printing.Latencies), print_report and
--                print_convergence_report (Printing.Trials), print_table, print_bottleneck and
--                print_scalability_table (Printing.Peers). Printing.Warned and Printing.Converged are
--                about what the reader is told.
--   Script       main of scripts/gen_convergence_script.py.
--   Files        what the scripts ask of the operating system, as an interface.
--   Text, Dict, Sort, Base
--                Python's strings, dictionaries and sorted, and the shared helpers.
--   Tests        concrete runs.
--
-- State is passed explicitly; an exception is `none`. Numbers are unbounded naturals: the C++ clock is an
-- int, which its peers do not exhaust, and Python's integers have no bound. A float that stands for a
-- count of microseconds is that natural number; quotients are exact fractions, and the index of a
-- percentile is the floor of n * p / 100, from which Python's float product does not differ for any
-- number of samples below 2^46. The file system does not change while a script runs.
-- What a script writes is modelled as text: opening the file that it goes to, the encodings of files and
-- of the terminal, and the exceptions that these raise, as for a directory's name with a lone surrogate,
-- are left out.
--
-- The loop of rootAncestor runs on fuel, the number of nodes, and its result says whether it returned
-- (root_loop in Rga). In a valid engine it does: each step goes to a node further to the front
-- (Rga.Roots). decodeState also takes snapshots that give no valid engine, in which the C++ loop may run
-- forever; root_ancestor has the sentinel there, and a theorem that says that insertions are applied
-- asks for a new or a valid engine, or for a valid state. In an engine with two nodes of one id, too, the
-- C++ index has the last of them and the list search here the first. The search for the pairs of meta.txt
-- runs on the length of the text plus one, and takes a character in each round. The passes of
-- drainPending run on the number of pending operations: each pass but the last applies one. readAll runs
-- on the number of bytes that it is asked for: each round reads one at least.
--
-- Clocks are naturals in Rga and Pipeline; on the wire they are 32-bit integers, which can be negative.
--
-- A socket is what comes in over it, in pieces or datagrams, and what is sent. The connection to a peer
-- that asks for its state is a parameter of requestState, or none if the address is not resolved or
-- nobody accepts there before the deadline. How Python shows a float with some decimals is a parameter
-- of the tables.
--
-- Not modelled: the system calls on sockets (src/peer_socket.cpp and their part of src/state_sync.cpp),
-- the starting and stopping of threads, the queues between the threads of src/pipeline.cpp with their
-- loops that send and receive, the log lines that src/pipeline.cpp writes while it loads a snapshot, the
-- terminal of src/editor_ui.cpp with the rest of src/p2p-editor.cpp, and the charts of the scripts with
-- the messages that name files and missing data.
pub mod Base
pub mod Text
pub mod Dict
pub mod Sort
pub mod Stats
pub mod Files
pub mod Logs
pub mod Latency
pub mod Convergence
pub mod Scalability
pub mod Document
pub mod Rga
pub mod Script
pub mod Serializer
pub mod Pipeline
pub mod Cursor
pub mod Commands
pub mod Csv
pub mod Tables
pub mod Peers
pub mod StateSync
pub mod Headless
pub mod Printing
mod Tests
