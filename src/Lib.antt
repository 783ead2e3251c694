-- ===== src/Lib.antt =====
-- MyDatabaseEngine: a small SQL engine in C++. The SQL pipeline cuts a text into tokens, parses
-- them to a statement, turns the statement into a logical plan, that into a physical plan, and
-- runs the tree of operators built from it over tables in memory; INSERT, UPDATE and DELETE change
-- the tables and log their writes in a transaction, which a manager commits or rolls back, with
-- locks and a write-ahead log beside it. A buffer pool keeps pages of a file in memory, and a table
-- heap keeps rows in its pages, apart from the tables of the pipeline.
--
-- Files and the code that they model:
--   Common          shared names; Text is std::string (a list of bytes, ordered by unsigned bytes),
--                   Dict is std::unordered_map as an association list in its iteration order
--   Lexer           include/token.h, include/lexer.h, src/lexer.cpp; Lexer.Total is about
--                   its loops, Lexer.Words about words
--   Parser          include/parser.h, src/parser.cpp; Parser.Total is about its loops and the end of
--                   the tokens, Parser.Grammar about the syntax trees of expressions, Parser.Case
--                   about keywords in lower case, with their evaluation in src/executor.cpp
--   Ast             include/ast.h, include/row.h
--   Doubles         std::stod and the comparison of doubles, as a parameter
--   Expr            src/executor.cpp: resolveExpr, compareValues, evaluateExpr, extractLiteral
--   Mvcc            include/mvcc.h
--   Plan            include/logical_plan.h, include/physical_plan.h, src/optimizer.cpp
--   Operator        include/operator.h and the seven operators; next and drain (the pull loops)
--   Operator.Open   the open methods; Operator.Compare the comparison of include/sort.h
--   Operator.Rows, Operator.Opened, Operator.Join, Operator.Columns
--                   the rows that operators stand for, by relational algebra on lists
--   Executor        src/executor.cpp: build, execute; Executor.Query, Executor.Select and
--                   Executor.Join compare a run with the meaning of a plan, of a SELECT and of a join
--   Transaction     include/transaction.h
--   Dml             src/executor.cpp: executeInsert, executeUpdate, executeDelete, executeCreateTable;
--                   Dml.Effects has what they do to tables and log, Dml.Selected describes the rows
--                   that a WHERE selects and the records without the code's own functions
--   Lock            include/lock_manager.h, src/lock_manager.cpp
--   RowCodec        the text form of a row, in src/wal.cpp and again in src/table_heap.cpp
--   FileStream      the std::fstream operations that the log and the disk manager use
--   Wal             include/wal.h, src/wal.cpp; Wal.Recover is WAL::recover
--   Page, Disk      include/page.h, include/disk_manager.h, src/disk_manager.cpp; Disk.Pages is about
--                   the pages of the file
--   BufferPool      include/buffer_pool.h, src/buffer_pool.cpp; Cache has its invariant, Evict, Fetch,
--                   Create and Flush its calls, and Run the sequences of calls
--   SlottedPage     src/table_heap.cpp, what it does to the bytes of one page; Memory, Layout, Slots,
--                   Written, Insert and Clear are about the order of the page
--   TableHeap       include/table_heap.h, src/table_heap.cpp, its calls over the buffer pool; Heap,
--                   Create, Rows, Delete, Update and Scan are about the calls, Pinned about the pages
--   BTree           include/btree.h and src/btree.cpp, the operations on one node; Leaf is about a search
--                   behind an insertion, Sorted about the order of the keys
--   TxnManager      include/txn_manager.h
-- An Examples module beside a component runs it on small inputs.
--
-- State is passed explicitly: an operator with its cursors and buffers, the tables, the transaction
-- behind a pointer, the manager, the stream. A thrown std::runtime_error is Outcome.throws with the
-- message, a read out of bounds Outcome.undefined; the lexer, the parser and the storage have
-- error types of their own, LexError, ParseFailure and StorageError, for what their messages say.
-- References to one object are one value that the call returns changed.
--
-- Fuel: next counts the nesting of operators and the rounds of the Filter and HashJoin loops, and
-- drain the rows; cost, opened_cost, open_fuel and query_fuel are bounds that are proved to be
-- enough. The loop of deserializeRow takes the length of its text, a log is read with one round more
-- than it has bytes, and a text with one round more than it has characters; each round consumes some.
-- The parser takes four calls for each token, since a parenthesis goes down four levels. scan counts
-- the page ids before INVALID_PAGE_ID.
--
-- Parameters: std::stod with the order of doubles (nothing is assumed of which texts are numbers;
-- the order seen from the other side is the flipped one), std::sort (a function of the comparison
-- and the rows; the results here hold for any), the unset prevLsn of a log record, and the byte that
-- the compiler leaves unused in a new slot.
--
-- Not modelled: printing, the mutex (each locked call is one step), disk errors (badbit), the
-- iteration order of a hash map (insertion order stands for it), a client other than the table heap
-- that writes into a page of the buffer pool behind its Page*, and of the B-tree the text form of a
-- node, the pages that hold the nodes, and the calls that go from node to node.
pub mod Common
pub mod Ast
pub mod Doubles
pub mod Expr
pub mod Mvcc
pub mod Plan
pub mod Operator
pub mod Executor
pub mod Transaction
pub mod Dml
pub mod Lock
pub mod RowCodec
pub mod FileStream
pub mod Wal
pub mod TxnManager
pub mod Page
pub mod Disk
pub mod BufferPool
pub mod Lexer
pub mod Parser
pub mod SlottedPage
pub mod TableHeap
pub mod BTree
