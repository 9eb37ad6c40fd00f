-- ===== src/Lib.antt =====
-- A model of panda-lib, a C++ library of basic types: a copy-on-write string, intrusive and
-- owning lists, an event dispatcher, integer codecs and others.
--
-- - BasicString models src/panda/basic_string.h on a 64-bit platform with one-byte characters. A
--   string is its storage (the state and the part of the union that it selects), the offset of
--   `_str` in its region and its length; the heap holds the counted buffers by address. An
--   operation takes the string and the heap and ends in a new pair, in an exception with the pair
--   as it was when it was thrown, or in a fault, which is an access outside of the memory that
--   the string may use. The address that the allocator returns is an argument. The factors of
--   `_reserve_save` are `float` products and come as functions on capacities; the theorems ask of
--   them that the result is no less than the capacity and that it can be allocated. A buffer that
--   `reallocate` moves keeps its address in the model. The union's overlap of the object's own
--   bytes with the buffer's address is not modelled.
-- - Links is the common ground of the two lists: segments of nodes that are linked both ways,
--   what putting a node between two others and taking one out do to them.
-- - OwningList models src/panda/owning_list.h. The list and the fields of all nodes are one
--   record; nodes that were taken out keep their fields. Loops take fuel, and the theorems ask
--   for more than there are nodes.
-- - IntrusiveChain models src/panda/intrusive_chain.h in the same way.
-- - StringView models src/panda/basic_string_view.h. A view is the memory from its pointer on and
--   a length. The loop of find takes fuel of the length plus one, which is enough since every
--   round goes on by a place at least. A pointer that is computed from a place wraps at 2^64, and
--   an offset from 2^63 on is one before the first character. BasicString.Search has the searches
--   that basic_string writes out again.
-- - Optional models src/panda/optional.h, with the comparisons of the values as arguments.
-- - MemoryPool models the block pools of src/panda/memory.h and src/panda/memory.cc. The
--   addresses that operator new returns are arguments.
-- - Expected models the value-or-error union of src/panda/expected.h, its flag beside what lives
--   in the union; Expected.Chain has access and the combinators, Expected.VoidForm the
--   specialisation.
-- - VarInt models src/panda/varint.h on lists of bytes: the codec of 32-bit words, zigzag, and
--   the stack of words that ErrorCode keeps. The encoding loop recurs on the order of numbers;
--   the iterators take fuel of more than the number of words.
-- - Excepted models src/panda/excepted.h: a sum and the mark `_checked`, with Excepted.VoidForm
--   for the specialisation. What a move leaves of a value and of an error are arguments.
--   Excepted.Life runs the life of one excepted to its destructor, through every way to look at
--   it, hand it on or replace it.
-- - FromChars models src/panda/from_chars.cc for integers of any width. `std::isspace` is an
--   argument, and so is the size of the local array, of which the theorems ask that it holds each
--   number of the width.
-- - Refcnt models src/panda/refcnt.h and src/panda/refcnt.cc for one thread: the counts and lives
--   of objects and of weak storages by address, and `iptr` and `weak_iptr` on them.
--   Refcnt.Invariant has the number of pointers that a program holds beside the store; the
--   address of a new object is an argument.
-- - ErrorCode models src/panda/error.h and src/panda/error.cc: the data of nested codes by
--   address on the stack of VarInt, and their texts. The counting of the data is that of Refcnt
--   and is not repeated; what categories say is an argument.
-- - CallbackDispatcher models src/panda/CallbackDispatcher.h on the sequence of listeners; a
--   callback is the script of its calls of `next`, and a call takes fuel of the number of
--   listeners, each of which is passed once.
-- - Log models src/panda/log/log.cc with its header: the modules by address, the data of each
--   with its logger and formatter, the copy of the data that the calling thread keeps, the index
--   by name and the modules that wait for their parents. Loggers and formatters have the same
--   code and are two kinds of one slot. Walks over children take fuel for the depth of the
--   modules, which the theorems ask for. Log.Life has construction and destruction, Log.Send who
--   gets a message, Log.Names the functions that work by name. Log.Multi models
--   src/panda/log/multi.icc, Log.Lines and Log.Pattern src/panda/log/PatternFormatter.icc, whose
--   loops take the length of their text as fuel, and Log.Escape and Log.Pretty the two stream
--   helpers of log.cc.
--
-- Not modelled: streams and allocation failure; the atomic reference counts; listeners that
-- change the dispatcher that calls them; the macros of the log, its clocks, threads beside the
-- calling one, and loggers made of function objects; src/panda/function.h, src/panda/endian.h,
-- src/panda/hash.cc, and the maps and sets with string keys; and the platform code of exceptions,
-- which is calls of system functions.
pub mod Base
pub mod BasicString
pub mod Links
pub mod OwningList
pub mod IntrusiveChain
pub mod StringView
pub mod Optional
pub mod MemoryPool
pub mod Expected
pub mod VarInt
pub mod Excepted
pub mod FromChars
pub mod Refcnt
pub mod ErrorCode
pub mod CallbackDispatcher
pub mod Log
