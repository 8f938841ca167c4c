-- ===== src/Lib.antt =====
-- The Leitner vocabulary trainer: a library about its C code.
--
-- The program keeps the items of a vocabulary file in six boxes, plays the items of a box with the
-- user, and moves each one to box 0 or to the next box. The state of the boxes stands in a meta file
-- that is mapped into memory, so that the next run goes on where the last one ended. Beside this core
-- the program has an index of the vocabulary file, tables of enumerators for a richer data model, a
-- parser of data files, a pool of objects in slabs, and helpers on text.
--
-- Files of this library and the code that they are about:
--   Common          Booleans, lists, integers and text over the native numbers
--   Boxes/State     struct lt_box, lt_box_meta and ltsys (inc/vs.h, inc/ltsys.h), the table
--                   box_leve_max_vs, lbox_is_full and lbox_is_empty (src/vs.c)
--   Boxes/Move      move_to_lbox up to msync: detach, attach and transfer (src/vs.c)
--   Boxes/Answer    the reading and comparing of the answers in go_lbox_internal (src/vs.c)
--   Boxes/Load      cmd_load (src/ltsys.c)
--   Boxes/Session   make_way (the loop of move_to_lbox), move_to_lbox, go_lbox_internal (src/vs.c)
--   Boxes/Go        go_lbox (src/vs.c) and cmd_go (src/ltsys.c)
--   Boxes/Restore   ltsys_meta_init (src/vs.c)
--   Boxes/Chain, Invariant, Leave, Join, Transfer, Loaded, Valid, GoValid, Stuck, Words
--                   the invariant of the boxes and the proofs
--   Index/Make      cmd_mkidx (src/ltsys.c) and vs_get_newline (src/vs.c)
--   Index/Lines     the lines that an index leads ltsys_init to (src/vs.c)
--   Items/Replace   replace_str2 (src/vs.c)
--   Items/Read      the loop of ltsys_init that makes an item of a line (src/vs.c)
--   Items/Laws, Lines
--                   proofs about both
--   Util/Strip, Decimal, Hash, HashLaws
--                   strip_*, clean_line, decimal and str_hash (src/util.c)
--   Enums/Factory   DEFINE_ENUM (inc/enum_factory.h)
--   Enums/Types, Uw the tables of inc/glue_eng.h and inc/glue.h
--   Enums/Lookup, Tables
--                   the enum types with their two lookups
--   Enums/Offsets, Entries, GlueInfo
--                   the enumerators GLOF_*, and gi_eng (src/glue_eng.c)
--   Parser/Keywords keyword_info and lookup_keyword (inc/keywords.h, src/parser.c)
--   Parser/Lexer    next_token (src/parser.c)
--   Parser/Ltd      valid_name, parse_new_section and parse_ltd (src/parser.c)
--   Parser/Lines, Left, Ending
--                   proofs about texts and about the end of a parse
--   Objpool         struct slab and objpool (inc/objpool.h)
--   Objpool/Ops     create_objpool, init_slab, add_new_slab, objpool_alloc, objpool_zalloc and
--                   objpool_free (src/objpool.c)
--   Objpool/FreeList, Invariant, Pop, Grow, Alloc, Free, Create, Safety, Service, Zero, Again
--                   the free lists, the invariant of a pool and the proofs
--   Commands/Table  the table Cmds (inc/ltsys.h) and the searches in it (src/main.c)
--   Commands/Args   parse_args (src/main.c)
--   Commands/Redirect
--                   setup_redirect and shell_command (src/main.c)
--   Commands/Round  the loop of main (src/main.c)
--   Commands/Modify cmd_help, cmd_lsbox and cmd_modify (src/ltsys.c)
--   Commands/Names, Words, Lines, Piped, Output, Refused
--                   proofs about command lines
--   Vector/Gcd, Laws
--                   GCD, LCM and the slots of objv_init (src/objvec.c)
--   Vector/Ops      objv_alloc, objv_realloc and objv_free (src/objvec.c), cvsp_free of a pool
--                   (src/cvspool.c)
--   Space/NodeId, Ids
--                   the numbers of nodes, id_of_node and node_from_id (src/cvspool.c)
--   Cvsp/Nodes      the free and busy nodes of a trunk (inc/cvspool.h), set_fnode_len, get_fnode_len,
--                   set_bnode_len and get_bnode_len (src/cvspool.c)
--   Cvsp/Trunk      struct cvspool_trunk and cvsp_init_trunk (src/cvspool.c)
--   Cvsp/Alloc      a trunk's part of cvsp_alloc, and add_new_trunk (src/cvspool.c)
--   Cvsp/Pool       cvsp_alloc (src/cvspool.c)
--   Cvsp/Free       cvsp_free on a trunk, and get_bnode_mem_len (src/cvspool.c)
--   Cvsp/Iterate    iter_bnode and cvsp_for_each_bnode (src/cvspool.c)
--   Cvsp/Init       slots_num_adjust and cvsp_init (src/cvspool.c)
--   Cvsp/Ring, Rings, Fields, Tiles, Links, Lengths, Region, Outer, Valid
--                   the ring of free nodes, the nodes one behind the other, and how they are kept
--   Cvsp/Unlink, Split, Divide, Search, Give, Allocation
--                   proofs about allocation
--   Cvsp/MergePrev, MergeNext, Joined, AddLast, Freeing, Branches, Release, Coalesced, Clean, Again
--                   proofs about freeing
--   Cvsp/Fresh, Opened, Adjusted, Serving, Sizes, Visits
--                   proofs about new trunks and pools, pools of trunks, the bytes of a node, and visits
--   Msm/Bytes, Dump the records of a dump (inc/msm.h), dump_to_mem, load_from_mem and their default
--                   functions (src/msm.c)
--   Msm/Save        msm_dump and msm_load (src/msm.c)
--   Msm/Root        msm_register_ds, msm_get and msm_put (src/msm.c)
--   Msm/Cvspool     cvspool_ser and cvspool_ser_getlen (src/cvspool.c), msm_ser (src/msm.c)
--   Msm/Load, Trip, Loaded
--                   proofs about dumps and loads
--
-- How the state corresponds to the code. An item is its line number, which is also its index in itblk;
-- i_list is the kernel list of its box; next_inode_linenr, vs_total, vs_cur_total and ltbm are the
-- mapped meta file. Counters are unsigned numbers of 32 bits and wrap. Where the code reads an item
-- through the head of a list, it reads memory that is no item: the parameter head_read stands for what
-- is read there. The counts of a session are int; they are modelled without overflow, since each is a
-- count of items played. The typed lines are a list; when it ends, fgets fails and the program exits.
--
-- The parser overwrites its text in place. Lexer keeps the characters between the place that is written
-- and the place that is read, so that a brace, which passes over a character without writing, leaves
-- what the code leaves. Its static variables and the uninitialised pcn[3] are parameters of parse_ltd.
--
-- A pointer into a pool is a block that malloc returned with an offset in bytes; a slab is a block, and
-- its objects and the words behind them lie at offsets of the block. Following a null pointer, or a word
-- that is no pointer of a slab, is none. malloc is a parameter of each call: it returns a block that is
-- no slab of the pool. A client is a history of calls that frees only what is in use.
--
-- A trunk's memory is a function from halfwords: slot s of four bytes has the halfwords 2 s and 2 s + 1,
-- and the bytes pad and idx are the two halves of one. A valid trunk is a list of nodes, free and in use,
-- that lie one behind the other from slot 3 to the end, with a ring of the free ones that begins and ends
-- at the head in slot 0. The theorems are about trunks of one block, n + 3 slots up to 2^16; the
-- definitions have the blocks of the code. An address is a trunk's id and a slot. The
-- answers of malloc are a list, one for each call of add_new_trunk; that the trunk is allocated and its
-- memory is not is left out. A failed assertion is none, and so is a search that does not come back to the
-- head. The search has a unit of fuel more than the trunk has slots, and each node has three; the
-- loop of cvsp_init_trunk has as many units, and a round takes a block. The loop of slots_num_adjust has
-- a unit more than slots, and a call for the last trunk makes no other.
--
-- A data source is its name with its pool, and the functions that a type of pool registers are the
-- record PoolOps, of which nothing is asked; those that dump a space are modelled, with the bytes of its
-- structs as parameters, and those that load one are not. An unsigned int in a dump is four bytes, the lowest
-- first. The model of a load keeps each entry of the summary by itself, the code one entry for each
-- source, so a dump with two entries of one name is not covered.
--
-- A line that is too long for its buffer, an index with more entries than its mapping has place for, and a
-- piece of text whose length is no int are outcomes of their own. The counters of a pool of objects are
-- int; the model has them wrap at 32 bits. malloc and the mapping of files in the reading of items are left
-- out.
--
-- The command line is a list of characters. The answers of popen, fopen, pipe and fork are a parameter
-- of each round; strtok and strcmp are written as the C library describes them.
--
-- Fuel. go_lbox, go_lbox_internal and the loop of move_to_lbox call each other, with loops that the
-- user's answers may keep alive for ever: a wrong answer moves an item back to box 0. They run on fuel,
-- and running out of it is an outcome of its own. No amount of fuel
-- is assumed to be enough for a session. parse_ltd has a round for each token. The loop of init_slab has
-- more fuel than the slab has bytes, and a round takes at least eight of them. replace_str2 returns with
-- one unit more than the text has characters if the word is not empty, and the loop of GCD with as many
-- units as its second number.
--
-- Not modelled: printing, files, the shell and readline; signals, which end a session from outside.
-- The kernel lists, trees and bitmaps in the repository are copies of another project. The modes that
-- give a pool a number, the end of a pool, and the loading of each type of pool stand outside, with the dumping
-- of pools of objects and of vectors.
pub mod Common
pub mod Boxes
pub mod Commands
pub mod Cvsp
pub mod Enums
pub mod Index
pub mod Items
pub mod Msm
pub mod Objpool
pub mod Parser
pub mod Space
pub mod Util
pub mod Vector
