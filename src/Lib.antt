-- ===== src/Lib.antt =====
-- The garbage collector of the Bosque runtime (src/runtime): a generational collector that evacuates
-- young objects and counts references to old ones, with roots found conservatively.
--
-- Parts and files:
-- - Common: src/runtime/common.h and src/language/bsqtype.h: constants, the object header with its
--   macros, type descriptors, and the memory. Words are a function of their address; a header is found
--   by the address of the object behind it; the type pointer of a header is the word that opens it.
-- - Support/PageTable: src/runtime/support/pagetable.h. Support/Qsort: src/runtime/support/qsort.h.
-- - Support/ArrayList: src/runtime/support/arraylist.h, with Support/Xalloc, its pool of pages
--   (src/runtime/support/xalloc.cpp). ArrayList/Spans says which elements a list over several segments has.
-- - Memory/Page: PageInfo of src/runtime/memory/allocator.h and allocator.cpp: the layout of a page,
--   initialize and rebuild. The free list is in memory, linked through the entries.
-- - Memory/World: the state of allocator and collector (GCAllocator, the data of the thread, pages, memory)
--   and commands over it, which return, fault or run out of fuel. Memory/Float: the floats as an interface,
--   with millionths as an instance for runs.
-- - Memory/Utilization: the classes of utilization and the bucket index of allocator.h, pageNeedsMoved of
--   gc.cpp. Memory/Buckets: the search trees of pages (insertPageInBucket, deletePageFromBucket,
--   findLowestUtilPage); Buckets/Tree says which tree a bucket holds. Memory/GlobalPages: allocateFreshPage and addNewPage.
-- - Memory/Allocator and Memory/OldPages: GCAllocator: allocate and allocateEvacuation, the refresh of pages,
--   processPage, processCollectorPages, deleteOldPage, updateMemStats.
-- - Memory/Threads: the set-up of a thread and of its allocators (src/runtime/memory/threadinfo.h and
--   threadinfo.cpp), compute_average_time.
-- - Gc/Roots: walkStack and checkPotentialPtr of src/runtime/memory/gc.cpp, loadNativeRootSet of
--   threadinfo.cpp. The words of the global
--   storage (GlobalDataStorage of allocator.h), of the stack and the registers are arguments.
-- - Gc/Mark: walkSingleRoot and the loop of markingWalk.
-- - Gc/Evacuate: updatePointers and processMarkedYoungObjects.
-- - Gc/DeadRoots: computeDeadRootsForDecrement. Gc/Decrement: processDecrements and reprocessPageInfo;
--   Decrement/Exact says when the reference counts of a heap are exact.
-- - Gc/Collect: collect.
-- A collection runs Gc/Roots, Gc/Mark, Gc/Evacuate, Gc/DeadRoots and Gc/Decrement and then sorts the pages of
-- every allocator; the roots and pending roots that the first lists are what the second starts from.
-- allocate may start a collection, which is an argument of it.
--
-- Loops that the code bounds by its data run on fuel where recursion is not structural: the marking
-- walk (two rounds for each object that can be visited are enough) and the sort (fuel above the length
-- of the range). Each has a theorem that this fuel gives a result.
--
-- In the collector's state the ArrayList worklists are lists: push_back appends, pop_front takes the head; the
-- visit stack has its top first. A list also has the place of its first element in a segment of 509, since
-- pop_front of the last element from the last place is a fault; the visit stack of 16-byte entries must not
-- become higher than the 254 that fit on a page. Not modelled in the collector's state are the pages that
-- these lists and loadNativeRootSet take from the support pool: a new segment is always given.
-- The asserts of loadNativeRootSet and the ends of its page and of the array of roots are tests of run_walk_stack.
-- Words are kept by byte address, so that words less than 8 bytes apart do not overlap: no entry is that small.
-- A failed assert and an access through a null page or entry are a fault.
-- The loops over trees and lists of pages in memory run on fuel and say when it ran out: more than the length
-- of a list, and walk_fuel of a tree, are enough. Locks are left out, and so are the clock and the arrays of
-- collection times, which compute_average_time gets as an argument; mmap is a field of the state that says at which addresses it fails.
pub mod Prelude
pub mod Common
pub mod Support
pub mod Memory
pub mod Gc
