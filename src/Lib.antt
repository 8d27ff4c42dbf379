-- ===== src/Lib.antt =====
-- fast-http: the core of a small HTTP server written in C.
--
-- The program parses requests that libuv delivers into a byte buffer of pages (dynmem.c), keeps what
-- the parser found as positions in that buffer, and answers from another such buffer. The codecs
-- hex.c, urlencode.c and base64.c stand beside it.
--
-- Prelude: lists, numbers, tests and faults that the rest shares. A fault (an access outside of a
-- block) is none of Option, and so is a loop that runs out of fuel.
-- Dynmem: dynmem.c and dynmem.h. dynmem_t is the record Dynmem, its circular list of nodes the list
-- of the pages in order; dynmem_grow is grow, dynmem_set_len set_len, dynmem_set_cap set_cap, and so
-- on. Dynmem.Foreach has dynmem_foreach with its callbacks, and dynmem_write, dynmem_read,
-- dynmem_chr, dynmem_rchr and dynmem_equal. malloc is a parameter that gives a block of the size
-- asked for; the code never tests whether it failed.
-- Dynmem.Walk relates the walk over the pages to a run of the callback over the pieces of one range
-- of bytes; Dynmem.Place is about dynmem_get, Dynmem.Sizes has the well-formed buffers and the operations on sizes;
-- Dynmem.Bytes and Dynmem.Search have reading, writing and searching.
-- Hex: hex.c and hex.h. hex_encode is encode, hex_decode decode, and their lengths encode_len and
-- decode_len.
-- Urlencode: urlencode.c. The static encode and encode_length have their names; what C leaves
-- undefined of a shift by 32 or more is the parameter Shift.
-- Base64: base64.c. base64_encode_custom is encode_groups for the groups of three bytes and
-- encode_rest for what is left; Base64.Decode has base64_decode_custom in the same way and
-- base64_decode_len. The decoder of four characters a round gets a round per character as fuel.
-- Crc32: crc32.c, with its table.
-- Str: str.c and str.h. A str_t is the record Str of its length, its capacity and the bytes of its
-- block.
-- Pool: pool.c. The bitmap is a list of words, pointers are addresses, and the circular list of the
-- separately allocated objects is the list of their nodes; pool_get gets the address that malloc would
-- give, and the block of a new pool is taken to be whole (the sum of its parts in pool_malloc is a uint32_t
-- that can wrap). Pool.Held says which objects are given out; Pool.Get and Pool.Put are about the two
-- operations, Pool.Owns about who has the objects, Pool.Reach about the pools that calls lead to. The search for a digit has 32 rounds, as in the code.
-- Buffer: buffer.c and buffer.h. The array of pointers is a list, with none for a pointer that was never
-- set. Buffer.Walk has buffer_foreach, its callbacks, buffer_write, buffer_read and buffer_get;
-- Buffer.Blocks the bytes of the blocks in order. Doubling a size_t gets 65 rounds as fuel, adding 1024
-- one more than the capacity, and the loop over the pieces one more than its end.
-- ListHead: list.h. The store is the two pointers of every node, Ring says which nodes hang on a head in
-- which order. __list_add is insert_between and __list_del join.
-- Aidb: aidb.c. A file is its bytes, MD5 is a parameter, and the fields of the packed header are read with
-- the lowest byte first.
-- FilePath: the functions of log.c on file names. The result -1 is none.
-- HttpContext: httpctx.c and httpctx.h. A value is a position and a length in the buffer of the
-- request. HttpContext.Callbacks has the functions that the parser calls back, as steps from one
-- request to the next; HttpContext.Pieces what they store of something that arrives in pieces; HttpContext.Header the lookup of a header; HttpContext.Path the tests of the
-- path; HttpContext.Response the inline functions that fill the response; HttpContext.Complete what
-- on_message_complete leaves. atoi and the memory of a new header node are parameters.
--
-- HttpServer: the status texts of httpserver.c and what it copies inside the buffer of a response.
-- Answer has the way of a response out: write_http_header, fill_uv_buf_ts, write_http_resp and
-- log_write_status. Its children follow the code: Line (the status line and snprintf), Appends and
-- Lines (what is put behind the contents), Header, Aligned (dynmem_align), Piece, Fill and Range (the
-- uv_buf_t of a range and their number), Array, Log, Send and Whole. httpserver.c calls dynmem_grow
-- with a length, which dynmem.c does not have; it is a parameter that, as the comment in on_readed
-- says, moves the length.
--
-- Connection: the contexts of connections and the nodes of their headers, which come from the two
-- pools of a server (httpctx_pool_t) and go back in httpctx_free_data, httpctx_free and httpctx_reset.
-- Owns says who has the objects of one pool when a list goes back; Steps has the calls of libuv and of the parser as steps of
-- the server in any order; Calls and Lifecycle follow the owners through them. The bytes of a context
-- are zero where memset clears them; what libuv keeps in it and the state of the parser are left out.
--
-- Ptr: the counted blocks of ptr.h, in a store of all blocks.
--
-- Numbers are natural numbers; uint32_t wraps where the code can reach that (u32, sub32). Fuel: the
-- loops of dynmem_set_len and dynmem_set_cap get the new capacity plus one, or the number of pages, as
-- fuel, since each round adds or frees a page, and dynmem_init 33 rounds, since a word has 32 bits. The
-- decoder of hex.c gets a round per byte of the source and one more.
--
-- Not modelled: on_readed, on_allocing, log_trace_req and the sockets of httpserver.c, since libuv and
-- the parser do most of their work; its routes, whose comparison does not agree with rbtree.c and which
-- nothing serves yet; the output of log.c, which is stdio; the copies of other libraries (http_parser,
-- memwatch, printf, PolarSSL, rbtree, jsmn); the programs and tests; hashmap.c, which does not compile,
-- and old-aidb.c, which aidb.c replaced.
pub mod Prelude
pub mod Dynmem
pub mod Hex
pub mod Urlencode
pub mod Base64
pub mod Crc32
pub mod Str
pub mod Pool
pub mod Buffer
pub mod ListHead
pub mod Aidb
pub mod FilePath
pub mod HttpContext
pub mod HttpServer
pub mod Connection
pub mod Ptr
