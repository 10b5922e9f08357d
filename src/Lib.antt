-- ===== src/Lib.antt =====
-- libfilezilla: encoders, addresses, JSON, buffers, formats, dates, rate limits, threads and the event
-- loop of the C++ library in lib/.
--
-- Parts and files. Code that handles text works on lists of code units (Prelude/Text); a char string
-- has units below 256, and a wide string may have larger ones.
--   Buffer.antt            lib/buffer.cpp and lib/libfilezilla/buffer.hpp. The block that data_ points
--                          to is a list of bytes, pos_ is an offset into it, null is a block of no
--                          bytes. Each member function is one definition of its name; the pointer that
--                          get(n) returns is pos_ + size_. Memory.antt has size_t arithmetic, the two
--                          copies with their bounds, and the outcomes: a value, std::abort, or an
--                          access out of bounds.
--   Nonowning.antt         lib/nonowning_buffer.cpp, over the same memory: the class nonowning_buffer;
--                          Nonowning/Refine has sequences of calls and the queue they are compared with.
--   Encode/Hex.antt        hex_encode and hex_decode of lib/libfilezilla/encode.hpp.
--   Encode/Base64.antt     base64_encode_impl and base64_decode_impl of lib/encode.cpp.
--   Encode/Base32.antt     base32_encode_impl and base32_decode_impl of lib/encode.cpp.
--   Encode/Percent.antt    percent_encode and percent_decode_impl of lib/encode.cpp.
--   IpUtils/LongForm.antt  do_get_ipv6_long_form of lib/iputils.cpp; LongForm/Shape and LongForm/Refused
--                          are about its results.
--   IpUtils/AddressType.antt, IpUtils/Routable.antt  do_get_address_type and do_is_routable_address;
--                          Routable/Mapped is about its recursive call.
--   Uri.antt               the class uri of lib/uri.cpp: parse and parse_authority as a chain of cuts, each
--                          with the members set so far; Uri/Print.antt has to_string and its parts,
--                          Uri/Resolve.antt resolve, empty and operator==. Uri/Userinfo, Port,
--                          Authority, Cuts, WellFormed, SplitAuthority and RoundTrip are about a
--                          printed URI that is parsed again.
--   Json.antt              the strings of lib/json.cpp: json_append_escaped, json_unescape_string as a
--                          machine that takes one unit a step, skip_ws.
--   Json/Value.antt        the class json: its values and accessors. Json/Print.antt has to_string,
--                          Json/Number.antt and Json/Parse.antt parse with its depth limit. Json/Numerals,
--                          Spaces, Keys, Readable, Items, Members and RoundTrip are about output that is
--                          parsed again, Json/Reading and Total about how much of the text is read,
--                          Json/Built and Gives about the values that are parsed, Json/Grammar about numbers.
--   Strings.antt           lib/string.cpp and its templates: letter case, comparison without case and
--                          strtok; Strings/Replace.antt has replace_substrings. Strings/Tokens and
--                          Ignoring are about strtok, Strings/Replaced about replace_substrings.
--   Query.antt             the class query_string of lib/uri.cpp, a list of segments in the order of their
--                          keys; Query/Keys and Query/RoundTrip are about a printed one that is set again.
--   Format.antt            sprintf of lib/libfilezilla/format.hpp: what is made of an argument;
--                          Format/Sprintf.antt has the parser of fields and the loop. Format/Returns is
--                          about its rounds, Format/Reread about printed numbers.
--   Time.antt              datetime and duration of lib/time.cpp: a time is a number of milliseconds with an
--                          accuracy. Time/Fields has the setters from numbers, Time/Text those from texts
--                          of digits and to_integral<int>, Time/Rfc822 and Time/Rfc3339 the formats of that
--                          name, Time/Compare the comparison by accuracy. Time/Digits, Printed, Words and
--                          RoundTrip are about RFC 822 both ways, Time/Offset and Zones about offsets,
--                          Time/Midnight, Accuracy and Order about times.
--   Bucket.antt            the class bucket of lib/rate_limiter.cpp, one direction of it, without its
--                          mutex; the numbers have the 64 bits of size_t.
--   Limiter.antt           the class rate_limiter of lib/rate_limiter.cpp, one direction of it, over a record
--                          of the virtual functions of bucket_base. Limiter/Overflow.antt has
--                          distribute_overflow with its loop, Limiter/Tree.antt trees of limiters and
--                          buckets by their depth, and process of the manager. Limiter/Rounds is about the
--                          loop, Limiter/Limits about add_tokens.
--   EventLoop.antt         lib/event_loop.cpp: each member function, up to where it gives its mutex away.
--                          EventLoop/Run.antt has the thread of the loop, entry, as a step relation
--                          together with the calls of other threads and of handlers; condition::wait
--                          of lib/mutex.cpp is part of its rounds.
--   ThreadPool.antt        lib/thread_pool.cpp: the critical sections of the pool, of its threads and of
--                          async_task; ThreadPool/Run.antt has their runs in any order, ThreadPool/Idle,
--                          Listed and Spawning are about the threads in them.
--   Condition.antt         the deadline that condition::wait of lib/mutex.cpp computes.
--   Prelude/Decimal.antt   to_string and to_integral of lib/libfilezilla/string.hpp.
-- URIs use percent encoding, the address types and decimal numbers; query strings use tokens, the order
-- without case and percent encoding; JSON strings use the hexadecimal digits; a buffer is a container
-- for text. Dates are printed by sprintf and read with strtok.
--
-- Bounds and fuel. size_t has 64 bits. The loops of the base64 and base32 decoders take as many rounds
-- as the input has units, and each round takes one unit at least. The two loops over the halves of an
-- IPv6 address take eight rounds together, the bound that the code tests. Decimal numbers have twenty
-- digits at most. A mapped IPv4 address makes is_routable_address call itself once.
--
-- In the event loop handlers and events are numbers, and a point in time is a number of milliseconds,
-- in which 0 is the empty clock. strtok takes one round more than its text has units; each but the
-- last takes a delimiter. The loops of the JSON parser over elements and members take as many rounds
-- as the text has units and one more; each round but the last reads one unit at least. The loop of
-- sprintf takes one round more than the format has units; each but the last takes a percent sign. A
-- char is signed, as the order without case of bytes from 128 on depends on it. to_integral<int> wraps
-- at 32 bits where the code overflows, undefined in C++. Numbers of 64 bits have twenty decimal and
-- sixteen hexadecimal digits at most. The loop that distributes overflow has rounds for every value of
-- the tokens that remain, once for each bucket in it and once more: a round takes a bucket out, or
-- leaves fewer tokens. The numbers of buckets, weights and threads are not wrapped. The loop of
-- replace_substrings takes one round more than the text has units; each round but the last takes a
-- match.
--
-- Not modelled. The bytes of fresh memory are a parameter with the length of the block as its law, and
-- allocation does not fail. Overflow of the int segment in do_get_address_type, undefined in C++, is
-- left out. Of JSON, the mutable accessors and the numeric values are left out. Of the event loop, the
-- start of its thread and the wait of remove_handler for a handler that runs are left out, and
-- intervals are not negative. In its runs the filters of filter_events, which may send an entry to
-- another handler, send none to a handler that is being removed and keep the event an entry holds, and
-- fewer than 2 ^ 64 timers are added, so that next_timer_id_ does not wrap. Sockets, TLS, processes,
-- files, the timer and the locks of the rate limiters and cryptography are not modelled. Of times, the
-- calendar of the C library is a parameter; the clocks, strftime and the code for Windows are left
-- out, as is overflow of int in the fields and of int64_t in timestamps, undefined in C++.
pub mod Prelude
pub mod Format
pub mod Query
pub mod Strings
pub mod Time
pub mod Memory
pub mod Nonowning
pub mod Buffer
pub mod Encode
pub mod IpUtils
pub mod Uri
pub mod Json
pub mod Bucket
pub mod Limiter
pub mod EventLoop
pub mod Condition
pub mod ThreadPool
