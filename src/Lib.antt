-- ===== src/Lib.antt =====
-- A model of the MQTT-like broker, its publisher and its subscriber.
--
-- The broker (broker_server.c) starts one thread for each connection. The thread reads two lines,
-- a name and a subscription `<node>/<topic>` or NONE, enters the client in tables that all threads
-- share, under the semaphore `sem_mutex`, and then, once `sem_control` lets it, goes round the
-- table of subscriptions for good: for each one it reads a line of six values from the publisher's
-- connection and writes the topics that the subscriber wants to the subscriber's connection. The
-- publisher (pub_client.c) runs exec_top and exec_grep, which leave a report in info.txt, makes a
-- line of it and sends it. The subscriber (sub_client.c) prints what it gets.
--
-- The files, and the code they are about:
--   Base, Int          numbers, lists and Boolean tests, with no code of the program
--   Result             how code ends: `ok`, `exits` (the process leaves), or a `fault`, where C has
--                      no defined behaviour: `overrun` is an access outside of an array, `unset` a
--                      read of what was not written, `null` the null pointer. Result/Ensures has
--                      postconditions of code that returns
--   CString            the <string.h> calls; CString/Split is `split` of broker_server.c and
--                      `separar_tokens` of the clients
--   Topics             `string_topics`, `update_sus_info`, `find_topic_by_name`; Topics/Filters
--                      says what a filter asks for,
--                      Topics/Levels which filters the broker reads so
--   Decimal, Net       "%d", `write_log`, and the parameter `Net`
--   Broker             the tables, `find_index_by_client_name`, `sig_handler`; Broker/Register is
--                      `thread` up to its call of `forward_messages`. Broker/Directory is the
--                      abstract view of the four tables: a list of clients
--   Forward            `forward_message` and the loop of `forward_messages`; Forward/Service is what
--                      a round does, in terms of the directory
--   Threads            the threads as a step relation, with a registration as one step;
--                      Threads/Interleave has each store to a table as a step of its own,
--                      Threads/Calls each call of Rio_readlineb and Rio_writen in the loop, and
--                      Threads/Strtok each call of strtok in `split`.
--                      Threads/Setup is `main`
--   Publisher          pub_client.c; Publisher/Strtol is strtol for a long of 64 bits and
--                      Publisher/Rounds the loop of `main`, Publisher/Main all of it
--   Subscriber         sub_client.c, with its `main` in Subscriber/Main
--   Processes          exec_top.c and exec_grep.c; Processes/Forks is exec_grep.c with commands that
--                      cannot be run
--   Sockets            common.c; Sockets/Robust is open_listenfd and open_clientfd of csapp.c
--   Rio                the reader and the writer of csapp.c, over the system's answers;
--                      Rio/Connections makes an instance of Net of them
--   Journey            the programs together; Journey/Connect is a
--                      subscriber's way into the tables, Journey/Delivery the way of a
--                      publisher's line over connections, Journey/Lost what becomes of lines that come
--                      together, Journey/Gone of a subscriber's end, Journey/Shares which
--                      subscriber of several gets which line, Journey/Session and Journey/Whole
--                      all three programs together
--   Prototypes         prototypes/trash/sleep_test.c, and below it the two programs of
--                      prototypes/demo_tcpip
--   Tests              runs on concrete inputs
-- A child module has what its name says about the code of its parent.
--
-- Texts are lists of bytes up to the NUL, over the native numbers; a buffer is its size where a
-- text is put in it (`store`), and the rest of its bytes are not kept. The loops over strtok run on
-- the length of what is left of the text; `forward_round` has fuel for entries, of which a round
-- makes one more than the table has cells at most, `listen` and `echo_loop` for lines, of which
-- they read one more than come, and `bytes_loop` for calls of rio_read, of which it makes one for
-- each byte at most; `forward_rounds` is given the number of rounds of the endless loop. The
-- uninitialised array subscribed_info and the size of buf_suscription_info are arguments; in the source
-- it is 2, so that of the filters only `#` fits in, and what is said of larger arrays is what the code
-- would do with them.
--
-- csapp.c is a copy of another project's library: for the programs its calls are the fields of `Net`,
-- with no laws. The functions of it that each message passes through, and those next to them that read
-- a number of bytes, have a model of their own in Rio and Sockets/Robust, over lists of the answers
-- that the system gives.
-- malloc, the type float, the time, the system's answers to socket calls, and what a command prints
-- are parameters too. Not modelled: signals other than SIGINT, perror, usage texts, and the rest of
-- csapp.c. In Threads/Interleave the six cells of a row are one store, and a call of forward_message,
-- which stores to no shared table, is one step; in Threads/Calls its reads and its writes are steps, and
-- what the threads do in front of their loops is any change of the tables that writes to no connection.
-- strtok keeps its place in one pointer that all threads share. Only Threads/Strtok takes a split call by
-- call; in Threads, Threads/Interleave and Threads/Calls it is part of one step, so they have the runs in
-- which no other thread calls strtok while one is splitting a line. In
-- Threads a registration is one step too, though forward_messages reads the tables without sem_mutex;
-- what it can read in between is in Threads/Interleave and Forward/Midway.
-- malloc is a function of the size that is asked for: a publisher that asks for the same size in two
-- rounds gets a block with the same room and the same bytes in both.
pub mod Base
pub mod Int
pub mod Result
pub mod CString
pub mod Topics
pub mod Decimal
pub mod Net
pub mod Broker
pub mod Forward
pub mod Threads
pub mod Publisher
pub mod Subscriber
pub mod Processes
pub mod Sockets
pub mod Rio
pub mod Journey
pub mod Prototypes
pub mod Tests
