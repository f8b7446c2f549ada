-- ===== src/Lib.antt =====
-- libappf: a library for daemons in C (poll loop, timers, telnet client and server, red-black
-- tree) and tcli, a program on it that talks NetLink to power outlets.
--
-- A daemon calls `af_poll_run` and `af_timer_check` in its main loop. The poll list holds the
-- descriptors of servers, clients and the terminal, each with a callback; the timer list holds the
-- timers, each with a callback; callbacks add and remove descriptors and timers. A client reads
-- from its socket up to the prompt, and tcli hands what it reads to the NetLink decoder.
--
-- Base: shared names of the library, lemmas on lists, signed numbers.
-- Client: `struct _af_client_s` of appf.h. Client/Prompt models `_af_client_prompt_detect` of
--   appf_client.c: `window`, `first_match` and `conclude` are its three parts, `feed` is a read of
--   `af_client_read_socket` that restores the bytes kept back. Match has the loops, Detect one call,
--   Stream any number of reads.
--   Client/Send, Client/Connect and Client/New are the functions that send, connect and create.
-- Main: `_af_get_next_arg` and `af_parse_argv` of appf_main.c. A line is the list of its bytes in
--   front of the NUL; the fuel of `parse_loop` is its length, of which each argument takes a part.
--   Itoa is `af_itoa`; its fuel is the number, which each round divides by the base.
-- Poll: appf_poll.c. The list is a list of records, newest first. `poll_add`, `poll_rem` and
--   `poll_run` are `af_poll_add`, `af_poll_rem` and `af_poll_run`; the answer of poll(2) and what the
--   callbacks do are parameters. Registry sees the list as a finite map, Dispatch is one round.
-- Timer: appf_timer.c and `timediff` of appf.h. The lists hold references, and a function gives
--   each its timer. `timer_start`, `timer_stop` and `timer_check` are `af_timer_start`,
--   `af_timer_stop` and `af_timer_check`; the time is a parameter. The fuel of `fire_loop` is the
--   number of expired timers; each round takes one off, and callbacks can only remove others.
-- Server: appf_server.c. A connection has an address and two descriptors; the server's record also
--   has the daemon's poll list and the open descriptors of the process. `set_sockopts`,
--   `add_connection`, `rem_instance`, `server_disconnect` and `server_stop` are the functions of these
--   names, Start has `af_server_start`, Events the two callbacks of the poll list. Account relates the
--   open descriptors to the connections, and Accept is that account for a new one. System calls answer by parameters,
--   and user code is the poll operations and disconnections that it makes; a use of a freed
--   connection is `none`. The fuel of `disconnect_loop` is the number of connections.
-- NetLink: the messages of tcli.c. `packet` is what `send_NetLink_command` sends, `decode` is
--   `decode_NetLink_command`, `Process.process` is `process_NetLink_message`; memory is a list of
--   bytes, and a read behind its end is a fault. The fuel of the loop is the number of bytes. Send is
--   `send_NetLink_command` and `send_NetLink_login` with the socket.
-- RedBlack: redblack.c and redblack.h. Memory is a function from addresses to nodes; half of the
--   source, which is the other half with left and right exchanged, is a parameter `Side`. `rotate` is
--   `rb_rotate_left` and `rb_rotate_right`, Insert and `descend` are `rb_traverse`, Delete is
--   `rb_delete`, `rb_delete_fix` and `rb_successor`, Walk the walks, Api the functions of redblack.h.
--   The fuel of every walk is one more than the number of elements. Memory says what tree the memory
--   holds, seen from a node inside it, what a rotation and a change of color do to it, and what a
--   balanced tree is. The children of Insert take a round of `rb_traverse`'s loop (Round, Uncle), the
--   loop (Rebalance, Loop), the walk down (Cut, Lookup, Descending), the new node (Attach) and the
--   whole (Adding); those of Delete a round of `rb_delete_fix` (Sibling, Reads, Nephew), its loop
--   (Endings, Fixing, FixLoop), the writes of `rb_delete` (Replacing, Substitute, Unlink, Spine) and
--   the whole (Removing, Deletion), and `rb_successor`; those of Api lead to the sorted list of the
--   elements: Members for `__rb_tree_add` and `__rb_tree_get`, Remove, Following for
--   `__rb_tree_get_next`, Walks for `__rb_tree_walk_inorder` and `__rb_tree_get_first`.
--
-- A user's disconnection callback changes the poll list only. Addresses are numbers, machine words
-- are numbers with their wrap-around written out, and an allocation succeeds where the model does not
-- ask. Log lines are left out. Not modelled: the client's read loops, processes, signals, start-up,
-- the terminal, the tree's mutex, the hash list, and the libraries that the repository has copies
-- of (cJSON.c, kernel-list.h).
pub mod Base
pub mod Client
pub mod Main
pub mod NetLink
pub mod Poll
pub mod RedBlack
pub mod Server
pub mod Timer
