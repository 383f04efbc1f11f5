-- ===== src/Lib.antt =====
-- watch_it: a Linux daemon that watches directories by inotify and runs one command when a file is
-- opened and another when it is closed again.
--
-- The program's parts, with their paths from the repository's root:
--   * src/config.c reads /etc/watch_it.conf through the iniparser library: which directories to
--     watch, which events, how long a file is to be open, and the two commands.
--   * src/watch_it.c, the daemon: the table of watches, and the loop that reads inotify events and
--     hands them over by `event_handling_add_event`.
--   * src/event_handling.c, a producer and a consumer over a list of open files. The main thread
--     adds events; the consumer thread runs the commands of the files that have been open longer
--     than `min_read_close`, and forgets the files that were closed.
--
-- Base has the names that all modules share, CString the C library's string functions on byte
-- lists. Replace is `str_replace`. Handling is the rest of src/event_handling.c: Types its data
-- and environment, Clock the ticks, Files the operations on one file and on the list, Add
-- `event_handling_add_event`, Commands `execute_open_event` and `execute_close_event`, Consumer
-- one round of `consumer`, Wait `wait_for_producer`, System the two threads, and Init
-- `event_handling_init`. Lookup is the abstract view of the list as a map, Phases the diagram of
-- what happens to one file, Accounts the heap and the number of commands, and Life one file from
-- its opening to its end, or to a close event that is lost. Consumer/Shortened is what a round
-- makes of `cur_wait`. Clock/Race takes `event_handling_get_tick` apart into its accesses to
-- `last_tick`. Daemon is src/watch_it.c: Table the watches, Reader `get_event`, Start
-- `begin_watch` and `main`, and Threads the daemon's loop round by round with the consumer's turns
-- in between. Origin, in Handling and in Threads, follows the files in the list and the commands
-- back to the events and to the configuration, Start/Configured goes from `main` on. Start/Serves
-- is the way from a file that is in order to a daemon that watches, and Daemon/Life goes on from
-- there to the commands for one file, by way of the bytes of its two events, or to none if it is
-- closed too soon. Wakeup has the condition variable with its waiting consumer, and Lookup/Reorder
-- the list under another order of the events. Config is src/config.c: FireOn the words of
-- `fire_on`, Dirs the two passes over the directories, Load `config_load`, Free `config_free`, and
-- Printer a file with given settings.
--
-- How the code is read. A string is the list of its bytes before the terminating zero; a NULL
-- pointer is `none`. An `int` is its 32-bit pattern, an `unsigned long` a number below 2 ^ 64, and
-- the wrap-around is written out. The directories are counted by a number without a bound, whose
-- `int` is its rest modulo 2 ^ 32, and it is this that is compared with 0 and gives the size of the
-- array. There is one exception: where a length or a product overflows an `int` in `str_replace`,
-- the model of it stops with the outcome `overflow`, and nothing is run. The n-th `clock_gettime` and the success of the n-th `malloc`
-- are functions of the environment. `system` is a log of the commands; what syslog is told is left
-- out. The links of include/list.h, a copy of the Linux kernel's, are the order of a list of
-- entries, and a pointer to an entry is its position. Each call of `event_handling_add_event` and
-- each round of the consumer holds the mutex from end to end, so it is one step; the producer's
-- time stamp is taken without the mutex and is a step of its own there, while Clock/Race has a
-- turn for each single access. Inside `pthread_cond_timedwait` the mutex is free, and the wait may
-- end at any time. The iniparser dictionary is a function from keys to values, and the file system
-- gives the entries of a directory and what `lstat` sees; both passes over the directories see the
-- same. A `double` is a value of any type with the operations that the code uses. The bytes of the
-- inotify buffer are those that `read` returned, with zeros behind them.
--
-- The counting loop of `str_replace` has the bytes of the string and one as its fuel. Each of its
-- rounds goes past at least one byte, so the fuel is never used up. The loop of `get_event` has
-- the bytes that were read and one: each event is at least 16 bytes. The recursion over
-- directories has any fuel above the height of the tree of directories.
--
-- Not modelled: what `pthread_cond_timedwait` logs when it fails, the lengths of the fixed-size
-- buffers for values of the file (those for paths and names of events are in Config/Load/Lengths
-- and Daemon/Start/Buffers), the sizes of heap blocks other than that of `str_replace` and of
-- `watch_dir`, and the library in src/iniparser.
pub mod Base
pub mod CString
pub mod Replace
pub mod Handling
pub mod Daemon
pub mod Config
