-- ===== src/Lib.antt =====
-- kxo is a kernel module that plays tic-tac-toe on a board of four by four, three in a row, nine
-- games at a time, agents against each other, and the programs that show the games. This library
-- models the module and proves what makes it correct.
--
-- The parts. include/game.h packs a board, the attributes of a game and the record of its moves
-- into words, and src/game.c knows the rules (Board.antt and the files below Board/).
-- include/util.h scores a board (Score.antt). src/zobrist.c caches the results of the negamax
-- agent (Zobrist.antt), and src/xoroshiro.c draws the random numbers of the MCTS agent
-- (Random.antt). src/negamax.c is the agent that searches (Negamax.antt), and src/mcts.c the one
-- that plays simulated games (Mcts.antt, its arithmetic in Mcts/Uct.antt). src/rl.c is the agent
-- that learns (Learner.antt), and src/rl-state.c keeps what it has learnt (Learner/States.antt).
-- src/main.c runs the games: a timer marks the games that are not over and queues the work that
-- finishes the others, a tasklet gives each ready game to the work of the agent whose turn it is,
-- that work makes one move, and other works draw the board and set up the next game (Engine.antt,
-- Engine/Move.antt for the two workers, Engine/Handlers.antt for the timer, the tasklet and the
-- other works; Agents.antt is the table of the agents). User space reads the boards and steers the
-- module through a character device and a file of sysfs (Engine/Device.antt); a second timer
-- measures the agents (Engine/LoadAvg.antt); kxo_init and kxo_exit load and unload all this
-- (Engine/Lifecycle.antt). System.antt puts the handlers together: a step is one of them, in any
-- order, and Reach holds of the states that any number of steps leads to from the state after
-- kxo_init. In user space, user/coro.c runs the tasks of the program that shows the games
-- (Coro.antt: a saved context is the list of what the routine will still do that the runtime sees,
-- and a run goes from one switch to the scheduler to the next), and user/tui.c draws the boards
-- and the tabs below them through a buffer (Terminal.antt: the buffer; Terminal/Boards.antt,
-- Terminal/Tabs.antt and Terminal/Startup.antt: what is drawn, as strokes, each a place and the
-- texts from there on). user/xo-user.c is that program: in each round one task shows the clock,
-- one takes a key or a board, and one shows the tab (User.antt). A key may change the attribute of
-- the module (User/Keys.antt).
--
-- The state. Kxo is the record of the variables of src/main.c, with a field of the same name for
-- each. A handler is a function on it with the name of the C function; a loop over the games is a
-- recursion on the number of games to come, which is the fuel and is exactly N_GAMES, BOARD_SIZE
-- or the number of set digits, so none runs out. The words are natural numbers; every shift to the
-- left and every complement is cut to its width as written in the source. What the kernel is asked
-- to do is kept as a list of calls: queued holds the items given to queue_work that have not run,
-- produced the boards given to the fifo. queue_work of an item that is pending does nothing in the
-- kernel and lists it twice here.
--
-- Interleaving. A worker is cut in two: it reads the attribute word and the board without the
-- lock, and writes with the lock held. Any other step may run between the two. The other handlers
-- are single steps: the timer and the tasklet run in soft interrupts and read the state of a game,
-- which a worker writes last, and the works take the lock of the game. kxo_release waits for the
-- works that are queued or running when it was the last file, so its end is a step of its own. The
-- timers and the tasklet are off by then, so no work is left when it returns (IsIdle), unless a
-- kxo_open comes in between: a call that one has overtaken may return in any state, and what is
-- proved of the states that are reached has as a condition that no work was left then (AllQuiet).
--
-- Parameters. To the engine the agents are a function that answers -1 or an empty cell of the
-- board that it is given (IsLegal), and update_state_value a function on what the learning agent
-- keeps. The agents have models of their own, which fill that interface (Agents.antt): the negamax
-- agent takes the sort of the kernel, which keeps the moves of the array (Sorts), the keys of
-- zobrist_table (zobrist_keys in Zobrist.antt, from the times that the kernel tells) and the
-- memory for entries of the cache as parameters; the MCTS agent whether memory is given for a node
-- and when the module stops; src/rl.c takes a store with a read and a write of a score (Store),
-- which src/rl-state.c fills (rl_store), and src/rl-state.c the choice of a bucket by the kernel's
-- hash. ffs, hweight32, sscanf, the load-average arithmetic and what kfifo_to_user, copy_to_user,
-- the formatting of vsnprintf and the allocations of kxo_init and co_start return are inputs. A
-- co_start of a slot whose stack could not be had before crashes, which is none in the model. To
-- the drawing the terminal is a record of operations (Terminal) that obeys laws (IsTerminal), for
-- a screen of 110 columns and 64 rows: a character appears where the cursor is, and nothing else
-- changes. A round of user/xo-user.c takes what select, read, the clock and ioctl give as its
-- input. Its three tasks run one after the other, as user/coro.c runs them: User/Tasks.antt has
-- the same rounds with the tasks as coroutines that send and receive the message. kzalloc in
-- available_moves is taken to succeed, as the code takes it to.
--
-- Fuel. The search of the negamax agent recurs on its depth, which the code bounds too. A walk of
-- mcts down its tree and a simulated game recur on N_GRIDS + 1, as each round fills a cell. co_run
-- is a loop on fuel, one unit for each round, and returns when it is given more than the acts
-- before the coroutines and the coroutines in the run queue; the example of Tests/CoroTests.antt
-- gives ten, and the three tasks of a round of user/xo-user.c need four.
--
-- Not modelled: the switch of contexts and the stacks of user/coro.c, termios, the file of the
-- logo and the opening of files in user/tui.c and user/xo-user.c, the text that the key of the end
-- prints past the drawing, and a select that fails, which ends the program; logging and the times
-- that are only logged; the memory barriers, since a handler is one step. kxo_exit is modelled for
-- the resources that it gives back.
--
-- Prelude.antt and the files below Prelude/ hold what the parts share: integers, lists and array
-- cells over the native numbers, Boolean tests, digits of numbers and the fields of words.
-- Tests.antt holds runs and instances.
pub mod Prelude
pub mod Board
pub mod Score
pub mod Zobrist
pub mod Random
pub mod Learner
pub mod Negamax
pub mod Mcts
pub mod Coro
pub mod Terminal
pub mod User
pub mod Engine
pub mod System
pub mod Agents
mod Tests
