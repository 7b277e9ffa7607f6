-- ===== src/Lib.antt =====
-- The repository is a collection of small C++ and C programs. This library models, program by
-- program, the code that has logic of its own, and proves that logic right.
--
-- How to read it. A function of the source is a function here under its own name in snake case, and
-- stands under a comment that quotes the source where names alone do not tell. A loop is a recursion
-- of its own, on the list that it walks or on fuel. A call ends (Base/Run.antt) with `ok`, or in
-- `fault` where the source has undefined behaviour (a read out of bounds, the top of an empty stack,
-- overflow of `int`), or `out_of_fuel`, an outcome of the model alone, which every theorem on a loop
-- excludes. Arrays, vectors and stacks are lists; an `int` that can be negative is in Base/Int.antt.
--
--   Base.antt and below: shared names, runs, arrays, integers, texts; programs that pass a state on
--   (Base/Prog.antt), and those that log their calls of a library (Base/Attempt.antt).
--   PriorityQueue.antt: struct_and_algo/priority_queue.cpp. The fuel of `swim` is the index plus one,
--   which falls to its parent; that of `sink` the length plus one, since the index grows.
--   Order.antt has the heap order, Swim.antt and Sink.antt the two loops, Methods.antt the methods,
--   Drain.antt the loop of `main`.
--   Postfix.antt: struct_and_algo/reverse_polish_notation.cpp. Grammar.antt says which infix texts
--   the code's own tables have for which expression, Convert.antt and Calculate.antt are about
--   `getPostfix` and `expCalculate`; Meaning.antt has the texts and their values apart from the code,
--   Parens.antt and Operands.antt about texts outside the grammar.
--   ChatServer.antt: misce_tests/socket/chat_server.cpp. The system's calls are a record of functions
--   on the state of the system (Sockets.antt), which it is assumed to answer by laws (Laws.antt):
--   accept and socket open a descriptor below FD_SETSIZE, close closes it, and finitely much traffic
--   waits between two calls of select. The fuel of the inner loops is any number above that traffic;
--   the outer loop runs for a given number of rounds. Invariant.antt follows the body of the loop,
--   Main.antt the loop, the set-up and the clean-up.
--   Encoder.antt: the class `EncoderH264` of ffmpeg/ffmpeg_encoder.cpp. Every call of FFmpeg goes to a
--   log, and FFmpeg's answer is any function of the log (Calls.antt). Ledger.antt reads off a log what
--   is held, what the output was made of and which of it was refused; Stages.antt follows the methods, Session.antt the loops
--   and the life of the encoder in `main`. The fuel of the loop of `encode` is any number above the
--   packets that the codec has to give.
--   Decoder.antt: `main` of ffmpeg/ffmpeg_test.cpp and of ffmpeg/ffmpeg_encoder.cpp, as programs over a
--   log of FFmpeg's calls; the encoder's methods are calls there. Ledger.antt reads counts and resources
--   off a log, Loops.antt follows the loops, Mains.antt the programs. The fuel of the loops is any number
--   above the packets and above the frames of the file.
--   InfoFile.antt: the files of misce_tests/stringstream/stringstream.cpp, with `<<` and `>>` of numbers as
--   a parameter that obeys laws (Laws.antt). RoundTrip.antt: what is written is read again, Copies.antt: the files of main. The fuel of a loop that
--   reads a list is any number above its length.
--   ThreadIds.antt: misce_tests/thread_id/main.cpp, with a list of turns as the order in which threads run
--   and signals come. Stop.antt: the threads stop when they should.
--   Nv21.antt: the copy of a picture in test_bgr_to_yuv of misce_tests/OpenCV/test_opencv.cpp. The fuel of
--   its loop is any number above the bytes of the picture.
--   Gaussian.antt: `getGaussianArray` and `gaussian` of misce_tests/OpenCV/test_opencv.cpp, over any
--   arithmetic of `double`. Reference.antt describes the blur by the samples near a place, Pass.antt is
--   about the loops over the pixels, Blur.antt about the loop over the kernel, Correct.antt about both
--   passes, Even.antt about a kernel of even size.
--   Dates.antt: the loop of main.cpp's `test_regex` that checks dates, with regular expressions as far as it
--   uses them. Language.antt is about the search for a match, Calendar.antt about the expression for a
--   date, Checks.antt about the loop.
--   FaceFile.antt: misce_tests/test_fscanf/main.cpp, with fscanf as far as its formats go; Reading.antt
--   follows it along the line of a face.
--   Loggers.antt: misce_tests/singleton_protected_constructor/main.cpp; Alone.antt follows the objects
--   that live.
--   Rectangles.antt: `iou` and `isOverlap` of misce_tests/OpenCV/iou.cpp, for any arithmetic;
--   Overlap.antt says which of its laws they need of finite numbers.
--   Pipes.antt: fifoWriter.c and fifoReader.c of ipcCode/pipes. Prime.antt is about `is_prime`, whose
--   loop ends within 8000 rounds on an `int`; Fifo.antt about the two programs and both together.
--   Sessions.antt: the small socket programs. Each is a program over a log of its calls, the answers
--   of the system being any function of the log (Calls.antt); Ledger.antt reads off the log what is
--   open and what was said, apart from what was not since a write failed; a write that succeeds is
--   taken to write all that it is given. To print a buffer that is not known to hold a null is a
--   fault. UnixDomain.antt: unix_domain_socket_server.c and unix_domain_socket_client.c
--   of misce_tests/socket; Servers.antt: socket_server.cpp of misce_tests/socket, server.c and
--   server_unix.c of ipcCode/sockets; Clients.antt: chat_client.cpp and socket_client.cpp, client.c and
--   client_unix.c. An endless loop runs for a given number of rounds; a loop that reads to the end of a
--   stream has fuel, which is enough when it is more than the texts that the other ends send.
--   Ipc.antt: more pairs of processes of ipcCode. SharedMemory.antt: shmem, whose sem_open is taken to succeed and whose processes take turns
--   in any order, given as a list of turns (Schedules.antt for what may be printed, Progress.antt for
--   getting to the end); MessageQueue.antt: mqueue, over a queue of the system with
--   laws; Copy.antt: flock and pipes/pipeUN.c, over logs of calls; Signals.antt: sigs, with turns in any order. The fuel of the loop that copies is
--   any number above the length of what is read.
--   Permutation.antt: struct_and_algo/permutation.cpp. Arrange.antt describes the lines without an
--   array, Loops.antt proves that the loops give them; Split.antt is about the flat output with
--   delimiters. The fuel is the number of nested calls.
--
-- Not modelled: the build files, scripts and data, what other libraries do, and printing that has no
-- effect on the rest of a program. Of main.cpp only the loop for dates is modelled: its other functions
-- print what features of the language do, as do shared_ptr_usecount, singleton_destructor,
-- vector_deque_clear and IEEE-754-float.cpp of misce_tests, whose programs run once on fixed data.
-- misce_tests/OpenCV/traverse_triangle.cpp does not compile and draws nothing.
pub mod Base
pub mod PriorityQueue
pub mod Postfix
pub mod Permutation
pub mod ChatServer
pub mod Encoder
pub mod Rectangles
pub mod Pipes
pub mod Sessions
pub mod Decoder
pub mod Ipc
pub mod InfoFile
pub mod ThreadIds
pub mod Nv21
pub mod Gaussian
pub mod Dates
pub mod FaceFile
pub mod Loggers
